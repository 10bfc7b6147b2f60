-- ===== src/Server/Tests.antt =====
-- The theorems on server/server.c at a concrete file system: its state counts changes, and only
-- the path "a" can be read.
use fuse_study.Base.{
  ℕ, true, none, some, List, [], ◌∷◌, ◌+◌, ◌==◌, ◌≡◌, refl, if◌then◌else◌, length,
}
use fuse_study.Server.{
  FilePath, ok, fails, Dirent, Payload, packets, Files, done, handle, Loop, hung_up, has, on_event,
  unlink_request, write,
}

abbrev a_path : FilePath
a_path = b'a' ∷ []

abbrev tiny : Files ℕ ℕ
tiny = record {
  access = λ fs p. length p == 1;
  lstat = λ fs p. if length p == 1 then ok fs else fails 2;
  stat_of = λ fs p. ok fs;
  list_dir = λ fs p. ok [];
  open_file = λ fs p flags. ok fs;
  open_create = λ fs p. ok (fs + 1);
  make_dir = λ fs p mode. ok (fs + 1);
  remove_dir = λ fs p. ok (fs + 1);
  unlink = λ fs p. ok (fs + 1);
  read_file = λ fs p. if length p == 1 then some (1 ∷ 2 ∷ []) else none;
}

abbrev no_mask : ℕ → ℕ
no_mask flags = flags

write_run :
    handle tiny no_mask 7 4 a_path none 0 ≡ done 4 (packets (Payload.contents (1 ∷ 2 ∷ [])) ∷ [])
unfolding handle write
write_run = refl

unlink_run : handle tiny no_mask 8 4 a_path none 0 ≡ done 5 []
unfolding handle unlink_request
unlink_run = refl

abbrev two_entries : List Dirent
two_entries =
    record { d_name = b'.' ∷ []; d_ino = 1; d_type = 4 }
    ∷ record { d_name = b'f' ∷ []; d_ino = 2; d_type = 8 }
    ∷ []

-- Two clients, 5 and then 6.
abbrev two_clients : Loop
two_clients = record {
  server_sock = 3;
  client_sock = 6;
  watched = 6 ∷ 5 ∷ 3 ∷ [];
  open_socks = 6 ∷ 5 ∷ 3 ∷ [];
}

-- Client 5 hangs up, and client 6 is dropped.
wrong_client :
    on_event two_clients (hung_up 5)
    ≡ record { server_sock = 3; client_sock = 6; watched = 5 ∷ 3 ∷ []; open_socks = 5 ∷ 3 ∷ [] }
unfolding on_event
wrong_client = refl

watched_run : has 5 (6 ∷ 5 ∷ 3 ∷ []) ≡ true
unfolding has
watched_run = refl
