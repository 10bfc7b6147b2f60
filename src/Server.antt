-- ===== src/Server.antt =====
-- The file server, server/server.c: what each request does to the exported files and what it
-- sends back, and the event loop's handling of its sockets.
pub mod Requests
pub mod Events
mod Tests
use fuse_study.Base.{
  ℕ, zero, suc, Bool, true, false, Option, none, some, List, [], ◌∷◌, ◌++◌, ltb, leb, ◌==◌,
  if◌then◌else◌, not, ◌&&◌, ◌||◌, ◌-◌, ◌+◌, length,
}

abbrev pub FilePath : Type 0
FilePath = List ℕ

-- The result of a system call: a value, or `errno`.
pub data Call (A : Type 0) : Type 0 where
  ok : A → Call A
  fails : ℕ → Call A

-- `struct dirent` as far as it is sent.
pub record Dirent : Type 0 where
  pub d_name : List ℕ
  pub d_ino : ℕ
  pub d_type : ℕ

-- What is sent: a number (an errno is sent negated), a name with its NUL, a `struct stat` that
-- was filled, one that was not, the two fields that `readdir` fills, or the bytes of a file.
pub data Payload (S : Type 0) : Type 0 where
  int : ℕ → Payload S
  neg_errno : ℕ → Payload S
  minus_one : Payload S
  name : List ℕ → Payload S
  stat : S → Payload S
  stat_unset : Payload S
  stat_entry : ℕ → ℕ → Payload S
  contents : List ℕ → Payload S

-- By `bound_send`, in packets, or by a bare `write`.
pub data Sent (S : Type 0) : Type 0 where
  packets : Payload S → Sent S
  raw : Payload S → Sent S

-- The calls of the kernel and the C library on the files `F`, with the results `S` of stat.
pub record Files (F S : Type 0) : Type 0 where
  pub access : F → FilePath → Bool
  pub lstat : F → FilePath → Call S
  pub stat_of : F → FilePath → Call S
  pub list_dir : F → FilePath → Call (List Dirent)
  pub open_file : F → FilePath → ℕ → Call F
  pub open_create : F → FilePath → Call F
  pub make_dir : F → FilePath → ℕ → Call F
  pub remove_dir : F → FilePath → Call F
  pub unlink : F → FilePath → Call F
  pub read_file : F → FilePath → Option (List ℕ)

-- What a request leaves: the files and the messages, or a crash (`fseek` on a null `FILE *`).
pub data Effect (F S : Type 0) : Type 0 where
  done : F → List (Sent S) → Effect F S
  crash : Effect F S

-- `~(O_CREAT | O_EXCL)` on the flags, given by the caller with the bit operation.
module _ {F S : Type 0} (os : Files F S) (mask_flags : ℕ → ℕ) where
  -- `case 0x00`
  unfoldable pub lookup : F → FilePath → Effect F S
  lookup fs path = done fs (
      packets (int (if os.access fs path then 1 else 0))
      ∷ packets (elim (os.lstat fs path) [ ok st ↦ stat st | fails e ↦ stat_unset ])
      ∷ [])

  unfoldable pub getattr : F → FilePath → Effect F S
  getattr fs path = elim (os.lstat fs path) [
    | fails e ↦ done fs (packets (neg_errno e) ∷ [])
    | ok st ↦ done fs (packets (int 0) ∷ packets (stat st) ∷ [])
  ]

  unfoldable pub send_entries : List Dirent → List (Sent S)
  send_entries [] = packets (int 0) ∷ []
  send_entries (de ∷ rest) =
      packets (int 1)
      ∷ packets (name de.d_name)
      ∷ packets (stat_entry de.d_ino de.d_type)
      ∷ send_entries rest

  unfoldable pub readdir : F → FilePath → Effect F S
  readdir fs path = elim (os.list_dir fs path) [
    | fails e ↦ done fs (packets (int 0) ∷ [])
    | ok entries ↦ done fs (send_entries entries)
  ]

  -- The flags come in a packet; `none` if it could not be read or is shorter than an `int`. The
  -- file that is opened is closed again.
  unfoldable pub open_request : F → FilePath → Option ℕ → Effect F S
  open_request fs path none = done fs (packets (neg_errno 5) ∷ [])
  open_request fs path (some flags) = elim (os.open_file fs path (mask_flags flags)) [
    | fails e ↦ done fs (packets (neg_errno e) ∷ [])
    | ok fs' ↦ done fs' (packets (int 0) ∷ [])
  ]

  unfoldable pub mkdir : F → FilePath → ℕ → Effect F S
  mkdir fs path mode = elim (os.make_dir fs path mode) [
    | fails e ↦ done fs (raw minus_one ∷ [])
    | ok fs' ↦
        done fs' (
          raw (int 0)
          ∷ elim (os.stat_of fs' path) [ ok st ↦ packets (stat st) ∷ [] | fails e ↦ [] ])
  ]

  unfoldable pub rmdir : F → FilePath → Effect F S
  rmdir fs path = elim (os.remove_dir fs path) [
    | fails e ↦ done fs (packets minus_one ∷ [])
    | ok fs' ↦ done fs' (packets (int 0) ∷ [])
  ]

  unfoldable pub create : F → FilePath → Effect F S
  create fs path = elim (os.open_create fs path) [
    | fails e ↦ done fs []
    | ok fs' ↦
        done fs'
          (packets (elim (os.lstat fs' path) [ ok st ↦ stat st | fails e ↦ stat_unset ]) ∷ [])
  ]

  unfoldable pub read : F → FilePath → Effect F S
  read fs path = elim (os.read_file fs path) [
    | none ↦ crash
    | some bs ↦ done fs (packets (contents bs) ∷ [])
  ]

  -- The text of `fuse_study_write` is that of `fuse_study_read`.
  unfoldable pub write : F → FilePath → Effect F S
  write fs path = elim (os.read_file fs path) [
    | none ↦ crash
    | some bs ↦ done fs (packets (contents bs) ∷ [])
  ]

  -- `case 0x08`
  unfoldable pub unlink_request : F → FilePath → Effect F S
  unlink_request fs path = elim (os.unlink fs path) [ fails e ↦ done fs [] | ok fs' ↦ done fs' [] ]

  -- The switch of `thread_handler`. `flags` and `mode` are what `open` and `mkdir` then read.
  unfoldable pub handle : ℕ → F → FilePath → Option ℕ → ℕ → Effect F S
  handle opcode fs path flags mode =
      if opcode == 0x00
      then lookup fs path
      else if opcode == 0x01
      then getattr fs path
      else if opcode == 0x02
      then readdir fs path
      else if opcode == 0x03
      then open_request fs path flags
      else if opcode == 0x04
      then read fs path
      else if opcode == 0x05
      then create fs path
      else if opcode == 0x06
      then mkdir fs path mode
      else if opcode == 0x07
      then write fs path
      else if opcode == 0x08
      then unlink_request fs path
      else if opcode == 0x09
      then rmdir fs path
      else done fs []

-- The event loop. The epoll set is a list of descriptors; `client_sock` is the variable of `main`.
pub record Loop : Type 0 where
  pub server_sock : ℕ
  pub client_sock : ℕ
  pub watched : List ℕ
  pub open_socks : List ℕ

-- One ready descriptor: a new connection, or a socket whose `bound_read` returned 0, or one that
-- sent a request.
pub data Event : Type 0 where
  accepted : ℕ → Event
  hung_up : ℕ → Event
  request : ℕ → Event

unfoldable pub without : ℕ → List ℕ → List ℕ
without n [] = []
without n (m ∷ ms) = let rest = without n ms in if m == n then rest else m ∷ rest

-- One round of the `for` loop of `main`, up to `pthread_create`; what a request's thread does at
-- its end is `watch_again`.
unfoldable pub on_event : Loop → Event → Loop
unfolding without
on_event l (accepted fd) = record l {
  client_sock = fd;
  watched = fd ∷ l.watched;
  open_socks = fd ∷ l.open_socks;
}
on_event l (hung_up fd) = record l {
  watched = without l.client_sock l.watched;
  open_socks = without l.client_sock l.open_socks;
}
on_event l (request fd) = record l { watched = without l.client_sock l.watched }

unfoldable pub has : ℕ → List ℕ → Bool
has n [] = false
has n (m ∷ ms) = (m == n) || has n ms

-- `EPOLL_CTL_ADD` fails on a descriptor that the set has.
unfoldable pub watch_again : Loop → ℕ → Loop
watch_again l fd = if has fd l.watched then l else record l { watched = fd ∷ l.watched }
