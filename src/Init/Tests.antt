-- ===== src/Init/Tests.antt =====
-- A run of `do_init`, and the theorems at a concrete one.
use fuse_study.Base.{ℕ, Bool, true, false, none, some, ◌≡◌, ◌==◌, ◌||◌, refl, subst, arith}
use mathlib.Core.Option.{some-injective}
use fuse_study.Init.{Conn, InitIn, Abilities, no_bits, fuse_set_feature_flag}
use fuse_study.Init.Reply.{Session, Answer, refused, accepted, eproto, do_init}
use fuse_study.Init.Capable.{KeepsCapable, fuse_set_feature_flag-capable}
use fuse_study.Init.Grants.{IsGranted, do_init-IsGranted}
use fuse_study.Init.Limits.{IsAgreed, do_init-IsAgreed}

-- The kernel knows `FUSE_MAX_PAGES`, the write-back cache and passthrough.
abbrev kernel : InitIn
kernel = record {
  major = 7;
  minor = 40;
  max_readahead = 131072;
  flags = λ n. (n == 0) || ((n == 16) || ((n == 22) || (n == 30)));
  flags2 = λ n. n == 5;
}

abbrev operations : Abilities
operations = record {
  write_buf = true;
  getlk = false;
  setlk = false;
  flock = true;
  readdir = true;
  readdirplus = false;
  splice_send = true;
  splice_receive = true;
}

abbrev fresh : Session
fresh = record {
  conn = record {
    proto_major = 0;
    proto_minor = 0;
    max_write = 4294967295;
    max_read = 0;
    max_readahead = 4294967295;
    max_background = 100000;
    congestion_threshold = 0;
    time_gran = 0;
    max_backing_stack_depth = 0;
    capable = no_bits;
    capable_ext = no_bits;
    want = no_bits;
    want_ext = no_bits;
    conn_want = no_bits;
    conn_want_ext = no_bits;
  };
  bufsize = 1052672;
  buf_reallocable = false;
  got_init = false;
  error = none;
  exited = false;
  mount_max_read = 0;
}

-- The file system asks for the write-back cache, or for a flag that the kernel does not know.
abbrev answered : ℕ → Answer
answered flag = (do_init 4096 operations (some (fuse_set_feature_flag flag)) kernel fresh).1

abbrev flag_of : ℕ → Answer → Bool
flag_of n (refused e) = false
flag_of n (accepted out size) = out.flags n

abbrev numbers : Answer → ℕ × ℕ × ℕ × ℕ
numbers (refused e) = (e, 0, 0, 0)
numbers (accepted out size) =
    (out.max_write, out.max_pages, out.max_background, out.congestion_threshold)

granted_test :
    (flag_of 16 (answered 16) ≡ true)
    × (flag_of 5 (answered 16) ≡ true)
    × (flag_of 12 (answered 16) ≡ false)
    × (numbers (answered 16) ≡ (1048576, 256, 65535, 49151))
unfolding do_init fuse_set_feature_flag
granted_test = (refl, refl, refl, refl)

-- A file system that sets a bit without a look at `capable_ext`.
abbrev wants : ℕ → Conn → Conn
wants flag c = record c { want_ext = λ n. (n == flag) || c.want_ext n }

refused_test : (do_init 4096 operations (some (wants 18)) kernel fresh).1 ≡ refused eproto
unfolding do_init fuse_set_feature_flag
refused_test = refl

do_init-IsGranted_example : IsGranted kernel (answered 16)
do_init-IsGranted_example =
    do_init-IsGranted 4096 operations (some (fuse_set_feature_flag 16)) kernel fresh (λ f e.
      subst KeepsCapable (some-injective (fuse_set_feature_flag 16) f e)
        (fuse_set_feature_flag-capable 16))

do_init-IsAgreed_example :
    IsAgreed 4096 kernel (do_init 4096 operations (some (fuse_set_feature_flag 16)) kernel fresh)
do_init-IsAgreed_example =
    do_init-IsAgreed 4096 operations (some (fuse_set_feature_flag 16)) kernel fresh (omega arith)
      (omega arith) refl
