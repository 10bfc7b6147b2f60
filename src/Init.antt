-- ===== src/Init.antt =====
-- The start of a session, lib/fuse_lowlevel.c: `do_init` and what it calls. A word of flags is read
-- bit by bit. The file system's `init` is a function on `struct fuse_conn_info`.
pub mod Reply
pub mod Capable
pub mod Grants
pub mod Limits
mod Tests
use fuse_study.Base.{
  ℕ, zero, suc, Bool, true, false, Option, none, some, List, [], ◌∷◌, ◌++◌, ◌==◌, ltb, leb,
  if◌then◌else◌, ◌-◌, ◌+◌, ◌*◌, ◌/◌, ◌%◌, ◌^◌, ◌&&◌, ◌||◌, not, min,
}

abbrev pub Word : Type 0
Word = ℕ → Bool

abbrev pub no_bits : Word
no_bits n = false

-- `w |= 1 << bit` and `w &= ~(1 << bit)`
abbrev pub with_bit : ℕ → Word → Word
with_bit bit w n = (n == bit) || w n

-- `struct fuse_conn_info`, with `conn_want` and `conn_want_ext` of the session.
pub record Conn : Type 0 where
  pub proto_major : ℕ
  pub proto_minor : ℕ
  pub max_write : ℕ
  pub max_read : ℕ
  pub max_readahead : ℕ
  pub max_background : ℕ
  pub congestion_threshold : ℕ
  pub time_gran : ℕ
  pub max_backing_stack_depth : ℕ
  pub capable : Word
  pub capable_ext : Word
  pub want : Word
  pub want_ext : Word
  pub conn_want : Word
  pub conn_want_ext : Word

-- `struct fuse_init_in`
pub record InitIn : Type 0 where
  pub major : ℕ
  pub minor : ℕ
  pub max_readahead : ℕ
  pub flags : Word
  pub flags2 : Word

-- Which operations the file system has, and whether splicing is compiled in and available.
pub record Abilities : Type 0 where
  pub write_buf : Bool
  pub getlk : Bool
  pub setlk : Bool
  pub flock : Bool
  pub readdir : Bool
  pub readdirplus : Bool
  pub splice_send : Bool
  pub splice_receive : Bool

-- `fuse_lower_32_bits`, `fuse_higher_32_bits`
abbrev pub fuse_lower_32_bits : Word → Word
fuse_lower_32_bits w n = ltb n 32 && w n

abbrev pub fuse_higher_32_bits : Word → Word
fuse_higher_32_bits w n = leb 32 n && w n

-- `a == b` for words of so many bits.
unfoldable pub same_bits : ℕ → Word → Word → Bool
same_bits zero a b = true
same_bits (suc n) a b = (if a n then b n else not (b n)) && same_bits n a b

-- `(want & ~capable) == 0`
unfoldable pub covered : ℕ → Word → Word → Bool
covered zero capable want = true
covered (suc n) capable want = (not (want n) || capable n) && covered n capable want

unfoldable pub want_flags_valid : Word → Word → Bool
unfolding covered
want_flags_valid capable want = covered 64 capable want

-- `fuse_convert_to_conn_want_ext`; the result is false for -EINVAL.
unfoldable pub fuse_convert_to_conn_want_ext : Conn → Conn × Bool
unfolding same_bits
fuse_convert_to_conn_want_ext c =
    if same_bits 32 c.want c.conn_want || same_bits 32 (fuse_lower_32_bits c.want_ext) c.want
    then (record c { want = fuse_lower_32_bits c.want_ext }, true)
    else if not (same_bits 64 c.want_ext c.conn_want_ext)
    then (c, false)
    else let merged = λ (n : ℕ). fuse_higher_32_bits c.want_ext n || fuse_lower_32_bits c.want n in
      (record c { want_ext = merged; want = fuse_lower_32_bits merged }, true)

unfoldable pub fuse_set_feature_flag : ℕ → Conn → Conn
fuse_set_feature_flag flag c =
    if c.capable_ext flag
    then record c {
      want_ext = with_bit flag c.want_ext;
      conn_want_ext = with_bit flag c.conn_want_ext;
      want = fuse_lower_32_bits (with_bit flag c.want);
      conn_want = fuse_lower_32_bits (with_bit flag c.conn_want);
    }
    else c

-- The pairs of a kernel flag and a capability that `do_init` tests one after the other.
abbrev pub offers : List (ℕ × ℕ)
offers =
    (0, 0)
    ∷ (1, 1)
    ∷ (3, 3)
    ∷ (4, 4)
    ∷ (6, 6)
    ∷ (10, 10)
    ∷ (12, 12)
    ∷ (13, 13)
    ∷ (14, 14)
    ∷ (15, 15)
    ∷ (16, 16)
    ∷ (17, 17)
    ∷ (18, 18)
    ∷ (20, 19)
    ∷ (19, 20)
    ∷ (28, 21)
    ∷ (23, 23)
    ∷ (24, 24)
    ∷ (25, 25)
    ∷ (29, 27)
    ∷ (36, 28)
    ∷ (37, 29)
    ∷ (38, 30)
    ∷ []

-- Those of a capability and the kernel flag that asks for it.
abbrev pub requests : List (ℕ × ℕ)
requests =
    (0, 0)
    ∷ (1, 1)
    ∷ (3, 3)
    ∷ (4, 4)
    ∷ (6, 6)
    ∷ (10, 10)
    ∷ (12, 12)
    ∷ (13, 13)
    ∷ (14, 14)
    ∷ (15, 15)
    ∷ (16, 16)
    ∷ (18, 18)
    ∷ (19, 20)
    ∷ (20, 19)
    ∷ (21, 28)
    ∷ (23, 23)
    ∷ (25, 25)
    ∷ (27, 29)
    ∷ (28, 36)
    ∷ (29, 37)
    ∷ (30, 38)
    ∷ []

-- `if (from & a) to |= b`, for each pair.
unfoldable pub translate : List (ℕ × ℕ) → Word → Word
translate [] from n = false
translate ((a, b) ∷ rest) from n = ((n == b) && from a) || translate rest from n

abbrev pub fuse_init_ext : ℕ
fuse_init_ext = 30

abbrev pub fuse_max_pages : ℕ
fuse_max_pages = 22

abbrev pub fuse_big_writes : ℕ
fuse_big_writes = 5

abbrev pub fuse_cap_expire_only : ℕ
fuse_cap_expire_only = 26

abbrev pub fuse_cap_ioctl_dir : ℕ
fuse_cap_ioctl_dir = 11

abbrev pub fuse_cap_passthrough : ℕ
fuse_cap_passthrough = 29

-- `inargflags`
unfoldable pub in_flags : InitIn → Word
in_flags arg n =
    leb 6 arg.minor
    && ((ltb n 32 && arg.flags n)
        || (arg.flags fuse_init_ext && (leb 32 n && (ltb n 64 && arg.flags2 (n - 32)))))

-- `capable_ext`, from the flags and the minor version.
unfoldable pub capabilities : Abilities → InitIn → Word
unfolding translate
capabilities can arg n =
    translate offers (in_flags arg) n
    || (((n == fuse_cap_expire_only) && (leb 38 arg.minor || in_flags arg 35))
        || ((leb 14 arg.minor
              && ((((n == 7) || (n == 8)) && can.splice_send) || ((n == 9) && can.splice_receive)))
            || (leb 18 arg.minor && (n == fuse_cap_ioctl_dir))))

-- The uses of `LL_SET_DEFAULT`, in their order.
abbrev pub set_default : Bool → ℕ → Conn → Conn
set_default true cap c = fuse_set_feature_flag cap c
set_default false cap c = c

unfoldable pub set_defaults : Abilities → Conn → Conn
set_defaults can c = set_default (can.readdirplus && can.readdir) 14 (
    set_default can.readdirplus 13 (
      set_default can.flock 10 (
        set_default (can.getlk && can.setlk) 1 (
          set_default can.write_buf 9 (
            fuse_set_feature_flag 3 (
              fuse_set_feature_flag 11 (
                fuse_set_feature_flag 15
                  (fuse_set_feature_flag 12 (fuse_set_feature_flag 0 c)))))))))
