-- ===== src/Mount.antt =====
-- The set-uid program util/fusermount.c: what it makes of the options that it is given (`do_mount`,
-- `find_mount_flag`, `get_string_opt`, `get_mnt_opts`), and `extract_x_options`. A C string is the
-- list of its bytes without the NUL. The mount flags are a set of bits, by their numbers.
pub mod Config
pub mod Scan
pub mod Options
pub mod Safety
pub mod Names
pub mod Whole
pub mod Extract
pub mod Partition
mod Tests
use fuse_study.Base.{
  ℕ, zero, suc, Bool, true, false, Option, none, some, List, [], ◌∷◌, ◌++◌, ◌==◌, ltb,
  if◌then◌else◌, ◌-◌, ◌+◌, ◌&&◌, ◌||◌, not, length, codes, drop,
}
use fuse_study.Opt.Text.{Str, str_eq}

abbrev pub is_empty : Str → Bool
is_empty [] = true
is_empty (c ∷ s) = false

unfoldable pub begins_with : Str → Str → Bool
begins_with s [] = true
begins_with [] (b ∷ beg) = false
begins_with (c ∷ s) (b ∷ beg) = (c == b) && begins_with s beg

-- An entry of `mount_flags`.
pub record MountFlag : Type 0 where
  pub opt : Str
  pub flag : ℕ
  pub on : Bool
  pub safe : Bool

abbrev pub ms_rdonly : ℕ
ms_rdonly = 0

abbrev pub ms_nosuid : ℕ
ms_nosuid = 1

abbrev pub ms_nodev : ℕ
ms_nodev = 2

abbrev pub entry : Str → ℕ → Bool → Bool → MountFlag
entry opt flag on safe = record { opt = opt; flag = flag; on = on; safe = safe }

unfoldable pub mount_flags : List MountFlag
mount_flags =
    entry (codes "rw") ms_rdonly false true
    ∷ entry (codes "ro") ms_rdonly true true
    ∷ entry (codes "suid") ms_nosuid false false
    ∷ entry (codes "nosuid") ms_nosuid true true
    ∷ entry (codes "dev") ms_nodev false false
    ∷ entry (codes "nodev") ms_nodev true true
    ∷ entry (codes "exec") 3 false true
    ∷ entry (codes "noexec") 3 true true
    ∷ entry (codes "async") 4 false true
    ∷ entry (codes "sync") 4 true true
    ∷ entry (codes "atime") 10 false true
    ∷ entry (codes "noatime") 10 true true
    ∷ entry (codes "diratime") 11 false true
    ∷ entry (codes "nodiratime") 11 true true
    ∷ entry (codes "lazytime") 25 true true
    ∷ entry (codes "nolazytime") 25 false true
    ∷ entry (codes "relatime") 21 true true
    ∷ entry (codes "norelatime") 21 false true
    ∷ entry (codes "strictatime") 24 true true
    ∷ entry (codes "nostrictatime") 24 false true
    ∷ entry (codes "dirsync") 7 true true
    ∷ entry (codes "symfollow") 8 false true
    ∷ entry (codes "nosymfollow") 8 true true
    ∷ []

-- The entry of an option.
unfoldable pub flag_entry : List MountFlag → Str → Option MountFlag
flag_entry [] s = none
flag_entry (m ∷ ms) s = let rest = flag_entry ms s in if str_eq m.opt s then some m else rest

-- `find_mount_flag`: whether to set or to clear, and the flag, which is 0 (`none`) for an unsafe
-- option of a user that is not root.
unfoldable pub find_mount_flag : Bool → Str → Option (Bool × Option ℕ)
find_mount_flag root s = elim (flag_entry mount_flags s) [
  | none ↦ none
  | some m ↦ some (m.on, if not m.safe && not root then none else some m.flag)
]

-- `flags |= flag` and `flags &= ~flag`.
abbrev pub set_flag : Bool → Option ℕ → (ℕ → Bool) → ℕ → Bool
set_flag on none flags n = flags n
set_flag on (some flag) flags n = if n == flag then on else flags n

-- The loop that finds the end of an option, and what follows it; the second argument says that the
-- byte before was an escape.
unfoldable pub cut : Bool → Bool → Str → Str × Str
cut escape_ok escaped [] = ([], [])
cut escape_ok escaped (c ∷ s) =
    let escapes = escape_ok && (not escaped && ((c == b'\\') && not (is_empty s))) in
    let r = cut escape_ok escapes s in
    if not escaped && (c == b',') then ([], c ∷ s) else (c ∷ r.0, r.1)

-- The loop of `get_string_opt`.
unfoldable pub unescape_opt : Bool → Str → Str
unescape_opt escaped [] = []
unescape_opt escaped (c ∷ s) =
    let escapes = not escaped && ((c == b'\\') && not (is_empty s)) in
    let rest = unescape_opt escapes s in if escapes then rest else c ∷ rest

unfoldable pub get_string_opt : Str → Str → Str
unfolding unescape_opt
get_string_opt s opt = unescape_opt false (drop (length opt) s)

abbrev pub fsname_str : Str
fsname_str = codes "fsname="

abbrev pub subtype_str : Str
subtype_str = codes "subtype="

-- What `do_mount` keeps of the options.
pub record Parsed : Type 0 where
  pub flags : ℕ → Bool
  pub optbuf : Str
  pub fsname : Option Str
  pub subtype : Option Str
  pub blkdev : Bool
  pub auto_unmount : Bool

-- `err` is the return with -1, and `exits` the call of `exit`.
pub data Outcome : Type 0 where
  err : Outcome
  exits : Outcome
  parsed : Parsed → Outcome

-- Who calls: `getuid() == 0`, the flag of the configuration, and whether the kernel is newer than
-- 2.4.
pub record Caller : Type 0 where
  pub root : Bool
  pub user_allow_other : Bool
  pub new_kernel : Bool

-- The options that are handed to the kernel as they are.
unfoldable pub is_kernel_opt : Str → Str → Bool
is_kernel_opt s opt =
    str_eq opt (codes "default_permissions")
    || (str_eq opt (codes "allow_other")
        || (begins_with s (codes "max_read=") || begins_with s (codes "blksize=")))

-- An option that is a flag, or one for the kernel, or unknown.
unfoldable pub plain_option : Caller → Str → Str → Parsed → Outcome
plain_option who s opt p = elim (find_mount_flag who.root opt) [
  | some (on, flag) ↦ parsed (record p { flags = set_flag on flag p.flags })
  | none ↦
      if is_kernel_opt s opt
      then parsed (record p { optbuf = p.optbuf ++ opt ++ b',' ∷ [] })
      else exits
]

-- Those that the program writes itself, and `nonempty`, are passed over.
unfoldable pub is_skipped : Str → Str → Bool
is_skipped s opt =
    str_eq opt (codes "nonempty")
    || (begins_with s (codes "fd=")
        || (begins_with s (codes "rootmode=")
            || (begins_with s (codes "user_id=") || begins_with s (codes "group_id="))))

-- `allow_other` and `allow_root`.
abbrev pub for_others : Str → Bool
for_others opt = str_eq opt (codes "allow_other") || str_eq opt (codes "allow_root")

-- An option that is neither of the two with a text.
unfoldable pub short_option : Caller → Str → Str → Parsed → Outcome
short_option who s opt p =
    if str_eq opt (codes "blkdev")
    then (if who.root then parsed (record p { blkdev = true }) else err)
    else if str_eq opt (codes "auto_unmount")
    then parsed (record p { auto_unmount = true })
    else if is_skipped s opt
    then parsed p
    else if not who.root && (not who.user_allow_other && for_others opt)
    then err
    else if str_eq opt (codes "large_read") && who.new_kernel
    then parsed p
    else plain_option who s opt p

-- One option `opt` at the beginning of `s`.
unfoldable pub one_option : Caller → Str → Str → Parsed → Outcome
one_option who s opt p =
    if begins_with s fsname_str
    then parsed (record p { fsname = some (get_string_opt opt fsname_str) })
    else if begins_with s subtype_str
    then parsed (record p { subtype = some (get_string_opt opt subtype_str) })
    else short_option who s opt p

-- `if (*s) s++;`
abbrev pub skip_comma : Str → Str
skip_comma [] = []
skip_comma (c ∷ s) = s

abbrev pub escape_ok : Str → Bool
escape_ok s = begins_with s fsname_str || begins_with s subtype_str

-- The loop of `do_mount`; each round takes a byte at least.
unfoldable pub options_loop : Caller → ℕ → Str → Parsed → Outcome
options_loop who zero s p = err
options_loop who (suc fuel) [] p = parsed p
options_loop who (suc fuel) (c ∷ s) p =
    let r = cut (escape_ok (c ∷ s)) false (c ∷ s) in
    elim (one_option who (c ∷ s) r.0 p) [
      | err ↦ err
      | exits ↦ exits
      | parsed p' ↦ options_loop who fuel (skip_comma r.1) p'
    ]

-- The options as the loop of `do_mount` begins, with MS_NOSUID and MS_NODEV.
unfoldable pub no_options : Parsed
no_options = record {
  flags = λ n. (n == ms_nosuid) || (n == ms_nodev);
  optbuf = [];
  fsname = none;
  subtype = none;
  blkdev = false;
  auto_unmount = false;
}

unfoldable pub parse_options : Caller → Str → Outcome
parse_options who opts = options_loop who (suc (length opts)) opts no_options

-- What is appended to `optbuf`; the numbers are printed by the C library.
unfoldable pub kernel_opts : Parsed → Str → Str
kernel_opts p own = p.optbuf ++ own
