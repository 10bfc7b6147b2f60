-- ===== src/Subdir.antt =====
-- The module that moves a file system into a subdirectory, lib/modules/subdir.c. A C string is the
-- list of its bytes without the NUL.
pub mod Components
pub mod Strip
pub mod Links
pub mod Confined
mod Tests
use fuse_study.Base.{
  ℕ, zero, suc, Bool, true, false, Option, none, some, List, [], ◌∷◌, ◌++◌, ◌==◌, ltb,
  if◌then◌else◌, ◌-◌, ◌+◌, ◌*◌, ◌%◌, ◌^◌, ◌&&◌, ◌||◌, not, length,
}

abbrev pub Str : Type 0
Str = List ℕ

-- `struct subdir` without the next file system; `baselen` is the length of `base`.
pub record Subdir : Type 0 where
  pub base : Str
  pub rellinks : Bool

abbrev pub is_empty : Str → Bool
is_empty [] = true
is_empty (c ∷ s) = false

-- `s[0] == '/'`
abbrev pub is_rooted : Str → Bool
is_rooted [] = false
is_rooted (c ∷ s) = c == b'/'

abbrev pub skip_slash : Str → Str
skip_slash [] = []
skip_slash (c ∷ s) = if c == b'/' then s else c ∷ s

-- A path that is not NULL, with enough memory.
abbrev pub new_path : Subdir → Str → Str
new_path d path =
    let newpath = d.base ++ skip_slash path in if is_empty newpath then b'.' ∷ [] else newpath

-- `subdir_addpath`; `none` is -ENOMEM, and the argument says whether `malloc` succeeds.
unfoldable pub subdir_addpath : Bool → Subdir → Option Str → Option (Option Str)
subdir_addpath allocated d none = some none
subdir_addpath allocated d (some path) = if allocated then some (some (new_path d path)) else none

-- `for (; *s == '/'; s++);`
unfoldable pub skip_slashes : Str → Str
skip_slashes [] = []
skip_slashes (c ∷ s) = let rest = skip_slashes s in if c == b'/' then rest else c ∷ s

-- `for (; *p && *p != '/'; p++);`
unfoldable pub skip_name : Str → Str
skip_name [] = []
skip_name (c ∷ s) = let rest = skip_name s in if c == b'/' then c ∷ s else rest

unfoldable pub count_loop : ℕ → Str → ℕ
count_loop zero p = 0
count_loop (suc fuel) p =
    let rest = count_loop fuel (skip_slashes (skip_name p)) in if is_empty p then 0 else suc rest

unfoldable pub count_components : Str → ℕ
count_components p = count_loop (length p) (skip_slashes p)

-- `for (; *s == *t && *s && *s != '/'; s++, t++);`
unfoldable pub skip_equal : Str → Str → Str × Str
skip_equal [] t = ([], t)
skip_equal (c ∷ s) [] = (c ∷ s, [])
skip_equal (c ∷ s) (e ∷ t) =
    let rest = skip_equal s t in if (c == e) && not (c == b'/') then rest else (c ∷ s, e ∷ t)

-- The condition of the loop of `strip_common`.
unfoldable pub again : Str → Str → Bool
again [] [] = false
again [] (e ∷ t) = e == b'/'
again (c ∷ s) [] = c == b'/'
again (c ∷ s) (e ∷ t) = c == e

unfoldable pub strip_loop : ℕ → Str → Str → Str × Str
strip_loop zero s t = (s, t)
strip_loop (suc fuel) s t =
    let s' = skip_slashes s in
    let t' = skip_slashes t in
    let r = skip_equal s' t' in
    let rest = strip_loop fuel r.0 r.1 in if again r.0 r.1 then rest else (s', t')

unfoldable pub strip_common : Str → Str → Str × Str
strip_common s t = strip_loop (1 + (length s + length t)) s t

-- "../", so many times.
unfoldable pub up : ℕ → Str
up zero = []
up (suc n) = b'.' ∷ b'.' ∷ b'/' ∷ up n

-- What is written behind the dots.
abbrev pub link_end : ℕ → Str → Str
link_end dotdots [] = if dotdots == 0 then b'.' ∷ [] else []
link_end dotdots (c ∷ l) = c ∷ l

-- The end of `transform_symlink`, behind `strip_common`.
unfoldable pub relative : Subdir → Str → ℕ → Str × Str → Str
relative d buf size (l, path) =
    let dotdots = count_components path - 1 in
    if ltb (length buf - length l) (length d.base)
    then buf
    else if count_components path == 0
    then buf
    else if ltb size (dotdots * 3 + length l + 2)
    then buf
    else up dotdots ++ link_end dotdots l

-- The contents of `buf` afterwards.
unfoldable pub transform_symlink : Subdir → Str → Str → ℕ → Str
transform_symlink d path buf size =
    if not (is_rooted buf) || not (is_rooted d.base)
    then buf
    else relative d buf size (strip_common buf path)

-- The operations on one path; pointers are addresses.
pub data Op : Type 0 where
  getattr : (stbuf fi : ℕ) → Op
  access : (mask : ℕ) → Op
  readlink : (size : ℕ) → Op
  opendir : (fi : ℕ) → Op
  readdir : (buf filler offset fi flags : ℕ) → Op
  releasedir : (fi : ℕ) → Op
  mknod : (mode rdev : ℕ) → Op
  mkdir : (mode : ℕ) → Op
  unlink : Op
  rmdir : Op
  symlink : (from : Str) → Op
  chmod : (mode fi : ℕ) → Op
  chown : (uid gid fi : ℕ) → Op
  truncate : (size fi : ℕ) → Op
  utimens : (ts fi : ℕ) → Op
  create : (mode fi : ℕ) → Op
  open_file : (fi : ℕ) → Op
  read_buf : (bufp size off fi : ℕ) → Op
  write_buf : (buf off fi : ℕ) → Op
  statfs : (stbuf : ℕ) → Op
  flush : (fi : ℕ) → Op
  release : (fi : ℕ) → Op
  fsync : (isdatasync fi : ℕ) → Op
  fsyncdir : (isdatasync fi : ℕ) → Op
  setxattr : (name : Str) (value size flags : ℕ) → Op
  getxattr : (name : Str) (value size : ℕ) → Op
  listxattr : (list size : ℕ) → Op
  removexattr : (name : Str) → Op
  lock : (fi cmd lock : ℕ) → Op
  flock : (fi op : ℕ) → Op
  bmap : (blocksize idx : ℕ) → Op
  lseek : (off whence fi : ℕ) → Op

pub data Call : Type 0 where
  call : Op → Option Str → Call
  rename : (from to : Option Str) (flags : ℕ) → Call
  link : (from to : Option Str) → Call

-- A negative result, 0 or a size, the offset of `lseek`, and what `readlink` leaves in its buffer
-- of so many bytes.
pub data Result : Type 0 where
  failed : ℕ → Result
  done : ℕ → Result
  offset : ℕ → Result
  read_link : Str → ℕ → Result

-- An `off_t` that is kept in an `int`.
unfoldable pub to_int : ℕ → Result
to_int v = if ltb (v % 2 ^ 32) (2 ^ 31) then offset (v % 2 ^ 32) else failed (2 ^ 32 - v % 2 ^ 32)

abbrev pub enomem : ℕ
enomem = 12

-- `subdir_readlink`, the end.
unfoldable pub after_readlink : Subdir → Option Str → Str → ℕ → Str
after_readlink d none buf size = buf
after_readlink d (some newpath) buf size =
    if d.rellinks then transform_symlink d newpath buf size else buf

-- What is made of the next file system's result: links are transformed, and `subdir_lseek` keeps
-- an offset in an `int`.
abbrev pub after_call : Subdir → Option Str → Result → Result
after_call d newpath (failed e) = failed e
after_call d newpath (done v) = done v
after_call d newpath (offset v) = to_int v
after_call d newpath (read_link buf size) = read_link (after_readlink d newpath buf size) size

-- The two allocations of `subdir_rename` and `subdir_link`.
abbrev pub both_paths :
    (ℕ → Bool) → Subdir → Option Str → Option Str → Option (Option Str × Option Str)
both_paths allocated d from to = elim (subdir_addpath (allocated 0) d from) [
  | none ↦ none
  | some newfrom ↦ elim (subdir_addpath (allocated 1) d to) [
    | none ↦ none
    | some newto ↦ some (newfrom, newto)
  ]
]

-- The call that is made of the next file system; `none` is -ENOMEM. The functions on one path
-- differ only in the function that they call.
unfoldable pub redirect : (ℕ → Bool) → Subdir → Call → Option Call
redirect allocated d (call op path) = elim (subdir_addpath (allocated 0) d path) [
  | none ↦ none
  | some newpath ↦ some (call op newpath)
]
redirect allocated d (rename from to flags) = elim (both_paths allocated d from to) [
  | none ↦ none
  | some p ↦ some (rename p.0 p.1 flags)
]
redirect allocated d (link from to) = elim (both_paths allocated d from to) [
  | none ↦ none
  | some p ↦ some (link p.0 p.1)
]

abbrev pub after : Subdir → Call → Result → Result
after d (call op newpath) r = after_call d newpath r
after d (rename from to flags) r = r
after d (link from to) r = r

-- `subdir_oper` over the next file system.
unfoldable pub subdir_oper :
    {S : Type 0} → (Call → S → Result × S) → (ℕ → Bool) → Subdir → Call → S → Result × S
subdir_oper next allocated d c s = elim (redirect allocated d c) [
  | none ↦ (failed enomem, s)
  | some c' ↦ let r = next c' s in (after d c' r.0, r.1)
]

-- `subdir_new`, the slash that is put behind the base.
unfoldable pub with_slash : Str → Str
with_slash [] = []
with_slash (c ∷ []) = if c == b'/' then c ∷ [] else c ∷ b'/' ∷ []
with_slash (c ∷ e ∷ s) = c ∷ with_slash (e ∷ s)
