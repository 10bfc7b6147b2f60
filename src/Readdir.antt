-- ===== src/Readdir.antt =====
-- Directory handles, lib/fuse.c: `fill_dir`, `readdir_fill`, `readdir_fill_from_list` and
-- `fuse_readdir_common`, with `fuse_add_direntry` of lib/fuse_lowlevel.c, for requests without
-- FUSE_READDIR_PLUS. The bytes of `dh->contents` below `dh->len` are kept as the list of entries
-- that they hold. A type of a directory entry is `(st_mode & S_IFMT) >> 12`.
pub mod Sizes
pub mod Answers
pub mod Listing
pub mod Reading
pub mod Complete
mod Tests
use fuse_study.Base.{
  ℕ, zero, suc, Bool, true, false, Option, none, some, List, [], ◌∷◌, ◌++◌, ◌==◌, leb, ltb,
  if◌then◌else◌, ◌-◌, ◌+◌, ◌*◌, ◌/◌, ◌%◌, ◌^◌, ◌&&◌, not, length, drop, min,
}

pub record Stat : Type 0 where
  pub st_ino : ℕ
  pub st_mode : ℕ

-- `struct fuse_direntry`
pub record Direntry : Type 0 where
  pub name : List ℕ
  pub stat : Stat
  pub flags : ℕ

-- `struct fuse_dirent`
pub record Dirent : Type 0 where
  pub ino : ℕ
  pub off : ℕ
  pub kind : ℕ
  pub name : List ℕ

-- `struct fuse_dh`; `list` is what hangs at `first`.
pub record Dh : Type 0 where
  pub contents : List Dirent
  pub len : ℕ
  pub size : ℕ
  pub needlen : ℕ
  pub filled : Bool
  pub error : ℕ
  pub list : List Direntry

abbrev pub fuse_unknown_ino : ℕ
fuse_unknown_ino = 0xffffffff

abbrev pub eio : ℕ
eio = 5

-- `FUSE_DIRENT_ALIGN(FUSE_NAME_OFFSET + namelen)`
abbrev pub dirent_size : List ℕ → ℕ
dirent_size name = (24 + length name + 7) / 8 * 8

abbrev pub dirent_type : ℕ → ℕ
dirent_type mode = mode / 2 ^ 12 % 16

-- `fuse_add_direntry`: the size, and what is in the buffer afterwards.
unfoldable pub fuse_add_direntry : List Dirent → ℕ → List ℕ → Stat → ℕ → ℕ × List Dirent
fuse_add_direntry contents bufsize name st off = (
  dirent_size name,
  if ltb bufsize (dirent_size name)
      then contents
      else contents
        ++ record { ino = st.st_ino; off = off; kind = dirent_type st.st_mode; name = name } ∷ [],
)

-- The loop of `extend_contents`; `minsize` rounds are enough, since each adds a byte.
unfoldable pub grow : ℕ → ℕ → ℕ → ℕ
grow zero minsize newsize = newsize
grow (suc fuel) minsize newsize =
    let rest = grow fuel minsize (if leb (2 ^ 31) newsize then 2 ^ 32 - 1 else newsize * 2) in
    if ltb newsize minsize then rest else newsize

unfoldable pub extend_contents : Dh → ℕ → Dh
unfolding grow
extend_contents dh minsize = record dh {
  size =
      if ltb dh.size minsize
      then grow minsize minsize (if dh.size == 0 then 1024 else dh.size)
      else dh.size;
}

-- One call of the filler by the file system.
pub record Call : Type 0 where
  pub name : List ℕ
  pub statp : Option Stat
  pub off : ℕ
  pub flags : ℕ

pub record Config : Type 0 where
  pub use_ino : Bool
  pub readdir_ino : Bool

-- `lookup_nodeid`, where `child` is what `lookup_node` finds under the directory.
abbrev pub lookup_nodeid : Option ℕ → ℕ
lookup_nodeid none = fuse_unknown_ino
lookup_nodeid (some nodeid) = nodeid

abbrev pub given_stat : Option Stat → Stat
given_stat (some st) = st
given_stat none = record { st_ino = fuse_unknown_ino; st_mode = 0 }

abbrev pub is_empty : List Direntry → Bool
is_empty [] = true
is_empty (de ∷ des) = false

module _ (conf : Config) (child : List ℕ → Option ℕ) where
  -- `stbuf` of `fill_dir`.
  unfoldable pub entry_stat : Call → Stat
  entry_stat c =
      let stbuf = given_stat c.statp in
      if conf.use_ino then stbuf else record stbuf {
        st_ino = if conf.readdir_ino then lookup_nodeid (child c.name) else fuse_unknown_ino;
      }

  -- An entry with an offset goes to the buffer at once.
  unfoldable pub fill_buffer : Call → Dh → Dh × Bool
  unfolding extend_contents fuse_add_direntry entry_stat
  fill_buffer c dh =
      let dh' = extend_contents dh dh.needlen in
      let (thislen, contents) =
        fuse_add_direntry dh'.contents (dh'.needlen - dh'.len) c.name (entry_stat c) c.off in
      if ltb dh'.needlen (dh'.len + thislen)
      then (dh', true)
      else (record dh' { contents = contents; len = dh'.len + thislen }, false)

  -- The Boolean is the result: 1 stops the file system. FUSE_FILL_DIR_PLUS is 2.
  unfoldable pub fill_dir : Call → Dh → Dh × Bool
  unfolding fill_buffer entry_stat
  fill_dir c dh =
      if not (c.flags == 0) && not (c.flags == 2)
      then (record dh { error = eio }, true)
      else if c.off == 0
      then (
        record dh {
          filled = true;
          list = dh.list ++ record { name = c.name; stat = entry_stat c; flags = c.flags } ∷ [];
        },
        false,
      )
      else if dh.filled
      then (record dh { error = eio }, true)
      else if not (is_empty dh.list)
      then (record dh { error = eio }, true)
      else fill_buffer c dh

  -- The file system calls the filler until this returns 1.
  unfoldable pub fill_all : List Call → Dh → Dh
  unfolding fill_dir
  fill_all [] dh = dh
  fill_all (c ∷ cs) dh =
      let r = fill_dir c dh in let rest = fill_all cs r.0 in if r.1 then r.0 else rest

  -- What the file system's `readdir` does: its calls of the filler from an offset on, and an error
  -- or 0. `path_err` is the result of `get_path` or `get_path_nullok`.
  unfoldable pub readdir_fill : ℕ → (ℕ → List Call × ℕ) → ℕ → ℕ → Dh → Dh × ℕ
  readdir_fill path_err fs_readdir size off dh =
      let cleared = record dh {
        contents = [];
        list = [];
        len = 0;
        error = 0;
        needlen = size;
        filled = false;
      } in
      let dh' = fill_all (fs_readdir off).0 cleared in
      let err = if (fs_readdir off).1 == 0 then dh'.error else (fs_readdir off).1 in
      if not (path_err == 0)
      then (dh, path_err)
      else (if err == 0 then dh' else record dh' { filled = false }, err)

-- The loop of `readdir_fill_from_list` behind the first `off` entries; `unsigned` lengths wrap.
unfoldable pub fill_list : ℕ → ℕ → List Direntry → List Dirent → ℕ → List Dirent × ℕ
unfolding fuse_add_direntry
fill_list needlen pos [] contents len = (contents, len)
fill_list needlen pos (de ∷ des) contents len =
    let r = fuse_add_direntry contents (needlen - len) de.name de.stat (pos + 1) in
    let newlen = (len + r.0) % 2 ^ 32 in
    let rest = fill_list needlen (pos + 1) des r.1 newlen in
    if ltb needlen newlen then (contents, len) else rest

unfoldable pub readdir_fill_from_list : ℕ → Dh → Dh
unfolding extend_contents fill_list
readdir_fill_from_list off dh =
    let dh' = extend_contents dh dh.needlen in
    let (contents, len) =
      fill_list dh'.needlen (min off (length dh'.list)) (drop off dh'.list) [] 0 in
    record dh' { contents = contents; len = len }

-- `reply_err` and `fuse_reply_buf`
pub data Reply : Type 0 where
  reply_err : ℕ → Reply
  reply_buf : List Dirent → ℕ → Reply

-- The answer from a handle that is filled from its list, or not.
unfoldable pub answer : Bool → ℕ → ℕ → Dh → Reply × Dh
answer true size off dh =
    let dh' = readdir_fill_from_list off (record dh { needlen = size }) in
    (reply_buf dh'.contents dh'.len, dh')
answer false size off dh = (reply_buf dh.contents dh.len, dh)

module _ (conf : Config) (child : List ℕ → Option ℕ) (path_err : ℕ) (fs_readdir : ℕ → List Call × ℕ)
    (size off : ℕ) where
  -- The first argument is `dh->filled`.
  unfoldable pub readdir_common_from : Bool → Dh → Reply × Dh
  readdir_common_from true dh = answer true size off dh
  readdir_common_from false dh =
      let r = readdir_fill conf child path_err fs_readdir size off dh in
      if r.1 == 0 then answer r.0.filled size off r.0 else (reply_err r.1, r.0)

  unfoldable pub fuse_readdir_common : Dh → Reply × Dh
  fuse_readdir_common dh =
      readdir_common_from (if off == 0 then false else dh.filled)
        (if off == 0 then record dh { filled = false } else dh)
