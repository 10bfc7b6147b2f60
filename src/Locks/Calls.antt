-- ===== src/Locks/Calls.antt =====
-- The requests of lib/fuse.c that work on a node's locks: `fuse_lib_getlk`, `fuse_lib_setlk`,
-- `fuse_lib_flush`, and `fuse_fs_lock` and `fuse_fs_flush` below them. An error is its errno, 0
-- is success. The path and the file handle are the same in every call of a request and are left
-- out; `path_err` is what `get_path_nullok` returned.
use fuse_study.Base.{ℕ, Bool, Option, none, some, List, if◌then◌else◌, ◌==◌}
use fuse_study.Locks.{
  Lock, Flock, unlck, locks_insert, locks_conflict, flock_to_lock, lock_to_flock,
}

-- `F_GETLK`, `F_SETLK` and `F_SETLKW`
pub data Command : Type 0 where
  getlk setlk setlkw : Command

-- The two operations of the file system, which may be missing; `lock` may write to the structure.
pub record Operations (W : Type 0) : Type 0 where
  pub flush : Option (W → ℕ × W)
  pub lock : Option (Command → Flock → W → (ℕ × Flock) × W)

-- `reply_err` and `fuse_reply_lock`
pub data Reply : Type 0 where
  reply_err : ℕ → Reply
  reply_lock : Flock → Reply

abbrev pub enosys : ℕ
enosys = 38

abbrev call_flush : {W : Type 0} → Option (W → ℕ × W) → W → ℕ × W
call_flush none w = (enosys, w)
call_flush (some op) w = op w

abbrev call_lock :
    {W : Type 0}
    → Option (Command → Flock → W → (ℕ × Flock) × W)
    → Command
    → Flock
    → W
    → (ℕ × Flock) × W
call_lock none cmd lock w = ((enosys, lock), w)
call_lock (some op) cmd lock w = op cmd lock w

-- The lock of a request: the structure's, in the name of `fi->lock_owner`.
unfoldable pub owned : ℕ → Flock → Lock
owned owner lock = record (flock_to_lock lock) { owner = owner }

-- `locks_insert` where its result is not looked at: on an error the list stays.
abbrev pub insert_unchecked : Option (List Lock) → List Lock → List Lock
insert_unchecked none ls = ls
insert_unchecked (some ls') ls = ls'

abbrev pub answer : ℕ → Flock → Reply
answer e lock = if e == 0 then reply_lock lock else reply_err e

-- The `memset`, the type and the start of the file.
abbrev pub whole_file : Flock
whole_file = record { l_type = unlck; l_start = 0; l_len = 0; l_pid = 0 }

module _ {W : Type 0} (ops : Operations W) where
  unfoldable pub fuse_fs_flush : W → ℕ × W
  fuse_fs_flush w = call_flush ops.flush w

  unfoldable pub fuse_fs_lock : Command → Flock → W → (ℕ × Flock) × W
  fuse_fs_lock cmd lock w = call_lock ops.lock cmd lock w

  unfoldable pub fuse_lock_common : ℕ → Command → Flock → W → (ℕ × Flock) × W
  fuse_lock_common path_err cmd lock w =
      if path_err == 0 then fuse_fs_lock cmd lock w else ((path_err, lock), w)

  -- The list of locks is only read.
  unfoldable pub fuse_lib_getlk : ℕ → ℕ → Flock → List Lock → W → Reply × W
  fuse_lib_getlk path_err owner lock ls w =
      let asked = fuse_lock_common path_err getlk lock w in
      elim (locks_conflict ls (owned owner lock)) [
        | none ↦ (answer asked.0.0 asked.0.1, asked.1)
        | some conflict ↦ (reply_lock (lock_to_flock conflict), w)
      ]

  unfoldable pub fuse_lib_setlk :
      Bool → ℕ → ℕ → Bool → Flock → List Lock → W → (Reply × List Lock) × W
  fuse_lib_setlk allocated path_err owner sleep lock ls w =
      let done = fuse_lock_common path_err (if sleep then setlkw else setlk) lock w in
      let l = owned owner done.0.1 in
      if done.0.0 == 0
      then ((reply_err 0, insert_unchecked (locks_insert allocated ls l) ls), done.1)
      else ((reply_err done.0.0, ls), done.1)

  unfoldable pub fuse_flush_common : Bool → ℕ → List Lock → W → (ℕ × List Lock) × W
  fuse_flush_common allocated owner ls w =
      let flushed = fuse_fs_flush w in
      let done = fuse_fs_lock setlk whole_file flushed.1 in
      let l = owned owner done.0.1 in
      if done.0.0 == enosys then ((flushed.0, ls), done.1) else (
        (
          if flushed.0 == enosys then 0 else flushed.0,
          insert_unchecked (locks_insert allocated ls l) ls,
        ),
        done.1,
      )

  -- The failure of `get_path_nullok` is not looked at.
  unfoldable pub fuse_lib_flush : Bool → ℕ → List Lock → W → (Reply × List Lock) × W
  fuse_lib_flush allocated owner ls w =
      let done = fuse_flush_common allocated owner ls w in ((reply_err done.0.0, done.0.1), done.1)
