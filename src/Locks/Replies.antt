-- ===== src/Locks/Replies.antt =====
-- What the lock requests of lib/fuse.c answer, and what they leave in the list of locks.
use fuse_study.Base.{
  ℕ, Bool, true, false, none, some, List, [], ◌∷◌, ◌≡◌, ◌≢◌, ◌≤◌, ◌⊎◌, inl, inr, refl, ◌==◌, arith,
  if◌then◌else◌, Bool-cases, Option-cases,
}
use fuse_study.Locks.{
  Lock, Flock, wrlck, rdlck, locks_insert, locks_conflict, conflicts, offset_max, flock_to_lock,
  lock_to_flock,
}
use fuse_study.Locks.Order.{IsOrdered}
use fuse_study.Locks.Held.{covers, held, granted}
use fuse_study.Locks.Insert.{held-locks_insert, held-locks_loop, locks_conflict-none}
use fuse_study.Locks.Calls.{
  Command, getlk, setlk, setlkw, Operations, reply_err, reply_lock, enosys, owned, insert_unchecked,
  answer, fuse_fs_lock, fuse_fs_flush, fuse_lock_common, fuse_lib_getlk, fuse_lib_setlk, whole_file,
  fuse_flush_common, fuse_lib_flush,
}

locks_conflict-some :
    (ls : List Lock) (lock c : Lock) → locks_conflict ls lock ≡ some c → conflicts lock c ≡ true
unfolding locks_conflict
locks_conflict-some [] lock c e = ground arith
locks_conflict-some (l ∷ ls) lock c e = ground (arith, locks_conflict-some ls lock c)

-- Another owner's lock that the request meets, where one of the two is for writing.
pub record IsObstacle (lock c : Lock) : Type 0 where
  pub foreign : c.owner ≢ lock.owner
  pub meets : (lock.start ≤ c.stop) × (c.start ≤ lock.stop)
  pub writes : (c.kind ≡ wrlck) ⊎ (lock.kind ≡ wrlck)

-- Setting a lock does not write to the structure that describes it.
abbrev pub IsQuiet : {W : Type 0} → Operations W → Type 0
IsQuiet {W} ops =
    (cmd : Command) (lock : Flock) (w : W) → cmd ≢ getlk → (fuse_fs_lock ops cmd lock w).0.1 ≡ lock

IsObstacle-conflicts : (lock c : Lock) → conflicts lock c ≡ true → IsObstacle lock c
unfolding conflicts
IsObstacle-conflicts lock c e = record {
  foreign = ground arith;
  meets = ground arith;
  writes = ground arith;
}

-- No other owner's lock on a byte of the request is for writing, and if the request is for
-- writing, none is there at all.
pub IsFree : Lock → List Lock → Type 0
IsFree lock ls =
    (o x : ℕ)
    → (o == lock.owner) ≡ false
    → covers lock.owner x lock ≡ true
    → (held o x ls ≡ none) ⊎ ((held o x ls ≡ some rdlck) × (lock.kind ≢ wrlck))

held-insert_unchecked :
    (o x : ℕ) (ls : List Lock) (lock : Lock)
    → lock.start ≤ lock.stop
    → IsOrdered ls
    → held o x (insert_unchecked (locks_insert true ls lock) ls)
      ≡ (if covers o x lock then granted lock.kind else held o x ls)
held-insert_unchecked o x ls lock fits order =
    let done = held-locks_insert ls lock fits order in rw done.1 (done.2 o x)

owned-fits :
    (owner : ℕ) (lock : Flock)
    → lock.l_start ≤ offset_max
    → (owned owner lock).start ≤ (owned owner lock).stop
unfolding owned flock_to_lock
owned-fits owner lock starts = ground arith

held-unlocked :
    (allocated : Bool) (owner o x : ℕ) (ls : List Lock)
    → IsOrdered ls
    → x ≤ offset_max
    → held o x (insert_unchecked (locks_insert allocated ls (owned owner whole_file)) ls)
      ≡ (if o == owner then none else held o x ls)
unfolding locks_insert owned flock_to_lock
held-unlocked allocated owner o x ls order h =
    ground (arith, held-locks_loop o x (owned owner whole_file) ls (ground arith) order)

module _ {W : Type 0} (ops : Operations W) where
  lock_common-quiet :
      (path_err : ℕ) (cmd : Command) (lock : Flock) (w : W)
      → IsQuiet ops
      → cmd ≢ getlk
      → (fuse_lock_common ops path_err cmd lock w).0.1 ≡ lock
  unfolding fuse_lock_common
  lock_common-quiet path_err cmd lock w quiet ne = ground (arith, quiet cmd lock w ne)

  -- On an ordered list, a lock test either answers with a lock of the list that stands in the
  -- way, without asking the file system, or no byte of the request is in the way of another
  -- owner's lock and the answer is the file system's own.
  fuse_lib_getlk-cases :
      (owner : ℕ) (lock : Flock) (ls : List Lock) (w : W)
      → IsOrdered ls
      → ((c : Lock) × (fuse_lib_getlk ops 0 owner lock ls w ≡ (reply_lock (lock_to_flock c), w))
          × IsObstacle (owned owner lock) c)
        ⊎ ((fuse_lib_getlk ops 0 owner lock ls w ≡ (
          answer (fuse_fs_lock ops getlk lock w).0.0 (fuse_fs_lock ops getlk lock w).0.1,
          (fuse_fs_lock ops getlk lock w).1,
        ))
            × IsFree (owned owner lock) ls)
  unfolding fuse_lib_getlk fuse_lock_common IsFree
  fuse_lib_getlk-cases owner lock ls w order =
      elim (Option-cases (locks_conflict ls (owned owner lock))) [
        | inl e ↦ inr (
          rw (e, fuse_lib_getlk) refl,
          λ o x. locks_conflict-none ls (owned owner lock) o x order e,
        )
        | inr r ↦ inl (
          r.0,
          rw (r.1, fuse_lib_getlk) refl,
          IsObstacle-conflicts (owned owner lock) r.0
              (locks_conflict-some ls (owned owner lock) r.0 r.1),
        )
      ]

  -- A lock request that starts within the file's greatest offset, to a file system that does not
  -- write to the structure: the answer is an error and the list of locks is as before, or it is
  -- success and, memory given, the owner holds the requested type on exactly the requested bytes,
  -- everything else being held as before.
  pub fuse_lib_setlk-cases :
      (path_err owner : ℕ) (sleep : Bool) (lock : Flock) (ls : List Lock) (w : W)
      → IsQuiet ops
      → lock.l_start ≤ offset_max
      → IsOrdered ls
      → ((e : ℕ) × (e ≢ 0)
          × ((fuse_lib_setlk ops true path_err owner sleep lock ls w).0 ≡ (reply_err e, ls)))
        ⊎ (((fuse_lib_setlk ops true path_err owner sleep lock ls w).0.0 ≡ reply_err 0)
            × ((o x : ℕ)
                → held o x (fuse_lib_setlk ops true path_err owner sleep lock ls w).0.1
                  ≡ (if covers o x (owned owner lock) then granted lock.l_type else held o x ls)))
  unfolding fuse_lib_setlk owned flock_to_lock
  fuse_lib_setlk-cases path_err owner sleep lock ls w quiet starts order =
      let cmd = if sleep then setlkw else setlk in
      let done = fuse_lock_common ops path_err cmd lock w in
      let same : done.0.1 ≡ lock = lock_common-quiet path_err cmd lock w quiet (ground arith) in
      elim (Bool-cases (done.0.0 == 0)) [
        | inl e ↦ inr (
          rw (e, fuse_lib_setlk) refl,
          λ o x.
              rw (e, fuse_lib_setlk)
                (rw same (
                  held-insert_unchecked o x ls (owned owner lock) (owned-fits owner lock starts)
                    order)),
        )
        | inr e ↦ inl (done.0.0, ground arith, rw (e, fuse_lib_setlk) refl)
      ]

  -- A flush, when the file system has a lock operation (its unlock is not refused with ENOSYS)
  -- that does not write to the structure: the answer is that of the flush operation, a missing
  -- one counting as success; and whether or not memory is had, the owner holds no byte of the
  -- file afterwards, while the other owners hold what they held.
  pub fuse_lib_flush-releases :
      (allocated : Bool) (owner : ℕ) (ls : List Lock) (w : W)
      → IsQuiet ops
      → ((fuse_fs_lock ops setlk whole_file (fuse_fs_flush ops w).1).0.0 ≢ enosys)
      → IsOrdered ls
      → ((fuse_lib_flush ops allocated owner ls w).0.0
          ≡ reply_err (if (fuse_fs_flush ops w).0 == enosys then 0 else (fuse_fs_flush ops w).0))
        × ((o x : ℕ)
            → x ≤ offset_max
            → held o x (fuse_lib_flush ops allocated owner ls w).0.1
              ≡ (if o == owner then none else held o x ls))
  unfolding fuse_lib_flush fuse_flush_common
  fuse_lib_flush-releases allocated owner ls w quiet has order =
      let flushed = fuse_fs_flush ops w in
      let done = fuse_fs_lock ops setlk whole_file flushed.1 in
      let same : done.0.1 ≡ whole_file = quiet setlk whole_file flushed.1 (ground arith) in
      (ground arith, λ o x h. ground (arith, same, held-unlocked allocated owner o x ls order h))
