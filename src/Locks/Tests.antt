-- ===== src/Locks/Tests.antt =====
-- Runs of the record locks of lib/fuse.c, and the theorems at concrete lists.
use fuse_study.Base.{
  ℕ, true, false, none, some, List, [], ◌∷◌, ◌≡◌, ◌≢◌, ◌⊎◌, refl, ◌+◌, arith, if◌then◌else◌, ◌==◌,
  ◌≤◌,
}
use fuse_study.Locks.{
  Flock, Lock, LockType, rdlck, wrlck, locks_insert, locks_conflict, locks_loop, round, finish,
  flock_to_lock, lock_to_flock, offset_max, conflicts,
}
use fuse_study.Locks.Order.{IsOrdered}
use fuse_study.Locks.Held.{held, covers, granted}
use fuse_study.Locks.Insert.{held-locks_insert, IsOrdered-locks_insert}
use fuse_study.Locks.Calls.{
  setlk, Operations, reply_err, reply_lock, enosys, owned, fuse_fs_lock, fuse_fs_flush,
  fuse_lib_getlk, fuse_lib_setlk, fuse_lib_flush, whole_file, fuse_lock_common, fuse_flush_common,
}
use fuse_study.Locks.Replies.{IsQuiet, fuse_lib_setlk-cases, fuse_lib_flush-releases}

abbrev lock_of : LockType → ℕ → ℕ → ℕ → Lock
lock_of k a b o = record { kind = k; start = a; stop = b; pid = 7; owner = o }

abbrev sample : List Lock
sample = lock_of rdlck 0 9 1 ∷ lock_of wrlck 20 29 2 ∷ lock_of rdlck 40 49 1 ∷ []

abbrev writing : Lock
writing = lock_of wrlck 3 5 1

-- The lock that is cut in two.
cut_run :
    locks_insert true sample writing
    ≡ some (
        lock_of rdlck 0 2 1
        ∷ lock_of wrlck 3 5 1
        ∷ lock_of rdlck 6 9 1
        ∷ lock_of wrlck 20 29 2
        ∷ lock_of rdlck 40 49 1
        ∷ [])
unfolding locks_insert locks_loop round finish
cut_run = refl

conflict_run : locks_conflict sample (lock_of rdlck 25 30 1) ≡ some (lock_of wrlck 20 29 2)
unfolding locks_conflict conflicts
conflict_run = refl

sample-IsOrdered : IsOrdered sample
sample-IsOrdered = (
  record { ordered = omega arith; held = λ e. cc },
  (refl, (refl, tt)),
  (
    record { ordered = omega arith; held = λ e. cc },
    (refl, tt),
    (record { ordered = omega arith; held = λ e. cc }, tt, tt),
  ),
)

held-locks_insert_example :
    (ls' : List Lock) × (locks_insert true sample writing ≡ some ls')
    × ((o x : ℕ) → held o x ls' ≡ (if covers o x writing then granted wrlck else held o x sample))
held-locks_insert_example = held-locks_insert sample writing (omega arith) sample-IsOrdered

abbrev after_cut : List Lock
after_cut =
    lock_of rdlck 0 2 1
    ∷ lock_of wrlck 3 5 1
    ∷ lock_of rdlck 6 9 1
    ∷ lock_of wrlck 20 29 2
    ∷ lock_of rdlck 40 49 1
    ∷ []

IsOrdered-locks_insert_example : IsOrdered after_cut
IsOrdered-locks_insert_example =
    IsOrdered-locks_insert true sample writing {ls' = after_cut} (omega arith) sample-IsOrdered
      cut_run

no_conflict_run : locks_conflict sample (lock_of rdlck 5 12 2) ≡ none
unfolding locks_conflict conflicts
no_conflict_run = refl

-- A file system that grants every lock and counts the calls of its lock operation.
abbrev granting : Operations ℕ
granting = record { flush = none; lock = some (λ cmd lock n. ((0, lock), n + 1)) }

granting-IsQuiet : IsQuiet granting
unfolding fuse_fs_lock
granting-IsQuiet cmd lock n ne = refl

abbrev wanted_range : Flock
wanted_range = record { l_type = wrlck; l_start = 3; l_len = 3; l_pid = 7 }

flush_run : (fuse_lib_flush granting false 1 sample 0).0 ≡ (reply_err 0, lock_of wrlck 20 29 2 ∷ [])
unfolding fuse_lib_flush fuse_flush_common fuse_fs_flush fuse_fs_lock owned flock_to_lock
    locks_insert locks_loop round finish
flush_run = refl

getlk_run :
    (fuse_lib_getlk granting 0 1 (record wanted_range { l_start = 25 }) sample 0).0
    ≡ reply_lock (lock_to_flock (lock_of wrlck 20 29 2))
unfolding fuse_lib_getlk owned flock_to_lock locks_conflict conflicts fuse_lock_common fuse_fs_lock
getlk_run = refl

fuse_lib_setlk-cases_example :
    ((e : ℕ) × (e ≢ 0)
      × ((fuse_lib_setlk granting true 0 1 true wanted_range sample 0).0 ≡ (reply_err e, sample)))
    ⊎ (((fuse_lib_setlk granting true 0 1 true wanted_range sample 0).0.0 ≡ reply_err 0)
        × ((o x : ℕ)
            → held o x (fuse_lib_setlk granting true 0 1 true wanted_range sample 0).0.1
              ≡ (if covers o x (owned 1 wanted_range) then granted wrlck else held o x sample)))
fuse_lib_setlk-cases_example =
    fuse_lib_setlk-cases granting 0 1 true wanted_range sample 0 granting-IsQuiet (omega arith)
      sample-IsOrdered

granting_lock : (fuse_fs_lock granting setlk whole_file (fuse_fs_flush granting 0).1).0.0 ≢ enosys
unfolding fuse_fs_lock fuse_fs_flush
granting_lock = λ e. omega arith

fuse_lib_flush-releases_example :
    ((fuse_lib_flush granting false 1 sample 0).0.0
      ≡ reply_err
          (if (fuse_fs_flush granting 0).0 == enosys then 0 else (fuse_fs_flush granting 0).0))
    × ((o x : ℕ)
        → x ≤ offset_max
        → held o x (fuse_lib_flush granting false 1 sample 0).0.1
          ≡ (if o == 1 then none else held o x sample))
fuse_lib_flush-releases_example =
    fuse_lib_flush-releases granting false 1 sample 0 granting-IsQuiet granting_lock
      sample-IsOrdered
