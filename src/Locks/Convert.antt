-- ===== src/Locks/Convert.antt =====
-- The two conversions between `struct flock` and `struct lock`.
use fuse_study.Base.{◌≡◌, ◌≤◌, arith}
use fuse_study.Locks.{Lock, flock_to_lock, lock_to_flock, offset_max}

-- A lock whose end does not pass the greatest offset survives the way to `struct flock` and back,
-- but for the owner, which `struct flock` does not carry.
pub flock_to_lock-lock_to_flock :
    (l : Lock)
    → l.start ≤ l.stop
    → l.stop ≤ offset_max
    → flock_to_lock (lock_to_flock l) ≡ record l { owner = 0 }
unfolding flock_to_lock lock_to_flock
flock_to_lock-lock_to_flock l h k = ground arith
