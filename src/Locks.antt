-- ===== src/Locks.antt =====
-- POSIX record locks of one node: `struct lock` and the functions of lib/fuse.c that work on the
-- sorted list `node->locks`.

pub mod Order
pub mod Held
pub mod Convert
pub mod Insert
pub mod Calls
pub mod Replies
mod Tests
use fuse_study.Base.{
  ℕ, Bool, Option, none, some, List, [], ◌∷◌, ◌&&◌, ◌||◌, leb, ltb, ◌==◌, if◌then◌else◌, not, ◌-◌,
  ◌+◌, ◌^◌,
}

-- `F_RDLCK`, `F_WRLCK` and `F_UNLCK`
pub data LockType : Type 0 where
  rdlck wrlck unlck : LockType

abbrev pub same_type : LockType → LockType → Bool
same_type rdlck rdlck = Bool.true
same_type wrlck wrlck = Bool.true
same_type unlck unlck = Bool.true
same_type _ _ = Bool.false

-- The `next` pointer is the list's.
pub record Lock : Type 0 where
  pub kind : LockType
  pub start : ℕ
  pub stop : ℕ
  pub pid : ℕ
  pub owner : ℕ

-- `OFFSET_MAX` of a 64-bit `off_t`
abbrev pub offset_max : ℕ
offset_max = 2 ^ 63 - 1

abbrev pub is_wrlck : LockType → Bool
is_wrlck wrlck = Bool.true
is_wrlck _ = Bool.false

pub conflicts : Lock → Lock → Bool
conflicts lock l =
    not (l.owner == lock.owner)
    && (leb lock.start l.stop && (leb l.start lock.stop && (is_wrlck l.kind || is_wrlck lock.kind)))

pub locks_conflict : List Lock → Lock → Option Lock
locks_conflict [] lock = none
locks_conflict (l ∷ ls) lock = if conflicts lock l then some l else locks_conflict ls lock

-- What one round of the loop of `locks_insert` does with the lock `*lp`: go past it (perhaps
-- shortened), free it and go on with a possibly longer request, leave the loop in front of it
-- (perhaps shortened), leave by `goto out`, or cut it in two. The cut is followed by a round at
-- the upper half, which always breaks (`round_of_upper`).
pub data Round : Type 0 where
  skip : Lock → Round
  delete : Lock → Round
  break_at : Lock → Round
  out : Round
  cut : Lock → Lock → Round

-- The request, extended over a lock of its own type that it meets or touches.
abbrev pub grow : Lock → Lock → Lock
grow lock l = record lock {
  start = if ltb l.start lock.start then l.start else lock.start;
  stop = if ltb lock.stop l.stop then l.stop else lock.stop;
}

-- In the source `lock->start - 1` may be -1; the comparisons are written with `+ 1` instead.
pub same_round : Lock → Lock → Round
same_round lock l =
    if ltb (l.stop + 1) lock.start
    then skip l
    else if ltb (lock.stop + 1) l.start
    then break_at l
    else if leb l.start lock.start && leb lock.stop l.stop
    then out
    else delete (grow lock l)

pub other_round : Lock → Lock → Round
other_round lock l =
    if ltb l.stop lock.start
    then skip l
    else if ltb lock.stop l.start
    then break_at l
    else if leb lock.start l.start && leb l.stop lock.stop
    then delete lock
    else if leb l.stop lock.stop
    then skip (record l { stop = lock.start - 1 })
    else if leb lock.start l.start
    then break_at (record l { start = lock.stop + 1 })
    else cut (record l { stop = lock.start - 1 }) (record l { start = lock.stop + 1 })

unfoldable pub round : Lock → Lock → Round
unfolding same_round other_round
round lock l =
    if not (l.owner == lock.owner)
    then skip l
    else if same_type lock.kind l.kind
    then same_round lock l
    else other_round lock l

-- The insertion behind the loop.
unfoldable pub finish : Lock → List Lock → List Lock
finish lock ls = if same_type lock.kind unlck then ls else lock ∷ ls

-- The list from `*lp` on, after the loop and the final insertion.
unfoldable pub locks_loop : Lock → List Lock → List Lock
locks_loop lock [] = finish lock []
locks_loop lock (l ∷ ls) = elim (round lock l) [
  | skip l' ↦ l' ∷ locks_loop lock ls
  | delete lock' ↦ locks_loop lock' ls
  | break_at l' ↦ finish lock (l' ∷ ls)
  | out ↦ l ∷ ls
  | cut l' upper ↦ l' ∷ finish lock (upper ∷ ls)
]

-- `allocated` says whether both calls of `malloc` succeeded; `none` is -ENOLCK.
unfoldable pub locks_insert : Bool → List Lock → Lock → Option (List Lock)
unfolding locks_loop
locks_insert allocated ls lock =
    if (not (same_type lock.kind unlck) || (not (lock.start == 0) || not (lock.stop == offset_max)))
      && not allocated
    then none
    else some (locks_loop lock ls)

-- `struct flock` as far as the code reads it; `l_len` is not negative.
pub record Flock : Type 0 where
  pub l_type : LockType
  pub l_start : ℕ
  pub l_len : ℕ
  pub l_pid : ℕ

-- The `memset` leaves the owner 0; each caller then sets it.
unfoldable pub flock_to_lock : Flock → Lock
flock_to_lock f = record {
  kind = f.l_type;
  start = f.l_start;
  stop = if f.l_len == 0 then offset_max else f.l_start + f.l_len - 1;
  pid = f.l_pid;
  owner = 0;
}

unfoldable pub lock_to_flock : Lock → Flock
lock_to_flock l = record {
  l_type = l.kind;
  l_start = l.start;
  l_len = if l.stop == offset_max then 0 else l.stop - l.start + 1;
  l_pid = l.pid;
}
