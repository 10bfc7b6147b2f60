-- ===== src/Locks/Insert.antt =====
-- `locks_insert` and `locks_conflict` against what each owner holds on each byte.
use fuse_study.Base.{
  ℕ, Bool, true, false, none, some, List, [], ◌∷◌, ◌≡◌, ◌≢◌, ◌≤◌, refl, ◌==◌, arith, if◌then◌else◌,
  Bool-cases, inl, inr, ◌⊎◌, ==_iff,
}
use fuse_study.Locks.{
  Lock, rdlck, wrlck, unlck, locks_loop, locks_insert, locks_conflict, conflicts, offset_max,
}
use fuse_study.Locks.Order.{IsOrdered, IsOrdered-locks_loop}
use fuse_study.Locks.Held.{covers, held, granted, held-locks_loop_own, held-locks_loop_other}

pub held-locks_loop :
    (o x : ℕ) (lock : Lock) (ls : List Lock)
    → lock.start ≤ lock.stop
    → IsOrdered ls
    → held o x (locks_loop lock ls) ≡ (if covers o x lock then granted lock.kind else held o x ls)
held-locks_loop o x lock ls fits order = elim (Bool-cases (o == lock.owner)) [
  | inl own ↦
      let e : o ≡ lock.owner = (==_iff o lock.owner).0 own in
      rw e (ground (arith, held-locks_loop_own x lock ls fits order))
  | inr other ↦ ground (arith, held-locks_loop_other o x lock ls other)
]

-- When both allocations succeed, `locks_insert` succeeds on an ordered list; afterwards the
-- requesting owner holds the requested type on exactly the requested bytes (nothing there, for
-- an unlock), and every other byte of it and all bytes of other owners are held as before.
pub held-locks_insert :
    (ls : List Lock) (lock : Lock)
    → lock.start ≤ lock.stop
    → IsOrdered ls
    → (ls' : List Lock) × (locks_insert true ls lock ≡ some ls')
      × ((o x : ℕ) → held o x ls' ≡ (if covers o x lock then granted lock.kind else held o x ls))
unfolding locks_insert
held-locks_insert ls lock fits order =
    (locks_loop lock ls, ground arith, λ o x. held-locks_loop o x lock ls fits order)

-- Whatever the allocations do, a list that `locks_insert` leaves behind is again ordered: each
-- owner's locks are nonempty, ascending and disjoint, and none of them is an unlock.
pub IsOrdered-locks_insert :
    (allocated : Bool) (ls : List Lock) (lock : Lock) {ls' : List Lock}
    → lock.start ≤ lock.stop
    → IsOrdered ls
    → locks_insert allocated ls lock ≡ some ls'
    → IsOrdered ls'
unfolding locks_insert
IsOrdered-locks_insert allocated ls lock fits order e =
    ground (arith, IsOrdered-locks_loop lock ls fits order)

-- Dropping every lock of an owner (an unlock from 0 to the greatest offset) needs no memory: it
-- succeeds even when allocation fails, and afterwards the owner holds no byte of the file.
pub unlock_all :
    (allocated : Bool) (ls : List Lock) (lock : Lock) (x : ℕ)
    → lock.kind ≡ unlck
    → lock.start ≡ 0
    → lock.stop ≡ offset_max
    → IsOrdered ls
    → x ≤ offset_max
    → (ls' : List Lock) × (locks_insert allocated ls lock ≡ some ls')
      × (held lock.owner x ls' ≡ none)
unfolding locks_insert
unlock_all allocated ls lock x k s e order h = (
  locks_loop lock ls,
  ground arith,
  ground (arith, held-locks_loop lock.owner x lock ls (omega arith) order),
)

-- When `locks_conflict` finds nothing, another owner holds a byte of the request at most for
-- reading, and then only if the request is not for writing.
pub locks_conflict-none :
    (ls : List Lock) (lock : Lock) (o x : ℕ)
    → IsOrdered ls
    → locks_conflict ls lock ≡ none
    → (o == lock.owner) ≡ false
    → covers lock.owner x lock ≡ true
    → (held o x ls ≡ none) ⊎ ((held o x ls ≡ some rdlck) × (lock.kind ≢ wrlck))
unfolding locks_conflict conflicts
locks_conflict-none [] lock o x order h ne c = inl refl
locks_conflict-none (l ∷ ls) lock o x order h ne c =
    ground (arith, locks_conflict-none ls lock o x order.2)
