-- ===== src/Locks/Held.antt =====
-- What the list of locks says of one byte and one owner.
use fuse_study.Base.{
  ℕ, Bool, true, false, Option, none, some, List, [], ◌∷◌, ◌&&◌, ◌≡◌, ◌≤◌, refl, leb, ◌==◌, arith,
  if◌then◌else◌, Bool-cases, inl, inr,
}
use fuse_study.Locks.{Lock, LockType, unlck, grow, same_type, round, finish, locks_loop}
use fuse_study.Locks.Order.{Above, IsOrdered, IsRange}

-- The byte `x` lies in the lock, and the lock is the owner's.
abbrev pub covers : ℕ → ℕ → Lock → Bool
covers o x l = (l.owner == o) && (leb l.start x && leb x l.stop)

-- The type of the lock that the owner `o` holds on the byte `x`.
abbrev pub held : ℕ → ℕ → List Lock → Option LockType
held o x [] = none
held o x (l ∷ ls) = if covers o x l then some l.kind else held o x ls

abbrev pub granted : LockType → Option LockType
granted k = if same_type k unlck then none else some k

held-none : (o x b : ℕ) (ls : List Lock) → leb x b ≡ true → Above o b ls → held o x ls ≡ none
held-none o x b [] h a = refl
held-none o x b (l ∷ ls) h a = ground (arith, held-none o x b ls)

-- The request of the owner itself, at a lock of its own type, of another type, and of others.
module _ (x : ℕ) (lock l : Lock) (ls : List Lock) (fits : lock.start ≤ lock.stop)
    (range : IsRange l) (above : Above l.owner l.stop ls) where
  wanted : Lock → Option LockType
  wanted k = if leb k.start x && leb x k.stop then granted k.kind else held k.owner x ls

  wanted_here : Option LockType
  wanted_here =
      if leb lock.start x && leb x lock.stop then granted lock.kind else held lock.owner x (l ∷ ls)

  held_same :
      (l.owner == lock.owner) ≡ true
      → same_type lock.kind l.kind ≡ true
      → held lock.owner x (locks_loop lock ls) ≡ wanted lock
      → held lock.owner x (locks_loop (grow lock l) ls) ≡ wanted (grow lock l)
      → held lock.owner x (locks_loop lock (l ∷ ls)) ≡ wanted_here
  unfolding locks_loop round finish wanted wanted_here
  held_same own same ih ih' = ground (arith, held-none lock.owner x l.stop ls)

  held_different :
      (l.owner == lock.owner) ≡ true
      → same_type lock.kind l.kind ≡ false
      → held lock.owner x (locks_loop lock ls) ≡ wanted lock
      → held lock.owner x (locks_loop lock (l ∷ ls)) ≡ wanted_here
  unfolding locks_loop round finish wanted wanted_here
  held_different own same ih = ground (arith, held-none lock.owner x l.stop ls)

  held_foreign :
      (l.owner == lock.owner) ≡ false
      → held lock.owner x (locks_loop lock ls) ≡ wanted lock
      → held lock.owner x (locks_loop lock (l ∷ ls)) ≡ wanted_here
  unfolding locks_loop round finish wanted wanted_here
  held_foreign own ih = ground arith

pub held-locks_loop_own :
    (x : ℕ) (lock : Lock) (ls : List Lock)
    → lock.start ≤ lock.stop
    → IsOrdered ls
    → held lock.owner x (locks_loop lock ls)
      ≡ (if leb lock.start x && leb x lock.stop then granted lock.kind else held lock.owner x ls)
unfolding locks_loop finish wanted wanted_here
held-locks_loop_own x lock [] h a = ground arith
held-locks_loop_own x lock (l ∷ ls) h a =
    let ih = held-locks_loop_own x lock ls h a.2 in
    let ih' = held-locks_loop_own x (grow lock l) ls (ground arith) a.2 in
    elim (Bool-cases (l.owner == lock.owner)) [
      | inl own ↦ elim (Bool-cases (same_type lock.kind l.kind)) [
        | inl same ↦ held_same x lock l ls h a.0 a.1 own same ih ih'
        | inr different ↦ held_different x lock l ls h a.0 a.1 own different ih
      ]
      | inr foreign ↦ held_foreign x lock l ls h a.0 a.1 foreign ih
    ]

-- A request leaves what the other owners hold.
module _ (o x : ℕ) (lock l : Lock) (ls : List Lock) (other : (o == lock.owner) ≡ false) where
  other_same :
      (l.owner == lock.owner) ≡ true
      → same_type lock.kind l.kind ≡ true
      → held o x (locks_loop lock ls) ≡ held o x ls
      → held o x (locks_loop (grow lock l) ls) ≡ held o x ls
      → held o x (locks_loop lock (l ∷ ls)) ≡ held o x (l ∷ ls)
  unfolding locks_loop round finish
  other_same own same ih ih' = ground arith

  other_different :
      (l.owner == lock.owner) ≡ true
      → same_type lock.kind l.kind ≡ false
      → held o x (locks_loop lock ls) ≡ held o x ls
      → held o x (locks_loop lock (l ∷ ls)) ≡ held o x (l ∷ ls)
  unfolding locks_loop round finish
  other_different own same ih = ground arith

  other_foreign :
      (l.owner == lock.owner) ≡ false
      → held o x (locks_loop lock ls) ≡ held o x ls
      → held o x (locks_loop lock (l ∷ ls)) ≡ held o x (l ∷ ls)
  unfolding locks_loop round finish
  other_foreign own ih = ground arith

pub held-locks_loop_other :
    (o x : ℕ) (lock : Lock) (ls : List Lock)
    → (o == lock.owner) ≡ false
    → held o x (locks_loop lock ls) ≡ held o x ls
unfolding locks_loop finish
held-locks_loop_other o x lock [] ne = ground arith
held-locks_loop_other o x lock (l ∷ ls) ne =
    let ih = held-locks_loop_other o x lock ls ne in
    let ih' = held-locks_loop_other o x (grow lock l) ls ne in
    elim (Bool-cases (l.owner == lock.owner)) [
      | inl own ↦ elim (Bool-cases (same_type lock.kind l.kind)) [
        | inl same ↦ other_same o x lock l ls ne own same ih ih'
        | inr different ↦ other_different o x lock l ls ne own different ih
      ]
      | inr foreign ↦ other_foreign o x lock l ls ne foreign ih
    ]
