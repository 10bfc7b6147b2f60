-- ===== src/Locks/Order.antt =====
-- The order that the list of locks keeps: the locks of one owner lie apart, in ascending order.
use fuse_study.Base.{
  ℕ, true, false, List, [], ◌∷◌, ◌&&◌, ◌≡◌, ◌≢◌, ◌≤◌, ◌-◌, leb, ◌==◌, arith, Bool-cases, inl, inr,
}
use fuse_study.Locks.{Lock, unlck, grow, same_type, round, finish, locks_loop, cut, break_at}

-- Every lock of the owner `o` starts behind `b`.
abbrev pub Above : ℕ → ℕ → List Lock → Type 0
Above o b [] = Unit
Above o b (l ∷ ls) = (((l.owner == o) && leb l.start b) ≡ false) × Above o b ls

pub record IsRange (l : Lock) : Type 0 where
  pub ordered : l.start ≤ l.stop
  pub held : l.kind ≢ unlck

abbrev pub IsOrdered : List Lock → Type 0
IsOrdered [] = Unit
IsOrdered (l ∷ ls) = IsRange l × Above l.owner l.stop ls × IsOrdered ls

-- After a cut the next round, at the upper half, leaves the loop.
pub round_of_upper :
    (lock l l' upper : Lock) → round lock l ≡ cut l' upper → round lock upper ≡ break_at upper
unfolding round
round_of_upper lock l l' upper h = ground arith

pub Above-mono : (o b c : ℕ) (ls : List Lock) → c ≤ b → Above o b ls → Above o c ls
Above-mono o b c [] h a = tt
Above-mono o b c (l ∷ ls) h a = (ground arith, Above-mono o b c ls h a.1)

pub Above-finish :
    (o b : ℕ) (lock : Lock) (ls : List Lock)
    → ((lock.owner == o) && leb lock.start b) ≡ false
    → Above o b ls
    → Above o b (finish lock ls)
unfolding finish
Above-finish o b lock ls h a = ground arith

-- No round moves the order past the locks behind.
pub Above-locks_loop :
    (o b : ℕ) (lock : Lock) (ls : List Lock)
    → ((lock.owner == o) && leb lock.start b) ≡ false
    → Above o b ls
    → Above o b (locks_loop lock ls)
unfolding locks_loop round finish
Above-locks_loop o b lock [] h a = ground arith
Above-locks_loop o b lock (l ∷ ls) h a =
    ground (arith, Above-locks_loop o b lock ls, Above-locks_loop o b (grow lock l) ls)

module _ (lock l : Lock) (ls : List Lock) (fits : lock.start ≤ lock.stop) (range : IsRange l)
    (above : Above l.owner l.stop ls) (rest : IsOrdered ls) where
  IsOrdered-same :
      (l.owner == lock.owner) ≡ true
      → same_type lock.kind l.kind ≡ true
      → IsOrdered (locks_loop lock ls)
      → IsOrdered (locks_loop (grow lock l) ls)
      → IsOrdered (locks_loop lock (l ∷ ls))
  unfolding locks_loop round finish
  IsOrdered-same own same ih ih' =
      ground
        (arith, Above-mono l.owner l.stop lock.stop ls, Above-locks_loop l.owner l.stop lock ls)

  IsOrdered-different :
      (l.owner == lock.owner) ≡ true
      → same_type lock.kind l.kind ≡ false
      → IsOrdered (locks_loop lock ls)
      → IsOrdered (locks_loop lock (l ∷ ls))
  unfolding locks_loop round finish
  IsOrdered-different own same ih = ground (
    arith,
    Above-mono l.owner l.stop (lock.start - 1) ls,
    Above-mono l.owner l.stop lock.stop ls,
    Above-locks_loop l.owner l.stop lock ls,
    Above-locks_loop l.owner (lock.start - 1) lock ls,
  )

  IsOrdered-foreign :
      (l.owner == lock.owner) ≡ false
      → IsOrdered (locks_loop lock ls)
      → IsOrdered (locks_loop lock (l ∷ ls))
  unfolding locks_loop round finish
  IsOrdered-foreign own ih = ground (arith, Above-locks_loop l.owner l.stop lock ls)

pub IsOrdered-locks_loop :
    (lock : Lock) (ls : List Lock)
    → lock.start ≤ lock.stop
    → IsOrdered ls
    → IsOrdered (locks_loop lock ls)
unfolding locks_loop finish
IsOrdered-locks_loop lock [] h a = ground arith
IsOrdered-locks_loop lock (l ∷ ls) h a =
    let ih = IsOrdered-locks_loop lock ls h a.2 in
    let ih' = IsOrdered-locks_loop (grow lock l) ls (ground arith) a.2 in
    elim (Bool-cases (l.owner == lock.owner)) [
      | inl own ↦ elim (Bool-cases (same_type lock.kind l.kind)) [
        | inl same ↦ IsOrdered-same lock l ls h a.0 a.1 a.2 own same ih ih'
        | inr different ↦ IsOrdered-different lock l ls h a.0 a.1 a.2 own different ih
      ]
      | inr foreign ↦ IsOrdered-foreign lock l ls h a.0 a.1 a.2 foreign ih
    ]
