-- ===== src/TreeLock/Waiters.antt =====
-- No wake-up is lost: who still waits after `wake_up_queued` cannot have its path.
use fuse_study.Base.{
  ℕ, true, false, Option, none, some, List, [], ◌∷◌, ◌==◌, ◌≡◌, ◌≢◌, ◌≤◌, ◌<◌, ◌+◌, ◌*◌, inl, inr,
  arith, refl, Bool-cases, Option-cases, sym, ap, ◌∙◌, length, ltb,
}
use fuse_study.TreeLock.{
  unlocked, set_lock, add_name, climb, left_at, got, refused, eagain, try_get_path, last_name,
  after_climb,
}
use fuse_study.TreeLock.Counts.{times, climb-nil, climb-nameless, climb-busy, climb-idle}
use fuse_study.TreeLock.Paths.{
  Climb-cases, IsIdle, write_locked, try-idle, try-busy, IsIdle-cases, try_get_path-got,
  try_get_path-refused,
}
use fuse_study.TreeLock.Readers.{got-Counted}

-- No lock that stands in the way has gone.
pub record Tighter (locks locks' : ℕ → ℕ) : Type 0 where
  pub low : (n : ℕ) → locks n < unlocked → locks' n < unlocked
  pub busy : (n : ℕ) → locks n ≢ unlocked → locks' n ≢ unlocked

pub times-length : (chain : List ℕ) (n : ℕ) → times none chain n ≤ length chain
times-length [] n = omega arith
times-length (node ∷ chain) n = ground (arith, times-length chain n)

module _ (name_of : ℕ → Option (List ℕ)) where
  climb-blocked :
      (chain s s' : List ℕ) (end : ℕ) (locks locks' : ℕ → ℕ)
      → (climb name_of true chain s locks).0 ≡ left_at eagain end
      → ((n : ℕ) → locks n < unlocked → locks' n < unlocked)
      → (end' : ℕ) × ((climb name_of true chain s' locks').0 ≡ left_at eagain end')
  climb-blocked [] s s' end locks locks' h low = absurd (climb-nil name_of s eagain end locks h)
  climb-blocked (node ∷ chain) s s' end locks locks' h low = elim (Option-cases (name_of node)) [
    | inl e ↦ absurd (ground (arith, climb-nameless name_of node chain s locks e, h))
    | inr (name, e) ↦ elim (Bool-cases (ltb (locks' node) unlocked)) [
      | inl busy' ↦ (node, ap (λ r. r.0) (climb-busy name_of node chain s' name locks' e busy'))
      | inr idle' ↦
          let idle : ltb (locks node) unlocked ≡ false = ground (arith, low node, idle') in
          let step = climb-idle name_of node chain s name locks e idle in
          let step' = climb-idle name_of node chain s' name locks' e idle' in
          let r =
            climb-blocked chain (add_name s name) (add_name s' name) end
              (set_lock locks node (locks node + 1)) (set_lock locks' node (locks' node + 1))
              (sym (ap (λ r. r.0) step) ∙ h) (λ n l. ground (arith, l, low n, idle)) in
          (r.0, ap (λ r. r.0) step' ∙ r.1)
    ]
  ]

  climb-write_locked :
      (wnode : Option ℕ) (locks locks' : ℕ → ℕ)
      → Tighter locks locks'
      → (n : ℕ) → write_locked wnode locks n < unlocked
      → write_locked wnode locks' n < unlocked
  climb-write_locked none locks locks' t n h = t.low n h
  climb-write_locked (some w) locks locks' t n h = ground (arith, h, t.low n)

  IsIdle-Tighter :
      (wnode : Option ℕ) (locks locks' : ℕ → ℕ)
      → Tighter locks locks'
      → IsIdle wnode locks'
      → IsIdle wnode locks
  IsIdle-Tighter none locks locks' t idle = tt
  IsIdle-Tighter (some w) locks locks' t idle = elim (Bool-cases (locks w == unlocked)) [
    | inl e ↦ ground (arith, e)
    | inr f ↦ absurd (t.busy w (ground (arith, f)) idle)
  ]

  module _ (wnode : Option ℕ) (chain s s' : List ℕ) (locks locks' : ℕ → ℕ) where
    left_of_refused :
        (after_climb name_of true wnode chain
            (climb name_of true chain s (write_locked wnode locks)).0
            (climb name_of true chain s (write_locked wnode locks)).1).0
          ≡ refused eagain
        → (end : ℕ) × ((climb name_of true chain s (write_locked wnode locks)).0
            ≡ left_at eagain end)
    unfolding after_climb
    left_of_refused h =
        elim (Climb-cases (climb name_of true chain s (write_locked wnode locks)).0) [
          | inl (p, q) ↦ absurd (ground (arith, h, q))
          | inr (e, end, q) ↦ (end, ground (arith, h, q))
        ]

    refused_of_left :
        (end : ℕ)
        → (climb name_of true chain s' (write_locked wnode locks')).0 ≡ left_at eagain end
        → (after_climb name_of true wnode chain
            (climb name_of true chain s' (write_locked wnode locks')).0
            (climb name_of true chain s' (write_locked wnode locks')).1).0
          ≡ refused eagain
    unfolding after_climb
    refused_of_left end q = rw (q, after_climb) refl

  -- What is refused stays refused while no lock is given back.
  pub try-blocked :
      (wnode : Option ℕ) (name : Option (List ℕ)) (chain : List ℕ) (locks locks' : ℕ → ℕ)
      → (try_get_path name_of true wnode name chain locks).0 ≡ refused eagain
      → Tighter locks locks'
      → (try_get_path name_of true wnode name chain locks').0 ≡ refused eagain
  try-blocked wnode name chain locks locks' h t = elim (IsIdle-cases name_of wnode locks') [
    | inr (w, q, busy) ↦ rw q (ap (λ r. r.0) (try-busy name_of w name chain locks' busy))
    | inl idle' ↦
        let idle = IsIdle-Tighter wnode locks locks' t idle' in
        let step = try-idle name_of wnode name chain locks idle in
        let step' = try-idle name_of wnode name chain locks' idle' in
        let s = last_name name in
        let l = left_of_refused wnode chain s s locks locks' (sym (ap (λ r. r.0) step) ∙ h) in
        let r =
          climb-blocked chain s s l.0 (write_locked wnode locks) (write_locked wnode locks') l.1
            (climb-write_locked wnode locks locks' t) in
        ap (λ r. r.0) step' ∙ refused_of_left wnode chain s s locks locks' r.0 r.1
  ]

  pub got-Tighter :
      (wnode w' : Option ℕ) (name : Option (List ℕ)) (chain p : List ℕ) (locks : ℕ → ℕ)
      → (try_get_path name_of true wnode name chain locks).0 ≡ got p w'
      → Tighter locks (try_get_path name_of true wnode name chain locks).1
  got-Tighter none w' name chain p locks h =
      let c = got-Counted name_of none w' name chain p locks h in
      record {
        low = λ n l. ground (arith, l, c.adds n, c.free n);
        busy = λ n l. ground (arith, l, c.adds n, c.free n);
      }
  got-Tighter (some w) w' name chain p locks h =
      let c = got-Counted name_of (some w) w' name chain p locks h in
      let idle : locks w ≡ unlocked =
        (try_get_path-got name_of (some w) w' name chain p locks 0 h).0 in
      record {
        low = λ n l. ground (arith, l, c.adds n, c.free n, idle);
        busy = λ n l. ground (arith, l, c.adds n, c.free n, idle);
      }

  pub refused-Tighter :
      (wnode : Option ℕ) (name : Option (List ℕ)) (chain : List ℕ) (locks : ℕ → ℕ) (e : ℕ)
      → ((n : ℕ) → locks n < 2 * unlocked)
      → (try_get_path name_of true wnode name chain locks).0 ≡ refused e
      → Tighter locks (try_get_path name_of true wnode name chain locks).1
  refused-Tighter none name chain locks e small h =
      let r = λ (n : ℕ). try_get_path-refused name_of none name chain locks e n h in
      record { low = λ n l. ground (arith, l, r n); busy = λ n l. ground (arith, l, r n) }
  refused-Tighter (some w) name chain locks e small h =
      let r = λ (n : ℕ). try_get_path-refused name_of (some w) name chain locks e n h in
      record {
        low = λ n l. ground (arith, l, r n, small n);
        busy = λ n l. ground (arith, l, r n, small n);
      }
