-- ===== src/TreeLock/Paths.antt =====
-- `try_get_path` and `unlock_path`: what is locked on success, and that a refusal leaves no lock.
use fuse_study.Base.{
  ℕ, true, false, Option, none, some, List, ◌==◌, ◌≡◌, ◌<◌, ◌-◌, ◌⊎◌, inl, inr, refl, arith,
  if◌then◌else◌, Bool-cases, ltb, sym, ap, ◌∙◌,
}
use fuse_study.TreeLock.{
  unlocked, treelock_write, set_lock, unlock_path, Climb, reached, left_at, climb, after_climb,
  try_get_path, got, refused, eagain, last_name,
}
use fuse_study.TreeLock.Counts.{Counted, climb-reached, climb-left_at, unlock_chain-Counted}

-- Each outcome of the loop.
pub Climb-cases :
    (c : Climb) → ((s : List ℕ) × (c ≡ reached s)) ⊎ ((e : ℕ) × (end : ℕ) × (c ≡ left_at e end))
Climb-cases (reached s) = inl (s, refl)
Climb-cases (left_at e end) = inr (e, end, refl)

-- The locks when the loop starts.
abbrev pub write_locked : Option ℕ → (ℕ → ℕ) → ℕ → ℕ
write_locked none locks = locks
write_locked (some w) locks = set_lock locks w treelock_write

-- The writer's node was not locked.
abbrev pub IsIdle : Option ℕ → (ℕ → ℕ) → Type 0
IsIdle none locks = Unit
IsIdle (some w) locks = locks w ≡ unlocked

unlock_path-Counted :
    (wnode end : Option ℕ) (chain : List ℕ) (locks locks' : ℕ → ℕ) (n : ℕ)
    → IsIdle wnode locks
    → Counted end chain (write_locked wnode locks) locks'
    → unlock_path wnode end chain locks' n ≡ locks n
unfolding unlock_path
unlock_path-Counted none end chain locks locks' n idle c =
    unlock_chain-Counted end chain locks' n (locks n) (c.adds n) (c.free n)
unlock_path-Counted (some w) end chain locks locks' n idle c =
    unlock_chain-Counted end chain (set_lock locks' w unlocked) n (locks n)
      (ground (arith, c.adds n, c.free n, idle)) (λ pos. ground (arith, c.free n pos, idle))

-- A refusal for a writer that has to wait: the mark is left on its node.
abbrev pub IsMarked : Option ℕ → (ℕ → ℕ) → (ℕ → ℕ) → ℕ → Type 0
IsMarked none locks locks' n = ⊥
IsMarked (some w) locks locks' n = (n ≡ w) × (unlocked < locks n) × (locks' n ≡ locks n - unlocked)

marked :
    (w n : ℕ) (locks : ℕ → ℕ)
    → ((if ltb unlocked (locks w) then set_lock locks w (locks w - unlocked) else locks) n
        ≡ locks n)
      ⊎ IsMarked
          (some w)
          locks
          (if ltb unlocked (locks w) then set_lock locks w (locks w - unlocked) else locks)
          n
marked w n locks = elim (Bool-cases (ltb unlocked (locks w))) [
  | inr few ↦ inl (rw few refl)
  | inl waits ↦ rw waits (elim (Bool-cases (n == w)) [
    | inr other ↦ inl (ground (arith, other))
    | inl same ↦ inr (ground (arith, same), ground (arith, same, waits), ground (arith, same))
  ])
]

module _ (name_of : ℕ → Option (List ℕ)) where
  after_climb-undone :
      (wnode : Option ℕ) (chain s : List ℕ) (locks : ℕ → ℕ) (n e : ℕ)
      → IsIdle wnode locks
      → (after_climb name_of true wnode chain
          (climb name_of true chain s (write_locked wnode locks)).0
          (climb name_of true chain s (write_locked wnode locks)).1).0
        ≡ refused e
      → (after_climb name_of true wnode chain
            (climb name_of true chain s (write_locked wnode locks)).0
            (climb name_of true chain s (write_locked wnode locks)).1).1
          n
        ≡ locks n
  unfolding after_climb
  after_climb-undone wnode chain s locks n e idle h =
      let r = climb name_of true chain s (write_locked wnode locks) in
      elim (Climb-cases r.0) [
        | inl (s', q) ↦ absurd (ground (arith, q, h))
        | inr (x, end, q) ↦
            let c = (climb-left_at name_of chain s x end (write_locked wnode locks) q).0 in
            rw (q, after_climb) (unlock_path-Counted wnode (some end) chain locks r.1 n idle c)
      ]

  after_climb-got :
      (wnode wnode' : Option ℕ) (chain s p : List ℕ) (locks : ℕ → ℕ) (n : ℕ)
      → IsIdle wnode locks
      → (after_climb name_of true wnode chain
          (climb name_of true chain s (write_locked wnode locks)).0
          (climb name_of true chain s (write_locked wnode locks)).1).0
        ≡ got p wnode'
      → (wnode' ≡ wnode)
        × (unlock_path wnode none chain
              (after_climb name_of true wnode chain
                (climb name_of true chain s (write_locked wnode locks)).0
                (climb name_of true chain s (write_locked wnode locks)).1).1
              n
            ≡ locks n)
  unfolding after_climb
  after_climb-got wnode wnode' chain s p locks n idle h =
      let r = climb name_of true chain s (write_locked wnode locks) in
      elim (Climb-cases r.0) [
        | inr (x, end, q) ↦ absurd (ground (arith, q, h))
        | inl (s', q) ↦
            let c = climb-reached name_of chain s s' (write_locked wnode locks) q in
            (
              ground (arith, q, h),
              rw (q, after_climb) (unlock_path-Counted wnode none chain locks r.1 n idle c),
            )
      ]

  -- The two ways through `try_get_path`.
  pub try-idle :
      (wnode : Option ℕ) (name : Option (List ℕ)) (chain : List ℕ) (locks : ℕ → ℕ)
      → IsIdle wnode locks
      → try_get_path name_of true wnode name chain locks
        ≡ after_climb name_of true wnode chain
            (climb name_of true chain (last_name name) (write_locked wnode locks)).0
            (climb name_of true chain (last_name name) (write_locked wnode locks)).1
  unfolding try_get_path
  try-idle none name chain locks idle = refl
  try-idle (some w) name chain locks idle =
      let t : (locks w == unlocked) ≡ true = ground (arith, idle) in rw (t, try_get_path) refl

  pub try-busy :
      (w : ℕ) (name : Option (List ℕ)) (chain : List ℕ) (locks : ℕ → ℕ)
      → (locks w == unlocked) ≡ false
      → try_get_path name_of true (some w) name chain locks ≡ (
        refused eagain,
        if ltb unlocked (locks w) then set_lock locks w (locks w - unlocked) else locks,
      )
  unfolding try_get_path
  try-busy w name chain locks t = rw (t, try_get_path) refl

  pub IsIdle-cases :
      (wnode : Option ℕ) (locks : ℕ → ℕ)
      → IsIdle wnode locks ⊎ ((w : ℕ) × (wnode ≡ some w) × ((locks w == unlocked) ≡ false))
  IsIdle-cases none locks = inl tt
  IsIdle-cases (some w) locks = elim (Bool-cases (locks w == unlocked)) [
    | inl t ↦ inl (ground (arith, t))
    | inr f ↦ inr (w, refl, f)
  ]

  -- When `try_get_path` with locking refuses, every node's lock is as before, but for the node
  -- that was to be locked for writing if readers hold it: that node is marked as waited for, by
  -- adding `INT_MIN` to its count of readers.
  pub try_get_path-refused :
      (wnode : Option ℕ) (name : Option (List ℕ)) (chain : List ℕ) (locks : ℕ → ℕ) (e n : ℕ)
      → (try_get_path name_of true wnode name chain locks).0 ≡ refused e
      → ((try_get_path name_of true wnode name chain locks).1 n ≡ locks n)
        ⊎ IsMarked wnode locks (try_get_path name_of true wnode name chain locks).1 n
  try_get_path-refused wnode name chain locks e n h = elim (IsIdle-cases wnode locks) [
    | inl idle ↦
        let step = try-idle wnode name chain locks idle in
        inl (
          rw step (
            after_climb-undone wnode chain (last_name name) locks n e idle
              (sym (ap (λ r. r.0) step) ∙ h)))
    | inr (w, q, busy) ↦ rw q (rw (try-busy w name chain locks busy) (marked w n locks))
  ]

  -- When `try_get_path` with locking gives a path, the node to be locked for writing was neither
  -- locked nor waited for, it is the node that was given, and `unlock_path` of the same nodes
  -- afterwards brings every lock back to what it was.
  pub try_get_path-got :
      (wnode wnode' : Option ℕ) (name : Option (List ℕ)) (chain p : List ℕ) (locks : ℕ → ℕ) (n : ℕ)
      → (try_get_path name_of true wnode name chain locks).0 ≡ got p wnode'
      → IsIdle wnode locks
        × (wnode' ≡ wnode)
        × (unlock_path wnode none chain (try_get_path name_of true wnode name chain locks).1 n
            ≡ locks n)
  try_get_path-got wnode wnode' name chain p locks n h = elim (IsIdle-cases wnode locks) [
    | inl idle ↦
        let step = try-idle wnode name chain locks idle in
        let both =
          after_climb-got wnode wnode' chain (last_name name) p locks n idle
            (sym (ap (λ r. r.0) step) ∙ h) in
        (idle, both.0, rw step both.1)
    | inr (w, q, busy) ↦
        let h' : (try_get_path name_of true (some w) name chain locks).0 ≡ got p wnode' =
          rw (sym q) h in
        absurd (ground (arith, try-busy w name chain locks busy, h'))
  ]
