-- ===== src/TreeLock/Undone.antt =====
-- Unlocking after a request for two paths.
use fuse_study.Base.{
  ℕ, zero, suc, Option, none, some, List, ◌==◌, ◌≡◌, ◌<◌, ◌≤◌, ◌-◌, ◌+◌, ◌⊎◌, inl, inr, refl, arith,
  ltb, Bool-cases, ==_iff, sym, ap, ◌∙◌,
}
use fuse_study.TreeLock.{unlocked, treelock_write, unlock_writer, unlock_path}
use fuse_study.TreeLock.Counts.{
  Counted, times, releases, unlock_chain-times, releases-marked, releases-last,
  unlock_chain-Counted,
}
use fuse_study.TreeLock.Paths.{write_locked, IsIdle, IsMarked}
use fuse_study.TreeLock.Pair.{unlock_both}

-- The node to be locked for writing is `n`, or is not.
abbrev Hits : Option ℕ → ℕ → Type 0
Hits w n =
    ((locks : ℕ → ℕ) → unlock_writer w locks n ≡ unlocked)
    × ((locks : ℕ → ℕ) → write_locked w locks n ≡ treelock_write)
    × ((locks : ℕ → ℕ) → IsIdle w locks → locks n ≡ unlocked)

abbrev Misses : Option ℕ → ℕ → Type 0
Misses w n =
    ((locks : ℕ → ℕ) → unlock_writer w locks n ≡ locks n)
    × ((locks : ℕ → ℕ) → write_locked w locks n ≡ locks n)

writer-cases : (w : Option ℕ) (n : ℕ) → Hits w n ⊎ Misses w n
writer-cases none n = inr (λ locks. refl, λ locks. refl)
writer-cases (some w) n = elim (Bool-cases (n == w)) [
  | inl e ↦ inl (
    λ locks. ground (arith, e),
    λ locks. ground (arith, e),
    λ locks h. ground (arith, h, ap locks ((==_iff n w).0 e)),
  )
  | inr e ↦ inr (λ locks. ground (arith, e), λ locks. ground (arith, e))
]

-- Two paths that were locked one after the other are unlocked in the same order.
pub both_undone :
    (w1 w2 : Option ℕ) (chain1 chain2 : List ℕ) (locks locks1 locks2 : ℕ → ℕ) (n : ℕ)
    → IsIdle w1 locks
    → Counted none chain1 (write_locked w1 locks) locks1
    → IsIdle w2 locks1
    → Counted none chain2 (write_locked w2 locks1) locks2
    → unlock_both w1 chain1 w2 chain2 locks2 n ≡ locks n
unfolding unlock_both unlock_path
both_undone w1 w2 chain1 chain2 locks locks1 locks2 n idle1 c1 idle2 c2 =
    let t1 = times none chain1 n in
    let t2 = times none chain2 n in
    let a1 : locks1 n ≡ write_locked w1 locks n + t1 = c1.adds n in
    let b1 : (0 < t1 → unlocked ≤ write_locked w1 locks n) = c1.free n in
    let a2 : locks2 n ≡ write_locked w2 locks1 n + t2 = c2.adds n in
    let b2 : (0 < t2 → unlocked ≤ write_locked w2 locks1 n) = c2.free n in
    let mid = unlock_path w1 none chain1 locks2 in
    elim (writer-cases w1 n) [
      | inl (u1, l1, i1) ↦
          let was : locks n ≡ unlocked = i1 locks idle1 in
          let alone1 : t1 ≡ 0 = ground (arith, b1, l1 locks) in
          elim (writer-cases w2 n) [
            | inl (u2, l2, i2) ↦ absurd (ground (arith, i2 locks1 idle2, a1, alone1, l1 locks))
            | inr (u2, l2) ↦
                let alone2 : t2 ≡ 0 = ground (arith, b2, a1, alone1, l1 locks, l2 locks1) in
                let first : mid n ≡ unlocked =
                  unlock_chain-Counted none chain1 (unlock_writer w1 locks2) n unlocked
                    (ground (arith, u1 locks2, alone1)) (λ pos. omega arith) in
                unlock_chain-Counted none chain2 (unlock_writer w2 mid) n (locks n)
                  (ground (arith, first, u2 mid, was, alone2)) (λ pos. ground (arith, was))
          ]
      | inr (u1, l1) ↦ elim (writer-cases w2 n) [
        | inl (u2, l2, i2) ↦
            let idle : locks1 n ≡ unlocked = i2 locks1 idle2 in
            let alone1 : t1 ≡ 0 = ground (arith, a1, b1, l1 locks, idle) in
            let alone2 : t2 ≡ 0 = ground (arith, b2, l2 locks1) in
            unlock_chain-Counted none chain2 (unlock_writer w2 mid) n (locks n)
              (ground (arith, u2 mid, alone2, idle, a1, alone1, l1 locks))
              (λ pos. ground (arith, pos, alone2))
        | inr (u2, l2) ↦
            let first : mid n ≡ locks n + t2 =
              unlock_chain-Counted none chain1 (unlock_writer w1 locks2) n (locks n + t2)
                (ground (arith, a1, a2, u1 locks2, l1 locks, l2 locks1))
                (λ pos. ground (arith, b1 pos, l1 locks)) in
            unlock_chain-Counted none chain2 (unlock_writer w2 mid) n (locks n)
              (ground (arith, first, u2 mid))
              (λ pos. ground (arith, a1, b1, b2 pos, l1 locks, l2 locks1))
      ]
    ]

mark_left :
    (k t : ℕ)
    → (0 < k → unlocked ≤ t)
    → unlocked < t + k
    → (releases k (t + k - unlocked) ≡ t)
      ⊎ ((unlocked < t) × (releases k (t + k - unlocked) ≡ t - unlocked))
mark_left zero t free readers =
    let apart : t + 0 - unlocked ≡ (t - unlocked) + 0 = omega arith in
    inr
      (omega (arith, readers), rw apart (releases-marked 0 (t - unlocked) (omega (arith, readers))))
mark_left (suc k) t free readers = elim (Bool-cases (ltb unlocked t)) [
  | inl more ↦
      let apart : t + suc k - unlocked ≡ (t - unlocked) + suc k = ground (arith, more) in
      inr (
        ground (arith, more),
        rw apart (releases-marked (suc k) (t - unlocked) (ground (arith, more))),
      )
  | inr few ↦
      let was : t ≡ unlocked = ground (arith, few, free (omega arith)) in
      let apart : t + suc k - unlocked ≡ suc k = ground (arith, was) in
      inl (rw apart (releases-last k ∙ sym was))
]

-- What is left when the second path is refused: the mark, unless the readers were those of the
-- first path.
pub first_undone :
    (w1 w2 : Option ℕ) (chain1 : List ℕ) (locks locks1 locks2 : ℕ → ℕ) (n : ℕ)
    → IsIdle w1 locks
    → Counted none chain1 (write_locked w1 locks) locks1
    → (locks2 n ≡ locks1 n) ⊎ IsMarked w2 locks1 locks2 n
    → (unlock_path w1 none chain1 locks2 n ≡ locks n)
      ⊎ IsMarked w2 locks (unlock_path w1 none chain1 locks2) n
unfolding unlock_path
first_undone w1 w2 chain1 locks locks1 locks2 n idle1 c1 (inl same) =
    inl (elim (writer-cases w1 n) [
      | inl (u1, l1, i1) ↦
          unlock_chain-Counted none chain1 (unlock_writer w1 locks2) n (locks n)
            (ground (arith, u1 locks2, i1 locks idle1, c1.free n, l1 locks))
            (λ pos. ground (arith, c1.free n pos, l1 locks))
      | inr (u1, l1) ↦
          unlock_chain-Counted none chain1 (unlock_writer w1 locks2) n (locks n)
            (ground (arith, u1 locks2, same, c1.adds n, l1 locks))
            (λ pos. ground (arith, c1.free n pos, l1 locks))
    ])
first_undone w1 none chain1 locks locks1 locks2 n idle1 c1 (inr m) = absurd m
first_undone w1 (some w2) chain1 locks locks1 locks2 n idle1 c1 (inr (here, readers, mark)) =
    let k = times none chain1 n in
    let adds : locks1 n ≡ write_locked w1 locks n + k = c1.adds n in
    elim (writer-cases w1 n) [
      | inl (u1, l1, i1) ↦ absurd (ground (arith, adds, l1 locks, c1.free n, readers))
      | inr (u1, l1) ↦
          let left = unlock_chain-times none chain1 (unlock_writer w1 locks2) n in
          let start : unlock_writer w1 locks2 n ≡ locks n + k - unlocked =
            ground (arith, u1 locks2, mark, adds, l1 locks) in
          elim (mark_left k (locks n) (λ pos. ground (arith, c1.free n pos, l1 locks))
            (ground (arith, readers, adds, l1 locks))) [
              | inl e ↦ inl (left ∙ ap (releases k) start ∙ e)
              | inr (more, e) ↦ inr (here, more, left ∙ ap (releases k) start ∙ e)
            ]
    ]
