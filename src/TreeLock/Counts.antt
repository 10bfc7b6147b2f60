-- ===== src/TreeLock/Counts.antt =====
-- How often the loops of `try_get_path` and `unlock_path` lock and unlock a node.
use fuse_study.Base.{
  ℕ, zero, suc, true, false, Option, none, some, List, [], ◌∷◌, ◌==◌, ◌≡◌, ◌≤◌, ◌<◌, ◌+◌, ◌⊎◌, inl,
  inr, refl, arith, if◌then◌else◌, Bool-cases, Option-cases, ltb, ◌≢◌, sym, ap, ◌∙◌,
}
use fuse_study.TreeLock.{
  unlocked, set_lock, release, is_end, unlock_chain, add_name, reached, left_at, climb, estale,
  eagain,
}

-- How often the node `n` stands in the chain before `end`.
abbrev pub times : Option ℕ → List ℕ → ℕ → ℕ
times end [] n = 0
times end (node ∷ chain) n =
    let rest = times end chain n in
    if is_end end node then 0 else if n == node then suc rest else rest

pub releases : ℕ → ℕ → ℕ
releases zero t = t
releases (suc k) t = releases k (release t)

pub unlock_chain-times :
    (end : Option ℕ) (chain : List ℕ) (locks : ℕ → ℕ) (n : ℕ)
    → unlock_chain end chain locks n ≡ releases (times end chain n) (locks n)
unfolding unlock_chain releases
unlock_chain-times end [] locks n = refl
unlock_chain-times end (node ∷ chain) locks n =
    let ih = unlock_chain-times end chain (set_lock locks node (release (locks node))) n in
    elim (Bool-cases (is_end end node)) [
      | inl e ↦ ground (arith, e)
      | inr e ↦ elim (Bool-cases (n == node)) [
        | inl h ↦ ground (arith, e, h, ih)
        | inr h ↦ ground (arith, e, h, ih)
      ]
    ]

releases-add : (k t : ℕ) → unlocked ≤ t → releases k (t + k) ≡ t
unfolding releases
releases-add zero t h = omega arith
releases-add (suc k) t h =
    let step : release (t + suc k) ≡ t + k = ground arith in rw step (releases-add k t h)

-- The marked count of a node from which readers leave.
pub releases-marked : (k c : ℕ) → 0 < c → releases k (c + k) ≡ c
unfolding releases
releases-marked zero c h = omega arith
releases-marked (suc k) c h =
    let step : release (c + suc k) ≡ c + k = ground (arith, h) in rw step (releases-marked k c h)

pub releases-last : (k : ℕ) → releases (suc k) (suc k) ≡ unlocked
unfolding releases
releases-last zero = ground arith
releases-last (suc k) =
    let step : release (suc (suc k)) ≡ suc k = ground arith in rw step (releases-last k)

-- The loop counts each node it passes, all of which have no writer; `end` is where it stops.
pub record Counted (end : Option ℕ) (chain : List ℕ) (locks locks' : ℕ → ℕ) : Type 0 where
  pub adds : (n : ℕ) → locks' n ≡ locks n + times end chain n
  pub free : (n : ℕ) → 0 < times end chain n → unlocked ≤ locks n

module _ (name_of : ℕ → Option (List ℕ)) where
  -- What stopped the loop at `end`: its name is gone, or it is locked for writing or waited for.
  abbrev pub Blocked : ℕ → (ℕ → ℕ) → Type 0
  Blocked end locks = (name_of end ≡ none) ⊎ (locks end < unlocked)

  Counted-step :
      (end : Option ℕ) (node : ℕ) (chain : List ℕ) (locks locks' : ℕ → ℕ)
      → is_end end node ≡ false
      → unlocked ≤ locks node
      → Counted end chain (set_lock locks node (locks node + 1)) locks'
      → Counted end (node ∷ chain) locks locks'
  Counted-step end node chain locks locks' e h c = record {
    adds = λ n. ground (arith, e, c.adds n);
    free = λ n pos. elim (Bool-cases (n == node)) [
      | inl same ↦ ground (arith, same, h)
      | inr other ↦ ground (arith, e, pos, other, c.free n)
    ];
  }

  Counted-nil :
      (end : Option ℕ) (s : List ℕ) (locks : ℕ → ℕ)
      → Counted end [] locks (climb name_of true [] s locks).1
  unfolding climb
  Counted-nil end s locks = record { adds = λ n. omega arith; free = λ n pos. omega arith }

  pub climb-nil :
      (s : List ℕ) (x end : ℕ) (locks : ℕ → ℕ) → (climb name_of true [] s locks).0 ≢ left_at x end
  unfolding climb
  climb-nil s x end locks h = cc

  Counted-here :
      (node end : ℕ) (chain : List ℕ) (locks : ℕ → ℕ)
      → node ≡ end
      → Counted (some end) (node ∷ chain) locks locks
  Counted-here node end chain locks e = record {
    adds = λ n. ground (arith, e);
    free = λ n pos. absurd (ground (arith, e, pos));
  }

  pub climb-nameless :
      (node : ℕ) (chain s : List ℕ) (locks : ℕ → ℕ)
      → name_of node ≡ none
      → climb name_of true (node ∷ chain) s locks ≡ (left_at estale node, locks)
  unfolding climb
  climb-nameless node chain s locks e = rw (e, climb) refl

  module _ (node : ℕ) (chain s name : List ℕ) (locks : ℕ → ℕ) (e : name_of node ≡ some name) where
    pub climb-busy :
        ltb (locks node) unlocked ≡ true
        → climb name_of true (node ∷ chain) s locks ≡ (left_at eagain node, locks)
    unfolding climb
    climb-busy busy = rw (e, climb) (rw busy refl)

    pub climb-idle :
        ltb (locks node) unlocked ≡ false
        → climb name_of true (node ∷ chain) s locks
          ≡ climb name_of true chain (add_name s name) (set_lock locks node (locks node + 1))
    unfolding climb
    climb-idle idle = rw (e, climb) (rw idle refl)

  pub climb-reached :
      (chain s s' : List ℕ) (locks : ℕ → ℕ)
      → (climb name_of true chain s locks).0 ≡ reached s'
      → Counted none chain locks (climb name_of true chain s locks).1
  climb-reached [] s s' locks h = Counted-nil none s locks
  climb-reached (node ∷ chain) s s' locks h = elim (Option-cases (name_of node)) [
    | inl e ↦ absurd (ground (arith, climb-nameless node chain s locks e, h))
    | inr (name, e) ↦ elim (Bool-cases (ltb (locks node) unlocked)) [
      | inl busy ↦ absurd (ground (arith, climb-busy node chain s name locks e busy, h))
      | inr idle ↦
          let step = climb-idle node chain s name locks e idle in
          let after = set_lock locks node (locks node + 1) in
          rw step (
            Counted-step none node chain locks _ refl (ground (arith, idle))
              (climb-reached chain (add_name s name) s' after (sym (ap (λ r. r.0) step) ∙ h)))
    ]
  ]

  -- A node that the loop has passed is not the one that stops it.
  not_end :
      (node end : ℕ) (chain : List ℕ) (name : List ℕ) (locks locks' : ℕ → ℕ)
      → name_of node ≡ some name
      → unlocked ≤ locks node
      → Counted (some end) chain (set_lock locks node (locks node + 1)) locks'
      → Blocked end locks'
      → (node == end) ≡ false
  not_end node end chain name locks locks' e h c b = elim (Bool-cases (node == end)) [
    | inr f ↦ f
    | inl t ↦
        let same : node ≡ end = ground (arith, t) in
        let adds = c.adds node in
        absurd (elim b [
          | inl gone ↦ ground (arith, same, gone, e)
          | inr low ↦ ground (arith, same, low, adds, h)
        ])
  ]

  pub climb-left_at :
      (chain s : List ℕ) (x end : ℕ) (locks : ℕ → ℕ)
      → (climb name_of true chain s locks).0 ≡ left_at x end
      → Counted (some end) chain locks (climb name_of true chain s locks).1
        × Blocked end (climb name_of true chain s locks).1
  climb-left_at [] s x end locks h = absurd (climb-nil s x end locks h)
  climb-left_at (node ∷ chain) s x end locks h = elim (Option-cases (name_of node)) [
    | inl e ↦
        let step = climb-nameless node chain s locks e in
        let here : node ≡ end = ground (arith, step, h) in
        rw step (Counted-here node end chain locks here, inl (rw (sym here) e))
    | inr (name, e) ↦ elim (Bool-cases (ltb (locks node) unlocked)) [
      | inl busy ↦
          let step = climb-busy node chain s name locks e busy in
          let here : node ≡ end = ground (arith, step, h) in
          rw step
            (Counted-here node end chain locks here, inr (rw (sym here) (ground (arith, busy))))
      | inr idle ↦
          let step = climb-idle node chain s name locks e idle in
          let after = set_lock locks node (locks node + 1) in
          let free : unlocked ≤ locks node = ground (arith, idle) in
          let ih =
            climb-left_at chain (add_name s name) x end after (sym (ap (λ r. r.0) step) ∙ h) in
          rw step (
            Counted-step (some end) node chain locks _
                (not_end node end chain name locks _ e free ih.0 ih.1) free ih.0,
            ih.1,
          )
    ]
  ]

-- Unlocking takes back what was counted, also when a node outside the counted ones was changed.
pub unlock_chain-Counted :
    (end : Option ℕ) (chain : List ℕ) (locks : ℕ → ℕ) (n t : ℕ)
    → locks n ≡ t + times end chain n
    → (0 < times end chain n → unlocked ≤ t)
    → unlock_chain end chain locks n ≡ t
unfolding releases
unlock_chain-Counted end chain locks n t adds free =
    unlock_chain-times end chain locks n
    ∙ rw adds (elim (Bool-cases (times end chain n == 0)) [
      | inl z ↦
          let none_left : times end chain n ≡ 0 = ground (arith, z) in rw none_left (omega arith)
      | inr p ↦ releases-add (times end chain n) t (free (ground (arith, p)))
    ])
