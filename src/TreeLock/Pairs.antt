-- ===== src/TreeLock/Pairs.antt =====
-- `try_get_path2`: what it leaves of the locks.
use fuse_study.Base.{ℕ, Option, none, List, ◌≡◌, ◌⊎◌, inl, inr, refl, arith, ap, ◌∙◌}
use fuse_study.TreeLock.{unlock_path, Tried, got, refused}
use fuse_study.TreeLock.Paths.{IsMarked, try_get_path-refused, try_get_path-got}
use fuse_study.TreeLock.Readers.{got-Counted}
use fuse_study.TreeLock.Pair.{
  got_both, refused_both, Request, try, second_path, after_first, try_get_path2, unlock_both,
}
use fuse_study.TreeLock.Undone.{both_undone, first_undone}

Tried-cases :
    (t : Tried) → ((e : ℕ) × (t ≡ refused e)) ⊎ ((p : List ℕ) × (w : Option ℕ) × (t ≡ got p w))
Tried-cases (refused e) = inl (e, refl)
Tried-cases (got p w) = inr (p, w, refl)

module _ (name_of : ℕ → Option (List ℕ)) (q1 q2 : Request) (locks : ℕ → ℕ) where
  abbrev first : ℕ → ℕ
  first = (try name_of q1 locks).1

  abbrev second : ℕ → ℕ
  second = (try name_of q2 first).1

  first_no :
      (e : ℕ)
      → (try name_of q1 locks).0 ≡ refused e
      → try_get_path2 name_of q1 q2 locks ≡ (refused_both e, first)
  unfolding try_get_path2 after_first
  first_no e n1 = ap (λ t. after_first name_of q1 q2 t first) n1

  module _ (p1 : List ℕ) (w1 : Option ℕ) (y1 : (try name_of q1 locks).0 ≡ got p1 w1) where
    second_no :
        (e : ℕ)
        → (try name_of q2 first).0 ≡ refused e
        → try_get_path2 name_of q1 q2 locks ≡ (refused_both e, unlock_path w1 none q1.chain second)
    unfolding try_get_path2 after_first second_path
    second_no e n2 =
        ap (λ t. after_first name_of q1 q2 t first) y1
        ∙ ap (λ t. second_path name_of q1 p1 w1 t second) n2

    both_yes :
        (p2 : List ℕ) (w2 : Option ℕ)
        → (try name_of q2 first).0 ≡ got p2 w2
        → try_get_path2 name_of q1 q2 locks ≡ (got_both p1 w1 p2 w2, second)
    unfolding try_get_path2 after_first second_path
    both_yes p2 w2 y2 =
        ap (λ t. after_first name_of q1 q2 t first) y1
        ∙ ap (λ t. second_path name_of q1 p1 w1 t second) y2

    given-unlocked :
        (p2 : List ℕ) (w2 : Option ℕ) (n : ℕ)
        → (try name_of q2 first).0 ≡ got p2 w2
        → unlock_both w1 q1.chain w2 q2.chain second n ≡ locks n
    given-unlocked p2 w2 n y2 =
        let i1 = try_get_path-got name_of q1.wnode w1 q1.name q1.chain p1 locks n y1 in
        let i2 = try_get_path-got name_of q2.wnode w2 q2.name q2.chain p2 first n y2 in
        rw (i1.1, i2.1)
          (both_undone q1.wnode q2.wnode q1.chain q2.chain locks first second n i1.0
            (got-Counted name_of q1.wnode w1 q1.name q1.chain p1 locks y1) i2.0
            (got-Counted name_of q2.wnode w2 q2.name q2.chain p2 first y2))

    left_marked :
        (e n : ℕ)
        → (try name_of q2 first).0 ≡ refused e
        → (unlock_path w1 none q1.chain second n ≡ locks n)
          ⊎ IsMarked q2.wnode locks (unlock_path w1 none q1.chain second) n
    left_marked e n n2 =
        let i1 = try_get_path-got name_of q1.wnode w1 q1.name q1.chain p1 locks n y1 in
        rw (i1.1) (
          first_undone q1.wnode q2.wnode q1.chain locks first second n i1.0
            (got-Counted name_of q1.wnode w1 q1.name q1.chain p1 locks y1)
            (try_get_path-refused name_of q2.wnode q2.name q2.chain first e n n2))

  -- When `try_get_path2` gives two paths, unlocking both as `free_path2` does, the first one first,
  -- brings every lock back to what it was.
  pub try_get_path2-got :
      (p1 p2 : List ℕ) (w1 w2 : Option ℕ) (n : ℕ)
      → (try_get_path2 name_of q1 q2 locks).0 ≡ got_both p1 w1 p2 w2
      → unlock_both w1 q1.chain w2 q2.chain (try_get_path2 name_of q1 q2 locks).1 n ≡ locks n
  try_get_path2-got p1 p2 w1 w2 n h = elim (Tried-cases (try name_of q1 locks).0) [
    | inl (e, n1) ↦ absurd (ground (arith, first_no e n1, h))
    | inr (p, w, y1) ↦ elim (Tried-cases (try name_of q2 first).0) [
      | inl (e, n2) ↦ absurd (ground (arith, second_no p w y1 e n2, h))
      | inr (p', w', y2) ↦
          let step = both_yes p w y1 p' w' y2 in
          let same1 : w1 ≡ w = ground (arith, step, h) in
          let same2 : w2 ≡ w' = ground (arith, step, h) in
          rw (same1, same2, step) (given-unlocked p w y1 p' w' n y2)
    ]
  ]

  -- When `try_get_path2` refuses, every node's lock is as before, but for a node that was to be
  -- locked for writing, of the first or the second path, if readers hold it from before: that node is
  -- marked as waited for. Readers of the first path alone leave no mark.
  pub try_get_path2-refused :
      (e n : ℕ)
      → (try_get_path2 name_of q1 q2 locks).0 ≡ refused_both e
      → ((try_get_path2 name_of q1 q2 locks).1 n ≡ locks n)
        ⊎ (IsMarked q1.wnode locks (try_get_path2 name_of q1 q2 locks).1 n
            ⊎ IsMarked q2.wnode locks (try_get_path2 name_of q1 q2 locks).1 n)
  try_get_path2-refused e n h = elim (Tried-cases (try name_of q1 locks).0) [
    | inl (x, n1) ↦
        rw (first_no x n1)
          (elim (try_get_path-refused name_of q1.wnode q1.name q1.chain locks x n n1) [
            | inl same ↦ inl same
            | inr m ↦ inr (inl m)
          ])
    | inr (p, w, y1) ↦ elim (Tried-cases (try name_of q2 first).0) [
      | inl (x, n2) ↦
          rw (second_no p w y1 x n2)
            (elim (left_marked p w y1 x n n2) [ inl same ↦ inl same | inr m ↦ inr (inr m) ])
      | inr (p', w', y2) ↦ absurd (ground (arith, both_yes p w y1 p' w' y2, h))
    ]
  ]
