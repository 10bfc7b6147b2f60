-- ===== src/NodeTable/Remerge.antt =====
-- `remerge_id`, `remerge_name` and `node_table_reduce` keep every node, where its slot now is.
use fuse_study.Base.{
  ℕ, zero, suc, true, false, List, [], ◌∷◌, ◌++◌, ltb, ◌==◌, ◌≡◌, ◌<◌, ◌≤◌, ◌-◌, ◌+◌, ◌*◌, ◌/◌, ◌^◌,
  arith, Bool-cases, inl, inr, if◌then◌else◌, refl, sym, ap, subst, ==_iff, ◌⊎◌, ◌∙◌,
}
use native.Mathlib.Nat.{pow-suc}
use fuse_study.NodeTable.{
  NodeTable, slot, merge_slot, merge_loop, remerge, node_table_reduce, is_empty,
  node_table_min_size,
}
use fuse_study.NodeTable.Slot.{slot-suc, slot-doubled}
use fuse_study.NodeTable.Rehash.{count, IsSized, IsPlaced, slot_of, found, Keeps}

count-append : (n : ℕ) (a b : List ℕ) → count n (a ++ b) ≡ count n a + count n b
count-append n [] b = omega arith
count-append n (k ∷ a) b = omega (arith, count-append n a b)

count-is_empty : (n : ℕ) (c : List ℕ) → is_empty c ≡ true → count n c ≡ 0
unfolding is_empty
count-is_empty n [] e = refl
count-is_empty n (k ∷ c) e = ground arith

module _ (raw : ℕ → ℕ) where
  -- One round of merging, at the split pointer `p + 1`.
  module _ (t : NodeTable) (sized : IsSized t) (busy : 0 < t.split) where
    low : ℕ
    low = t.split - 1

    count-merge_slot :
        (n i : ℕ)
        → count n ((merge_slot raw t).array i) ≡ (
            if i == low + t.size / 2
            then 0
            else if i == low
            then count n (t.array low) + count n (t.array (low + t.size / 2))
            else count n (t.array i))
    unfolding merge_slot low is_empty
    count-merge_slot n i = ground (
      arith,
      count-append n (t.array low) (t.array (low + t.size / 2)),
      count-is_empty n (t.array (low + t.size / 2)),
    )

    size_half : t.size / 2 ≡ sized.half
    size_half = rw sized.halved (omega arith)

    slot-merge :
        (n : ℕ)
        → (((slot t.size low (raw n) == low) ≡ false)
            × ((slot t.size low (raw n) == low + sized.half) ≡ false)
            × (slot_of raw t n ≡ slot t.size low (raw n)))
          ⊎ ((slot t.size low (raw n) ≡ low)
              × ((slot_of raw t n ≡ low) ⊎ (slot_of raw t n ≡ low + sized.half)))
    unfolding low
    slot-merge n =
        let e : (t.split - 1) + 1 ≡ t.split = omega arith in
        let lt : t.split - 1 < sized.half = omega (arith, sized.pointer) in
        let moves = slot-suc sized.half (raw n) (omega arith) (t.split - 1) lt in
        rw sized.halved (rw e at moves)

    merge_slot-size : ((merge_slot raw t).size ≡ t.size) × ((merge_slot raw t).split ≡ low)
    unfolding merge_slot low
    merge_slot-size = ground arith

    opens :
        (n : ℕ)
        → found raw (merge_slot raw t) n
          ≡ count n ((merge_slot raw t).array (slot t.size low (raw n)))
    opens n = rw (merge_slot-size.0, merge_slot-size.1)

    found-merge_slot : IsPlaced raw t → (n : ℕ) → found raw (merge_slot raw t) n ≡ found raw t n
    found-merge_slot placed n =
        let s' : ℕ = slot t.size low (raw n) in
        let opened : found raw (merge_slot raw t) n ≡ count n ((merge_slot raw t).array s') =
          opens n in
        opened
        ∙ count-merge_slot n s'
        ∙ rw size_half (
            unfold low in
            ground (
              arith,
              slot-merge n,
              placed n (t.split - 1) (omega arith),
              placed n (t.split - 1 + sized.half) (omega arith),
            ))

    IsPlaced-merge_slot : IsPlaced raw t → IsPlaced raw (merge_slot raw t)
    IsPlaced-merge_slot placed n i below other =
        let below' : i < t.size = rw merge_slot-size.0 at below in
        let other' : (slot t.size low (raw n) == i) ≡ false =
          rw (merge_slot-size.0, merge_slot-size.1) at other in
        count-merge_slot n i
        ∙ rw size_half (
            unfold low in
            ground (
              arith,
              other',
              slot-merge n,
              placed n (t.split - 1) (omega arith),
              placed n (t.split - 1 + sized.half) (omega arith),
              placed n i below',
            ))

    IsSized-merge_slot : IsSized (merge_slot raw t)
    unfolding low
    IsSized-merge_slot = record {
      half = sized.half;
      exponent = sized.exponent;
      halved = merge_slot-size.0 ∙ sized.halved;
      power = sized.power;
      pointer = omega (arith, merge_slot-size.1, sized.pointer);
    }

    Keeps-merge_slot : IsPlaced raw t → Keeps raw t (merge_slot raw t)
    Keeps-merge_slot placed = record {
      sized = IsSized-merge_slot;
      placed = IsPlaced-merge_slot placed;
      same = found-merge_slot placed;
    }

  Keeps-merge_loop :
      (iter : ℕ) (t : NodeTable) → IsSized t → IsPlaced raw t → Keeps raw t (merge_loop raw iter t)
  unfolding merge_loop
  Keeps-merge_loop zero t sized placed = record { sized = sized; placed = placed; same = λ n. refl }
  Keeps-merge_loop (suc iter) t sized placed = elim (Bool-cases (t.split == 0)) [
    | inl done ↦ rw done (record { sized = sized; placed = placed; same = λ n. refl })
    | inr more ↦
        let step = Keeps-merge_slot t sized (ground arith) placed in
        elim (Bool-cases (is_empty (t.array (t.split - 1 + t.size / 2)))) [
          | inr joined ↦ rw (more, joined) step
          | inl empty ↦
              let rest = Keeps-merge_loop iter (merge_slot raw t) step.sized step.placed in
              rw (more, empty)
                (record {
                  sized = rest.sized;
                  placed = rest.placed;
                  same = λ n. rest.same n ∙ step.same n;
                })
        ]
  ]

  module _ (t : NodeTable) (sized : IsSized t) (whole : t.split ≡ 0)
      (large : 8192 ≤ t.size / 2) where
    quarter : ℕ
    quarter = t.size / 2 / 2

    halves : (e : ℕ) → sized.half ≡ 4096 * 2 ^ e → quarter ≡ 4096 * 2 ^ (e - 1)
    unfolding quarter
    halves zero power = absurd (omega (arith, sized.halved))
    halves (suc e) power =
        let same : suc e - 1 ≡ e = omega arith in
        rw same (omega (arith, power, sized.halved, pow-suc 2 e))

    quarters : sized.half ≡ quarter + quarter
    unfolding quarter
    quarters = go sized.exponent sized.power
      where
        go : (e : ℕ) → sized.half ≡ 4096 * 2 ^ e → sized.half ≡ t.size / 2 / 2 + t.size / 2 / 2
        go zero power = absurd (omega (arith, sized.halved))
        go (suc e) power = omega (arith, power, sized.halved, pow-suc 2 e)

    reduced : NodeTable
    reduced = record t { size = t.size / 2; split = t.size / 2 / 2 }

    slot-reduced : (n : ℕ) → slot (t.size / 2) (t.size / 2 / 2) (raw n) ≡ slot_of raw t n
    unfolding quarter
    slot-reduced n =
        let q : ℕ = t.size / 2 / 2 in
        let e : t.size / 2 ≡ q + q = omega (arith, quarters, sized.halved) in
        let e' : t.size ≡ (q + q) + (q + q) = omega (arith, quarters, sized.halved) in
        let d : slot t.size t.split (raw n) ≡ slot ((q + q) + (q + q)) 0 (raw n) =
          ap (λ (s : ℕ). slot s t.split (raw n)) e'
          ∙ ap (λ (p : ℕ). slot ((q + q) + (q + q)) p (raw n)) whole in
        ap (λ (s : ℕ). slot s q (raw n)) e ∙ sym (slot-doubled q (raw n) (omega arith)) ∙ sym d

    Keeps-reduced : IsPlaced raw t → Keeps raw t reduced
    unfolding reduced
    Keeps-reduced placed = record {
      sized = record {
        half = quarter;
        exponent = sized.exponent - 1;
        halved = unfold quarter in omega (arith, quarters, sized.halved);
        power = halves sized.exponent sized.power;
        pointer = unfold quarter in omega arith;
      };
      placed = λ n i below other.
          placed n i (omega arith) (subst (λ (s : ℕ). (s == i) ≡ false) (slot-reduced n) other);
      same = λ n. ap (λ (s : ℕ). count n (t.array s)) (slot-reduced n);
    }

  Keeps-reduce :
      (t : NodeTable) → IsSized t → IsPlaced raw t → t.split ≡ 0 → Keeps raw t (node_table_reduce t)
  unfolding node_table_reduce reduced
  Keeps-reduce t sized placed whole = elim (Bool-cases (ltb (t.size / 2) node_table_min_size)) [
    | inl small ↦ rw small (record { sized = sized; placed = placed; same = λ n. refl })
    | inr large ↦ rw large (Keeps-reduced t sized whole (ground arith) placed)
  ]

  -- `remerge` moves nodes between chains, and loses none and doubles none.
  pub Keeps-remerge : (t : NodeTable) → IsSized t → IsPlaced raw t → Keeps raw t (remerge raw t)
  unfolding remerge
  Keeps-remerge t sized placed = elim (Bool-cases (t.split == 0)) [
    | inr pointed ↦ rw pointed (Keeps-merge_loop 8 t sized placed)
    | inl whole ↦
        let first = Keeps-reduce t sized placed ((==_iff t.split 0).0 whole) in
        let rest = Keeps-merge_loop 8 (node_table_reduce t) first.sized first.placed in
        rw whole (record {
          sized = rest.sized;
          placed = rest.placed;
          same = λ n. rest.same n ∙ first.same n;
        })
  ]
