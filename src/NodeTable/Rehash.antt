-- ===== src/NodeTable/Rehash.antt =====
-- `rehash_id`, `rehash_name` and `node_table_resize` keep every node, where its slot now is.
use native.Mathlib.Nat.{pow-suc}
use fuse_study.Base.{
  ℕ, zero, suc, Bool, true, false, List, [], ◌∷◌, ◌==◌, ◌≡◌, ◌<◌, ◌≤◌, ◌+◌, ◌*◌, ◌/◌, ◌^◌, arith,
  Bool-cases, inl, inr, if◌then◌else◌, refl, sym, ◌⊎◌, ◌∙◌,
}
use fuse_study.NodeTable.{NodeTable, slot, spill, split_slot, rehash, node_table_resize, update}
use fuse_study.NodeTable.Slot.{slot-suc, slot-lt, slot-doubled}

-- How often the node `n` is in a chain.
abbrev pub count : ℕ → List ℕ → ℕ
count n [] = 0
count n (k ∷ c) = (if k == n then 1 else 0) + count n c

-- The size is a power of two, at least the least size; the pointer is in the lower half.
pub record IsSized (t : NodeTable) : Type 0 where
  pub half : ℕ
  pub exponent : ℕ
  pub halved : t.size ≡ half + half
  pub power : half ≡ 4096 * 2 ^ exponent
  pub pointer : t.split ≤ half

pow-pos : (e : ℕ) → 0 < 2 ^ e
pow-pos zero = omega arith
pow-pos (suc e) = omega (arith, pow-pos e, pow-suc 2 e)

module _ (raw : ℕ → ℕ) where
  abbrev pub slot_of : NodeTable → ℕ → ℕ
  slot_of t n = slot t.size t.split (raw n)

  -- Below the size, a node is found in no chain but that of its slot.
  abbrev pub IsPlaced : NodeTable → Type 0
  IsPlaced t = (n i : ℕ) → i < t.size → (slot_of t n == i) ≡ false → count n (t.array i) ≡ 0

  -- How often a search for `n` could find it.
  abbrev pub found : NodeTable → ℕ → ℕ
  found t n = count n (t.array (slot_of t n))

  module _ (size split p n : ℕ) where
    count-spill_stays :
        (c : List ℕ) (array : ℕ → List ℕ)
        → count n (spill raw size split p c array).0
          ≡ (if slot size split (raw n) == p then count n c else 0)
    unfolding spill
    count-spill_stays [] array = ground arith
    count-spill_stays (k ∷ c) array =
        let newhash = slot size split (raw k) in
        elim (Bool-cases (slot size split (raw k) == p)) [
          | inl stays ↦ rw stays (ground (arith, stays, count-spill_stays c array))
          | inr moves ↦ rw moves (
              ground (arith, moves, count-spill_stays c (update array newhash (k ∷ array newhash))))
        ]

    count-spill_moves :
        (j : ℕ) (c : List ℕ) (array : ℕ → List ℕ)
        → (j == p) ≡ false
        → count n ((spill raw size split p c array).1 j)
          ≡ count n (array j) + (if slot size split (raw n) == j then count n c else 0)
    unfolding spill
    count-spill_moves j [] array ne = ground arith
    count-spill_moves j (k ∷ c) array ne =
        let newhash = slot size split (raw k) in
        elim (Bool-cases (slot size split (raw k) == p)) [
          | inl stays ↦ rw stays (ground (arith, stays, count-spill_moves j c array ne))
          | inr moves ↦ rw moves (
              ground
                (arith, moves, count-spill_moves j c (update array newhash (k ∷ array newhash)) ne))
        ]

  -- The chains after the split pointer has passed its slot.
  count-split_slot :
      (t : NodeTable) (n i : ℕ)
      → count n ((split_slot raw t).array i)
        ≡ (if slot t.size (t.split + 1) (raw n) == i then count n (t.array t.split) else 0)
          + (if i == t.split then 0 else count n (t.array i))
  unfolding split_slot
  count-split_slot t n i = elim (Bool-cases (i == t.split)) [
    | inl here ↦
        rw here (
          ground
            (arith, count-spill_stays t.size (t.split + 1) t.split n (t.array t.split) t.array))
    | inr else_ ↦ rw else_ (
        ground (
          arith,
          count-spill_moves t.size (t.split + 1) t.split n i (t.array t.split) t.array else_,
        ))
  ]

  module _ (t : NodeTable) (sized : IsSized t) (room : t.split < sized.half) where
    slot-split :
        (n : ℕ)
        → (((slot_of t n == t.split) ≡ false)
            × ((slot_of t n == t.split + sized.half) ≡ false)
            × (slot t.size (t.split + 1) (raw n) ≡ slot_of t n))
          ⊎ ((slot_of t n ≡ t.split)
              × ((slot t.size (t.split + 1) (raw n) ≡ t.split)
                  ⊎ (slot t.size (t.split + 1) (raw n) ≡ t.split + sized.half)))
    slot-split n = rw sized.halved (slot-suc sized.half (raw n) (omega arith) t.split room)

    pub found-split_slot : IsPlaced t → (n : ℕ) → found (split_slot raw t) n ≡ found t n
    found-split_slot placed n =
        let s' : ℕ = slot t.size (t.split + 1) (raw n) in
        let opened : found (split_slot raw t) n ≡ count n ((split_slot raw t).array s') =
          unfold split_slot in refl in
        opened
        ∙ count-split_slot t n s'
        ∙ ground (
          arith,
          slot-split n,
          placed n t.split (omega arith),
          placed n (t.split + sized.half) (omega arith),
        )

    pub IsPlaced-split_slot : IsPlaced t → IsPlaced (split_slot raw t)
    IsPlaced-split_slot placed n i below other =
        let below' : i < t.size = unfold split_slot in below in
        let other' : (slot t.size (t.split + 1) (raw n) == i) ≡ false =
          unfold split_slot in other in
        count-split_slot t n i ∙ ground (arith, slot-split n, placed n i below')

    pub IsSized-split_slot : IsSized (split_slot raw t)
    unfolding split_slot
    IsSized-split_slot = record {
      half = sized.half;
      exponent = sized.exponent;
      halved = sized.halved;
      power = sized.power;
      pointer = omega arith;
    }

  module _ (t : NodeTable) (sized : IsSized t) where
    half_pos : 0 < sized.half
    half_pos = omega (arith, sized.power, pow-pos sized.exponent)

    size_half : t.size / 2 ≡ sized.half
    size_half = rw sized.halved (omega arith)

  -- Doubling, when every slot of the lower half is split.
  module _ (t : NodeTable) (sized : IsSized t) (full : t.split ≡ sized.half) where
    slot-resize : (n : ℕ) → slot (t.size * 2) 0 (raw n) ≡ slot_of t n
    slot-resize n =
        let e : t.size * 2 ≡ (sized.half + sized.half) + (sized.half + sized.half) =
          omega (arith, sized.halved) in
        let d : slot t.size t.split (raw n) ≡ slot (sized.half + sized.half) sized.half (raw n) =
          rw (sized.halved, full) in
        rw e (slot-doubled sized.half (raw n) (half_pos t sized) ∙ sym d)

    slot_of-lt : (n : ℕ) → slot_of t n < t.size
    slot_of-lt n =
        rw sized.halved (slot-lt sized.half (raw n) (half_pos t sized) t.split (omega arith))

    found-resize : (allocated : Bool) (n : ℕ) → found (node_table_resize allocated t) n ≡ found t n
    unfolding node_table_resize
    found-resize false n = refl
    found-resize true n = rw (slot-resize n) (ground (arith, slot_of-lt n))

    IsPlaced-resize : (allocated : Bool) → IsPlaced t → IsPlaced (node_table_resize allocated t)
    unfolding node_table_resize
    IsPlaced-resize false placed = placed
    IsPlaced-resize true placed = λ n i below other.
        let other' : (slot_of t n == i) ≡ false = rw (slot-resize n) at other in
        ground (arith, placed n i, other')

    IsSized-resize : (allocated : Bool) → IsSized (node_table_resize allocated t)
    unfolding node_table_resize
    IsSized-resize false = sized
    IsSized-resize true = record {
      half = sized.half + sized.half;
      exponent = suc sized.exponent;
      halved = omega (arith, sized.halved);
      power = omega (arith, sized.power, pow-suc 2 sized.exponent);
      pointer = omega arith;
    }

  -- What an operation that only moves nodes keeps.
  pub record Keeps (t t' : NodeTable) : Type 0 where
    pub sized : IsSized t'
    pub placed : IsPlaced t'
    pub same : (n : ℕ) → found t' n ≡ found t n

  pub Keeps-rehash :
      (allocated : Bool) (t : NodeTable) → IsSized t → IsPlaced t → Keeps t (rehash raw allocated t)
  Keeps-rehash allocated t sized placed =
      let h : t.size / 2 ≡ sized.half = size_half t sized in
      elim (Bool-cases (t.split == t.size / 2)) [
        | inl full ↦
            unfold rehash in rw full (record { sized = sized; placed = placed; same = λ n. refl })
        | inr open_ ↦
            let room : t.split < sized.half = ground (arith, sized.pointer) in
            let t₁ = split_slot raw t in
            let sized₁ : IsSized t₁ = IsSized-split_slot t sized room in
            let placed₁ : IsPlaced t₁ = IsPlaced-split_slot t sized room placed in
            let same₁ : (n : ℕ) → found t₁ n ≡ found t n = found-split_slot t sized room placed in
            elim (Bool-cases (t.split + 1 == t.size / 2)) [
              | inr more ↦
                  unfold rehash in
                  rw (open_, more) (record { sized = sized₁; placed = placed₁; same = same₁ })
              | inl last ↦
                  let full : t₁.split ≡ sized₁.half =
                    unfold split_slot IsSized-split_slot in ground (arith, last) in
                  unfold rehash in
                  rw (open_, last)
                    (record {
                      sized = IsSized-resize t₁ sized₁ full allocated;
                      placed = IsPlaced-resize t₁ sized₁ full allocated placed₁;
                      same = λ n. found-resize t₁ sized₁ full allocated n ∙ same₁ n;
                    })
            ]
      ]
