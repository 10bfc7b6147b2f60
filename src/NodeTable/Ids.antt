-- ===== src/NodeTable/Ids.antt =====
-- `hash_id`, `unhash_id` and `get_node_nocheck`, and the same for the table of names.
use fuse_study.Base.{
  ℕ, Bool, false, none, some, List, [], ◌∷◌, leb, ltb, ◌==◌, ◌≡◌, ◌≤◌, ◌-◌, ◌+◌, ◌/◌, arith,
  Bool-cases, inl, inr, if◌then◌else◌, refl, ◌∙◌,
}
use fuse_study.NodeTable.{
  NodeTable, hash_node, unhash_node, remove, contains, raw_id, id_hash, find, get_node_nocheck,
  update,
}
use fuse_study.NodeTable.Rehash.{count, IsSized, IsPlaced, slot_of, found, Keeps-rehash}
use fuse_study.NodeTable.Remerge.{Keeps-remerge}

count-remove :
    (n m : ℕ) (c : List ℕ) → count m (remove n c) ≡ (if m == n then count m c - 1 else count m c)
unfolding remove
count-remove n m [] = ground arith
count-remove n m (k ∷ c) = ground (arith, count-remove n m c)

count-contains : (n : ℕ) (c : List ℕ) → contains n c ≡ false → count n c ≡ 0
unfolding contains
count-contains n [] h = refl
count-contains n (k ∷ c) h = ground (arith, count-contains n c)

module _ (raw : ℕ → ℕ) where
  -- The table is well formed, and a search finds each node as often as `want` says.
  pub record Holds (t : NodeTable) (want : ℕ → ℕ) : Type 0 where
    pub sized : IsSized t
    pub placed : IsPlaced raw t
    pub finds : (m : ℕ) → found raw t m ≡ want m

  pushed : ℕ → NodeTable → NodeTable
  pushed n t = record t {
    array = update t.array (slot_of raw t n) (n ∷ t.array (slot_of raw t n));
    use_count = t.use_count + 1;
  }

  module _ (n : ℕ) (t : NodeTable) (sized : IsSized t) (placed : IsPlaced raw t) where
    pushed-Holds : Holds (pushed n t) (λ m. (if m == n then 1 else 0) + found raw t m)
    unfolding pushed
    pushed-Holds = record {
      sized = record {
        half = sized.half;
        exponent = sized.exponent;
        halved = sized.halved;
        power = sized.power;
        pointer = sized.pointer;
      };
      placed = λ m i below other. ground (arith, placed m i below, other);
      finds = λ m. ground arith;
    }

  -- On a well-formed table `hash_id` (and the end of `hash_name`) puts in the one node once more
  -- and keeps how often every node is found, whether or not the table grows and whether or not
  -- the larger array can be had; the table stays well formed.
  pub hash_node-Holds :
      (allocated : Bool) (n : ℕ) (t : NodeTable)
      → IsSized t
      → IsPlaced raw t
      → Holds (hash_node raw allocated n t) (λ m. (if m == n then 1 else 0) + found raw t m)
  unfolding hash_node pushed
  hash_node-Holds allocated n t sized placed =
      let p = pushed-Holds n t sized placed in
      elim (Bool-cases (leb (t.size / 2) (t.use_count + 1))) [
        | inr few ↦ rw few p
        | inl many ↦
            let k = Keeps-rehash raw allocated (pushed n t) p.sized p.placed in
            rw many
              (record { sized = k.sized; placed = k.placed; finds = λ m. k.same m ∙ p.finds m })
      ]

  dropped : ℕ → NodeTable → NodeTable
  dropped n t = record t {
    array = update t.array (slot_of raw t n) (remove n (t.array (slot_of raw t n)));
    use_count = t.use_count - 1;
  }

  module _ (n : ℕ) (t : NodeTable) (sized : IsSized t) (placed : IsPlaced raw t) where
    dropped-Holds : Holds (dropped n t) (λ m. if m == n then found raw t m - 1 else found raw t m)
    unfolding dropped
    dropped-Holds = record {
      sized = record {
        half = sized.half;
        exponent = sized.exponent;
        halved = sized.halved;
        power = sized.power;
        pointer = sized.pointer;
      };
      placed = λ m i below other.
          ground (arith, placed m i below, other, count-remove n m (t.array (slot_of raw t n)));
      finds = λ m. ground (arith, count-remove n m (t.array (slot_of raw t n)));
    }

  -- On a well-formed table `unhash_id` (and `unhash_name`) takes the one node out once, if it is
  -- there, and keeps how often every other node is found, whether or not the table shrinks; the
  -- table stays well formed.
  pub unhash_node-Holds :
      (n : ℕ) (t : NodeTable)
      → IsSized t
      → IsPlaced raw t
      → Holds (unhash_node raw n t) (λ m. if m == n then found raw t m - 1 else found raw t m)
  unfolding unhash_node dropped
  unhash_node-Holds n t sized placed =
      let d = dropped-Holds n t sized placed in
      elim (Bool-cases (contains n (t.array (slot_of raw t n)))) [
        | inr absent ↦ rw absent (record {
          sized = sized;
          placed = placed;
          finds = λ m. ground (arith, count-contains n (t.array (slot_of raw t n)) absent);
        })
        | inl present ↦ elim (Bool-cases (ltb (t.use_count - 1) (t.size / 4))) [
          | inr many ↦ rw (present, many) d
          | inl few ↦
              let k = Keeps-remerge raw (dropped n t) d.sized d.placed in
              rw (present, few)
                (record { sized = k.sized; placed = k.placed; finds = λ m. k.same m ∙ d.finds m })
        ]
      ]

find-count : (n : ℕ) (c : List ℕ) → find (λ m. m == n) c ≡ (if count n c == 0 then none else some n)
find-count n [] = refl
find-count n (k ∷ c) = ground (arith, find-count n c)

-- `get_node_nocheck` finds a node id exactly when its chain holds it.
pub get_node_nocheck-found :
    (t : NodeTable) (n : ℕ)
    → get_node_nocheck t n ≡ (if found raw_id t n == 0 then none else some n)
unfolding get_node_nocheck id_hash
get_node_nocheck-found t n = find-count n (t.array (slot_of raw_id t n))

-- After `hash_id` on a well-formed table, `get_node_nocheck` returns the new node for its id, and
-- for every other id what it returned before, also when the table was split or doubled.
pub get_node_nocheck-hash_id :
    (allocated : Bool) (n m : ℕ) (t : NodeTable)
    → IsSized t
    → IsPlaced raw_id t
    → get_node_nocheck (hash_node raw_id allocated n t) m
      ≡ (if m == n then some n else get_node_nocheck t m)
get_node_nocheck-hash_id allocated n m t sized placed =
    let h = (hash_node-Holds raw_id allocated n t sized placed).finds m in
    get_node_nocheck-found (hash_node raw_id allocated n t) m
    ∙ ground (arith, h, get_node_nocheck-found t m)

-- After `unhash_id` of a node that a well-formed table holds at most once, `get_node_nocheck`
-- finds nothing under its id, and under every other id what it found before, also when the table
-- was merged or halved.
pub get_node_nocheck-unhash_id :
    (n m : ℕ) (t : NodeTable)
    → IsSized t
    → IsPlaced raw_id t
    → found raw_id t n ≤ 1
    → get_node_nocheck (unhash_node raw_id n t) m ≡ (if m == n then none else get_node_nocheck t m)
get_node_nocheck-unhash_id n m t sized placed once =
    let h = (unhash_node-Holds raw_id n t sized placed).finds m in
    get_node_nocheck-found (unhash_node raw_id n t) m
    ∙ ground (arith, h, get_node_nocheck-found t m)
