-- ===== src/NodeTable/Names.antt =====
-- `lookup_node`: the search in the table of names.
use fuse_study.Base.{ℕ, Bool, true, none, some, List, [], ◌∷◌, ◌==◌, ◌≡◌, ◌<◌, ◌&&◌, arith, refl}
use fuse_study.NodeTable.{
  NodeTable, slot, raw_name, name_hash, find, lookup_node, same_name, node_table_init,
}
use fuse_study.NodeTable.Rehash.{count, found, IsSized, IsPlaced}

pub same_name-eq : (a b : List ℕ) → same_name a b ≡ true → a ≡ b
unfolding same_name
same_name-eq [] [] h = refl
same_name-eq (x ∷ xs) (y ∷ ys) h = ground (arith, same_name-eq xs ys)
same_name-eq [] (y ∷ ys) h = cc
same_name-eq (x ∷ xs) [] h = cc

pub same_name_refl : (a : List ℕ) → same_name a a ≡ true
unfolding same_name
same_name_refl [] = refl
same_name_refl (x ∷ xs) = ground (arith, same_name_refl xs)

module _ (p : ℕ → Bool) where
  find-some : (c : List ℕ) (n : ℕ) → find p c ≡ some n → (p n ≡ true) × (0 < count n c)
  find-some [] n h = cc
  find-some (k ∷ c) n h = ground (arith, find-some c n)

  find-none : (c : List ℕ) (n : ℕ) → find p c ≡ none → p n ≡ true → count n c ≡ 0
  find-none [] n h e = refl
  find-none (k ∷ c) n h e = ground (arith, find-none c n)

module _ (parent_of : ℕ → ℕ) (name_of : ℕ → List ℕ) where
  abbrev pub raw_of : ℕ → ℕ
  raw_of n = raw_name (parent_of n) (name_of n)

  -- A node that `lookup_node` returns has the parent and the name that were asked for, and is in
  -- the chain of its own slot.
  pub lookup_node-some :
      (t : NodeTable) (parent : ℕ) (name : List ℕ) (n : ℕ)
      → lookup_node parent_of name_of t parent name ≡ some n
      → (parent_of n ≡ parent) × (name_of n ≡ name) × (0 < found raw_of t n)
  unfolding lookup_node name_hash
  lookup_node-some t parent name n h =
      let test = λ (k : ℕ). (parent_of k == parent) && same_name (name_of k) name in
      let chain = t.array (slot t.size t.split (raw_name parent name)) in
      let r : (test n ≡ true) × (0 < count n chain) = find-some test chain n h in
      let p : parent_of n ≡ parent = ground (arith, r.0) in
      let q : name_of n ≡ name = same_name-eq (name_of n) name (ground (arith, r.0)) in
      (p, q, rw (p, q) r.1)

  -- When `lookup_node` finds nothing, no node with that parent and that name is in the chain of
  -- its slot.
  pub lookup_node-none :
      (t : NodeTable) (n : ℕ)
      → lookup_node parent_of name_of t (parent_of n) (name_of n) ≡ none
      → found raw_of t n ≡ 0
  unfolding lookup_node name_hash
  lookup_node-none t n h =
      find-none (λ k. (parent_of k == parent_of n) && same_name (name_of k) (name_of n)) _ n h
        (ground (arith, same_name_refl (name_of n)))

-- The empty table is well formed.
pub IsSized-init : IsSized node_table_init
unfolding node_table_init
IsSized-init = record {
  half = 4096;
  exponent = 0;
  halved = refl;
  power = refl;
  pointer = omega arith;
}

pub IsPlaced-init : (raw : ℕ → ℕ) → IsPlaced raw node_table_init
unfolding node_table_init
IsPlaced-init raw n i below other = refl
