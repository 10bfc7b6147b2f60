-- ===== src/Nodes/Finding.antt =====
-- `find_node` and the choice of a node id.
use fuse_study.Base.{
  ℕ, zero, suc, Bool, true, false, Option, none, some, List, [], ◌∷◌, ◌==◌, ◌≡◌, ◌≤◌, ◌<◌, ◌+◌, ◌-◌,
  ◌&&◌, ◌%◌, ◌^◌, arith, refl, sym, ap, Bool-cases, Option-cases, inl, inr,
}
use fuse_study.NodeTable.{same_name}
use fuse_study.Nodes.{
  Entry, Fuse, set_at, hash_name, inc_nlookup, lookup_node, taken, next_id, new_node, find_node,
}
use fuse_study.Nodes.Counts.{children, entries, IsCounted}
use fuse_study.Nodes.Changes.{hash_name-IsCounted, inc_nlookup-IsCounted}

-- The rounds of `next_id` reach a free id, if there is one.
next_id-free :
    (fuel k ctr : ℕ) (f : Fuse)
    → 0 < k
    → k ≤ fuel
    → taken f ((ctr + k) % 2 ^ 32) ≡ false
    → taken f (next_id fuel ctr f) ≡ false
unfolding next_id
next_id-free zero k ctr f pos le free = ground arith
next_id-free (suc fuel) k ctr f pos le free = elim (Bool-cases (taken f ((ctr + 1) % 2 ^ 32))) [
  | inr stop ↦ rw (stop, stop) refl
  | inl go ↦ elim (Bool-cases (k == 1)) [
    | inl e ↦
        let last : k ≡ 1 = ground (arith, e) in
        let here : taken f ((ctr + 1) % 2 ^ 32) ≡ false = rw (sym last) free in
        ground (arith, here, go)
    | inr e ↦
        let same : ((ctr + 1) % 2 ^ 32 + (k - 1)) % 2 ^ 32 ≡ (ctr + k) % 2 ^ 32 =
          ground (arith, pos) in
        rw go (
          next_id-free fuel (k - 1) ((ctr + 1) % 2 ^ 32) f (ground (arith, e, pos))
            (omega (arith, le)) (rw same free))
  ]
]

abbrev child_or : Option ℕ → ℕ
child_or none = 0
child_or (some n) = n

lookup_node-first :
    (parent : ℕ) (name : List ℕ) (e : Entry) (es : List Entry) (n : ℕ)
    → ((e.parent == parent) && same_name e.name name) ≡ true
    → lookup_node parent name (e ∷ es) ≡ some n
    → some e.child ≡ some n
unfolding lookup_node
lookup_node-first parent name e es n k h = rw k at h

lookup_node-rest :
    (parent : ℕ) (name : List ℕ) (e : Entry) (es : List Entry) (n : ℕ)
    → ((e.parent == parent) && same_name e.name name) ≡ false
    → lookup_node parent name (e ∷ es) ≡ some n
    → lookup_node parent name es ≡ some n
unfolding lookup_node
lookup_node-rest parent name e es n k h = rw k at h

lookup_node-entries :
    (parent : ℕ) (name : List ℕ) (es : List Entry) (n : ℕ)
    → lookup_node parent name es ≡ some n
    → 0 < entries n es
unfolding lookup_node
lookup_node-entries parent name [] n h = ground arith
lookup_node-entries parent name (e ∷ es) n h =
    elim (Bool-cases ((e.parent == parent) && same_name e.name name)) [
      | inl k ↦
          let same : e.child ≡ n = ap child_or (lookup_node-first parent name e es n k h) in
          ground (arith, same)
      | inr k ↦
          ground
            (arith, lookup_node-entries parent name es n (lookup_node-rest parent name e es n k h))
    ]

pub lookup_node-refctr :
    (parent : ℕ) (name : List ℕ) (f : Fuse) (n : ℕ)
    → IsCounted f
    → lookup_node parent name f.names ≡ some n
    → 0 < f.refctr n
lookup_node-refctr parent name f n c h =
    ground (arith, c.unnamed n, lookup_node-entries parent name f.names n h)

-- A node that is not in the table of ids is nowhere.
record IsFresh (n : ℕ) (f : Fuse) : Type 0 where
  refctr : f.refctr n ≡ 0
  nlookup : f.nlookup n ≡ 0
  children : children n f.names ≡ 0
  entries : entries n f.names ≡ 0

taken-IsFresh : (n : ℕ) (f : Fuse) → IsCounted f → taken f n ≡ false → IsFresh n f
taken-IsFresh n f c free =
    let unused : f.refctr n ≡ 0 = ground (arith, free, c.kept n) in
    record {
      refctr = unused;
      nlookup = ground (arith, unused, c.refs n);
      children = ground (arith, unused, c.refs n);
      entries = c.unnamed n unused;
    }

module _ (n parent : ℕ) (name : List ℕ) (f : Fuse) (c : IsCounted f) (fresh : IsFresh n f)
    (above : 0 < f.refctr parent) where
  -- A fresh node that is looked up at once.
  fresh-IsCounted :
      IsCounted (inc_nlookup n (record f { ctr = n; in_ids = set_at f.in_ids n true }))
  unfolding inc_nlookup
  fresh-IsCounted = record {
    refs = λ m. ground (arith, c.refs m, fresh.refctr, fresh.nlookup);
    kept = λ m. ground (arith, c.kept m, fresh.nlookup);
    gone = λ m h. ground arith;
    once = c.once;
    unnamed = λ m h. ground (arith, c.unnamed m, h);
  }

  new_node-IsCounted :
      (remember : Bool) → IsCounted (inc_nlookup n (new_node remember n parent name f))
  unfolding new_node
  new_node-IsCounted true =
      let g : Fuse = record f { ctr = n; in_ids = set_at f.in_ids n true } in
      inc_nlookup-IsCounted n (hash_name n parent name (inc_nlookup n g))
        (hash_name-IsCounted n parent name (inc_nlookup n g) fresh-IsCounted fresh.entries
          (ground (arith, fresh.nlookup)) (ground (arith, above, fresh.nlookup)))
        (ground (arith, above, fresh.nlookup))
  new_node-IsCounted false = record {
    refs = λ m. ground (arith, c.refs m, fresh.refctr, fresh.nlookup, above);
    kept = λ m. ground (arith, c.kept m, fresh.nlookup, above);
    gone = λ m h. ground arith;
    once = λ m. ground (arith, c.once m, fresh.entries);
    unnamed = λ m h. ground (arith, c.unnamed m, h, fresh.nlookup);
  }

-- An id that is not in use comes up within `fuel` rounds.
abbrev pub HasFreeId : ℕ → Fuse → Type 0
HasFreeId fuel f = (k : ℕ) × (0 < k) × (k ≤ fuel) × (taken f ((f.ctr + k) % 2 ^ 32) ≡ false)

pub find_node-IsCounted :
    (remember : Bool) (fuel parent : ℕ) (name : List ℕ) (f : Fuse)
    → IsCounted f
    → 0 < f.refctr parent
    → HasFreeId fuel f
    → IsCounted (find_node remember fuel parent name f).0
unfolding find_node
find_node-IsCounted remember fuel parent name f c above (k, pos, le, free) =
    elim (Option-cases (lookup_node parent name f.names)) [
      | inr (n, e) ↦
          rw (find_node, e) (inc_nlookup-IsCounted n f c (lookup_node-refctr parent name f n c e))
      | inl e ↦
          let n = next_id fuel f.ctr f in
          rw (find_node, e)
            (new_node-IsCounted n parent name f c
              (taken-IsFresh n f c (next_id-free fuel k f.ctr f pos le free)) above remember)
    ]
