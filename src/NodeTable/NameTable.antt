-- ===== src/NodeTable/NameTable.antt =====
-- `hash_name`, `unhash_name`, `rehash_name` and `remerge_name`: the table of names, where
-- `parent_of` and `name_of` read the fields that the first lines of `hash_name` set. The
-- reference counts are in Nodes.antt, and the freeing of the name is left out.
use fuse_study.Base.{
  ℕ, Bool, none, some, List, ◌∷◌, ltb, leb, ◌≡◌, ◌≢◌, ◌≤◌, ◌-◌, ◌+◌, ◌/◌, arith, if◌then◌else◌,
  Option-cases, inl, inr, refl, ◌∙◌, sym,
}
use fuse_study.NodeTable.{
  NodeTable, update, name_hash, rehash, remerge, remove, contains, hash_node, unhash_node,
  lookup_node,
}
use fuse_study.NodeTable.Rehash.{found, IsSized, IsPlaced}
use fuse_study.NodeTable.Ids.{hash_node-Holds, unhash_node-Holds}
use fuse_study.NodeTable.Names.{raw_of, lookup_node-some, lookup_node-none}

module _ (parent_of : ℕ → ℕ) (name_of : ℕ → List ℕ) where
  unfoldable pub rehash_name : Bool → NodeTable → NodeTable
  rehash_name allocated t = rehash (raw_of parent_of name_of) allocated t

  unfoldable pub remerge_name : NodeTable → NodeTable
  remerge_name t = remerge (raw_of parent_of name_of) t

  unfoldable pub hash_name : Bool → ℕ → NodeTable → NodeTable
  hash_name allocated n t =
      let hash = name_hash t (parent_of n) (name_of n) in
      let t' = record t {
        array = update t.array hash (n ∷ t.array hash);
        use_count = t.use_count + 1;
      } in
      if leb (t'.size / 2) t'.use_count then rehash_name allocated t' else t'

  -- A node that is not in its chain makes the source abort.
  unfoldable pub unhash_name : ℕ → NodeTable → NodeTable
  unhash_name n t =
      let hash = name_hash t (parent_of n) (name_of n) in
      let t' = record t {
        array = update t.array hash (remove n (t.array hash));
        use_count = t.use_count - 1;
      } in
      if contains n (t.array hash)
      then (if ltb t'.use_count (t'.size / 4) then remerge_name t' else t')
      else t

  hash_name-hash_node :
      (allocated : Bool) (n : ℕ) (t : NodeTable)
      → hash_name allocated n t ≡ hash_node (raw_of parent_of name_of) allocated n t
  unfolding hash_name rehash_name hash_node name_hash
  hash_name-hash_node allocated n t = refl

  unhash_name-unhash_node :
      (n : ℕ) (t : NodeTable) → unhash_name n t ≡ unhash_node (raw_of parent_of name_of) n t
  unfolding unhash_name remerge_name unhash_node name_hash
  unhash_name-unhash_node n t = refl

  -- On a well-formed table where no node has the parent and the name of `n`, after `hash_name`
  -- of `n` the lookup of that name under that parent gives `n` itself, also when the table was
  -- split or doubled on the way.
  pub lookup_node-hash_name :
      (allocated : Bool) (n : ℕ) (t : NodeTable)
      → IsSized t
      → IsPlaced (raw_of parent_of name_of) t
      → lookup_node parent_of name_of t (parent_of n) (name_of n) ≡ none
      → lookup_node parent_of name_of (hash_name allocated n t) (parent_of n) (name_of n) ≡ some n
  lookup_node-hash_name allocated n t sized placed fresh =
      let raw = raw_of parent_of name_of in
      let after = hash_node raw allocated n t in
      let holds = hash_node-Holds raw allocated n t sized placed in
      rw (hash_name-hash_node allocated n t)
        (elim (Option-cases (lookup_node parent_of name_of after (parent_of n) (name_of n))) [
          | inl e ↦ ground (arith, lookup_node-none parent_of name_of after n e, holds.finds n)
          | inr r ↦
              let m = r.0 in
              let s = lookup_node-some parent_of name_of after (parent_of n) (name_of n) m r.1 in
              let gone : found raw t m ≡ 0 =
                lookup_node-none parent_of name_of t m (rw (s.0, s.1) fresh) in
              let same : m ≡ n = ground (arith, s.2, holds.finds m, gone) in r.1 ∙ rw same refl
        ])

  -- After `unhash_name` of a node that a well-formed table holds at most once, no lookup gives
  -- that node, whatever parent and name it is for, also when the table was merged or halved.
  lookup_node-unhash_name :
      (n parent : ℕ) (name : List ℕ) (t : NodeTable)
      → IsSized t
      → IsPlaced (raw_of parent_of name_of) t
      → found (raw_of parent_of name_of) t n ≤ 1
      → lookup_node parent_of name_of (unhash_name n t) parent name ≢ some n
  lookup_node-unhash_name n parent name t sized placed once e =
      let raw = raw_of parent_of name_of in
      let after = unhash_node raw n t in
      let holds = unhash_node-Holds raw n t sized placed in
      let s =
        lookup_node-some parent_of name_of after parent name n
          (rw (sym (unhash_name-unhash_node n t)) e) in
      ground (arith, s.2, holds.finds n)
