-- ===== src/NodeTable/Tests.antt =====
-- The theorems on the node tables of lib/fuse.c at concrete tables.
use fuse_study.Base.{
  ℕ, true, false, none, some, List, [], ◌∷◌, ◌+◌, ◌==◌, ◌≡◌, ◌≤◌, refl, arith, if◌then◌else◌,
}
use fuse_study.NodeTable.{
  NodeTable, hash_node, unhash_node, raw_id, raw_name, get_node_nocheck, lookup_node,
  node_table_init, slot,
}
use fuse_study.NodeTable.Rehash.{found}
use fuse_study.NodeTable.Ids.{
  Holds, hash_node-Holds, get_node_nocheck-hash_id, get_node_nocheck-unhash_id,
}
use fuse_study.NodeTable.Names.{raw_of, IsSized-init, IsPlaced-init}
use fuse_study.NodeTable.NameTable.{hash_name, lookup_node-hash_name}

abbrev one_node : NodeTable
one_node = hash_node raw_id true 1 node_table_init

one_node-Holds :
    Holds raw_id one_node (λ m. (if m == 1 then 1 else 0) + found raw_id node_table_init m)
one_node-Holds = hash_node-Holds raw_id true 1 node_table_init IsSized-init (IsPlaced-init raw_id)

get_node_nocheck-hash_id_example :
    get_node_nocheck (hash_node raw_id true 5 one_node) 5
    ≡ (if 5 == 5 then some 5 else get_node_nocheck one_node 5)
get_node_nocheck-hash_id_example =
    get_node_nocheck-hash_id true 5 5 one_node one_node-Holds.sized one_node-Holds.placed

found_one : found raw_id one_node 1 ≤ 1
unfolding node_table_init
found_one = omega (arith, one_node-Holds.finds 1)

get_node_nocheck-unhash_id_example :
    get_node_nocheck (unhash_node raw_id 1 one_node) 1
    ≡ (if 1 == 1 then none else get_node_nocheck one_node 1)
get_node_nocheck-unhash_id_example =
    get_node_nocheck-unhash_id 1 1 one_node one_node-Holds.sized one_node-Holds.placed found_one

-- Every node is the child "a" of the root.
abbrev parents : ℕ → ℕ
parents n = 1

abbrev names : ℕ → List ℕ
names n = b'a' ∷ []

abbrev named : NodeTable
named = hash_node (raw_of parents names) true 9 node_table_init

lookup_run : lookup_node parents names named 1 (b'a' ∷ []) ≡ some 9
unfolding lookup_node hash_node node_table_init raw_name slot
lookup_run = refl

empty_run : lookup_node parents names node_table_init 1 (b'a' ∷ []) ≡ none
unfolding lookup_node node_table_init
empty_run = refl

lookup_node-hash_name_example :
    lookup_node parents names (hash_name parents names false 9 node_table_init) 1 (b'a' ∷ [])
    ≡ some 9
lookup_node-hash_name_example =
    lookup_node-hash_name parents names false 9 node_table_init IsSized-init
      (IsPlaced-init (raw_of parents names)) empty_run

named-Holds :
    Holds
      (raw_of parents names)
      named
      (λ m. (if m == 9 then 1 else 0) + found (raw_of parents names) node_table_init m)
named-Holds =
    hash_node-Holds (raw_of parents names) true 9 node_table_init IsSized-init
      (IsPlaced-init (raw_of parents names))

found-named : found (raw_of parents names) named 9 ≤ 1
unfolding node_table_init
found-named = omega (arith, named-Holds.finds 9)
