-- ===== src/Nodes/Tests.antt =====
-- Runs of the operations on nodes, and the theorems at a concrete one.
use fuse_study.Base.{ℕ, true, false, none, some, List, [], ◌∷◌, ◌≡◌, ◌<◌, refl, arith}
use fuse_study.NodeTable.{same_name}
use fuse_study.Nodes.{
  exchange_node, unhash_name, unhash_found, hash_found, Fuse, entry_of, find_node, forget_node,
  root_only, lookup_node, next_id, new_node, inc_nlookup, hash_name, unref_node, unref,
}
use fuse_study.Nodes.Counts.{IsCounted}
use fuse_study.Nodes.Finding.{HasFreeId}
use fuse_study.Nodes.Runs.{Reached, mounted, found, forgotten, Reached-IsCounted, Reached-parent}

abbrev file_name : List ℕ
file_name = b'a' ∷ []

-- The root with a file "a", which is node 2.
abbrev one_file : Fuse
one_file = (find_node false 2 1 file_name root_only).0

root_known : 0 < root_only.nlookup 1
unfolding root_only
root_known = omega arith

free_id : HasFreeId 2 root_only
unfolding root_only
free_id = (2, omega arith, omega arith, refl)

file_known : one_file.nlookup 2 ≡ 1
unfolding root_only find_node lookup_node next_id new_node inc_nlookup hash_name
file_known = refl

file_entry : entry_of 2 one_file.names ≡ some (record { child = 2; parent = 1; name = file_name })
unfolding root_only find_node lookup_node next_id new_node inc_nlookup hash_name
file_entry = refl

-- Forgetting the file frees it, and leaves the root with its own lookup.
forget_test :
    ((forget_node 2 1 one_file).in_ids 2 ≡ false) × ((forget_node 2 1 one_file).refctr 1 ≡ 1)
unfolding root_only find_node lookup_node next_id new_node inc_nlookup hash_name forget_node
    unref_node unref
forget_test = (refl, refl)

-- Two files that are exchanged, and one of them exchanged with a name that is free.
abbrev two_files : Fuse
two_files = (find_node false 3 1 (b'b' ∷ []) one_file).0

exchange_test :
    (lookup_node 1 file_name (exchange_node true true 1 file_name 1 (b'b' ∷ []) two_files).0.names
      ≡ some 3)
    × (lookup_node 1
          (b'b' ∷ [])
          (exchange_node true true 1 file_name 1 (b'b' ∷ []) two_files).0.names
        ≡ some 2)
    × (lookup_node 1 file_name (exchange_node true true 1 file_name 1 (b'b' ∷ []) one_file).0.names
        ≡ none)
unfolding root_only find_node lookup_node next_id new_node inc_nlookup hash_name unref_node unref
    unhash_name unhash_found hash_found exchange_node same_name
exchange_test = (refl, refl, refl)

file_reached : Reached false one_file
file_reached = found mounted 2 1 file_name root_known free_id

Reached-IsCounted_example : IsCounted (forget_node 2 1 one_file)
Reached-IsCounted_example = Reached-IsCounted false (forget_node 2 1 one_file) (
    forgotten file_reached 2 1 (omega arith) (omega (arith, file_known))
      (omega (arith, file_known)))

Reached-parent_example : (one_file.in_ids 2 ≡ true) × (one_file.in_ids 1 ≡ true)
Reached-parent_example =
    Reached-parent false one_file 2 (record { child = 2; parent = 1; name = file_name })
      file_reached file_entry
