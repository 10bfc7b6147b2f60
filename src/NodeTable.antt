-- ===== src/NodeTable.antt =====
-- The two hash tables of nodes in lib/fuse.c, `f->id_table` and `f->name_table`: linear hashing
-- with a split pointer, where a chain is a list of nodes and a node is named by its node id.
-- `raw` gives each node's full hash value; the reduction to a slot is the same in both tables.
pub mod Slot
pub mod Rehash
pub mod Remerge
pub mod Ids
pub mod Names
pub mod NameTable
mod Tests
use fuse_study.Base.{
  ℕ, zero, suc, Bool, true, false, Option, none, some, List, [], ◌∷◌, ◌++◌, leb, ltb, ◌==◌,
  if◌then◌else◌, ◌-◌, ◌+◌, ◌*◌, ◌/◌, ◌%◌, ◌^◌, ◌&&◌, not,
}

-- `array` is read below `size` only.
pub record NodeTable : Type 0 where
  pub array : ℕ → List ℕ
  pub use_count : ℕ
  pub size : ℕ
  pub split : ℕ

abbrev pub node_table_min_size : ℕ
node_table_min_size = 8192

-- The reduction at the end of `id_hash` and of `name_hash`.
unfoldable pub slot : ℕ → ℕ → ℕ → ℕ
slot size split raw =
    let hash = raw % size in
    let oldhash = hash % (size / 2) in if leb split oldhash then oldhash else hash

-- `(uint32_t) ino * 2654435761U`
unfoldable pub raw_id : ℕ → ℕ
raw_id ino = ((ino % 2 ^ 32) * 2654435761) % 2 ^ 32

pub id_hash : NodeTable → ℕ → ℕ
id_hash t ino = slot t.size t.split (raw_id ino)

raw_name_from : ℕ → List ℕ → ℕ
raw_name_from hash [] = hash
raw_name_from hash (c ∷ name) = raw_name_from ((hash * 31 + c) % 2 ^ 64) name

-- The loop of `name_hash` over the bytes of the name.
unfoldable pub raw_name : ℕ → List ℕ → ℕ
unfolding raw_name_from
raw_name parent name = raw_name_from parent name

pub name_hash : NodeTable → ℕ → List ℕ → ℕ
name_hash t parent name = slot t.size t.split (raw_name parent name)

abbrev pub update : (ℕ → List ℕ) → ℕ → List ℕ → ℕ → List ℕ
update array i chain j = if j == i then chain else array j

abbrev pub find : (ℕ → Bool) → List ℕ → Option ℕ
find p [] = none
find p (n ∷ c) = if p n then some n else find p c

-- `get_node_nocheck`, and the loop of `lookup_node`, whose test is on the parent and the name.
unfoldable pub get_node_nocheck : NodeTable → ℕ → Option ℕ
unfolding id_hash
get_node_nocheck t nodeid = find (λ n. n == nodeid) (t.array (id_hash t nodeid))

-- `strcmp(a, b) == 0`
unfoldable pub same_name : List ℕ → List ℕ → Bool
same_name [] [] = true
same_name (a ∷ as') (b ∷ bs) = (a == b) && same_name as' bs
same_name _ _ = false

-- `parent_of` and `name_of` read the fields of a node.
unfoldable pub lookup_node : (ℕ → ℕ) → (ℕ → List ℕ) → NodeTable → ℕ → List ℕ → Option ℕ
unfolding name_hash same_name
lookup_node parent_of name_of t parent name =
    find (λ n. (parent_of n == parent) && same_name (name_of n) name)
      (t.array (name_hash t parent name))

-- The new array may not be had (`none` of `realloc`): then nothing changes.
unfoldable pub node_table_resize : Bool → NodeTable → NodeTable
node_table_resize allocated t =
    if allocated
    then record t {
      array = λ i. if leb t.size i && ltb i (t.size * 2) then [] else t.array i;
      size = t.size * 2;
      split = 0;
    }
    else t

-- A failing `realloc` leaves the longer array, which serves as well.
unfoldable pub node_table_reduce : NodeTable → NodeTable
node_table_reduce t =
    if ltb (t.size / 2) node_table_min_size
    then t
    else record t { size = t.size / 2; split = t.size / 2 / 2 }

pub is_empty : List ℕ → Bool
is_empty [] = true
is_empty (n ∷ c) = false

-- The chain without `n`, and whether `n` is in it.
pub remove : ℕ → List ℕ → List ℕ
remove n [] = []
remove n (m ∷ c) = if m == n then c else m ∷ remove n c

pub contains : ℕ → List ℕ → Bool
contains n [] = false
contains n (m ∷ c) = if m == n then true else contains n c

module _ (raw : ℕ → ℕ) where
  -- The loop over the chain of slot `hash`: what stays in it, and the array with the others
  -- pushed in front of their new chains.
  unfoldable pub spill : ℕ → ℕ → ℕ → List ℕ → (ℕ → List ℕ) → List ℕ × (ℕ → List ℕ)
  spill size split hash [] array = ([], array)
  spill size split hash (n ∷ c) array =
      let newhash = slot size split (raw n) in
      let stays = newhash == hash in
      let rest =
        spill size split hash c
          (if stays then array else update array newhash (n ∷ array newhash)) in
      (if stays then n ∷ rest.0 else rest.0, rest.1)

  -- `t->split++` and the loop.
  unfoldable pub split_slot : NodeTable → NodeTable
  unfolding spill
  split_slot t =
      let moved = spill t.size (t.split + 1) t.split (t.array t.split) t.array in
      record t { array = update moved.1 t.split moved.0; split = t.split + 1 }

  unfoldable pub rehash : Bool → NodeTable → NodeTable
  rehash allocated t =
      if t.split == t.size / 2
      then t
      else if t.split + 1 == t.size / 2
      then node_table_resize allocated (split_slot t)
      else split_slot t

  -- `hash_id`, and the end of `hash_name`.
  unfoldable pub hash_node : Bool → ℕ → NodeTable → NodeTable
  hash_node allocated n t =
      let hash = slot t.size t.split (raw n) in
      let t' = record t {
        array = update t.array hash (n ∷ t.array hash);
        use_count = t.use_count + 1;
      } in
      if leb (t'.size / 2) t'.use_count then rehash allocated t' else t'

  -- One round of the loop in `remerge_id`: `split--`, and an upper chain joins the lower one.
  unfoldable pub merge_slot : NodeTable → NodeTable
  unfolding is_empty
  merge_slot t =
      let low = t.split - 1 in
      let upper = low + t.size / 2 in
      if is_empty (t.array upper) then record t { split = low } else record t {
        array = update (update t.array low (t.array low ++ t.array upper)) upper [];
        split = low;
      }

  -- `iter` rounds at most; the round that joins a chain is the last.
  unfoldable pub merge_loop : ℕ → NodeTable → NodeTable
  unfolding is_empty
  merge_loop zero t = t
  merge_loop (suc iter) t =
      let rest = merge_loop iter (merge_slot t) in
      if t.split == 0
      then t
      else if is_empty (t.array (t.split - 1 + t.size / 2))
      then rest
      else merge_slot t

  unfoldable pub remerge : NodeTable → NodeTable
  remerge t = merge_loop 8 (if t.split == 0 then node_table_reduce t else t)

  -- `unhash_id`, and the loop of `unhash_name`.
  unfoldable pub unhash_node : ℕ → NodeTable → NodeTable
  unfolding remove contains
  unhash_node n t =
      let hash = slot t.size t.split (raw n) in
      let t' = record t {
        array = update t.array hash (remove n (t.array hash));
        use_count = t.use_count - 1;
      } in
      if contains n (t.array hash)
      then (if ltb t'.use_count (t'.size / 4) then remerge t' else t')
      else t

-- `node_table_init`, when its `calloc` succeeds.
unfoldable pub node_table_init : NodeTable
node_table_init = record { array = λ i. []; use_count = 0; size = node_table_min_size; split = 0 }
