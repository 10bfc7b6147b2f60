-- ===== src/Nodes.antt =====
-- The life of a node, lib/fuse.c: reference counts and lookup counts. A node is named by its node
-- id. `in_ids` says whether `f->id_table` holds a node, and `names` are the nodes in
-- `f->name_table` with their fields `parent` and `name`; NodeTable.antt has the tables themselves.
-- A node in no chain has no entry, which stands for `node->name == NULL`.
pub mod Counts
pub mod Unref
pub mod Changes
pub mod Finding
pub mod Renaming
pub mod Exchange
pub mod Runs
mod Tests
use fuse_study.Base.{
  ℕ, zero, suc, Bool, true, false, Option, none, some, List, [], ◌∷◌, ◌++◌, ◌==◌, ltb, leb,
  if◌then◌else◌, ◌-◌, ◌+◌, ◌%◌, ◌^◌, ◌&&◌, ◌||◌, not, length,
}
use fuse_study.NodeTable.{same_name}

pub record Entry : Type 0 where
  pub child : ℕ
  pub parent : ℕ
  pub name : List ℕ

pub record Fuse : Type 0 where
  pub refctr : ℕ → ℕ
  pub nlookup : ℕ → ℕ
  pub in_ids : ℕ → Bool
  pub names : List Entry
  pub ctr : ℕ
  pub is_hidden : ℕ → Bool

abbrev pub set_at {ℓ} : {A : Type ℓ} → (ℕ → A) → ℕ → A → ℕ → A
set_at f n a m = if m == n then a else f m

abbrev pub entry_of : ℕ → List Entry → Option Entry
entry_of n [] = none
entry_of n (e ∷ es) = if e.child == n then some e else entry_of n es

abbrev pub without : ℕ → List Entry → List Entry
without n [] = []
without n (e ∷ es) = if e.child == n then es else e ∷ without n es

-- `node->refctr --`
abbrev pub less : ℕ → Fuse → Fuse
less n f = record f { refctr = set_at f.refctr n (f.refctr n - 1) }

-- `unhash_id` and `free_node`.
abbrev pub drop_id : ℕ → Fuse → Fuse
drop_id n f = record f { in_ids = set_at f.in_ids n false }

-- `unref_node` with `delete_node`, whose `unhash_name` takes the reference of the node on its
-- parent back. Each round but the last takes an entry out of the table of names.
unfoldable pub unref : ℕ → ℕ → Fuse → Fuse
unref zero n f = f
unref (suc fuel) n f = elim (entry_of n f.names) [
  | none ↦ if f.refctr n - 1 == 0 then drop_id n (less n f) else less n f
  | some e ↦
      let deleted =
        drop_id n (unref fuel e.parent (record (less n f) { names = without n f.names })) in
      if f.refctr n - 1 == 0 then deleted else less n f
]

unfoldable pub unref_node : ℕ → Fuse → Fuse
unref_node n f = unref (suc (length f.names)) n f

unfoldable pub unhash_name : ℕ → Fuse → Fuse
unhash_name n f = elim (entry_of n f.names) [
  | none ↦ f
  | some e ↦ unref_node e.parent (record f { names = without n f.names })
]

-- `hash_name` when its `strdup` succeeds.
unfoldable pub hash_name : ℕ → ℕ → List ℕ → Fuse → Fuse
hash_name n parent name f = record f {
  refctr = set_at f.refctr parent (f.refctr parent + 1);
  names = record { child = n; parent = parent; name = name } ∷ f.names;
}

unfoldable pub inc_nlookup : ℕ → Fuse → Fuse
inc_nlookup n f = record f {
  refctr = if f.nlookup n == 0 then set_at f.refctr n (f.refctr n + 1) else f.refctr;
  nlookup = set_at f.nlookup n (f.nlookup n + 1);
}

unfoldable pub lookup_node : ℕ → List ℕ → List Entry → Option ℕ
lookup_node parent name [] = none
lookup_node parent name (e ∷ es) =
    let rest = lookup_node parent name es in
    if (e.parent == parent) && same_name e.name name then some e.child else rest

abbrev pub fuse_unknown_ino : ℕ
fuse_unknown_ino = 0xffffffff

abbrev pub taken : Fuse → ℕ → Bool
taken f n = (n == 0) || ((n == fuse_unknown_ino) || f.in_ids n)

-- The rounds of `next_id`; `generation` is not kept.
unfoldable pub next_id : ℕ → ℕ → Fuse → ℕ
next_id zero ctr f = ctr
next_id (suc fuel) ctr f =
    let ctr' = (ctr + 1) % 2 ^ 32 in
    let rest = next_id fuel ctr' f in if taken f ctr' then rest else ctr'

-- A fresh node, by `alloc_node`, `hash_name` and `hash_id`.
unfoldable pub new_node : Bool → ℕ → ℕ → List ℕ → Fuse → Fuse
unfolding inc_nlookup hash_name
new_node remember n parent name f =
    let f' = record f { ctr = n; in_ids = set_at f.in_ids n true } in
    hash_name n parent name (if remember then inc_nlookup n f' else f')

-- `find_node` with a name, and enough memory.
unfoldable pub find_node : Bool → ℕ → ℕ → List ℕ → Fuse → Fuse × ℕ
unfolding next_id new_node inc_nlookup
find_node remember fuel parent name f = elim (lookup_node parent name f.names) [
  | some n ↦ (inc_nlookup n f, n)
  | none ↦ let n = next_id fuel f.ctr f in (inc_nlookup n (new_node remember n parent name f), n)
]

-- `forget_node` of a node that is not locked and not the root.
unfoldable pub forget_node : ℕ → ℕ → Fuse → Fuse
forget_node n nlookup f =
    let f' = record f { nlookup = set_at f.nlookup n (f.nlookup n - nlookup) } in
    if f.nlookup n - nlookup == 0 then unref_node n f' else f'

unfoldable pub unlink_node : Bool → ℕ → Fuse → Fuse
unlink_node remember n f =
    unhash_name n
      (if remember then record f { nlookup = set_at f.nlookup n (f.nlookup n - 1) } else f)

unfoldable pub remove_node : Bool → ℕ → List ℕ → Fuse → Fuse
remove_node remember dir name f = elim (lookup_node dir name f.names) [
  | none ↦ f
  | some n ↦ unlink_node remember n f
]

abbrev pub ebusy : ℕ
ebusy = 16

abbrev pub enomem : ℕ
enomem = 12

-- The end of `rename_node`: the node `n` gets its new name, if `strdup` succeeds.
unfoldable pub move_node : Bool → Bool → ℕ → ℕ → List ℕ → Fuse → Fuse × ℕ
move_node allocated hide n newdir newname f =
    let moved = hash_name n newdir newname (unhash_name n f) in
    if not allocated
    then (unhash_name n f, enomem)
    else (if hide then record moved { is_hidden = set_at moved.is_hidden n true } else moved, 0)

unfoldable pub rename_node : Bool → Bool → Bool → ℕ → List ℕ → ℕ → List ℕ → Fuse → Fuse × ℕ
unfolding move_node
rename_node remember allocated hide olddir oldname newdir newname f =
    elim (lookup_node olddir oldname f.names) [
      | none ↦ (f, 0)
      | some n ↦ elim (lookup_node newdir newname f.names) [
        | none ↦ move_node allocated hide n newdir newname f
        | some newnode ↦
            if hide
            then (f, ebusy)
            else move_node allocated hide n newdir newname (unlink_node remember newnode f)
      ]
    ]

-- `if (node) unhash_name(f, node);`
unfoldable pub unhash_found : Option ℕ → Fuse → Fuse
unhash_found none f = f
unhash_found (some n) f = unhash_name n f

-- `hash_name` of a node that was found, and whether its `strdup` succeeds.
unfoldable pub hash_found : Bool → Option ℕ → ℕ → List ℕ → Fuse → Fuse × Bool
hash_found allocated none dir name f = (f, true)
hash_found true (some n) dir name f = (hash_name n dir name f, true)
hash_found false (some n) dir name f = (f, false)

-- `exchange_node`; the two Booleans say which `strdup` succeeds.
unfoldable pub exchange_node : Bool → Bool → ℕ → List ℕ → ℕ → List ℕ → Fuse → Fuse × ℕ
unfolding unhash_found hash_found
exchange_node first second olddir oldname newdir newname f =
    let oldnode = lookup_node olddir oldname f.names in
    let newnode = lookup_node newdir newname f.names in
    let moved =
      hash_found first oldnode newdir newname (unhash_found newnode (unhash_found oldnode f)) in
    let back = hash_found second newnode olddir oldname moved.0 in
    if not moved.1 then (moved.0, enomem) else if not back.1 then (back.0, enomem) else (back.0, 0)

-- `fuse_new`: the root is looked up once, for good.
unfoldable pub root_only : Fuse
root_only = record {
  refctr = set_at (λ n. 0) 1 1;
  nlookup = set_at (λ n. 0) 1 1;
  in_ids = set_at (λ n. false) 1 true;
  names = [];
  ctr = 0;
  is_hidden = λ n. false;
}
