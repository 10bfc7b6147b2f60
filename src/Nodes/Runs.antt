-- ===== src/Nodes/Runs.antt =====
-- The requests of a kernel that names only nodes it has looked up.
use fuse_study.Base.{ℕ, Bool, true, some, List, ◌≡◌, ◌≢◌, ◌≤◌, ◌<◌, arith, refl}
use fuse_study.Nodes.{
  Entry, Fuse, entry_of, lookup_node, find_node, forget_node, remove_node, rename_node,
  exchange_node, root_only,
}
use fuse_study.Nodes.Counts.{IsCounted, children-without, entries-without}
use fuse_study.Nodes.Changes.{forget_node-IsCounted}
use fuse_study.Nodes.Finding.{HasFreeId, find_node-IsCounted}
use fuse_study.Nodes.Renaming.{
  IsKnown, looked_up-refctr, remove_node-IsCounted, rename_node-IsCounted,
}
use fuse_study.Nodes.Exchange.{IsHeld, AreApart, exchange_node-IsCounted}

-- What requests can lead to from a fresh mount. A kernel looks up below nodes that it knows, forgets
-- no more lookups than it made, never forgets the root, has looked up what it removes or
-- moves, and exchanges two different nodes.
pub data Reached (remember : Bool) : Fuse → Type 0 where
  mounted : Reached remember root_only
  found :
      {f : Fuse}
      → Reached remember f
      → (fuel parent : ℕ) (name : List ℕ) → 0 < f.nlookup parent
      → HasFreeId fuel f
      → Reached remember (find_node remember fuel parent name f).0
  forgotten :
      {f : Fuse}
      → Reached remember f
      → (n nlookup : ℕ) → n ≢ 1
      → 0 < f.nlookup n
      → nlookup ≤ f.nlookup n
      → Reached remember (forget_node n nlookup f)
  removed :
      {f : Fuse}
      → Reached remember f
      → (dir : ℕ) (name : List ℕ)
      → ((n : ℕ) → lookup_node dir name f.names ≡ some n → IsKnown remember n f)
      → Reached remember (remove_node remember dir name f)
  renamed :
      {f : Fuse}
      → Reached remember f
      → (allocated hide : Bool) (olddir : ℕ) (oldname : List ℕ) (newdir : ℕ) (newname : List ℕ)
      → ((n : ℕ) → lookup_node olddir oldname f.names ≡ some n → IsKnown remember n f)
      → ((n : ℕ) → lookup_node newdir newname f.names ≡ some n → IsKnown remember n f)
      → 0 < f.nlookup newdir
      → Reached remember (rename_node remember allocated hide olddir oldname newdir newname f).0
  exchanged :
      {f : Fuse}
      → Reached remember f
      → (first second : Bool) (olddir : ℕ) (oldname : List ℕ) (newdir : ℕ) (newname : List ℕ)
      → IsHeld (lookup_node olddir oldname f.names) f
      → IsHeld (lookup_node newdir newname f.names) f
      → AreApart (lookup_node olddir oldname f.names) (lookup_node newdir newname f.names)
      → 0 < f.nlookup olddir
      → 0 < f.nlookup newdir
      → Reached remember (exchange_node first second olddir oldname newdir newname f).0

root_only-IsCounted : IsCounted root_only
unfolding root_only
root_only-IsCounted = record {
  refs = λ n. ground arith;
  kept = λ n. ground arith;
  gone = λ n h. ground arith;
  once = λ n. ground arith;
  unnamed = λ n h. refl;
}

-- In every state that requests can lead to from a fresh mount, each node's reference count is the
-- number of names below it, and one more if it has been looked up; the table of ids holds exactly
-- the nodes with references; and a node has at most one name, and none without references. The
-- kernel names only nodes that it has looked up, and exchanges only two different ones.
pub Reached-IsCounted : (remember : Bool) (f : Fuse) → Reached remember f → IsCounted f
Reached-IsCounted remember f mounted = root_only-IsCounted
Reached-IsCounted remember f (found {f = g} r fuel parent name known free) =
    let c = Reached-IsCounted remember g r in
    find_node-IsCounted remember fuel parent name g c (looked_up-refctr parent g c known) free
Reached-IsCounted remember f (forgotten {f = g} r n nlookup not_root known le) =
    forget_node-IsCounted n nlookup g (Reached-IsCounted remember g r) known
Reached-IsCounted remember f (removed {f = g} r dir name known) =
    remove_node-IsCounted remember dir name g (Reached-IsCounted remember g r) known
Reached-IsCounted remember f
      (renamed {f = g} r allocated hide olddir oldname newdir newname known known' above) =
    rename_node-IsCounted remember allocated hide olddir oldname newdir newname g
      (Reached-IsCounted remember g r) known known' above
Reached-IsCounted remember f
      (exchanged {f = g} r first second olddir oldname newdir newname held held' apart above
        above') =
    exchange_node-IsCounted first second olddir oldname newdir newname g
      (Reached-IsCounted remember g r) held held' apart above above'

-- In every state that requests can lead to from a fresh mount, a node that has a name and the
-- parent that its name is under are both in the table of ids, so neither has been freed. The kernel
-- names only nodes that it has looked up, and exchanges only two different ones.
pub Reached-parent :
    (remember : Bool) (f : Fuse) (n : ℕ) (e : Entry)
    → Reached remember f
    → entry_of n f.names ≡ some e
    → (f.in_ids n ≡ true) × (f.in_ids e.parent ≡ true)
Reached-parent remember f n e r h =
    let c = Reached-IsCounted remember f r in
    (
      ground (arith, entries-without n n e f.names h, c.unnamed n, c.kept n),
      ground (arith, children-without n e.parent e f.names h, c.refs e.parent, c.kept e.parent),
    )
