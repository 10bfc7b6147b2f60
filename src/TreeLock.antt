-- ===== src/TreeLock.antt =====
-- The tree locks of lib/fuse.c: `try_get_path` puts a path together and locks each node on it for
-- reading and, for requests that change a name, the named node for writing; `unlock_path` gives
-- the locks back. `node->treelock` is an `int` with special negative values; here it is kept
-- with 2^31 added, so that `INT_MIN` is 0 and every value is a natural number.
pub mod Counts
pub mod Paths
pub mod Readers
pub mod Queue
pub mod Waiters
pub mod Wakeup
pub mod Pair
pub mod Undone
pub mod Pairs
mod Tests
use fuse_study.Base.{
  ℕ, Bool, true, false, Option, none, some, List, [], ◌∷◌, ◌++◌, ltb, ◌==◌, if◌then◌else◌, not, ◌-◌,
  ◌+◌, ◌^◌, ◌&&◌,
}

-- The values 0, `TREELOCK_WRITE` and `TREELOCK_WAIT_OFFSET`
abbrev pub unlocked : ℕ
unlocked = 2 ^ 31

abbrev pub treelock_write : ℕ
treelock_write = 2 ^ 31 - 1

abbrev pub treelock_wait_offset : ℕ
treelock_wait_offset = 0

abbrev pub estale : ℕ
estale = 116

abbrev pub eagain : ℕ
eagain = 11

abbrev pub set_lock : (ℕ → ℕ) → ℕ → ℕ → ℕ → ℕ
set_lock locks node value n = if n == node then value else locks n

-- `node->treelock--`, where the last reader that leaves clears the mark of a waiting writer.
abbrev pub release : ℕ → ℕ
release t = if t - 1 == treelock_wait_offset then unlocked else t - 1

abbrev pub is_end : Option ℕ → ℕ → Bool
is_end none n = false
is_end (some e) n = n == e

-- The loop of `unlock_path` over a node and its ancestors below the root.
unfoldable pub unlock_chain : Option ℕ → List ℕ → (ℕ → ℕ) → ℕ → ℕ
unlock_chain end [] locks = locks
unlock_chain end (node ∷ chain) locks =
    if is_end end node
    then locks
    else unlock_chain end chain (set_lock locks node (release (locks node)))

abbrev pub unlock_writer : Option ℕ → (ℕ → ℕ) → ℕ → ℕ
unlock_writer none locks = locks
unlock_writer (some w) locks = set_lock locks w unlocked

-- The assertions only look at the locks.
unfoldable pub unlock_path : Option ℕ → Option ℕ → List ℕ → (ℕ → ℕ) → ℕ → ℕ
unlock_path wnode end chain locks = unlock_chain end chain (unlock_writer wnode locks)

-- The path is kept without the free space in front of it; the buffer grows as needed.
abbrev pub add_name : List ℕ → List ℕ → List ℕ
add_name s name = b'/' ∷ (name ++ s)

-- How the loop of `try_get_path` ends: at the root, or by `goto out_unlock` at a node.
pub data Climb : Type 0 where
  reached : List ℕ → Climb
  left_at : ℕ → ℕ → Climb

-- The path with the node to be locked for writing, or an error.
pub data Tried : Type 0 where
  got : List ℕ → Option ℕ → Tried
  refused : ℕ → Tried

abbrev pub path_of : List ℕ → List ℕ
path_of [] = b'/' ∷ []
path_of (c ∷ s) = c ∷ s

abbrev pub last_name : Option (List ℕ) → List ℕ
last_name none = []
last_name (some name) = add_name [] name

-- `name_of` is `none` for a node whose name or parent is NULL.
module _ (name_of : ℕ → Option (List ℕ)) (need_lock : Bool) where
  unfoldable pub climb : List ℕ → List ℕ → (ℕ → ℕ) → Climb × (ℕ → ℕ)
  climb [] s locks = (reached s, locks)
  climb (node ∷ chain) s locks = elim (name_of node) [
    | none ↦ (left_at estale node, locks)
    | some name ↦
        let locks' = if need_lock then set_lock locks node (locks node + 1) else locks in
        let rest = climb chain (add_name s name) locks' in
        if need_lock && ltb (locks node) unlocked then (left_at eagain node, locks) else rest
  ]

  -- What follows the loop.
  unfoldable pub after_climb : Option ℕ → List ℕ → Climb → (ℕ → ℕ) → Tried × (ℕ → ℕ)
  after_climb wnode chain (reached s) locks = (got (path_of s) wnode, locks)
  after_climb wnode chain (left_at e end) locks =
      (refused e, if need_lock then unlock_path wnode (some end) chain locks else locks)

  -- `wnode` is what `lookup_node` gave if `wnodep` is not NULL.
  unfoldable pub try_get_path : Option ℕ → Option (List ℕ) → List ℕ → (ℕ → ℕ) → Tried × (ℕ → ℕ)
  try_get_path none name chain locks =
      let r = climb chain (last_name name) locks in after_climb none chain r.0 r.1
  try_get_path (some w) name chain locks =
      let r = climb chain (last_name name) (set_lock locks w treelock_write) in
      if not (locks w == unlocked)
      then (
        refused eagain,
        if ltb unlocked (locks w) then set_lock locks w (locks w - unlocked) else locks,
      )
      else after_climb (some w) chain r.0 r.1
