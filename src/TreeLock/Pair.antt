-- ===== src/TreeLock/Pair.antt =====
-- Requests for two paths, lib/fuse.c: `try_get_path2` and what `free_path2` gives back.
use fuse_study.Base.{ℕ, true, Option, none, List}
use fuse_study.TreeLock.{unlock_path, Tried, got, refused, try_get_path}

-- Both paths with the nodes to be locked for writing, or an error.
pub data Both : Type 0 where
  got_both : List ℕ → Option ℕ → List ℕ → Option ℕ → Both
  refused_both : ℕ → Both

-- A request for a path: its `wnode`, name and chain.
pub record Request : Type 0 where
  pub wnode : Option ℕ
  pub name : Option (List ℕ)
  pub chain : List ℕ

module _ (name_of : ℕ → Option (List ℕ)) where
  abbrev pub try : Request → (ℕ → ℕ) → Tried × (ℕ → ℕ)
  try q locks = try_get_path name_of true q.wnode q.name q.chain locks

  -- The second path, when the first one has been locked.
  unfoldable pub second_path : Request → List ℕ → Option ℕ → Tried → (ℕ → ℕ) → Both × (ℕ → ℕ)
  second_path q1 p1 w1 (got p2 w2) locks = (got_both p1 w1 p2 w2, locks)
  second_path q1 p1 w1 (refused e) locks = (refused_both e, unlock_path w1 none q1.chain locks)

  unfoldable pub after_first : Request → Request → Tried → (ℕ → ℕ) → Both × (ℕ → ℕ)
  unfolding second_path
  after_first q1 q2 (got p1 w1) locks = second_path q1 p1 w1 (try q2 locks).0 (try q2 locks).1
  after_first q1 q2 (refused e) locks = (refused_both e, locks)

  unfoldable pub try_get_path2 : Request → Request → (ℕ → ℕ) → Both × (ℕ → ℕ)
  unfolding after_first
  try_get_path2 q1 q2 locks = after_first q1 q2 (try q1 locks).0 (try q1 locks).1

-- The locks that `free_path2` gives back.
unfoldable pub unlock_both : Option ℕ → List ℕ → Option ℕ → List ℕ → (ℕ → ℕ) → ℕ → ℕ
unlock_both wnode1 chain1 wnode2 chain2 locks =
    unlock_path wnode2 none chain2 (unlock_path wnode1 none chain1 locks)
