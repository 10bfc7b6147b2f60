-- ===== src/TreeLock/Queue.antt =====
-- The queue of requests that wait for a path, lib/fuse.c: `queue_path`, `dequeue_path`,
-- `queue_element_wakeup`, `wake_up_queued`, `get_path_common`, `free_path_wrlock` and `free_path`,
-- for requests that wait for one path or for a node to be unlocked.
use fuse_study.Base.{ℕ, Bool, true, false, Option, none, some, List, [], ◌∷◌, ◌==◌, if◌then◌else◌}
use fuse_study.TreeLock.{unlocked, Tried, got, refused, eagain, try_get_path, unlock_path}

-- `struct lock_queue_element`, with the node ids from the waited-for node to the root; `ticket`
-- tells the elements apart. `path` is NULL for a request that only waits for the node.
pub record Waiting : Type 0 where
  pub ticket : ℕ
  pub wants_path : Bool
  pub node : ℕ
  pub wnode : Option ℕ
  pub name : Option (List ℕ)
  pub chain : List ℕ
  pub done : Bool
  pub signalled : Bool
  pub err : ℕ
  pub path : List ℕ

abbrev pub queue_path : List Waiting → Waiting → List Waiting
queue_path [] qe = record qe { done = false } ∷ []
queue_path (q ∷ qs) qe = q ∷ queue_path qs qe

abbrev pub dequeue_path : List Waiting → ℕ → List Waiting
dequeue_path [] ticket = []
dequeue_path (q ∷ qs) ticket = if q.ticket == ticket then qs else q ∷ dequeue_path qs ticket

-- What `queue_element_wakeup` does with the result of `try_get_path`.
abbrev pub settle : Waiting → Tried → Waiting
settle q (got p w) = record q { done = true; signalled = true; err = 0; path = p }
settle q (refused e) =
    if e == eagain then q else record q { done = true; signalled = true; err = e }

module _ (name_of : ℕ → Option (List ℕ)) where
  -- `queue_element_wakeup`, by whether the request wants a path and whether it has been answered.
  unfoldable pub wakeup_by : Bool → Bool → Waiting → (ℕ → ℕ) → Waiting × (ℕ → ℕ)
  wakeup_by false done q locks =
      (if locks q.node == unlocked then record q { signalled = true } else q, locks)
  wakeup_by true true q locks = (q, locks)
  wakeup_by true false q locks =
      let r = try_get_path name_of true q.wnode q.name q.chain locks in (settle q r.0, r.1)

  unfoldable pub queue_element_wakeup : Waiting → (ℕ → ℕ) → Waiting × (ℕ → ℕ)
  unfolding wakeup_by
  queue_element_wakeup q locks = wakeup_by q.wants_path q.done q locks

  unfoldable pub wake_up_queued : List Waiting → (ℕ → ℕ) → List Waiting × (ℕ → ℕ)
  wake_up_queued [] locks = ([], locks)
  wake_up_queued (q ∷ qs) locks =
      let r = queue_element_wakeup q locks in
      let rest = wake_up_queued qs r.1 in (r.0 ∷ rest.0, rest.1)

  -- `get_path_common` up to the wait: the answer at once, or the longer queue.
  unfoldable pub get_path_common :
      Waiting → List Waiting → (ℕ → ℕ) → (Option Tried × List Waiting) × (ℕ → ℕ)
  get_path_common qe queue locks =
      let r = try_get_path name_of true qe.wnode qe.name qe.chain locks in
      elim r.0 [
        | got p w ↦ ((some (got p w), queue), r.1)
        | refused e ↦
            if e == eagain
            then ((none, queue_path queue qe), r.1)
            else ((some (refused e), queue), r.1)
      ]

  unfoldable pub free_path_wrlock :
      Option ℕ → List ℕ → List Waiting → (ℕ → ℕ) → List Waiting × (ℕ → ℕ)
  free_path_wrlock wnode chain queue locks =
      wake_up_queued queue (unlock_path wnode none chain locks)

  -- A NULL path was never locked.
  abbrev pub free_path : Option (List ℕ) → List ℕ → List Waiting → (ℕ → ℕ) → List Waiting × (ℕ → ℕ)
  free_path none chain queue locks = (queue, locks)
  free_path (some path) chain queue locks = free_path_wrlock none chain queue locks
