-- ===== src/Workers/Steps.antt =====
-- The threads of a session, step by step.
use fuse_study.Base.{
  ℕ, Bool, true, false, Option, none, some, List, [], ◌∷◌, ◌==◌, ◌≡◌, ◌≤◌, ◌<◌, ◌⊎◌, ◌+◌, arith,
  refl, if◌then◌else◌, Bool-cases, inl, inr, length,
}
use fuse_study.Workers.{
  Phase, receiving, serving, returned, Worker, Mt, phase_of, set_phase, list_add_worker,
  list_del_worker, received, processed, ends, stop, cancelled, fuse_join_worker, first_worker,
}
use fuse_study.Workers.Weights.{weight, every, available}

abbrev pub first_address : List Worker → Option ℕ
first_address [] = none
first_address (w ∷ ws) = some w.address

-- A new worker has an address that is not in use. With `lucky`, threads can always be created. The
-- session may be told to exit at any time, and then the main thread stops the workers and joins them
-- from the head of the ring.
pub data Step (lucky : Bool) (mt : Mt) : Mt → Type 0 where
  receives :
      (created : Bool) (new : ℕ) (isforget : Bool) (a : ℕ)
      → phase_of a mt.workers ≡ some receiving
      → phase_of new mt.workers ≡ none
      → (lucky ≡ false) ⊎ (created ≡ true)
      → Step lucky mt (received created new isforget a mt)
  finishes :
      (isforget : Bool) (a : ℕ)
      → phase_of a mt.workers ≡ some (serving isforget)
      → Step lucky mt (processed isforget a mt)
  leaves :
      (e : Option ℕ) (a : ℕ) → phase_of a mt.workers ≡ some receiving → Step lucky mt (ends e a mt)
  exits : mt.exited ≡ false → Step lucky mt (record mt { exited = true })
  stops : mt.exited ≡ true → mt.exit ≡ false → Step lucky mt (stop mt)
  cancels :
      (a : ℕ)
      → mt.exit ≡ true
      → phase_of a mt.workers ≡ some receiving
      → Step lucky mt (cancelled a mt)
  joins :
      (a : ℕ)
      → mt.exit ≡ true
      → first_address mt.workers ≡ some a
      → phase_of a mt.workers ≡ some returned
      → Step lucky mt (fuse_join_worker a mt)

pub data Reached (lucky : Bool) : Mt → Type 0 where
  started :
      (a : ℕ) (max_idle : Option ℕ) (max_threads : ℕ)
      → Reached lucky (first_worker a max_idle max_threads)
  then_step : {mt mt' : Mt} → Reached lucky mt → Step lucky mt mt' → Reached lucky mt'

abbrev pub occurs : ℕ → List Worker → ℕ
occurs a [] = 0
occurs a (w ∷ ws) = (if w.address == a then 1 else 0) + occurs a ws

abbrev pub count : ℕ → List ℕ → ℕ
count a [] = 0
count a (b ∷ bs) = (if b == a then 1 else 0) + count a bs

pub occurs-set_phase :
    (a b : ℕ) (ph : Phase) (ws : List Worker) → occurs a (set_phase b ph ws) ≡ occurs a ws
occurs-set_phase a b ph [] = refl
occurs-set_phase a b ph (w ∷ ws) = elim (Bool-cases (w.address == b)) [
  | inl e ↦ rw e refl
  | inr e ↦ rw (e, occurs-set_phase a b ph ws) refl
]

pub occurs-list_del_worker :
    (a b : ℕ) (ph : Phase) (ws : List Worker)
    → phase_of b ws ≡ some ph
    → occurs a (list_del_worker b ws) + (if b == a then 1 else 0) ≡ occurs a ws
occurs-list_del_worker a b ph [] h = ground arith
occurs-list_del_worker a b ph (w ∷ ws) h = ground (arith, occurs-list_del_worker a b ph ws)

pub occurs-list_add_worker :
    (a b : ℕ) (ws : List Worker)
    → occurs a (list_add_worker b ws) ≡ occurs a ws + (if b == a then 1 else 0)
occurs-list_add_worker a b [] = ground arith
occurs-list_add_worker a b (w ∷ ws) = ground (arith, occurs-list_add_worker a b ws)

pub phase_of-none : (a : ℕ) (ws : List Worker) → phase_of a ws ≡ none → occurs a ws ≡ 0
phase_of-none a [] h = refl
phase_of-none a (w ∷ ws) h = ground (arith, phase_of-none a ws)

-- The counters of the pool are the numbers of its workers, where those that the main thread has
-- joined are still counted; the workers are stopped only after the session has exited; no worker is
-- in the ring twice, or in it and freed. `numavail` counts workers that have ended, too.
pub record IsCounted (lucky : Bool) (mt : Mt) : Type 0 where
  pub numworker : mt.numworker ≡ weight every mt.workers + length mt.joined
  pub numavail : mt.numavail ≡ weight available mt.workers + length mt.joined
  pub bounded : (mt.numworker ≤ 1) ⊎ (mt.numworker ≤ mt.max_threads)
  pub staffed :
      (mt.exit ≡ true)
      ⊎ ((0 < mt.numavail)
          ⊎ ((mt.max_threads ≤ mt.numworker) ⊎ ((lucky ≡ false) ⊎ (mt.max_idle ≡ some 0))))
  pub once : (a : ℕ) → occurs a mt.workers + count a mt.joined ≤ 1
  pub stopped : (mt.exit ≡ false) ⊎ (mt.exited ≡ true)
  pub joined_last : (mt.exit ≡ true) ⊎ (mt.joined ≡ [])
