-- ===== src/Workers/Receiving.antt =====
-- A request that comes in: the worker is taken, and another may be started.
use fuse_study.Base.{
  ℕ, Bool, true, false, none, some, [], ◌==◌, ◌≡◌, ◌≤◌, ◌<◌, ◌⊎◌, ◌+◌, ◌-◌, ◌&&◌, arith, refl,
  if◌then◌else◌, inl, inr, length, ltb, if_cases, ap, ◌∙◌,
}
use fuse_study.Workers.{
  Phase, receiving, serving, returned, Mt, phase_of, goes, one_less, fuse_loop_start_thread,
  received,
}
use fuse_study.Workers.Weights.{weight, every, available, weight-set_phase, weight-list_add_worker}
use fuse_study.Workers.Steps.{
  occurs, occurs-set_phase, occurs-list_add_worker, phase_of-none, IsCounted,
}

module _ (lucky : Bool) (mt : Mt) (s : IsCounted lucky mt) (a : ℕ) where
  -- The thread goes on where it counts as much as before.
  pub goes-IsCounted :
      (old new : Phase)
      → phase_of a mt.workers ≡ some old
      → available old ≡ available new
      → IsCounted lucky (goes a new mt)
  goes-IsCounted old new h same = record {
    numworker = omega (arith, s.numworker, weight-set_phase every a old new mt.workers h);
    numavail = omega (arith, s.numavail, weight-set_phase available a old new mt.workers h, same);
    bounded = s.bounded;
    staffed = s.staffed;
    once = λ b. omega (arith, s.once b, occurs-set_phase b a new mt.workers);
    stopped = s.stopped;
    joined_last = s.joined_last;
  }

  -- A request that is no FORGET takes a worker from those that are available.
  module _ (h : phase_of a mt.workers ≡ some receiving) (runs : mt.exit ≡ false) where
    unfoldable busy : Mt
    busy = goes a (serving false) (record mt { numavail = mt.numavail - 1 })

    none_joined : mt.joined ≡ []
    none_joined = ground (arith, s.joined_last, runs)

    busy-numavail : busy.numavail ≡ weight available busy.workers + length mt.joined
    unfolding busy
    busy-numavail =
        omega
          (arith, s.numavail, weight-set_phase available a receiving (serving false) mt.workers h)

    busy-IsCounted :
        (0 < busy.numavail) ⊎ (busy.max_threads ≤ busy.numworker) ⊎ (lucky ≡ false)
        → IsCounted lucky busy
    unfolding busy
    busy-IsCounted enough = record {
      numworker =
          omega
            (arith, s.numworker, weight-set_phase every a receiving (serving false) mt.workers h);
      numavail = busy-numavail;
      bounded = s.bounded;
      staffed = ground (arith, enough);
      once = λ b. omega (arith, s.once b, occurs-set_phase b a (serving false) mt.workers);
      stopped = s.stopped;
      joined_last = s.joined_last;
    }

-- Where somebody is available, the rest is what matters.
pub staffed-IsCounted :
    (lucky : Bool) (mt : Mt)
    → IsCounted false mt
    → (0 < mt.numavail) ⊎ ((mt.max_threads ≤ mt.numworker) ⊎ (lucky ≡ false))
    → IsCounted lucky mt
staffed-IsCounted lucky mt s enough = record {
  numworker = s.numworker;
  numavail = s.numavail;
  bounded = s.bounded;
  staffed = ground (arith, enough);
  once = s.once;
  stopped = s.stopped;
  joined_last = s.joined_last;
}

pub any-IsCounted : (lucky : Bool) (mt : Mt) → IsCounted lucky mt → IsCounted false mt
any-IsCounted lucky mt s = record {
  numworker = s.numworker;
  numavail = s.numavail;
  bounded = s.bounded;
  staffed = inr (inr (inr (inl refl)));
  once = s.once;
  stopped = s.stopped;
  joined_last = s.joined_last;
}

start-IsCounted :
    (lucky : Bool) (new : ℕ) (mt : Mt)
    → IsCounted false mt
    → mt.joined ≡ []
    → occurs new mt.workers ≡ 0
    → mt.numworker < mt.max_threads
    → IsCounted lucky (fuse_loop_start_thread true new mt)
unfolding fuse_loop_start_thread
start-IsCounted lucky new mt s empty fresh below = record {
  numworker = omega (arith, s.numworker, weight-list_add_worker every new mt.workers);
  numavail = omega (arith, s.numavail, weight-list_add_worker available new mt.workers);
  bounded = inr (omega (arith, below));
  staffed = inr (inl (omega arith));
  once = λ b. ground (arith, s.once b, occurs-list_add_worker b new mt.workers, fresh, empty);
  stopped = s.stopped;
  joined_last = inr empty;
}

-- The end of the first part under the lock: a thread is started if nobody is available.
topped_up-IsCounted :
    (lucky created : Bool) (new : ℕ) (mt : Mt)
    → IsCounted false mt
    → mt.joined ≡ []
    → occurs new mt.workers ≡ 0
    → (lucky ≡ false) ⊎ (created ≡ true)
    → IsCounted lucky (
        if (mt.numavail == 0) && ltb mt.numworker mt.max_threads
        then fuse_loop_start_thread created new mt
        else mt)
unfolding fuse_loop_start_thread
topped_up-IsCounted lucky created new mt s empty fresh able =
    if_cases (IsCounted lucky) ((mt.numavail == 0) && ltb mt.numworker mt.max_threads) _ mt
      (λ e.
        if_cases (IsCounted lucky) created _ mt
          (λ c. start-IsCounted lucky new mt s empty fresh (ground (arith, e)))
          (λ c. staffed-IsCounted lucky mt s (ground (arith, able, c))))
      (λ e. staffed-IsCounted lucky mt s (ground (arith, e)))

-- A FORGET leaves its worker available.
pub taken-IsCounted :
    (isforget : Bool) (a : ℕ) (mt : Mt)
    → IsCounted false mt
    → phase_of a mt.workers ≡ some receiving
    → mt.exit ≡ false
    → IsCounted false (goes a (serving isforget) (one_less isforget mt))
unfolding busy
taken-IsCounted true a mt s h runs = goes-IsCounted false mt s a receiving (serving true) h refl
taken-IsCounted false a mt s h runs = busy-IsCounted false mt s a h runs (inr (inr refl))

one_less-joined : (isforget : Bool) (mt : Mt) → (one_less isforget mt).joined ≡ mt.joined
one_less-joined true mt = refl
one_less-joined false mt = refl

one_less-workers : (isforget : Bool) (mt : Mt) → (one_less isforget mt).workers ≡ mt.workers
one_less-workers true mt = refl
one_less-workers false mt = refl

pub received-IsCounted :
    (lucky created : Bool) (new : ℕ) (isforget : Bool) (a : ℕ) (mt : Mt)
    → IsCounted lucky mt
    → phase_of a mt.workers ≡ some receiving
    → phase_of new mt.workers ≡ none
    → (lucky ≡ false) ⊎ (created ≡ true)
    → IsCounted lucky (received created new isforget a mt)
unfolding received
received-IsCounted lucky created new isforget a mt s h free able =
    if_cases (IsCounted lucky) mt.exit _ _
      (λ e. goes-IsCounted lucky mt s a receiving returned h refl)
      (λ e.
        topped_up-IsCounted lucky created new (goes a (serving isforget) (one_less isforget mt))
          (taken-IsCounted isforget a mt (any-IsCounted lucky mt s) h e)
          (one_less-joined isforget mt ∙ none_joined lucky mt s a h e)
          (occurs-set_phase new a (serving isforget) (one_less isforget mt).workers
            ∙ ap (occurs new) (one_less-workers isforget mt)
            ∙ phase_of-none new mt.workers free)
          able)
