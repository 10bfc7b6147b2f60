-- ===== src/Workers/Ending.antt =====
-- The end of the pool.
use fuse_study.Base.{
  ℕ, Bool, true, false, none, some, List, [], ◌∷◌, ◌≡◌, ◌<◌, ◌⊎◌, ◌+◌, arith, refl, inl, inr,
  if_cases, ap, ◌∙◌,
}
use fuse_study.Workers.{
  Phase, receiving, serving, returned, Worker, Mt, phase_of, goes, too_many, one_more, received,
  processed, ends, cancelled, fuse_join_worker,
}
use fuse_study.Workers.Weights.{weight, distance, weight-set_phase, weight-list_del_worker}
use fuse_study.Workers.Steps.{
  first_address, Step, receives, finishes, leaves, exits, stops, cancels, joins, Reached, IsCounted,
}
use fuse_study.Workers.Pool.{Reached-IsCounted}

-- What the workers have still to do.
abbrev pub to_go : Mt → ℕ
to_go mt = weight distance mt.workers

goes-to_go :
    (a : ℕ) (old new : Phase) (mt : Mt)
    → phase_of a mt.workers ≡ some old
    → distance new < distance old
    → to_go (goes a new mt) < to_go mt
goes-to_go a old new mt h less =
    omega (arith, weight-set_phase distance a old new mt.workers h, less)

received-to_go :
    (created : Bool) (new : ℕ) (isforget : Bool) (a : ℕ) (mt : Mt)
    → mt.exit ≡ true
    → phase_of a mt.workers ≡ some receiving
    → to_go (received created new isforget a mt) < to_go mt
unfolding received
received-to_go created new isforget a mt ended h =
    if_cases (λ (m : Mt). to_go m < to_go mt) mt.exit _ _
      (λ e. goes-to_go a receiving returned mt h (omega arith)) (λ e. ground (arith, e, ended))

still : (isforget : Bool) (mt : Mt) → (one_more isforget mt).exit ≡ mt.exit
still true mt = refl
still false mt = refl

given :
    (isforget : Bool) (a : ℕ) (new : Phase) (mt : Mt)
    → phase_of a mt.workers ≡ some (serving isforget)
    → distance new < 3
    → to_go (goes a new (one_more isforget mt)) < to_go mt
given true a new mt h less = goes-to_go a (serving true) new mt h less
given false a new mt h less =
    goes-to_go a (serving false) new (record mt { numavail = mt.numavail + 1 }) h less

processed-to_go :
    (isforget : Bool) (a : ℕ) (mt : Mt)
    → mt.exit ≡ true
    → phase_of a mt.workers ≡ some (serving isforget)
    → to_go (processed isforget a mt) < to_go mt
unfolding processed
processed-to_go isforget a mt ended h =
    let idle = one_more isforget mt in
    if_cases (λ (m : Mt). to_go m < to_go mt) (too_many idle.max_idle idle.numavail idle.numworker)
      _ _
      (λ many.
        if_cases (λ (m : Mt). to_go m < to_go mt) idle.exit _ _
          (λ e. given isforget a returned mt h (omega arith))
          (λ e. ground (arith, e, ended, still isforget mt)))
      (λ few. given isforget a receiving mt h (omega arith))

step-to_go :
    (lucky : Bool) (mt mt' : Mt)
    → IsCounted lucky mt
    → mt.exit ≡ true
    → Step lucky mt mt'
    → to_go mt' < to_go mt
unfolding cancelled fuse_join_worker ends
step-to_go lucky mt _ s ended (receives created new isforget a h free able) =
    received-to_go created new isforget a mt ended h
step-to_go lucky mt _ s ended (finishes isforget a h) = processed-to_go isforget a mt ended h
step-to_go lucky mt _ s ended (leaves none a h) =
    goes-to_go a receiving returned (record mt { finish = mt.finish + 1 }) h (omega arith)
step-to_go lucky mt _ s ended (leaves (some e) a h) =
    goes-to_go a receiving returned (record mt { finish = mt.finish + 1; exited = true; error = e })
      h (omega arith)
step-to_go lucky mt _ s ended (exits k) = ground (arith, k, ended, s.stopped)
step-to_go lucky mt _ s ended (stops h k) = ground (arith, k, ended)
step-to_go lucky mt _ s ended (cancels a k h) = goes-to_go a receiving returned mt h (omega arith)
step-to_go lucky mt _ s ended (joins a k first h) =
    omega (arith, weight-list_del_worker distance a returned mt.workers h)

phase_of-first : (w : Worker) (ws : List Worker) → phase_of w.address (w ∷ ws) ≡ some w.phase
phase_of-first w ws = ground arith

-- The first worker of the ring can always go on, or be joined.
module _ (lucky : Bool) (mt : Mt) (ended : mt.exit ≡ true) where
  phase-Step :
      (a : ℕ) (ph : Phase)
      → first_address mt.workers ≡ some a
      → phase_of a mt.workers ≡ some ph
      → (mt' : Mt) × Step lucky mt mt'
  phase-Step a receiving first h = (cancelled a mt, cancels a ended h)
  phase-Step a (serving isforget) first h = (processed isforget a mt, finishes isforget a h)
  phase-Step a returned first h = (fuse_join_worker a mt, joins a ended first h)

  ring-Step : (ws : List Worker) → mt.workers ≡ ws → (ws ≡ []) ⊎ ((mt' : Mt) × Step lucky mt mt')
  ring-Step [] e = inl refl
  ring-Step (w ∷ ws) e = inr (
      phase-Step w.address w.phase (ap first_address e)
        (ap (phase_of w.address) e ∙ phase_of-first w ws))

ring :
    (lucky : Bool) (mt : Mt) → mt.exit ≡ true → (mt.workers ≡ []) ⊎ ((mt' : Mt) × Step lucky mt mt')
ring lucky mt ended = ring-Step lucky mt ended mt.workers refl

-- Once the main thread has stopped the workers, whatever they are doing, every step brings the pool
-- nearer to its end, and until all workers have been joined there is a step: so the loop of
-- `fuse_session_loop_mt` over the ring ends, when the handlers return.
pub Reached-ends :
    (lucky : Bool) (mt : Mt)
    → Reached lucky mt
    → mt.exit ≡ true
    → ((mt.workers ≡ []) ⊎ ((mt' : Mt) × Step lucky mt mt'))
      × ((mt' : Mt) → Step lucky mt mt' → to_go mt' < to_go mt)
Reached-ends lucky mt r ended = (
  ring lucky mt ended,
  λ mt' step. step-to_go lucky mt mt' (Reached-IsCounted lucky mt r) ended step,
)
