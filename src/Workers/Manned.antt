-- ===== src/Workers/Manned.antt =====
-- Who waits for the next request.
use fuse_study.Base.{
  ℕ, Bool, true, false, Option, none, some, List, [], ◌∷◌, ◌≡◌, ◌≤◌, ◌<◌, ◌⊎◌, ◌+◌, ◌==◌, ◌&&◌, ltb,
  arith, refl, inl, inr, Bool-cases, if_cases, if◌then◌else◌, length,
}
use fuse_study.Workers.{
  Phase, receiving, serving, returned, Worker, Mt, phase_of, goes, one_less, one_more, retire,
  too_many, fuse_loop_start_thread, received, processed, ends, stop, cancelled, fuse_join_worker,
  first_worker,
}
use fuse_study.Workers.Weights.{
  weight, available, weight-set_phase, weight-list_del_worker, weight-list_add_worker,
}
use fuse_study.Workers.Steps.{
  Step, receives, finishes, leaves, exits, stops, cancels, joins, Reached, started, then_step,
  IsCounted,
}
use fuse_study.Workers.Pool.{Reached-IsCounted}

-- A worker that has ended.
abbrev pub gone : Phase → ℕ
gone receiving = 0
gone (serving isforget) = 0
gone returned = 1

-- A worker that waits for a request, or is at a FORGET.
abbrev pub ready : Phase → ℕ
ready receiving = 1
ready (serving true) = 1
ready (serving false) = 0
ready returned = 0

phase-split : (ph : Phase) → available ph ≡ ready ph + gone ph
phase-split receiving = refl
phase-split (serving true) = refl
phase-split (serving false) = refl
phase-split returned = refl

available-split : (ws : List Worker) → weight available ws ≡ weight ready ws + weight gone ws
available-split [] = refl
available-split (w ∷ ws) = ground (arith, available-split ws, phase-split w.phase)

-- Until the session has exited no worker has ended in the ring.
abbrev AreHere : Mt → Type 0
AreHere mt = (mt.exited ≡ true) ⊎ (weight gone mt.workers ≡ 0)

goes-AreHere :
    (a : ℕ) (old new : Phase) (mt : Mt)
    → phase_of a mt.workers ≡ some old
    → gone new ≡ 0
    → AreHere mt
    → AreHere (goes a new mt)
goes-AreHere a old new mt h stays (inl e) = inl e
goes-AreHere a old new mt h stays (inr e) =
    inr (omega (arith, weight-set_phase gone a old new mt.workers h, stays, e))

start-AreHere :
    (created : Bool) (new : ℕ) (mt : Mt)
    → AreHere mt
    → AreHere (fuse_loop_start_thread created new mt)
unfolding fuse_loop_start_thread
start-AreHere true new mt (inl e) = inl e
start-AreHere true new mt (inr e) =
    inr (omega (arith, weight-list_add_worker gone new mt.workers, e))
start-AreHere false new mt s = s

one_less-AreHere : (isforget : Bool) (mt : Mt) → AreHere mt → AreHere (one_less isforget mt)
one_less-AreHere true mt s = s
one_less-AreHere false mt s = s

one_less-phase_of :
    (isforget : Bool) (a : ℕ) (mt : Mt) (ph : Option Phase)
    → phase_of a mt.workers ≡ ph
    → phase_of a (one_less isforget mt).workers ≡ ph
one_less-phase_of true a mt ph h = h
one_less-phase_of false a mt ph h = h

received-AreHere :
    (lucky created : Bool) (new : ℕ) (isforget : Bool) (a : ℕ) (mt : Mt)
    → IsCounted lucky mt
    → phase_of a mt.workers ≡ some receiving
    → AreHere mt
    → AreHere (received created new isforget a mt)
unfolding received
received-AreHere lucky created new isforget a mt c h s =
    let less = one_less isforget mt in
    let busy = goes a (serving isforget) less in
    let here : AreHere busy =
      goes-AreHere a receiving (serving isforget) less
        (one_less-phase_of isforget a mt (some receiving) h) refl
        (one_less-AreHere isforget mt s) in
    if_cases AreHere mt.exit (goes a returned mt)
      (if (busy.numavail == 0) && ltb busy.numworker busy.max_threads
        then fuse_loop_start_thread created new busy
        else busy)
      (λ e. inl (ground (arith, c.stopped, e)))
      (λ e.
        if_cases AreHere ((busy.numavail == 0) && ltb busy.numworker busy.max_threads)
          (fuse_loop_start_thread created new busy) busy (λ m. start-AreHere created new busy here)
          (λ m. here))

one_more-AreHere : (isforget : Bool) (mt : Mt) → AreHere mt → AreHere (one_more isforget mt)
one_more-AreHere true mt s = s
one_more-AreHere false mt s = s

one_more-phase_of :
    (isforget : Bool) (a : ℕ) (mt : Mt) (ph : Option Phase)
    → phase_of a mt.workers ≡ ph
    → phase_of a (one_more isforget mt).workers ≡ ph
one_more-phase_of true a mt ph h = h
one_more-phase_of false a mt ph h = h

one_more-exited :
    (isforget : Bool) (mt : Mt)
    → (mt.exit ≡ false) ⊎ (mt.exited ≡ true)
    → (one_more isforget mt).exit ≡ true
    → (one_more isforget mt).exited ≡ true
one_more-exited true mt s e = ground (arith, s, e)
one_more-exited false mt s e = ground (arith, s, e)

retire-AreHere :
    (a : ℕ) (old : Phase) (mt : Mt)
    → phase_of a mt.workers ≡ some old
    → AreHere mt
    → AreHere (retire a mt)
retire-AreHere a old mt h (inl e) = inl e
retire-AreHere a old mt h (inr e) =
    inr (omega (arith, weight-list_del_worker gone a old mt.workers h, e))

processed-AreHere :
    (lucky isforget : Bool) (a : ℕ) (mt : Mt)
    → IsCounted lucky mt
    → phase_of a mt.workers ≡ some (serving isforget)
    → AreHere mt
    → AreHere (processed isforget a mt)
unfolding processed
processed-AreHere lucky isforget a mt c h s =
    let idle = one_more isforget mt in
    let h' = one_more-phase_of isforget a mt (some (serving isforget)) h in
    let s' = one_more-AreHere isforget mt s in
    if_cases AreHere (too_many idle.max_idle idle.numavail idle.numworker)
      (if idle.exit then goes a returned idle else retire a idle) (goes a receiving idle)
      (λ m.
        if_cases AreHere idle.exit (goes a returned idle) (retire a idle)
          (λ e. inl (one_more-exited isforget mt c.stopped e))
          (λ e. retire-AreHere a (serving isforget) idle h' s'))
      (λ m. goes-AreHere a (serving isforget) receiving idle h' refl s')

step-AreHere :
    (lucky : Bool) (mt mt' : Mt) → Step lucky mt mt' → IsCounted lucky mt → AreHere mt → AreHere mt'
unfolding ends stop cancelled fuse_join_worker
step-AreHere lucky mt _ (receives created new isforget a h free able) c s =
    received-AreHere lucky created new isforget a mt c h s
step-AreHere lucky mt _ (finishes isforget a h) c s = processed-AreHere lucky isforget a mt c h s
step-AreHere lucky mt _ (leaves none a h) c s = inl refl
step-AreHere lucky mt _ (leaves (some e) a h) c s = inl refl
step-AreHere lucky mt _ (exits h) c s = inl refl
step-AreHere lucky mt _ (stops h k) c s = inl h
step-AreHere lucky mt _ (cancels a k h) c s = inl (ground (arith, c.stopped, k))
step-AreHere lucky mt _ (joins a k first h) c s = inl (ground (arith, c.stopped, k))

Reached-AreHere : (lucky : Bool) (mt : Mt) → Reached lucky mt → AreHere mt
unfolding first_worker fuse_loop_start_thread
Reached-AreHere lucky _ (started a max_idle max_threads) = inr refl
Reached-AreHere lucky mt (then_step {mt = before} r step) =
    step-AreHere lucky before mt step (Reached-IsCounted lucky before r)
      (Reached-AreHere lucky before r)

no_length : (l : List ℕ) → (l ≡ []) → length l ≡ 0
no_length l e = rw e refl

-- The counters are right; and somebody waits for the next request, or is at a FORGET,
-- unless the session has exited, the pool is at its limit, threads may not be created, or
-- idle threads are not kept at all.
pub record IsSound (lucky : Bool) (mt : Mt) : Type 0 where
  pub counted : IsCounted lucky mt
  pub manned :
      (mt.exited ≡ true)
      ⊎ ((0 < weight ready mt.workers)
          ⊎ ((mt.max_threads ≤ mt.numworker) ⊎ ((lucky ≡ false) ⊎ (mt.max_idle ≡ some 0))))

-- In every order of the threads' steps the pool is sound: `numworker` and `numavail` count what they
-- are meant to, there are never more workers than `max_threads` (or one), no worker is in the ring
-- twice or freed while it is in it, and, until the session has exited, a worker waits for the next
-- request or is at work on a FORGET, unless the pool is at its limit, a thread could not be created,
-- or `max_idle` is 0.
pub Reached-IsSound : (lucky : Bool) (mt : Mt) → Reached lucky mt → IsSound lucky mt
Reached-IsSound lucky mt r =
    let c = Reached-IsCounted lucky mt r in
    record {
      counted = c;
      manned = elim (Reached-AreHere lucky mt r) [
        | inl e ↦ inl e
        | inr here ↦ elim (Bool-cases mt.exited) [
          | inl e ↦ inl e
          | inr runs ↦
              let apart = available-split mt.workers in
              let empty = no_length mt.joined in
              ground
                (arith, c.staffed, c.stopped, c.joined_last, c.numavail, runs, here, apart, empty)
        ]
      ];
    }
