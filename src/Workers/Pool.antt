-- ===== src/Workers/Pool.antt =====
-- Every step keeps the pool sound.
use fuse_study.Base.{
  ℕ, zero, suc, Bool, true, false, Option, none, some, ◌≡◌, ◌<◌, ◌⊎◌, ◌+◌, ◌-◌, arith, refl, inl,
  inr, if_cases, sym,
}
use fuse_study.Workers.{
  Phase, receiving, serving, returned, Mt, phase_of, goes, retire, too_many, one_more,
  fuse_loop_start_thread, processed, ends, stop, cancelled, fuse_join_worker, first_worker,
}
use fuse_study.Workers.Weights.{every, available, weight-set_phase, weight-list_del_worker}
use fuse_study.Workers.Steps.{
  Step, receives, finishes, leaves, exits, stops, cancels, joins, Reached, started, then_step,
  occurs-set_phase, occurs-list_del_worker, IsCounted,
}
use fuse_study.Workers.Receiving.{
  goes-IsCounted, staffed-IsCounted, any-IsCounted, received-IsCounted,
}

-- The worker is available again, and its request done.
given-IsCounted :
    (isforget : Bool) (a : ℕ) (ph : Phase) (mt : Mt)
    → IsCounted false mt
    → phase_of a mt.workers ≡ some (serving isforget)
    → available ph ≡ 1
    → IsCounted false (goes a ph (one_more isforget mt))
given-IsCounted true a ph mt s h one = goes-IsCounted false mt s a (serving true) ph h (sym one)
given-IsCounted false a ph mt s h one = record {
  numworker = omega (arith, s.numworker, weight-set_phase every a (serving false) ph mt.workers h);
  numavail =
      omega (arith, s.numavail, weight-set_phase available a (serving false) ph mt.workers h, one);
  bounded = s.bounded;
  staffed = inr (inr (inr (inl refl)));
  once = λ b. omega (arith, s.once b, occurs-set_phase b a ph mt.workers);
  stopped = s.stopped;
  joined_last = s.joined_last;
}

given-numavail :
    (isforget : Bool) (a : ℕ) (mt : Mt)
    → IsCounted false mt
    → phase_of a mt.workers ≡ some (serving isforget)
    → 0 < (one_more isforget mt).numavail
given-numavail true a mt s h =
    omega (arith, s.numavail, weight-list_del_worker available a (serving true) mt.workers h)
given-numavail false a mt s h = omega arith

-- The worker takes itself out of the ring.
kept_idle :
    (max_idle : Option ℕ) (numavail numworker : ℕ)
    → too_many max_idle numavail numworker ≡ true
    → ((0 < numavail - 1) ⊎ (max_idle ≡ some 0)) × (1 < numworker)
kept_idle none numavail numworker h = ground (arith, h)
kept_idle (some zero) numavail numworker h = (inr refl, ground (arith, h))
kept_idle (some (suc k)) numavail numworker h = (inl (ground (arith, h)), ground (arith, h))

retire-IsCounted :
    (lucky isforget : Bool) (a : ℕ) (mt : Mt)
    → IsCounted lucky mt
    → phase_of a mt.workers ≡ some (serving isforget)
    → (one_more isforget mt).exit ≡ false
    → too_many
        (one_more isforget mt).max_idle
        (one_more isforget mt).numavail
        (one_more isforget mt).numworker
      ≡ true
    → IsCounted lucky (retire a (one_more isforget mt))
retire-IsCounted lucky true a mt s h runs many =
    let ws = mt.workers in
    let kept = kept_idle mt.max_idle mt.numavail mt.numworker many in
    record {
      numworker = omega (arith, s.numworker, weight-list_del_worker every a (serving true) ws h);
      numavail = omega (arith, s.numavail, weight-list_del_worker available a (serving true) ws h);
      bounded = ground (arith, s.bounded);
      staffed = ground (arith, kept.0);
      once = λ b. ground (arith, s.once b, occurs-list_del_worker b a (serving true) ws h);
      stopped = s.stopped;
      joined_last = s.joined_last;
    }
retire-IsCounted lucky false a mt s h runs many =
    let ws = mt.workers in
    let kept = kept_idle mt.max_idle (mt.numavail + 1) mt.numworker many in
    record {
      numworker = omega (arith, s.numworker, weight-list_del_worker every a (serving false) ws h);
      numavail = omega (arith, s.numavail, weight-list_del_worker available a (serving false) ws h);
      bounded = ground (arith, s.bounded);
      staffed = ground (arith, kept.0);
      once = λ b. ground (arith, s.once b, occurs-list_del_worker b a (serving false) ws h);
      stopped = s.stopped;
      joined_last = s.joined_last;
    }

processed-IsCounted :
    (lucky isforget : Bool) (a : ℕ) (mt : Mt)
    → IsCounted lucky mt
    → phase_of a mt.workers ≡ some (serving isforget)
    → IsCounted lucky (processed isforget a mt)
unfolding processed
processed-IsCounted lucky isforget a mt s h =
    let given = λ (ph : Phase) (one : available ph ≡ 1).
      staffed-IsCounted lucky (goes a ph (one_more isforget mt))
        (given-IsCounted isforget a ph mt (any-IsCounted lucky mt s) h one)
        (inl (given-numavail isforget a mt (any-IsCounted lucky mt s) h)) in
    if_cases (IsCounted lucky)
      (too_many (one_more isforget mt).max_idle (one_more isforget mt).numavail
        (one_more isforget mt).numworker)
      _ _
      (λ many.
        if_cases (IsCounted lucky) (one_more isforget mt).exit _ _ (λ e. given returned refl)
          (λ e. retire-IsCounted lucky isforget a mt s h e many))
      (λ few. given receiving refl)

join-IsCounted :
    (lucky : Bool) (a : ℕ) (mt : Mt)
    → IsCounted lucky mt
    → mt.exit ≡ true
    → phase_of a mt.workers ≡ some returned
    → IsCounted lucky (fuse_join_worker a mt)
unfolding fuse_join_worker
join-IsCounted lucky a mt s ended h = record {
  numworker = omega (arith, s.numworker, weight-list_del_worker every a returned mt.workers h);
  numavail = omega (arith, s.numavail, weight-list_del_worker available a returned mt.workers h);
  bounded = s.bounded;
  staffed = inl ended;
  once = λ b. ground (arith, s.once b, occurs-list_del_worker b a returned mt.workers h);
  stopped = s.stopped;
  joined_last = inl ended;
}

-- What else changes is not looked at by the invariant.
untouched-IsCounted :
    (lucky : Bool) (mt : Mt) (exited : Bool) (error finish : ℕ)
    → IsCounted lucky mt
    → (mt.exited ≡ exited) ⊎ (exited ≡ true)
    → IsCounted lucky (record mt { exited = exited; error = error; finish = finish })
untouched-IsCounted lucky mt exited error finish s same = record {
  numworker = s.numworker;
  numavail = s.numavail;
  bounded = s.bounded;
  staffed = s.staffed;
  once = s.once;
  stopped = ground (arith, s.stopped, same);
  joined_last = s.joined_last;
}

ends-IsCounted :
    (lucky : Bool) (e : Option ℕ) (a : ℕ) (mt : Mt)
    → IsCounted lucky mt
    → phase_of a mt.workers ≡ some receiving
    → IsCounted lucky (ends e a mt)
unfolding ends
ends-IsCounted lucky none a mt s h =
    goes-IsCounted lucky (record mt { finish = mt.finish + 1; exited = true })
      (untouched-IsCounted lucky mt true mt.error (mt.finish + 1) s (inr refl)) a receiving returned
      h refl
ends-IsCounted lucky (some e) a mt s h =
    goes-IsCounted lucky (record mt { finish = mt.finish + 1; exited = true; error = e })
      (untouched-IsCounted lucky mt true e (mt.finish + 1) s (inr refl)) a receiving returned h refl

stop-IsCounted :
    (lucky : Bool) (mt : Mt) → IsCounted lucky mt → mt.exited ≡ true → IsCounted lucky (stop mt)
unfolding stop
stop-IsCounted lucky mt s gone = record {
  numworker = s.numworker;
  numavail = s.numavail;
  bounded = s.bounded;
  staffed = inl refl;
  once = s.once;
  stopped = inr gone;
  joined_last = inl refl;
}

first-IsCounted :
    (lucky : Bool) (a : ℕ) (max_idle : Option ℕ) (max_threads : ℕ)
    → IsCounted lucky (first_worker a max_idle max_threads)
unfolding first_worker fuse_loop_start_thread
first-IsCounted lucky a max_idle max_threads = record {
  numworker = omega arith;
  numavail = omega arith;
  bounded = inl (omega arith);
  staffed = inr (inl (omega arith));
  once = λ b. ground arith;
  stopped = inl refl;
  joined_last = inr refl;
}

pub step-IsCounted :
    (lucky : Bool) (mt mt' : Mt) → Step lucky mt mt' → IsCounted lucky mt → IsCounted lucky mt'
unfolding cancelled
step-IsCounted lucky mt _ (receives created new isforget a h free able) s =
    received-IsCounted lucky created new isforget a mt s h free able
step-IsCounted lucky mt _ (finishes isforget a h) s = processed-IsCounted lucky isforget a mt s h
step-IsCounted lucky mt _ (leaves e a h) s = ends-IsCounted lucky e a mt s h
step-IsCounted lucky mt _ (exits h) s =
    untouched-IsCounted lucky mt true mt.error mt.finish s (inr refl)
step-IsCounted lucky mt _ (stops h k) s = stop-IsCounted lucky mt s h
step-IsCounted lucky mt _ (cancels a k h) s = goes-IsCounted lucky mt s a receiving returned h refl
step-IsCounted lucky mt _ (joins a k first h) s = join-IsCounted lucky a mt s k h

pub Reached-IsCounted : (lucky : Bool) (mt : Mt) → Reached lucky mt → IsCounted lucky mt
Reached-IsCounted lucky _ (started a max_idle max_threads) =
    first-IsCounted lucky a max_idle max_threads
Reached-IsCounted lucky mt (then_step {mt = before} r step) =
    step-IsCounted lucky before mt step (Reached-IsCounted lucky before r)
