-- ===== src/Workers/Tests.antt =====
-- Runs of the pool, and the theorems at a concrete one.
use fuse_study.Base.{true, false, some, [], ◌≡◌, ◌<◌, ◌⊎◌, refl, inr}
use fuse_study.Workers.{Mt, first_worker, fuse_loop_start_thread, received, processed, stop}
use fuse_study.Workers.Steps.{Step, Reached, started, then_step, receives, exits, stops}
use fuse_study.Workers.Manned.{IsSound, Reached-IsSound}
use fuse_study.Workers.Ending.{Reached-ends, to_go}

-- Two idle threads are kept, and there may be ten.
abbrev begun : Mt
begun = first_worker 1 (some 1) 10

-- The first request starts a second thread, at the address 2.
abbrev one_busy : Mt
one_busy = received true 2 false 1 begun

busy_test : (one_busy.numworker ≡ 2) × (one_busy.numavail ≡ 1)
unfolding first_worker fuse_loop_start_thread received
busy_test = (refl, refl)

-- When the request is done, one of the two is one too many.
done_test :
    ((processed false 1 one_busy).numworker ≡ 1) × ((processed false 1 one_busy).numavail ≡ 1)
unfolding first_worker fuse_loop_start_thread received processed
done_test = (refl, refl)

one_reached : Reached true one_busy
unfolding first_worker fuse_loop_start_thread
one_reached = then_step (started 1 (some 1) 10) (receives true 2 false 1 refl refl (inr refl))

Reached-IsSound_example : IsSound true one_busy
Reached-IsSound_example = Reached-IsSound true one_busy one_reached

abbrev stopped : Mt
stopped = stop (record one_busy { exited = true })

stopped_reached : Reached true stopped
unfolding first_worker fuse_loop_start_thread received
stopped_reached = then_step (then_step one_reached (exits refl)) (stops refl refl)

stopped_exit : stopped.exit ≡ true
unfolding stop
stopped_exit = refl

Reached-ends_example :
    ((stopped.workers ≡ []) ⊎ ((mt' : Mt) × Step true stopped mt'))
    × ((mt' : Mt) → Step true stopped mt' → to_go mt' < to_go stopped)
Reached-ends_example = Reached-ends true stopped stopped_reached stopped_exit
