-- ===== src/Session/Tests.antt =====
-- Runs of requests and interrupts of a session, and the theorems at concrete sessions.
use fuse_study.Base.{ℕ, true, false, Option, none, some, [], ◌≡◌, ◌⊎◌, ◌<◌, refl, arith}
use fuse_study.Session.{
  Request, Session, fuse_ll_alloc_req, do_interrupt, mark_interrupted, end_interrupt, enter,
  after_check, check_interrupt, process_buf, gate, fuse_req_interrupted, destroy_req, put_req,
  fuse_free_req, fuse_ll_ops, always_allowed, eacces, eio,
}
use fuse_study.Session.Refs.{count, total}
use fuse_study.Session.Threads.{
  Reach, here, next, processes, IsNew, reachable-counted, IsNew-IsSound,
}
use fuse_study.Session.Interrupts.{interrupt-first, interrupt-later}

abbrev free_slot : Request
free_slot = record {
  live = false;
  unique = 0;
  i_unique = 0;
  ref_cnt = 0;
  interrupted = false;
  func = none;
}

abbrev fresh_session : Session
fresh_session = record {
  got_init = true;
  cuse = false;
  deny_others = true;
  owner = 1000;
  no_interrupt = false;
  request = λ a. free_slot;
  list = [];
  interrupts = [];
}

fresh-IsNew : IsNew fresh_session
fresh-IsNew = record {
  unused = λ a. refl;
  no_list = refl;
  no_interrupts = refl;
  interrupts_on = refl;
}

-- A foreign user may not look up a name, and may read an open file.
lookup_run : gate fresh_session 1001 1 ≡ some eacces
unfolding gate fuse_ll_ops always_allowed
lookup_run = refl

init_run : gate fresh_session 1000 26 ≡ some eio
unfolding gate fuse_ll_ops always_allowed
init_run = refl

-- A request, its interrupt, and the answer while the interrupt is under way.
abbrev started : Session
started = (process_buf 5 70 1000 15 fresh_session).0

abbrev interrupting : Session × Option ℕ
interrupting = do_interrupt 6 70 (fuse_ll_alloc_req 6 71 started)

abbrev answered : Session
answered = fuse_free_req 5 (mark_interrupted 5 interrupting.0).0

holder_run : interrupting.1 ≡ some 5
unfolding process_buf gate fuse_ll_ops always_allowed fuse_ll_alloc_req enter after_check
    check_interrupt do_interrupt
holder_run = refl

-- The request outlives its answer, since the interrupt still holds it.
alive_run :
    ((answered.request 5).live ≡ true) × (((end_interrupt 6 5 answered).request 5).live ≡ false)
unfolding process_buf gate fuse_ll_ops always_allowed fuse_ll_alloc_req enter after_check
    check_interrupt do_interrupt mark_interrupted fuse_free_req put_req destroy_req end_interrupt
alive_run = (refl, refl)

started-Reach : Reach fresh_session [] started []
started-Reach = next here (processes 5 70 1000 15 refl refl)

reachable-counted_example :
    (((started.request 5).live ≡ true)
      × ((started.request 5).ref_cnt ≡ total 5 started [])
      × (0 < total 5 started []))
    ⊎ (((started.request 5).live ≡ false) × (total 5 started [] ≡ 0))
reachable-counted_example = reachable-counted 5 fresh-IsNew started-Reach

unused_run : ((do_interrupt 6 70 (fuse_ll_alloc_req 6 71 fresh_session)).0.request 5).live ≡ false
unfolding do_interrupt fuse_ll_alloc_req
unused_run = refl

interrupt-first_example :
    fuse_req_interrupted 5 (
      enter 5 (fuse_ll_alloc_req 5 70 (do_interrupt 6 70 (fuse_ll_alloc_req 6 71 fresh_session)).0))
    ≡ true
interrupt-first_example =
    interrupt-first fresh_session [] (IsNew-IsSound fresh_session fresh-IsNew) 6 70 71 refl
      (λ b h. absurd (omega arith)) 5 unused_run

entered_run : ((started.request 5).unique ≡ 70) × (0 < count 5 started.list)
unfolding process_buf gate fuse_ll_ops always_allowed fuse_ll_alloc_req enter after_check
    check_interrupt
entered_run = (refl, omega arith)

not_listed_run : count 6 started.list ≡ 0
unfolding process_buf gate fuse_ll_ops always_allowed fuse_ll_alloc_req enter after_check
    check_interrupt
not_listed_run = refl

interrupt-later_example :
    (c : ℕ) × ((do_interrupt 6 70 (fuse_ll_alloc_req 6 71 started)).1 ≡ some c)
    × (0 < count c started.list)
    × ((started.request c).unique ≡ 70)
    × (fuse_req_interrupted c
          (mark_interrupted c (do_interrupt 6 70 (fuse_ll_alloc_req 6 71 started)).0).0
        ≡ true)
interrupt-later_example =
    interrupt-later started 6 5 70 71 entered_run.0 entered_run.1 not_listed_run
