-- ===== src/Workers.antt =====
-- The worker threads of a session, lib/fuse_loop_mt.c: `fuse_do_work`, `fuse_loop_start_thread`,
-- `fuse_join_worker` and `fuse_session_loop_mt_312`. What a thread does under `mt->lock` is one
-- step. The system calls of a thread are not modelled: whether a thread could be created, and what
-- was received, are arguments.
pub mod Weights
pub mod Steps
pub mod Receiving
pub mod Pool
pub mod Manned
pub mod Ending
mod Tests
use fuse_study.Base.{
  ℕ, zero, suc, Bool, true, false, Option, none, some, List, [], ◌∷◌, ◌++◌, ◌==◌, ltb,
  if◌then◌else◌, ◌-◌, ◌+◌, ◌&&◌, ◌||◌, not,
}

-- Where a worker is in `fuse_do_work`: waiting for a request, working on one, which is a FORGET or
-- not, or at the end of the function.
pub data Phase : Type 0 where
  receiving : Phase
  serving : (isforget : Bool) → Phase
  returned : Phase

-- A worker is named by its address.
pub record Worker : Type 0 where
  pub address : ℕ
  pub phase : Phase

-- `struct fuse_mt`, with the ring at `main` as a list, `exited` of the session, and the workers that
-- `fuse_join_worker` has freed. `max_idle` is `none` for -1.
pub record Mt : Type 0 where
  pub workers : List Worker
  pub numworker : ℕ
  pub numavail : ℕ
  pub exit : Bool
  pub exited : Bool
  pub error : ℕ
  pub finish : ℕ
  pub max_idle : Option ℕ
  pub max_threads : ℕ
  pub joined : List ℕ

abbrev pub phase_of : ℕ → List Worker → Option Phase
phase_of a [] = none
phase_of a (w ∷ ws) = if w.address == a then some w.phase else phase_of a ws

abbrev pub set_phase : ℕ → Phase → List Worker → List Worker
set_phase a ph [] = []
set_phase a ph (w ∷ ws) =
    if w.address == a then record w { phase = ph } ∷ ws else w ∷ set_phase a ph ws

-- `list_add_worker` in front of the head of the ring.
abbrev pub list_add_worker : ℕ → List Worker → List Worker
list_add_worker a ws = ws ++ record { address = a; phase = receiving } ∷ []

abbrev pub list_del_worker : ℕ → List Worker → List Worker
list_del_worker a [] = []
list_del_worker a (w ∷ ws) = if w.address == a then ws else w ∷ list_del_worker a ws

-- The thread `a` goes on to another place.
abbrev pub goes : ℕ → Phase → Mt → Mt
goes a ph mt = record mt { workers = set_phase a ph mt.workers }

-- `fuse_loop_start_thread`; a thread that could not be created leaves nothing behind.
unfoldable pub fuse_loop_start_thread : Bool → ℕ → Mt → Mt
fuse_loop_start_thread created a mt =
    if created
    then record mt {
      workers = list_add_worker a mt.workers;
      numavail = mt.numavail + 1;
      numworker = mt.numworker + 1;
    }
    else mt

-- `if (!isforget) mt->numavail--;`, and its counterpart.
abbrev pub one_less : Bool → Mt → Mt
one_less true mt = mt
one_less false mt = record mt { numavail = mt.numavail - 1 }

abbrev pub one_more : Bool → Mt → Mt
one_more true mt = mt
one_more false mt = record mt { numavail = mt.numavail + 1 }

-- A request has come: the first part under the lock, where `new` is the address of a new worker.
unfoldable pub received : Bool → ℕ → Bool → ℕ → Mt → Mt
received created new isforget a mt =
    let busy = goes a (serving isforget) (one_less isforget mt) in
    if mt.exit
    then goes a returned mt
    else if (busy.numavail == 0) && ltb busy.numworker busy.max_threads
    then fuse_loop_start_thread created new busy
    else busy

-- `mt->max_idle != -1 && mt->numavail > mt->max_idle && mt->numworker > 1`
abbrev pub too_many : Option ℕ → ℕ → ℕ → Bool
too_many none numavail numworker = false
too_many (some max_idle) numavail numworker = ltb max_idle numavail && ltb 1 numworker

-- The worker ends by itself, is taken out of the ring and freed.
abbrev pub retire : ℕ → Mt → Mt
retire a mt = record mt {
  workers = list_del_worker a mt.workers;
  numavail = mt.numavail - 1;
  numworker = mt.numworker - 1;
}

-- The request has been processed: the second part under the lock.
unfoldable pub processed : Bool → ℕ → Mt → Mt
processed isforget a mt =
    let idle = one_more isforget mt in
    if too_many idle.max_idle idle.numavail idle.numworker
    then (if idle.exit then goes a returned idle else retire a idle)
    else goes a receiving idle

-- The end of the loop: the session has exited, or nothing was received (`none`), and then
-- `fuse_session_receive_buf_internal` has found the session exited or made it exit; or an error, which
-- makes the session exit.
unfoldable pub ends : Option ℕ → ℕ → Mt → Mt
ends none a mt = goes a returned (record mt { finish = mt.finish + 1; exited = true })
ends (some e) a mt =
    goes a returned (record mt { finish = mt.finish + 1; exited = true; error = e })

-- The main thread cancels the workers and sets `exit`; a worker that waits for a request is then
-- gone from `fuse_do_work`.
unfoldable pub stop : Mt → Mt
stop mt = record mt { exit = true }

unfoldable pub cancelled : ℕ → Mt → Mt
cancelled a mt = goes a returned mt

unfoldable pub fuse_join_worker : ℕ → Mt → Mt
fuse_join_worker a mt = record mt { workers = list_del_worker a mt.workers; joined = a ∷ mt.joined }

-- The state in which `fuse_session_loop_mt_312` begins, and its first worker.
abbrev pub no_workers : Option ℕ → ℕ → Mt
no_workers max_idle max_threads = record {
  workers = [];
  numworker = 0;
  numavail = 0;
  exit = false;
  exited = false;
  error = 0;
  finish = 0;
  max_idle = max_idle;
  max_threads = max_threads;
  joined = [];
}

unfoldable pub first_worker : ℕ → Option ℕ → ℕ → Mt
unfolding fuse_loop_start_thread
first_worker a max_idle max_threads =
    fuse_loop_start_thread true a (no_workers max_idle max_threads)
