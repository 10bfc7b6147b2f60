-- ===== src/Session.antt =====
-- Requests of a session, lib/fuse_lowlevel.c: the lists `se->list` and `se->interrupts`, interrupts,
-- and what `fuse_session_process_buf_internal` does before it calls a handler. A request is named
-- by its address, and `request` is the heap of requests; `live` is false before `calloc` and after
-- `free`. The locks are not modelled; where `find_interrupted` drops `se->lock`, the call is cut in
-- two (`do_interrupt` and `end_interrupt`).
pub mod Refs
pub mod Steps
pub mod Delivery
pub mod Entry
pub mod Switch
pub mod Threads
pub mod Interrupts
mod Tests
use fuse_study.Base.{
  ℕ, Bool, true, false, Option, none, some, List, [], ◌∷◌, ◌++◌, ◌==◌, leb, if◌then◌else◌, ◌-◌, ◌+◌,
  ◌&&◌, ◌||◌, not,
}

-- `u.i.unique` and `u.ni.func` share a union; a request uses one of them only.
pub record Request : Type 0 where
  pub live : Bool
  pub unique : ℕ
  pub i_unique : ℕ
  pub ref_cnt : ℕ
  pub interrupted : Bool
  pub func : Option ℕ

pub record Session : Type 0 where
  pub got_init : Bool
  pub cuse : Bool
  pub deny_others : Bool
  pub owner : ℕ
  pub no_interrupt : Bool
  pub request : ℕ → Request
  pub list : List ℕ
  pub interrupts : List ℕ

abbrev pub set_request : ℕ → Request → Session → Session
set_request a r se = record se { request = λ b. if b == a then r else se.request b }

abbrev pub first_with : (ℕ → Bool) → List ℕ → Option ℕ
first_with p [] = none
first_with p (a ∷ as') = if p a then some a else first_with p as'

-- `list_del_req`; a request in no list is linked to itself, and nothing happens.
abbrev pub list_del_req : ℕ → List ℕ → List ℕ
list_del_req a [] = []
list_del_req a (b ∷ bs) = if b == a then bs else b ∷ list_del_req a bs

-- `list_add_req` in front of the head of a ring, which is at the end of the list.
abbrev pub list_add_req : ℕ → List ℕ → List ℕ
list_add_req a as' = as' ++ a ∷ []

-- `fuse_ll_alloc_req` when `calloc` succeeds, and `req->unique = in->unique`.
unfoldable pub fuse_ll_alloc_req : ℕ → ℕ → Session → Session
fuse_ll_alloc_req a unique se =
    set_request a
      (record {
        live = true;
        unique = unique;
        i_unique = 0;
        ref_cnt = 1;
        interrupted = false;
        func = none;
      })
      se

unfoldable pub destroy_req : ℕ → Session → Session
destroy_req a se = set_request a (record (se.request a) { live = false }) se

-- `--req->ref_cnt`, and the end of the request with the last reference.
unfoldable pub put_req : ℕ → Session → Session
unfolding destroy_req
put_req a se =
    let se' = set_request a (record (se.request a) { ref_cnt = (se.request a).ref_cnt - 1 }) se in
    if (se.request a).ref_cnt - 1 == 0 then destroy_req a se' else se'

-- The field `func` is left alone when interrupts are off.
unfoldable pub fuse_free_req : ℕ → Session → Session
unfolding put_req
fuse_free_req a se =
    if se.no_interrupt
    then put_req a se
    else put_req a (record (set_request a (record (se.request a) { func = none }) se) {
      list = list_del_req a se.list;
      interrupts = list_del_req a se.interrupts;
    })

-- `do_interrupt` of the request `i`, as far as the place where `find_interrupted` drops the lock;
-- then the second part is the request that it holds.
unfoldable pub do_interrupt : ℕ → ℕ → Session → Session × Option ℕ
unfolding destroy_req
do_interrupt i unique se =
    let se' = set_request i (record (se.request i) { i_unique = unique }) se in
    elim (first_with (λ c. (se'.request c).unique == unique) se'.list) [
      | some curr ↦ (
        set_request curr (record (se'.request curr) { ref_cnt = (se'.request curr).ref_cnt + 1 })
            se',
        some curr,
      )
      | none ↦ elim (first_with (λ c. (se'.request c).i_unique == unique) se'.interrupts) [
        | some c ↦ (destroy_req i se', none)
        | none ↦ (record se' { interrupts = list_add_req i se'.interrupts }, none)
      ]
    ]

-- The middle of `find_interrupted`, with the callback that is to be called.
unfoldable pub mark_interrupted : ℕ → Session → Session × Option ℕ
mark_interrupted curr se =
    (set_request curr (record (se.request curr) { interrupted = true }) se, (se.request curr).func)

-- The end of `find_interrupted`, and of `do_interrupt` after it.
unfoldable pub end_interrupt : ℕ → ℕ → Session → Session
unfolding put_req destroy_req
end_interrupt i curr se = destroy_req i (put_req curr se)

-- The end of `check_interrupt`: the oldest interrupt, if there is one.
abbrev pub oldest : Session → List ℕ → Session × Option ℕ
oldest se [] = (se, none)
oldest se (curr ∷ rest) = (record se { interrupts = rest }, some curr)

-- The interrupt that is given back to be answered is in no list any more.
unfoldable pub check_interrupt : ℕ → Session → Session × Option ℕ
unfolding destroy_req
check_interrupt a se =
    elim (first_with (λ c. (se.request c).i_unique == (se.request a).unique) se.interrupts) [
      | some curr ↦
          let se' = set_request a (record (se.request a) { interrupted = true }) se in
          (destroy_req curr (record se' { interrupts = list_del_req curr se'.interrupts }), none)
      | none ↦ oldest se se.interrupts
    ]

-- Between the two locks of `fuse_session_process_buf_internal`, and the answer EAGAIN to an
-- interrupt, which frees it.
unfoldable pub after_check : ℕ → Session × Option ℕ → Session
unfolding fuse_free_req
after_check a (se, none) = record se { list = list_add_req a se.list }
after_check a (se, some i) = fuse_free_req i (record se { list = list_add_req a se.list })

unfoldable pub enter : ℕ → Session → Session
unfolding check_interrupt after_check
enter a se = after_check a (check_interrupt a se)

-- `fuse_req_interrupt_func`; the second part is the callback that is called at once.
unfoldable pub fuse_req_interrupt_func : ℕ → Option ℕ → Session → Session × Option ℕ
fuse_req_interrupt_func a func se = (
  set_request a (record (se.request a) { func = func }) se,
  if (se.request a).interrupted then func else none,
)

abbrev pub fuse_req_interrupted : ℕ → Session → Bool
fuse_req_interrupted a se = (se.request a).interrupted

abbrev pub eio : ℕ
eio = 5

abbrev pub eacces : ℕ
eacces = 13

abbrev pub enosys : ℕ
enosys = 38

abbrev pub fuse_init : ℕ
fuse_init = 26

abbrev pub fuse_interrupt : ℕ
fuse_interrupt = 36

abbrev pub cuse_init : ℕ
cuse_init = 4096

abbrev pub within : ℕ → ℕ → ℕ → Bool
within lo hi op = leb lo op && leb op hi

-- The opcodes that `fuse_ll_ops` has a function for; all are below `FUSE_MAXOP`.
unfoldable pub fuse_ll_ops : ℕ → Bool
fuse_ll_ops op =
    within 1 6 op || (within 8 18 op || (within 20 47 op || ((op == 51) || (op == cuse_init))))

-- FUSE_INIT, FUSE_READ, FUSE_WRITE, FUSE_FSYNC, FUSE_RELEASE, FUSE_READDIR, FUSE_FSYNCDIR,
-- FUSE_RELEASEDIR, FUSE_NOTIFY_REPLY and FUSE_READDIRPLUS, which `allow_root` lets through.
unfoldable pub always_allowed : ℕ → Bool
always_allowed op =
    (op == fuse_init)
    || (within 15 16 op
        || ((op == 18) || ((op == 20) || (within 28 30 op || ((op == 41) || (op == 44))))))

abbrev pub expected : Session → ℕ
expected se = if se.cuse then cuse_init else fuse_init

-- The checks before a request is entered: the error that is answered, or `none`.
unfoldable pub gate : Session → ℕ → ℕ → Option ℕ
unfolding fuse_ll_ops always_allowed
gate se uid op =
    if not se.got_init && not (op == expected se)
    then some eio
    else if se.got_init && ((op == fuse_init) || (op == cuse_init))
    then some eio
    else if se.deny_others && (not (uid == se.owner) && (not (uid == 0) && not (always_allowed op)))
    then some eacces
    else if not (fuse_ll_ops op)
    then some enosys
    else if se.no_interrupt && (op == fuse_interrupt)
    then some enosys
    else none

-- From the allocation to the call of the handler, for a buffer in memory: the request `a` is
-- refused and freed, or handed on; requests other than interrupts are entered.
unfoldable pub process_buf : ℕ → ℕ → ℕ → ℕ → Session → Session × Option ℕ
process_buf a unique uid op se =
    let se' = fuse_ll_alloc_req a unique se in
    elim (gate se' uid op) [
      | some e ↦ (fuse_free_req a se', some e)
      | none ↦
          (if not se'.no_interrupt && not (op == fuse_interrupt) then enter a se' else se', none)
    ]
