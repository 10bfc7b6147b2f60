-- ===== src/Session/Threads.antt =====
-- The threads of a session as steps: requests come in, are answered and are interrupted, where the
-- two halves of `find_interrupted` are steps of their own.
use fuse_study.Base.{
  ℕ, true, false, Option, [], ◌∷◌, ◌++◌, ◌==◌, ◌≡◌, ◌⊎◌, ◌<◌, ◌+◌, arith, inl, inr, Bool-cases, not,
  Option-cases, if◌then◌else◌, ◌&&◌, subst, sym, ◌∙◌, refl,
}
use fuse_study.Session.{
  Session, fuse_ll_alloc_req, fuse_free_req, do_interrupt, mark_interrupted, end_interrupt, enter,
  fuse_req_interrupt_func, process_buf, gate, fuse_interrupt,
}
use fuse_study.Session.Refs.{joined, count, Holds, total, IsSound}
use fuse_study.Session.Steps.{
  fuse_free_req-IsSound, end_interrupt-IsSound, mark_interrupted-IsSound,
  fuse_req_interrupt_func-IsSound, refused-IsSound,
}
use fuse_study.Session.Switch.{
  fuse_free_req-IsSame, do_interrupt-IsSame, end_interrupt-IsSame, process_buf-IsSame,
}
use fuse_study.Session.Delivery.{do_interrupt-IsSound}
use fuse_study.Session.Entry.{enter-IsSound}

-- A new request has an address that is not in use; a request is answered while it is in the list.
pub data Step : Session → Holds → Session → Holds → Type 0 where
  processes :
      {se : Session} {hs : Holds} (a unique uid op : ℕ)
      → (op == fuse_interrupt) ≡ false
      → (se.request a).live ≡ false
      → Step se hs (process_buf a unique uid op se).0 hs
  interrupts :
      {se : Session} {hs : Holds} (i unique target : ℕ)
      → (se.request i).live ≡ false
      → Step se hs
          (do_interrupt i target (fuse_ll_alloc_req i unique se)).0
          (joined i (do_interrupt i target (fuse_ll_alloc_req i unique se)).1 hs)
  marks : {se : Session} {hs : Holds} (c : ℕ) → Step se hs (mark_interrupted c se).0 hs
  ends :
      {se : Session} {hs : Holds} (i c : ℕ) (pre post : Holds)
      → hs ≡ pre ++ (i, c) ∷ post
      → Step se hs (end_interrupt i c se) (pre ++ post)
  registers :
      {se : Session} {hs : Holds} (a : ℕ) (func : Option ℕ)
      → Step se hs (fuse_req_interrupt_func a func se).0 hs
  answers :
      {se : Session} {hs : Holds} (a : ℕ) → 0 < count a se.list → Step se hs (fuse_free_req a se) hs

pub data Reach (se : Session) (hs : Holds) : Session → Holds → Type 0 where
  here : Reach se hs se hs
  next :
      {se' se'' : Session} {hs' hs'' : Holds}
      → Reach se hs se' hs'
      → Step se' hs' se'' hs''
      → Reach se hs se'' hs''

process_buf-IsSound :
    (se : Session) (hs : Holds) (a unique uid op : ℕ)
    → IsSound se hs
    → se.no_interrupt ≡ false
    → (op == fuse_interrupt) ≡ false
    → (se.request a).live ≡ false
    → IsSound (process_buf a unique uid op se).0 hs
unfolding process_buf
process_buf-IsSound se hs a unique uid op s on other fresh =
    let se' = fuse_ll_alloc_req a unique se in
    let on' : se'.no_interrupt ≡ false = unfold fuse_ll_alloc_req in on in
    let entered : (not se'.no_interrupt && not (op == fuse_interrupt)) ≡ true =
      ground (arith, on', other) in
    elim (Option-cases (gate se' uid op)) [
      | inr (e, g) ↦ rw (g, process_buf) (refused-IsSound se hs s a unique fresh on)
      | inl g ↦
          rw (g, process_buf)
            (subst (λ t. IsSound (if t then enter a se' else se') hs) (sym entered)
              (enter-IsSound se hs s a unique on fresh))
    ]

Step-no_interrupt :
    {se se' : Session} {hs hs' : Holds} → Step se hs se' hs' → se'.no_interrupt ≡ se.no_interrupt
unfolding mark_interrupted fuse_req_interrupt_func fuse_ll_alloc_req
Step-no_interrupt {se} (processes a unique uid op other fresh) =
    process_buf-IsSame a unique uid op se
Step-no_interrupt {se} (interrupts i unique target fresh) =
    do_interrupt-IsSame i target (fuse_ll_alloc_req i unique se)
Step-no_interrupt (marks c) = refl
Step-no_interrupt {se} (ends i c pre post e) = end_interrupt-IsSame i c se
Step-no_interrupt (registers a func) = refl
Step-no_interrupt {se} (answers a h) = fuse_free_req-IsSame a se

Step-IsSound :
    {se se' : Session} {hs hs' : Holds}
    → Step se hs se' hs'
    → se.no_interrupt ≡ false
    → IsSound se hs
    → IsSound se' hs'
Step-IsSound {se} {hs = hs} (processes a unique uid op other fresh) on s =
    process_buf-IsSound se hs a unique uid op s on other fresh
Step-IsSound {se} {hs = hs} (interrupts i unique target fresh) on s =
    do_interrupt-IsSound se hs s i target unique fresh
Step-IsSound {se} {hs = hs} (marks c) on s = mark_interrupted-IsSound se hs s c
Step-IsSound {se} {hs = hs} (ends i c pre post e) on s =
    end_interrupt-IsSound se hs s pre post i c e
Step-IsSound {se} {hs = hs} (registers a func) on s = fuse_req_interrupt_func-IsSound se hs s a func
Step-IsSound {se} {hs = hs} (answers a h) on s = fuse_free_req-IsSound se hs s a on h

Reach-IsSound :
    {se : Session} {hs : Holds} {se' : Session} {hs' : Holds}
    → Reach se hs se' hs'
    → se.no_interrupt ≡ false
    → IsSound se hs
    → (se'.no_interrupt ≡ false) × IsSound se' hs'
Reach-IsSound here on s = (on, s)
Reach-IsSound (next r st) on s =
    let (on', s') = Reach-IsSound r on s in (Step-no_interrupt st ∙ on', Step-IsSound st on' s')

-- A session at its start: no request is in use. Interrupts are on; nothing here switches them.
pub record IsNew (se : Session) : Type 0 where
  pub unused : (a : ℕ) → (se.request a).live ≡ false
  pub no_list : se.list ≡ []
  pub no_interrupts : se.interrupts ≡ []
  pub interrupts_on : se.no_interrupt ≡ false

pub IsNew-IsSound : (se : Session) → IsNew se → IsSound se []
IsNew-IsSound se n = record {
  owes = record {
    counted = λ a. rw (n.no_list, n.no_interrupts) (ground (arith, n.unused a));
    alive = λ a l. ground (arith, n.unused a, l);
  };
  apart = λ a p. absurd (none_waiting se n a p);
}
  where
    none_waiting : (se : Session) → IsNew se → (a : ℕ) → ¬ (0 < count a se.interrupts + 0)
    none_waiting se n a = rw n.no_interrupts (λ p. omega arith)

-- As long as `no_interrupt` is 0, which it must be from the start and stays, whatever order requests come in, are answered, and are interrupted, also while an interrupt is
-- under way: a request is in use exactly as long as it is in a list or held by a thread, and its
-- count is then the number of those references. So no list and no thread has a request that has
-- been freed, and none is left over.
pub reachable-counted :
    {se se' : Session} {hs : Holds} (a : ℕ)
    → IsNew se
    → Reach se [] se' hs
    → (((se'.request a).live ≡ true)
        × ((se'.request a).ref_cnt ≡ total a se' hs)
        × (0 < total a se' hs))
      ⊎ (((se'.request a).live ≡ false) × (total a se' hs ≡ 0))
reachable-counted {se} {se'} {hs} a n r =
    let s : IsSound se' hs = (Reach-IsSound r n.interrupts_on (IsNew-IsSound se n)).1 in
    elim (Bool-cases (se'.request a).live) [
      | inl t ↦ inl (
        t,
        ground (arith, t, s.owes.counted a),
        ground (arith, t, s.owes.counted a, s.owes.alive a),
      )
      | inr f ↦ inr (f, ground (arith, f, s.owes.counted a))
    ]
