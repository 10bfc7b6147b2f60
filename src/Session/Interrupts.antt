-- ===== src/Session/Interrupts.antt =====
-- An interrupt reaches its request, whichever of the two comes first.
use fuse_study.Base.{
  ℕ, Bool, true, false, none, some, List, [], ◌∷◌, ◌==◌, ◌≡◌, ◌<◌, arith, refl, inl, inr,
  Bool-cases, Option-cases,
}
use fuse_study.Session.{
  Session, set_request, first_with, fuse_ll_alloc_req, do_interrupt, mark_interrupted, enter,
  after_check, check_interrupt, destroy_req, fuse_req_interrupted,
}
use fuse_study.Session.Refs.{count, Holds, IsSound, count-append, count-first_with}
use fuse_study.Session.Steps.{fresh-total}
use fuse_study.Session.Delivery.{
  with_new, targeted, target_test, waiting_test, queued, do_interrupt-again, do_interrupt-queued,
  do_interrupt-IsSound,
}

first_with-hit :
    (p : ℕ → Bool) (l : List ℕ) (a : ℕ)
    → 0 < count a l
    → p a ≡ true
    → (c : ℕ) × (first_with p l ≡ some c)
first_with-hit p [] a h e = absurd (omega arith)
first_with-hit p (b ∷ l) a h e = elim (Bool-cases (p b)) [
  | inl t ↦ (b, ground (arith, t))
  | inr f ↦
      let r = first_with-hit p l a (ground (arith, h, e, f)) e in (r.0, ground (arith, f, r.1))
]

first_with-holds : (p : ℕ → Bool) (l : List ℕ) (a : ℕ) → first_with p l ≡ some a → p a ≡ true
first_with-holds p [] a h = cc
first_with-holds p (b ∷ l) a h = ground (arith, first_with-holds p l a)

enter-interrupted :
    (se : Session) (a c : ℕ)
    → first_with (λ b. (se.request b).i_unique == (se.request a).unique) se.interrupts ≡ some c
    → fuse_req_interrupted a (enter a se) ≡ true
unfolding enter after_check check_interrupt destroy_req
enter-interrupted se a c f = rw (f, check_interrupt) (ground arith)

listed_apart : (a i : ℕ) (l : List ℕ) → 0 < count a l → count i l ≡ 0 → (a == i) ≡ false
listed_apart a i [] h out = absurd (omega arith)
listed_apart a i (b ∷ l) h out = ground (arith, h, out, listed_apart a i l)

-- The interrupt comes second: when a request with its number is in the list, and the interrupt
-- itself is not, `do_interrupt` takes hold of a request of the list that has this number, and
-- this one is then marked.
pub interrupt-later :
    (se : Session) (i a target v : ℕ)
    → (se.request a).unique ≡ target
    → 0 < count a se.list
    → count i se.list ≡ 0
    → (c : ℕ) × ((do_interrupt i target (fuse_ll_alloc_req i v se)).1 ≡ some c)
      × (0 < count c se.list)
      × ((se.request c).unique ≡ target)
      × (fuse_req_interrupted c
            (mark_interrupted c (do_interrupt i target (fuse_ll_alloc_req i v se)).0).0
          ≡ true)
unfolding do_interrupt fuse_ll_alloc_req mark_interrupted
interrupt-later se i a target v e h out =
    let new = fuse_ll_alloc_req i v se in
    let se' = set_request i (record (new.request i) { i_unique = target }) new in
    let test = λ (b : ℕ). (se'.request b).unique == target in
    let other = listed_apart a i se.list h out in
    let r = first_with-hit test se.list a h (ground (arith, e, other)) in
    let on = count-first_with test se.list r.0 r.1 in
    let other' = listed_apart r.0 i se.list on out in
    let holds = first_with-holds test se.list r.0 r.1 in
    (r.0, rw (r.1, do_interrupt) refl, on, ground (arith, holds, other'), ground arith)

module _ (se : Session) (hs : Holds) (s : IsSound se hs) (i u v : ℕ)
    (fresh : (se.request i).live ≡ false)
    (absent : (b : ℕ) → 0 < count b se.list → ((se.request b).unique == u) ≡ false) where
  not_listed : first_with (target_test se hs s i u v fresh) se.list ≡ none
  unfolding target_test targeted with_new fuse_ll_alloc_req
  not_listed = elim (Option-cases (first_with (target_test se hs s i u v fresh) se.list)) [
    | inl e ↦ e
    | inr (c, e) ↦
        let on = count-first_with (target_test se hs s i u v fresh) se.list c e in
        let holds = first_with-holds (target_test se hs s i u v fresh) se.list c e in
        absurd (ground (arith, absent c on, holds, on, fresh-total se hs s i v fresh))
  ]

  waits_again :
      (c : ℕ)
      → 0 < count c se.interrupts
      → 0 < count c (destroy_req i (targeted se hs s i u v fresh)).interrupts
  unfolding destroy_req targeted with_new fuse_ll_alloc_req
  waits_again c h = h

  same_again :
      (c : ℕ)
      → waiting_test se hs s i u v fresh c ≡ true
      → (((destroy_req i (targeted se hs s i u v fresh)).request c).i_unique == u) ≡ true
  unfolding destroy_req waiting_test
  same_again c h = ground (arith, h)

  -- After the interrupt, one for `u` waits.
  waits :
      (c : ℕ) × (0 < count c (do_interrupt i u (fuse_ll_alloc_req i v se)).0.interrupts)
      × ((((do_interrupt i u (fuse_ll_alloc_req i v se)).0.request c).i_unique == u) ≡ true)
  unfolding with_new queued targeted waiting_test
  waits = elim (Option-cases (first_with (waiting_test se hs s i u v fresh) se.interrupts)) [
    | inr (c, g) ↦
        let on = count-first_with (waiting_test se hs s i u v fresh) se.interrupts c g in
        let holds = first_with-holds (waiting_test se hs s i u v fresh) se.interrupts c g in
        rw (do_interrupt-again se hs s i u v fresh not_listed c g)
          (c, waits_again c on, same_again c holds)
    | inl g ↦
        rw (do_interrupt-queued se hs s i u v fresh not_listed g)
          (i, ground (arith, count-append i i se.interrupts), ground arith)
  ]

  -- The interrupt comes first: an interrupt for a number that no request in the list has is kept,
  -- and when a request with this number is entered next, it is marked as interrupted.
  pub interrupt-first :
      (a : ℕ)
      → ((do_interrupt i u (fuse_ll_alloc_req i v se)).0.request a).live ≡ false
      → fuse_req_interrupted a
          (enter a (fuse_ll_alloc_req a u (do_interrupt i u (fuse_ll_alloc_req i v se)).0))
        ≡ true
  unfolding fuse_ll_alloc_req
  interrupt-first a unused =
      let se' = (do_interrupt i u (fuse_ll_alloc_req i v se)).0 in
      let new = fuse_ll_alloc_req a u se' in
      let none_left = fresh-total se' _ (do_interrupt-IsSound se hs s i u v fresh) a u unused in
      let w = waits in
      let hit =
        first_with-hit (λ b. (new.request b).i_unique == (new.request a).unique) se'.interrupts w.0
          w.1 (ground (arith, w.1, w.2, none_left)) in
      enter-interrupted new a hit.0 hit.1
