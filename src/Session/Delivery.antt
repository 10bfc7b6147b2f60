-- ===== src/Session/Delivery.antt =====
-- An interrupt as it comes in: its request is in the list, or it has to wait.
use fuse_study.Base.{
  ℕ, Bool, false, none, some, ◌∷◌, ◌==◌, ◌≡◌, ◌<◌, ◌+◌, arith, refl, inl, inr, Option-cases,
  if◌then◌else◌,
}
use fuse_study.Session.{
  Session, set_request, first_with, list_add_req, fuse_ll_alloc_req, destroy_req, do_interrupt,
}
use fuse_study.Session.Refs.{
  joined, count, Holds, total, Owes, IsSound, count-append, busy-held, count-first_with,
  Owes-destroy_req, Owes-hold, Owes-set_request, Owes-same,
}
use fuse_study.Session.Steps.{fresh-total, new-Owes}

module _ (se : Session) (hs : Holds) (s : IsSound se hs) where
  module _ (i u v : ℕ) (fresh : (se.request i).live ≡ false) where
    -- The session once the interrupt `i` is there.
    unfoldable pub with_new : Session
    with_new = fuse_ll_alloc_req i v se

    unfoldable pub targeted : Session
    targeted = set_request i (record (with_new.request i) { i_unique = u }) with_new

    targeted-Owes : Owes targeted.request (λ b. if b == i then 1 else total b se hs)
    unfolding targeted with_new
    targeted-Owes = Owes-set_request with_new _ (new-Owes se hs s i v fresh) i _ refl refl

    unfoldable pub target_test : ℕ → Bool
    target_test c = (targeted.request c).unique == u

    unfoldable pub waiting_test : ℕ → Bool
    waiting_test c = (targeted.request c).i_unique == u

    -- Its request is in the list.
    module _ (c : ℕ) (f : first_with target_test se.list ≡ some c) where
      holding : Session
      holding =
          set_request c (record (targeted.request c) { ref_cnt = (targeted.request c).ref_cnt + 1 })
            targeted

      do_interrupt-found : do_interrupt i u with_new ≡ (holding, some c)
      unfolding do_interrupt holding targeted with_new fuse_ll_alloc_req target_test
      do_interrupt-found = rw (f, do_interrupt) refl

      found-listed : 0 < count c se.list
      found-listed = count-first_with target_test se.list c f

      held-IsSound : IsSound holding ((i, c) ∷ hs)
      unfolding holding targeted with_new fuse_ll_alloc_req
      held-IsSound = record {
        owes =
            Owes-same _ _ _ (Owes-hold targeted _ targeted-Owes c (ground (arith, found-listed)))
              (λ b. ground (arith, fresh-total se hs s i v fresh, found-listed));
        apart = λ b p.
            ground
              (arith, p, fresh-total se hs s i v fresh, found-listed, s.apart b, busy-held b hs);
      }

    -- It has come before its request, and another interrupt for it waits or does not wait.
    module _ (f : first_with target_test se.list ≡ none) where
      unfoldable pub queued : Session
      queued = record targeted { interrupts = list_add_req i se.interrupts }

      pub do_interrupt-again :
          (c : ℕ)
          → first_with waiting_test se.interrupts ≡ some c
          → do_interrupt i u with_new ≡ (destroy_req i targeted, none)
      unfolding do_interrupt targeted with_new fuse_ll_alloc_req target_test waiting_test
      do_interrupt-again c g = rw (f, do_interrupt) (rw g refl)

      pub do_interrupt-queued :
          first_with waiting_test se.interrupts ≡ none → do_interrupt i u with_new ≡ (queued, none)
      unfolding do_interrupt queued targeted with_new fuse_ll_alloc_req target_test waiting_test
      do_interrupt-queued g = rw (f, do_interrupt) (rw g refl)

      again-IsSound : IsSound (destroy_req i targeted) hs
      unfolding destroy_req targeted with_new fuse_ll_alloc_req
      again-IsSound = record {
        owes =
            Owes-same _ _ _ (Owes-destroy_req targeted _ targeted-Owes i)
              (λ b. ground (arith, fresh-total se hs s i v fresh));
        apart = s.apart;
      }

      queued-IsSound : IsSound queued hs
      unfolding queued targeted with_new fuse_ll_alloc_req
      queued-IsSound = record {
        owes =
            Owes-same _ _ _ targeted-Owes
              (λ b. ground (arith, fresh-total se hs s i v fresh, count-append b i se.interrupts));
        apart = λ b p. ground (
          arith,
          p,
          fresh-total se hs s i v fresh,
          count-append b i se.interrupts,
          s.apart b,
          busy-held b hs,
        );
      }

    pub do_interrupt-IsSound :
        IsSound
          (do_interrupt i u (fuse_ll_alloc_req i v se)).0
          (joined i (do_interrupt i u (fuse_ll_alloc_req i v se)).1 hs)
    unfolding with_new
    do_interrupt-IsSound = elim (Option-cases (first_with target_test se.list)) [
      | inr (c, f) ↦ rw (do_interrupt-found c f) (held-IsSound c f)
      | inl f ↦ elim (Option-cases (first_with waiting_test se.interrupts)) [
        | inr (c, g) ↦ rw (do_interrupt-again f c g) (again-IsSound f)
        | inl g ↦ rw (do_interrupt-queued f g) (queued-IsSound f)
      ]
    ]
