-- ===== src/Session/Entry.antt =====
-- A new request that is entered into the list, with the look at the waiting interrupts.
use fuse_study.Base.{
  ℕ, Bool, true, false, none, some, List, [], ◌∷◌, ◌==◌, ◌≡◌, ◌<◌, ◌-◌, ◌+◌, arith, refl, inl, inr,
  Option-cases, List-cases, if◌then◌else◌, sym, ap, ◌∙◌,
}
use fuse_study.Session.{
  Session, set_request, first_with, list_del_req, list_add_req, fuse_ll_alloc_req, destroy_req,
  put_req, check_interrupt, oldest, after_check, enter,
}
use fuse_study.Session.Refs.{
  count, Holds, total, Owes, IsSound, count-list_del_req, count-append, count-first_with,
  put_req-lists, Owes-put_req, Owes-destroy_req, Owes-set_request, Owes-same, busy, busy-held,
  unlinked, fuse_free_req-put_req,
}
use fuse_study.Session.Steps.{fresh-total, new-Owes}

module _ (se : Session) (hs : Holds) (s : IsSound se hs) (a u : ℕ) (on : se.no_interrupt ≡ false)
    (fresh : (se.request a).live ≡ false) where
  with_new : Session
  with_new = fuse_ll_alloc_req a u se

  waiting_test : ℕ → Bool
  waiting_test c = (with_new.request c).i_unique == (with_new.request a).unique

  -- An interrupt for it has come before it.
  module _ (c : ℕ) (f : first_with waiting_test se.interrupts ≡ some c) where
    marked : Session
    marked = record (set_request a (record (with_new.request a) { interrupted = true }) with_new) {
      interrupts = list_del_req c se.interrupts;
    }

    met : Session
    met = record (destroy_req c marked) { list = list_add_req a se.list }

    check-met : check_interrupt a with_new ≡ (destroy_req c marked, none)
    unfolding check_interrupt marked with_new fuse_ll_alloc_req waiting_test
    check-met = rw (f, check_interrupt) refl

    enter-met : enter a with_new ≡ met
    unfolding enter after_check met marked with_new fuse_ll_alloc_req destroy_req
    enter-met = ap (after_check a) check-met

    met_waits : 0 < count c se.interrupts
    met_waits = count-first_with waiting_test se.interrupts c f

    marked-Owes : Owes marked.request (λ b. if b == a then 1 else total b se hs)
    unfolding marked with_new
    marked-Owes = Owes-set_request with_new _ (new-Owes se hs s a u fresh) a _ refl refl

    met-IsSound : IsSound met hs
    unfolding met marked destroy_req with_new fuse_ll_alloc_req
    met-IsSound = record {
      owes = Owes-same _ _ _ (Owes-destroy_req marked _ marked-Owes c) (λ b. ground (
        arith,
        fresh-total se hs s a u fresh,
        met_waits,
        s.apart c,
        count-append b a se.list,
        count-list_del_req b c se.interrupts,
      ));
      apart = λ b p. ground (
        arith,
        p,
        fresh-total se hs s a u fresh,
        met_waits,
        s.apart b,
        count-append b a se.list,
        count-list_del_req b c se.interrupts,
        busy-held b hs,
      );
    }

  module _ (f : first_with waiting_test se.interrupts ≡ none) where
    alone : Session
    alone = record with_new { list = list_add_req a se.list }

    check-alone : se.interrupts ≡ [] → check_interrupt a with_new ≡ (with_new, none)
    unfolding check_interrupt with_new fuse_ll_alloc_req waiting_test
    check-alone e = rw (f, check_interrupt) (ap (oldest with_new) e)

    enter-alone : se.interrupts ≡ [] → enter a with_new ≡ alone
    unfolding enter after_check alone with_new fuse_ll_alloc_req
    enter-alone e = ap (after_check a) (check-alone e)

    none_waits : se.interrupts ≡ [] → (b : ℕ) → count b se.interrupts ≡ 0
    none_waits e b = rw e refl

    alone-IsSound : se.interrupts ≡ [] → IsSound alone hs
    unfolding alone with_new fuse_ll_alloc_req
    alone-IsSound e = record {
      owes = Owes-same _ _ _ (new-Owes se hs s a u fresh) (λ b.
          ground (arith, none_waits e b, fresh-total se hs s a u fresh, count-append b a se.list));
      apart = λ b p. ground (
        arith,
        none_waits e b,
        p,
        fresh-total se hs s a u fresh,
        s.apart b,
        count-append b a se.list,
        busy-held b hs,
      );
    }

    -- The oldest interrupt is answered instead.
    module _ (c : ℕ) (rest : List ℕ) (e : se.interrupts ≡ c ∷ rest) where
      popped : Session
      popped = record with_new { interrupts = rest; list = list_add_req a se.list }

      passed : Session
      passed = unlinked c popped

      check-passed : check_interrupt a with_new ≡ (record with_new { interrupts = rest }, some c)
      unfolding check_interrupt with_new fuse_ll_alloc_req waiting_test
      check-passed = rw (f, check_interrupt) (ap (oldest with_new) e)

      enter-passed : enter a with_new ≡ put_req c passed
      unfolding enter after_check popped passed with_new fuse_ll_alloc_req
      enter-passed = ap (after_check a) check-passed ∙ fuse_free_req-put_req c popped on

      passed-Owes : Owes passed.request (λ b. if b == a then 1 else total b se hs)
      unfolding passed popped with_new
      passed-Owes = Owes-set_request popped _ (new-Owes se hs s a u fresh) c _ refl refl

      waits : (b : ℕ) → count b se.interrupts ≡ (if c == b then 1 else 0) + count b rest
      waits b = rw e refl

      total-passed :
          (b : ℕ)
          → (if b == c
              then (if b == a then 1 else total b se hs) - 1
              else (if b == a then 1 else total b se hs))
            ≡ total b (put_req c passed) hs
      unfolding passed popped with_new
      total-passed b =
          rw ((put_req-lists c passed).0, (put_req-lists c passed).1)
            (ground (
              arith,
              fresh-total se hs s a u fresh,
              s.apart c,
              waits b,
              waits c,
              count-append b a se.list,
              count-list_del_req b c (list_add_req a se.list),
              count-list_del_req b c rest,
            ))

      apart-passed :
          (b : ℕ)
          → 0 < count b (put_req c passed).interrupts + busy b hs
          → total b (put_req c passed) hs ≡ 1
      unfolding passed popped with_new
      apart-passed b p =
          let p' : 0 < count b (list_del_req c rest) + busy b hs =
            rw (sym (put_req-lists c passed).1) p in
          sym (total-passed b)
          ∙ ground (
            arith,
            p',
            fresh-total se hs s a u fresh,
            s.apart c,
            s.apart b,
            waits b,
            waits c,
            count-list_del_req b c rest,
            busy-held b hs,
          )

      passed-IsSound : IsSound (put_req c passed) hs
      unfolding passed popped
      passed-IsSound = record {
        owes =
            Owes-same _ _ _
              (Owes-put_req passed _ passed-Owes c
                (ground (arith, fresh-total se hs s a u fresh, s.apart c, waits c)))
              total-passed;
        apart = apart-passed;
      }

  pub enter-IsSound : IsSound (enter a (fuse_ll_alloc_req a u se)) hs
  unfolding with_new
  enter-IsSound = elim (Option-cases (first_with waiting_test se.interrupts)) [
    | inr (c, f) ↦ rw (enter-met c f) (met-IsSound c f)
    | inl f ↦ enter-unmet f
  ]
    where
      enter-unmet :
          first_with waiting_test se.interrupts ≡ none
          → IsSound (enter a (fuse_ll_alloc_req a u se)) hs
      enter-unmet f = elim (List-cases se.interrupts) [
        | inl e ↦ rw (enter-alone f e) (alone-IsSound f e)
        | inr (c, rest, e) ↦ rw (enter-passed f c rest e) (passed-IsSound f c rest e)
      ]
