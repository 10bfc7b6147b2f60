-- ===== src/Session/Steps.antt =====
-- The threads of a session as steps: requests come in, are answered, and are interrupted, where
-- the two halves of `find_interrupted` are steps of their own.
use fuse_study.Base.{
  ℕ, false, Option, ◌∷◌, ◌++◌, ◌==◌, ◌≡◌, ◌<◌, ◌-◌, ◌+◌, arith, refl, if◌then◌else◌, sym, ◌∙◌,
}
use fuse_study.Session.{
  Session, list_del_req, fuse_ll_alloc_req, destroy_req, put_req, fuse_free_req, mark_interrupted,
  end_interrupt, fuse_req_interrupt_func,
}
use fuse_study.Session.Refs.{
  count, Holds, held, total, Owes, IsSound, count-list_del_req, held-append, busy, busy-append,
  busy-held, put_req-lists, Owes-put_req, Owes-destroy_req, Owes-fuse_ll_alloc_req,
  Owes-set_request, Owes-same, unlinked, fuse_free_req-put_req,
}

module _ (se : Session) (hs : Holds) (s : IsSound se hs) where
  -- Freeing a request that is in the list.
  module _ (a : ℕ) (on : se.no_interrupt ≡ false) (h : 0 < count a se.list) where
    unlinked-Owes : Owes (unlinked a se).request (λ b. total b se hs)
    unlinked-Owes = Owes-set_request se (λ b. total b se hs) s.owes a _ refl refl

    total-freed :
        (b : ℕ)
        → (if b == a then total b se hs - 1 else total b se hs)
          ≡ total b (put_req a (unlinked a se)) hs
    total-freed b =
        rw ((put_req-lists a (unlinked a se)).0, (put_req-lists a (unlinked a se)).1)
          (ground (
            arith,
            count-list_del_req b a se.list,
            count-list_del_req b a se.interrupts,
            h,
            s.apart a,
            s.apart b,
          ))

    apart-freed :
        (b : ℕ)
        → 0 < count b (put_req a (unlinked a se)).interrupts + busy b hs
        → total b (put_req a (unlinked a se)) hs ≡ 1
    apart-freed b p =
        let p' : 0 < count b (list_del_req a se.interrupts) + busy b hs =
          rw (sym (put_req-lists a (unlinked a se)).1) p in
        sym (total-freed b)
        ∙ ground (
          arith,
          count-list_del_req b a se.interrupts,
          h,
          s.apart a,
          s.apart b,
          busy-held b hs,
          p',
        )

    pub fuse_free_req-IsSound : IsSound (fuse_free_req a se) hs
    fuse_free_req-IsSound = rw (fuse_free_req-put_req a se on) (record {
      owes =
          Owes-same _ _ _
            (Owes-put_req (unlinked a se) (λ b. total b se hs) unlinked-Owes a (omega (arith, h)))
            total-freed;
      apart = apart-freed;
    })

  -- A new request, before it is in any list.
  module _ (a u : ℕ) (fresh : (se.request a).live ≡ false) where
    pub fresh-total : total a se hs ≡ 0
    fresh-total = ground (arith, s.owes.counted a, fresh)

    pub new-Owes :
        Owes (fuse_ll_alloc_req a u se).request (λ b. if b == a then 1 else total b se hs)
    new-Owes = Owes-fuse_ll_alloc_req se (λ b. total b se hs) s.owes a u

    -- A request that is refused is freed at once.
    refused : Session
    refused = unlinked a (fuse_ll_alloc_req a u se)

    total-refused :
        (b : ℕ)
        → (if b == a
            then (if b == a then 1 else total b se hs) - 1
            else if b == a
            then 1
            else total b se hs)
          ≡ total b (put_req a refused) hs
    unfolding refused fuse_ll_alloc_req
    total-refused b =
        rw ((put_req-lists a refused).0, (put_req-lists a refused).1)
          (ground (
            arith,
            fresh-total,
            count-list_del_req b a se.list,
            count-list_del_req b a se.interrupts,
          ))

    apart-refused :
        (b : ℕ)
        → 0 < count b (put_req a refused).interrupts + busy b hs
        → total b (put_req a refused) hs ≡ 1
    unfolding refused fuse_ll_alloc_req
    apart-refused b p =
        let p' : 0 < count b (list_del_req a se.interrupts) + busy b hs =
          rw (sym (put_req-lists a refused).1) p in
        sym (total-refused b)
        ∙ ground (
          arith,
          p',
          fresh-total,
          s.apart b,
          busy-held b hs,
          count-list_del_req b a se.interrupts,
        )

    pub refused-IsSound :
        se.no_interrupt ≡ false → IsSound (fuse_free_req a (fuse_ll_alloc_req a u se)) hs
    unfolding refused fuse_ll_alloc_req
    refused-IsSound on = rw (fuse_free_req-put_req a (fuse_ll_alloc_req a u se) on) (record {
      owes =
          Owes-same _ _ _
            (Owes-put_req refused _
              (Owes-set_request (fuse_ll_alloc_req a u se) _ new-Owes a _ refl refl) a
              (ground arith))
            total-refused;
      apart = apart-refused;
    })

  -- The end of a thread that holds `i` and `c`.
  module _ (pre post : Holds) (i c : ℕ) (e : hs ≡ pre ++ (i, c) ∷ post) where
    held-ended :
        (b : ℕ)
        → held b hs ≡ (if i == b then 1 else 0) + (if c == b then 1 else 0) + held b (pre ++ post)
    held-ended b = rw e (omega (arith, held-append b pre ((i, c) ∷ post), held-append b pre post))

    busy-ended : (b : ℕ) → busy b hs ≡ (if i == b then 1 else 0) + busy b (pre ++ post)
    busy-ended b = rw e (omega (arith, busy-append b pre ((i, c) ∷ post), busy-append b pre post))

    total-ended :
        (b : ℕ)
        → (if b == i then 0 else if b == c then total b se hs - 1 else total b se hs)
          ≡ total b (end_interrupt i c se) (pre ++ post)
    unfolding end_interrupt destroy_req
    total-ended b =
        rw ((put_req-lists c se).0, (put_req-lists c se).1)
          (ground (arith, held-ended b, held-ended i, busy-ended i, s.apart i))

    apart-ended :
        (b : ℕ)
        → 0 < count b (end_interrupt i c se).interrupts + busy b (pre ++ post)
        → total b (end_interrupt i c se) (pre ++ post) ≡ 1
    unfolding end_interrupt destroy_req
    apart-ended b p =
        let p' : 0 < count b se.interrupts + busy b (pre ++ post) =
          rw (sym (put_req-lists c se).1) p in
        sym (total-ended b)
        ∙ ground
            (arith, p', held-ended b, busy-ended b, s.apart b, s.apart i, busy-held b (pre ++ post))

    pub end_interrupt-IsSound : IsSound (end_interrupt i c se) (pre ++ post)
    unfolding end_interrupt
    end_interrupt-IsSound = record {
      owes =
          Owes-same _ _ _
            (Owes-destroy_req (put_req c se) _
              (Owes-put_req se (λ b. total b se hs) s.owes c (ground (arith, held-ended c))) i)
            total-ended;
      apart = apart-ended;
    }

  pub mark_interrupted-IsSound : (c : ℕ) → IsSound (mark_interrupted c se).0 hs
  unfolding mark_interrupted
  mark_interrupted-IsSound c = record {
    owes = Owes-set_request se _ s.owes c _ refl refl;
    apart = s.apart;
  }

  pub fuse_req_interrupt_func-IsSound :
      (a : ℕ) (func : Option ℕ) → IsSound (fuse_req_interrupt_func a func se).0 hs
  unfolding fuse_req_interrupt_func
  fuse_req_interrupt_func-IsSound a func = record {
    owes = Owes-set_request se _ s.owes a _ refl refl;
    apart = s.apart;
  }
