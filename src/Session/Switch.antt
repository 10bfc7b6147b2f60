-- ===== src/Session/Switch.antt =====
-- No request switches interrupts on or off.
use fuse_study.Base.{
  ℕ, Option, none, some, List, [], ◌∷◌, ◌==◌, ◌≡◌, ◌-◌, refl, inl, inr, not, ◌&&◌, if_both,
  Option-cases, ◌∙◌,
}
use fuse_study.Session.{
  Session, set_request, first_with, list_del_req, list_add_req, fuse_ll_alloc_req, destroy_req,
  put_req, fuse_free_req, do_interrupt, end_interrupt, oldest, check_interrupt, after_check, enter,
  gate, process_buf, fuse_interrupt,
}

abbrev IsSame : Session → Session → Type 0
IsSame se se' = se'.no_interrupt ≡ se.no_interrupt

put_req-IsSame : (a : ℕ) (se : Session) → IsSame se (put_req a se)
unfolding put_req destroy_req
put_req-IsSame a se = if_both (IsSame se) ((se.request a).ref_cnt - 1 == 0) _ _ refl refl

pub fuse_free_req-IsSame : (a : ℕ) (se : Session) → IsSame se (fuse_free_req a se)
unfolding fuse_free_req
fuse_free_req-IsSame a se =
    let off : Session = record (set_request a (record (se.request a) { func = none }) se) {
      list = list_del_req a se.list;
      interrupts = list_del_req a se.interrupts;
    } in
    if_both (IsSame se) se.no_interrupt (put_req a se) (put_req a off) (put_req-IsSame a se)
      (put_req-IsSame a off)

pub do_interrupt-IsSame : (i u : ℕ) (se : Session) → IsSame se (do_interrupt i u se).0
unfolding do_interrupt destroy_req
do_interrupt-IsSame i u se =
    let se' = set_request i (record (se.request i) { i_unique = u }) se in
    elim (Option-cases (first_with (λ c. (se'.request c).unique == u) se.list)) [
      | inr (c, e) ↦ rw (do_interrupt, e) refl
      | inl e ↦
          elim (Option-cases (first_with (λ c. (se'.request c).i_unique == u) se.interrupts)) [
            | inr (c, g) ↦ rw (do_interrupt, e, g) refl
            | inl g ↦ rw (do_interrupt, e, g) refl
          ]
    ]

oldest-IsSame : (se : Session) (l : List ℕ) → IsSame se (oldest se l).0
oldest-IsSame se [] = refl
oldest-IsSame se (c ∷ l) = refl

check_interrupt-IsSame : (a : ℕ) (se : Session) → IsSame se (check_interrupt a se).0
unfolding check_interrupt destroy_req
check_interrupt-IsSame a se =
    elim (Option-cases
      (first_with (λ c. (se.request c).i_unique == (se.request a).unique) se.interrupts)) [
        | inr (c, e) ↦ rw (check_interrupt, e) refl
        | inl e ↦ rw (check_interrupt, e) (oldest-IsSame se se.interrupts)
      ]

after_check-IsSame :
    (a : ℕ) (se : Session) (r : Session × Option ℕ) → IsSame se r.0 → IsSame se (after_check a r)
unfolding after_check
after_check-IsSame a se (se', none) h = h
after_check-IsSame a se (se', some i) h =
    fuse_free_req-IsSame i (record se' { list = list_add_req a se'.list }) ∙ h

enter-IsSame : (a : ℕ) (se : Session) → IsSame se (enter a se)
unfolding enter
enter-IsSame a se = after_check-IsSame a se (check_interrupt a se) (check_interrupt-IsSame a se)

pub end_interrupt-IsSame : (i c : ℕ) (se : Session) → IsSame se (end_interrupt i c se)
unfolding end_interrupt destroy_req
end_interrupt-IsSame i c se = put_req-IsSame c se

pub process_buf-IsSame :
    (a unique uid op : ℕ) (se : Session) → IsSame se (process_buf a unique uid op se).0
unfolding process_buf fuse_ll_alloc_req
process_buf-IsSame a unique uid op se =
    let se' = fuse_ll_alloc_req a unique se in
    elim (Option-cases (gate se' uid op)) [
      | inr (e, g) ↦ rw (g, process_buf) (fuse_free_req-IsSame a se')
      | inl g ↦
          rw (g, process_buf)
            (if_both (IsSame se) (not se'.no_interrupt && not (op == fuse_interrupt)) (enter a se')
              se' (enter-IsSame a se') refl)
    ]
