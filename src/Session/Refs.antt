-- ===== src/Session/Refs.antt =====
-- References to requests: how `ref_cnt` follows the lists and the threads that hold a request.
use fuse_study.Base.{
  ℕ, Bool, true, false, Option, none, some, List, [], ◌∷◌, ◌++◌, ◌==◌, ◌≡◌, ◌≤◌, ◌<◌, ◌-◌, ◌+◌,
  arith, refl, inl, inr, Bool-cases, if◌then◌else◌, ◌∙◌,
}
use fuse_study.Session.{
  Request, Session, set_request, first_with, list_del_req, fuse_ll_alloc_req, destroy_req, put_req,
  fuse_free_req,
}

abbrev pub count : ℕ → List ℕ → ℕ
count a [] = 0
count a (b ∷ bs) = (if b == a then 1 else 0) + count a bs

-- A thread in `find_interrupted` holds the interrupt and the request that it interrupts.
abbrev pub Holds : Type 0
Holds = List (ℕ × ℕ)

abbrev pub held : ℕ → Holds → ℕ
held a [] = 0
held a ((i, c) ∷ hs) = (if i == a then 1 else 0) + (if c == a then 1 else 0) + held a hs

-- The threads in which `a` is the interrupt.
abbrev pub busy : ℕ → Holds → ℕ
busy a [] = 0
busy a ((i, c) ∷ hs) = (if i == a then 1 else 0) + busy a hs

-- The threads after a call of `do_interrupt` for `i`.
abbrev pub joined : ℕ → Option ℕ → Holds → Holds
joined i none hs = hs
joined i (some c) hs = (i, c) ∷ hs

-- The references that there are to `a`.
abbrev pub total : ℕ → Session → Holds → ℕ
total a se hs = count a se.list + count a se.interrupts + held a hs

-- The references that `ref_cnt` claims.
abbrev pub claimed : Request → ℕ
claimed r = if r.live then r.ref_cnt else 0

-- The counts of the requests claim `t`, and those that live have a reference.
pub record Owes (request : ℕ → Request) (t : ℕ → ℕ) : Type 0 where
  pub counted : (a : ℕ) → claimed (request a) ≡ t a
  pub alive : (a : ℕ) → (request a).live ≡ true → 0 < (request a).ref_cnt

-- Each request is claimed as often as it is referenced, and an interrupt only once.
pub record IsSound (se : Session) (hs : Holds) : Type 0 where
  pub owes : Owes se.request (λ a. total a se hs)
  pub apart : (a : ℕ) → 0 < count a se.interrupts + busy a hs → total a se hs ≡ 1

pub count-list_del_req :
    (a b : ℕ) (l : List ℕ)
    → count a (list_del_req b l) ≡ (if a == b then count a l - 1 else count a l)
count-list_del_req a b [] = ground arith
count-list_del_req a b (c ∷ l) = ground (arith, count-list_del_req a b l)

pub count-append :
    (a b : ℕ) (l : List ℕ) → count a (l ++ b ∷ []) ≡ count a l + (if b == a then 1 else 0)
count-append a b [] = omega arith
count-append a b (c ∷ l) = omega (arith, count-append a b l)

pub held-append : (a : ℕ) (hs ks : Holds) → held a (hs ++ ks) ≡ held a hs + held a ks
held-append a [] ks = omega arith
held-append a (h ∷ hs) ks = omega (arith, held-append a hs ks)

pub busy-append : (a : ℕ) (hs ks : Holds) → busy a (hs ++ ks) ≡ busy a hs + busy a ks
busy-append a [] ks = omega arith
busy-append a (h ∷ hs) ks = omega (arith, busy-append a hs ks)

pub busy-held : (a : ℕ) (hs : Holds) → busy a hs ≤ held a hs
busy-held a [] = omega arith
busy-held a (h ∷ hs) = omega (arith, busy-held a hs)

pub count-first_with : (p : ℕ → Bool) (l : List ℕ) (a : ℕ) → first_with p l ≡ some a → 0 < count a l
count-first_with p [] a h = cc
count-first_with p (b ∷ l) a h = ground (arith, count-first_with p l a)

put_req-ref_cnt :
    (b x : ℕ) (se : Session)
    → ((put_req b se).request x).ref_cnt
      ≡ (if x == b then (se.request b).ref_cnt - 1 else (se.request x).ref_cnt)
unfolding put_req destroy_req
put_req-ref_cnt b x se = ground arith

put_req-live :
    (b x : ℕ) (se : Session)
    → ((put_req b se).request x).live ≡ (
        if x == b
        then (if (se.request b).ref_cnt - 1 == 0 then false else (se.request b).live)
        else (se.request x).live)
unfolding put_req destroy_req
put_req-live b x se = ground arith

pub put_req-lists :
    (b : ℕ) (se : Session)
    → ((put_req b se).list ≡ se.list) × ((put_req b se).interrupts ≡ se.interrupts)
unfolding put_req destroy_req
put_req-lists b se = elim (Bool-cases ((se.request b).ref_cnt - 1 == 0)) [
  | inl e ↦ (rw e refl, rw e refl)
  | inr e ↦ (rw e refl, rw e refl)
]

module _ (se : Session) (t : ℕ → ℕ) (o : Owes se.request t) (b : ℕ) where
  pub Owes-put_req : 0 < t b → Owes (put_req b se).request (λ a. if a == b then t a - 1 else t a)
  Owes-put_req h = record {
    counted = λ a. ground (
      arith,
      o.counted a,
      o.counted b,
      o.alive a,
      o.alive b,
      h,
      put_req-ref_cnt b a se,
      put_req-live b a se,
    );
    alive = λ a l. ground (arith, o.alive a, l, put_req-ref_cnt b a se, put_req-live b a se);
  }

  pub Owes-destroy_req : Owes (destroy_req b se).request (λ a. if a == b then 0 else t a)
  unfolding destroy_req
  Owes-destroy_req = record {
    counted = λ a. ground (arith, o.counted a);
    alive = λ a l. ground (arith, o.alive a, l);
  }

  pub Owes-fuse_ll_alloc_req :
      (u : ℕ) → Owes (fuse_ll_alloc_req b u se).request (λ a. if a == b then 1 else t a)
  unfolding fuse_ll_alloc_req
  Owes-fuse_ll_alloc_req u = record {
    counted = λ a. ground (arith, o.counted a);
    alive = λ a l. ground (arith, o.alive a, l);
  }

  pub Owes-hold :
      0 < t b
      → Owes
          (set_request b
            (record (se.request b) { ref_cnt = (se.request b).ref_cnt + 1 })
            se).request
          (λ a. if a == b then t a + 1 else t a)
  Owes-hold h = record {
    counted = λ a. ground (arith, o.counted a, o.counted b);
    alive = λ a l. ground (arith, o.alive a, l);
  }

  -- The other fields do not matter.
  pub Owes-set_request :
      (r : Request)
      → r.live ≡ (se.request b).live
      → r.ref_cnt ≡ (se.request b).ref_cnt
      → Owes (set_request b r se).request t
  Owes-set_request r l c = record {
    counted = λ a. ground (arith, o.counted a, o.counted b, l, c);
    alive = λ a m. ground (arith, o.alive a, o.alive b, l, c, m);
  }

pub Owes-same :
    (request : ℕ → Request) (t t' : ℕ → ℕ)
    → Owes request t
    → ((a : ℕ) → t a ≡ t' a)
    → Owes request t'
Owes-same request t t' o e = record { counted = λ a. o.counted a ∙ e a; alive = o.alive }

-- Freeing a request while interrupts are on.
abbrev pub unlinked : ℕ → Session → Session
unlinked a se = record (set_request a (record (se.request a) { func = none }) se) {
  list = list_del_req a se.list;
  interrupts = list_del_req a se.interrupts;
}

pub fuse_free_req-put_req :
    (a : ℕ) (se : Session)
    → se.no_interrupt ≡ false
    → fuse_free_req a se ≡ put_req a (unlinked a se)
unfolding fuse_free_req
fuse_free_req-put_req a se on = rw on refl
