-- ===== src/TreeLock/Wakeup.antt =====
-- `wake_up_queued`: no wake-up is lost.
use fuse_study.Base.{
  ℕ, Bool, true, false, Option, none, some, List, [], ◌∷◌, ◌==◌, ◌≡◌, ◌≤◌, ◌<◌, ◌+◌, ◌*◌, ◌⊎◌, inl,
  inr, arith, refl, Bool-cases, if◌then◌else◌, length, subst, sym,
}
use fuse_study.TreeLock.{unlocked, Tried, got, refused, eagain, try_get_path, unlock_path}
use fuse_study.TreeLock.Paths.{try_get_path-got, try_get_path-refused}
use fuse_study.TreeLock.Readers.{got-Counted}
use fuse_study.TreeLock.Queue.{
  Waiting, wakeup_by, queue_element_wakeup, wake_up_queued, settle, free_path_wrlock, queue_path,
  get_path_common,
}
use fuse_study.TreeLock.Waiters.{Tighter, times-length, try-blocked, got-Tighter, refused-Tighter}

Tried-cases :
    (t : Tried) → ((p : List ℕ) × (w : Option ℕ) × (t ≡ got p w)) ⊎ ((e : ℕ) × (t ≡ refused e))
Tried-cases (got p w) = inl (p, w, refl)
Tried-cases (refused e) = inr (e, refl)

Tighter-refl : (locks : ℕ → ℕ) → Tighter locks locks
Tighter-refl locks = record { low = λ n h. h; busy = λ n h. h }

Tighter-trans : (a b c : ℕ → ℕ) → Tighter a b → Tighter b c → Tighter a c
Tighter-trans a b c s t = record {
  low = λ n h. t.low n (s.low n h);
  busy = λ n h. t.busy n (s.busy n h);
}

-- The nodes that the waiting requests may lock.
abbrev pub load : List Waiting → ℕ
load [] = 0
load (q ∷ qs) = length q.chain + load qs

module _ (name_of : ℕ → Option (List ℕ)) where
  -- The request has been answered, or waits for no path, or cannot have its path.
  abbrev pub IsServed : (ℕ → ℕ) → Waiting → Type 0
  IsServed locks q =
      (q.done ≡ true)
      ⊎ (q.wants_path ≡ false)
      ⊎ ((try_get_path name_of true q.wnode q.name q.chain locks).0 ≡ refused eagain)

  abbrev pub AllServed : (ℕ → ℕ) → List Waiting → Type 0
  AllServed locks [] = Unit
  AllServed locks (q ∷ qs) = IsServed locks q × AllServed locks qs

  record Woken (q q' : Waiting) (locks locks' : ℕ → ℕ) : Type 0 where
    tighter : Tighter locks locks'
    served : IsServed locks' q'
    bound : (n : ℕ) → locks' n ≤ locks n + length q.chain

  got-bound :
      (wnode w' : Option ℕ) (name : Option (List ℕ)) (chain p : List ℕ) (locks : ℕ → ℕ) (n : ℕ)
      → (try_get_path name_of true wnode name chain locks).0 ≡ got p w'
      → (try_get_path name_of true wnode name chain locks).1 n ≤ locks n + length chain
  got-bound none w' name chain p locks n h =
      ground
        (arith, (got-Counted name_of none w' name chain p locks h).adds n, times-length chain n)
  got-bound (some w) w' name chain p locks n h =
      let idle : locks w ≡ unlocked =
        (try_get_path-got name_of (some w) w' name chain p locks 0 h).0 in
      ground (
        arith,
        (got-Counted name_of (some w) w' name chain p locks h).adds n,
        times-length chain n,
        idle,
      )

  refused-bound :
      (wnode : Option ℕ) (name : Option (List ℕ)) (chain : List ℕ) (locks : ℕ → ℕ) (e n : ℕ)
      → (try_get_path name_of true wnode name chain locks).0 ≡ refused e
      → (try_get_path name_of true wnode name chain locks).1 n ≤ locks n + length chain
  refused-bound none name chain locks e n h =
      ground (arith, try_get_path-refused name_of none name chain locks e n h)
  refused-bound (some w) name chain locks e n h =
      ground (arith, try_get_path-refused name_of (some w) name chain locks e n h)

  settle-IsServed :
      (q : Waiting) (e : ℕ) (locks : ℕ → ℕ)
      → ((e == eagain) ≡ true
          → (try_get_path name_of true q.wnode q.name q.chain locks).0 ≡ refused eagain)
      → IsServed locks (settle q (refused e))
  settle-IsServed q e locks f = elim (Bool-cases (e == eagain)) [
    | inl t ↦ rw t (inr (inr (f t)))
    | inr t ↦ rw t (inl refl)
  ]

  tried-Woken :
      (q : Waiting) (locks : ℕ → ℕ)
      → ((n : ℕ) → locks n < 2 * unlocked)
      → let r = try_get_path name_of true q.wnode q.name q.chain locks in
        Woken q (settle q r.0) locks r.1
  tried-Woken q locks small =
      let r = try_get_path name_of true q.wnode q.name q.chain locks in
      elim (Tried-cases r.0) [
        | inl (p, w, h) ↦ record {
          tighter = got-Tighter name_of q.wnode w q.name q.chain p locks h;
          served = inl (rw h refl);
          bound = λ n. got-bound q.wnode w q.name q.chain p locks n h;
        }
        | inr (e, h) ↦ record {
          tighter = refused-Tighter name_of q.wnode q.name q.chain locks e small h;
          served =
              subst (λ t. IsServed r.1 (settle q t)) (sym h)
                (settle-IsServed q e r.1 λ again.
                  try-blocked name_of q.wnode q.name q.chain locks r.1 (ground (arith, h, again))
                    (refused-Tighter name_of q.wnode q.name q.chain locks e small h));
          bound = λ n. refused-bound q.wnode q.name q.chain locks e n h;
        }
      ]

  signal-IsServed :
      (q : Waiting) (locks locks' : ℕ → ℕ)
      → q.wants_path ≡ false
      → IsServed locks' (if locks q.node == unlocked then record q { signalled = true } else q)
  signal-IsServed q locks locks' n = elim (Bool-cases (locks q.node == unlocked)) [
    | inl t ↦ rw t (inr (inl n))
    | inr t ↦ rw t (inr (inl n))
  ]

  wakeup_by-Woken :
      (wants done : Bool) (q : Waiting) (locks : ℕ → ℕ)
      → q.wants_path ≡ wants
      → q.done ≡ done
      → ((n : ℕ) → locks n < 2 * unlocked)
      → Woken q
          (wakeup_by name_of wants done q locks).0
          locks
          (wakeup_by name_of wants done q locks).1
  unfolding wakeup_by
  wakeup_by-Woken false done q locks n d small = record {
    tighter = Tighter-refl locks;
    served = signal-IsServed q locks locks n;
    bound = λ m. omega arith;
  }
  wakeup_by-Woken true true q locks n d small = record {
    tighter = Tighter-refl locks;
    served = inl d;
    bound = λ m. omega arith;
  }
  wakeup_by-Woken true false q locks n d small = tried-Woken q locks small

  element-Woken :
      (q : Waiting) (locks : ℕ → ℕ)
      → ((n : ℕ) → locks n < 2 * unlocked)
      → Woken q
          (queue_element_wakeup name_of q locks).0
          locks
          (queue_element_wakeup name_of q locks).1
  unfolding queue_element_wakeup
  element-Woken q locks small = wakeup_by-Woken q.wants_path q.done q locks refl refl small

  IsServed-Tighter :
      (q : Waiting) (locks locks' : ℕ → ℕ)
      → Tighter locks locks'
      → IsServed locks q
      → IsServed locks' q
  IsServed-Tighter q locks locks' t (inl d) = inl d
  IsServed-Tighter q locks locks' t (inr (inl n)) = inr (inl n)
  IsServed-Tighter q locks locks' t (inr (inr h)) =
      inr (inr (try-blocked name_of q.wnode q.name q.chain locks locks' h t))

  -- Every element of the queue is served in the end, in the locks as the last one leaves them.
  pub wake_up_queued-served :
      (qs : List Waiting) (locks : ℕ → ℕ)
      → ((n : ℕ) → locks n + load qs < 2 * unlocked)
      → AllServed (wake_up_queued name_of qs locks).1 (wake_up_queued name_of qs locks).0
        × Tighter locks (wake_up_queued name_of qs locks).1
  unfolding wake_up_queued
  wake_up_queued-served [] locks room = (tt, Tighter-refl locks)
  wake_up_queued-served (q ∷ qs) locks room =
      let w = element-Woken q locks (λ n. omega (arith, room n)) in
      let r = queue_element_wakeup name_of q locks in
      let rest = wake_up_queued-served qs r.1 (λ n. omega (arith, room n, w.bound n)) in
      (
        (IsServed-Tighter r.0 r.1 _ rest.1 w.served, rest.0),
        Tighter-trans locks r.1 _ w.tighter rest.1,
      )

  -- After a path is given back, nobody in the queue waits for a path that could be had: each
  -- request that wants one has been answered, or would be refused again with EAGAIN in the locks
  -- as they now are, after all the others have been woken. The readers of a node and the nodes
  -- that the queue may lock must fit an `int`.
  pub free_path-wakes :
      (wnode : Option ℕ) (chain : List ℕ) (queue : List Waiting) (locks : ℕ → ℕ)
      → ((n : ℕ) → unlock_path wnode none chain locks n + load queue < 2 * unlocked)
      → AllServed
          (free_path_wrlock name_of wnode chain queue locks).1
          (free_path_wrlock name_of wnode chain queue locks).0
  unfolding free_path_wrlock
  free_path-wakes wnode chain queue locks room =
      (wake_up_queued-served queue (unlock_path wnode none chain locks) room).0

  AllServed-Tighter :
      (qs : List Waiting) (locks locks' : ℕ → ℕ)
      → Tighter locks locks'
      → AllServed locks qs
      → AllServed locks' qs
  AllServed-Tighter [] locks locks' t h = tt
  AllServed-Tighter (q ∷ qs) locks locks' t h =
      (IsServed-Tighter q locks locks' t h.0, AllServed-Tighter qs locks locks' t h.1)

  AllServed-queue_path :
      (qs : List Waiting) (qe : Waiting) (locks : ℕ → ℕ)
      → AllServed locks qs
      → (try_get_path name_of true qe.wnode qe.name qe.chain locks).0 ≡ refused eagain
      → AllServed locks (queue_path qs qe)
  AllServed-queue_path [] qe locks h r = (inr (inr r), tt)
  AllServed-queue_path (q ∷ qs) qe locks h r = (h.0, AllServed-queue_path qs qe locks h.1 r)

  -- A request for a path leaves a queue in which nobody waits for a path that could be had in
  -- such a state again, whether the request is granted, refused, or put at the end of the queue.
  pub get_path_common-served :
      (qe : Waiting) (queue : List Waiting) (locks : ℕ → ℕ)
      → ((n : ℕ) → locks n < 2 * unlocked)
      → AllServed locks queue
      → AllServed
          (get_path_common name_of qe queue locks).1
          (get_path_common name_of qe queue locks).0.1
  unfolding get_path_common
  get_path_common-served qe queue locks small h =
      let r = try_get_path name_of true qe.wnode qe.name qe.chain locks in
      elim (Tried-cases r.0) [
        | inl (p, w, e) ↦
            rw (e, get_path_common)
              (AllServed-Tighter queue locks r.1
                (got-Tighter name_of qe.wnode w qe.name qe.chain p locks e) h)
        | inr (x, e) ↦
            let t = refused-Tighter name_of qe.wnode qe.name qe.chain locks x small e in
            let still = AllServed-Tighter queue locks r.1 t h in
            elim (Bool-cases (x == eagain)) [
              | inr f ↦ rw (e, get_path_common) (rw f still)
              | inl a ↦
                  rw (e, get_path_common)
                    (rw a (
                      AllServed-queue_path queue qe r.1 still (
                        try-blocked name_of qe.wnode qe.name qe.chain locks r.1
                          (ground (arith, e, a)) t)))
            ]
      ]
