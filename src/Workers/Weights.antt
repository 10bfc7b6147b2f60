-- ===== src/Workers/Weights.antt =====
-- Sums over the workers.
use fuse_study.Base.{
  ℕ, Bool, true, false, Option, none, some, List, [], ◌∷◌, ◌==◌, ◌≡◌, ◌+◌, ap, arith, if◌then◌else◌,
  Bool-cases, inl, inr,
}
use fuse_study.Workers.{
  Phase, receiving, serving, returned, Worker, phase_of, set_phase, list_add_worker,
  list_del_worker,
}

abbrev pub weight : (Phase → ℕ) → List Worker → ℕ
weight f [] = 0
weight f (w ∷ ws) = f w.phase + weight f ws

abbrev pub every : Phase → ℕ
every ph = 1

-- A worker on a FORGET counts as available, and so does one that has ended.
abbrev pub available : Phase → ℕ
available receiving = 1
available (serving true) = 1
available (serving false) = 0
available returned = 1

-- How far a worker is from the end, once the workers are to stop.
abbrev pub distance : Phase → ℕ
distance (serving isforget) = 3
distance receiving = 2
distance returned = 1

abbrev phase_or : Option Phase → Phase
phase_or none = returned
phase_or (some ph) = ph

found_phase :
    (b : Bool) (ph old : Phase) (rest : Option Phase)
    → b ≡ true
    → (if b then some ph else rest) ≡ some old
    → some ph ≡ some old
found_phase true ph old rest e h = h
found_phase false ph old rest e h = ground (arith, e)

phase_first :
    (f : Phase → ℕ) (a : ℕ) (old : Phase) (w : Worker) (ws : List Worker)
    → (w.address == a) ≡ true
    → phase_of a (w ∷ ws) ≡ some old
    → f w.phase ≡ f old
phase_first f a old w ws e h =
    ap (λ o. f (phase_or o)) (found_phase (w.address == a) w.phase old (phase_of a ws) e h)

module _ (f : Phase → ℕ) where
  pub weight-set_phase :
      (a : ℕ) (old new : Phase) (ws : List Worker)
      → phase_of a ws ≡ some old
      → weight f (set_phase a new ws) + f old ≡ weight f ws + f new
  weight-set_phase a old new [] h = ground arith
  weight-set_phase a old new (w ∷ ws) h = elim (Bool-cases (w.address == a)) [
    | inl e ↦ (let same = phase_first f a old w ws e h in ground (arith, e, same))
    | inr e ↦ ground (arith, e, weight-set_phase a old new ws)
  ]

  pub weight-list_del_worker :
      (a : ℕ) (old : Phase) (ws : List Worker)
      → phase_of a ws ≡ some old
      → weight f (list_del_worker a ws) + f old ≡ weight f ws
  weight-list_del_worker a old [] h = ground arith
  weight-list_del_worker a old (w ∷ ws) h = elim (Bool-cases (w.address == a)) [
    | inl e ↦ (let same = phase_first f a old w ws e h in ground (arith, e, same))
    | inr e ↦ ground (arith, e, weight-list_del_worker a old ws)
  ]

  pub weight-list_add_worker :
      (a : ℕ) (ws : List Worker) → weight f (list_add_worker a ws) ≡ weight f ws + f receiving
  weight-list_add_worker a [] = ground arith
  weight-list_add_worker a (w ∷ ws) = omega (arith, weight-list_add_worker a ws)
