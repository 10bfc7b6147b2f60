-- ===== src/Nodes/Unref.antt =====
-- `unref_node` gives up one reference, and with the last one deletes the node, which may go on to
-- its parents.
use fuse_study.Base.{
  ℕ, zero, suc, Bool, false, none, some, ◌==◌, ◌≡◌, ◌≢◌, ◌≤◌, ◌<◌, ◌-◌, ◌||◌, arith, length,
  Bool-cases, Option-cases, inl, inr,
}
use fuse_study.Nodes.{Entry, Fuse, entry_of, without, less, drop_id, unref, unref_node}
use fuse_study.Nodes.Counts.{
  entries, Counted, nothing, one, entry_of-none, children-without, entries-without, length-without,
}

-- A reference that was not the last one.
less-Counted :
    (n : ℕ) (leaving : ℕ → Bool) (f : Fuse)
    → Counted (one n) leaving f
    → f.refctr n - 1 ≢ 0
    → Counted nothing leaving (less n f)
less-Counted n leaving f c more = record {
  refs = λ m. ground (arith, more, c.refs m);
  kept = λ m. ground (arith, more, c.kept m);
  gone = λ m h. ground (arith, more, c.gone m h);
  once = c.once;
  unnamed = λ m h. ground (arith, more, c.unnamed m, h);
}

-- With the last reference the node leaves, and owes its parent a reference.
leave-Counted :
    (n : ℕ) (e : Entry) (leaving : ℕ → Bool) (f : Fuse)
    → Counted (one n) leaving f
    → f.refctr n - 1 ≡ 0
    → entry_of n f.names ≡ some e
    → Counted
        (one e.parent)
        (λ m. leaving m || (m == n))
        (record (less n f) { names = without n f.names })
leave-Counted n e leaving f c last has = record {
  refs = λ m. ground (arith, last, c.refs m, children-without n m e f.names has);
  kept = λ m. ground (arith, last, c.refs m, c.kept m);
  gone = λ m h. ground (arith, last, c.gone m, h);
  once = λ m. ground (arith, c.once m, entries-without n m e f.names has);
  unnamed = λ m h. ground (arith, c.once m, c.unnamed m, h, entries-without n m e f.names has);
}

leave_last-Counted :
    (n : ℕ) (leaving : ℕ → Bool) (f : Fuse)
    → Counted (one n) leaving f
    → f.refctr n - 1 ≡ 0
    → entry_of n f.names ≡ none
    → Counted nothing leaving (drop_id n (less n f))
leave_last-Counted n leaving f c last has = record {
  refs = λ m. ground (arith, last, c.refs m);
  kept = λ m. ground (arith, last, c.refs m, c.kept m, c.gone m);
  gone = λ m h. ground (arith, last, c.gone m h);
  once = c.once;
  unnamed = λ m h. ground (arith, c.unnamed m, h, entry_of-none n f.names has);
}

-- Then it is out of the table of ids.
drop-Counted :
    (n : ℕ) (leaving : ℕ → Bool) (f : Fuse)
    → leaving n ≡ false
    → Counted nothing (λ m. leaving m || (m == n)) f
    → Counted nothing leaving (drop_id n f)
drop-Counted n leaving f stays c = record {
  refs = c.refs;
  kept = λ m. ground (arith, stays, c.gone n, c.kept m);
  gone = λ m h. ground (arith, c.gone m, h);
  once = c.once;
  unnamed = c.unnamed;
}

-- A node that is still referred to is not on its way out.
stays-Counted :
    (n : ℕ) (leaving : ℕ → Bool) (f : Fuse) → Counted (one n) leaving f → leaving n ≡ false
stays-Counted n leaving f c = elim (Bool-cases (leaving n)) [
  | inr stays ↦ stays
  | inl leaves ↦ ground (arith, leaves, c.gone n leaves, c.refs n)
]

unref-Counted :
    (fuel n : ℕ) (leaving : ℕ → Bool) (f : Fuse)
    → length f.names < fuel
    → Counted (one n) leaving f
    → Counted nothing leaving (unref fuel n f)
unfolding unref
unref-Counted zero n leaving f le c = ground arith
unref-Counted (suc fuel) n leaving f le c = elim (Option-cases (entry_of n f.names)) [
  | inl has ↦ elim (Bool-cases (f.refctr n - 1 == 0)) [
    | inl last ↦ rw (unref, has, last) (leave_last-Counted n leaving f c (ground (arith, last)) has)
    | inr more ↦ rw (unref, has, more) (less-Counted n leaving f c (ground (arith, more)))
  ]
  | inr (e, has) ↦ elim (Bool-cases (f.refctr n - 1 == 0)) [
    | inr more ↦ rw (unref, has, more) (less-Counted n leaving f c (ground (arith, more)))
    | inl last ↦
        let f' : Fuse = record (less n f) { names = without n f.names } in
        let left = leave-Counted n e leaving f c (ground (arith, last)) has in
        rw (unref, has, last)
          (drop-Counted n leaving (unref fuel e.parent f') (stays-Counted n leaving f c) (
            unref-Counted fuel e.parent (λ m. leaving m || (m == n)) f'
              (omega (arith, length-without n e f.names has, le)) left))
  ]
]

-- `unref_node` ends, and gives up the one reference that is owed.
pub unref_node-Counted :
    (n : ℕ) (leaving : ℕ → Bool) (f : Fuse)
    → Counted (one n) leaving f
    → Counted nothing leaving (unref_node n f)
unfolding unref_node
unref_node-Counted n leaving f c = unref-Counted (suc (length f.names)) n leaving f (omega arith) c

-- Deleting nodes gives no node a name and forgets no lookup.
unref-Keeps :
    (fuel n : ℕ) (f : Fuse) (m : ℕ)
    → (entries m (unref fuel n f).names ≤ entries m f.names)
      × ((unref fuel n f).nlookup m ≡ f.nlookup m)
unfolding unref
unref-Keeps zero n f m = ground arith
unref-Keeps (suc fuel) n f m = elim (Option-cases (entry_of n f.names)) [
  | inl has ↦ elim (Bool-cases (f.refctr n - 1 == 0)) [
    | inl last ↦ rw (unref, has, last) (ground arith)
    | inr more ↦ rw (unref, has, more) (ground arith)
  ]
  | inr (e, has) ↦ elim (Bool-cases (f.refctr n - 1 == 0)) [
    | inr more ↦ rw (unref, has, more) (ground arith)
    | inl last ↦
        let ih = unref-Keeps fuel e.parent (record (less n f) { names = without n f.names }) m in
        rw (unref, has, last) (omega (arith, ih.0, entries-without n m e f.names has), ih.1)
  ]
]

pub unref_node-Keeps :
    (n : ℕ) (f : Fuse) (m : ℕ)
    → (entries m (unref_node n f).names ≤ entries m f.names)
      × ((unref_node n f).nlookup m ≡ f.nlookup m)
unfolding unref_node
unref_node-Keeps n f m = unref-Keeps (suc (length f.names)) n f m
