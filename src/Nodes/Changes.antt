-- ===== src/Nodes/Changes.antt =====
-- The operations on nodes keep every count right.
use fuse_study.Base.{ℕ, List, ◌==◌, ◌≡◌, ◌<◌, ◌-◌, arith, Bool-cases, Option-cases, inl, inr}
use fuse_study.Nodes.{
  Fuse, entry_of, without, set_at, unhash_name, hash_name, inc_nlookup, forget_node,
}
use fuse_study.Nodes.Counts.{entries, IsCounted, nobody, children-without, entries-without}
use fuse_study.Nodes.Unref.{unref_node-Counted}

pub unhash_name-IsCounted : (n : ℕ) (f : Fuse) → IsCounted f → IsCounted (unhash_name n f)
unfolding unhash_name
unhash_name-IsCounted n f c = elim (Option-cases (entry_of n f.names)) [
  | inl has ↦ rw (unhash_name, has) c
  | inr (e, has) ↦
      rw (unhash_name, has)
        (unref_node-Counted e.parent nobody (record f { names = without n f.names })
          (record {
            refs = λ m. ground (arith, c.refs m, children-without n m e f.names has);
            kept = c.kept;
            gone = c.gone;
            once = λ m. ground (arith, c.once m, entries-without n m e f.names has);
            unnamed = λ m h. ground (arith, c.unnamed m h, entries-without n m e f.names has);
          }))
]

-- A node without a name gets one, below a node that is there.
pub hash_name-IsCounted :
    (n parent : ℕ) (name : List ℕ) (f : Fuse)
    → IsCounted f
    → entries n f.names ≡ 0
    → 0 < f.refctr n
    → 0 < f.refctr parent
    → IsCounted (hash_name n parent name f)
unfolding hash_name
hash_name-IsCounted n parent name f c fresh here above = record {
  refs = λ m. ground (arith, c.refs m);
  kept = λ m. ground (arith, c.kept m, above);
  gone = λ m h. ground arith;
  once = λ m. ground (arith, c.once m, fresh);
  unnamed = λ m h. ground (arith, c.unnamed m, h, here);
}

pub inc_nlookup-IsCounted :
    (n : ℕ) (f : Fuse) → IsCounted f → 0 < f.refctr n → IsCounted (inc_nlookup n f)
unfolding inc_nlookup
inc_nlookup-IsCounted n f c here = record {
  refs = λ m. ground (arith, c.refs m);
  kept = λ m. ground (arith, c.kept m, here);
  gone = λ m h. ground arith;
  once = c.once;
  unnamed = λ m h. ground (arith, c.unnamed m, h);
}

pub forget_node-IsCounted :
    (n nlookup : ℕ) (f : Fuse) → IsCounted f → 0 < f.nlookup n → IsCounted (forget_node n nlookup f)
unfolding forget_node
forget_node-IsCounted n nlookup f c held =
    let f' : Fuse = record f { nlookup = set_at f.nlookup n (f.nlookup n - nlookup) } in
    elim (Bool-cases (f.nlookup n - nlookup == 0)) [
      | inl last ↦ rw last (
          unref_node-Counted n nobody f' (record {
            refs = λ m. ground (arith, c.refs m, held, last);
            kept = c.kept;
            gone = c.gone;
            once = c.once;
            unnamed = c.unnamed;
          }))
      | inr more ↦ rw more (record {
        refs = λ m. ground (arith, c.refs m, held, more);
        kept = c.kept;
        gone = c.gone;
        once = c.once;
        unnamed = c.unnamed;
      })
    ]
