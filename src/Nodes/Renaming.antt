-- ===== src/Nodes/Renaming.antt =====
-- `remove_node` and `rename_node`.
use fuse_study.Base.{
  ℕ, Bool, true, false, some, List, ◌≡◌, ◌<◌, ◌-◌, arith, refl, Bool-cases, Option-cases, inl, inr,
}
use fuse_study.Nodes.{
  Fuse, set_at, entry_of, without, unhash_name, lookup_node, unlink_node, remove_node, move_node,
  rename_node,
}
use fuse_study.Nodes.Counts.{entries, IsCounted, entry_of-none, entries-without}
use fuse_study.Nodes.Unref.{unref_node-Keeps}
use fuse_study.Nodes.Changes.{hash_name-IsCounted, unhash_name-IsCounted}

-- A node that has been looked up is there.
pub looked_up-refctr : (n : ℕ) (f : Fuse) → IsCounted f → 0 < f.nlookup n → 0 < f.refctr n
looked_up-refctr n f c h = ground (arith, h, c.refs n)

-- Afterwards the node has no name, and no lookup is forgotten.
pub unhash_name-Keeps :
    (n : ℕ) (f : Fuse) (m : ℕ)
    → IsCounted f
    → (entries n (unhash_name n f).names ≡ 0) × ((unhash_name n f).nlookup m ≡ f.nlookup m)
unfolding unhash_name
unhash_name-Keeps n f m c = elim (Option-cases (entry_of n f.names)) [
  | inl has ↦ rw (unhash_name, has) (entry_of-none n f.names has, refl)
  | inr (e, has) ↦
      let f' : Fuse = record f { names = without n f.names } in
      rw (unhash_name, has)
        (
          ground (
            arith,
            (unref_node-Keeps e.parent f' n).0,
            c.once n,
            entries-without n n e f.names has,
          ),
          (unref_node-Keeps e.parent f' m).1,
        )
]

-- With `remember` the library keeps one lookup of each node for itself.
abbrev one_more : Bool → ℕ
one_more true = 1
one_more false = 0

abbrev pub IsKnown : Bool → ℕ → Fuse → Type 0
IsKnown remember n f = one_more remember < f.nlookup n

-- The library's own lookup of a node is taken back.
abbrev taken_back : ℕ → Fuse → Fuse
taken_back n f = record f { nlookup = set_at f.nlookup n (f.nlookup n - 1) }

taken_back-IsCounted :
    (n : ℕ) (f : Fuse) → IsCounted f → IsKnown true n f → IsCounted (taken_back n f)
taken_back-IsCounted n f c known = record {
  refs = λ m. ground (arith, known, c.refs m);
  kept = c.kept;
  gone = c.gone;
  once = c.once;
  unnamed = c.unnamed;
}

unlink_node-IsCounted :
    (remember : Bool) (n : ℕ) (f : Fuse)
    → IsCounted f
    → IsKnown remember n f
    → IsCounted (unlink_node remember n f)
unfolding unlink_node
unlink_node-IsCounted true n f c known =
    unhash_name-IsCounted n (taken_back n f) (taken_back-IsCounted n f c known)
unlink_node-IsCounted false n f c known = unhash_name-IsCounted n f c

unlink_node-Keeps :
    (remember : Bool) (n : ℕ) (f : Fuse) (m : ℕ)
    → IsCounted f
    → IsKnown remember n f
    → 0 < f.nlookup m
    → 0 < (unlink_node remember n f).nlookup m
unfolding unlink_node
unlink_node-Keeps true n f m c known h =
    ground (
      arith,
      h,
      known,
      (unhash_name-Keeps n (taken_back n f) m (taken_back-IsCounted n f c known)).1,
    )
unlink_node-Keeps false n f m c known h = ground (arith, h, (unhash_name-Keeps n f m c).1)

pub remove_node-IsCounted :
    (remember : Bool) (dir : ℕ) (name : List ℕ) (f : Fuse)
    → IsCounted f
    → ((n : ℕ) → lookup_node dir name f.names ≡ some n → IsKnown remember n f)
    → IsCounted (remove_node remember dir name f)
unfolding remove_node
remove_node-IsCounted remember dir name f c known =
    elim (Option-cases (lookup_node dir name f.names)) [
      | inl e ↦ rw (remove_node, e) c
      | inr (n, e) ↦ rw (remove_node, e) (unlink_node-IsCounted remember n f c (known n e))
    ]

move_node-IsCounted :
    (allocated hide : Bool) (n newdir : ℕ) (newname : List ℕ) (f : Fuse)
    → IsCounted f
    → 0 < f.nlookup n
    → 0 < f.nlookup newdir
    → IsCounted (move_node allocated hide n newdir newname f).0
unfolding move_node
move_node-IsCounted allocated hide n newdir newname f c here above =
    let f' = unhash_name n f in
    let c' = unhash_name-IsCounted n f c in
    let moved =
      hash_name-IsCounted n newdir newname f' c' (unhash_name-Keeps n f n c).0
        (looked_up-refctr n f' c' (ground (arith, here, (unhash_name-Keeps n f n c).1)))
        (looked_up-refctr newdir f' c'
          (ground (arith, above, (unhash_name-Keeps n f newdir c).1))) in
    elim (Bool-cases allocated) [
      | inr full ↦ rw (move_node, full) c'
      | inl given ↦ elim (Bool-cases hide) [
        | inr shown ↦ rw (move_node, given, shown) moved
        | inl hidden ↦
            rw (move_node, given, hidden)
              (record {
                refs = moved.refs;
                kept = moved.kept;
                gone = moved.gone;
                once = moved.once;
                unnamed = moved.unnamed;
              })
      ]
    ]

pub rename_node-IsCounted :
    (remember allocated hide : Bool) (olddir : ℕ) (oldname : List ℕ) (newdir : ℕ) (newname : List ℕ)
    (f : Fuse)
    → IsCounted f
    → ((n : ℕ) → lookup_node olddir oldname f.names ≡ some n → IsKnown remember n f)
    → ((n : ℕ) → lookup_node newdir newname f.names ≡ some n → IsKnown remember n f)
    → 0 < f.nlookup newdir
    → IsCounted (rename_node remember allocated hide olddir oldname newdir newname f).0
unfolding rename_node
rename_node-IsCounted remember allocated hide olddir oldname newdir newname f c known known' above =
    elim (Option-cases (lookup_node olddir oldname f.names)) [
      | inl e ↦ rw (rename_node, e) c
      | inr (n, e) ↦
          let here : 0 < f.nlookup n = ground (arith, known n e) in
          elim (Option-cases (lookup_node newdir newname f.names)) [
            | inl e' ↦
                rw (rename_node, e, e')
                  (move_node-IsCounted allocated hide n newdir newname f c here above)
            | inr (n', e') ↦ elim (Bool-cases hide) [
              | inl h ↦ rw (rename_node, e, e', h) c
              | inr h ↦
                  rw (rename_node, e, e', h)
                    (move_node-IsCounted allocated false n newdir newname
                      (unlink_node remember n' f)
                      (unlink_node-IsCounted remember n' f c (known' n' e'))
                      (unlink_node-Keeps remember n' f n c (known' n' e') here)
                      (unlink_node-Keeps remember n' f newdir c (known' n' e') above))
            ]
          ]
    ]
