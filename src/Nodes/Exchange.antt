-- ===== src/Nodes/Exchange.antt =====
-- `exchange_node`.
use fuse_study.Base.{
  ℕ, Bool, true, false, Option, none, some, List, ◌≡◌, ◌≢◌, not, if◌then◌else◌, ◌<◌, ◌≤◌, arith,
  refl, ◌∙◌, subst, if_both, Option-cases, inl, inr,
}
use mathlib.Core.Option.{some-injective}
use fuse_study.Nodes.{
  Fuse, entry_of, without, unhash_name, hash_name, lookup_node, unhash_found, hash_found,
  exchange_node, enomem,
}
use fuse_study.Nodes.Counts.{entries, IsCounted, entries-without}
use fuse_study.Nodes.Unref.{unref_node-Keeps}
use fuse_study.Nodes.Changes.{hash_name-IsCounted, unhash_name-IsCounted}
use fuse_study.Nodes.Renaming.{looked_up-refctr, unhash_name-Keeps}

-- No name is added.
unhash_name-entries : (n m : ℕ) (f : Fuse) → entries m (unhash_name n f).names ≤ entries m f.names
unfolding unhash_name
unhash_name-entries n m f = elim (Option-cases (entry_of n f.names)) [
  | inl has ↦ rw (unhash_name, has) (ground arith)
  | inr (e, has) ↦
      let f' : Fuse = record f { names = without n f.names } in
      rw (unhash_name, has)
        (ground (arith, (unref_node-Keeps e.parent f' m).0, entries-without n m e f.names has))
]

-- A node that the kernel has looked up, if there is one.
abbrev pub IsHeld : Option ℕ → Fuse → Type 0
IsHeld o f = (n : ℕ) → o ≡ some n → 0 < f.nlookup n

abbrev pub AreApart : Option ℕ → Option ℕ → Type 0
AreApart o o' = (n m : ℕ) → o ≡ some n → o' ≡ some m → m ≢ n

-- What is asked of a node that gets a name.
abbrev IsNameless : Option ℕ → Fuse → Type 0
IsNameless o f = (n : ℕ) → o ≡ some n → entries n f.names ≡ 0

unhash_found-IsCounted : (o : Option ℕ) (f : Fuse) → IsCounted f → IsCounted (unhash_found o f)
unfolding unhash_found
unhash_found-IsCounted none f c = c
unhash_found-IsCounted (some n) f c = unhash_name-IsCounted n f c

unhash_found-nlookup :
    (o : Option ℕ) (f : Fuse) (m : ℕ)
    → IsCounted f
    → ((unhash_found o f).nlookup m ≡ f.nlookup m)
      × (entries m (unhash_found o f).names ≤ entries m f.names)
unfolding unhash_found
unhash_found-nlookup none f m c = (refl, ground arith)
unhash_found-nlookup (some n) f m c = ((unhash_name-Keeps n f m c).1, unhash_name-entries n m f)

unhash_found-IsNameless : (o : Option ℕ) (f : Fuse) → IsCounted f → IsNameless o (unhash_found o f)
unfolding unhash_found
unhash_found-IsNameless none f c n e = ground (arith, e)
unhash_found-IsNameless (some k) f c n e =
    subst (λ m. entries m (unhash_name k f).names ≡ 0) (some-injective k n e)
      (unhash_name-Keeps k f k c).0

hash_found-IsCounted :
    (allocated : Bool) (o : Option ℕ) (dir : ℕ) (name : List ℕ) (f : Fuse)
    → IsCounted f
    → IsHeld o f
    → IsNameless o f
    → 0 < f.nlookup dir
    → IsCounted (hash_found allocated o dir name f).0
unfolding hash_found
hash_found-IsCounted allocated none dir name f c held nameless above = c
hash_found-IsCounted true (some n) dir name f c held nameless above =
    hash_name-IsCounted n dir name f c (nameless n refl) (looked_up-refctr n f c (held n refl))
      (looked_up-refctr dir f c above)
hash_found-IsCounted false (some n) dir name f c held nameless above = c

hash_found-entries :
    (allocated : Bool) (o : Option ℕ) (dir : ℕ) (name : List ℕ) (f : Fuse) (m : ℕ)
    → ((n : ℕ) → o ≡ some n → m ≢ n)
    → entries m (hash_found allocated o dir name f).0.names ≡ entries m f.names
unfolding hash_found hash_name
hash_found-entries allocated none dir name f m other = refl
hash_found-entries true (some n) dir name f m other = ground (arith, other n refl)
hash_found-entries false (some n) dir name f m other = refl

hash_found-nlookup :
    (allocated : Bool) (o : Option ℕ) (dir : ℕ) (name : List ℕ) (f : Fuse) (m : ℕ)
    → (hash_found allocated o dir name f).0.nlookup m ≡ f.nlookup m
unfolding hash_found hash_name
hash_found-nlookup allocated none dir name f m = refl
hash_found-nlookup true (some n) dir name f m = refl
hash_found-nlookup false (some n) dir name f m = refl

pub exchange_node-IsCounted :
    (first second : Bool) (olddir : ℕ) (oldname : List ℕ) (newdir : ℕ) (newname : List ℕ) (f : Fuse)
    → IsCounted f
    → IsHeld (lookup_node olddir oldname f.names) f
    → IsHeld (lookup_node newdir newname f.names) f
    → AreApart (lookup_node olddir oldname f.names) (lookup_node newdir newname f.names)
    → 0 < f.nlookup olddir
    → 0 < f.nlookup newdir
    → IsCounted (exchange_node first second olddir oldname newdir newname f).0
unfolding exchange_node
exchange_node-IsCounted first second olddir oldname newdir newname f c held held' apart above
      above' =
    let old = lookup_node olddir oldname f.names in
    let new = lookup_node newdir newname f.names in
    let f1 = unhash_found old f in
    let f2 = unhash_found new f1 in
    let f3 = (hash_found first old newdir newname f2).0 in
    let c1 : IsCounted f1 = unhash_found-IsCounted old f c in
    let c2 : IsCounted f2 = unhash_found-IsCounted new f1 c1 in
    let kept : (m : ℕ) → f2.nlookup m ≡ f.nlookup m =
      λ m. (unhash_found-nlookup new f1 m c1).0 ∙ (unhash_found-nlookup old f m c).0 in
    let c3 : IsCounted f3 =
      hash_found-IsCounted first old newdir newname f2 c2 (λ n e. ground (arith, held n e, kept n))
        (λ n e.
          ground (arith, unhash_found-IsNameless old f c n e, (unhash_found-nlookup new f1 n c1).1))
        (ground (arith, above', kept newdir)) in
    let moved = hash_found first old newdir newname f2 in
    let back = hash_found second new olddir oldname f3 in
    let c4 : IsCounted back.0 =
      hash_found-IsCounted second new olddir oldname f3 c3
        (λ n e. ground (arith, held' n e, kept n, hash_found-nlookup first old newdir newname f2 n))
        (λ n e.
          (hash_found-entries first old newdir newname f2 n (λ k e'. apart k n e' e))
          ∙ unhash_found-IsNameless new f1 c1 n e)
        (ground
          (arith, above, kept olddir, hash_found-nlookup first old newdir newname f2 olddir)) in
    if_both (λ (r : Fuse × ℕ). IsCounted r.0) (not moved.1) (moved.0, enomem)
      (if not back.1 then (back.0, enomem) else (back.0, 0)) c3
      (if_both (λ (r : Fuse × ℕ). IsCounted r.0) (not back.1) (back.0, enomem) (back.0, 0) c4 c4)
