-- ===== src/Nodes/Counts.antt =====
-- What the counts of a node stand for.
use fuse_study.Base.{
  ℕ, Bool, true, false, Option, none, some, List, [], ◌∷◌, ◌==◌, ◌≡◌, ◌≤◌, ◌+◌, ltb, ◌||◌, arith,
  refl, ap, if◌then◌else◌, length, Bool-cases, inl, inr,
}
use fuse_study.Nodes.{Entry, Fuse, entry_of, without}

-- The names below a directory, and the names of a node.
abbrev pub children : ℕ → List Entry → ℕ
children n [] = 0
children n (e ∷ es) = (if e.parent == n then 1 else 0) + children n es

abbrev pub entries : ℕ → List Entry → ℕ
entries n [] = 0
entries n (e ∷ es) = (if e.child == n then 1 else 0) + entries n es

abbrev pub one_if : Bool → ℕ
one_if true = 1
one_if false = 0

-- The lookups of a node together are one reference.
abbrev pub looked_up : ℕ → ℕ
looked_up nlookup = if nlookup == 0 then 0 else 1

-- Each reference on a node is counted, but for those that are still to be given up (`owed`), and
-- the nodes in the table of ids are those with references and those whose deletion has begun
-- (`leaving`).
pub record Counted (owed : ℕ → ℕ) (leaving : ℕ → Bool) (f : Fuse) : Type 0 where
  pub refs : (n : ℕ) → f.refctr n ≡ looked_up (f.nlookup n) + (children n f.names + owed n)
  pub kept : (n : ℕ) → f.in_ids n ≡ (ltb 0 (f.refctr n) || leaving n)
  pub gone : (n : ℕ) → leaving n ≡ true → f.refctr n ≡ 0
  pub once : (n : ℕ) → entries n f.names ≤ 1
  pub unnamed : (n : ℕ) → f.refctr n ≡ 0 → entries n f.names ≡ 0

abbrev pub nothing : ℕ → ℕ
nothing n = 0

abbrev pub nobody : ℕ → Bool
nobody n = false

-- One reference on `p`.
abbrev pub one : ℕ → ℕ → ℕ
one p n = if n == p then 1 else 0

-- The heap between two requests.
abbrev pub IsCounted : Fuse → Type 0
IsCounted f = Counted nothing nobody f

pub entry_of-none : (n : ℕ) (es : List Entry) → entry_of n es ≡ none → entries n es ≡ 0
entry_of-none n [] h = refl
entry_of-none n (e ∷ es) h = ground (arith, entry_of-none n es)

abbrev parent_or : Option Entry → ℕ
parent_or none = 0
parent_or (some e) = e.parent

pub children-without :
    (n m : ℕ) (e : Entry) (es : List Entry)
    → entry_of n es ≡ some e
    → children m es ≡ children m (without n es) + one e.parent m
children-without n m e [] h = ground arith
children-without n m e (e' ∷ es) h = elim (Bool-cases (e'.child == n)) [
  | inl k ↦
      let same : parent_or (entry_of n (e' ∷ es)) ≡ e.parent = ap parent_or h in
      ground (arith, k, same)
  | inr k ↦ ground (arith, k, children-without n m e es)
]

pub entries-without :
    (n m : ℕ) (e : Entry) (es : List Entry)
    → entry_of n es ≡ some e
    → entries m es ≡ entries m (without n es) + one n m
entries-without n m e [] h = ground arith
entries-without n m e (e' ∷ es) h = elim (Bool-cases (e'.child == n)) [
  | inl k ↦ ground (arith, k)
  | inr k ↦ ground (arith, k, entries-without n m e es)
]

pub length-without :
    (n : ℕ) (e : Entry) (es : List Entry)
    → entry_of n es ≡ some e
    → length (without n es) + 1 ≡ length es
length-without n e [] h = ground arith
length-without n e (e' ∷ es) h = elim (Bool-cases (e'.child == n)) [
  | inl k ↦ ground (arith, k)
  | inr k ↦ ground (arith, k, length-without n e es)
]
