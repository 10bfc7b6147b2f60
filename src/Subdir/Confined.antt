-- ===== src/Subdir/Confined.antt =====
-- The module against a file system whose root is the base directory.
use fuse_study.Base.{
  ℕ, Bool, true, false, Option, none, some, List, [], ◌∷◌, ◌++◌, ◌==◌, ◌≡◌, ◌⊎◌, inl, inr, arith,
  refl, ap, ◌∙◌, if◌then◌else◌, Bool-cases, append_assoc, append-nil, ==_iff, lt→ltb, ◌<◌, ◌^◌, ◌%◌,
}
use fuse_study.Subdir.{
  Str, Subdir, is_empty, skip_slash, new_path, subdir_addpath, Op, Call, call, rename, link, Result,
  failed, done, read_link, offset, to_int, after_readlink, after_call, redirect, after, subdir_oper,
  with_slash,
}
use fuse_study.Subdir.Components.{
  split, components, components-skip_slash, components-append, components-nil,
}
use fuse_study.Subdir.Links.{resolve, resolve-append}

-- `subdir_new` leaves the base as it is or puts a slash behind it.
record IsClosed (b b' closed : Str) : Type 0 where
  ends : closed ≡ b' ++ b'/' ∷ []
  from : (b ≡ b') ⊎ (b ≡ b' ++ b'/' ∷ [])

also :
    (c e : ℕ) (b b' : Str)
    → (e ∷ b ≡ b') ⊎ (e ∷ b ≡ b' ++ b'/' ∷ [])
    → (c ∷ e ∷ b ≡ c ∷ b') ⊎ (c ∷ e ∷ b ≡ c ∷ (b' ++ b'/' ∷ []))
also c e b b' (inl h) = inl (ap (λ x. c ∷ x) h)
also c e b b' (inr h) = inr (ap (λ x. c ∷ x) h)

components-IsClosed : (b b' : Str) → (b ≡ b') ⊎ (b ≡ b' ++ b'/' ∷ []) → components b ≡ components b'
components-IsClosed b b' (inl h) = ap components h
components-IsClosed b b' (inr h) =
    ap components h
    ∙ components-append b' []
    ∙ ap (λ x. components b' ++ x) components-nil
    ∙ append-nil (components b')

with_slash-IsClosed : (c : ℕ) (b : Str) → (b' : Str) × IsClosed (c ∷ b) b' (with_slash (c ∷ b))
unfolding with_slash
with_slash-IsClosed c [] = elim (Bool-cases (c == b'/')) [
  | inl e ↦ (
    [],
    rw e (record {
      ends = ap (λ x. x ∷ []) ((==_iff c b'/').0 e);
      from = inr (ap (λ x. x ∷ []) ((==_iff c b'/').0 e));
    }),
  )
  | inr e ↦ (c ∷ [], rw e (record { ends = refl; from = inl refl }))
]
with_slash-IsClosed c (e ∷ b) =
    let (b', closed) = with_slash-IsClosed e b in
    (c ∷ b', record { ends = ap (λ x. c ∷ x) closed.ends; from = also c e b b' closed.from })

with_slash-nil : with_slash [] ≡ []
unfolding with_slash
with_slash-nil = refl

-- The slash is no part of a name.
components-with_slash : (b x : Str) → components (with_slash b ++ x) ≡ components b ++ components x
components-with_slash [] x = rw (with_slash-nil, components-nil) refl
components-with_slash (c ∷ b) x =
    let (b', closed) = with_slash-IsClosed c b in
    rw
      (
        closed.ends,
        append_assoc b' (b'/' ∷ []) x,
        components-append b' x,
        components-IsClosed (c ∷ b) b' closed.from,
      )
      refl

-- An empty path is the directory itself.
resolve-dot :
    (p : Str)
    → resolve [] (components (if is_empty p then b'.' ∷ [] else p)) ≡ resolve [] (components p)
unfolding split
resolve-dot [] = refl
resolve-dot (c ∷ p) = refl

-- Where the path that is handed on leads.
resolve-new_path :
    (b path : Str) (rellinks : Bool)
    → resolve [] (components (new_path (record { base = with_slash b; rellinks = rellinks }) path))
      ≡ resolve (resolve [] (components b)) (components path)
resolve-new_path b path rellinks =
    rw
      (
        resolve-dot (with_slash b ++ skip_slash path),
        components-with_slash b (skip_slash path),
        components-skip_slash path,
      )
      (resolve-append [] (components b) (components path))

-- A call with the places of the files in place of their paths.
pub data Located : Type 0 where
  at : Op → Option (List Str) → Located
  renamed : (from to : Option (List Str)) (flags : ℕ) → Located
  linked : (from to : Option (List Str)) → Located

-- Where a path leads, from the root that is given.
abbrev pub place : List Str → Option Str → Option (List Str)
place root none = none
place root (some path) = some (resolve root (components path))

abbrev pub locate : List Str → Call → Located
locate root (call op path) = at op (place root path)
locate root (rename from to flags) = renamed (place root from) (place root to) flags
locate root (link from to) = linked (place root from) (place root to)

-- An offset is one that an `int` holds.
abbrev pub FitsInt : Result → Type 0
FitsInt (failed e) = Unit
FitsInt (done v) = Unit
FitsInt (offset v) = v < 2 ^ 31
FitsInt (read_link buf size) = Unit

abbrev pub over : Str → Subdir
over b = record { base = with_slash b; rellinks = false }

subdir_addpath-place :
    (b : Str) (path : Option Str) (allocated : Bool)
    → allocated ≡ true
    → (newpath : Option Str) × (subdir_addpath allocated (over b) path ≡ some newpath)
      × (place [] newpath ≡ place (resolve [] (components b)) path)
unfolding subdir_addpath
subdir_addpath-place b none allocated all = (none, refl, refl)
subdir_addpath-place b (some path) allocated all =
    (some (new_path (over b) path), rw all refl, ap some (resolve-new_path b path false))

to_int_lem : (v : ℕ) → v < 2 ^ 31 → to_int v ≡ offset v
unfolding to_int
to_int_lem v h =
    let small : v % 2 ^ 32 ≡ v = omega (arith, h) in rw (to_int, small, lt→ltb v (2 ^ 31) h) refl

after_call-over :
    (b : Str) (newpath : Option Str) (r : Result) → FitsInt r → after_call (over b) newpath r ≡ r
unfolding to_int after_readlink
after_call-over b newpath (failed e) h = refl
after_call-over b newpath (done v) h = refl
after_call-over b newpath (offset v) h = to_int_lem v h
after_call-over b none (read_link buf size) h = refl
after_call-over b (some newpath) (read_link buf size) h = refl

redirect-locate :
    (b : Str) (allocated : ℕ → Bool) (c : Call)
    → ((n : ℕ) → allocated n ≡ true)
    → (c' : Call) × (redirect allocated (over b) c ≡ some c')
      × (locate [] c' ≡ locate (resolve [] (components b)) c)
      × ((r : Result) → FitsInt r → after (over b) c' r ≡ r)
unfolding redirect
redirect-locate b allocated (call op path) all =
    let (newpath, eq, moved) = subdir_addpath-place b path (allocated 0) (all 0) in
    (call op newpath, rw (redirect, eq) refl, ap (at op) moved, after_call-over b newpath)
redirect-locate b allocated (rename from to flags) all =
    let (newfrom, eq_from, moved_from) = subdir_addpath-place b from (allocated 0) (all 0) in
    let (newto, eq_to, moved_to) = subdir_addpath-place b to (allocated 1) (all 1) in
    (
      rename newfrom newto flags,
      rw (redirect, eq_from, eq_to) refl,
      rw (moved_from, moved_to) refl,
      λ r h. refl,
    )
redirect-locate b allocated (link from to) all =
    let (newfrom, eq_from, moved_from) = subdir_addpath-place b from (allocated 0) (all 0) in
    let (newto, eq_to, moved_to) = subdir_addpath-place b to (allocated 1) (all 1) in
    (
      link newfrom newto,
      rw (redirect, eq_from, eq_to) refl,
      rw (moved_from, moved_to) refl,
      λ r h. refl,
    )

-- The module over a file system, with enough memory and without `rellinks`, is that file system
-- with the directory `b` of the option `subdir=` as its root, as long as no offset is 2^31 or more.
pub subdir_oper-locate :
    {S : Type 0} (fs : Located → S → Result × S) (b : Str) (allocated : ℕ → Bool) (c : Call) (s : S)
    → ((n : ℕ) → allocated n ≡ true)
    → FitsInt (fs (locate (resolve [] (components b)) c) s).0
    → subdir_oper (λ c'. fs (locate [] c')) allocated (over b) c s
      ≡ fs (locate (resolve [] (components b)) c) s
unfolding subdir_oper
subdir_oper-locate fs b allocated c s all fits =
    let (c', eq, moved, kept) = redirect-locate b allocated c all in
    rw (subdir_oper, eq, moved, kept (fs (locate (resolve [] (components b)) c) s).0 fits) refl
