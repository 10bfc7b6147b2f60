-- ===== src/Subdir/Components.antt =====
-- The names in a path.
use fuse_study.Base.{
  ℕ, zero, suc, true, false, List, [], ◌∷◌, ◌++◌, ◌==◌, ◌≡◌, ◌≤◌, arith, refl, sym, ap, ◌∙◌,
  if◌then◌else◌, length, inl, inr, Bool-cases, replicate,
}
use fuse_study.Subdir.{
  Str, is_rooted, skip_slash, skip_slashes, skip_name, count_loop, count_components, up,
}

abbrev pub piece : Str → List Str → List Str
piece [] ws = ws
piece (c ∷ w) ws = (c ∷ w) ∷ ws

-- The bytes up to the first slash, and the names behind it.
unfoldable pub split : Str → Str × List Str
split [] = ([], [])
split (c ∷ p) = let r = split p in if c == b'/' then ([], piece r.0 r.1) else (c ∷ r.0, r.1)

-- The names in a path, without the empty ones.
abbrev pub components : Str → List Str
components p = piece (split p).0 (split p).1

pub piece-append : (w : Str) (xs ys : List Str) → piece w (xs ++ ys) ≡ piece w xs ++ ys
piece-append [] xs ys = refl
piece-append (c ∷ w) xs ys = refl

pub components-skip_slashes : (p : Str) → components (skip_slashes p) ≡ components p
unfolding skip_slashes split
components-skip_slashes [] = refl
components-skip_slashes (c ∷ p) = ground (arith, components-skip_slashes p)

pub components-skip_slash : (p : Str) → components (skip_slash p) ≡ components p
unfolding split
components-skip_slash [] = refl
components-skip_slash (c ∷ p) = ground arith

pub is_rooted-skip_slashes : (p : Str) → is_rooted (skip_slashes p) ≡ false
unfolding skip_slashes
is_rooted-skip_slashes [] = refl
is_rooted-skip_slashes (c ∷ p) = ground (arith, is_rooted-skip_slashes p)

pub length-skip_slashes : (p : Str) → length (skip_slashes p) ≤ length p
unfolding skip_slashes
length-skip_slashes [] = ground arith
length-skip_slashes (c ∷ p) = ground (arith, length-skip_slashes p)

pub split-nil : (split []).0 ≡ []
unfolding split
split-nil = refl

-- A slash ends a name.
pub split-rooted : (p : Str) → is_rooted p ≡ true → (split p).0 ≡ []
unfolding split
split-rooted [] h = refl
split-rooted (c ∷ p) h = ground arith

split-skip_name : (p : Str) → components (skip_name p) ≡ (split p).1
unfolding skip_name split
split-skip_name [] = refl
split-skip_name (c ∷ p) = ground (arith, split-skip_name p)

length-skip_name : (p : Str) → length (skip_name p) ≤ length p
unfolding skip_name
length-skip_name [] = ground arith
length-skip_name (c ∷ p) = ground (arith, length-skip_name p)

-- Behind the first slash of an absolute path, or of the next name.
split-append : (x y : Str) → split (x ++ b'/' ∷ y) ≡ ((split x).0, (split x).1 ++ components y)
unfolding split
split-append [] y = refl
split-append (c ∷ x) y = elim (Bool-cases (c == b'/')) [
  | inl e ↦
      rw (e, split-append x y)
        (ap (λ z. ([], z)) (piece-append (split x).0 (split x).1 (components y)))
  | inr e ↦ rw (e, split-append x y) refl
]

pub components-append : (x y : Str) → components (x ++ b'/' ∷ y) ≡ components x ++ components y
components-append x y = rw (split-append x y) (piece-append (split x).0 (split x).1 (components y))

pub split-name :
    (c : ℕ) (p : Str) → (c == b'/') ≡ false → split (c ∷ p) ≡ (c ∷ (split p).0, (split p).1)
unfolding split
split-name c p h = rw h refl

components-name :
    (c : ℕ) (p : Str)
    → is_rooted (c ∷ p) ≡ false
    → components (c ∷ p) ≡ (c ∷ (split p).0) ∷ (split p).1
unfolding split
components-name c p root = rw root refl

skip_name-name : (c : ℕ) (p : Str) → is_rooted (c ∷ p) ≡ false → skip_name (c ∷ p) ≡ skip_name p
unfolding skip_name
skip_name-name c p root = rw root refl

pub components-nil : components [] ≡ []
unfolding split
components-nil = refl

count_loop_lem :
    (fuel : ℕ) (p : Str)
    → length p ≤ fuel
    → is_rooted p ≡ false
    → count_loop fuel p ≡ length (components p)
unfolding count_loop
count_loop_lem zero [] le root = ap length (sym components-nil)
count_loop_lem zero (c ∷ p) le root = omega arith
count_loop_lem (suc fuel) [] le root = ap length (sym components-nil)
count_loop_lem (suc fuel) (c ∷ p) le root =
    rw (components-name c p root, skip_name-name c p root)
      (ap suc (
        count_loop_lem fuel (skip_slashes (skip_name p))
          (omega (arith, length-skip_slashes (skip_name p), length-skip_name p))
          (is_rooted-skip_slashes (skip_name p))
        ∙ ap length (components-skip_slashes (skip_name p) ∙ split-skip_name p)))

pub count_components_lem : (p : Str) → count_components p ≡ length (components p)
unfolding count_components
count_components_lem p =
    count_loop_lem (length p) (skip_slashes p) (length-skip_slashes p) (is_rooted-skip_slashes p)
    ∙ ap length (components-skip_slashes p)

abbrev pub dotdot : Str
dotdot = b'.' ∷ b'.' ∷ []

pub components-up : (n : ℕ) (x : Str) → components (up n ++ x) ≡ replicate n dotdot ++ components x
unfolding up split
components-up zero x = refl
components-up (suc n) x = ap (λ w. dotdot ∷ w) (components-up n x)
