-- ===== src/Opt/Match.antt =====
-- What a match of a template says.
use native.Mathlib.Numerals.{add-one}
use fuse_study.Base.{
  ℕ, zero, suc, true, none, some, [], ◌∷◌, ◌==◌, leb, ◌≡◌, ◌≢◌, ◌≤◌, ◌⊎◌, ◌&&◌, ◌||◌, inl, inr, ◌+◌,
  arith, refl, subst, Bool-cases, Option-cases, if◌then◌else◌, length, take,
}
use fuse_study.Opt.Text.{Str, char_at, str_chr, str_eq}
use fuse_study.Opt.Template.{match_template, separator, str_neq}

pub str_eq-eq : (a b : Str) → str_eq a b ≡ true → a ≡ b
unfolding str_eq
str_eq-eq [] [] h = refl
str_eq-eq (x ∷ xs) (y ∷ ys) h = ground (arith, str_eq-eq xs ys)
str_eq-eq [] (y ∷ ys) h = cc
str_eq-eq (x ∷ xs) [] h = cc

pub str_eq_refl : (a : Str) → str_eq a a ≡ true
unfolding str_eq
str_eq_refl [] = refl
str_eq_refl (x ∷ xs) = ground (arith, str_eq_refl xs)

str_chr-char : (s : Str) (c i : ℕ) → str_chr s c ≡ some i → char_at s i ≡ c
unfolding str_chr
str_chr-char [] c i h = cc
str_chr-char (a ∷ s) c zero h = ground arith
str_chr-char (a ∷ s) c (suc i) h = ground (arith, str_chr-char s c i)

separator-char :
    (t : Str) (i : ℕ) → separator t ≡ some i → (char_at t i ≡ b'=') ⊎ (char_at t i ≡ b' ')
separator-char t i h = ground (arith, str_chr-char t b'=' i, str_chr-char t b' ' i)

take_shorter : (n : ℕ) (s t : Str) → take (suc n) s ≡ take (suc n) t → take n s ≡ take n t
take_shorter zero s t h = refl
take_shorter (suc n) [] [] h = refl
take_shorter (suc n) [] (b ∷ t) h = cc
take_shorter (suc n) (a ∷ s) [] h = cc
take_shorter (suc n) (a ∷ s) (b ∷ t) h =
    let heads : a ≡ b = cc in
    let tails : take (suc n) s ≡ take (suc n) t = cc in cc (heads, take_shorter n s t tails)

-- The template takes a parameter behind the separator at `sep`, and the argument begins with what
-- stands before it.
pub record IsPrefixMatch (t arg : Str) (sep : ℕ) : Type 0 where
  pub sign : (char_at t sep ≡ b'=') ⊎ (char_at t sep ≡ b' ')
  pub after : (char_at t (sep + 1) ≡ 0) ⊎ (char_at t (sep + 1) ≡ b'%')
  pub long : sep ≤ length arg
  pub start : take sep arg ≡ take sep t

prefix_match :
    (t arg : Str) (i : ℕ)
    → separator t ≡ some i
    → ((char_at t (i + 1) == 0) || (char_at t (i + 1) == b'%')) ≡ true
    → (leb (if char_at t i == b'=' then i + 1 else i) (length arg)
        && str_neq (if char_at t i == b'=' then i + 1 else i) arg t)
      ≡ true
    → IsPrefixMatch t arg i
unfolding str_neq
prefix_match t arg i e param same = record {
  sign = separator-char t i e;
  after = ground (arith, param);
  long = ground (arith, same);
  start = elim (Bool-cases (char_at t i == b'=')) [
    | inl equals ↦
        let longer : take (i + 1) arg ≡ take (i + 1) t =
          ground (arith, equals, same, str_eq-eq (take (i + 1) arg) (take (i + 1) t)) in
        take_shorter i arg t (rw add-one at longer)
    | inr blank ↦ ground (arith, blank, same, str_eq-eq (take i arg) (take i t))
  ];
}

-- When `match_template` matches, either the argument is the template itself and `*sepp` is 0, or
-- `*sepp` is the index of a `=` or a blank in the template that is last or stands before a `%`,
-- and the argument begins with the template up to it.
pub match_template-some :
    (t arg : Str) (sep : ℕ)
    → match_template t arg ≡ some sep
    → ((arg ≡ t) × (sep ≡ 0)) ⊎ IsPrefixMatch t arg sep
unfolding match_template
match_template-some t arg sep h = elim (Option-cases (separator t)) [
  | inl e ↦ inl (ground (arith, e, str_eq-eq t arg))
  | inr (i, e) ↦ elim (Bool-cases ((char_at t (i + 1) == 0) || (char_at t (i + 1) == b'%'))) [
    | inr plain ↦ inl (ground (arith, e, plain, str_eq-eq t arg))
    | inl param ↦
        let tlen : ℕ = if char_at t i == b'=' then i + 1 else i in
        elim (Bool-cases (leb tlen (length arg) && str_neq tlen arg t)) [
          | inr other ↦ inl (ground (arith, e, param, other, str_eq-eq t arg))
          | inl same ↦
              let here : i ≡ sep = ground (arith, e, param, same) in
              inr
                (subst (λ (k : ℕ). IsPrefixMatch t arg k) here (prefix_match t arg i e param same))
        ]
  ]
]

-- A template matches itself.
pub match_template-none : (t arg : Str) → match_template t arg ≡ none → arg ≢ t
unfolding match_template
match_template-none t arg h eq =
    let here : match_template t t ≡ none = subst (λ (a : Str). match_template t a ≡ none) eq h in
    elim (Option-cases (separator t)) [
      | inl e ↦ ground (arith, e, here, str_eq_refl t)
      | inr (i, e) ↦ ground (arith, e, here, str_eq_refl t)
    ]
