-- ===== src/Mount/Scan.antt =====
-- Finding the end of an option.
use fuse_study.Base.{
  ℕ, Bool, true, false, [], ◌∷◌, ◌++◌, ◌==◌, ◌≡◌, ◌≢◌, ◌≤◌, ◌&&◌, ◌||◌, not, length, arith, refl,
  inl, inr, Bool-cases, ==_iff, drop, sym,
}
use fuse_study.Opt.Text.{Str, escape}
use fuse_study.Mount.{begins_with, cut, unescape_opt, is_empty, skip_comma}

abbrev pub HasNoComma : Str → Type 0
HasNoComma [] = Unit
HasNoComma (c ∷ s) = (c ≢ b',') × HasNoComma s

pub HasNoComma-append : (s t : Str) → HasNoComma s → HasNoComma t → HasNoComma (s ++ t)
HasNoComma-append [] t h k = k
HasNoComma-append (c ∷ s) t (n, h) k = (n, HasNoComma-append s t h k)

pub HasNoComma-right : (s t : Str) → HasNoComma (s ++ t) → HasNoComma t
HasNoComma-right [] t h = h
HasNoComma-right (c ∷ s) t (n, h) = HasNoComma-right s t h

-- Without escapes an option ends at its first comma.
pub cut-HasNoComma : (s : Str) → HasNoComma (cut false false s).0
unfolding cut
cut-HasNoComma [] = tt
cut-HasNoComma (c ∷ s) = elim (Bool-cases (c == b',')) [
  | inl e ↦ rw e tt
  | inr e ↦ rw e (ground (arith, e), cut-HasNoComma s)
]

pub cut-plain :
    (o rest : Str) → HasNoComma o → cut false false (o ++ b',' ∷ rest) ≡ (o, b',' ∷ rest)
unfolding cut
cut-plain [] rest h = refl
cut-plain (c ∷ o) rest (n, h) = elim (Bool-cases (c == b',')) [
  | inl e ↦ absurd (n ((==_iff c b',').0 e))
  | inr e ↦ rw (e, cut-plain o rest h) refl
]

-- The end of an option, and the comma behind it, are behind the beginning of the option.
pub cut-shorter : (ok esc : Bool) (s : Str) → length (cut ok esc s).1 ≤ length s
unfolding cut
cut-shorter ok esc [] = ground arith
cut-shorter ok esc (c ∷ s) =
    let ih = cut-shorter ok (ok && (not esc && ((c == b'\\') && not (is_empty s)))) s in
    elim (Bool-cases (not esc && (c == b','))) [
      | inl e ↦ rw e (ground arith)
      | inr e ↦ rw e (omega (arith, ih))
    ]

rest_shorter : (r : Str) (n : ℕ) → length r ≤ n → length (skip_comma r) ≤ n
rest_shorter [] n h = h
rest_shorter (c ∷ r) n h = omega (arith, h)

pub skip_comma-shorter :
    (ok : Bool) (c : ℕ) (s : Str) → length (skip_comma (cut ok false (c ∷ s)).1) ≤ length s
unfolding cut
skip_comma-shorter ok c s = elim (Bool-cases (c == b',')) [
  | inl e ↦ rw e (ground arith)
  | inr e ↦
      let esc = ok && ((c == b'\\') && not (is_empty s)) in
      rw e (rest_shorter (cut ok esc s).1 (length s) (cut-shorter ok esc s))
]

pub begins_with-split : (s beg : Str) → begins_with s beg ≡ true → s ≡ beg ++ drop (length beg) s
unfolding begins_with
begins_with-split s [] h = refl
begins_with-split [] (b ∷ beg) h = ground arith
begins_with-split (c ∷ s) (b ∷ beg) h =
    let same : c ≡ b = ground (arith, h) in
    rw (same, sym (begins_with-split s beg (ground (arith, h)))) refl

-- What the rest of the options begins with, the option begins with.
pub begins_with-cut :
    (s beg : Str)
    → HasNoComma beg
    → begins_with s beg ≡ true
    → begins_with (cut false false s).0 beg ≡ true
unfolding begins_with cut
begins_with-cut s [] n h = refl
begins_with-cut [] (b ∷ beg) n h = h
begins_with-cut (c ∷ s) (b ∷ beg) (n, ns) h = elim (Bool-cases (c == b',')) [
  | inl e ↦ ground (arith, e, h, n)
  | inr e ↦ let ih = begins_with-cut s beg ns (ground (arith, h)) in rw e (ground (arith, h, ih))
]

neither :
    (c : ℕ) → ((c == b',') || (c == b'\\')) ≡ false → ((c == b',') ≡ false) × ((c == b'\\') ≡ false)
neither c h = ground (arith, h)

-- An option that was escaped is found whole, and read as it was.
pub cut-escape :
    (o rest : Str) → cut true false (escape true o ++ b',' ∷ rest) ≡ (escape true o, b',' ∷ rest)
unfolding cut escape
cut-escape [] rest = refl
cut-escape (c ∷ o) rest = elim (Bool-cases ((c == b',') || (c == b'\\'))) [
  | inl e ↦ rw (e, cut-escape o rest) refl
  | inr e ↦
      let (no_comma, no_slash) = neither c e in rw (e, no_comma, no_slash, cut-escape o rest) refl
]

pub unescape-escape : (o : Str) → unescape_opt false (escape true o) ≡ o
unfolding unescape_opt escape
unescape-escape [] = refl
unescape-escape (c ∷ o) = elim (Bool-cases ((c == b',') || (c == b'\\'))) [
  | inl e ↦ rw (e, unescape-escape o) refl
  | inr e ↦ rw (e, (neither c e).1, unescape-escape o) refl
]
