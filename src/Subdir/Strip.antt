-- ===== src/Subdir/Strip.antt =====
-- `strip_common`: what it takes away from both paths.
use fuse_study.Base.{
  ℕ, zero, suc, Bool, true, false, List, [], ◌∷◌, ◌++◌, ◌==◌, ◌≡◌, ◌≤◌, ◌<◌, ◌+◌, ◌&&◌, not, arith,
  refl, sym, ap, ◌∙◌, length, inl, inr, Bool-cases, append_assoc, append-nil,
}
use fuse_study.Subdir.{Str, is_rooted, skip_slashes, skip_equal, again, strip_loop, strip_common}
use fuse_study.Subdir.Components.{
  split, split-name, piece, components, piece-append, components-skip_slashes,
  is_rooted-skip_slashes, length-skip_slashes, split-rooted, split-nil,
}

-- The same bytes are taken away from both, and no slash is among them.
record IsEqualPart (s t s' t' : Str) : Type 0 where
  word : Str
  of_s : split s ≡ (word ++ (split s').0, (split s').1)
  of_t : split t ≡ (word ++ (split t').0, (split t').1)

goes_on : (c e : ℕ) → ((c == e) && not (c == b'/')) ≡ true → (c ≡ e) × ((c == b'/') ≡ false)
goes_on c e h = ground arith

skip_equal-IsEqualPart : (s t : Str) → IsEqualPart s t (skip_equal s t).0 (skip_equal s t).1
unfolding skip_equal
skip_equal-IsEqualPart [] t = record { word = []; of_s = refl; of_t = refl }
skip_equal-IsEqualPart (c ∷ s) [] = record { word = []; of_s = refl; of_t = refl }
skip_equal-IsEqualPart (c ∷ s) (e ∷ t) = elim (Bool-cases ((c == e) && not (c == b'/'))) [
  | inr stop ↦ rw stop (record { word = []; of_s = refl; of_t = refl })
  | inl go ↦
      let ih = skip_equal-IsEqualPart s t in
      let same = goes_on c e go in
      rw go (record {
        word = c ∷ ih.word;
        of_s = rw (split-name c s same.1, ih.of_s) refl;
        of_t = rw (sym same.0, split-name c t same.1, ih.of_t) refl;
      })
]

skip_equal-length :
    (s t : Str) → (length (skip_equal s t).0 ≤ length s) × (length (skip_equal s t).1 ≤ length t)
unfolding skip_equal
skip_equal-length [] t = (ground arith, ground arith)
skip_equal-length (c ∷ s) [] = (ground arith, ground arith)
skip_equal-length (c ∷ s) (e ∷ t) = ground (arith, skip_equal-length s t)

-- Where `skip_equal` stops.
halted : Str → Str → Bool
halted [] t = true
halted (c ∷ s) [] = true
halted (c ∷ s) (e ∷ t) = not ((c == e) && not (c == b'/'))

skip_equal-halted : (s t : Str) → halted (skip_equal s t).0 (skip_equal s t).1 ≡ true
unfolding skip_equal halted
skip_equal-halted [] t = refl
skip_equal-halted (c ∷ s) [] = refl
skip_equal-halted (c ∷ s) (e ∷ t) = elim (Bool-cases ((c == e) && not (c == b'/'))) [
  | inl go ↦ rw go (skip_equal-halted s t)
  | inr stop ↦ rw (stop, stop) refl
]

length-skip_rooted : (p : Str) → is_rooted p ≡ true → length (skip_slashes p) < length p
unfolding skip_slashes
length-skip_rooted [] h = ground arith
length-skip_rooted (c ∷ p) h = rw h (omega (arith, length-skip_slashes p))

-- Another round starts between two names, and behind a slash.
record IsBetween (s t : Str) : Type 0 where
  ended_s : (split s).0 ≡ []
  ended_t : (split t).0 ≡ []
  shorter : length (skip_slashes s) + length (skip_slashes t) < length s + length t

both_slashes :
    (c e : ℕ)
    → not ((c == e) && not (c == b'/')) ≡ true
    → (c == e) ≡ true
    → ((c == b'/') ≡ true) × ((e == b'/') ≡ true)
both_slashes c e hs h = ground arith

again-IsBetween : (s t : Str) → halted s t ≡ true → again s t ≡ true → IsBetween s t
unfolding again halted
again-IsBetween [] [] hs h = ground arith
again-IsBetween [] (e ∷ t) hs h = record {
  ended_s = split-nil;
  ended_t = split-rooted (e ∷ t) h;
  shorter = omega (arith, length-skip_slashes [], length-skip_rooted (e ∷ t) h);
}
again-IsBetween (c ∷ s) [] hs h = record {
  ended_s = split-rooted (c ∷ s) h;
  ended_t = split-nil;
  shorter = omega (arith, length-skip_slashes [], length-skip_rooted (c ∷ s) h);
}
again-IsBetween (c ∷ s) (e ∷ t) hs h =
    let rooted = both_slashes c e hs h in
    record {
      ended_s = split-rooted (c ∷ s) rooted.0;
      ended_t = split-rooted (e ∷ t) rooted.1;
      shorter =
          omega (arith, length-skip_rooted (c ∷ s) rooted.0, length-skip_rooted (e ∷ t) rooted.1);
    }

-- What is left of two paths behind the names that both begin with.
pub record IsStripped (s t s' t' : Str) : Type 0 where
  pub common : List Str
  pub of_s : components s ≡ common ++ components s'
  pub of_t : components t ≡ common ++ components t'
  pub unrooted : is_rooted s' ≡ false
  pub complete : again (skip_equal s' t').0 (skip_equal s' t').1 ≡ false

cut_name :
    (s s' w : Str)
    → split s ≡ (w ++ (split s').0, (split s').1)
    → (split s').0 ≡ []
    → components s ≡ piece w [] ++ components s'
cut_name s s' w part ended = rw (part, ended, append-nil w) (piece-append w [] (split s').1)

round_lem :
    (s t : Str)
    → again (skip_equal s t).0 (skip_equal s t).1 ≡ true
    → (common : List Str) × (components s ≡ common ++ components (skip_equal s t).0)
      × (components t ≡ common ++ components (skip_equal s t).1)
      × (length (skip_slashes (skip_equal s t).0) + length (skip_slashes (skip_equal s t).1)
          < length s + length t)
round_lem s t h =
    let part = skip_equal-IsEqualPart s t in
    let between = again-IsBetween (skip_equal s t).0 (skip_equal s t).1 (skip_equal-halted s t) h in
    let len = skip_equal-length s t in
    (
      piece part.word [],
      cut_name s (skip_equal s t).0 part.word part.of_s between.ended_s,
      cut_name t (skip_equal s t).1 part.word part.of_t between.ended_t,
      omega (arith, between.shorter, len.0, len.1),
    )

strip_loop-IsStripped :
    (fuel : ℕ) (s t : Str)
    → length (skip_slashes s) + length (skip_slashes t) < fuel
    → IsStripped s t (strip_loop fuel s t).0 (strip_loop fuel s t).1
unfolding strip_loop
strip_loop-IsStripped zero s t le = ground arith
strip_loop-IsStripped (suc fuel) s t le =
    let s' = skip_slashes s in
    let t' = skip_slashes t in
    let r = skip_equal s' t' in
    elim (Bool-cases (again r.0 r.1)) [
      | inr stop ↦ rw stop (record {
        common = [];
        of_s = sym (components-skip_slashes s);
        of_t = sym (components-skip_slashes t);
        unrooted = is_rooted-skip_slashes s;
        complete = stop;
      })
      | inl go ↦
          let (common, of_s, of_t, shorter) = round_lem s' t' go in
          let ih = strip_loop-IsStripped fuel r.0 r.1 (omega (arith, shorter, le)) in
          rw go (record {
            common = common ++ ih.common;
            of_s =
                sym (components-skip_slashes s)
                ∙ of_s
                ∙ ap (λ w. common ++ w) ih.of_s
                ∙ sym (append_assoc common ih.common (components (strip_loop fuel r.0 r.1).0));
            of_t =
                sym (components-skip_slashes t)
                ∙ of_t
                ∙ ap (λ w. common ++ w) ih.of_t
                ∙ sym (append_assoc common ih.common (components (strip_loop fuel r.0 r.1).1));
            unrooted = ih.unrooted;
            complete = ih.complete;
          })
    ]

-- `strip_common` takes the same names away from both paths, as many as it can, and ends.
pub strip_common-IsStripped : (s t : Str) → IsStripped s t (strip_common s t).0 (strip_common s t).1
unfolding strip_common
strip_common-IsStripped s t =
    strip_loop-IsStripped (1 + (length s + length t)) s t
      (omega (arith, length-skip_slashes s, length-skip_slashes t))
