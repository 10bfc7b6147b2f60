-- ===== src/Opt/Escape.antt =====
-- `fuse_opt_add_opt_escaped` against `process_real_option_group`: what is joined with escapes is
-- taken apart into the same options.
use fuse_study.Base.{
  zero, true, Option, none, some, List, [], ◌∷◌, ◌++◌, ◌==◌, ◌≡◌, ◌≢◌, ◌<◌, arith, refl, sym, ap,
  ◌∙◌, append-nil, append_assoc, Bool-cases, Option-cases, inl, inr, length, length-append,
}
use fuse_study.Opt.Text.{
  Str, escape, fuse_opt_add_opt_escaped, old_opts, c_string, group_loop, process_real_option_group,
}

-- A C string: no byte of it is the NUL.
abbrev pub IsCString : Str → Type 0
IsCString [] = Unit
IsCString (c ∷ s) = (c ≢ 0) × IsCString s

abbrev pub AreOptions : List Str → Type 0
AreOptions [] = Unit
AreOptions (o ∷ os) = IsCString o × (0 < length o) × AreOptions os

c_string_lem : (s : Str) → IsCString s → c_string s ≡ s
unfolding c_string
c_string_lem [] h = refl
c_string_lem (c ∷ s) h = ground (arith, c_string_lem s)

-- Repeated calls of `fuse_opt_add_opt_escaped`.
abbrev pub add_all : Option Str → List Str → Option Str
add_all opts [] = opts
add_all opts (o ∷ os) = add_all (fuse_opt_add_opt_escaped opts o) os

-- What follows the first option in the joined string.
tail_of : List Str → Str
tail_of [] = []
tail_of (o ∷ os) = b',' ∷ (escape true o ++ tail_of os)

add_opt-joined :
    (s o : Str)
    → 0 < length s
    → fuse_opt_add_opt_escaped (some s) o ≡ some ((s ++ b',' ∷ []) ++ escape true o)
unfolding fuse_opt_add_opt_escaped
add_opt-joined s o pos = ground arith

add_all-tail :
    (s : Str) (os : List Str) → 0 < length s → old_opts (add_all (some s) os) ≡ s ++ tail_of os
unfolding tail_of
add_all-tail s [] pos = sym (append-nil s)
add_all-tail s (o ∷ os) pos = rw (add_opt-joined s o pos) (
    add_all-tail ((s ++ b',' ∷ []) ++ escape true o) os
      (omega (arith, length-append (s ++ b',' ∷ []) (escape true o), length-append s (b',' ∷ [])))
    ∙ simp append_assoc)

escape_pos : (o : Str) → 0 < length o → 0 < length (escape true o)
unfolding escape
escape_pos [] h = h
escape_pos (c ∷ o) h = ground arith

module _ {C : Type 0} (run : C → Str → Option C) where
  abbrev pub run_all : List Str → C → Option C
  run_all [] ctx = some ctx
  run_all (o ∷ os) ctx = elim (run ctx o) [ none ↦ none | some ctx' ↦ run_all os ctx' ]

  group_loop-escape :
      (o acc rest : Str) (ctx : C)
      → group_loop run acc zero (escape true o ++ rest) ctx
        ≡ group_loop run (acc ++ o) zero rest ctx
  unfolding group_loop escape
  group_loop-escape [] acc rest ctx = rw (append-nil acc)
  group_loop-escape (c ∷ o) acc rest ctx =
      let ih : group_loop run (acc ++ c ∷ []) zero (escape true o ++ rest) ctx
          ≡ group_loop run (acc ++ c ∷ o) zero rest ctx =
        group_loop-escape o (acc ++ c ∷ []) rest ctx
        ∙ ap (λ (a : Str). group_loop run a zero rest ctx) (append_assoc acc (c ∷ []) o) in
      elim (Bool-cases (c == b',')) [
        | inl comma ↦ ground (arith, ih)
        | inr other ↦ elim (Bool-cases (c == b'\\')) [
          | inl back ↦ ground (arith, ih)
          | inr plain ↦ ground (arith, ih)
        ]
      ]

  group_loop-tail :
      (o : Str) (os : List Str) (ctx : C)
      → IsCString o
      → AreOptions os
      → group_loop run o zero (tail_of os) ctx ≡ run_all (o ∷ os) ctx
  unfolding tail_of group_loop
  group_loop-tail o [] ctx h hs = ground (arith, c_string_lem o h)
  group_loop-tail o (p ∷ os) ctx h hs = rw (c_string_lem o h) (elim (Option-cases (run ctx o)) [
    | inl e ↦ rw (e, run_all) refl
    | inr (d, e) ↦
        rw (e, run_all) (group_loop-escape p [] (tail_of os) d ∙ group_loop-tail p os d hs.0 hs.2)
  ])

  -- Options that are joined by `fuse_opt_add_opt_escaped` and handed to
  -- `process_real_option_group` reach `process_gopt` one by one, in order and unchanged, commas
  -- and backslashes included, up to the first that fails. Each must be nonempty and hold no NUL.
  pub group-add_all :
      (o : Str) (os : List Str) (ctx : C)
      → AreOptions (o ∷ os)
      → process_real_option_group run (old_opts (add_all none (o ∷ os))) ctx ≡ run_all (o ∷ os) ctx
  unfolding process_real_option_group
  group-add_all o os ctx h =
      let first : fuse_opt_add_opt_escaped none o ≡ some (escape true o) =
        unfold fuse_opt_add_opt_escaped in refl in
      rw first (
        ap (λ (s : Str). group_loop run [] zero s ctx)
          (add_all-tail (escape true o) os (escape_pos o h.1))
        ∙ group_loop-escape o [] (tail_of os) ctx
        ∙ group_loop-tail o os ctx h.0 h.2)
