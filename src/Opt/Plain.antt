-- ===== src/Opt/Plain.antt =====
-- A caller with no option table and no callback gets its arguments back.
use fuse_study.Base.{
  ℕ, zero, suc, Bool, true, none, some, List, [], ◌∷◌, ◌++◌, ◌==◌, ltb, ◌≡◌, ◌≤◌, ◌&&◌, ◌||◌, ◌+◌,
  arith, refl, ap, sym, ◌∙◌, length, get_or, append_assoc, append-nil, length-append, lt→ltb, not,
}
use fuse_study.Opt.Text.{Str, char_at}
use fuse_study.Opt.Template.{fuse_opt_match, find_opt}
use fuse_study.Opt.Parse.{
  Context, Client, call_proc, process_gopt, process_one, parse_loop, fuse_opt_parse,
}

-- Neither an `-o` group nor the separator `--`.
abbrev pub is_plain : Str → Bool
is_plain arg =
    not (char_at arg 0 == b'-')
    || (not (char_at arg 1 == b'o') && not ((char_at arg 1 == b'-') && (char_at arg 2 == 0)))

abbrev pub ArePlain : List Str → Type 0
ArePlain [] = Unit
ArePlain (a ∷ as') = (is_plain a ≡ true) × ArePlain as'

get_or-append : (pre rest : List Str) (a : Str) → get_or (pre ++ a ∷ rest) (length pre) [] ≡ a
get_or-append [] rest a = refl
get_or-append (p ∷ pre) rest a = get_or-append pre rest a

module _ {D : Type 0} (client : Client D) (no_table : client.table ≡ [])
    (no_proc : client.proc ≡ none) where
  process_one-plain :
      (c : Context D) (arg : Str)
      → c.nonopt ≡ 0
      → is_plain arg ≡ true
      → process_one client c arg ≡ some (record c { outargs = c.outargs ++ arg ∷ [] })
  unfolding process_one process_gopt call_proc fuse_opt_match find_opt
  process_one-plain c arg open_ plain = rw (no_table, no_proc) (ground arith)

  parse_loop-plain :
      (f : ℕ) (pre rest : List Str) (c : Context D)
      → c.argv ≡ pre ++ rest
      → c.argctr ≡ length pre
      → length rest ≤ f
      → c.nonopt ≡ 0
      → ArePlain rest
      → parse_loop client f c
        ≡ some (record c { argctr = length (pre ++ rest); outargs = c.outargs ++ rest })
  unfolding parse_loop
  parse_loop-plain zero pre [] c v n le open_ plain =
      let e : length c.argv ≡ length (pre ++ []) = ap (λ (a : List Str). length a) v in
      ground (arith, e, append-nil pre, append-nil c.outargs)
  parse_loop-plain zero pre (a ∷ rest) c v n le open_ plain = absurd (omega arith)
  parse_loop-plain (suc f) pre [] c v n le open_ plain =
      let e : length c.argv ≡ length (pre ++ []) = ap (λ (a : List Str). length a) v in
      ground (arith, e, append-nil pre, append-nil c.outargs)
  parse_loop-plain (suc f) pre (a ∷ rest) c v n le open_ plain =
      let read : get_or c.argv c.argctr [] ≡ a = rw (v, n) (get_or-append pre rest a) in
      let e : length c.argv ≡ length (pre ++ a ∷ rest) = ap (λ (x : List Str). length x) v in
      let more : ltb c.argctr (length c.argv) ≡ true =
        lt→ltb _ _ (omega (arith, e, n, length-append pre (a ∷ rest))) in
      let step = process_one-plain c a open_ plain.0 in
      let c' : Context D = record c { argctr = c.argctr + 1; outargs = c.outargs ++ a ∷ [] } in
      let ih =
        parse_loop-plain f (pre ++ a ∷ []) rest c' (v ∙ sym (append_assoc pre (a ∷ []) rest))
          (omega (arith, n, length-append pre (a ∷ []))) (omega arith) open_ plain.1 in
      let unrolled : parse_loop client (suc f) c ≡ parse_loop client f c' =
        ground (arith, more, read, step) in
      unrolled
      ∙ (ih
          ∙ ap
              (λ (l : List Str).
                some (record c { argctr = length l; outargs = (c.outargs ++ a ∷ []) ++ rest }))
              (append_assoc pre (a ∷ []) rest)
          ∙ ap
              (λ (l : List Str). some (record c { argctr = length (pre ++ a ∷ rest); outargs = l }))
              (append_assoc c.outargs (a ∷ []) rest))

  -- With no option table and no callback, `fuse_opt_parse` succeeds on every command line that
  -- has neither `-o` groups nor `--`, and leaves the arguments and the caller's data as they are.
  fuse_opt_parse-plain :
      (program : Str) (args : List Str) (d : D)
      → ArePlain args
      → fuse_opt_parse client (program ∷ args) d ≡ some (program ∷ args, d)
  unfolding fuse_opt_parse
  fuse_opt_parse-plain program args d plain =
      let c : Context D = record {
        user_data = d;
        argctr = 1;
        argv = program ∷ args;
        outargs = program ∷ [];
        opts = none;
        nonopt = 0;
      } in
      ground (
        arith,
        parse_loop-plain (length (program ∷ args)) (program ∷ []) args c refl refl (omega arith)
            refl plain,
      )
