-- ===== src/Mount/Names.antt =====
-- Options that are written for `fusermount`, and what `do_mount` reads of them.
use fuse_study.Base.{
  ℕ, zero, suc, Bool, true, false, none, some, List, [], ◌∷◌, ◌++◌, ◌≡◌, ◌<◌, ◌⊎◌, ◌&&◌, not,
  if◌then◌else◌, arith, refl, codes, ap, ◌∙◌, append_assoc, append-nil, length, length-append,
}
use fuse_study.Opt.Text.{Str, str_eq, escape, old_opts, fuse_opt_add_opt_escaped, add_opt_common}
use fuse_study.Mount.{
  Caller, Parsed, Outcome, err, parsed, begins_with, find_mount_flag, flag_entry, mount_flags, cut,
  is_kernel_opt, plain_option, short_option, is_skipped, one_option, escape_ok, fsname_str,
  get_string_opt, options_loop, no_options, parse_options,
}
use fuse_study.Mount.Scan.{HasNoComma, HasNoComma-append, cut-plain, cut-escape, unescape-escape}
use fuse_study.Mount.Config.{
  KernelOption, default_permissions, allow_other, max_read, blksize, text, IsAllowed, AreAllowed,
  joined,
}

abbrev add_kernel : KernelOption → Parsed → Parsed
add_kernel o p = record p { optbuf = p.optbuf ++ text o ++ b',' ∷ [] }

own_use : (root all : Bool) (x : Outcome) → (if not root && (not all && false) then err else x) ≡ x
own_use true all x = refl
own_use false true x = refl
own_use false false x = refl

others_use :
    (root all : Bool) (x : Outcome)
    → (root ≡ true) ⊎ (all ≡ true)
    → (if not root && (not all && true) then err else x) ≡ x
others_use true all x h = refl
others_use false true x h = refl
others_use false false x h = ground (arith, h)

pub added : (opt : Str) → old_opts (fuse_opt_add_opt_escaped none opt) ≡ escape true opt
unfolding fuse_opt_add_opt_escaped add_opt_common
added opt = refl

module _ (who : Caller) where
  plain-text :
      (o : KernelOption) (rest : Str) (p : Parsed)
      → plain_option who (text o ++ b',' ∷ rest) (text o) p ≡ parsed (add_kernel o p)
  unfolding plain_option find_mount_flag flag_entry mount_flags is_kernel_opt str_eq begins_with
  plain-text default_permissions rest p = refl
  plain-text allow_other rest p = refl
  plain-text (max_read n) rest p = refl
  plain-text (blksize n) rest p = refl

  one_option-text :
      (o : KernelOption) (rest : Str) (p : Parsed)
      → IsAllowed who o
      → one_option who (text o ++ b',' ∷ rest) (text o) p ≡ parsed (add_kernel o p)
  unfolding one_option short_option is_skipped str_eq begins_with
  one_option-text default_permissions rest p h =
      own_use who.root who.user_allow_other _ ∙ plain-text default_permissions rest p
  one_option-text allow_other rest p h =
      others_use who.root who.user_allow_other _ h ∙ plain-text allow_other rest p
  one_option-text (max_read n) rest p h =
      own_use who.root who.user_allow_other _ ∙ plain-text (max_read n) rest p
  one_option-text (blksize n) rest p h =
      own_use who.root who.user_allow_other _ ∙ plain-text (blksize n) rest p

  pub HasNoComma-text : (o : KernelOption) → IsAllowed who o → HasNoComma (text o)
  HasNoComma-text default_permissions h = omega arith
  HasNoComma-text allow_other h = omega arith
  HasNoComma-text (max_read n) h = HasNoComma-append (codes "max_read=") n (omega arith) h
  HasNoComma-text (blksize n) h = HasNoComma-append (codes "blksize=") n (omega arith) h

  -- A round of the loop at such an option.
  next_text :
      (fuel : ℕ) (s r : Str) (o : Str) (p p' : Parsed)
      → cut (escape_ok s) false s ≡ (o, b',' ∷ r)
      → one_option who s o p ≡ parsed p'
      → 0 < length s
      → options_loop who (suc fuel) s p ≡ options_loop who fuel r p'
  unfolding options_loop
  next_text fuel [] r o p p' c e h = ground (arith, h)
  next_text fuel (x ∷ s) r o p p' c e h =
      rw (options_loop, ap (λ (z : Str × Str). z.0) c, e, ap (λ (z : Str × Str). z.1) c) refl

  fsname-escape_ok :
      (name rest : Str) → escape_ok (escape true (fsname_str ++ name) ++ b',' ∷ rest) ≡ true
  unfolding begins_with escape
  fsname-escape_ok name rest = refl

  fsname-one_option :
      (name rest : Str)
      → one_option who
          (escape true (fsname_str ++ name) ++ b',' ∷ rest)
          (escape true (fsname_str ++ name))
          no_options
        ≡ parsed (record no_options { fsname = some name })
  unfolding one_option begins_with escape get_string_opt
  fsname-one_option name rest = rw (unescape-escape name) refl

  escape_ok-text : (o : KernelOption) (rest : Str) → escape_ok (text o ++ b',' ∷ rest) ≡ false
  unfolding begins_with
  escape_ok-text default_permissions rest = refl
  escape_ok-text allow_other rest = refl
  escape_ok-text (max_read n) rest = refl
  escape_ok-text (blksize n) rest = refl

  options_loop-joined :
      (fuel : ℕ) (os : List KernelOption) (p : Parsed)
      → length (joined os) < fuel
      → AreAllowed who os
      → options_loop who fuel (joined os) p ≡ parsed (record p { optbuf = p.optbuf ++ joined os })
  unfolding options_loop
  options_loop-joined zero os p le h = ground (arith, le)
  options_loop-joined (suc fuel) [] p le h = rw (append-nil p.optbuf) refl
  options_loop-joined (suc fuel) (o ∷ os) p le (h, hs) =
      let s = text o ++ b',' ∷ joined os in
      let len = length-append (text o) (b',' ∷ joined os) in
      next_text fuel s (joined os) (text o) p (add_kernel o p)
        (rw (escape_ok-text o (joined os)) (cut-plain (text o) (joined os) (HasNoComma-text o h)))
        (one_option-text o (joined os) p h) (omega (arith, len))
      ∙ options_loop-joined fuel os (add_kernel o p) (omega (arith, len, le)) hs
      ∙ (simp append_assoc refl)

  -- What `do_mount` alone reads of such a text, commas and backslashes in the name included.
  pub parse_options-escaped :
      (name : Str) (os : List KernelOption)
      → AreAllowed who os
      → parse_options who
          (old_opts (fuse_opt_add_opt_escaped none (fsname_str ++ name)) ++ b',' ∷ joined os)
        ≡ parsed (record no_options { fsname = some name; optbuf = joined os })
  unfolding parse_options no_options
  parse_options-escaped name os h =
      let opt = escape true (fsname_str ++ name) in
      let s = opt ++ b',' ∷ joined os in
      rw (added (fsname_str ++ name)) (
        next_text (length s) s (joined os) opt no_options (record no_options { fsname = some name })
          (rw (fsname-escape_ok name (joined os)) (cut-escape (fsname_str ++ name) (joined os)))
          (fsname-one_option name (joined os)) (omega (arith, length-append opt (b',' ∷ joined os)))
        ∙ options_loop-joined (length s) os (record no_options { fsname = some name })
            (omega (arith, length-append opt (b',' ∷ joined os))) h)
