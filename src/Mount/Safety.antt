-- ===== src/Mount/Safety.antt =====
-- What becomes of any text of options.
use fuse_study.Base.{
  ℕ, zero, suc, true, false, some, [], ◌∷◌, ◌≡◌, ◌&&◌, not, refl, codes, subst, if◌then◌else◌, inl,
  inr, Bool-cases, length, if_both,
}
use fuse_study.Opt.Text.{Str, str_eq}
use fuse_study.Mount.{
  Caller, Parsed, Outcome, err, exits, parsed, begins_with, cut, is_skipped, one_option,
  short_option, for_others, escape_ok, fsname_str, subtype_str, get_string_opt, skip_comma,
  options_loop, no_options, parse_options,
}
use fuse_study.Mount.Config.{IsHarmless}
use fuse_study.Mount.Options.{Harmless, same_mount, granted, plain-Harmless}

module _ (who : Caller) where
  blkdev-Harmless :
      (p : Parsed)
      → IsHarmless who p
      → Harmless who (if who.root then parsed (record p { blkdev = true }) else err)
  blkdev-Harmless p h = elim (Bool-cases who.root) [
    | inr e ↦ simp (e) tt
    | inl e ↦ simp (e) (record {
      options = h.options;
      allowed = h.allowed;
      optbuf = h.optbuf;
      nosuid = h.nosuid;
      nodev = h.nodev;
      blkdev = inl e;
    })
  ]

  short-Harmless :
      (s : Str) (p : Parsed)
      → IsHarmless who p
      → Harmless who (short_option who s (cut false false s).0 p)
  unfolding short_option
  short-Harmless s p h =
      let opt = (cut false false s).0 in
      if_both (Harmless who) (str_eq opt (codes "blkdev")) _ _ (blkdev-Harmless p h) (
        if_both (Harmless who) (str_eq opt (codes "auto_unmount")) _ _
          (same_mount who p (record p { auto_unmount = true }) h refl refl refl)
          (if_both (Harmless who) (is_skipped s opt) _ _ h
            (elim (Bool-cases (not who.root && (not who.user_allow_other && for_others opt))) [
              | inl e ↦ rw e tt
              | inr e ↦ rw e (
                  if_both (Harmless who) (str_eq opt (codes "large_read") && who.new_kernel) _ _ h
                    (plain-Harmless who s p h (granted who opt e)))
            ])))

  one_option-Harmless :
      (s : Str) (p : Parsed)
      → IsHarmless who p
      → Harmless who (one_option who s (cut (escape_ok s) false s).0 p)
  unfolding one_option
  one_option-Harmless s p h = elim (Bool-cases (begins_with s fsname_str)) [
    | inl e ↦
        rw (one_option, e)
          (same_mount who p
            (record p { fsname = some (get_string_opt (cut true false s).0 fsname_str) }) h refl
            refl refl)
    | inr e1 ↦ elim (Bool-cases (begins_with s subtype_str)) [
      | inl e ↦
          rw (one_option, e1, e)
            (same_mount who p
              (record p { subtype = some (get_string_opt (cut true false s).0 subtype_str) }) h refl
              refl refl)
      | inr e2 ↦ rw (one_option, e1, e2) (short-Harmless s p h)
    ]
  ]

  next_option :
      (fuel : ℕ) (s : Str) (o : Outcome)
      → Harmless who o
      → ((p : Parsed) → IsHarmless who p → Harmless who (options_loop who fuel s p))
      → Harmless who (elim o [ err ↦ err | exits ↦ exits | parsed p' ↦ options_loop who fuel s p' ])
  next_option fuel s err h go = tt
  next_option fuel s exits h go = tt
  next_option fuel s (parsed p) h go = go p h

  -- No option brings the kernel more than `KernelOption` has, and none that the user may not use.
  options_loop-Harmless :
      (fuel : ℕ) (s : Str) (p : Parsed)
      → IsHarmless who p
      → Harmless who (options_loop who fuel s p)
  unfolding options_loop
  options_loop-Harmless zero s p h = tt
  options_loop-Harmless (suc fuel) [] p h = h
  options_loop-Harmless (suc fuel) (c ∷ s) p h =
      next_option fuel (skip_comma (cut (escape_ok (c ∷ s)) false (c ∷ s)).1)
        (one_option who (c ∷ s) (cut (escape_ok (c ∷ s)) false (c ∷ s)).0 p)
        (one_option-Harmless (c ∷ s) p h)
        (options_loop-Harmless fuel (skip_comma (cut (escape_ok (c ∷ s)) false (c ∷ s)).1))

no_options-IsHarmless : (who : Caller) → IsHarmless who no_options
unfolding no_options
no_options-IsHarmless who = record {
  options = [];
  allowed = tt;
  optbuf = refl;
  nosuid = inr refl;
  nodev = inr refl;
  blkdev = inr refl;
}

-- Whatever options a user passes: when `do_mount` gets through them, those that go to the kernel are
-- `default_permissions`, `allow_other` (only for root, or where the configuration allows it),
-- `max_read=` and `blksize=` with a value that has no comma, one by one with a comma behind each; and
-- unless the user is root, MS_NOSUID and MS_NODEV stay set and `blkdev` is not.
pub parse_options-IsHarmless :
    (who : Caller) (opts : Str) (p : Parsed) → parse_options who opts ≡ parsed p → IsHarmless who p
unfolding parse_options
parse_options-IsHarmless who opts p e =
    subst (Harmless who) e
      (options_loop-Harmless who (suc (length opts)) opts no_options (no_options-IsHarmless who))
