-- ===== src/Mount/Options.antt =====
-- The options that a user's text brings to the kernel.
use fuse_study.Base.{
  ℕ, Bool, true, false, Option, some, [], ◌∷◌, ◌++◌, ◌≡◌, ◌⊎◌, ◌&&◌, not, arith, refl, codes, sym,
  ap, ◌∙◌, subst, inl, inr, Bool-cases, Option-cases, length, drop,
}
use fuse_study.Opt.Text.{Str, str_eq}
use fuse_study.Opt.Match.{str_eq-eq}
use fuse_study.Mount.{
  Caller, Parsed, Outcome, err, exits, parsed, begins_with, find_mount_flag, set_flag, ms_nosuid,
  ms_nodev, cut, is_kernel_opt, plain_option, for_others,
}
use fuse_study.Mount.Scan.{
  HasNoComma, HasNoComma-right, cut-HasNoComma, begins_with-cut, begins_with-split,
}
use fuse_study.Mount.Config.{
  KernelOption, default_permissions, allow_other, max_read, blksize, text, IsAllowed, joined-append,
  AreAllowed-append, IsHarmless, after_flag, find_mount_flag-spares,
}

-- The result of a call, if it returns with options.
abbrev pub Harmless : Caller → Outcome → Type 0
Harmless who err = Unit
Harmless who exits = Unit
Harmless who (parsed p) = IsHarmless who p

-- An option that the check of `allow_other` lets pass.
abbrev pub Granted : Caller → Str → Type 0
Granted who opt =
    (who.root ≡ true) ⊎ ((who.user_allow_other ≡ true) ⊎ (str_eq opt (codes "allow_other") ≡ false))

module _ (who : Caller) where
  kept :
      (opt : Str) (on : Bool) (flag : Option ℕ) (flags : ℕ → Bool) (n : ℕ)
      → find_mount_flag who.root opt ≡ some (on, flag)
      → (n ≡ ms_nosuid) ⊎ (n ≡ ms_nodev)
      → (who.root ≡ true) ⊎ (flags n ≡ true)
      → (who.root ≡ true) ⊎ (set_flag on flag flags n ≡ true)
  kept opt on flag flags n e which (inl root) = inl root
  kept opt on flag flags n e which (inr set) = elim (Bool-cases who.root) [
    | inl root ↦ inl root
    | inr user ↦
        let found : find_mount_flag false opt ≡ some (on, flag) =
          subst (λ (r : Bool). find_mount_flag r opt ≡ some (on, flag)) user e in
        inr (
          sym (ap (λ f. after_flag f flags n) found) ∙ find_mount_flag-spares opt flags n which set)
  ]

  flag-IsHarmless :
      (opt : Str) (on : Bool) (flag : Option ℕ) (p : Parsed)
      → IsHarmless who p
      → find_mount_flag who.root opt ≡ some (on, flag)
      → IsHarmless who (record p { flags = set_flag on flag p.flags })
  flag-IsHarmless opt on flag p h e = record {
    options = h.options;
    allowed = h.allowed;
    optbuf = h.optbuf;
    nosuid = kept opt on flag p.flags ms_nosuid e (inl refl) h.nosuid;
    nodev = kept opt on flag p.flags ms_nodev e (inr refl) h.nodev;
    blkdev = h.blkdev;
  }

  pub granted :
      (opt : Str)
      → (not who.root && (not who.user_allow_other && for_others opt)) ≡ false
      → Granted who opt
  granted opt h = elim (Bool-cases who.root) [
    | inl root ↦ inl root
    | inr user ↦ elim (Bool-cases who.user_allow_other) [
      | inl all ↦ inr (inl all)
      | inr own ↦ inr (inr (ground (arith, h, user, own)))
    ]
  ]

  -- Options that are the program's own business.
  pub same_mount :
      (p p' : Parsed)
      → IsHarmless who p
      → p'.optbuf ≡ p.optbuf
      → p'.flags ≡ p.flags
      → p'.blkdev ≡ p.blkdev
      → IsHarmless who p'
  same_mount p p' h same_optbuf same_flags same_blkdev = record {
    options = h.options;
    allowed = h.allowed;
    optbuf = same_optbuf ∙ h.optbuf;
    nosuid =
        subst (λ (f : ℕ → Bool). (who.root ≡ true) ⊎ (f ms_nosuid ≡ true)) (sym same_flags)
          h.nosuid;
    nodev =
        subst (λ (f : ℕ → Bool). (who.root ≡ true) ⊎ (f ms_nodev ≡ true)) (sym same_flags) h.nodev;
    blkdev = subst (λ (b : Bool). (who.root ≡ true) ⊎ (b ≡ false)) (sym same_blkdev) h.blkdev;
  }

  -- The option goes to the kernel.
  kernel-IsHarmless :
      (opt : Str) (o : KernelOption) (p : Parsed)
      → IsHarmless who p
      → opt ≡ text o
      → IsAllowed who o
      → IsHarmless who (record p { optbuf = p.optbuf ++ opt ++ b',' ∷ [] })
  kernel-IsHarmless opt o p h e ok = record {
    options = h.options ++ o ∷ [];
    allowed = AreAllowed-append who h.options o h.allowed ok;
    optbuf = rw (h.optbuf, e, joined-append h.options o) refl;
    nosuid = h.nosuid;
    nodev = h.nodev;
    blkdev = h.blkdev;
  }

  -- What is known of an option that is neither refused nor passed over.
  module _ (s : Str) (p : Parsed) (h : IsHarmless who p)
      (granted : Granted who (cut false false s).0) where
    abbrev pub opt : Str
    opt = (cut false false s).0

    others :
        str_eq opt (codes "allow_other") ≡ true
        → Granted who opt
        → (who.root ≡ true) ⊎ (who.user_allow_other ≡ true)
    others e (inl r) = inl r
    others e (inr (inl r)) = inr r
    others e (inr (inr r)) = ground (arith, e, r)

    prefixed :
        (beg : Str)
        → HasNoComma beg
        → begins_with s beg ≡ true
        → (opt ≡ beg ++ drop (length beg) opt) × HasNoComma (drop (length beg) opt)
    prefixed beg n e =
        let split = begins_with-split opt beg (begins_with-cut s beg n e) in
        (
          split,
          HasNoComma-right beg (drop (length beg) opt) (subst HasNoComma split (cut-HasNoComma s)),
        )

    which_kernel :
        is_kernel_opt s opt ≡ true → (o : KernelOption) × (opt ≡ text o) × IsAllowed who o
    unfolding is_kernel_opt
    which_kernel k = elim (Bool-cases (str_eq opt (codes "default_permissions"))) [
      | inl e ↦ (default_permissions, str_eq-eq opt (codes "default_permissions") e, tt)
      | inr e1 ↦ elim (Bool-cases (str_eq opt (codes "allow_other"))) [
        | inl e ↦ (allow_other, str_eq-eq opt (codes "allow_other") e, others e granted)
        | inr e2 ↦ elim (Bool-cases (begins_with s (codes "max_read="))) [
          | inl e ↦
              let split = prefixed (codes "max_read=") (omega arith) e in
              (max_read (drop 9 opt), split.0, split.1)
          | inr e3 ↦
              let split =
                prefixed (codes "blksize=") (omega arith) (ground (arith, k, e1, e2, e3)) in
              (blksize (drop 8 opt), split.0, split.1)
        ]
      ]
    ]

    pub plain-Harmless : Harmless who (plain_option who s opt p)
    unfolding plain_option
    plain-Harmless = elim (Option-cases (find_mount_flag who.root opt)) [
      | inr ((on, flag), e) ↦ rw (plain_option, e) (flag-IsHarmless opt on flag p h e)
      | inl e ↦ elim (Bool-cases (is_kernel_opt s opt)) [
        | inr k ↦ rw (plain_option, e, k) tt
        | inl k ↦
            let (o, same, ok) = which_kernel k in
            rw (plain_option, e, k) (kernel-IsHarmless opt o p h same ok)
      ]
    ]
