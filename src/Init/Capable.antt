-- ===== src/Init/Capable.antt =====
-- `do_init`: the capabilities, from what the kernel offers to what `init` asks for.
use fuse_study.Base.{
  ℕ, zero, suc, Bool, true, false, Option, none, some, List, [], ◌∷◌, ◌≡◌, ◌<◌, ◌⊎◌, ◌==◌, ltb, leb,
  ◌&&◌, ◌||◌, not, if◌then◌else◌, arith, refl, inl, inr, sym, subst, ◌∙◌, if_both, ltb→lt,
  Bool-cases, ==_iff,
}
use fuse_study.Init.{
  Word, Conn, InitIn, Abilities, same_bits, fuse_lower_32_bits, fuse_higher_32_bits, covered,
  fuse_convert_to_conn_want_ext, fuse_set_feature_flag, requests, translate, in_flags, capabilities,
  set_default, set_defaults,
}
use fuse_study.Init.Reply.{offered, call_init}

last_bit :
    (k n : ℕ) (capable want : Word)
    → (n == k) ≡ true ⊎ (n == k) ≡ false
    → ((not (want k) || capable k) && covered k capable want) ≡ true
    → n < suc k
    → want n ≡ true
    → (covered k capable want ≡ true → n < k → capable n ≡ true)
    → capable n ≡ true
last_bit k n capable want (inl e) h lt w f =
    let same : n ≡ k = (==_iff n k).0 e in
    let wanted : want k ≡ true = subst (λ m. want m ≡ true) same w in
    subst (λ m. capable m ≡ true) (sym same) (ground (arith, h, wanted))
last_bit k n capable want (inr e) h lt w f = f (ground (arith, h)) (ground (arith, e, lt))

covered-bit :
    (k n : ℕ) (capable want : Word)
    → covered k capable want ≡ true
    → n < k
    → want n ≡ true
    → capable n ≡ true
unfolding covered
covered-bit zero n capable want h lt w = ground arith
covered-bit (suc k) n capable want h lt w =
    last_bit k n capable want (Bool-cases (n == k)) h lt w
      (λ rest less. covered-bit k n capable want rest less w)

abbrev pub KeepsCapable : (Conn → Conn) → Type 0
KeepsCapable f = (c : Conn) → (f c).capable_ext ≡ c.capable_ext

pub fuse_set_feature_flag-capable : (flag : ℕ) → KeepsCapable (fuse_set_feature_flag flag)
unfolding fuse_set_feature_flag
fuse_set_feature_flag-capable flag c =
    if_both (λ (d : Conn). d.capable_ext ≡ c.capable_ext) (c.capable_ext flag) _ _ refl refl

set_default-capable : (test : Bool) (flag : ℕ) → KeepsCapable (set_default test flag)
set_default-capable true flag c = fuse_set_feature_flag-capable flag c
set_default-capable false flag c = refl

set_defaults-capable : (can : Abilities) → KeepsCapable (set_defaults can)
unfolding set_defaults
set_defaults-capable can c = simp (set_default-capable, fuse_set_feature_flag-capable)

either_capable :
    (t u : Bool) (c x y : Conn)
    → x.capable_ext ≡ c.capable_ext
    → y.capable_ext ≡ c.capable_ext
    → (let r : Conn × Bool = if t then (x, true) else if u then (c, false) else (y, true) in
        r.0.capable_ext)
      ≡ c.capable_ext
either_capable true u c x y p q = p
either_capable false true c x y p q = refl
either_capable false false c x y p q = q

fuse_convert-capable : (c : Conn) → (fuse_convert_to_conn_want_ext c).0.capable_ext ≡ c.capable_ext
unfolding fuse_convert_to_conn_want_ext
fuse_convert-capable c =
    let merged = λ (n : ℕ). fuse_higher_32_bits c.want_ext n || fuse_lower_32_bits c.want n in
    either_capable
      (same_bits 32 c.want c.conn_want || same_bits 32 (fuse_lower_32_bits c.want_ext) c.want)
      (not (same_bits 64 c.want_ext c.conn_want_ext)) c
      (record c { want = fuse_lower_32_bits c.want_ext })
      (record c { want_ext = merged; want = fuse_lower_32_bits merged }) refl refl

-- The requests of a list ask for what the kernel offered.
pub Backed : List (ℕ × ℕ) → Word → Word → Type 0
Backed [] capable given = true ≡ true
Backed ((a, b) ∷ rest) capable given =
    (ltb a 64 ≡ true) × (capable a ≡ true → given b ≡ true) × Backed rest capable given

only_bit : (x t u : Bool) → ((x || false) || ((t && false) || (u && false))) ≡ true → x ≡ true
only_bit x t u h = ground (arith, h)

pub requests-Backed :
    (can : Abilities) (arg : InitIn) → Backed requests (capabilities can arg) (in_flags arg)
unfolding capabilities translate Backed
requests-Backed can arg =
    let t = leb 14 arg.minor in
    let u = leb 18 arg.minor in
    (
      refl,
      only_bit (in_flags arg 0) t u,
      (
        refl,
        only_bit (in_flags arg 1) t u,
        (
          refl,
          only_bit (in_flags arg 3) t u,
          (
            refl,
            only_bit (in_flags arg 4) t u,
            (
              refl,
              only_bit (in_flags arg 6) t u,
              (
                refl,
                only_bit (in_flags arg 10) t u,
                (
                  refl,
                  only_bit (in_flags arg 12) t u,
                  (
                    refl,
                    only_bit (in_flags arg 13) t u,
                    (
                      refl,
                      only_bit (in_flags arg 14) t u,
                      (
                        refl,
                        only_bit (in_flags arg 15) t u,
                        (
                          refl,
                          only_bit (in_flags arg 16) t u,
                          (
                            refl,
                            only_bit (in_flags arg 18) t u,
                            (
                              refl,
                              only_bit (in_flags arg 20) t u,
                              (
                                refl,
                                only_bit (in_flags arg 19) t u,
                                (
                                  refl,
                                  only_bit (in_flags arg 28) t u,
                                  (
                                    refl,
                                    only_bit (in_flags arg 23) t u,
                                    (
                                      refl,
                                      only_bit (in_flags arg 25) t u,
                                      (
                                        refl,
                                        only_bit (in_flags arg 29) t u,
                                        (
                                          refl,
                                          only_bit (in_flags arg 36) t u,
                                          (
                                            refl,
                                            only_bit (in_flags arg 37) t u,
                                            (refl, only_bit (in_flags arg 38) t u, refl),
                                          ),
                                        ),
                                      ),
                                    ),
                                  ),
                                ),
                              ),
                            ),
                          ),
                        ),
                      ),
                    ),
                  ),
                ),
              ),
            ),
          ),
        ),
      ),
    )

pub call_init-capable :
    (init : Option (Conn → Conn)) (c : Conn)
    → ((f : Conn → Conn) → init ≡ some f → KeepsCapable f)
    → (call_init init c).capable_ext ≡ c.capable_ext
unfolding call_init
call_init-capable none c keeps = refl
call_init-capable (some f) c keeps =
    fuse_convert-capable (f (record c { capable = fuse_lower_32_bits c.capable_ext }))
    ∙ keeps f refl (record c { capable = fuse_lower_32_bits c.capable_ext })

pub offered-capable :
    (can : Abilities) (arg : InitIn) (c : Conn)
    → (offered can arg c).capable_ext ≡ capabilities can arg
unfolding offered
offered-capable can arg c = set_defaults-capable can _

pub or_cases : (a b : Bool) → (a || b) ≡ true → (a ≡ true) ⊎ (b ≡ true)
or_cases true b h = inl refl
or_cases false b h = inr h

-- Bits that are asked for and known were offered.
pub translate-Backed :
    (pairs : List (ℕ × ℕ)) (capable given want : Word) (n : ℕ)
    → Backed pairs capable given
    → covered 64 capable want ≡ true
    → translate pairs want n ≡ true
    → given n ≡ true
unfolding translate Backed
translate-Backed [] capable given want n b h t = ground arith
translate-Backed ((a, b) ∷ rest) capable given want n (small, back, more) h t =
    elim (or_cases ((n == b) && want a) (translate rest want n) t) [
      | inl e ↦
          subst (λ m. given m ≡ true) (sym ((==_iff n b).0 (ground (arith, e))))
            (back (covered-bit 64 a capable want h (ltb→lt a 64 small) (ground (arith, e))))
      | inr e ↦ translate-Backed rest capable given want n more h e
    ]
