-- ===== src/Init/Grants.antt =====
-- `do_init`: the flags of the answer.
use fuse_study.Base.{
  ℕ, Bool, true, false, Option, some, ◌≡◌, ◌⊎◌, ◌==◌, ltb, leb, ◌&&◌, ◌+◌, ◌-◌, not, if◌then◌else◌,
  arith, refl, inl, inr, sym, subst, ap, ◌∙◌, if_both, if_cases, ==_iff,
}
use fuse_study.Init.{
  Word, fuse_init_ext, fuse_max_pages, fuse_big_writes, Conn, InitIn, Abilities, covered,
  want_flags_valid, requests, translate, in_flags, capabilities,
}
use fuse_study.Init.Reply.{
  Session, Answer, refused, accepted, proto, offered, call_init, buffer, out_flags, answer,
  limit_write, clamp_background, answer_size, eproto, zeroed, give_up, agree, check_init, do_init,
}
use fuse_study.Init.Capable.{
  KeepsCapable, or_cases, call_init-capable, offered-capable, requests-Backed, translate-Backed,
}

in_flags-low : (arg : InitIn) (n : ℕ) → ltb n 32 ≡ true → in_flags arg n ≡ true → arg.flags n ≡ true
unfolding in_flags
in_flags-low arg n small h = ground (arith, small, h)

plus_minus : (n : ℕ) → n + 32 - 32 ≡ n
plus_minus n = ground arith

in_flags-high : (arg : InitIn) (n : ℕ) → in_flags arg (n + 32) ≡ true → arg.flags2 n ≡ true
unfolding in_flags
in_flags-high arg n h = ground (arith, h, ap arg.flags2 (plus_minus n))

-- The answer has no flag but those of the request, and `FUSE_BIG_WRITES`.
pub IsGranted : InitIn → Answer → Type 0
IsGranted arg (refused e) = true ≡ true
IsGranted arg (accepted out size) =
    (n : ℕ)
    → ((out.flags n ≡ false) ⊎ ((n ≡ fuse_big_writes) ⊎ (arg.flags n ≡ true)))
      × ((out.flags2 n ≡ false) ⊎ (arg.flags2 n ≡ true))

at_bit : (w : Word) (n bit : ℕ) → ((n == bit) && w bit) ≡ true → w n ≡ true
at_bit w n bit h =
    subst (λ m. w m ≡ true) (sym ((==_iff n bit).0 (ground (arith, h)))) (ground (arith, h))

out_flags-Backed :
    (arg : InitIn) (c : Conn) (n : ℕ)
    → (translate requests c.want_ext n ≡ true → in_flags arg n ≡ true)
    → out_flags arg c n ≡ true
    → (((n ≡ fuse_max_pages) × (arg.flags fuse_max_pages ≡ true)) ⊎ (n ≡ fuse_big_writes))
      ⊎ (in_flags arg n ≡ true)
unfolding out_flags
out_flags-Backed arg c n backed h =
    elim (or_cases ((n == fuse_max_pages) && arg.flags fuse_max_pages) _ h) [
      | inl e ↦ inl (inl ((==_iff n fuse_max_pages).0 (ground (arith, e)), ground (arith, e)))
      | inr e ↦ elim (or_cases (n == fuse_big_writes) _ e) [
        | inl e' ↦ inl (inr ((==_iff n fuse_big_writes).0 e'))
        | inr e' ↦ elim (or_cases (translate requests c.want_ext n) _ e') [
          | inl t ↦ inr (backed t)
          | inr t ↦ inr (at_bit (in_flags arg) n fuse_init_ext t)
        ]
      ]
    ]

unless {ℓ} : {P : Type ℓ} (b : Bool) → (b ≡ true → P) → (b ≡ false) ⊎ P
unless true h = inr (h refl)
unless false h = inl refl

low_flag :
    (arg : InitIn) (n : ℕ)
    → ltb n 32 ≡ true
    → (((n ≡ fuse_max_pages) × (arg.flags fuse_max_pages ≡ true)) ⊎ (n ≡ fuse_big_writes))
      ⊎ (in_flags arg n ≡ true)
    → (n ≡ fuse_big_writes) ⊎ (arg.flags n ≡ true)
low_flag arg n small (inl (inl (e, h))) = inr (ap arg.flags e ∙ h)
low_flag arg n small (inl (inr e)) = inl e
low_flag arg n small (inr h) = inr (in_flags-low arg n small h)

high_flag :
    (arg : InitIn) (n : ℕ)
    → (((n + 32 ≡ fuse_max_pages) × (arg.flags fuse_max_pages ≡ true)) ⊎ (n + 32 ≡ fuse_big_writes))
      ⊎ (in_flags arg (n + 32) ≡ true)
    → arg.flags2 n ≡ true
high_flag arg n (inl (inl (e, h))) = ground (arith, e)
high_flag arg n (inl (inr e)) = ground (arith, e)
high_flag arg n (inr h) = in_flags-high arg n h

answer-IsGranted :
    (page size : ℕ) (arg : InitIn) (c : Conn)
    → ((n : ℕ) → translate requests c.want_ext n ≡ true → in_flags arg n ≡ true)
    → IsGranted arg (accepted (answer page arg c) size)
unfolding answer IsGranted
answer-IsGranted page size arg c backed n = (
  unless _ (λ h.
      low_flag arg n (ground (arith, h)) (out_flags-Backed arg c n (backed n) (ground (arith, h)))),
  unless _ (λ h.
      high_flag arg n (out_flags-Backed arg c (n + 32) (backed (n + 32)) (ground (arith, h)))),
)

clamp_background-want : (c : Conn) → (clamp_background c).want_ext ≡ c.want_ext
unfolding clamp_background
clamp_background-want c =
    if_both (λ (d : Conn). d.want_ext ≡ c.want_ext) (leb 13 c.proto_minor) _ c refl refl

agree-IsGranted :
    (page : ℕ) (arg : InitIn) (size : ℕ) (s : Session)
    → ((n : ℕ) → translate requests s.conn.want_ext n ≡ true → in_flags arg n ≡ true)
    → IsGranted arg (agree page arg size s).1
unfolding agree limit_write clamp_background
agree-IsGranted page arg size s backed =
    let limited = (limit_write size s).conn in
    answer-IsGranted page (answer_size arg) arg (clamp_background limited) (λ n h.
      backed n (subst (λ w. translate requests w n ≡ true) (clamp_background-want limited) h))

unset : (b : Bool) → not b ≡ false → b ≡ true
unset true h = refl
unset false h = sym h

check_init-IsGranted :
    (page : ℕ) (can : Abilities) (arg : InitIn) (size : ℕ) (s : Session)
    → s.conn.capable_ext ≡ capabilities can arg
    → IsGranted arg (check_init page arg size s).1
unfolding check_init give_up want_flags_valid IsGranted
check_init-IsGranted page can arg size s h =
    if_cases (λ (r : Session × Answer). IsGranted arg r.1)
      (not (want_flags_valid s.conn.capable_ext s.conn.want_ext)) (give_up s)
      (if not (s.conn.max_read == s.mount_max_read) then give_up s else agree page arg size s)
      (λ e. refl)
      (λ valid.
        if_both (λ (r : Session × Answer). IsGranted arg r.1)
          (not (s.conn.max_read == s.mount_max_read)) (give_up s) (agree page arg size s) refl
          (agree-IsGranted page arg size s (λ n.
            translate-Backed requests (capabilities can arg) (in_flags arg) s.conn.want_ext n
              (requests-Backed can arg)
              (subst (λ w. covered 64 w s.conn.want_ext ≡ true) h (unset _ valid)))))

IsGranted-if :
    (arg : InitIn) (old new : Bool) (s : Session) (r : Session × Answer)
    → IsGranted arg r.1
    → IsGranted arg (
        let q : Session × Answer =
          if old then (s, refused eproto) else if new then (s, accepted zeroed 64) else r in
        q.1)
unfolding IsGranted
IsGranted-if arg true new s r h = refl
IsGranted-if arg false true s r h = λ n. (inl (ground arith), inl refl)
IsGranted-if arg false false s r h = h

-- Whatever the file system's `init` asks for, as long as it leaves `capable_ext`, which is read-only,
-- alone: an answer that `do_init` sends has no flag, in `flags` or in `flags2`, that the kernel did
-- not offer in the same word of its request, except FUSE_BIG_WRITES.
pub do_init-IsGranted :
    (page : ℕ) (can : Abilities) (init : Option (Conn → Conn)) (arg : InitIn) (s : Session)
    → ((f : Conn → Conn) → init ≡ some f → KeepsCapable f)
    → IsGranted arg (do_init page can init arg s).1
unfolding do_init IsGranted
do_init-IsGranted page can init arg s keeps =
    let c = call_init init (offered can arg (proto arg s.conn)) in
    let started = record s { conn = c; got_init = true } in
    IsGranted-if arg (ltb arg.major 7) (ltb 7 arg.major) (record s { conn = proto arg s.conn })
      (check_init page arg (buffer page arg s) started)
      (check_init-IsGranted page can arg (buffer page arg s) started (
        call_init-capable init (offered can arg (proto arg s.conn)) keeps
        ∙ offered-capable can arg (proto arg s.conn)))
