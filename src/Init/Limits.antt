-- ===== src/Init/Limits.antt =====
-- `do_init`: the numbers of the answer.
use fuse_study.Base.{
  ℕ, zero, suc, Bool, true, false, Option, some, ◌≡◌, ◌<◌, ◌≤◌, ◌⊎◌, ◌==◌, ltb, leb, ◌+◌, ◌-◌, ◌*◌,
  ◌/◌, ◌%◌, ◌^◌, not, if◌then◌else◌, arith, refl, inl, inr, sym, ap, subst, ◌∙◌, if_both, if_cases,
  min, Bool-cases, ltb→lt,
}
use native.Mathlib.Nat.{div-lt_iff_lt-mul, div-mul-le_self, lt-div-mul-add}
use fuse_study.Init.{Conn, InitIn, Abilities, want_flags_valid, in_flags, fuse_max_pages}
use fuse_study.Init.Reply.{
  Session, Answer, refused, accepted, proto, offered, call_init, buffer, answer, pages, eproto,
  fuse_buffer_header_size, fuse_min_read_buffer, fuse_default_max_pages_per_req, limit_write,
  clamp_background, give_up, agree, check_init, do_init,
}

-- How large the buffer may be when the kernel does not know `FUSE_MAX_PAGES`.
default_buffer : ℕ → ℕ
default_buffer page = fuse_default_max_pages_per_req * page + fuse_buffer_header_size

buffer-bound :
    (page : ℕ) (arg : InitIn) (s : Session)
    → s.bufsize < 2 ^ 32
    → (buffer page arg s < 2 ^ 32) × (fuse_min_read_buffer ≤ buffer page arg s)
unfolding buffer
buffer-bound page arg s h = ground (arith, h)

buffer-default :
    (page : ℕ) (arg : InitIn) (s : Session)
    → ((arg.minor < 6) ⊎ (arg.flags fuse_max_pages ≡ true))
      ⊎ ((buffer page arg s ≤ default_buffer page) ⊎ (buffer page arg s ≤ fuse_min_read_buffer))
unfolding buffer default_buffer in_flags
buffer-default page arg s = ground arith

wrapped : (w : ℕ) → 0 < w → w < 2 ^ 32 → (w + (2 ^ 32 - 1)) % 2 ^ 32 ≡ w - 1
wrapped w p h = ground (arith, p, h)

rounds_up :
    (page w q : ℕ)
    → 0 < w
    → q < 2 ^ 16 - 1
    → q * page ≤ w - 1
    → w - 1 < q * page + page
    → (w ≤ (q + 1) % 2 ^ 16 * page) × ((q + 1) % 2 ^ 16 * page < w + page)
rounds_up page w q p small low high =
    let same : (q + 1) % 2 ^ 16 ≡ suc q = ground (arith, small) in
    ground (arith, p, low, high, ap (λ n. n * page) same)

pages-covers :
    (page max_write : ℕ)
    → 0 < page
    → 0 < max_write
    → max_write < 2 ^ 32
    → max_write ≤ (2 ^ 16 - 1) * page
    → (max_write ≤ pages page max_write * page) × (pages page max_write * page < max_write + page)
unfolding pages
pages-covers page max_write p w small h = rw (wrapped max_write w small) (
    rounds_up page max_write ((max_write - 1) / page) w
      ((div-lt_iff_lt-mul p).1 (ground (arith, w, h))) (div-mul-le_self (max_write - 1) page)
      (lt-div-mul-add p))

-- `max_pages` pages hold `max_write` bytes, where 16 bits are enough for their number.
IsCovered : ℕ → Bool → ℕ → ℕ → Type 0
IsCovered page asked max_write max_pages =
    ((asked ≡ false) ⊎ ((max_write ≡ 0) ⊎ ((2 ^ 16 - 1) * page < max_write)))
    ⊎ ((max_write ≤ max_pages * page) × (max_pages * page < max_write + page))

pages-IsCovered :
    (page max_write : ℕ) (asked : Bool)
    → 0 < page
    → max_write < 2 ^ 32
    → IsCovered page asked max_write (if asked then pages page max_write else 0)
unfolding IsCovered
pages-IsCovered page w false p h = inl (inl refl)
pages-IsCovered page zero true p h = inl (inr (inl refl))
pages-IsCovered page (suc w) true p h = elim (Bool-cases (ltb ((2 ^ 16 - 1) * page) (suc w))) [
  | inl e ↦ inl (inr (inr (ltb→lt _ _ e)))
  | inr e ↦ inr (pages-covers page (suc w) p (omega arith) h (ground (arith, e)))
]

-- A refusal ends the session; what is accepted fits the buffer and the fields of the answer.
pub IsAgreed : ℕ → InitIn → Session × Answer → Type 0
IsAgreed page arg (s, refused e) = (e ≡ eproto) × (s.error ≡ some eproto) × (s.exited ≡ true)
IsAgreed page arg (s, accepted out size) =
    (s.bufsize ≡ out.max_write + fuse_buffer_header_size)
    × (s.bufsize < 2 ^ 32)
    × (out.max_background < 2 ^ 16)
    × (out.congestion_threshold ≤ out.max_background)
    × (((arg.minor < 6) ⊎ (arg.flags fuse_max_pages ≡ true))
        ⊎ ((s.bufsize ≤ default_buffer page) ⊎ (s.bufsize ≤ fuse_min_read_buffer)))
    × IsCovered page (arg.flags fuse_max_pages) out.max_write out.max_pages

IsClamped : Conn → Type 0
IsClamped c =
    (leb 13 c.proto_minor ≡ false)
    ⊎ ((c.max_background < 2 ^ 16) × (c.congestion_threshold ≤ c.max_background))

clamp_background-IsClamped : (c : Conn) → IsClamped (clamp_background c)
unfolding clamp_background IsClamped
clamp_background-IsClamped c =
    if_cases IsClamped (leb 13 c.proto_minor) _ c (λ e. inr (ground arith)) (λ e. inl e)

clamp_background-max_write : (c : Conn) → (clamp_background c).max_write ≡ c.max_write
unfolding clamp_background
clamp_background-max_write c =
    if_both (λ (d : Conn). d.max_write ≡ c.max_write) (leb 13 c.proto_minor) _ c refl refl

answered :
    (newer : Bool) (background threshold : ℕ)
    → (newer ≡ false) ⊎ ((background < 2 ^ 16) × (threshold ≤ background))
    → ((if newer then background else 0) < 2 ^ 16)
      × ((if newer then threshold else 0) ≤ (if newer then background else 0))
answered false background threshold h = (omega arith, omega arith)
answered true background threshold h = (ground (arith, h), ground (arith, h))

fits :
    (size most : ℕ)
    → size < 2 ^ 32
    → fuse_min_read_buffer ≤ size
    → ((min most (size - fuse_buffer_header_size) + fuse_buffer_header_size) % 2 ^ 32
        ≡ min most (size - fuse_buffer_header_size) + fuse_buffer_header_size)
      × (min most (size - fuse_buffer_header_size) + fuse_buffer_header_size ≤ size)
fits size most h l = ground (arith, h, l)

agree-IsAgreed :
    (page : ℕ) (arg : InitIn) (size : ℕ) (s : Session)
    → 0 < page
    → (size < 2 ^ 32) × (fuse_min_read_buffer ≤ size)
    → ((arg.minor < 6) ⊎ (arg.flags fuse_max_pages ≡ true))
      ⊎ ((size ≤ default_buffer page) ⊎ (size ≤ fuse_min_read_buffer))
    → IsAgreed page arg (agree page arg size s)
unfolding agree limit_write answer IsAgreed IsClamped
agree-IsAgreed page arg size s p (small, large) default =
    let limited = (limit_write size s).conn in
    let c = clamp_background limited in
    let kept : c.max_write ≡ limited.max_write = clamp_background-max_write limited in
    let room = fits size s.conn.max_write small large in
    let bounds =
      answered (leb 13 c.proto_minor) c.max_background c.congestion_threshold
        (clamp_background-IsClamped limited) in
    (
      room.0 ∙ sym (ap (λ n. n + fuse_buffer_header_size) kept),
      ground arith,
      bounds.0,
      bounds.1,
      ground (arith, default, room),
      pages-IsCovered page c.max_write (arg.flags fuse_max_pages) p
          (ground (arith, kept, room, small)),
    )

check_init-IsAgreed :
    (page : ℕ) (arg : InitIn) (size : ℕ) (s : Session)
    → IsAgreed page arg (agree page arg size s)
    → IsAgreed page arg (check_init page arg size s)
unfolding check_init give_up IsAgreed
check_init-IsAgreed page arg size s h =
    if_both (IsAgreed page arg) (not (want_flags_valid s.conn.capable_ext s.conn.want_ext))
      (give_up s)
      (if not (s.conn.max_read == s.mount_max_read) then give_up s else agree page arg size s)
      (refl, refl, refl)
      (if_both (IsAgreed page arg) (not (s.conn.max_read == s.mount_max_read)) (give_up s)
        (agree page arg size s) (refl, refl, refl) h)

seventh :
    {A : Type 0} (major : ℕ) (x y z : A)
    → major ≡ 7
    → (if ltb major 7 then x else if ltb 7 major then y else z) ≡ z
seventh major x y z h = ground (arith, h)

-- For a kernel of major version 7, a page size that is not 0 and a session whose `bufsize` is below
-- 2^32, whatever `init` does: either `do_init` refuses with EPROTO, and then the session has the
-- error and has exited; or it accepts, and then `bufsize` is the answer's `max_write` with the header
-- and is below 2^32, it is within 32 pages and the header or FUSE_MIN_READ_BUFFER when the kernel is
-- of minor version 6 at least and does not know FUSE_MAX_PAGES, `max_background` fits 16 bits,
-- `congestion_threshold` is not above it, and where the kernel knows FUSE_MAX_PAGES, `max_pages` is
-- `max_write` in pages, rounded up, unless `max_write` is 0 or needs more than 2^16 - 1 pages.
pub do_init-IsAgreed :
    (page : ℕ) (can : Abilities) (init : Option (Conn → Conn)) (arg : InitIn) (s : Session)
    → 0 < page
    → s.bufsize < 2 ^ 32
    → arg.major ≡ 7
    → IsAgreed page arg (do_init page can init arg s)
unfolding do_init
do_init-IsAgreed page can init arg s p small major =
    let c = call_init init (offered can arg (proto arg s.conn)) in
    let started = record s { conn = c; got_init = true } in
    let size = buffer page arg s in
    let same : do_init page can init arg s ≡ check_init page arg size started =
      seventh arg.major _ _ _ major in
    subst (IsAgreed page arg) (sym same) (
      check_init-IsAgreed page arg size started (
        agree-IsAgreed page arg size started p (buffer-bound page arg s small)
          (buffer-default page arg s)))
