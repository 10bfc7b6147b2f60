-- ===== src/Bound/Stream.antt =====
-- `bound_read` gets one whole packet, however the stream cuts the bytes.
use fuse_study.Base.{
  ℕ, zero, suc, Bool, true, List, [], ◌++◌, ◌==◌, ◌≡◌, ◌≤◌, ◌<◌, ◌⊎◌, refl, sym, ap, subst, ◌∙◌,
  arith, append_assoc, Bool-cases, inl, inr, ◌-◌, ◌+◌, length, length-append,
}
use fuse_study.Bound.{
  Got, bytes, closed, failed, value, negative, to_int, Received, read_loop, bound_read,
}

-- What read(2) promises of a stream with the bytes `pending` still to come: a positive count of
-- the next of them, or the end, or -1. The end is not read while bytes are pending. `broken` is
-- whether a call has failed so far.
abbrev pub Obeys : {W : Type 0} → (W → List ℕ) → (W → Bool) → W → ℕ → Got × W → Type 0
Obeys pending broken before n (bytes bs, w) =
    (pending before ≡ bs ++ pending w)
    × (0 < length bs)
    × (length bs ≤ n)
    × (broken w ≡ broken before)
Obeys pending broken before n (closed, w) =
    (pending before ≡ []) × (pending w ≡ []) × (broken w ≡ broken before)
Obeys pending broken before n (failed, w) = (pending w ≡ pending before) × (broken w ≡ true)

Got-cases : (g : Got) → ((bs : List ℕ) × (g ≡ bytes bs)) ⊎ ((g ≡ closed) ⊎ (g ≡ failed))
Got-cases (bytes bs) = inl (bs, refl)
Got-cases closed = inr (inl refl)
Got-cases failed = inr (inr refl)

module _ {W : Type 0} (read : W → ℕ → Got × W) (pending : W → List ℕ) (broken : W → Bool)
    (obeys : (w : W) (n : ℕ) → 0 < n → Obeys pending broken w n (read w n)) (pkt_size : ℕ)
    (size_of : List ℕ → ℕ) where
  -- The whole packet, and its size as an `int`; or 0 at the end of the stream; or -1 and a failure.
  abbrev pub Sound : List ℕ → ℕ → List ℕ → Bool → Received × W → Type 0
  Sound got n before was r =
      ((length r.0.1 ≡ length got + n)
        × (got ++ before ≡ r.0.1 ++ pending r.1)
        × (r.0.0 ≡ to_int (size_of r.0.1))
        × (broken r.1 ≡ was))
      ⊎ (((r.0.0 ≡ value 0) × (length before < n) × (broken r.1 ≡ was))
          ⊎ ((r.0.0 ≡ negative) × (broken r.1 ≡ true)))

  Sound-step :
      (got bs before mid : List ℕ) (n : ℕ) (was : Bool) (r : Received × W)
      → before ≡ bs ++ mid
      → length bs ≤ n
      → Sound (got ++ bs) (n - length bs) mid was r
      → Sound got n before was r
  Sound-step got bs before mid n was r e fits (inl (len, whole, ret, kept)) = inl (
    omega (arith, len, fits, length-append got bs),
    ap (λ (l : List ℕ). got ++ l) e ∙ sym (append_assoc got bs mid) ∙ whole,
    ret,
    kept,
  )
  Sound-step got bs before mid n was r e fits (inr (inl (ret, short, kept))) =
      inr (inl (ret, rw e (omega (arith, short, length-append bs mid)), kept))
  Sound-step got bs before mid n was r e fits (inr (inr ret)) = inr (inr ret)

  read_loop-Sound :
      (fuel : ℕ) (got : List ℕ) (n : ℕ) (w : W)
      → n ≤ fuel
      → Sound got n (pending w) (broken w) (read_loop read pkt_size size_of fuel got n w)
  unfolding read_loop
  read_loop-Sound zero got n w le = inl (omega arith, refl, refl, refl)
  read_loop-Sound (suc fuel) got n w le = elim (Bool-cases (n == 0)) [
    | inl done ↦
        let none_left : n ≡ 0 = ground (arith, done) in
        rw done (inl (omega (arith, none_left), refl, refl, refl))
    | inr more ↦
        let promise = obeys w n (ground (arith, more)) in
        let at = λ (g : Got). Obeys pending broken w n (g, (read w n).1) in
        elim (Got-cases (read w n).0) [
          | inl (bs, r) ↦
              let (e, pos, fits, kept) = subst at r promise in
              let ih =
                read_loop-Sound fuel (got ++ bs) (n - length bs) (read w n).1 (omega arith) in
              let after =
                read_loop read pkt_size size_of fuel (got ++ bs) (n - length bs) (read w n).1 in
              rw (more, r)
                (Sound-step got bs (pending w) (pending (read w n).1) n (broken w) after e fits (
                  subst
                    (λ (k : Bool). Sound (got ++ bs) (n - length bs) (pending (read w n).1) k after)
                    kept ih))
          | inr (inl r) ↦
              let (e, _, kept) = subst at r promise in
              rw (more, r) (inr (inl (refl, rw e (ground (arith, more)), kept)))
          | inr (inr r) ↦ rw (more, r) (inr (inr (refl, (subst at r promise).1)))
        ]
  ]

  -- However the stream cuts the bytes, `bound_read` ends in one of three ways. It has put the next
  -- `sizeof(struct pkt)` bytes of the stream into the packet, left the bytes behind them, and
  -- returns the packet's field `size` as an `int`, which is 0 or negative for some packets; or it
  -- returns 0 because the stream had fewer bytes left; or it returns a negative value and a call of
  -- read(2) has failed. `broken`, whether a call has failed, changes in no other case.
  pub bound_read-Sound :
      (w : W) → Sound [] pkt_size (pending w) (broken w) (bound_read read pkt_size size_of w)
  unfolding bound_read
  bound_read-Sound w = read_loop-Sound pkt_size [] pkt_size w (omega arith)
