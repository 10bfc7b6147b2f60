-- ===== src/Bound/Frames.antt =====
-- What `bound_send` writes, the server's loop puts together again.
use fuse_study.Base.{
  ℕ, zero, suc, true, false, Option, none, some, List, [], ◌∷◌, ◌++◌, ltb, leb, ◌==◌, if◌then◌else◌,
  ◌≡◌, ◌≢◌, ◌⊎◌, ◌≤◌, ◌<◌, refl, sym, ap, ◌∙◌, arith, append_assoc, append-nil, Bool-cases, inl,
  inr, ◌-◌, ◌+◌, length, take, drop, length-take, length-drop,
}
use fuse_study.Bound.{Pkt, buf_size, fill, send_loop, bound_send, strncpy, collect}

-- The packets for the bytes from `loc` on, as they differ for the contents of the buffer before.
pub frames : ℕ → List ℕ → Pkt → ℕ → ℕ → List Pkt
frames zero payload pkt loc remain = []
frames (suc fuel) payload pkt loc remain =
    let rest =
      frames fuel payload (fill pkt payload loc remain) (loc + (fill pkt payload loc remain).size)
        (remain - (fill pkt payload loc remain).size) in
    if remain == 0 then [] else fill pkt payload loc remain ∷ rest

module _ {W : Type 0} (write : W → Pkt → Option W) (sent : W → List Pkt)
    (accepts : (w : W) (p : Pkt)
      → (w' : W) × (write w p ≡ some w') × (sent w' ≡ sent w ++ p ∷ [])) where
  send_loop-frames :
      (fuel : ℕ) (payload : List ℕ) (pkt : Pkt) (loc remain : ℕ) (w : W)
      → (w' : W) × (send_loop write fuel payload pkt loc remain w ≡ some w')
        × (sent w' ≡ sent w ++ frames fuel payload pkt loc remain)
  unfolding send_loop frames
  send_loop-frames zero payload pkt loc remain w = (w, refl, sym (append-nil (sent w)))
  send_loop-frames (suc fuel) payload pkt loc remain w = elim (Bool-cases (remain == 0)) [
    | inl done ↦ (w, ground (arith, done), rw done (sym (append-nil (sent w))))
    | inr more ↦
        let p : Pkt = fill pkt payload loc remain in
        let (w₁, e₁, s₁) = accepts w p in
        let (w₂, e₂, s₂) = send_loop-frames fuel payload p (loc + p.size) (remain - p.size) w₁ in
        (
          w₂,
          ground (arith, more, e₁, e₂),
          rw more (
              s₂
              ∙ ap (λ (l : List Pkt). l ++ frames fuel payload p (loc + p.size) (remain - p.size))
                  s₁
              ∙ append_assoc (sent w) (p ∷ [])
                  (frames fuel payload p (loc + p.size) (remain - p.size))),
        )
  ]

-- A C string, with or without the NUL at its end: no other byte is NUL.
unfoldable pub IsText : List ℕ → Type 0
IsText [] = Unit
IsText (c ∷ s) = ((c ≢ 0) ⊎ (length s ≡ 0)) × IsText s

IsText-drop : (n : ℕ) (s : List ℕ) → IsText s → IsText (drop n s)
unfolding IsText
IsText-drop zero s h = h
IsText-drop (suc n) [] h = h
IsText-drop (suc n) (c ∷ s) h = IsText-drop n s h.1

IsText-take : (n : ℕ) (s : List ℕ) → IsText s → IsText (take n s)
unfolding IsText
IsText-take zero s h = tt
IsText-take (suc n) [] h = tt
IsText-take (suc n) (c ∷ s) h = (ground (arith, h.0, length-take n s), IsText-take n s h.1)

strncpy_exact : (n : ℕ) (xs ys : List ℕ) → length xs ≡ n → IsText xs → strncpy n (xs ++ ys) ≡ xs
unfolding strncpy IsText
strncpy_exact zero [] ys h t = refl
strncpy_exact zero (x ∷ xs) ys h t = absurd (omega arith)
strncpy_exact (suc n) [] ys h t = absurd (omega arith)
strncpy_exact (suc zero) (x ∷ []) ys h t = ground arith
strncpy_exact (suc zero) (x ∷ y ∷ xs) ys h t = absurd (omega arith)
strncpy_exact (suc (suc n)) (x ∷ xs) ys h t =
    let solid : (x == 0) ≡ false = ground (arith, t.0, h) in
    rw solid (ap (λ l. x ∷ l) (strncpy_exact (suc n) xs ys (omega arith) t.1))

take_nil : (n : ℕ) → ◌≡◌ {A = List ℕ} (take n []) []
take_nil zero = refl
take_nil (suc n) = refl

take-drop : (n k m : ℕ) (xs : List ℕ) → m ≡ n + k → take n xs ++ take k (drop n xs) ≡ take m xs
take-drop zero k m xs e = ap (λ (i : ℕ). take i xs) (omega arith)
take-drop (suc n) k zero xs e = absurd (omega arith)
take-drop (suc n) k (suc m) [] e = take_nil k
take-drop (suc n) k (suc m) (x ∷ xs) e = ap (λ l. x ∷ l) (take-drop n k m xs (omega arith))

take_full : (n : ℕ) (xs : List ℕ) → length xs ≤ n → take n xs ≡ xs
take_full zero [] h = refl
take_full zero (x ∷ xs) h = absurd (omega arith)
take_full (suc n) [] h = refl
take_full (suc n) (x ∷ xs) h = ap (λ l. x ∷ l) (take_full n xs (omega arith))

-- The bytes that a packet carries.
fill-chunk :
    (payload : List ℕ) (pkt : Pkt) (loc remain : ℕ)
    → loc + remain ≡ length payload
    → IsText payload
    → strncpy (fill pkt payload loc remain).size (fill pkt payload loc remain).buf
      ≡ take (fill pkt payload loc remain).size (drop loc payload)
unfolding fill
fill-chunk payload pkt loc remain e text =
    let n : ℕ = if ltb buf_size remain then buf_size else remain in
    let n_le : n ≤ remain = ground arith in
    strncpy_exact n (take n (drop loc payload)) (drop (length (take n (drop loc payload))) pkt.buf)
      (omega (arith, length-take n (drop loc payload), length-drop loc payload, n_le))
      (IsText-take n (drop loc payload) (IsText-drop loc payload text))

pub fill-size :
    (payload : List ℕ) (pkt : Pkt) (loc remain : ℕ)
    → 0 < remain
    → (0 < (fill pkt payload loc remain).size)
      × ((fill pkt payload loc remain).size ≤ buf_size)
      × ((fill pkt payload loc remain).size ≤ remain)
      × ((fill pkt payload loc remain).total_size ≡ length payload)
      × (((fill pkt payload loc remain).stop == 1) ≡ leb remain buf_size)
      × (remain ≤ buf_size → (fill pkt payload loc remain).size ≡ remain)
unfolding fill
fill-size payload pkt loc remain pos =
    (ground arith, ground arith, ground arith, refl, ground arith, ground arith)

frames-done :
    (fuel : ℕ) (payload : List ℕ) (pkt : Pkt) (loc : ℕ) → frames fuel payload pkt loc 0 ≡ []
unfolding frames
frames-done zero payload pkt loc = refl
frames-done (suc fuel) payload pkt loc = refl

collect-frames :
    (fuel : ℕ) (payload : List ℕ) (pkt : Pkt) (loc remain : ℕ) (rest : List Pkt)
    → loc + remain ≡ length payload
    → 0 < remain
    → remain ≤ fuel
    → IsText payload
    → collect (take loc payload) (frames fuel payload pkt loc remain ++ rest) ≡ some (payload, rest)
unfolding frames collect
collect-frames zero payload pkt loc remain rest e pos le text = absurd (omega arith)
collect-frames (suc fuel) payload pkt loc remain rest e pos le text =
    let p : Pkt = fill pkt payload loc remain in
    let (some_sent, small, fits, all, last, whole) = fill-size payload pkt loc remain pos in
    let path : take loc payload ++ strncpy p.size p.buf ≡ take (loc + p.size) payload =
      ap (λ (c : List ℕ). take loc payload ++ c) (fill-chunk payload pkt loc remain e text)
      ∙ take-drop loc p.size (loc + p.size) payload refl in
    let more : (remain == 0) ≡ false = ground arith in
    elim (Bool-cases (leb remain buf_size)) [
      | inl short ↦
          let end : (p.stop == 1) ≡ true = last ∙ short in
          let full : take (loc + p.size) payload ≡ payload =
            take_full (loc + p.size) payload (omega (arith, whole (ground (arith, short)))) in
          let done : remain - p.size ≡ 0 = omega (arith, whole (ground (arith, short))) in
          let none_left : frames fuel payload p (loc + p.size) (remain - p.size) ≡ [] =
            rw done (frames-done fuel payload p (loc + p.size)) in
          rw more (rw (end, none_left, path, full) refl)
      | inr long ↦
          let gap : buf_size < remain = ground (arith, long) in
          let not_end : (p.stop == 1) ≡ false = last ∙ long in
          let ih =
            collect-frames fuel payload p (loc + p.size) (remain - p.size) rest
              (omega (arith, fits)) (omega (arith, small, gap)) (omega (arith, some_sent)) text in
          rw more (rw (not_end, path) ih)
    ]

-- Over a socket that takes every packet whole, `bound_send` of a nonempty C string, with or without
-- the NUL at its end, succeeds, and what it puts on the socket is read back by the server's loop, which
-- copies with `strncpy`, as exactly that string, with whatever follows left over. `sent` is what the socket was given so far.
pub collect-bound_send :
    {W : Type 0} (write : W → Pkt → Option W) (sent : W → List Pkt)
    (accepts : (w : W) (p : Pkt) → (w' : W) × (write w p ≡ some w') × (sent w' ≡ sent w ++ p ∷ []))
    (pkt : Pkt) (payload : List ℕ) (w : W)
    → 0 < length payload
    → IsText payload
    → (w' : W) × (ps : List Pkt) × (bound_send write pkt payload w ≡ some w')
      × (sent w' ≡ sent w ++ ps)
      × ((rest : List Pkt) → collect [] (ps ++ rest) ≡ some (payload, rest))
unfolding bound_send
collect-bound_send write sent accepts pkt payload w pos text =
    let ps = frames (length payload) payload pkt 0 (length payload) in
    let (w', e, s) =
      send_loop-frames write sent accepts (length payload) payload pkt 0 (length payload) w in
    (
      w',
      ps,
      e,
      s,
      λ rest.
          collect-frames (length payload) payload pkt 0 (length payload) rest (omega arith) pos
            (omega arith) text,
    )

-- Data of length 0 sends no packet at all, so the other side waits for one.
pub bound_send-empty :
    {W : Type 0} (write : W → Pkt → Option W) (pkt : Pkt) (w : W) (rest : List Pkt)
    → (bound_send write pkt [] w ≡ some w) × (collect [] [] ≡ none)
unfolding bound_send send_loop collect
bound_send-empty write pkt w rest = (refl, refl)
