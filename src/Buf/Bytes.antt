-- ===== src/Buf/Bytes.antt =====
-- The bytes of a vector of memory buffers, by their addresses.
use native.Mathlib.Numerals.{add-one}
use fuse_study.Base.{
  ℕ, zero, suc, false, some, none, List, [], ◌∷◌, ◌++◌, ◌+◌, ◌-◌, ◌==◌, ◌≡◌, ◌≤◌, refl, ap, sym,
  subst, ◌∙◌, arith, inl, inr, Bool-cases, if◌then◌else◌, length, get_elem?,
}
use fuse_study.Buf.{Buf, BufVec}
use fuse_study.Buf.Vector.{current, advance}
use fuse_study.Buf.Advance.{get_elem?-none}

abbrev pub range : ℕ → ℕ → List ℕ
range a zero = []
range a (suc n) = a ∷ range (a + 1) n

-- From offset `off` of the buffer `i` on.
abbrev addresses_from : List Buf → ℕ → ℕ → List ℕ
addresses_from [] i off = []
addresses_from (b ∷ bs) zero off = range (b.mem + off) (b.size - off) ++ addresses_from bs 0 0
addresses_from (b ∷ bs) (suc i) off = addresses_from bs i off

-- The addresses of the bytes that are left of a vector, in order.
abbrev pub addresses : BufVec → List ℕ
addresses v = addresses_from v.bufs v.idx v.off

-- Byte by byte, to which address and from which address; a byte that stays where it is does not move.
abbrev pub moved : List ℕ → List ℕ → List (ℕ × ℕ)
moved [] ss = []
moved (d ∷ ds) [] = []
moved (d ∷ ds) (s ∷ ss) = if d == s then moved ds ss else ((d, s) ∷ moved ds ss)

pub moved-nil : (ds : List ℕ) → moved ds [] ≡ []
moved-nil [] = refl
moved-nil (d ∷ ds) = refl

range-same : (a b m n : ℕ) → a ≡ b → m ≡ n → range a m ≡ range b n
range-same a b m n e h = ap (λ (i : ℕ). range i m) e ∙ ap (range b) h

range-split :
    (a k n : ℕ) (l : List ℕ) → k ≤ n → range a n ++ l ≡ range a k ++ (range (a + k) (n - k) ++ l)
range-split a zero n l h =
    ap (λ (r : List ℕ). r ++ l) (range-same a (a + 0) n (n - 0) (omega arith) (omega arith))
range-split a (suc k) zero l h = absurd (omega (arith, h))
range-split a (suc k) (suc n) l h =
    ap (λ (r : List ℕ). a ∷ r)
      (range-split (a + 1) k n l (omega (arith, h))
        ∙ ap (λ (r : List ℕ). range (a + 1) k ++ (r ++ l))
            (range-same (a + 1 + k) (a + suc k) (n - k) (suc n - suc k) (omega arith)
              (omega arith)))

pub moved-range :
    (d s n : ℕ) (ds ss : List ℕ)
    → moved (range d n ++ ds) (range s n ++ ss) ≡ moved (range d n) (range s n) ++ moved ds ss
moved-range d s zero ds ss = refl
moved-range d s (suc n) ds ss = elim (Bool-cases (d == s)) [
  | inl e ↦ rw e (moved-range (d + 1) (s + 1) n ds ss)
  | inr e ↦ rw e (ap (λ (l : List (ℕ × ℕ)). (d, s) ∷ l) (moved-range (d + 1) (s + 1) n ds ss))
]

pub moved-same : (d n : ℕ) → moved (range d n) (range d n) ≡ []
moved-same d zero = refl
moved-same d (suc n) = elim (Bool-cases (d == d)) [
  | inl e ↦ rw e (moved-same (d + 1) n)
  | inr e ↦ absurd (ground (arith, e))
]

first-split :
    (b : Buf) (bs : List Buf) (off len : ℕ)
    → off + len ≤ b.size
    → addresses_from (b ∷ bs) 0 off
      ≡ range (b.mem + off) len ++ addresses_from (b ∷ bs) 0 (off + len)
first-split b bs off len h =
    range-split (b.mem + off) len (b.size - off) (addresses_from bs 0 0) (omega (arith, h))
    ∙ ap (λ (r : List ℕ). range (b.mem + off) len ++ (r ++ addresses_from bs 0 0))
        (range-same (b.mem + off + len) (b.mem + (off + len)) (b.size - off - len)
          (b.size - (off + len)) (omega arith) (omega arith))

addresses_from-split :
    (bs : List Buf) (i : ℕ) (b : Buf) (off len : ℕ)
    → get_elem? bs i ≡ some b
    → off + len ≤ b.size
    → addresses_from bs i off ≡ range (b.mem + off) len ++ addresses_from bs i (off + len)
addresses_from-split [] i b off len e h = cc
addresses_from-split (x ∷ bs) zero b off len e h =
    let same : x ≡ b = cc in
    subst
      (λ (y : Buf).
        addresses_from (x ∷ bs) 0 off
        ≡ range (y.mem + off) len ++ addresses_from (x ∷ bs) 0 (off + len))
      same (first-split x bs off len (subst (λ (y : Buf). off + len ≤ y.size) (sym same) h))
addresses_from-split (x ∷ bs) (suc i) b off len e h = addresses_from-split bs i b off len e h

-- At the end of a buffer begins the next one.
addresses_from-next :
    (bs : List Buf) (i : ℕ) (b : Buf)
    → get_elem? bs i ≡ some b
    → addresses_from bs i b.size ≡ addresses_from bs (suc i) 0
addresses_from-next [] i b e = cc
addresses_from-next (x ∷ bs) zero b e =
    let same : x ≡ b = cc in
    let size : x.size ≡ b.size = ap (λ (y : Buf). y.size) same in
    let nothing : x.size - b.size ≡ 0 = omega (arith, size) in
    ap (λ (n : ℕ). range (x.mem + b.size) n ++ addresses_from bs 0 0) nothing
addresses_from-next (x ∷ bs) (suc i) b e = addresses_from-next bs i b e

addresses_from-end :
    (bs : List Buf) (i off : ℕ) → get_elem? bs i ≡ none → addresses_from bs i off ≡ []
addresses_from-end [] i off h = refl
addresses_from-end (x ∷ bs) zero off h = cc
addresses_from-end (x ∷ bs) (suc i) off h = addresses_from-end bs i off h

-- One step of `fuse_bufvec_advance` passes the first `len` addresses; at the end there are none.
module _ (v : BufVec) (b : Buf) (here : get_elem? v.bufs v.idx ≡ some b) (len : ℕ)
    (fits : v.off + len ≤ b.size) where
  passed : addresses_from v.bufs v.idx (v.off + len) ≡ addresses (advance v len).0
  unfolding advance current
  passed = elim (Bool-cases (v.off + len == b.size)) [
    | inl e ↦
        let full : v.off + len ≡ b.size = ground (arith, e) in
        let next : addresses_from v.bufs v.idx (v.off + len) ≡ addresses_from v.bufs (suc v.idx) 0 =
          ap (addresses_from v.bufs v.idx) full ∙ addresses_from-next v.bufs v.idx b here in
        elim (Bool-cases (v.idx + 1 == length v.bufs)) [
          | inl last ↦
              let out = get_elem?-none v.bufs (v.idx + 1) (ground (arith, last)) in
              rw (advance, here, e, last)
                (next
                  ∙ addresses_from-end v.bufs (suc v.idx) 0 (rw (sym (add-one v.idx)) out)
                  ∙ sym (addresses_from-end v.bufs (v.idx + 1) (v.off + len) out))
          | inr more ↦ rw (advance, here, e, more) (rw (add-one v.idx) next)
        ]
    | inr e ↦ rw (advance, here, e) refl
  ]

  pub addresses-advance : addresses v ≡ range (b.mem + v.off) len ++ addresses (advance v len).0
  addresses-advance =
      addresses_from-split v.bufs v.idx b v.off len here fits
      ∙ ap (λ (l : List ℕ). range (b.mem + v.off) len ++ l) passed

  pub advance-last : (advance v len).1 ≡ false → addresses (advance v len).0 ≡ []
  unfolding advance current
  advance-last stop = elim (Bool-cases (v.off + len == b.size)) [
    | inl e ↦ elim (Bool-cases (v.idx + 1 == length v.bufs)) [
      | inl last ↦
          rw (advance, here, e, last)
            (addresses_from-end v.bufs (v.idx + 1) (v.off + len)
              (get_elem?-none v.bufs (v.idx + 1) (ground (arith, last))))
      | inr more ↦ absurd (ground (arith, here, e, more, stop))
    ]
    | inr e ↦ absurd (ground (arith, here, e, stop))
  ]

pub addresses-none : (v : BufVec) → current v ≡ none → addresses v ≡ []
unfolding current
addresses-none v e = addresses_from-end v.bufs v.idx v.off e
