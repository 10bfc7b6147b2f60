-- ===== src/Buf/Advance.antt =====
-- `fuse_bufvec_advance`: a step within the current buffer keeps a vector valid, and the bytes left
-- in it go down by the step.
use native.Mathlib.Numerals.{add-one}
use fuse_study.Base.{
  ℕ, zero, suc, Option, none, some, List, [], ◌∷◌, ◌+◌, ◌-◌, ◌≡◌, ◌≢◌, ◌≤◌, ◌<◌, refl, arith,
  length, get_elem?, drop,
}
use fuse_study.Buf.{Buf, BufVec, min_size}
use fuse_study.Buf.Sizes.{total}
use fuse_study.Buf.Vector.{current, advance}

-- The bytes of a vector from its position on.
abbrev pub left : BufVec → ℕ
left v = total (drop v.idx v.bufs) - v.off

-- The offset lies within the current buffer.
abbrev pub Fits : ℕ → Option Buf → Type 0
Fits off none = Unit
Fits off (some b) = off ≤ b.size

abbrev pub IsValid : BufVec → Type 0
IsValid v = Fits v.off (get_elem? v.bufs v.idx)

pub drop-current :
    (bs : List Buf) (i : ℕ) (b : Buf)
    → get_elem? bs i ≡ some b
    → total (drop i bs) ≡ b.size + total (drop (suc i) bs)
drop-current [] i b h = cc
drop-current (x ∷ bs) zero b h = ground arith
drop-current (x ∷ bs) (suc i) b h = drop-current bs i b h

pub drop-end : (bs : List Buf) (i : ℕ) → get_elem? bs i ≡ none → total (drop i bs) ≡ 0
drop-end [] zero h = refl
drop-end [] (suc i) h = refl
drop-end (x ∷ bs) zero h = cc
drop-end (x ∷ bs) (suc i) h = drop-end bs i h

pub get_elem?-none : (bs : List Buf) (i : ℕ) → length bs ≤ i → get_elem? bs i ≡ none
get_elem?-none [] i h = refl
get_elem?-none (x ∷ bs) zero h = absurd (omega arith)
get_elem?-none (x ∷ bs) (suc i) h = get_elem?-none bs i (omega arith)

pub get_elem?-lt : (bs : List Buf) (i : ℕ) (b : Buf) → get_elem? bs i ≡ some b → i < length bs
get_elem?-lt [] i b h = cc
get_elem?-lt (x ∷ bs) zero b h = omega arith
get_elem?-lt (x ∷ bs) (suc i) b h = omega (arith, get_elem?-lt bs i b h)

get_elem?-some : (bs : List Buf) (i : ℕ) → i < length bs → get_elem? bs i ≢ none
get_elem?-some [] i h = absurd (omega arith)
get_elem?-some (x ∷ bs) zero h = λ e. cc
get_elem?-some (x ∷ bs) (suc i) h = get_elem?-some bs i (omega arith)

Fits-zero : (o : Option Buf) → Fits 0 o
Fits-zero none = tt
Fits-zero (some b) = omega arith

-- One step of `fuse_bufvec_advance` by no more than the rest of the buffer.
module _ (v : BufVec) (b : Buf) (here : get_elem? v.bufs v.idx ≡ some b) (len : ℕ)
    (fits : v.off + len ≤ b.size) where
  pub next_total : total (drop v.idx v.bufs) ≡ b.size + total (drop (v.idx + 1) v.bufs)
  next_total = rw add-one (drop-current v.bufs v.idx b here)

  pub left-advance : left (advance v len).0 + len ≡ left v
  unfolding advance current
  left-advance =
      ground
        (arith, next_total, here, drop-end v.bufs (v.idx + 1), get_elem?-none v.bufs (v.idx + 1))

  pub IsValid-advance : IsValid (advance v len).0
  unfolding advance current
  IsValid-advance =
      ground
        (arith, here, get_elem?-none v.bufs (v.idx + 1), Fits-zero (get_elem? v.bufs (v.idx + 1)))

  pub bufs-advance : (advance v len).0.bufs ≡ v.bufs
  unfolding advance current
  bufs-advance = ground arith

-- A piece of the length that the round computes stays within both buffers.
module _ (srcv dstv : BufVec) (s d : Buf) (n : ℕ) where
  pub piece-fits-src :
      get_elem? srcv.bufs srcv.idx ≡ some s
      → IsValid srcv
      → n ≤ min_size (s.size - srcv.off) (d.size - dstv.off)
      → srcv.off + n ≤ s.size
  unfolding min_size
  piece-fits-src es sv le = ground arith

  pub piece-fits-dst :
      get_elem? dstv.bufs dstv.idx ≡ some d
      → IsValid dstv
      → n ≤ min_size (s.size - srcv.off) (d.size - dstv.off)
      → dstv.off + n ≤ d.size
  unfolding min_size
  piece-fits-dst ed dv le = ground arith
