-- ===== src/NodeTable/Slot.antt =====
-- The slot of a hash value, and how it moves when the split pointer does.
use native.Mathlib.Nat.{mod-lt, mod-eq_of_lt, div-add-mod, add-mul-mod_self_left, mod-eq-sub-mod}
use native.Mathlib.Decide.{dec_lt}
use fuse_study.Base.{
  ℕ, false, leb, ◌==◌, ◌≡◌, ◌<◌, ◌≤◌, ◌-◌, ◌+◌, ◌*◌, ◌/◌, ◌%◌, sym, ap, ◌∙◌, arith, inl, inr, ◌⊎◌,
  if◌then◌else◌,
}
use fuse_study.NodeTable.{slot}

module _ (m h : ℕ) (pos : 0 < m) where
  half : (m + m) / 2 ≡ m
  half = omega arith

  mod-mod_double : (h % (m + m)) % m ≡ h % m
  mod-mod_double =
      let q : ℕ = h / (m + m) in
      let r : ℕ = h % (m + m) in
      let e : r + m * (q + q) ≡ h = omega (arith, div-add-mod h (m + m)) in
      sym (add-mul-mod_self_left r m (q + q)) ∙ ap (λ k. k % m) e

  -- A hash value modulo `2 m` is the one modulo `m`, or lies `m` above it.
  pub mod_double : (h % (m + m) ≡ h % m) ⊎ (h % (m + m) ≡ h % m + m)
  mod_double = elim (dec_lt (h % (m + m)) m) [
    | yes low ↦ inl (sym (mod-eq_of_lt low) ∙ mod-mod_double)
    | no high ↦
        let r : ℕ = h % (m + m) in
        let bound : r < m + m = mod-lt h (omega arith) in
        let e : r % m ≡ (r - m) % m = mod-eq-sub-mod (omega arith) in
        let e' : (r - m) % m ≡ r - m = mod-eq_of_lt (omega arith) in
        inr (omega (arith, mod-mod_double, e, e'))
  ]

  pub slot_lem : (p : ℕ) → slot (m + m) p h ≡ (if leb p (h % m) then h % m else h % (m + m))
  unfolding slot
  slot_lem p = rw (half, mod-mod_double)

  -- Slots stay below the size of the table.
  pub slot-lt : (p : ℕ) → p ≤ m → slot (m + m) p h < m + m
  slot-lt p le = rw slot_lem (ground (arith, mod-lt h pos, mod-lt h {m = m + m} (omega arith)))

  -- Advancing the split pointer moves the values of slot `p`, to `p` or `p + m`, and no others.
  pub slot-suc :
      (p : ℕ)
      → p < m
      → (((slot (m + m) p h == p) ≡ false)
          × ((slot (m + m) p h == p + m) ≡ false)
          × (slot (m + m) (p + 1) h ≡ slot (m + m) p h))
        ⊎ ((slot (m + m) p h ≡ p)
            × ((slot (m + m) (p + 1) h ≡ p) ⊎ (slot (m + m) (p + 1) h ≡ p + m)))
  slot-suc p lt = rw (slot_lem p, slot_lem (p + 1)) (ground (arith, mod-lt h pos, mod_double))

-- Doubling a fully split table, and the way back, move nothing.
pub slot-doubled : (m h : ℕ) → 0 < m → slot ((m + m) + (m + m)) 0 h ≡ slot (m + m) m h
slot-doubled m h pos =
    rw (slot_lem (m + m) h (omega arith) 0, slot_lem m h pos m) (ground (arith, mod-lt h pos))
