-- ===== src/Buf/Sizes.antt =====
-- `fuse_buf_size`: the sum of the sizes, cut off at the greatest size.
use fuse_study.Base.{ℕ, List, [], ◌∷◌, ◌+◌, ◌-◌, ◌≡◌, ◌≤◌, min, arith, leb, Bool-cases, inl, inr}
use fuse_study.Buf.{Buf, fuse_buf_size, size_loop, size_max}

abbrev pub total : List Buf → ℕ
total [] = 0
total (b ∷ bs) = b.size + total bs

size_loop-total :
    (size : ℕ) (bs : List Buf)
    → size ≤ size_max
    → size_loop size bs ≡ min (size + total bs) size_max
unfolding size_loop
size_loop-total size [] h = omega arith
size_loop-total size (b ∷ bs) h = elim (Bool-cases (leb (size_max - size) b.size)) [
  | inl over ↦ ground (arith, over)
  | inr fits ↦ ground (arith, fits, size_loop-total (size + b.size) bs (ground (arith, fits)))
]

-- `fuse_buf_size` is the sum of the sizes of the buffers, or the greatest `size_t` where the sum
-- is above it: the sum never wraps around.
fuse_buf_size-total : (bs : List Buf) → fuse_buf_size bs ≡ min (total bs) size_max
unfolding fuse_buf_size
fuse_buf_size-total bs = omega (arith, size_loop-total 0 bs (omega arith))
