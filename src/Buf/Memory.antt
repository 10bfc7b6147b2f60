-- ===== src/Buf/Memory.antt =====
-- `fuse_buf_copy` between vectors of memory buffers copies all that fits.

use fuse_study.Base.{
  ℕ, zero, suc, true, false, none, some, List, [], ◌∷◌, ◌++◌, ◌==◌, refl, ◌+◌, ◌-◌, ◌≡◌, ◌≤◌, ◌<◌,
  ◌⊎◌, inl, inr, ap, ◌∙◌, arith, min, Bool-cases, Option-cases, length, get_elem?,
}
use fuse_study.Buf.{Ret, Buf, BufVec, CopyFlags, count, Sys, min_size}
use fuse_study.Buf.Vector.{current, advance, after_one, copy_loop, fuse_buf_copy, fuse_buf_copy_one}
use fuse_study.Buf.Bytes.{range, addresses, moved}
use fuse_study.Buf.Pieces.{piece-moved, last-moved, source_done, destination_done}
use fuse_study.Buf.Advance.{
  left, IsValid, drop-end, next_total, left-advance, IsValid-advance, bufs-advance, get_elem?-none,
  get_elem?-lt, piece-fits-src, piece-fits-dst,
}

abbrev pub AreMemory : List Buf → Type 0
AreMemory [] = Unit
AreMemory (b ∷ bs) = (b.is_fd ≡ false) × AreMemory bs

AreMemory-at :
    (bs : List Buf) (i : ℕ) (b : Buf) → AreMemory bs → get_elem? bs i ≡ some b → b.is_fd ≡ false
AreMemory-at [] i b m h = cc
AreMemory-at (x ∷ bs) zero b m h = ground arith
AreMemory-at (x ∷ bs) (suc i) b m h = AreMemory-at bs i b m.1 h

-- How many buffers are not yet done.
abbrev pending : BufVec → ℕ
pending v = length v.bufs - v.idx

module _ (v : BufVec) (b : Buf) (here : get_elem? v.bufs v.idx ≡ some b) (len : ℕ)
    (fits : v.off + len ≤ b.size) where
  advance-end : (advance v len).1 ≡ false → left v ≡ len
  unfolding advance current
  advance-end stop = ground (
    arith,
    here,
    next_total v b here len fits,
    drop-end v.bufs (v.idx + 1),
    get_elem?-none v.bufs (v.idx + 1),
  )

  advance-pending : pending (advance v len).0 ≤ pending v
  unfolding advance current
  advance-pending = ground (arith, here)

  advance-full : v.off + len ≡ b.size → pending (advance v len).0 + 1 ≡ pending v
  unfolding advance current
  advance-full full = ground (arith, here, full, get_elem?-lt v.bufs v.idx b here)

left-done : (v : BufVec) → current v ≡ none → left v ≡ 0
unfolding current
left-done v e = omega (arith, drop-end v.bufs v.idx e)

module _ {W : Type 0} (sys : Sys W) (tmp : ℕ) (flags : CopyFlags) (trace : W → List (ℕ × ℕ))
    (moves : (w : W) (d s n : ℕ)
      → (d == s) ≡ false
      → trace (sys.move_mem w d s n) ≡ trace w ++ moved (range d n) (range s n)) where
  copy_one-memory :
      (d : Buf) (dst_off : ℕ) (s : Buf) (src_off len : ℕ) (w : W)
      → d.is_fd ≡ false
      → s.is_fd ≡ false
      → (fuse_buf_copy_one sys tmp d dst_off s src_off len flags w).0 ≡ count len
  unfolding fuse_buf_copy_one
  copy_one-memory d dst_off s src_off len w hd hs = ground arith

  -- The round after a piece that fills the rest of one of the two buffers.
  module _ (dstv srcv : BufVec) (s d : Buf) (es : get_elem? srcv.bufs srcv.idx ≡ some s)
      (ed : get_elem? dstv.bufs dstv.idx ≡ some d) (dv : IsValid dstv) (sv : IsValid srcv) where
    piece : ℕ
    piece = min_size (s.size - srcv.off) (d.size - dstv.off)

    fits_src : srcv.off + piece ≤ s.size
    unfolding piece
    fits_src = piece-fits-src srcv dstv s d piece es sv (omega arith)

    fits_dst : dstv.off + piece ≤ d.size
    unfolding piece
    fits_dst = piece-fits-dst srcv dstv s d piece ed dv (omega arith)

    fills : (srcv.off + piece ≡ s.size) ⊎ (dstv.off + piece ≡ d.size)
    unfolding piece min_size
    fills = ground arith

    advanced : BufVec × BufVec
    advanced = ((advance dstv piece).0, (advance srcv piece).0)

    round_more :
        (after_one sys tmp flags dstv srcv piece piece).2 ≡ true
        → after_one sys tmp flags dstv srcv piece piece ≡ (advanced.0, advanced.1, true)
    unfolding after_one advanced
    round_more more = ground arith

    advanced-pending : pending advanced.0 + pending advanced.1 < pending dstv + pending srcv
    unfolding advanced
    advanced-pending = elim fills [
      | inl f ↦
          omega (
            arith,
            advance-full srcv s es piece fits_src f,
            advance-pending dstv d ed piece fits_dst,
          )
      | inr f ↦
          omega (
            arith,
            advance-full dstv d ed piece fits_dst f,
            advance-pending srcv s es piece fits_src,
          )
    ]

    advanced-left : (left advanced.0 + piece ≡ left dstv) × (left advanced.1 + piece ≡ left srcv)
    unfolding advanced
    advanced-left = (left-advance dstv d ed piece fits_dst, left-advance srcv s es piece fits_src)

    advanced-IsValid : IsValid advanced.0 × IsValid advanced.1
    unfolding advanced
    advanced-IsValid =
        (IsValid-advance dstv d ed piece fits_dst, IsValid-advance srcv s es piece fits_src)

    advanced-bufs : (advanced.0.bufs ≡ dstv.bufs) × (advanced.1.bufs ≡ srcv.bufs)
    unfolding advanced
    advanced-bufs = (bufs-advance dstv d ed piece fits_dst, bufs-advance srcv s es piece fits_src)

    round_last :
        (after_one sys tmp flags dstv srcv piece piece).2 ≡ false
        → min (left srcv) (left dstv) ≡ piece
    unfolding after_one
    round_last last = ground (
      arith,
      advance-end srcv s es piece fits_src,
      advance-end dstv d ed piece fits_dst,
      left-advance srcv s es piece fits_src,
      left-advance dstv d ed piece fits_dst,
    )

    -- The loop stops or goes on behind the piece.
    module _ (fuel copied : ℕ) (w : W) (here : current srcv ≡ some s)
        (there : current dstv ≡ some d) (call : Ret × W)
        (r : fuse_buf_copy_one sys tmp d dstv.off s srcv.off piece flags w ≡ call)
        (all : call.0 ≡ count piece) where
      loop_last :
          (after_one sys tmp flags dstv srcv piece piece).2 ≡ false
          → (copy_loop sys tmp flags (suc fuel) dstv srcv copied w).world ≡ call.1
      unfolding copy_loop piece
      loop_last last = ground (arith, here, there, r, all, last)

      loop_more :
          (after_one sys tmp flags dstv srcv piece piece).2 ≡ true
          → (copy_loop sys tmp flags (suc fuel) dstv srcv copied w).world
            ≡ (copy_loop sys tmp flags fuel advanced.0 advanced.1 (copied + piece) call.1).world
      unfolding copy_loop piece
      loop_more more = ground (arith, here, there, r, all, more, round_more more)

  copy_loop-memory :
      (fuel : ℕ) (dstv srcv : BufVec) (copied : ℕ) (w : W)
      → pending dstv + pending srcv ≤ fuel
      → IsValid dstv
      → IsValid srcv
      → AreMemory dstv.bufs
      → AreMemory srcv.bufs
      → ((copy_loop sys tmp flags fuel dstv srcv copied w).ret
          ≡ count (copied + min (left srcv) (left dstv)))
        × (trace (copy_loop sys tmp flags fuel dstv srcv copied w).world
            ≡ trace w ++ moved (addresses dstv) (addresses srcv))
  unfolding copy_loop piece
  copy_loop-memory zero dstv srcv copied w le dv sv dm sm =
      let e : current srcv ≡ none =
        unfold current in get_elem?-none srcv.bufs srcv.idx (omega arith) in
      let empty : left srcv ≡ 0 = left-done srcv e in
      (ground (arith, empty), source_done sys tmp flags trace moves dstv srcv w e)
  copy_loop-memory (suc fuel) dstv srcv copied w le dv sv dm sm =
      elim (Option-cases (current srcv)) [
        | inl e ↦ (
          ground (arith, e, left-done srcv e),
          rw (copy_loop, e) (source_done sys tmp flags trace moves dstv srcv w e),
        )
        | inr (s, es) ↦ elim (Option-cases (current dstv)) [
          | inl e ↦ (
            ground (arith, es, e, left-done dstv e),
            rw (copy_loop, es, e) (destination_done sys tmp flags trace moves dstv srcv w e),
          )
          | inr (d, ed) ↦
              let es' : get_elem? srcv.bufs srcv.idx ≡ some s = unfold current in es in
              let ed' : get_elem? dstv.bufs dstv.idx ≡ some d = unfold current in ed in
              let len : ℕ = piece dstv srcv s d es' ed' dv sv in
              let call = fuse_buf_copy_one sys tmp d dstv.off s srcv.off len flags w in
              let hd = AreMemory-at dstv.bufs dstv.idx d dm ed' in
              let hs = AreMemory-at srcv.bufs srcv.idx s sm es' in
              let fs = fits_src dstv srcv s d es' ed' dv sv in
              let fd = fits_dst dstv srcv s d es' ed' dv sv in
              let r : call.0 ≡ count len = copy_one-memory d dstv.off s srcv.off len w hd hs in
              elim (Bool-cases (after_one sys tmp flags dstv srcv len len).2) [
                | inr last ↦ (
                  ground (arith, es, ed, r, last, round_last dstv srcv s d es' ed' dv sv last),
                  ap trace
                        (loop_last dstv srcv s d es' ed' dv sv fuel copied w es ed call refl r last)
                      ∙ last-moved sys tmp flags trace moves dstv srcv d s ed' es' len fd fs hd hs w
                          last,
                )
                | inl more ↦
                    let t = advanced dstv srcv s d es' ed' dv sv in
                    let m = round_more dstv srcv s d es' ed' dv sv more in
                    let less = advanced-pending dstv srcv s d es' ed' dv sv in
                    let lefts = advanced-left dstv srcv s d es' ed' dv sv in
                    let valid = advanced-IsValid dstv srcv s d es' ed' dv sv in
                    let same = advanced-bufs dstv srcv s d es' ed' dv sv in
                    let ih =
                      copy_loop-memory fuel t.0 t.1 (copied + len) call.1 (omega (arith, less))
                        valid.0 valid.1 (rw same.0 dm) (rw same.1 sm) in
                    (
                      ground (arith, es, ed, r, m, ih.0, lefts.0, lefts.1),
                      ap trace (
                            loop_more dstv srcv s d es' ed' dv sv fuel copied w es ed call refl r
                              more)
                          ∙ ih.1
                          ∙ (unfold advanced in
                              piece-moved sys tmp flags trace moves dstv srcv d s ed' es' len fd fs
                                hd hs w),
                    )
              ]
        ]
      ]

-- Between two valid vectors of memory buffers, `fuse_buf_copy` copies as many bytes as the source
-- still has and the destination still holds, whichever is less, and never fails: it reports that
-- number, and what moved is each byte of the source, in order, to the next address of the
-- destination, across the ends of the buffers on both sides (bytes that are to stay where they are
-- do not move), if `memcpy` and `memmove` move the bytes that they are given.
pub fuse_buf_copy-memory :
    {W : Type 0} (sys : Sys W) (tmp : ℕ) (flags : CopyFlags) (trace : W → List (ℕ × ℕ))
    → ((w : W) (d s n : ℕ)
        → (d == s) ≡ false
        → trace (sys.move_mem w d s n) ≡ trace w ++ moved (range d n) (range s n))
    → (dstv srcv : BufVec) (w : W) → IsValid dstv
    → IsValid srcv
    → AreMemory dstv.bufs
    → AreMemory srcv.bufs
    → ((fuse_buf_copy sys tmp flags dstv srcv w).ret ≡ count (min (left srcv) (left dstv)))
      × (trace (fuse_buf_copy sys tmp flags dstv srcv w).world
          ≡ trace w ++ moved (addresses dstv) (addresses srcv))
unfolding fuse_buf_copy
fuse_buf_copy-memory sys tmp flags trace moves dstv srcv w dv sv dm sm =
    let all =
      copy_loop-memory sys tmp flags trace moves (length dstv.bufs + length srcv.bufs) dstv srcv 0 w
        (omega arith) dv sv dm sm in
    (all.0 ∙ ap (λ (n : ℕ). count n) (omega arith), all.1)
