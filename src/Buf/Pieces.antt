-- ===== src/Buf/Pieces.antt =====
-- `fuse_buf_copy_one` between two memory buffers, and what the vectors have left behind it.

use fuse_study.Base.{
  ℕ, false, some, none, List, [], ◌++◌, ◌+◌, ◌==◌, ◌≡◌, ◌≤◌, ap, sym, ◌∙◌, arith, append_assoc,
  append-nil, inl, inr, Bool-cases, get_elem?,
}
use fuse_study.Buf.{Buf, BufVec, CopyFlags, Sys}
use fuse_study.Buf.Vector.{current, advance, after_one, fuse_buf_copy_one}
use fuse_study.Buf.Bytes.{
  range, addresses, moved, moved-nil, moved-range, moved-same, addresses-advance, advance-last,
  addresses-none,
}

-- `trace` is what has been moved between addresses so far: `memcpy` and `memmove` move each byte.
module _ {W : Type 0} (sys : Sys W) (tmp : ℕ) (flags : CopyFlags) (trace : W → List (ℕ × ℕ))
    (moves : (w : W) (d s n : ℕ)
      → (d == s) ≡ false
      → trace (sys.move_mem w d s n) ≡ trace w ++ moved (range d n) (range s n)) where
  copy_one-moved :
      (d : Buf) (dst_off : ℕ) (s : Buf) (src_off len : ℕ) (w : W)
      → d.is_fd ≡ false
      → s.is_fd ≡ false
      → trace (fuse_buf_copy_one sys tmp d dst_off s src_off len flags w).1
        ≡ trace w ++ moved (range (d.mem + dst_off) len) (range (s.mem + src_off) len)
  unfolding fuse_buf_copy_one
  copy_one-moved d dst_off s src_off len w hd hs =
      elim (Bool-cases (d.mem + dst_off == s.mem + src_off)) [
        | inl e ↦
            let same : s.mem + src_off ≡ d.mem + dst_off = ground (arith, e) in
            rw (fuse_buf_copy_one, hd, hs, e)
              (sym (append-nil (trace w))
                ∙ ap (λ (l : List (ℕ × ℕ)). trace w ++ l)
                    (sym (
                      ap (λ (a : ℕ). moved (range (d.mem + dst_off) len) (range a len)) same
                      ∙ moved-same (d.mem + dst_off) len)))
        | inr e ↦
            rw (fuse_buf_copy_one, hd, hs, e) (moves w (d.mem + dst_off) (s.mem + src_off) len e)
      ]

  -- One piece, and then the rest of the addresses.
  module _ (dstv srcv : BufVec) (d s : Buf) (ed : get_elem? dstv.bufs dstv.idx ≡ some d)
      (es : get_elem? srcv.bufs srcv.idx ≡ some s) (len : ℕ) (dst_fits : dstv.off + len ≤ d.size)
      (src_fits : srcv.off + len ≤ s.size) (hd : d.is_fd ≡ false) (hs : s.is_fd ≡ false)
      (w : W) where
    pub piece-moved :
        trace (fuse_buf_copy_one sys tmp d dstv.off s srcv.off len flags w).1
          ++ moved (addresses (advance dstv len).0) (addresses (advance srcv len).0)
        ≡ trace w ++ moved (addresses dstv) (addresses srcv)
    piece-moved =
        let ds = addresses (advance dstv len).0 in
        let ss = addresses (advance srcv len).0 in
        let here = moved (range (d.mem + dstv.off) len) (range (s.mem + srcv.off) len) in
        ap (λ (l : List (ℕ × ℕ)). l ++ moved ds ss)
          (copy_one-moved d dstv.off s srcv.off len w hd hs)
        ∙ append_assoc (trace w) here (moved ds ss)
        ∙ ap (λ (l : List (ℕ × ℕ)). trace w ++ l)
            (sym (moved-range (d.mem + dstv.off) (s.mem + srcv.off) len ds ss)
              ∙ ap (λ (l : List ℕ). moved l (range (s.mem + srcv.off) len ++ ss))
                  (sym (addresses-advance dstv d ed len dst_fits))
              ∙ ap (λ (l : List ℕ). moved (addresses dstv) l)
                  (sym (addresses-advance srcv s es len src_fits)))

    -- The loop ends when one of the two vectors ends.
    pub last-moved :
        (after_one sys tmp flags dstv srcv len len).2 ≡ false
        → trace (fuse_buf_copy_one sys tmp d dstv.off s srcv.off len flags w).1
          ≡ trace w ++ moved (addresses dstv) (addresses srcv)
    unfolding after_one
    last-moved stop =
        let call = fuse_buf_copy_one sys tmp d dstv.off s srcv.off len flags w in
        let ds = addresses (advance dstv len).0 in
        let ss = addresses (advance srcv len).0 in
        let nothing : moved ds ss ≡ [] = elim (Bool-cases (advance srcv len).1) [
          | inl more ↦
              ap (λ (l : List ℕ). moved l ss)
                (advance-last dstv d ed len dst_fits (ground (arith, stop, more)))
          | inr last ↦
              ap (λ (l : List ℕ). moved ds l) (advance-last srcv s es len src_fits last)
              ∙ moved-nil ds
        ] in
        sym (append-nil (trace call.1))
        ∙ ap (λ (l : List (ℕ × ℕ)). trace call.1 ++ l) (sym nothing)
        ∙ piece-moved

  pub source_done :
      (dstv srcv : BufVec) (w : W)
      → current srcv ≡ none
      → trace w ≡ trace w ++ moved (addresses dstv) (addresses srcv)
  source_done dstv srcv w e =
      sym (append-nil (trace w))
      ∙ ap (λ (l : List (ℕ × ℕ)). trace w ++ l)
          (sym (ap (moved (addresses dstv)) (addresses-none srcv e) ∙ moved-nil (addresses dstv)))

  pub destination_done :
      (dstv srcv : BufVec) (w : W)
      → current dstv ≡ none
      → trace w ≡ trace w ++ moved (addresses dstv) (addresses srcv)
  destination_done dstv srcv w e =
      sym (append-nil (trace w))
      ∙ ap (λ (l : List (ℕ × ℕ)). trace w ++ l)
          (sym (ap (λ (a : List ℕ). moved a (addresses srcv)) (addresses-none dstv e)))
