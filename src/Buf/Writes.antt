-- ===== src/Buf/Writes.antt =====
-- A descriptor that is to be written to the end, lib/buffer.c: `fuse_buf_write`.
use fuse_study.Base.{
  ℕ, zero, suc, true, false, Option, none, some, List, [], ◌∷◌, ◌++◌, ◌+◌, ◌-◌, ◌==◌, ◌≡◌, ◌≤◌, ◌<◌,
  refl, sym, ap, ◌∙◌, arith, Bool-cases, inl, inr, append_assoc, append-nil,
}
use fuse_study.Buf.{Buf, Ret, count, Sys, write_loop, fuse_buf_write}
use fuse_study.Buf.Vector.{seek_pos, moved_by}
use fuse_study.Buf.Moves.{IsBounded}

abbrev Bytes : Type 0
Bytes = List (ℕ × Option ℕ × ℕ)

-- The bytes that a write of `k` bytes from address `m` moves: to which descriptor, to which position
-- if it has one, and from which address.
abbrev pub span : ℕ → Option ℕ → ℕ → ℕ → List (ℕ × Option ℕ × ℕ)
span fd p m zero = []
span fd p m (suc k) = (fd, p, m) ∷ span fd (moved_by 1 p) (m + 1) k

span-same : (fd : ℕ) (p q : Option ℕ) (m n k : ℕ) → p ≡ q → m ≡ n → span fd p m k ≡ span fd q n k
span-same fd p q m n k e h =
    ap (λ (r : Option ℕ). span fd r m k) e ∙ ap (λ (i : ℕ). span fd q i k) h

moved_by-zero : (p : Option ℕ) → p ≡ moved_by 0 p
moved_by-zero none = refl
moved_by-zero (some p) = ap (λ (n : ℕ). some n) (omega arith)

moved_by-add : (i j : ℕ) (p : Option ℕ) → moved_by i (moved_by j p) ≡ moved_by (j + i) p
moved_by-add i j none = refl
moved_by-add i j (some p) = ap (λ (n : ℕ). some n) (omega arith)

span-append :
    (fd : ℕ) (p : Option ℕ) (m j k n : ℕ)
    → n ≡ j + k
    → span fd p m j ++ span fd (moved_by j p) (m + j) k ≡ span fd p m n
span-append fd p m zero k n e =
    span-same fd (moved_by 0 p) p (m + 0) m k (sym (moved_by-zero p)) (omega arith)
    ∙ ap (λ (i : ℕ). span fd p m i) (omega (arith, e))
span-append fd p m (suc j) k zero e = absurd (omega (arith, e))
span-append fd p m (suc j) k (suc n) e =
    ap (λ (l : List (ℕ × Option ℕ × ℕ)). (fd, p, m) ∷ l)
      (ap (λ (l : List (ℕ × Option ℕ × ℕ)). span fd (moved_by 1 p) (m + 1) j ++ l)
          (span-same fd (moved_by (suc j) p) (moved_by j (moved_by 1 p)) (m + suc j) (m + 1 + j) k
            (ap (λ (i : ℕ). moved_by i p) (omega arith) ∙ sym (moved_by-add j 1 p)) (omega arith))
        ∙ span-append fd (moved_by 1 p) (m + 1) j k n (omega (arith, e)))

seek_pos-add : (b : Buf) (off k : ℕ) → seek_pos b (off + k) ≡ moved_by k (seek_pos b off)
seek_pos-add b off k = elim (Bool-cases b.fd_seek) [
  | inl e ↦ rw e (ap (λ (n : ℕ). some n) (omega arith))
  | inr e ↦ rw e refl
]

-- `out` is what has been written so far, byte by byte. Each call moves some bytes, the first ones of
-- what it is given, and says how many.
module _ {W : Type 0} (sys : Sys W) (b : IsBounded sys) (out : W → List (ℕ × Option ℕ × ℕ))
    (moves : (w : W) (fd : ℕ) (p : Option ℕ) (m n : ℕ)
      → 0 < n
      → (k : ℕ) × ((sys.write w fd p m n).0 ≡ count k)
        × (0 < k)
        × (out (sys.write w fd p m n).1 ≡ out w ++ span fd p m k))
    (dst src : Buf) (retry : dst.fd_retry ≡ true) where
  write_loop-step :
      (fuel dst_off src_off len copied : ℕ) (w : W)
      → (len == 0) ≡ false
      → (k : ℕ) → (sys.write w dst.fd (seek_pos dst dst_off) (src.mem + src_off) len).0 ≡ count k
      → 0 < k
      → write_loop sys (suc fuel) dst dst_off src src_off len copied w
        ≡ write_loop sys fuel dst
            (dst_off + k)
            src
            (src_off + k)
            (len - k)
            (copied + k)
            (sys.write w dst.fd (seek_pos dst dst_off) (src.mem + src_off) len).1
  unfolding write_loop
  write_loop-step fuel dst_off src_off len copied w left k r pos =
      ground (arith, left, r, pos, retry)

  write_loop-all :
      (fuel dst_off src_off len copied : ℕ) (w : W)
      → len ≤ fuel
      → ((write_loop sys fuel dst dst_off src src_off len copied w).0 ≡ count (copied + len))
        × (out (write_loop sys fuel dst dst_off src src_off len copied w).1
            ≡ out w ++ span dst.fd (seek_pos dst dst_off) (src.mem + src_off) len)
  unfolding write_loop
  write_loop-all zero dst_off src_off len copied w le =
      let nothing : len ≡ 0 = omega (arith, le) in
      (ground (arith, nothing), rw nothing (sym (append-nil (out w))))
  write_loop-all (suc fuel) dst_off src_off len copied w le = elim (Bool-cases (len == 0)) [
    | inl none_left ↦
        let nothing : len ≡ 0 = ground (arith, none_left) in
        rw nothing (ground arith, sym (append-nil (out w)))
    | inr left ↦
        let p = seek_pos dst dst_off in
        let m = src.mem + src_off in
        let call = sys.write w dst.fd p m len in
        let (k, r, pos, adds) = moves w dst.fd p m len (ground (arith, left)) in
        let k_le : k ≤ len = ground (arith, r, b.write_le w dst.fd p m len) in
        let ih =
          write_loop-all fuel (dst_off + k) (src_off + k) (len - k) (copied + k) call.1
            (omega (arith, le, pos)) in
        let step = write_loop-step fuel dst_off src_off len copied w left k r pos in
        let here : out call.1 ++ span dst.fd (moved_by k p) (m + k) (len - k)
            ≡ out w ++ span dst.fd p m len =
          ap (λ (l : Bytes). l ++ span dst.fd (moved_by k p) (m + k) (len - k)) adds
          ∙ append_assoc (out w) (span dst.fd p m k) (span dst.fd (moved_by k p) (m + k) (len - k))
          ∙ ap (λ (l : Bytes). out w ++ l)
              (span-append dst.fd p m k (len - k) len (omega (arith, k_le))) in
        (
          ap (λ (q : Ret × W). q.0) step ∙ ih.0 ∙ ap (λ (n : ℕ). count n) (omega (arith, k_le)),
          ap (λ (q : Ret × W). out q.1) step
              ∙ ih.1
              ∙ ap (λ (l : Bytes). out call.1 ++ l)
                  (span-same dst.fd (seek_pos dst (dst_off + k)) (moved_by k p)
                    (src.mem + (src_off + k)) (m + k) (len - k) (seek_pos-add dst dst_off k)
                    (omega arith))
              ∙ here,
        )
  ]

  -- A descriptor that the caller marked for retries is written to the end: if each `write` moves at
  -- least one byte, the first ones of what it is given, and says how many, and does not fail, then
  -- `fuse_buf_write` reports the whole length, and what has been written is each byte of the source
  -- once and in order, to consecutive positions where the descriptor has positions.
  pub write-all :
      (dst_off src_off len : ℕ) (w : W)
      → ((fuse_buf_write sys dst dst_off src src_off len w).0 ≡ count len)
        × (out (fuse_buf_write sys dst dst_off src src_off len w).1
            ≡ out w ++ span dst.fd (seek_pos dst dst_off) (src.mem + src_off) len)
  unfolding fuse_buf_write
  write-all dst_off src_off len w =
      let all = write_loop-all len dst_off src_off len 0 w (omega arith) in
      (all.0 ∙ ap (λ (n : ℕ). count n) (omega arith), all.1)
