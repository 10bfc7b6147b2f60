-- ===== src/Buf/Moves.antt =====
-- Transfers never report more than was asked for, and an error only when nothing was moved.
use fuse_study.Base.{
  ℕ, zero, suc, Option, none, some, ◌+◌, ◌-◌, ◌≡◌, ◌≤◌, ◌⊎◌, inl, inr, refl, arith, if◌then◌else◌,
}
use fuse_study.Buf.{
  Buf, CopyFlags, Ret, err, count, Sys, min_size, write_loop, read_loop, fd_loop, fuse_buf_write,
  fuse_buf_read, fuse_buf_fd_to_fd, tmp_buf,
}
use fuse_study.Buf.Vector.{splice_loop, fuse_buf_splice, fuse_buf_copy_one, moved_by, seek_pos}

-- A count between the two bounds; an error where the lower bound is 0.
abbrev pub Within : ℕ → ℕ → Ret → Type 0
Within lo hi (err e) = lo ≡ 0
Within lo hi (count n) = (lo ≤ n) × (n ≤ hi)

-- What the manual pages say of the return values of write(2), read(2) and splice(2).
pub record IsBounded {W : Type 0} (sys : Sys W) : Type 0 where
  pub write_le :
      (w : W) (fd : ℕ) (p : Option ℕ) (m len : ℕ) → Within 0 len (sys.write w fd p m len).0
  pub read_le : (w : W) (fd : ℕ) (p : Option ℕ) (m len : ℕ) → Within 0 len (sys.read w fd p m len).0
  pub splice_le :
      (w : W) (i : ℕ) (p : Option ℕ) (o : ℕ) (q : Option ℕ) (len : ℕ) (flags : CopyFlags)
      → Within 0 len (sys.splice w i p o q len flags).0

pub Ret-cases : (r : Ret) → ((e : ℕ) × (r ≡ err e)) ⊎ ((n : ℕ) × (r ≡ count n))
Ret-cases (err e) = inl (e, refl)
Ret-cases (count n) = inr (n, refl)

Within-wider : (lo hi hi' : ℕ) (r : Ret) → Within lo hi r → hi ≤ hi' → Within lo hi' r
Within-wider lo hi hi' (err e) w h = w
Within-wider lo hi hi' (count n) w h = omega arith

module _ {W : Type 0} (sys : Sys W) (b : IsBounded sys) where
  write_loop-Within :
      (fuel : ℕ) (dst : Buf) (dst_off : ℕ) (src : Buf) (src_off len copied : ℕ) (w : W)
      → Within copied (copied + len) (write_loop sys fuel dst dst_off src src_off len copied w).0
  unfolding write_loop
  write_loop-Within zero dst dst_off src src_off len copied w = omega arith
  write_loop-Within (suc fuel) dst dst_off src src_off len copied w =
      let call =
        sys.write w dst.fd (if dst.fd_seek then some (dst.pos + dst_off) else none)
          (src.mem + src_off) len in
      let le =
        b.write_le w dst.fd (if dst.fd_seek then some (dst.pos + dst_off) else none)
          (src.mem + src_off) len in
      elim (Ret-cases call.0) [
        | inl (e, r) ↦ ground (arith, r)
        | inr (n, r) ↦
            let n_le : n ≤ len = ground (arith, le, r) in
            ground (
              arith,
              r,
              n_le,
              write_loop-Within fuel dst (dst_off + n) src (src_off + n) (len - n) (copied + n)
                  call.1,
            )
      ]

  read_loop-Within :
      (fuel : ℕ) (dst : Buf) (dst_off : ℕ) (src : Buf) (src_off len copied : ℕ) (w : W)
      → Within copied (copied + len) (read_loop sys fuel dst dst_off src src_off len copied w).0
  unfolding read_loop
  read_loop-Within zero dst dst_off src src_off len copied w = omega arith
  read_loop-Within (suc fuel) dst dst_off src src_off len copied w =
      let p = if src.fd_seek then some (src.pos + src_off) else none in
      let call = sys.read w src.fd p (dst.mem + dst_off) len in
      let le = b.read_le w src.fd p (dst.mem + dst_off) len in
      elim (Ret-cases call.0) [
        | inl (e, r) ↦ ground (arith, r)
        | inr (n, r) ↦
            let n_le : n ≤ len = ground (arith, le, r) in
            ground (
              arith,
              r,
              n_le,
              read_loop-Within fuel dst (dst_off + n) src (src_off + n) (len - n) (copied + n)
                  call.1,
            )
      ]

  write-Within :
      (dst : Buf) (dst_off : ℕ) (src : Buf) (src_off len : ℕ) (w : W)
      → Within 0 len (fuse_buf_write sys dst dst_off src src_off len w).0
  unfolding fuse_buf_write
  write-Within dst dst_off src src_off len w =
      let call = write_loop sys len dst dst_off src src_off len 0 w in
      Within-wider 0 (0 + len) len call.0 (write_loop-Within len dst dst_off src src_off len 0 w)
        (omega arith)

  read-Within :
      (dst : Buf) (dst_off : ℕ) (src : Buf) (src_off len : ℕ) (w : W)
      → Within 0 len (fuse_buf_read sys dst dst_off src src_off len w).0
  unfolding fuse_buf_read
  read-Within dst dst_off src src_off len w =
      let call = read_loop sys len dst dst_off src src_off len 0 w in
      Within-wider 0 (0 + len) len call.0 (read_loop-Within len dst dst_off src src_off len 0 w)
        (omega arith)

  module _ (tmp : ℕ) where
    fd_loop-Within :
        (fuel : ℕ) (dst : Buf) (dst_off : ℕ) (src : Buf) (src_off len copied : ℕ) (w : W)
        → Within copied (copied + len) (fd_loop sys tmp fuel dst dst_off src src_off len copied w).0
    unfolding fd_loop
    fd_loop-Within zero dst dst_off src src_off len copied w = omega arith
    fd_loop-Within (suc fuel) dst dst_off src src_off len copied w =
        let this_len = min_size 4096 len in
        let in_ = fuse_buf_read sys (tmp_buf sys tmp) 0 src src_off this_len w in
        let in_le = read-Within (tmp_buf sys tmp) 0 src src_off this_len w in
        let this_le : this_len ≤ len = unfold min_size in ground arith in
        elim (Ret-cases in_.0) [
          | inl (e, r) ↦ ground (arith, r)
          | inr (k, r) ↦
              let k_le : k ≤ len = ground (arith, in_le, r, this_le) in
              let out = fuse_buf_write sys dst dst_off (tmp_buf sys tmp) 0 k in_.1 in
              let out_le = write-Within dst dst_off (tmp_buf sys tmp) 0 k in_.1 in
              elim (Ret-cases out.0) [
                | inl (e, r') ↦ ground (arith, r, r')
                | inr (n, r') ↦
                    let n_le : n ≤ k = ground (arith, out_le, r') in
                    ground (
                      arith,
                      r,
                      r',
                      n_le,
                      k_le,
                      fd_loop-Within fuel dst (dst_off + n) src (src_off + n) (len - n) (copied + n)
                          out.1,
                    )
              ]
        ]

    fd_to_fd-Within :
        (dst : Buf) (dst_off : ℕ) (src : Buf) (src_off len : ℕ) (w : W)
        → Within 0 len (fuse_buf_fd_to_fd sys tmp dst dst_off src src_off len w).0
    unfolding fuse_buf_fd_to_fd
    fd_to_fd-Within dst dst_off src src_off len w =
        let call = fd_loop sys tmp len dst dst_off src src_off len 0 w in
        Within-wider 0 (0 + len) len call.0 (fd_loop-Within len dst dst_off src src_off len 0 w)
          (omega arith)

    module _ (dst : Buf) (dst_off : ℕ) (src : Buf) (src_off : ℕ) (flags : CopyFlags) where
      splice_loop-Within :
          (fuel : ℕ) (sp dp : Option ℕ) (len copied : ℕ) (w : W)
          → Within copied
              (copied + len)
              (splice_loop sys tmp fuel dst dst_off src src_off flags sp dp len copied w).0
      unfolding splice_loop
      splice_loop-Within zero sp dp len copied w = omega arith
      splice_loop-Within (suc fuel) sp dp len copied w =
          let call = sys.splice w src.fd sp dst.fd dp len flags in
          let le = b.splice_le w src.fd sp dst.fd dp len flags in
          let wide : Within 0 (copied + len)
              (fuse_buf_fd_to_fd sys tmp dst dst_off src src_off len call.1).0 =
            Within-wider 0 len (copied + len)
              (fuse_buf_fd_to_fd sys tmp dst dst_off src src_off len call.1).0
              (fd_to_fd-Within dst dst_off src src_off len call.1) (omega arith) in
          elim (Ret-cases call.0) [
            | inl (e, r) ↦ ground (arith, r, wide)
            | inr (n, r) ↦
                let n_le : n ≤ len = ground (arith, le, r) in
                ground (
                  arith,
                  r,
                  n_le,
                  splice_loop-Within fuel (moved_by n sp) (moved_by n dp) (len - n) (copied + n)
                      call.1,
                )
          ]

    -- Whatever the kinds of the two buffers, `fuse_buf_copy_one` reports at most the length that
    -- it was given, provided that the system calls do.
    pub copy_one-Within :
        (dst : Buf) (dst_off : ℕ) (src : Buf) (src_off len : ℕ) (flags : CopyFlags) (w : W)
        → Within 0 len (fuse_buf_copy_one sys tmp dst dst_off src src_off len flags w).0
    unfolding fuse_buf_copy_one fuse_buf_splice
    copy_one-Within dst dst_off src src_off len flags w =
        let call =
          splice_loop sys tmp len dst dst_off src src_off flags (seek_pos src src_off)
            (seek_pos dst dst_off) len 0 w in
        let spliced : Within 0 len call.0 =
          Within-wider 0 (0 + len) len call.0
            (splice_loop-Within dst dst_off src src_off flags len (seek_pos src src_off)
              (seek_pos dst dst_off) len 0 w)
            (omega arith) in
        ground (
          arith,
          spliced,
          write-Within dst dst_off src src_off len w,
          read-Within dst dst_off src src_off len w,
          fd_to_fd-Within dst dst_off src src_off len w,
        )
