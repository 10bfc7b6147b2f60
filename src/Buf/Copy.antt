-- ===== src/Buf/Copy.antt =====
-- `fuse_buf_copy`: the two vectors stay valid, and what is reported is what the source gave.

use fuse_study.Base.{
  ℕ, zero, suc, Bool, true, some, ◌+◌, ◌-◌, ◌==◌, ◌≡◌, ◌≤◌, ◌⊎◌, inl, inr, refl, subst, ◌∙◌, arith,
  Bool-cases, Option-cases, length, get_elem?,
}
use fuse_study.Buf.{Buf, BufVec, CopyFlags, err, count, Sys, stop_at, min_size}
use fuse_study.Buf.Moves.{IsBounded, Ret-cases, copy_one-Within}
use fuse_study.Buf.Vector.{
  current, advance, after_one, copy_loop, fuse_buf_copy, fuse_buf_copy_one, Copied,
}
use fuse_study.Buf.Advance.{
  left, IsValid, left-advance, IsValid-advance, bufs-advance, piece-fits-src, piece-fits-dst,
}

-- After one piece of `n` bytes.
record After (dstv srcv : BufVec) (n : ℕ) (t : BufVec × BufVec × Bool) : Type 0 where
  src_valid : IsValid t.1
  dst_valid : IsValid t.0
  src_bufs : t.1.bufs ≡ srcv.bufs
  dst_bufs : t.0.bufs ≡ dstv.bufs
  src_left : left t.1 + n ≡ left srcv
  dst_left : t.2 ≡ true → left t.0 + n ≡ left dstv
  dst_room : n ≤ left dstv

module _ {W : Type 0} (sys : Sys W) (tmp : ℕ) (flags : CopyFlags) (dstv srcv : BufVec) (s d : Buf)
    (es : get_elem? srcv.bufs srcv.idx ≡ some s) (ed : get_elem? dstv.bufs dstv.idx ≡ some d)
    (dv : IsValid dstv) (n : ℕ) (fits_src : srcv.off + n ≤ s.size)
    (fits_dst : dstv.off + n ≤ d.size) where
  After-after_one : (len : ℕ) → After dstv srcv n (after_one sys tmp flags dstv srcv len n)
  unfolding after_one
  After-after_one len =
      let sl = left-advance srcv s es n fits_src in
      let sv = IsValid-advance srcv s es n fits_src in
      let sb = bufs-advance srcv s es n fits_src in
      let dl = left-advance dstv d ed n fits_dst in
      let dv' = IsValid-advance dstv d ed n fits_dst in
      let db = bufs-advance dstv d ed n fits_dst in
      let room : n ≤ left dstv = omega (arith, dl) in
      elim (Bool-cases (advance srcv n).1) [
        | inl more ↦ rw more (record {
          src_valid = sv;
          dst_valid = dv';
          src_bufs = sb;
          dst_bufs = db;
          src_left = sl;
          dst_left = λ _. dl;
          dst_room = room;
        })
        | inr end ↦ rw end (record {
          src_valid = sv;
          dst_valid = dv;
          src_bufs = sb;
          dst_bufs = refl;
          src_left = sl;
          dst_left = λ e. cc;
          dst_room = room;
        })
      ]

module _ {W : Type 0} (sys : Sys W) (b : IsBounded sys) (tmp : ℕ) (flags : CopyFlags) where
  -- What the copy keeps, and what it reports: `base` bytes were copied before.
  pub record Accounts (dstv srcv : BufVec) (base : ℕ) (r : Copied W) : Type 0 where
    pub src_valid : IsValid r.srcv
    pub dst_valid : IsValid r.dstv
    pub src_bufs : r.srcv.bufs ≡ srcv.bufs
    pub dst_bufs : r.dstv.bufs ≡ dstv.bufs
    pub reports :
        ((n : ℕ) × (r.ret ≡ count n)
          × (n + left r.srcv ≡ base + left srcv)
          × (n ≤ base + left dstv))
        ⊎ ((e : ℕ) × (r.ret ≡ err e)
            × (base ≡ 0)
            × (left r.srcv ≡ left srcv)
            × (left r.dstv ≡ left dstv))

  stopped : BufVec → BufVec → ℕ → W → Copied W
  stopped dstv srcv copied w = record { ret = count copied; dstv = dstv; srcv = srcv; world = w }

  Accounts-stopped :
      (dstv srcv : BufVec) (copied : ℕ) (w : W)
      → IsValid dstv
      → IsValid srcv
      → Accounts dstv srcv copied (stopped dstv srcv copied w)
  unfolding stopped
  Accounts-stopped dstv srcv copied w dv sv = record {
    src_valid = sv;
    dst_valid = dv;
    src_bufs = refl;
    dst_bufs = refl;
    reports = inl (copied, refl, refl, omega arith);
  }

  Accounts-failed :
      (dstv srcv : BufVec) (copied e : ℕ) (w : W)
      → IsValid dstv
      → IsValid srcv
      → Accounts dstv srcv copied
          (record { ret = stop_at copied e; dstv = dstv; srcv = srcv; world = w })
  Accounts-failed dstv srcv copied e w dv sv = record {
    src_valid = sv;
    dst_valid = dv;
    src_bufs = refl;
    dst_bufs = refl;
    reports = elim (Bool-cases (copied == 0)) [
      | inl first ↦ inr (e, rw first, ground (arith, first), refl, refl)
      | inr later ↦ inl (copied, rw later, refl, omega arith)
    ];
  }

  Accounts-last :
      (dstv srcv : BufVec) (copied n : ℕ) (t : BufVec × BufVec × Bool) (w : W)
      → After dstv srcv n t
      → Accounts dstv srcv copied (stopped t.0 t.1 (copied + n) w)
  unfolding stopped
  Accounts-last dstv srcv copied n t w a = record {
    src_valid = a.src_valid;
    dst_valid = a.dst_valid;
    src_bufs = a.src_bufs;
    dst_bufs = a.dst_bufs;
    reports = inl (copied + n, refl, omega (arith, a.src_left), omega (arith, a.dst_room));
  }

  Accounts-more :
      (dstv srcv : BufVec) (copied n : ℕ) (t : BufVec × BufVec × Bool) (r : Copied W)
      → After dstv srcv n t
      → t.2 ≡ true
      → Accounts t.0 t.1 (copied + n) r
      → Accounts dstv srcv copied r
  Accounts-more dstv srcv copied n t r a more rest =
      let dl = a.dst_left more in
      record {
        src_valid = rest.src_valid;
        dst_valid = rest.dst_valid;
        src_bufs = rest.src_bufs ∙ a.src_bufs;
        dst_bufs = rest.dst_bufs ∙ a.dst_bufs;
        reports = elim rest.reports [
          | inl (m, e, k, l) ↦ inl (m, e, omega (arith, k, a.src_left), omega (arith, l, dl))
          | inr (m, e, z, k, l) ↦
              inr (m, e, omega (arith, z), omega (arith, k, z, a.src_left), omega (arith, l, z, dl))
        ];
      }

  -- A round that moves `n` bytes.
  copy_loop-piece :
      (fuel : ℕ) (dstv srcv : BufVec) (s d : Buf) (copied n : ℕ) (w : W)
      → current srcv ≡ some s
      → current dstv ≡ some d
      → IsValid dstv
      → IsValid srcv
      → (fuse_buf_copy_one sys tmp d dstv.off s srcv.off
          (min_size (s.size - srcv.off) (d.size - dstv.off))
          flags
          w).0
        ≡ count n
      → ((dstv' srcv' : BufVec) (copied' : ℕ) (w' : W)
          → IsValid dstv'
          → IsValid srcv'
          → Accounts dstv' srcv' copied' (copy_loop sys tmp flags fuel dstv' srcv' copied' w'))
      → Accounts dstv srcv copied (copy_loop sys tmp flags (suc fuel) dstv srcv copied w)
  unfolding copy_loop stopped
  copy_loop-piece fuel dstv srcv s d copied n w es ed dv sv r ih =
      let all : Copied W = copy_loop sys tmp flags (suc fuel) dstv srcv copied w in
      let len = min_size (s.size - srcv.off) (d.size - dstv.off) in
      let call = fuse_buf_copy_one sys tmp d dstv.off s srcv.off len flags w in
      let bound = copy_one-Within sys b tmp d dstv.off s srcv.off len flags w in
      let t = after_one sys tmp flags dstv srcv len n in
      let n_le : n ≤ len = ground (arith, bound, r) in
      let es' : get_elem? srcv.bufs srcv.idx ≡ some s = unfold current in es in
      let ed' : get_elem? dstv.bufs dstv.idx ≡ some d = unfold current in ed in
      let a : After dstv srcv n t =
        After-after_one sys tmp flags dstv srcv s d es' ed' dv n
          (piece-fits-src srcv dstv s d n es' sv n_le) (piece-fits-dst srcv dstv s d n ed' dv n_le)
          len in
      elim (Bool-cases t.2) [
        | inl more ↦
            let u : copy_loop sys tmp flags fuel t.0 t.1 (copied + n) call.1 ≡ all =
              ground (arith, es, ed, r, more) in
            subst (λ x. Accounts dstv srcv copied x) u
              (Accounts-more dstv srcv copied n t
                (copy_loop sys tmp flags fuel t.0 t.1 (copied + n) call.1) a more
                (ih t.0 t.1 (copied + n) call.1 a.dst_valid a.src_valid))
        | inr last ↦
            let u : stopped t.0 t.1 (copied + n) call.1 ≡ all = ground (arith, es, ed, r, last) in
            subst (λ x. Accounts dstv srcv copied x) u (Accounts-last dstv srcv copied n t call.1 a)
      ]

  pub copy_loop-Accounts :
      (fuel : ℕ) (dstv srcv : BufVec) (copied : ℕ) (w : W)
      → IsValid dstv
      → IsValid srcv
      → Accounts dstv srcv copied (copy_loop sys tmp flags fuel dstv srcv copied w)
  unfolding copy_loop stopped
  copy_loop-Accounts zero dstv srcv copied w dv sv = Accounts-stopped dstv srcv copied w dv sv
  copy_loop-Accounts (suc fuel) dstv srcv copied w dv sv =
      let all : Copied W = copy_loop sys tmp flags (suc fuel) dstv srcv copied w in
      elim (Option-cases (current srcv)) [
        | inl e ↦
            let u : stopped dstv srcv copied w ≡ all = ground (arith, e) in
            subst (λ r. Accounts dstv srcv copied r) u (Accounts-stopped dstv srcv copied w dv sv)
        | inr (s, es) ↦ elim (Option-cases (current dstv)) [
          | inl e ↦
              let u : stopped dstv srcv copied w ≡ all = ground (arith, es, e) in
              subst (λ r. Accounts dstv srcv copied r) u (Accounts-stopped dstv srcv copied w dv sv)
          | inr (d, ed) ↦
              let len = min_size (s.size - srcv.off) (d.size - dstv.off) in
              let call = fuse_buf_copy_one sys tmp d dstv.off s srcv.off len flags w in
              elim (Ret-cases call.0) [
                | inl (e, r) ↦
                    let u : record {
                      ret = stop_at copied e;
                      dstv = dstv;
                      srcv = srcv;
                      world = call.1;
                    }
                        ≡ all =
                      ground (arith, es, ed, r) in
                    subst (λ x. Accounts dstv srcv copied x) u
                      (Accounts-failed dstv srcv copied e call.1 dv sv)
                | inr (n, r) ↦
                    copy_loop-piece fuel dstv srcv s d copied n w es ed dv sv r
                      (copy_loop-Accounts fuel)
              ]
        ]
      ]

-- Whatever the kinds of the buffers, `fuse_buf_copy` keeps both vectors valid (no assertion of
-- `fuse_bufvec_advance` fails) and their buffers the same; a count that it returns is exactly
-- what the source has moved on by, and at most what the destination had room for; an error comes
-- only when neither vector has moved on by a byte. The system calls must not report more than
-- they were asked for.
pub fuse_buf_copy-Accounts :
    {W : Type 0} (sys : Sys W) (b : IsBounded sys) (tmp : ℕ) (flags : CopyFlags)
    (dstv srcv : BufVec) (w : W)
    → IsValid dstv
    → IsValid srcv
    → Accounts sys b tmp flags dstv srcv 0 (fuse_buf_copy sys tmp flags dstv srcv w)
unfolding fuse_buf_copy
fuse_buf_copy-Accounts sys b tmp flags dstv srcv w dv sv =
    copy_loop-Accounts sys b tmp flags (length dstv.bufs + length srcv.bufs) dstv srcv 0 w dv sv
