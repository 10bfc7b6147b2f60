-- ===== src/Buf/Vector.antt =====
-- `fuse_buf_splice`, `fuse_buf_copy_one`, and the walk of `fuse_buf_copy` over two vectors.
use fuse_study.Base.{
  ℕ, zero, suc, Bool, true, false, Option, none, some, ltb, ◌==◌, if◌then◌else◌, ◌-◌, ◌+◌, ◌&&◌,
  ◌||◌, not, length, get_elem?,
}
use fuse_study.Buf.{
  Buf, BufVec, CopyFlags, Ret, err, count, einval, stop_at, min_size, Sys, fuse_buf_write,
  fuse_buf_read, fuse_buf_fd_to_fd, fuse_buf_size,
}

abbrev pub seek_pos : Buf → ℕ → Option ℕ
seek_pos b off = if b.fd_seek then some (b.pos + off) else none

-- `splice` advances the positions that it is given by what it moved.
abbrev pub moved_by : ℕ → Option ℕ → Option ℕ
moved_by n none = none
moved_by n (some p) = some (p + n)

module _ {W : Type 0} (sys : Sys W) (tmp : ℕ) where
  -- The loop of `fuse_buf_splice`, where splicing is compiled in; `len` rounds are enough. A first
  -- call that says EINVAL falls back to reading and writing.
  unfoldable pub splice_loop :
      ℕ → Buf → ℕ → Buf → ℕ → CopyFlags → Option ℕ → Option ℕ → ℕ → ℕ → W → Ret × W
  splice_loop zero dst dst_off src src_off flags srcpos dstpos len copied w = (count copied, w)
  splice_loop (suc fuel) dst dst_off src src_off flags srcpos dstpos len copied w =
      if len == 0
      then (count copied, w)
      else let (r, w') = sys.splice w src.fd srcpos dst.fd dstpos len flags in
        elim r [
          | err e ↦
              if not (copied == 0)
              then (count copied, w')
              else if not (e == einval) || flags.force_splice
              then (err e, w')
              else fuse_buf_fd_to_fd sys tmp dst dst_off src src_off len w'
          | count res ↦
              let rest =
                splice_loop fuel dst dst_off src src_off flags (moved_by res srcpos)
                  (moved_by res dstpos) (len - res) (copied + res) w' in
              if res == 0
              then (count copied, w')
              else if not src.fd_retry && not dst.fd_retry
              then (count (copied + res), w')
              else rest
        ]

  unfoldable pub fuse_buf_splice : Buf → ℕ → Buf → ℕ → ℕ → CopyFlags → W → Ret × W
  fuse_buf_splice dst dst_off src src_off len flags w =
      splice_loop len dst dst_off src src_off flags (seek_pos src src_off) (seek_pos dst dst_off)
        len 0 w

  -- `memcpy` and `memmove` are one operation here: the first is called where the ranges do not
  -- overlap, and neither when they are the same.
  unfoldable pub fuse_buf_copy_one : Buf → ℕ → Buf → ℕ → ℕ → CopyFlags → W → Ret × W
  fuse_buf_copy_one dst dst_off src src_off len flags w =
      if not src.is_fd && not dst.is_fd
      then (
        count len,
        if dst.mem + dst_off == src.mem + src_off
            then w
            else sys.move_mem w (dst.mem + dst_off) (src.mem + src_off) len,
      )
      else if not src.is_fd
      then fuse_buf_write sys dst dst_off src src_off len w
      else if not dst.is_fd
      then fuse_buf_read sys dst dst_off src src_off len w
      else if flags.no_splice
      then fuse_buf_fd_to_fd sys tmp dst dst_off src src_off len w
      else fuse_buf_splice dst dst_off src src_off len flags w

unfoldable pub current : BufVec → Option Buf
current v = get_elem? v.bufs v.idx

-- The Boolean is the result, 1 or 0.
unfoldable pub advance : BufVec → ℕ → BufVec × Bool
unfolding current
advance v len = elim (current v) [
  | none ↦ (v, false)
  | some buf ↦
      if v.off + len == buf.size
      then (if v.idx + 1 == length v.bufs
          then (record v { idx = v.idx + 1; off = v.off + len }, false)
          else (record v { idx = v.idx + 1; off = 0 }, true))
      else (record v { off = v.off + len }, true)
]

-- The result of `fuse_buf_copy`, with the two vectors as it leaves them.
pub record Copied (W : Type 0) : Type 0 where
  pub ret : Ret
  pub dstv : BufVec
  pub srcv : BufVec
  pub world : W

module _ {W : Type 0} (sys : Sys W) (tmp : ℕ) (flags : CopyFlags) where
  -- What follows the copy of one piece: `true` if the loop goes on. The destination is advanced
  -- only if the source has more.
  unfoldable pub after_one : BufVec → BufVec → ℕ → ℕ → BufVec × BufVec × Bool
  after_one dstv srcv len res =
      let (srcv', more_src) = advance srcv res in
      let (dstv', more_dst) = advance dstv res in
      if not more_src then (dstv, srcv', false) else (dstv', srcv', more_dst && not (ltb res len))

  -- The loop of `fuse_buf_copy`. Every round but the last leaves one buffer of one vector.
  unfoldable pub copy_loop : ℕ → BufVec → BufVec → ℕ → W → Copied W
  copy_loop zero dstv srcv copied w = record {
    ret = count copied;
    dstv = dstv;
    srcv = srcv;
    world = w;
  }
  copy_loop (suc fuel) dstv srcv copied w = elim (current srcv) [
    | none ↦ record { ret = count copied; dstv = dstv; srcv = srcv; world = w }
    | some src ↦ elim (current dstv) [
      | none ↦ record { ret = count copied; dstv = dstv; srcv = srcv; world = w }
      | some dst ↦
          let len = min_size (src.size - srcv.off) (dst.size - dstv.off) in
          let (r, w') = fuse_buf_copy_one sys tmp dst dstv.off src srcv.off len flags w in
          elim r [
            | err e ↦ record { ret = stop_at copied e; dstv = dstv; srcv = srcv; world = w' }
            | count res ↦
                let (dstv', srcv', more) = after_one dstv srcv len res in
                let rest = copy_loop fuel dstv' srcv' (copied + res) w' in
                if more
                then rest
                else record { ret = count (copied + res); dstv = dstv'; srcv = srcv'; world = w' }
          ]
    ]
  ]

  -- For two distinct vectors; `fuse_buf_copy_same` is the answer when they are one.
  unfoldable pub fuse_buf_copy : BufVec → BufVec → W → Copied W
  fuse_buf_copy dstv srcv w = copy_loop (length dstv.bufs + length srcv.bufs) dstv srcv 0 w

  pub fuse_buf_copy_same : BufVec → Ret
  fuse_buf_copy_same v = count (fuse_buf_size v.bufs)
