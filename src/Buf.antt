-- ===== src/Buf.antt =====
-- Buffer vectors and copying between them, lib/buffer.c. Memory and files are a state of the
-- caller's type; addresses, offsets and sizes are plain numbers.
pub mod Sizes
pub mod Moves
pub mod Writes
pub mod Vector
pub mod Advance
pub mod Copy
pub mod Bytes
pub mod Pieces
pub mod Memory
mod Tests
use fuse_study.Base.{
  ℕ, zero, suc, Bool, true, false, Option, none, some, List, [], ◌∷◌, ltb, leb, ◌==◌, if◌then◌else◌,
  ◌-◌, ◌+◌, ◌^◌, ◌&&◌, ◌||◌, not, length, get_elem?,
}

-- `struct fuse_buf`, its flags as Booleans.
pub record Buf : Type 0 where
  pub size : ℕ
  pub is_fd : Bool
  pub fd_seek : Bool
  pub fd_retry : Bool
  pub mem : ℕ
  pub fd : ℕ
  pub pos : ℕ

-- `struct fuse_bufvec`; `count` is the length of `bufs`.
pub record BufVec : Type 0 where
  pub bufs : List Buf
  pub idx : ℕ
  pub off : ℕ

-- `enum fuse_buf_copy_flags`
pub record CopyFlags : Type 0 where
  pub no_splice : Bool
  pub force_splice : Bool
  pub splice_move : Bool
  pub splice_nonblock : Bool

-- What a transfer returns: a negated `errno`, or a count.
pub data Ret : Type 0 where
  err : ℕ → Ret
  count : ℕ → Ret

abbrev pub size_max : ℕ
size_max = 2 ^ 64 - 1

abbrev pub einval : ℕ
einval = 22

size_loop : ℕ → List Buf → ℕ
size_loop size [] = size
size_loop size (b ∷ bs) =
    let rest = size_loop (size + b.size) bs in
    if leb (size_max - size) b.size then size_max else rest

unfoldable pub fuse_buf_size : List Buf → ℕ
unfolding size_loop
fuse_buf_size bs = size_loop 0 bs

unfoldable pub min_size : ℕ → ℕ → ℕ
min_size s1 s2 = if ltb s1 s2 then s1 else s2

-- The system and library calls. A transfer gets the descriptors, the position if the descriptor
-- is seekable, the address and the length. A count is never above the length that was asked for.
pub record Sys (W : Type 0) : Type 0 where
  pub write : W → ℕ → Option ℕ → ℕ → ℕ → Ret × W
  pub read : W → ℕ → Option ℕ → ℕ → ℕ → Ret × W
  pub splice : W → ℕ → Option ℕ → ℕ → Option ℕ → ℕ → CopyFlags → Ret × W
  pub move_mem : W → ℕ → ℕ → ℕ → W

-- `-errno` if nothing was copied before, and the count so far otherwise.
abbrev pub stop_at : ℕ → ℕ → Ret
stop_at copied e = if copied == 0 then err e else count copied

module _ {W : Type 0} (sys : Sys W) where
  -- The loop of `fuse_buf_write`; `len` rounds are enough, since each moves at least a byte.
  unfoldable pub write_loop : ℕ → Buf → ℕ → Buf → ℕ → ℕ → ℕ → W → Ret × W
  write_loop zero dst dst_off src src_off len copied w = (count copied, w)
  write_loop (suc fuel) dst dst_off src src_off len copied w =
      if len == 0
      then (count copied, w)
      else let (r, w') =
          sys.write w dst.fd (if dst.fd_seek then some (dst.pos + dst_off) else none)
            (src.mem + src_off) len in
        elim r [
          | err e ↦ (stop_at copied e, w')
          | count res ↦
              let rest =
                write_loop fuel dst (dst_off + res) src (src_off + res) (len - res) (copied + res)
                  w' in
              if res == 0
              then (count copied, w')
              else if not dst.fd_retry
              then (count (copied + res), w')
              else rest
        ]

  unfoldable pub fuse_buf_write : Buf → ℕ → Buf → ℕ → ℕ → W → Ret × W
  fuse_buf_write dst dst_off src src_off len w = write_loop len dst dst_off src src_off len 0 w

  -- The loop of `fuse_buf_read`, likewise.
  unfoldable pub read_loop : ℕ → Buf → ℕ → Buf → ℕ → ℕ → ℕ → W → Ret × W
  read_loop zero dst dst_off src src_off len copied w = (count copied, w)
  read_loop (suc fuel) dst dst_off src src_off len copied w =
      if len == 0
      then (count copied, w)
      else let (r, w') =
          sys.read w src.fd (if src.fd_seek then some (src.pos + src_off) else none)
            (dst.mem + dst_off) len in
        elim r [
          | err e ↦ (stop_at copied e, w')
          | count res ↦
              let rest =
                read_loop fuel dst (dst_off + res) src (src_off + res) (len - res) (copied + res)
                  w' in
              if res == 0
              then (count copied, w')
              else if not src.fd_retry
              then (count (copied + res), w')
              else rest
        ]

  unfoldable pub fuse_buf_read : Buf → ℕ → Buf → ℕ → ℕ → W → Ret × W
  fuse_buf_read dst dst_off src src_off len w = read_loop len dst dst_off src src_off len 0 w

  -- The 4096 bytes at `tmp_mem` on the stack.
  abbrev tmp_buf : ℕ → Buf
  tmp_buf tmp_mem = record {
    size = 4096;
    is_fd = false;
    fd_seek = false;
    fd_retry = false;
    mem = tmp_mem;
    fd = 0;
    pos = 0;
  }

  -- The loop of `fuse_buf_fd_to_fd`; again `len` rounds are enough.
  unfoldable pub fd_loop : ℕ → ℕ → Buf → ℕ → Buf → ℕ → ℕ → ℕ → W → Ret × W
  fd_loop tmp zero dst dst_off src src_off len copied w = (count copied, w)
  fd_loop tmp (suc fuel) dst dst_off src src_off len copied w =
      if len == 0
      then (count copied, w)
      else let this_len = min_size 4096 len in
        let (r, w') = fuse_buf_read (tmp_buf tmp) 0 src src_off this_len w in
        elim r [
          | err e ↦ (stop_at copied e, w')
          | count read_len ↦
              let (r', w'') = fuse_buf_write dst dst_off (tmp_buf tmp) 0 read_len w' in
              let written : Ret × W = elim r' [
                | err e ↦ (stop_at copied e, w'')
                | count res ↦
                    let rest =
                      fd_loop tmp fuel dst (dst_off + res) src (src_off + res) (len - res)
                        (copied + res) w'' in
                    if res == 0
                    then (count copied, w'')
                    else if ltb res this_len
                    then (count (copied + res), w'')
                    else rest
              ] in
              if read_len == 0 then (count copied, w') else written
        ]

  unfoldable pub fuse_buf_fd_to_fd : ℕ → Buf → ℕ → Buf → ℕ → ℕ → W → Ret × W
  fuse_buf_fd_to_fd tmp dst dst_off src src_off len w =
      fd_loop tmp len dst dst_off src src_off len 0 w
