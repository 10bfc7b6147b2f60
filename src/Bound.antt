-- ===== src/Bound.antt =====
-- Messages over a stream socket, custom_include/bound.c: `bound_send` cuts data into packets of a
-- fixed size, and `bound_read` reads one packet from a stream that may give it in pieces.
pub mod Frames
pub mod Stream
mod Tests
use fuse_study.Base.{
  ℕ, zero, suc, Bool, true, false, Option, none, some, List, [], ◌∷◌, ◌++◌, ltb, leb, ◌==◌,
  if◌then◌else◌, ◌-◌, ◌+◌, ◌%◌, ◌^◌, length, take, drop,
}

abbrev pub buf_size : ℕ
buf_size = 1024

-- `struct pkt`; `stop` is the field `end`, and `buf` has `BUF_SIZE` bytes.
pub record Pkt : Type 0 where
  pub stop : ℕ
  pub size : ℕ
  pub total_size : ℕ
  pub buf : List ℕ

-- `memcpy` of `src` to the start of `dst`.
abbrev pub overlay : List ℕ → List ℕ → List ℕ
overlay dst src = src ++ drop (length src) dst

-- The packet that a round of `bound_send` writes.
unfoldable pub fill : Pkt → List ℕ → ℕ → ℕ → Pkt
fill pkt payload loc remain =
    let send_size = if ltb buf_size remain then buf_size else remain in
    record {
      stop = if leb remain buf_size then 1 else 0;
      size = send_size;
      total_size = length payload;
      buf = overlay pkt.buf (take send_size (drop loc payload));
    }

-- `write` stands for write(2) of a whole packet, and gives `none` for -1. Any other count, a
-- short one too, is taken for a success. `none` is the result -1.
module _ {W : Type 0} (write : W → Pkt → Option W) where
  -- `remain_len` rounds are enough, since each sends at least a byte.
  unfoldable pub send_loop : ℕ → List ℕ → Pkt → ℕ → ℕ → W → Option W
  unfolding fill
  send_loop zero payload pkt loc remain w = some w
  send_loop (suc fuel) payload pkt loc remain w =
      if remain == 0
      then some w
      else let pkt' = fill pkt payload loc remain in
        elim (write w pkt') [
          | none ↦ none
          | some w' ↦ send_loop fuel payload pkt' (loc + pkt'.size) (remain - pkt'.size) w'
        ]

  unfoldable pub bound_send : Pkt → List ℕ → W → Option W
  bound_send pkt payload w = send_loop (length payload) payload pkt 0 (length payload) w

-- What read(2) gives: bytes, the end of the stream, or -1.
pub data Got : Type 0 where
  bytes : List ℕ → Got
  closed : Got
  failed : Got

-- An `int`; the values below 0 are not told apart.
pub data IntValue : Type 0 where
  value : ℕ → IntValue
  negative : IntValue

-- `(int) size`
abbrev pub to_int : ℕ → IntValue
to_int n = if ltb (n % 2 ^ 32) (2 ^ 31) then value (n % 2 ^ 32) else negative

-- What `bound_read` returns, and the bytes that it has put into the packet.
abbrev pub Received : Type 0
Received = IntValue × List ℕ

-- `size_of` reads the field `size` of the bytes of a `struct pkt`, whose length is `pkt_size`.
module _ {W : Type 0} (read : W → ℕ → Got × W) (pkt_size : ℕ) (size_of : List ℕ → ℕ) where
  -- `pkt_size` rounds are enough, since each reads at least a byte.
  unfoldable pub read_loop : ℕ → List ℕ → ℕ → W → Received × W
  read_loop zero got read_sz w = ((to_int (size_of got), got), w)
  read_loop (suc fuel) got read_sz w =
      if read_sz == 0
      then ((to_int (size_of got), got), w)
      else let (r, w') = read w read_sz in
        elim r [
          | bytes bs ↦ read_loop fuel (got ++ bs) (read_sz - length bs) w'
          | closed ↦ ((value 0, got), w')
          | failed ↦ ((negative, got), w')
        ]

  unfoldable pub bound_read : W → Received × W
  bound_read w = read_loop pkt_size [] pkt_size w

abbrev pub zeros : ℕ → List ℕ
zeros zero = []
zeros (suc n) = 0 ∷ zeros n

-- What `strncpy` writes for `n` bytes of `src`: after a NUL only zeros.
unfoldable pub strncpy : ℕ → List ℕ → List ℕ
strncpy zero src = []
strncpy (suc n) [] = []
strncpy (suc n) (c ∷ src) = let rest = strncpy n src in if c == 0 then zeros (suc n) else c ∷ rest

-- The loop of the server that puts a path together from packets; `none` if it waits for more.
unfoldable pub collect : List ℕ → List Pkt → Option (List ℕ × List Pkt)
unfolding strncpy
collect path [] = none
collect path (p ∷ ps) =
    let path' = path ++ strncpy p.size p.buf in
    if p.stop == 1 then some (path', ps) else collect path' ps
