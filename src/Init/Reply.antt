-- ===== src/Init/Reply.antt =====
-- The answer to FUSE_INIT, lib/fuse_lowlevel.c: `do_init`, whose parts are functions of their own
-- in the order in which it runs them. Logging is left out.
use fuse_study.Base.{
  ℕ, Bool, true, Option, none, some, ◌==◌, ltb, leb, if◌then◌else◌, ◌-◌, ◌+◌, ◌*◌, ◌/◌, ◌%◌, ◌^◌,
  ◌&&◌, ◌||◌, not, min,
}
use fuse_study.Init.{
  Word, no_bits, Conn, InitIn, Abilities, fuse_lower_32_bits, want_flags_valid,
  fuse_convert_to_conn_want_ext, requests, translate, fuse_init_ext, fuse_max_pages,
  fuse_big_writes, fuse_cap_passthrough, in_flags, capabilities, set_defaults,
}

-- The fields of `struct fuse_session` that `do_init` uses; `mount_max_read` is what
-- `get_max_read(se->mo)` returns.
pub record Session : Type 0 where
  pub conn : Conn
  pub bufsize : ℕ
  pub buf_reallocable : Bool
  pub got_init : Bool
  pub error : Option ℕ
  pub exited : Bool
  pub mount_max_read : ℕ

-- `struct fuse_init_out`
pub record InitOut : Type 0 where
  pub flags : Word
  pub flags2 : Word
  pub max_readahead : ℕ
  pub max_write : ℕ
  pub max_pages : ℕ
  pub max_background : ℕ
  pub congestion_threshold : ℕ
  pub time_gran : ℕ
  pub max_stack_depth : ℕ

-- What is sent: an error, or the structure cut to so many bytes.
pub data Answer : Type 0 where
  refused : ℕ → Answer
  accepted : InitOut → ℕ → Answer

abbrev pub eproto : ℕ
eproto = 71

abbrev pub fuse_buffer_header_size : ℕ
fuse_buffer_header_size = 4096

abbrev pub fuse_min_read_buffer : ℕ
fuse_min_read_buffer = 8192

abbrev pub fuse_default_max_pages_per_req : ℕ
fuse_default_max_pages_per_req = 32

-- `memset(&outarg, 0, sizeof(outarg))`
abbrev pub zeroed : InitOut
zeroed = record {
  flags = no_bits;
  flags2 = no_bits;
  max_readahead = 0;
  max_write = 0;
  max_pages = 0;
  max_background = 0;
  congestion_threshold = 0;
  time_gran = 0;
  max_stack_depth = 0;
}

unfoldable pub proto : InitIn → Conn → Conn
proto arg c = record c {
  proto_major = arg.major;
  proto_minor = arg.minor;
  capable_ext = no_bits;
  want_ext = no_bits;
}

-- What the kernel offers, and the defaults.
unfoldable pub offered : Abilities → InitIn → Conn → Conn
unfolding capabilities set_defaults
offered can arg c =
    let known : Conn = record c {
      capable_ext = capabilities can arg;
      max_readahead = if leb 6 arg.minor then min arg.max_readahead c.max_readahead else 0;
    } in
    record (set_defaults can known) { time_gran = 1 }

-- `if (se->op.init)`
unfoldable pub call_init : Option (Conn → Conn) → Conn → Conn
unfolding fuse_convert_to_conn_want_ext
call_init none c = c
call_init (some init) c =
    (fuse_convert_to_conn_want_ext
      (init (record c { capable = fuse_lower_32_bits c.capable_ext }))).0

-- `bufsize` when `max_write` is computed.
unfoldable pub buffer : ℕ → InitIn → Session → ℕ
unfolding in_flags
buffer page arg s =
    if leb 6 arg.minor && not (in_flags arg fuse_max_pages)
    then (let limit = fuse_default_max_pages_per_req * page + fuse_buffer_header_size in
        let size = if ltb limit s.bufsize then limit else s.bufsize in
        if ltb size fuse_min_read_buffer then fuse_min_read_buffer else size)
    else if s.buf_reallocable
    then 2 ^ 32 - 1
    else if ltb s.bufsize fuse_min_read_buffer
    then fuse_min_read_buffer
    else s.bufsize

-- `se->conn.max_write` and `se->bufsize`
unfoldable pub limit_write : ℕ → Session → Session
limit_write size s =
    let most = min s.conn.max_write (size - fuse_buffer_header_size) in
    record s {
      conn = record s.conn { max_write = most };
      bufsize = (most + fuse_buffer_header_size) % 2 ^ 32;
    }

-- `outarg.max_pages`: unsigned arithmetic, cut to 16 bits.
unfoldable pub pages : ℕ → ℕ → ℕ
pages page max_write = (((max_write + (2 ^ 32 - 1)) % 2 ^ 32) / page + 1) % 2 ^ 16

-- `outargflags`
unfoldable pub out_flags : InitIn → Conn → Word
unfolding in_flags translate
out_flags arg c n =
    ((n == fuse_max_pages) && arg.flags fuse_max_pages)
    || ((n == fuse_big_writes)
        || (translate requests c.want_ext n
            || ((n == fuse_init_ext) && in_flags arg fuse_init_ext)))

-- `max_background` and `congestion_threshold`
unfoldable pub clamp_background : Conn → Conn
clamp_background c =
    if leb 13 c.proto_minor
    then (let most = if leb (2 ^ 16) c.max_background then 2 ^ 16 - 1 else c.max_background in
        let low = if ltb most c.congestion_threshold then most else c.congestion_threshold in
        record c {
          max_background = most;
          congestion_threshold = if low == 0 then most * 3 / 4 else low;
        })
    else c

unfoldable pub answer : ℕ → InitIn → Conn → InitOut
unfolding pages out_flags in_flags
answer page arg c = record {
  flags = fuse_lower_32_bits (out_flags arg c);
  flags2 = λ n. in_flags arg fuse_init_ext && (ltb n 32 && out_flags arg c (n + 32));
  max_readahead = c.max_readahead;
  max_write = c.max_write;
  max_pages = if arg.flags fuse_max_pages then pages page c.max_write else 0;
  max_background = if leb 13 c.proto_minor then c.max_background else 0;
  congestion_threshold = if leb 13 c.proto_minor then c.congestion_threshold else 0;
  time_gran = if leb 23 c.proto_minor then c.time_gran else 0;
  max_stack_depth =
      if c.want_ext fuse_cap_passthrough then (c.max_backing_stack_depth + 1) % 2 ^ 32 else 0;
}

-- `outargsize`
unfoldable pub answer_size : InitIn → ℕ
answer_size arg = if ltb arg.minor 5 then 8 else if ltb arg.minor 23 then 24 else 64

-- `fuse_reply_err(req, EPROTO); se->error = -EPROTO; fuse_session_exit(se)`
unfoldable pub give_up : Session → Session × Answer
give_up s = (record s { error = some eproto; exited = true }, refused eproto)

-- From `bufsize < FUSE_MIN_READ_BUFFER` to the end.
unfoldable pub agree : ℕ → InitIn → ℕ → Session → Session × Answer
unfolding limit_write clamp_background answer answer_size
agree page arg size s =
    let limited = limit_write size s in
    let c = clamp_background limited.conn in
    (record limited { conn = c }, accepted (answer page arg c) (answer_size arg))

-- The checks after `init`.
unfoldable pub check_init : ℕ → InitIn → ℕ → Session → Session × Answer
unfolding want_flags_valid give_up agree
check_init page arg size s =
    if not (want_flags_valid s.conn.capable_ext s.conn.want_ext)
    then give_up s
    else if not (s.conn.max_read == s.mount_max_read)
    then give_up s
    else agree page arg size s

unfoldable pub do_init : ℕ → Abilities → Option (Conn → Conn) → InitIn → Session → Session × Answer
unfolding proto offered call_init buffer check_init
do_init page can init arg s =
    if ltb arg.major 7
    then (record s { conn = proto arg s.conn }, refused eproto)
    else if ltb 7 arg.major
    then (record s { conn = proto arg s.conn }, accepted zeroed 64)
    else check_init page arg (buffer page arg s)
        (record s { conn = call_init init (offered can arg (proto arg s.conn)); got_init = true })
