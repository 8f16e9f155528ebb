-- ===== src/Comet/Tcp.antt =====
-- comet/tcp.go, handleTcpConn, with readTimeout of comet/util.go: the loop that cuts a TCP stream
-- into messages. The network is the list of segments that arrive; its end is the read error (end
-- of stream, reset or deadline). A panic ends the loop as a return does: both run the same defers.
pub mod Frames
pub mod Stream
pub mod Reading
pub mod Typed
use galopush.Prelude.{
  ℕ, zero, suc, ◌+◌, ◌-◌, ◌*◌, ◌<◌, Bytes, List, [], ◌∷◌, ◌++◌, Bool, ◌||◌, ltb, leb, ◌==◌,
  if◌then◌else◌, Option, none, some, ◌>>=◌, take, drop, length, replicate,
}
use galopush.Protocol.Message.{
  Header, AddHeader, Message, resp, register, im_up, header, fix_header_len, add_header_len,
  msgtype_default, msgtype_register, msgtype_heartbeat, msgtype_pushresp, msgtype_cbresp,
  msgtype_message, msgtype_msgresp, msgtype_kickresp, msgtype_max,
}
use galopush.Protocol.Head.{get_msg_type, get_encode}
use galopush.Protocol.Codec.{codec_decode}
use galopush.Protocol.Binary.{decode_header, decode_add_header, decode_param_resp, decode_param_reg}

abbrev pub max_msg_len : ℕ
max_msg_len = 1024 * 1024 * 10

abbrev pub Segments : Type 0
Segments = List Bytes

-- What is left of the segments after the first ones gave up to `n` bytes.
pub remain : Bytes → Segments → Segments
remain [] s = s
remain (x ∷ seg) s = (x ∷ seg) ∷ s

-- `conn.Read(buffer)` with a buffer of `n` bytes: up to `n` bytes of one segment. An empty buffer
-- is filled at once, and an empty segment is not seen.
pub conn_read : ℕ → Segments → Option (record { got : Bytes; rest : Segments })
unfolding remain
conn_read zero s = some (record { got = []; rest = s })
conn_read (suc n) [] = none
conn_read (suc n) ([] ∷ s) = conn_read (suc n) s
conn_read (suc n) ((x ∷ seg) ∷ s) =
    some (record { got = take (suc n) (x ∷ seg); rest = remain (drop n seg) s })

-- `buffer = make([]byte, len)` is filled from one call of Read; bytes that did not come stay 0.
pub read_timeout : ℕ → Segments → Option (record { buffer : Bytes; rest : Segments })
unfolding conn_read
read_timeout len s = do
  r ← conn_read len s
  some (record { buffer = r.got ++ replicate (len - length r.got) 0; rest = r.rest })

-- What one round of the loop leaves: a message for the data channel or none, and the stream.
pub record Round : Type 0 where
  pub cached : Option Message
  pub stream : Segments

-- `case MSGTYPE_KICKRESP`: the body is read and dropped.
pub read_kickresp : AddHeader → Segments → Option Round
read_kickresp a s = do r ← read_timeout a.len s; some (record { cached = none; stream = r.rest })

pub read_resp : Header → AddHeader → Segments → Option Round
read_resp h a s = do
  r ← read_timeout a.len s
  body ← codec_decode r.buffer a.len (get_encode h)
  param ← decode_param_resp body
  some (record { cached = some (resp h a param); stream = r.rest })

pub read_register : Header → AddHeader → Segments → Option Round
read_register h a s = do
  r ← read_timeout a.len s
  body ← codec_decode r.buffer a.len (get_encode h)
  param ← decode_param_reg body
  some (record { cached = some (register h a param); stream = r.rest })

pub read_im : Header → AddHeader → Segments → Option Round
read_im h a s = do
  r ← read_timeout a.len s
  body ← codec_decode r.buffer a.len (get_encode h)
  some (record { cached = some (im_up h a body); stream = r.rest })

-- The switch on the message type, once both headers are read.
pub read_body : Header → AddHeader → Segments → Option Round
read_body h a s =
    let t = get_msg_type h in
    if t == msgtype_kickresp
    then read_kickresp a s
    else if t == msgtype_pushresp || (t == msgtype_cbresp || t == msgtype_msgresp)
    then read_resp h a s
    else if t == msgtype_register
    then read_register h a s
    else if t == msgtype_message
    then read_im h a s
    else none

-- The variable part: an additional header with a bounded length, and a body.
pub read_rest : Header → Segments → Option Round
read_rest h s = do
  added ← read_timeout add_header_len s
  a ← decode_add_header added.buffer
  if ltb max_msg_len a.len then none else read_body h a added.rest

-- One round of the loop; `none` leaves it.
pub read_frame : Segments → Option Round
read_frame s = do
  fixed ← read_timeout fix_header_len s
  h ← decode_header fixed.buffer
  let t = get_msg_type h
  if t == msgtype_default || leb msgtype_max t
      then none
      else if t == msgtype_heartbeat
      then some (record { cached = some (header h); stream = fixed.rest })
      else read_rest h fixed.rest

abbrev cached_then : Option Message → List Message → List Message
cached_then none rest = rest
cached_then (some m) rest = m ∷ rest

-- The messages that the loop puts on the data channel before it ends, within `fuel` rounds.
pub serve : ℕ → Segments → List Message
serve zero s = []
serve (suc fuel) s = elim (read_frame s) [
  | none ↦ []
  | some round ↦ cached_then round.cached (serve fuel round.stream)
]

-- The whole of the loop: its messages once it has returned, within `fuel` rounds, and `none` while it
-- is still under way.
unfoldable pub handle_tcp_conn : ℕ → Segments → Option (List Message)
handle_tcp_conn zero s = none
handle_tcp_conn (suc fuel) s = elim (read_frame s) [
  | none ↦ some []
  | some round ↦ do rest ← handle_tcp_conn fuel round.stream; some (cached_then round.cached rest)
]
