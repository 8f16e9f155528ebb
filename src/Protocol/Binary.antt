-- ===== src/Protocol/Binary.antt =====
-- internal/protocol/binary.go and Pack of code.go: fixed-size structures in big-endian order, as
-- encoding/binary writes and reads them, and whole messages with their encoded bodies.
pub mod Words
pub mod Bounds
pub mod RoundTrip
use galopush.Prelude.{
  ℕ, zero, suc, ◌+◌, ◌*◌, ◌/◌, ◌%◌, Bytes, [], ◌∷◌, ◌++◌, Bool, ltb, ◌==◌, if◌then◌else◌, Option,
  none, some, ◌>>=◌, take, drop, length, replicate,
}
use galopush.Protocol.Message.{
  Header, AddHeader, ParamResp, ParamReg, ParamPush, Message, resp, register, push, kick, callback,
  im_up, im_down, header, header_len, protocol_type_binary, protocol_type_json,
}
use galopush.Protocol.Head.{get_encode}
use galopush.Protocol.Codec.{codec_encode}

-- The low `n` bytes of a number, most significant first.
unfoldable pub big_endian : ℕ → ℕ → Bytes
big_endian zero x = []
big_endian (suc n) x = big_endian n (x / 256) ++ (x % 256 ∷ [])

-- The number that bytes stand for, most significant first.
pub from_big_endian : ℕ → Bytes → ℕ
from_big_endian acc [] = acc
from_big_endian acc (x ∷ rest) = from_big_endian (acc * 256 + x) rest

-- EncodeHeader
pub encode_header : Header → Bytes
encode_header head = big_endian 1 head.line ++ big_endian 4 head.tid

-- EncodeAddHeader
pub encode_add_header : AddHeader → Bytes
encode_add_header addhead = big_endian 4 addhead.len

-- EncodeParamReg
unfoldable pub encode_param_reg : ParamReg → Bytes
encode_param_reg reg =
    big_endian 1 reg.version ++ (big_endian 1 reg.terminal_type ++ (reg.id ++ reg.token))

-- EncodeParamPush
pub encode_param_push : ParamPush → Bytes
encode_param_push msg = big_endian 2 msg.offline ++ big_endian 1 msg.flag

-- EncodeParamResp
pub encode_param_resp : ParamResp → Bytes
encode_param_resp msg = big_endian 1 msg.code

-- `binary.Read` into a structure of `n` bytes: an error if there are fewer, and the rest is left.
abbrev read_struct {ℓ} : {A : Type ℓ} → ℕ → (Bytes → A) → Bytes → Option A
read_struct n build b = if ltb (length b) n then none else some (build (take n b))

pub decode_header : Bytes → Option Header
decode_header =
    read_struct 5
      λ b. record { line = from_big_endian 0 (take 1 b); tid = from_big_endian 0 (drop 1 b) }

pub decode_add_header : Bytes → Option AddHeader
decode_add_header = read_struct 4 λ b. record { len = from_big_endian 0 b }

pub decode_param_reg : Bytes → Option ParamReg
decode_param_reg = read_struct 66 λ b. record {
  version = from_big_endian 0 (take 1 b);
  terminal_type = from_big_endian 0 (take 1 (drop 1 b));
  id = take 32 (drop 2 b);
  token = drop 34 b;
}

pub decode_param_push : Bytes → Option ParamPush
decode_param_push =
    read_struct 3
      λ b. record { offline = from_big_endian 0 (take 2 b); flag = from_big_endian 0 (drop 2 b) }

pub decode_param_resp : Bytes → Option ParamResp
decode_param_resp = read_struct 1 λ b. record { code = from_big_endian 0 b }

-- `CodecEncode(buf[HEADER_LEN:], int(msg.Len), GetEncode(&msg.Header))`, in place.
abbrev pub encode_body : Header → AddHeader → Bytes → Option Bytes
encode_body h a buf = do
  body ← codec_encode (drop header_len buf) a.len (get_encode h)
  some (take header_len buf ++ body)

pub pack_binary : Message → Option Bytes
pack_binary (register h a p) =
    encode_body h a (encode_header h ++ (encode_add_header a ++ encode_param_reg p))
pack_binary (push h a p msg) =
    encode_body h a (encode_header h ++ (encode_add_header a ++ (encode_param_push p ++ msg)))
pack_binary (callback h a msg) = encode_body h a (encode_header h ++ (encode_add_header a ++ msg))
pack_binary (im_down h a flag msg) =
    encode_body h a (encode_header h ++ (encode_add_header a ++ (big_endian 1 flag ++ msg)))
pack_binary (im_up h a msg) = encode_body h a (encode_header h ++ (encode_add_header a ++ msg))
pack_binary (resp h a p) =
    encode_body h a (encode_header h ++ (encode_add_header a ++ big_endian 1 p.code))
pack_binary (kick h a reason) =
    encode_body h a (encode_header h ++ (encode_add_header a ++ big_endian 1 reason))
pack_binary (header h) = some (encode_header h)

-- CheckBuffer: is the buffer at least as long as `min`?
pub check_buffer : Bytes → ℕ → Bool
check_buffer buffer min = if ltb (length buffer) min then Bool.false else Bool.true

-- Pack, with the JSON form a parameter: an unknown protocol packs to nothing.
pub pack : (Message → Option Bytes) → Message → ℕ → Option Bytes
pack pack_json msg protocol =
    if protocol == protocol_type_binary
    then pack_binary msg
    else if protocol == protocol_type_json
    then pack_json msg
    else some []
