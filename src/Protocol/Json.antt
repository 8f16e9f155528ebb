-- ===== src/Protocol/Json.antt =====
-- internal/protocol/json.go: the messages of web terminals. encoding/json and encoding/base64 are
-- parameters; what json.Unmarshal puts in an `interface{}` is a value of `Json`.
pub mod RoundTrip
use galopush.Prelude.{
  ℕ, zero, suc, ◌+◌, ◌-◌, ◌%◌, ◌^◌, Bytes, codes, Bool, true, false, ◌||◌, ◌==◌, ◌=ₛ◌,
  if◌then◌else◌, [], ◌∷◌, ◌++◌, Option, none, some, length, take, replicate,
}
use galopush.Prelude.Int.{ℤ, pos, negsuc, wrap}
use galopush.Protocol.Message.{
  Header, AddHeader, ParamReg, Message, resp, register, push, kick, callback, im_up, im_down,
  header, encode_loop_xor, msgtype_register, msgtype_heartbeat, msgtype_pushresp, msgtype_cbresp,
  msgtype_message, msgtype_msgresp, msgtype_kickresp,
}
use galopush.Protocol.Head.{get_msg_type, set_msg_type, set_encode}
use galopush.Protocol.Codec.{codec_encode, codec_decode}

-- A number is a float64 by the integer that `int` makes of it; `other` is any other kind of value.
mutual
  pub data Json : Type 0 where
    num : ℤ → Json
    str : Bytes → Json
    obj : Fields → Json
    other : Json

  -- `map[string]interface{}`, in the order of the keys, as json.Marshal writes it.
  pub data Fields : Type 0 where
    end : Fields
    field : Bytes → Json → Fields → Fields

pub record JsonLib : Type 0 where
  pub marshal : Fields → Bytes
  pub unmarshal : Bytes → Option Fields
  pub encode64 : Bytes → Bytes
  pub decode64 : Bytes → Option Bytes

-- A message, an error, or a panic.
pub data Parsed {ℓ} (A : Type ℓ) : Type ℓ where
  ok : A → Parsed A
  failed : Parsed A
  panicked : Parsed A

infixl 5 ◌>>=◌
abbrev pub ◌>>=◌ {ℓ κ} : {A : Type ℓ} {B : Type κ} → Parsed A → (A → Parsed B) → Parsed B
ok a >>= f = f a
failed >>= f = failed
panicked >>= f = panicked

-- `body[key]`, nil for a missing key.
unfoldable pub value_at : Bytes → Fields → Option Json
value_at key end = none
value_at key (field k v rest) = if k =ₛ key then some v else value_at key rest

-- The type assertions `.(float64)`, `.(string)` and `.(map[string]interface{})`.
abbrev pub as_num : Option Json → Parsed ℤ
as_num (some (num z)) = ok z
as_num (some (str s)) = panicked
as_num (some (obj f)) = panicked
as_num (some other) = panicked
as_num none = panicked

abbrev pub as_str : Option Json → Parsed Bytes
as_str (some (num z)) = panicked
as_str (some (str s)) = ok s
as_str (some (obj f)) = panicked
as_str (some other) = panicked
as_str none = panicked

abbrev pub as_obj : Option Json → Parsed Fields
as_obj (some (num z)) = panicked
as_obj (some (str s)) = panicked
as_obj (some (obj f)) = ok f
as_obj (some other) = panicked
as_obj none = panicked

-- The document of packJson, with one field of data.
abbrev pub document : Header → Bytes → Json → Fields
document h key v =
    field (codes "cmd") (num (pos (get_msg_type h)))
      (field (codes "data") (obj (field key v end)) (field (codes "tid") (num (pos h.tid)) end))

-- `[]byte(id)` copied into an array of 32 bytes.
unfoldable pub array32 : Bytes → Bytes
array32 b = take 32 b ++ replicate (32 - length b) 0

-- The header that UnPackJson makes.
unfoldable pub web_header : ℕ → ℤ → Header
web_header cmd tid = record (set_encode (set_msg_type (record { line = 0; tid = 0 }) cmd) 0) {
  tid = wrap 32 tid;
}

abbrev pub long : ℕ → AddHeader
long n = record { len = n % 2 ^ 32 }

unfoldable pub unpack_register : ℕ → ℤ → Fields → Parsed Message
unpack_register cmd tid data' = do
  version ← as_num (value_at (codes "version") data')
  plat ← as_num (value_at (codes "termType") data')
  id ← as_str (value_at (codes "id") data')
  token ← as_str (value_at (codes "token") data')
  ok (
      register (web_header cmd tid) (long 66) (record {
        version = wrap 8 version;
        terminal_type = wrap 8 plat;
        id = array32 id;
        token = array32 token;
      }))

unfoldable pub unpack_resp : ℕ → ℤ → Fields → Parsed Message
unpack_resp cmd tid data' = do
  code ← as_num (value_at (codes "code") data')
  ok (resp (web_header cmd tid) (long 1) (record { code = wrap 8 code }))

unfoldable pub unpack_im : ℕ → ℤ → Fields → Parsed Message
unpack_im cmd tid data' = do
  content ← as_str (value_at (codes "msg") data')
  ok (im_up (web_header cmd tid) (long (length content)) content)

-- The switch of UnPackJson; a negative `cmd` has no case.
unfoldable pub unpack_cmd : ℤ → ℤ → Fields → Parsed Message
unfolding unpack_register unpack_resp unpack_im
unpack_cmd (negsuc n) tid data' = failed
unpack_cmd (pos cmd) tid data' =
    if cmd == msgtype_register
    then unpack_register cmd tid data'
    else if cmd == msgtype_heartbeat
    then ok (header (web_header cmd tid))
    else if cmd == msgtype_pushresp
        || (cmd == msgtype_cbresp || (cmd == msgtype_msgresp || cmd == msgtype_kickresp))
    then unpack_resp cmd tid data'
    else if cmd == msgtype_message
    then unpack_im cmd tid data'
    else failed

unfoldable pub unpack_fields : Fields → Parsed Message
unpack_fields body = do
  cmd ← as_num (value_at (codes "cmd") body)
  tid ← as_num (value_at (codes "tid") body)
  data' ← as_obj (value_at (codes "data") body)
  unpack_cmd cmd tid data'

-- A panic of CodecDecode.
abbrev pub or_panic : Option Bytes → Parsed Bytes
or_panic none = panicked
or_panic (some b) = ok b

abbrev pub or_failed {ℓ} : {A : Type ℓ} → Option A → Parsed A
or_failed none = failed
or_failed (some b) = ok b

module _ (lib : JsonLib) where
  -- Encode; none is a panic.
  unfoldable pub encode : Bytes → Option Bytes
  encode buff = elim (codec_encode buff (length buff) encode_loop_xor) [
    | none ↦ none
    | some b ↦ some (lib.encode64 b)
  ]

  -- Decode
  unfoldable pub decode : Bytes → Parsed Bytes
  decode buff = do
    b ← or_failed (lib.decode64 buff)
    or_panic (codec_decode b (length b) encode_loop_xor)

  -- The text of packJson before Encode; the other messages have no case and leave it empty.
  unfoldable pub json_text : Message → Bytes
  json_text (push h a p msg) = lib.marshal (document h (codes "msg") (str msg))
  json_text (callback h a msg) = lib.marshal (document h (codes "msg") (str msg))
  json_text (im_down h a flag msg) = lib.marshal (document h (codes "msg") (str msg))
  json_text (resp h a p) = lib.marshal (document h (codes "code") (num (pos p.code)))
  json_text (kick h a reason) = lib.marshal (document h (codes "reson") (num (pos reason)))
  json_text (register h a p) = []
  json_text (im_up h a msg) = []
  json_text (header h) = []

  -- packJson
  unfoldable pub pack_json : Message → Option Bytes
  unfolding encode json_text
  pack_json m = encode (json_text m)

  -- UnPackJson
  unfoldable pub unpack_json : Bytes → Parsed Message
  unpack_json buffer = do b ← decode buffer; body ← or_failed (lib.unmarshal b); unpack_fields body
