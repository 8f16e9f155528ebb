-- ===== src/Protocol/Message.antt =====
-- internal/protocol/protocol.go: the constants and the message structures. A `byte`, `uint8`,
-- `uint16` or `uint32` is a number, whose range the theorems state where it matters.
use galopush.Prelude.{ℕ, ◌+◌, ◌<◌, ◌^◌, ◌≡◌, Bytes, All, length}

abbrev pub protocol_type_default : ℕ
protocol_type_default = 0

abbrev pub protocol_type_binary : ℕ
protocol_type_binary = 1

abbrev pub protocol_type_json : ℕ
protocol_type_json = 2

abbrev pub msgtype_default : ℕ
msgtype_default = 0

abbrev pub msgtype_register : ℕ
msgtype_register = 1

abbrev pub msgtype_regresp : ℕ
msgtype_regresp = 2

abbrev pub msgtype_heartbeat : ℕ
msgtype_heartbeat = 3

abbrev pub msgtype_hbresp : ℕ
msgtype_hbresp = 4

abbrev pub msgtype_push : ℕ
msgtype_push = 5

abbrev pub msgtype_pushresp : ℕ
msgtype_pushresp = 6

abbrev pub msgtype_callback : ℕ
msgtype_callback = 7

abbrev pub msgtype_cbresp : ℕ
msgtype_cbresp = 8

abbrev pub msgtype_message : ℕ
msgtype_message = 9

abbrev pub msgtype_msgresp : ℕ
msgtype_msgresp = 10

abbrev pub msgtype_kick : ℕ
msgtype_kick = 11

abbrev pub msgtype_kickresp : ℕ
msgtype_kickresp = 12

abbrev pub msgtype_max : ℕ
msgtype_max = 64

abbrev pub plat_android : ℕ
plat_android = 1

abbrev pub plat_ios : ℕ
plat_ios = 2

abbrev pub plat_winphone : ℕ
plat_winphone = 4

abbrev pub plat_web : ℕ
plat_web = 8

abbrev pub plat_pc : ℕ
plat_pc = 16

abbrev pub encode_default : ℕ
encode_default = 0

abbrev pub encode_bit_not : ℕ
encode_bit_not = 1

abbrev pub encode_byte_rvs : ℕ
encode_byte_rvs = 2

abbrev pub encode_loop_xor : ℕ
encode_loop_xor = 3

abbrev pub fix_header_len : ℕ
fix_header_len = 5

abbrev pub add_header_len : ℕ
add_header_len = 4

abbrev pub header_len : ℕ
header_len = fix_header_len + add_header_len

abbrev pub kick_reason_repeat : ℕ
kick_reason_repeat = 1

abbrev pub kick_reason_mutex : ℕ
kick_reason_mutex = 2

pub record Header : Type 0 where
  pub line : ℕ
  pub tid : ℕ

pub record AddHeader : Type 0 where
  pub len : ℕ

pub record ParamResp : Type 0 where
  pub code : ℕ

-- `id` and `token` are arrays of 32 bytes.
pub record ParamReg : Type 0 where
  pub version : ℕ
  pub terminal_type : ℕ
  pub id : Bytes
  pub token : Bytes

pub record ParamPush : Type 0 where
  pub offline : ℕ
  pub flag : ℕ

-- The values that travel as `interface{}`: a constructor for each structure, the embedded headers
-- first.
pub data Message : Type 0 where
  resp : Header → AddHeader → ParamResp → Message
  register : Header → AddHeader → ParamReg → Message
  push : Header → AddHeader → ParamPush → Bytes → Message
  kick : Header → AddHeader → ℕ → Message
  callback : Header → AddHeader → Bytes → Message
  im_up : Header → AddHeader → Bytes → Message
  im_down : Header → AddHeader → ℕ → Bytes → Message
  header : Header → Message

abbrev pub IsByte : ℕ → Type 0
IsByte x = x < 256

abbrev pub IsU32 : ℕ → Type 0
IsU32 x = x < 2 ^ 32

pub record IsHeader (h : Header) : Type 0 where
  pub line_fits : IsByte h.line
  pub tid_fits : IsU32 h.tid

pub record IsParamReg (p : ParamReg) : Type 0 where
  pub version_fits : IsByte p.version
  pub terminal_type_fits : IsByte p.terminal_type
  pub id_length : length p.id ≡ 32
  pub token_length : length p.token ≡ 32
  pub id_bytes : All IsByte p.id
  pub token_bytes : All IsByte p.token
