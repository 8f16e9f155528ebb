-- ===== src/Ua/Android.antt =====
-- ua/android/android.go: a terminal on TCP. The package that it imports, galopush/protocol, is a
-- parameter: the repository has it as internal/protocol. Its `Im` has the fields of ImUp.
pub mod Reading
use galopush.Prelude.{
  ℕ, ◌+◌, ◌%◌, ◌^◌, Bytes, codes, Bool, ◌==◌, ◌||◌, ◌&&◌, leb, if◌then◌else◌, List, [], ◌∷◌, ◌++◌,
  Option, none, some, ◌>>=◌, length, drop, zero, suc,
}
use galopush.Protocol.Message.{
  Header, AddHeader, ParamResp, ParamPush, Message, resp, register, push, kick, callback, im_up,
  im_down, header, fix_header_len, add_header_len, encode_loop_xor, plat_android, msgtype_default,
  msgtype_register, msgtype_regresp, msgtype_heartbeat, msgtype_hbresp, msgtype_push,
  msgtype_callback, msgtype_cbresp, msgtype_message, msgtype_msgresp, msgtype_max,
}
use galopush.Protocol.Json.{array32}
use galopush.Comet.Tcp as Tcp
use galopush.Comet.Tcp.{Segments}

-- What the client calls of the protocol package; where Pack or CodecDecode panics there is none.
pub record Protocol : Type 0 where
  pub pack : Message → Option Bytes
  pub codec_decode : Bytes → ℕ → ℕ → Option Bytes
  pub decode_header : Bytes → Option Header
  pub decode_add_header : Bytes → Option AddHeader
  pub decode_param_resp : Bytes → Option ParamResp
  pub decode_param_push : Bytes → Option ParamPush
  pub get_msg_type : Header → ℕ
  pub get_encode : Header → ℕ
  pub set_msg_type : Header → ℕ → Header
  pub set_encode : Header → ℕ → Header

-- readTimeout, which is that of the comet but ends the program where Read fails.
abbrev pub read_timeout : ℕ → Segments → Option (record { buffer : Bytes; rest : Segments })
read_timeout = Tcp.read_timeout

-- A message that the loop puts on the channel, and the stream behind it.
pub record Round : Type 0 where
  pub message : Message
  pub stream : Segments

-- The state of the program: the counter of transactions, the writes so far and what they sent, and
-- the goroutines that ping.
pub record Client : Type 0 where
  pub tid : ℕ
  pub writes : ℕ
  pub sent : List Bytes
  pub pings : ℕ

-- Does the program go on? log.Fatal and a panic end it.
pub data Step : Type 0 where
  running : Client → Step
  exited : Client → Step

abbrev pub gencode : ℕ
gencode = encode_loop_xor

abbrev pub android_uid : Bytes
android_uid = codes "8"

abbrev pub token : Bytes
token = codes "d73d89472cdb13a1cdf79a55bccbbd56"

module _ (lib : Protocol) where
  -- A body of the announced length, decoded in place.
  unfoldable pub read_body : Header → AddHeader → Segments → Option (Bytes × Segments)
  read_body h a s = do
    r ← read_timeout a.len s
    body ← lib.codec_decode r.buffer a.len (lib.get_encode h)
    some (body, r.rest)

  unfoldable pub read_resp : Header → AddHeader → Segments → Option Round
  read_resp h a s = do
    r ← read_body h a s
    param ← lib.decode_param_resp r.0
    some (record { message = resp h a param; stream = r.1 })

  unfoldable pub read_push : Header → AddHeader → Segments → Option Round
  read_push h a s = do
    r ← read_body h a s
    param ← lib.decode_param_push r.0
    some (record { message = push h a param (drop 3 r.0); stream = r.1 })

  unfoldable pub read_callback : Header → AddHeader → Segments → Option Round
  read_callback h a s = do
    r ← read_body h a s
    some (record { message = callback h a r.0; stream = r.1 })

  unfoldable pub read_im : Header → AddHeader → Segments → Option Round
  read_im h a s = do r ← read_body h a s; some (record { message = im_up h a r.0; stream = r.1 })

  -- The switch of readRuntime; a message of another type ends the program.
  unfoldable pub read_switch : Header → AddHeader → Segments → Option Round
  unfolding read_resp read_push read_callback read_im
  read_switch h a s =
      let t = lib.get_msg_type h in
      if t == msgtype_regresp || (t == msgtype_hbresp || t == msgtype_msgresp)
      then read_resp h a s
      else if t == msgtype_push
      then read_push h a s
      else if t == msgtype_callback
      then read_callback h a s
      else if t == msgtype_message
      then read_im h a s
      else none

  unfoldable pub read_rest : Header → Segments → Option Round
  read_rest h s = do
    added ← read_timeout add_header_len s
    a ← lib.decode_add_header added.buffer
    read_switch h a added.rest

  -- One round of readRuntime; none ends the loop or the program.
  unfoldable pub read_round : Segments → Option Round
  read_round s = do
    fixed ← read_timeout fix_header_len s
    h ← lib.decode_header fixed.buffer
    let t = lib.get_msg_type h
    if t == msgtype_default || leb msgtype_max t
        then none
        else if t == msgtype_heartbeat
        then some (record { message = header h; stream = fixed.rest })
        else read_rest h fixed.rest

  -- The header of a message of the client.
  unfoldable pub header_of : ℕ → ℕ → Header
  header_of msg_type tid =
      record (lib.set_encode (lib.set_msg_type (record { line = 0; tid = 0 }) msg_type) gencode) {
        tid = tid;
      }

  -- `tid = tid + 1` on a uint32.
  abbrev pub counted : Client → Client
  counted c = record c { tid = (c.tid + 1) % 2 ^ 32 }

  module _ (write_good : ℕ → Bool) where
    -- A message is packed and written; where the write fails, `failed` says how it goes on.
    unfoldable pub send : Message → (Client → Step) → Client → Step
    send m failed c = elim (lib.pack m) [
      | none ↦ exited c
      | some b ↦
          let c1 : Client = record c { writes = c.writes + 1 } in
          if write_good c.writes
          then running (record c1 { sent = c.sent ++ (b ∷ []) })
          else failed c1
    ]

    -- resp
    unfoldable pub answer : ℕ → ℕ → ℕ → Client → Step
    unfolding send
    answer msg_type tid code =
        send (resp (header_of msg_type tid) (record { len = 1 }) (record { code = code % 256 }))
          exited

    unfoldable pub register_as : Bytes → Bytes → Client → Step
    unfolding send
    register_as id code c =
        let c1 = counted c in
        send
          (register (header_of msgtype_register c1.tid) (record { len = 66 })
            (record {
              version = 1;
              terminal_type = plat_android;
              id = array32 id;
              token = array32 code;
            }))
          running c1

    unfoldable pub heartbeat : Client → Step
    unfolding send
    heartbeat c =
        let c1 = counted c in send (header (header_of msgtype_heartbeat c1.tid)) running c1

    unfoldable pub im : Bytes → Client → Step
    unfolding send
    im body c =
        let c1 = counted c in
        send (im_up (header_of msgtype_message c1.tid) (record { len = length body % 2 ^ 32 }) body)
          running c1

    -- A tick of the timer of pingRuntime.
    unfoldable pub tick : Client → Step
    unfolding heartbeat
    tick c = if c.pings == 0 then running c else heartbeat c

    -- proc
    unfoldable pub proc : Message → Client → Step
    unfolding answer
    proc (resp h a p) c = running (
        if lib.get_msg_type h == msgtype_regresp && p.code == 0
        then record c { pings = c.pings + 1 }
        else c)
    proc (push h a p msg) c = answer msgtype_msgresp h.tid 0 c
    proc (callback h a msg) c = answer msgtype_cbresp h.tid 0 c
    proc (im_up h a msg) c = answer msgtype_msgresp h.tid 0 c
    proc (im_down h a flag msg) c = running c
    proc (register h a p) c = running c
    proc (kick h a reason) c = running c
    proc (header h) c = running c

    -- readRuntime and service: the channel between them holds no message.
    unfoldable pub serve : ℕ → Segments → Client → Step
    unfolding proc
    serve zero s c = running c
    serve (suc fuel) s c = elim (read_round s) [
      | none ↦ exited c
      | some round ↦ elim (proc round.message c) [
        | exited c1 ↦ exited c1
        | running c1 ↦ serve fuel round.stream c1
      ]
    ]

    -- main: the registration, and then the loop.
    unfoldable pub main_run : ℕ → Segments → Step
    unfolding register_as serve
    main_run fuel s =
        elim (register_as android_uid token
          (record { tid = 0; writes = 0; sent = []; pings = 0 })) [
            | exited c ↦ exited c
            | running c ↦ serve fuel s c
          ]
