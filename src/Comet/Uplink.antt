-- ===== src/Comet/Uplink.antt =====
-- comet/socketdo.go and the helpers of comet/util.go: what a terminal sends up.
pub mod Registration
pub mod Removal
pub mod Invariant
use galopush.Prelude.{
  ℕ, zero, suc, ◌+◌, ◌-◌, Bytes, Bool, true, false, ◌==◌, if◌then◌else◌, List, [], ◌∷◌, Option,
  none, some, length, get_elem?, take,
}
use galopush.Protocol.Message.{
  Header, AddHeader, Message, resp, register, header, im_up, ParamReg, protocol_type_binary,
  protocol_type_json,
}
use galopush.Protocol.Head.{get_msg_type, get_encode, set_msg_type, set_encode}
use galopush.Protocol.Binary.{pack}
use galopush.Comet.Ident.{session_key}
use galopush.Comet.Session.{Conn, tcp, ws, conn_string, Session, answer, destroy}
use galopush.Comet.State.{
  OfflineStore, Outside, Comet, Outcome, finished, panicked, no_header, insert_ids, delete_ids,
  find_id, insert_sessions, delete_sessions, find_sessions, set_session, write, close_conn, notify,
}
use galopush.Comet.Downlink.{then_do}
use galopush.Comet.Downlink.Offline.{proc_offline_msg}

-- protoType
abbrev pub proto_type : Conn → ℕ
proto_type (tcp addr) = protocol_type_binary
proto_type (ws addr) = protocol_type_json

-- bytesValidLen: the number of bytes before the first NUL.
unfoldable pub bytes_valid_len : Bytes → ℕ
bytes_valid_len [] = 0
bytes_valid_len (b ∷ bs) = let rest = bytes_valid_len bs in if b == 0 then 0 else suc rest

-- `string(request.Id[:bytesValidLen(request.Id)])`
abbrev pub valid_bytes : Bytes → Bytes
valid_bytes b = take (bytes_valid_len b) b

-- The answer that `response` sends.
abbrev pub response_message : ℕ → ℕ → ℕ → ℕ → Message
response_message msg_type encode tid code =
    resp (record (set_encode (set_msg_type no_header msg_type) encode) { tid = tid })
      (record { len = 1 }) (record { code = code })

-- The session that procRegister makes.
abbrev pub new_session : Conn → Header → ParamReg → Session
new_session conn h p = record {
  id = valid_bytes p.id;
  plat = p.terminal_type;
  conn = conn;
  encode = get_encode h;
  tid = 0;
  token = valid_bytes p.token;
  trans = [];
}

-- `findId(addr) != ""`
abbrev pub is_empty : Bytes → Bool
is_empty [] = true
is_empty (x ∷ xs) = false

module _ {S : Type 0} where
  -- The session of a connection: the pointer under findId of its address.
  unfoldable pub session_at : Conn → Comet S → Option ℕ
  session_at conn c =
      let id = find_id c (conn_string conn) in if is_empty id then none else find_sessions c id

  -- A pointer with the session behind it.
  abbrev pub with_session : Option ℕ → Comet S → (ℕ → Session → Comet S) → Comet S → Comet S
  with_session none c f absent = absent
  with_session (some p) c f absent = elim (get_elem? c.heap p) [
    | none ↦ absent
    | some sess ↦ f p sess
  ]

  -- procResp looks a session up under findId, and under the empty key for an unknown address.
  unfoldable pub proc_resp : Conn → Header → Comet S → Comet S
  proc_resp conn h c =
      with_session (find_sessions c (find_id c (conn_string conn))) c
        (λ p sess. set_session c p (answer sess h.tid)) c

module _ {S : Type 0} (out : Outside) where
  -- The end of procUnRegister; `id` is the key that the address has.
  unfoldable pub unregister : Conn → Bytes → ℕ → Session → Comet S → Comet S
  unregister conn id p sess c =
      let c1 = set_session (notify out c sess 0) p (destroy sess) in
      delete_sessions (delete_ids c1 (conn_string conn)) id

  unfoldable pub proc_unregister : Conn → Comet S → Comet S
  unfolding unregister
  proc_unregister conn c =
      with_session (session_at conn c) c
        (λ p sess. unregister conn (find_id c (conn_string conn)) p sess c) c

module _ {S : Type 0} (out : Outside) (store : OfflineStore S) where
  -- response; its error is dropped by every caller.
  unfoldable pub response : Conn → ℕ → ℕ → ℕ → ℕ → ℕ → Comet S → Outcome (Comet S)
  response conn msg_type encode tid code protocol c =
      elim (pack out.pack_json (response_message msg_type encode tid code) protocol) [
        | none ↦ panicked c
        | some buf ↦ let (good, c1) = write out c conn buf in finished c1
      ]

  -- The answer to a request: the type after the request's, its encoding and its number.
  abbrev pub reply : Conn → Header → ℕ → Comet S → Outcome (Comet S)
  reply conn h code c =
      response conn (get_msg_type h + 1) (get_encode h) h.tid code (proto_type conn) c

  -- The part of procRegister after both checks.
  unfoldable pub accept : Conn → Header → ParamReg → Comet S → Outcome (Comet S)
  unfolding response
  accept conn h p c =
      let sess = new_session conn h p in
      let ids = session_key sess.id sess.plat in
      let c1 = insert_ids (insert_sessions c ids sess) (conn_string conn) ids in
      then_do (reply conn h 0 c1)
        λ c2. proc_offline_msg out store (length c.heap) sess.id sess.plat (notify out c2 sess 1)

  unfoldable pub proc_register : Conn → Header → ParamReg → Comet S → Outcome (Comet S)
  unfolding accept
  proc_register conn h p c =
      let id = valid_bytes p.id in
      let token = valid_bytes p.token in
      if out.auth id p.terminal_type token
      then if is_empty (find_id c (conn_string conn)) then accept conn h p c else reply conn h 0 c
      else reply conn h 3 c

  -- An instant message goes upward, and the terminal learns whether the router took it.
  unfoldable pub proc_im : Conn → Header → Bytes → Comet S → Outcome (Comet S)
  unfolding response
  proc_im conn h msg c = elim (session_at conn c) [
    | none ↦ finished (close_conn c conn)
    | some p ↦ elim (get_elem? c.heap p) [
      | none ↦ finished (close_conn c conn)
      | some sess ↦ reply conn h (if out.msg_upward sess.id sess.plat msg then 0 else 1) c
    ]
  ]

  unfoldable pub proc_ping : Conn → Header → Comet S → Outcome (Comet S)
  unfolding response
  proc_ping conn h c = reply conn h (if is_empty (find_id c (conn_string conn)) then 1 else 0) c

  -- procTrans: the other messages have no case.
  unfoldable pub proc_trans : Conn → Message → Comet S → Outcome (Comet S)
  unfolding proc_register proc_im proc_ping
  proc_trans conn (register h a p) c = proc_register conn h p c
  proc_trans conn (header h) c = proc_ping conn h c
  proc_trans conn (resp h a r) c = finished (proc_resp conn h c)
  proc_trans conn (im_up h a msg) c = proc_im conn h msg c
  proc_trans conn _ c = finished c
