-- ===== src/Comet/Downlink.antt =====
-- comet/rpcdo.go: messages from the router down to a terminal.
pub mod Kick
pub mod Offline
pub mod Delivery
pub mod Kept
use galopush.Prelude.{
  ℕ, ◌+◌, ◌%◌, ◌^◌, Bytes, Bool, true, false, not, ◌==◌, ◌=ₛ◌, if◌then◌else◌, List, [], ◌∷◌, ◌++◌,
  Option, none, some, length, get_elem?,
}
use galopush.Protocol.Message.{
  Header, AddHeader, Message, push, callback, im_down, kick, msgtype_push, msgtype_callback,
  msgtype_message, msgtype_kick, plat_android, plat_ios, plat_web, protocol_type_binary,
  protocol_type_json,
}
use galopush.Protocol.Head.{set_msg_type, set_encode}
use galopush.Protocol.Binary.{pack}
use galopush.Rds.Defs.{Item}
use galopush.Comet.Ident.{session_key}
use galopush.Comet.Session.{Session, conn_string, next_tid, save_transaction, destroy}
use galopush.Comet.State.{
  OfflineStore, Outside, StateNotify, ApnsRequest, Comet, Outcome, finished, panicked, no_header,
  delete_ids, find_sessions, delete_sessions, set_session, write, close_conn, notify,
}

-- PushRequst of internal/rpc/public.go
pub record PushRequest : Type 0 where
  pub tp : ℕ
  pub flag : ℕ
  pub id : Bytes
  pub termtype : ℕ
  pub apple_token : Bytes
  pub msg : Bytes

abbrev pub u32 : ℕ → ℕ
u32 n = n % 2 ^ 32

-- The header of a message to a session under a new transaction number.
unfoldable pub header_for : Session → ℕ → ℕ → Header
header_for sess msg_type tid = record (set_encode (set_msg_type no_header msg_type) sess.encode) {
  tid = u32 tid;
}

abbrev pub protocol_of : ℕ → ℕ
protocol_of plat = if plat == plat_web then protocol_type_json else protocol_type_binary

abbrev pub flag_of : Bool → ℕ
flag_of true = 1
flag_of false = 0

-- `sendMsg.Msg = append(…)` and its length, for each kind of message; `build` takes the header.
abbrev pub push_message : ℕ → Bool → Bytes → Header → Message
push_message offline web msg h =
    push h (record { len = u32 (length msg + 3) })
      (record { offline = offline; flag = flag_of web }) msg

abbrev pub callback_message : Bytes → Header → Message
callback_message msg h = callback h (record { len = u32 (length msg) }) msg

abbrev pub im_message : Bool → Bytes → Header → Message
im_message web msg h = im_down h (record { len = u32 (length msg + 1) }) (flag_of web) msg

-- A step that is taken if the one before it did not panic.
abbrev pub then_do :
    {S : Type 0} → Outcome (Comet S) → (Comet S → Outcome (Comet S)) → Outcome (Comet S)
then_do (finished c) f = f c
then_do (panicked c) f = panicked c

module _ {S : Type 0} (out : Outside) (store : OfflineStore S) where
  -- The part that every tracked message shares: a new number, Pack, a write, and then either a
  -- transaction with the message or what is done with a message that could not be written.
  unfoldable pub send_tracked :
      ℕ
      → Session
      → (Header → Message)
      → ℕ
      → ℕ
      → Bytes
      → (Comet S → Comet S)
      → Comet S
      → Outcome (Comet S)
  send_tracked p sess build protocol msg_type msg unsent c =
      let tid = next_tid sess.tid in
      let sess1 = record sess { tid = tid } in
      let c1 = set_session c p sess1 in
      elim (pack out.pack_json (build (header_for sess msg_type tid)) protocol) [
        | none ↦ panicked c1
        | some buf ↦
            let (good, c2) = write out c1 sess.conn buf in
            finished (
              if good
              then set_session c2 p (save_transaction sess1 tid msg_type msg)
              else unsent c2)
      ]

  -- A message to the session behind a pointer.
  unfoldable pub send_to :
      ℕ → (Header → Message) → ℕ → ℕ → Bytes → (Comet S → Comet S) → Comet S → Outcome (Comet S)
  unfolding send_tracked
  send_to p build protocol msg_type msg unsent c = elim (get_elem? c.heap p) [
    | none ↦ finished c
    | some sess ↦ send_tracked p sess build protocol msg_type msg unsent c
  ]

  abbrev pub store_push : Bytes → ℕ → Bytes → Comet S → Comet S
  store_push id plat msg c = record c { store = store.save_push c.store id plat msg }

  abbrev pub store_callback : Bytes → ℕ → Bytes → Comet S → Comet S
  store_callback id plat msg c = record c { store = store.save_callback c.store id plat msg }

  abbrev pub store_im : Bytes → ℕ → Bytes → Comet S → Comet S
  store_im id plat msg c = record c { store = store.save_im c.store id plat msg }

  -- A push that cannot be written: stored for Android, handed to Apple for iOS, dropped otherwise.
  unfoldable pub unsent_push : PushRequest → Comet S → Comet S
  unsent_push msg c =
      if msg.termtype == plat_android
      then store_push msg.id msg.termtype msg.msg c
      else if msg.termtype == plat_ios
      then record c {
        apns =
            c.apns
            ++ (record { id = msg.id; token = msg.apple_token; body = msg.msg; flag = msg.flag }
                ∷ []);
      }
      else c

  unfoldable pub unsent_callback : PushRequest → Comet S → Comet S
  unsent_callback msg c =
      if msg.termtype == plat_web then c else store_callback msg.id msg.termtype msg.msg c

  unfoldable pub unsent_im : PushRequest → Comet S → Comet S
  unsent_im msg c = if msg.termtype == plat_web then c else store_im msg.id msg.termtype msg.msg c

  -- Is the user connected on the web?
  unfoldable pub web_connected : Comet S → Bytes → Bool
  web_connected c id = elim (find_sessions c (session_key id plat_web)) [
    | none ↦ false
    | some p ↦ true
  ]

  -- `if sess := p.pool.findSessions(ids); sess != nil { … } else { … }`
  unfoldable pub routed :
      Comet S → PushRequest → (ℕ → Outcome (Comet S)) → Comet S → Outcome (Comet S)
  routed c msg connected absent = elim (find_sessions c (session_key msg.id msg.termtype)) [
    | none ↦ finished absent
    | some p ↦ connected p
  ]

  unfoldable pub push_down : PushRequest → Comet S → Outcome (Comet S)
  push_down msg c =
      routed c msg
        (λ p.
          send_to p (push_message 0 (web_connected c msg.id) msg.msg) (protocol_of msg.termtype)
            msgtype_push msg.msg (unsent_push msg) c)
        (unsent_push msg c)

  unfoldable pub callback_down : PushRequest → Comet S → Outcome (Comet S)
  callback_down msg c =
      routed c msg
        (λ p.
          send_to p (callback_message msg.msg) (protocol_of msg.termtype) msgtype_callback msg.msg
            (unsent_callback msg) c)
        (unsent_callback msg c)

  unfoldable pub message_down : PushRequest → Comet S → Outcome (Comet S)
  message_down msg c =
      routed c msg
        (λ p.
          send_to p (im_message (web_connected c msg.id) msg.msg) (protocol_of msg.termtype)
            msgtype_message msg.msg (unsent_im msg) c)
        (unsent_im msg c)

  -- RpcAsyncHandle
  unfoldable pub rpc_async_handle : PushRequest → Comet S → Outcome (Comet S)
  rpc_async_handle msg c =
      if msg.tp == msgtype_push
      then push_down msg c
      else if msg.tp == msgtype_callback
      then callback_down msg c
      else if msg.tp == msgtype_message
      then message_down msg c
      else finished c
