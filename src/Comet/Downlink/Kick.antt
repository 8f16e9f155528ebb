-- ===== src/Comet/Downlink/Kick.antt =====
-- comet/rpcdo.go, kick: a terminal that the router throws out.
use galopush.Prelude.{ℕ, ◌%◌, Bytes, ◌=ₛ◌, if◌then◌else◌, none, some, get_elem?}
use galopush.Protocol.Message.{Message, kick, msgtype_kick}
use galopush.Protocol.Binary.{pack}
use galopush.Comet.Ident.{session_key}
use galopush.Comet.Session.{Session, conn_string, next_tid, destroy}
use galopush.Comet.State.{
  OfflineStore, Outside, Comet, Outcome, finished, panicked, delete_ids, find_sessions,
  delete_sessions, set_session, write, close_conn, notify,
}
use galopush.Comet.Downlink.{header_for, protocol_of}

-- KickRequst of internal/rpc/public.go
pub record KickRequest : Type 0 where
  pub id : Bytes
  pub termtype : ℕ
  pub token : Bytes
  pub reason : ℕ

-- The KICK message to a session, under its next number.
abbrev pub kick_message : KickRequest → Session → Message
kick_message msg sess =
    kick (header_for sess msgtype_kick (next_tid sess.tid)) (record { len = 1 }) (msg.reason % 256)

module _ {S : Type 0} (out : Outside) (store : OfflineStore S) where
  -- The end of kick: the router is told, the session leaves the pool, the connection is closed.
  unfoldable pub expel : ℕ → Session → Bytes → Comet S → Comet S
  expel p sess ids c =
      let c1 = set_session (notify out c sess 0) p (destroy sess) in
      close_conn (delete_ids (delete_sessions c1 ids) (conn_string sess.conn)) sess.conn

  -- The KICK message goes out first, and a failing write is only logged.
  unfoldable pub kick_session : KickRequest → ℕ → Session → Comet S → Outcome (Comet S)
  unfolding expel
  kick_session msg p sess c =
      let tid = next_tid sess.tid in
      let sess1 = record sess { tid = tid } in
      let c1 = set_session c p sess1 in
      elim (pack out.pack_json (kick_message msg sess) (protocol_of msg.termtype)) [
        | none ↦ panicked c1
        | some buf ↦
            let (good, c2) = write out c1 sess.conn buf in
            finished (expel p sess1 (session_key msg.id msg.termtype) c2)
      ]

  unfoldable pub kick_down : KickRequest → Comet S → Outcome (Comet S)
  kick_down msg c = elim (find_sessions c (session_key msg.id msg.termtype)) [
    | none ↦ finished c
    | some p ↦ elim (get_elem? c.heap p) [
      | none ↦ finished c
      | some sess ↦ if sess.token =ₛ msg.token then kick_session msg p sess c else finished c
    ]
  ]
