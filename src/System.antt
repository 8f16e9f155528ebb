-- ===== src/System.antt =====
-- A login and a registration, over both programs: the business side logs a user in at the router
-- (router/procNsq.go), then a terminal registers at a comet (comet/socketdo.go), which asks the
-- router (internal/rpc, router/procRpc.go).
pub mod Notice
pub mod Answer
use galopush.Prelude.{
  ◌∷◌, suc, ◌≤◌, arith, ℕ, Bytes, Bool, true, List, [], Option, none, some, length, ◌≡◌, refl, ap,
  ◌∙◌,
}
use galopush.Protocol.Message.{Header, AddHeader, ParamReg, register}
use galopush.Rds.Defs.{Redis}
use galopush.Rds.Store.{Storager, find_sessions}
use galopush.Comet.Session.{Conn, conn_string}
use galopush.Comet.Ident.{session_key}
use galopush.Comet.State.{finished, OfflineStore, Outside, Comet, find_id, state_of}
use galopush.Comet.Uplink.{valid_bytes, session_at, proc_register}
use galopush.Comet.Uplink.Registration.{proc_register-session_at}
use galopush.Comet.Uplink.{proc_trans}
use galopush.Comet.Tcp.{remain}
use galopush.Comet.Tcp.Frames.{IsSendable}
use galopush.Comet.Tcp.Stream.{pack_all, serve-pack_all}
use galopush.Comet.Receive.{handle_messages, receive}
use galopush.Router.Rpc.{Router, RouterOutside, Code, AuthRequest}
use galopush.Router.Login.{UserOnlineState, user_online_state}
use galopush.Router.Login.Boxes.{Accepts}
use galopush.Router.Login.Admission.{Suits, request_of, user_online_state-auth}
use galopush.Router.Dispatch.{sync_handle, async_handle}
use galopush.Rpc.{Request, auth, RpcServer, call, run_sync, is_granted}

module _ {R : Type 0} (redis : Redis R) (router_out : RouterOutside) where
  -- What the client's Auth returns when the call reaches the router's server.
  unfoldable pub granted : RpcServer (Router R) → Bytes → ℕ → Bytes → Bool
  granted server id plat code =
      is_granted
        (elim (call (sync_handle redis router_out) (async_handle redis router_out)
          (auth (record { id = id; plat = plat; code = code })) server) [
            | none ↦ none
            | some answered ↦ some answered.0
          ])

  -- A comet whose authorisations go to that server.
  abbrev pub asking : RpcServer (Router R) → Outside → Outside
  asking server out = record out { auth = granted server }

  granted-auth :
      (server : RpcServer (Router R)) (m : AuthRequest)
      → (galopush.Router.Rpc.auth redis m server.state).0 ≡ Code.rpc_ret_success
      → granted server m.id m.plat m.code ≡ true
  unfolding granted call run_sync sync_handle is_granted
  granted-auth server m success = rw success refl

  -- For a user whom FindSessions does not find, or finds in a box under the user's id with at most one
  -- terminal of an excluded platform, and a Redis that accepts: the router handles a login without a
  -- panic; and a terminal with the user's name, the platform and the code of the login, on a
  -- connection without a session, is registered by every comet that asks that router, whatever waits
  -- in the router's channel.
  pub proc_register-user_online_state :
      {S : Type 0} (out : Outside) (store : OfflineStore S) (msg : UserOnlineState) (r : Router R)
      (o : Option ℕ) (st : Storager R) (conn : Conn) (h : Header) (p : ParamReg) (c : Comet S)
      (chan : List Request) (cache : ℕ)
      → Accepts redis
      → msg.login ≡ true
      → find_sessions redis r.store msg.uid ≡ (o, st)
      → Suits redis msg o st
      → valid_bytes p.id ≡ msg.uid
      → p.terminal_type ≡ msg.termtype
      → valid_bytes p.token ≡ msg.code
      → find_id c (conn_string conn) ≡ []
      → (r1 : Router R) × (user_online_state redis msg r ≡ finished r1)
        × (let server : RpcServer (Router R) = record {
          state = r1;
          data_chan = chan;
          cache = cache;
        } in
            let c1 = state_of (proc_register (asking server out) store conn h p c) in
            (find_id c1 (conn_string conn) ≡ session_key msg.uid msg.termtype)
            × (session_at conn c1 ≡ some (length c.heap)))
  proc_register-user_online_state out store msg r o st conn h p c chan cache accepts login found
        suits id plat token new =
      let (r1, handled, lets_in) =
        user_online_state-auth redis msg r o st accepts login found suits in
      let server : RpcServer (Router R) = record { state = r1; data_chan = chan; cache = cache } in
      let asked : granted server (valid_bytes p.id) p.terminal_type (valid_bytes p.token) ≡ true =
        rw id (rw plat (rw token (granted-auth server (request_of redis msg) lets_in))) in
      let registered = proc_register-session_at (asking server out) store conn h p c asked new in
      let keys = ap (λ u. session_key u p.terminal_type) id ∙ ap (session_key msg.uid) plat in
      (r1, handled, (registered.0 ∙ keys, registered.1))

  -- The same from the first byte on: the terminal's registration, framed for its headers, packs to a
  -- frame which, arriving in one segment, registers the terminal at the comet.
  pub receive-user_online_state :
      {S : Type 0} (out : Outside) (store : OfflineStore S) (msg : UserOnlineState) (r : Router R)
      (o : Option ℕ) (st : Storager R) (conn : Conn) (h : Header) (a : AddHeader) (p : ParamReg)
      (c : Comet S) (chan : List Request) (cache fuel : ℕ)
      → Accepts redis
      → msg.login ≡ true
      → find_sessions redis r.store msg.uid ≡ (o, st)
      → Suits redis msg o st
      → IsSendable (register h a p)
      → valid_bytes p.id ≡ msg.uid
      → p.terminal_type ≡ msg.termtype
      → valid_bytes p.token ≡ msg.code
      → find_id c (conn_string conn) ≡ []
      → (r1 : Router R) × (stream : Bytes) × (user_online_state redis msg r ≡ finished r1)
        × (pack_all (register h a p ∷ []) ≡ some stream)
        × (let server : RpcServer (Router R) = record {
          state = r1;
          data_chan = chan;
          cache = cache;
        } in
            let c1 = receive (asking server out) store (suc fuel) conn (remain stream []) c in
            (find_id c1 (conn_string conn) ≡ session_key msg.uid msg.termtype)
            × (session_at conn c1 ≡ some (length c.heap)))
  unfolding receive handle_messages proc_trans
  receive-user_online_state out store msg r o st conn h a p c chan cache fuel accepts login found
        suits good id plat token new =
      let (r1, handled, registered) =
        proc_register-user_online_state out store msg r o st conn h p c chan cache accepts login
          found suits id plat token new in
      let (stream, packed, served) =
        serve-pack_all (register h a p ∷ []) (suc fuel) (good, tt) (one_le fuel) in
      (r1, stream, handled, packed, rw served registered)
    where
      one_le : (n : ℕ) → 1 ≤ suc n
      one_le n = omega arith
