-- ===== src/Comet/Uplink/Invariant.antt =====
-- The pool invariant (every pointer of the pool leads to a session) under all that the terminals and
-- the router send.
use galopush.Prelude.{
  ℕ, ◌+◌, ◌<◌, Bytes, ◌=ₛ◌, List, [], ◌∷◌, some, length, get_elem?, ◌≡◌, inl, inr, refl, arith,
  Bool-cases, Option-cases, length-append, length-set,
}
use galopush.Prelude.Assoc.{Assoc, lookup, insert, delete, lookup-insert, lookup-delete}
use galopush.Protocol.Message.{
  Header, Message, ParamReg, resp, register, push, kick, callback, im_up, im_down, header,
}
use galopush.Protocol.Binary.{pack}
use galopush.Comet.Ident.{session_key}
use galopush.Comet.Session.{Session, Conn, conn_string, answer, next_tid, destroy}
use galopush.Comet.State.{
  OfflineStore, Outside, Comet, state_of, find_id, find_sessions, write, close_conn, set_session,
}
use galopush.Comet.Downlink.{PushRequest, rpc_async_handle, protocol_of}
use galopush.Comet.Downlink.Kick.{KickRequest, kick_down, kick_session, kick_message, expel}
use galopush.Comet.Routes.{
  SameRoutes, IsPooled, SameRoutes-refl, SameRoutes-IsPooled, SameRoutes-write,
  SameRoutes-set_session, rpc_async_handle-SameRoutes,
}
use galopush.Comet.Uplink.{
  valid_bytes, is_empty, proc_register, session_at, unregister, with_session, proc_unregister,
  proc_im, proc_ping, proc_resp, proc_trans,
}
use galopush.Comet.Uplink.Registration.{
  registered, SameRoutes-accept, SameRoutes-response, proc_register-SameRoutes,
}

insert-IsPooled :
    (k : Bytes) (m : Assoc ℕ) (n : ℕ)
    → ((j : Bytes) (p : ℕ) → lookup j m ≡ some p → p < n)
    → (j : Bytes) (p : ℕ) → lookup j (insert k n m) ≡ some p
    → p < n + 1
insert-IsPooled k m n pooled j p h = ground (arith, lookup-insert k j n m, pooled j p)

delete-IsPooled :
    (k : Bytes) (m : Assoc ℕ) (n : ℕ)
    → ((j : Bytes) (p : ℕ) → lookup j m ≡ some p → p < n)
    → (j : Bytes) (p : ℕ) → lookup j (delete k m) ≡ some p
    → p < n
delete-IsPooled k m n pooled j p h = ground (arith, lookup-delete k j m, pooled j p)

-- A step of the comet: a message of a terminal, the end of its connection, or a request of the router.
pub data Event : Type 0 where
  trans : Conn → Message → Event
  ended : Conn → Event
  pushed : PushRequest → Event
  kicked : KickRequest → Event

module _ {S : Type 0} (out : Outside) (store : OfflineStore S) where
  -- The state that a step leaves, which is also the state behind a panic.
  abbrev pub after : Event → Comet S → Comet S
  after (trans conn msg) c = state_of (proc_trans out store conn msg c)
  after (ended conn) c = proc_unregister out conn c
  after (pushed msg) c = state_of (rpc_async_handle out store msg c)
  after (kicked msg) c = state_of (kick_down out store msg c)

  abbrev pub run : List Event → Comet S → Comet S
  run [] c = c
  run (e ∷ es) c = run es (after e c)

  registered-IsPooled :
      (conn : Conn) (h : Header) (p : ParamReg) (c : Comet S)
      → IsPooled c
      → IsPooled (registered out store conn h p c)
  unfolding registered
  registered-IsPooled conn h p c pooled j q found =
      rw (length-append c.heap _) (insert-IsPooled _ c.sessions (length c.heap) pooled j q found)

  proc_register-IsPooled :
      (conn : Conn) (h : Header) (p : ParamReg) (c : Comet S)
      → IsPooled c
      → IsPooled (state_of (proc_register out store conn h p c))
  unfolding proc_register
  proc_register-IsPooled conn h p c pooled =
      elim (Bool-cases (out.auth (valid_bytes p.id) p.terminal_type (valid_bytes p.token))) [
        | inr refused ↦
            SameRoutes-IsPooled c _ (proc_register-SameRoutes out store conn h p c (inl refused))
              pooled
        | inl good ↦ elim (Bool-cases (is_empty (find_id c (conn_string conn)))) [
          | inl new ↦ rw good (
              rw new (
                SameRoutes-IsPooled (registered out store conn h p c) _
                  (SameRoutes-accept out store conn h p c) (registered-IsPooled conn h p c pooled)))
          | inr known ↦ rw good (
              rw known
                (SameRoutes-IsPooled c _ (SameRoutes-response out store conn _ _ _ _ _ c) pooled))
        ]
      ]

  SameRoutes-proc_im :
      (conn : Conn) (h : Header) (msg : Bytes) (c : Comet S)
      → SameRoutes c (state_of (proc_im out store conn h msg c))
  unfolding proc_im
  SameRoutes-proc_im conn h msg c = elim (Option-cases (session_at conn c)) [
    | inl gone ↦ rw (gone, proc_im) (SameRoutes-close c)
    | inr (p, found) ↦ elim (Option-cases (get_elem? c.heap p)) [
      | inl gone ↦ rw (found, proc_im) (rw (gone, proc_im) (SameRoutes-close c))
      | inr (sess, at) ↦
          rw (found, proc_im) (rw (at, proc_im) (SameRoutes-response out store conn _ _ _ _ _ c))
    ]
  ]
    where
      SameRoutes-close : (c : Comet S) → SameRoutes c (close_conn c conn)
      SameRoutes-close c = record { same_ids = refl; same_sessions = refl; same_heap = refl }

  SameRoutes-proc_ping :
      (conn : Conn) (h : Header) (c : Comet S)
      → SameRoutes c (state_of (proc_ping out store conn h c))
  unfolding proc_ping
  SameRoutes-proc_ping conn h c = SameRoutes-response out store conn _ _ _ _ _ c

  SameRoutes-proc_resp :
      (conn : Conn) (h : Header) (c : Comet S) → SameRoutes c (proc_resp conn h c)
  unfolding proc_resp
  SameRoutes-proc_resp conn h c =
      elim (Option-cases (find_sessions c (find_id c (conn_string conn)))) [
        | inl gone ↦ rw gone (SameRoutes-refl c)
        | inr (p, found) ↦ elim (Option-cases (get_elem? c.heap p)) [
          | inl gone ↦ rw found (rw (gone, with_session) (SameRoutes-refl c))
          | inr (sess, at) ↦
              rw found
                (rw (at, with_session) (SameRoutes-set_session out store c p (answer sess h.tid)))
        ]
      ]

  proc_unregister-IsPooled :
      (conn : Conn) (c : Comet S) → IsPooled c → IsPooled (proc_unregister out conn c)
  unfolding proc_unregister unregister
  proc_unregister-IsPooled conn c pooled = elim (Option-cases (session_at conn c)) [
    | inl gone ↦ rw gone pooled
    | inr (p, found) ↦ elim (Option-cases (get_elem? c.heap p)) [
      | inl gone ↦ rw found (rw (gone, with_session) pooled)
      | inr (sess, at) ↦
          rw (found, proc_unregister)
            (rw (at, with_session)
              λ j q h. rw (length-set c.heap p (destroy sess)) (
                delete-IsPooled (find_id c (conn_string conn)) c.sessions (length c.heap) pooled j q
                  h))
    ]
  ]

  expel-IsPooled :
      (p : ℕ) (sess : Session) (ids : Bytes) (c : Comet S)
      → IsPooled c
      → IsPooled (expel out store p sess ids c)
  unfolding expel
  expel-IsPooled p sess ids c pooled j q h =
      rw (length-set c.heap p (destroy sess))
        (delete-IsPooled ids c.sessions (length c.heap) pooled j q h)

  kick_session-IsPooled :
      (msg : KickRequest) (p : ℕ) (sess : Session) (c : Comet S)
      → IsPooled c
      → IsPooled (state_of (kick_session out store msg p sess c))
  unfolding kick_session
  kick_session-IsPooled msg p sess c pooled =
      let sess1 : Session = record sess { tid = next_tid sess.tid } in
      let c1 = set_session c p sess1 in
      let pooled1 = SameRoutes-IsPooled c c1 (SameRoutes-set_session out store c p sess1) pooled in
      elim (Option-cases (pack out.pack_json (kick_message msg sess) (protocol_of msg.termtype))) [
        | inl gone ↦ rw (gone, kick_session) pooled1
        | inr (buf, packed) ↦
            let c2 = (write out c1 sess.conn buf).1 in
            rw (packed, kick_session)
              (expel-IsPooled p sess1 (session_key msg.id msg.termtype) c2
                (SameRoutes-IsPooled c1 c2 (SameRoutes-write out store c1 sess.conn buf) pooled1))
      ]

  kick_down-IsPooled :
      (msg : KickRequest) (c : Comet S)
      → IsPooled c
      → IsPooled (state_of (kick_down out store msg c))
  unfolding kick_down
  kick_down-IsPooled msg c pooled =
      elim (Option-cases (find_sessions c (session_key msg.id msg.termtype))) [
        | inl gone ↦ rw (gone, kick_down) pooled
        | inr (p, found) ↦ elim (Option-cases (get_elem? c.heap p)) [
          | inl gone ↦ rw (found, kick_down) (rw (gone, kick_down) pooled)
          | inr (sess, at) ↦ elim (Bool-cases (sess.token =ₛ msg.token)) [
            | inl same ↦
                rw (found, kick_down)
                  (rw (at, kick_down) (rw same (kick_session-IsPooled msg p sess c pooled)))
            | inr other ↦ rw (found, kick_down) (rw (at, kick_down) (rw other pooled))
          ]
        ]
      ]

  after-IsPooled : (e : Event) (c : Comet S) → IsPooled c → IsPooled (after e c)
  unfolding proc_trans
  after-IsPooled (trans conn (register h a p)) c w = proc_register-IsPooled conn h p c w
  after-IsPooled (trans conn (header h)) c w =
      SameRoutes-IsPooled c _ (SameRoutes-proc_ping conn h c) w
  after-IsPooled (trans conn (resp h a r)) c w =
      SameRoutes-IsPooled c _ (SameRoutes-proc_resp conn h c) w
  after-IsPooled (trans conn (im_up h a msg)) c w =
      SameRoutes-IsPooled c _ (SameRoutes-proc_im conn h msg c) w
  after-IsPooled (trans conn (push h a p msg)) c w = w
  after-IsPooled (trans conn (kick h a reason)) c w = w
  after-IsPooled (trans conn (callback h a msg)) c w = w
  after-IsPooled (trans conn (im_down h a flag msg)) c w = w
  after-IsPooled (ended conn) c w = proc_unregister-IsPooled conn c w
  after-IsPooled (pushed msg) c w =
      SameRoutes-IsPooled c _ (rpc_async_handle-SameRoutes out store msg c) w
  after-IsPooled (kicked msg) c w = kick_down-IsPooled msg c w

  -- Whatever the terminals and the router send, in whatever order, and whichever handler a panic
  -- stops: every pointer of the pool still leads to a session.
  pub run-IsPooled : (es : List Event) (c : Comet S) → IsPooled c → IsPooled (run es c)
  run-IsPooled [] c w = w
  run-IsPooled (e ∷ es) c w = run-IsPooled es (after e c) (after-IsPooled e c w)
