-- ===== src/Comet/Downlink/Delivery.antt =====
-- What becomes of one message: it is on the wire with a transaction that remembers it, or it went to
-- the store, and the case in which a panic loses it.
use galopush.Prelude.{
  ℕ, ◌+◌, ◌<◌, Bytes, true, false, [], ◌∷◌, ◌++◌, none, some, length, get_elem?, set, ◌≡◌, ◌≢◌, ◌⊎◌,
  inl, inr, refl, ap, ◌∙◌, arith, Bool-cases, get_elem?-set_self, length-set, lt_of_get_elem?,
}
use galopush.Protocol.Message.{Header, Message, IsHeader, msgtype_callback, protocol_type_binary}
use galopush.Protocol.Head.{
  get_msg_type, get_encode, fields_of_line, set_msg_type, set_encode, get_msg_type-set_msg_type,
  get_encode-set_encode,
}
use galopush.Protocol.Binary.{pack}
use galopush.Protocol.Binary.RoundTrip.{pack-binary, pack_binary-callback_empty}
use galopush.Comet.Ident.{session_key}
use galopush.Comet.Session.{Session, next_tid, save_transaction}
use galopush.Comet.State.{
  OfflineStore, Outside, Comet, finished, panicked, no_header, find_sessions, write, set_session,
}
use galopush.Comet.Downlink.{
  PushRequest, u32, header_for, protocol_of, callback_message, send_tracked, send_to, routed,
  unsent_callback, callback_down,
}

-- The header of a downward message carries the type, the session's encoding and the number.
pub header_for_lem :
    (sess : Session) (t tid : ℕ)
    → sess.encode < 4
    → t < 64
    → (get_msg_type (header_for sess t tid) ≡ t)
      × (get_encode (header_for sess t tid) ≡ sess.encode)
      × IsHeader (header_for sess t tid)
unfolding header_for
header_for_lem sess t tid e f =
    let typed = get_msg_type-set_msg_type no_header t (omega arith) f in
    let plain = set_encode (set_msg_type no_header t) sess.encode in
    let coded = get_encode-set_encode (set_msg_type no_header t) sess.encode typed.3 e in
    let same = fields_of_line plain (u32 tid) in
    (
      same.0 ∙ coded.1 ∙ typed.0,
      same.1 ∙ coded.0,
      record { line_fits = coded.3; tid_fits = omega arith },
    )

module _ {S : Type 0} (out : Outside) (store : OfflineStore S) where
  -- A message is tracked: its bytes are the last on the session's connection, and behind the
  -- transactions of the session stands one for it, with its timer running, under the new number of
  -- the session; the store is as it was.
  pub record Tracked (c c' : Comet S) (p : ℕ) (sess : Session) (msg_type : ℕ) (msg buf : Bytes)
      : Type 0 where
    pub on_wire : c'.sent ≡ c.sent ++ ((sess.conn, buf) ∷ [])
    pub remembered :
        get_elem? c'.heap p
        ≡ some (record sess {
          tid = next_tid sess.tid;
          trans =
              sess.trans
              ++ (record { tid = next_tid sess.tid; msg_type = msg_type; msg = msg; running = true }
                  ∷ []);
        })
    pub store_kept : c'.store ≡ c.store

  -- The state after a write that succeeded.
  unfoldable pub tracked_state : Comet S → ℕ → Session → ℕ → Bytes → Bytes → Comet S
  tracked_state c p sess msg_type msg buf =
      let sess1 = record sess { tid = next_tid sess.tid } in
      record c {
        heap = set (set c.heap p sess1) p (save_transaction sess1 (next_tid sess.tid) msg_type msg);
        writes = c.writes + 1;
        sent = c.sent ++ ((sess.conn, buf) ∷ []);
      }

  -- The state after a write that failed, before anything is done about it.
  unfoldable pub unsent_state : Comet S → ℕ → Session → Comet S
  unsent_state c p sess = record c {
    heap = set c.heap p (record sess { tid = next_tid sess.tid });
    writes = c.writes + 1;
  }

  pub Tracked-tracked_state :
      (c : Comet S) (p : ℕ) (sess : Session) (msg_type : ℕ) (msg buf : Bytes)
      → get_elem? c.heap p ≡ some sess
      → Tracked c (tracked_state c p sess msg_type msg buf) p sess msg_type msg buf
  unfolding tracked_state save_transaction
  Tracked-tracked_state c p sess msg_type msg buf at =
      let sess1 : Session = record sess { tid = next_tid sess.tid } in
      let inside : p < length (set c.heap p sess1) =
        omega (arith, length-set c.heap p sess1, lt_of_get_elem? c.heap p sess at) in
      record {
        on_wire = refl;
        remembered = get_elem?-set_self (set c.heap p sess1) p _ inside;
        store_kept = refl;
      }

  module _ (p : ℕ) (sess : Session) (build : Header → Message) (protocol msg_type : ℕ)
      (msg buf : Bytes) (unsent : Comet S → Comet S) (c : Comet S)
      (packed : pack out.pack_json (build (header_for sess msg_type (next_tid sess.tid))) protocol
        ≡ some buf) where
    pub send_tracked_good :
        out.write_good sess.conn c.writes ≡ true
        → send_tracked out store p sess build protocol msg_type msg unsent c
          ≡ finished (tracked_state c p sess msg_type msg buf)
    unfolding send_tracked write tracked_state
    send_tracked_good good = rw (packed, send_tracked) (rw good)

    pub send_tracked_bad :
        out.write_good sess.conn c.writes ≡ false
        → send_tracked out store p sess build protocol msg_type msg unsent c
          ≡ finished (unsent (unsent_state c p sess))
    unfolding send_tracked write unsent_state
    send_tracked_bad bad = rw (packed, send_tracked) (rw bad)

  -- The session of a request, with its contents and the packed callback.
  pub record Ready (msg : PushRequest) (c : Comet S) : Type 0 where
    pub ptr : ℕ
    pub sess : Session
    pub buf : Bytes
    pub found : find_sessions c (session_key msg.id msg.termtype) ≡ some ptr
    pub at : get_elem? c.heap ptr ≡ some sess
    pub packed :
        pack out.pack_json
          (callback_message msg.msg (header_for sess msgtype_callback (next_tid sess.tid)))
          (protocol_of msg.termtype)
        ≡ some buf

  -- A callback is kept: in the store of the user's platform, or tracked on the user's session.
  abbrev pub IsKept : (msg : PushRequest) (c : Comet S) → Ready msg c → Comet S → Type 0
  IsKept msg c r c' =
      (c'.store ≡ store.save_callback c.store msg.id msg.termtype msg.msg)
      ⊎ Tracked c c' r.ptr r.sess msgtype_callback msg.msg r.buf

  pub send_to-at :
      (msg : PushRequest) (c : Comet S) (r : Ready msg c)
      → callback_down out store msg c
        ≡ send_tracked out store r.ptr r.sess
            (callback_message msg.msg)
            (protocol_of msg.termtype)
            msgtype_callback
            msg.msg
            (unsent_callback out store msg)
            c
  unfolding callback_down routed send_to
  send_to-at msg c r = rw (r.found, routed) (rw (r.at, send_to))

  unsent_callback-store :
      (msg : PushRequest) (c : Comet S)
      → msg.termtype ≢ 8
      → (unsent_callback out store msg c).store
        ≡ store.save_callback c.store msg.id msg.termtype msg.msg
  unfolding unsent_callback
  unsent_callback-store msg c not_web = ground arith

  -- A callback for any platform but the web, to a session for which it can be packed, is kept and the
  -- handler returns: the message is stored, or it is on the wire with a transaction that remembers it.
  pub callback_down-IsKept :
      (msg : PushRequest) (c : Comet S) (r : Ready msg c)
      → msg.termtype ≢ 8
      → (c' : Comet S) × (callback_down out store msg c ≡ finished c') × IsKept msg c r c'
  callback_down-IsKept msg c r not_web = elim (Bool-cases (out.write_good r.sess.conn c.writes)) [
    | inl good ↦ (
      tracked_state c r.ptr r.sess msgtype_callback msg.msg r.buf,
      send_to-at msg c r
          ∙ send_tracked_good r.ptr r.sess (callback_message msg.msg) (protocol_of msg.termtype)
              msgtype_callback msg.msg r.buf (unsent_callback out store msg) c r.packed good,
      inr (Tracked-tracked_state c r.ptr r.sess msgtype_callback msg.msg r.buf r.at),
    )
    | inr bad ↦ (
      unsent_callback out store msg (unsent_state c r.ptr r.sess),
      send_to-at msg c r
          ∙ send_tracked_bad r.ptr r.sess (callback_message msg.msg) (protocol_of msg.termtype)
              msgtype_callback msg.msg r.buf (unsent_callback out store msg) c r.packed bad,
      inl (
          unsent_callback-store msg (unsent_state c r.ptr r.sess) not_web
          ∙ ap (λ s. store.save_callback s msg.id msg.termtype msg.msg) (unsent_state-store c r)),
    )
  ]
    where
      unsent_state-store :
          (c : Comet S) (r : Ready msg c) → (unsent_state c r.ptr r.sess).store ≡ c.store
      unsent_state-store c r = unfold unsent_state in refl

  -- An empty callback to a session under the ring encoding, on any platform but the web, is lost: the
  -- handler panics, nothing was written, nothing is stored, and no transaction remembers it.
  pub callback_down_lost :
      (msg : PushRequest) (c : Comet S) (p : ℕ) (sess : Session)
      → find_sessions c (session_key msg.id msg.termtype) ≡ some p
      → get_elem? c.heap p ≡ some sess
      → msg.termtype ≢ 8
      → msg.msg ≡ []
      → sess.encode ≡ 3
      → (c' : Comet S) × (callback_down out store msg c ≡ panicked c')
        × (c'.sent ≡ c.sent)
        × (c'.store ≡ c.store)
        × (get_elem? c'.heap p ≡ some (record sess { tid = next_tid sess.tid }))
  unfolding callback_down routed send_to send_tracked
  callback_down_lost msg c p sess found at not_web empty ring =
      let tid = next_tid sess.tid in
      let sess1 : Session = record sess { tid = tid } in
      let h = header_for sess msgtype_callback tid in
      let lem = header_for_lem sess msgtype_callback tid (omega arith) (omega arith) in
      let binary : protocol_of msg.termtype ≡ protocol_type_binary = ground arith in
      let panics : pack out.pack_json (callback_message msg.msg h) (protocol_of msg.termtype)
          ≡ none =
        rw (binary, empty)
          (pack-binary out.pack_json _ ∙ pack_binary-callback_empty h (lem.1 ∙ ring)) in
      (
        set_session c p sess1,
        rw (found, routed) (rw (at, send_to) (rw (panics, send_tracked))),
        refl,
        refl,
        get_elem?-set_self c.heap p sess1 (lt_of_get_elem? c.heap p sess at),
      )
