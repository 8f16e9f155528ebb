-- ===== src/System/Answer.antt =====
-- A callback and its answer, over both programs: the comet sends it (comet/rpcdo.go), the Android
-- terminal reads it and answers (ua/android/android.go), and the comet reads the answer
-- (comet/tcp.go, comet/socketdo.go).
use galopush.Prelude.{
  Bool, subst, ℕ, suc, ◌+◌, ◌<◌, Bytes, true, [], ◌∷◌, ◌++◌, some, length, get_elem?, set, ◌≡◌, ◌≢◌,
  refl, sym, ap, ◌∙◌, arith, All, get_elem?-set_self, length-set, lt_of_get_elem?,
}
use galopush.Protocol.Message.{
  Header, AddHeader, callback, IsByte, IsU32, msgtype_callback, protocol_type_binary,
}
use galopush.Protocol.Binary.{pack}
use galopush.Protocol.Binary.RoundTrip.{plain_body, IsFramed, Frame, pack-binary, pack_binary-Frame}
use galopush.Comet.Ident.{session_key}
use galopush.Comet.Session.{Conn, Session, conn_string, next_tid, save_transaction, answer}
use galopush.Comet.Session.Laws.{Unused, next_tid_range, answer-save_transaction}
use galopush.Comet.State.{
  OfflineStore, Outside, Comet, finished, find_id, find_sessions, set_session,
}
use galopush.Comet.Downlink.{
  PushRequest, u32, header_for, protocol_of, callback_message, unsent_callback, callback_down,
}
use galopush.Comet.Downlink.Delivery.{
  Ready, header_for_lem, tracked_state, send_tracked_good, send_to-at,
}
use galopush.Comet.Tcp.{Segments, remain}
use galopush.Comet.Tcp.Frames.{Received}
use galopush.Comet.Tcp.Stream.{serve-Received}
use galopush.Comet.Uplink.{proc_resp, proc_trans, with_session}
use galopush.Comet.Receive.{handle_messages, receive}
use galopush.Ua.Android as Android
use galopush.Ua.Android.{Client}
use galopush.Ua.Android.Reading.{protocol, answer_message, serve-callback}

-- A callback that a terminal's session takes: its text is of bytes and has a length of 32 bits, and
-- is not empty under the ring encoding.
pub record IsSound (text : Bytes) (sess : Session) : Type 0 where
  pub bytes : All IsByte text
  pub fits : IsU32 (length text)
  pub encodable : sess.encode < 4
  pub no_empty_ring : sess.encode ≡ 3 → 0 < length text
  pub unused : Unused (next_tid sess.tid) sess.trans

-- The header of the callback, and its frame.
callback-IsFramed :
    (text : Bytes) (sess : Session)
    → IsSound text sess
    → let h = header_for sess msgtype_callback (next_tid sess.tid) in
      IsFramed h (record { len = u32 (length text) }) text
callback-IsFramed text sess v =
    let tid = next_tid sess.tid in
    let (typed, coded, head) = header_for_lem sess msgtype_callback tid v.encodable (omega arith) in
    let fits = v.fits in
    record {
      head_fits = head;
      len_fits = omega (arith, v.fits);
      exact = omega (arith, v.fits);
      bytes = v.bytes;
      no_empty_ring = λ e. let some_text = v.no_empty_ring (sym coded ∙ e) in omega (arith, v.fits);
    }

same_bytes : (a b : Bytes) → some a ≡ some b → a ≡ b
same_bytes a b e = cc

-- The answer carries the number of the callback.
number_back :
    (sess : Session)
    → let h = header_for sess msgtype_callback (next_tid sess.tid) in
      (Android.header_of protocol 8 h.tid).tid ≡ next_tid sess.tid
unfolding Android.header_of header_for
number_back sess = omega (arith, next_tid_range sess.tid)

module _ {S : Type 0} (out : Outside) (store : OfflineStore S) where
  -- A comet that reads an answer handles it, and goes on behind its frame.
  receive-resp :
      (t tid fuel : ℕ) (conn : Conn) (got : Received (answer_message t tid)) (rest : Bytes)
      (s : Segments) (c : Comet S)
      → receive out store (suc fuel) conn (remain (got.frame ++ rest) s) c
        ≡ receive out store fuel conn
            (remain rest s)
            (proc_resp conn (Android.header_of protocol t tid) c)
  unfolding receive handle_messages proc_trans
  receive-resp t tid fuel conn got rest s c =
      rw (serve-Received (answer_message t tid) got rest s fuel) refl

  proc_resp-at :
      (c : Comet S) (conn : Conn) (p : ℕ) (sess : Session) (h : Header) (key : Bytes)
      → find_id c (conn_string conn) ≡ key
      → find_sessions c key ≡ some p
      → get_elem? c.heap p ≡ some sess
      → proc_resp conn h c ≡ set_session c p (answer sess h.tid)
  unfolding proc_resp
  proc_resp-at c conn p sess h key route found at =
      rw (route, proc_resp) (rw (found, proc_resp) (rw (at, with_session) refl))

  -- After the answer to the transaction that was entered last the session is as if there had been
  -- none, but for its counter.
  heap-proc_resp :
      (c : Comet S) (p : ℕ) (sess : Session) (msg_type : ℕ) (text buf : Bytes) (h : Header)
      (key : Bytes)
      → get_elem? c.heap p ≡ some sess
      → find_id c (conn_string sess.conn) ≡ key
      → find_sessions c key ≡ some p
      → h.tid ≡ next_tid sess.tid
      → Unused (next_tid sess.tid) sess.trans
      → get_elem?
          (proc_resp sess.conn h (tracked_state out store c p sess msg_type text buf)).heap
          p
        ≡ some (record sess { tid = next_tid sess.tid })
  unfolding tracked_state find_id find_sessions
  heap-proc_resp c p sess msg_type text buf h key at route found same unused =
      let sess1 : Session = record sess { tid = next_tid sess.tid } in
      let c1 = tracked_state out store c p sess msg_type text buf in
      let sess2 = save_transaction sess1 (next_tid sess.tid) msg_type text in
      let inside : p < length (set c.heap p sess1) =
        omega (arith, length-set c.heap p sess1, lt_of_get_elem? c.heap p sess at) in
      let here : get_elem? c1.heap p ≡ some sess2 =
        get_elem?-set_self (set c.heap p sess1) p sess2 inside in
      ap (λ x. get_elem? x.heap p) (proc_resp-at c1 sess.conn p sess2 h key route found here)
      ∙ get_elem?-set_self c1.heap p (answer sess2 h.tid) (lt_of_get_elem? c1.heap p sess2 here)
      ∙ ap some (
          ap (answer sess2) same
          ∙ answer-save_transaction sess1 (next_tid sess.tid) msg_type text unused)

  -- The bytes of a callback for a session on TCP are its frame.
  Ready-Frame :
      (msg : PushRequest) (c : Comet S) (r : Ready out store msg c)
      → msg.termtype ≢ 8
      → IsSound msg.msg r.sess
      → Frame
          (header_for r.sess msgtype_callback (next_tid r.sess.tid))
          (record { len = u32 (length msg.msg) })
          msg.msg
          r.buf
  unfolding plain_body
  Ready-Frame msg c r not_web v =
      let h = header_for r.sess msgtype_callback (next_tid r.sess.tid) in
      let a : AddHeader = record { len = u32 (length msg.msg) } in
      let binary : protocol_of msg.termtype ≡ protocol_type_binary = ground arith in
      let (frame, packs, f) =
        pack_binary-Frame (callback h a msg.msg) tt (callback-IsFramed msg.msg r.sess v) in
      let packed =
        sym (pack-binary out.pack_json (callback h a msg.msg))
        ∙ ap (pack out.pack_json (callback h a msg.msg)) (sym binary)
        ∙ r.packed in
      subst (Frame h a msg.msg) (same_bytes frame r.buf (sym packs ∙ packed)) f

  sent_last :
      (c : Comet S) (p : ℕ) (sess : Session) (text buf : Bytes)
      → (tracked_state out store c p sess msgtype_callback text buf).sent
        ≡ c.sent ++ ((sess.conn, buf) ∷ [])
  unfolding tracked_state
  sent_last c p sess text buf = refl

  -- A callback for any platform but the web, to a session for which it can be packed and which takes
  -- it, on whose connection the write succeeds and which the comet finds under its address: the comet
  -- sends a frame; the Android terminal that reads it, in one segment with anything behind it, answers
  -- with a frame if it can write, and goes on behind what it read; and the comet that reads the answer
  -- from that connection has the session as it was before the callback, but for its counter.
  pub callback_down-answered :
      (msg : PushRequest) (c : Comet S) (r : Ready out store msg c) (write_good : ℕ → Bool)
      (client : Client) (rest rest1 : Bytes) (s s1 : Segments) (fuel fuel1 : ℕ)
      → msg.termtype ≢ 8
      → IsSound msg.msg r.sess
      → out.write_good r.sess.conn c.writes ≡ true
      → find_id c (conn_string r.sess.conn) ≡ session_key msg.id msg.termtype
      → write_good client.writes ≡ true
      → (c1 : Comet S) × (reply : Bytes) × (c2 : Comet S) × (callback_down out store msg c
          ≡ finished c1)
        × (c1.sent ≡ c.sent ++ ((r.sess.conn, r.buf) ∷ []))
        × (Android.serve protocol write_good (suc fuel) (remain (r.buf ++ rest) s) client
            ≡ Android.serve protocol write_good fuel
                (remain rest s)
                (record client { writes = client.writes + 1; sent = client.sent ++ (reply ∷ []) }))
        × (receive out store (suc fuel1) r.sess.conn (remain (reply ++ rest1) s1) c1
            ≡ receive out store fuel1 r.sess.conn (remain rest1 s1) c2)
        × (get_elem? c2.heap r.ptr ≡ some (record r.sess { tid = next_tid r.sess.tid }))
  callback_down-answered msg c r write_good client rest rest1 s s1 fuel fuel1 not_web v sends route
        answers =
      let tid = next_tid r.sess.tid in
      let h = header_for r.sess msgtype_callback tid in
      let a : AddHeader = record { len = u32 (length msg.msg) } in
      let c1 = tracked_state out store c r.ptr r.sess msgtype_callback msg.msg r.buf in
      let (typed, coded, head) =
        header_for_lem r.sess msgtype_callback tid v.encodable (omega arith) in
      let (got, served) =
        serve-callback write_good fuel h a msg.msg r.buf (Ready-Frame msg c r not_web v) rest s
          client (callback-IsFramed msg.msg r.sess v) typed answers in
      (
        c1,
        got.frame,
        proc_resp r.sess.conn (Android.header_of protocol 8 h.tid) c1,
        send_to-at out store msg c r
            ∙ send_tracked_good out store r.ptr r.sess (callback_message msg.msg)
                (protocol_of msg.termtype) msgtype_callback msg.msg r.buf
                (unsent_callback out store msg) c r.packed sends,
        sent_last c r.ptr r.sess msg.msg r.buf,
        served,
        receive-resp 8 h.tid fuel1 r.sess.conn got rest1 s1 c1,
        heap-proc_resp c r.ptr r.sess msgtype_callback msg.msg r.buf _ _ r.at route r.found
            (number_back r.sess) v.unused,
      )
