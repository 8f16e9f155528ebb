-- ===== src/Comet/Routes.antt =====
-- What the handlers of a comet do to its session pool: which of them change the two tables, and the
-- invariant that every pointer of the pool leads to a session.
pub mod Offline
use galopush.Prelude.{
  ℕ, ◌<◌, Bytes, Bool, true, false, ◌==◌, if◌then◌else◌, List, [], ◌∷◌, some, length, get_elem?,
  ◌≡◌, refl, sym, ap, ◌∙◌, arith, Bool-cases, Option-cases, inl, inr, length-set,
}
use galopush.Prelude.Assoc.{lookup}
use galopush.Protocol.Message.{
  Header, Message, msgtype_push, msgtype_callback, msgtype_message, plat_web, plat_android,
}
use galopush.Protocol.Binary.{pack}
use galopush.Rds.Defs.{Item}
use galopush.Comet.Ident.{session_key}
use galopush.Comet.Session.{Session, Conn, next_tid, save_transaction}
use galopush.Comet.State.{
  OfflineStore, Outside, Comet, Outcome, finished, panicked, state_of, find_sessions, write,
  set_session,
}
use galopush.Comet.Downlink.{
  PushRequest, header_for, send_tracked, send_to, unsent_push, unsent_callback, unsent_im,
  push_down, callback_down, message_down, routed, rpc_async_handle, then_do, store_push,
  web_connected,
}
use galopush.Comet.Downlink.Offline.{
  send_each, offline_push, offline_callbacks, offline_ims, proc_offline_msg,
}

-- Both tables are the same, and the heap has as many sessions.
pub record SameRoutes {S : Type 0} (c c' : Comet S) : Type 0 where
  pub same_ids : c'.ids ≡ c.ids
  pub same_sessions : c'.sessions ≡ c.sessions
  pub same_heap : length c'.heap ≡ length c.heap

-- Every pointer of the pool is one of the heap.
abbrev pub IsPooled : {S : Type 0} → Comet S → Type 0
IsPooled c = (k : Bytes) (p : ℕ) → lookup k c.sessions ≡ some p → p < length c.heap

pub SameRoutes-refl : {S : Type 0} (c : Comet S) → SameRoutes c c
SameRoutes-refl c = record { same_ids = refl; same_sessions = refl; same_heap = refl }

pub SameRoutes-trans :
    {S : Type 0} (a b c : Comet S) → SameRoutes a b → SameRoutes b c → SameRoutes a c
SameRoutes-trans a b c r s = record {
  same_ids = s.same_ids ∙ r.same_ids;
  same_sessions = s.same_sessions ∙ r.same_sessions;
  same_heap = s.same_heap ∙ r.same_heap;
}

pub SameRoutes-IsPooled : {S : Type 0} (c c' : Comet S) → SameRoutes c c' → IsPooled c → IsPooled c'
SameRoutes-IsPooled c c' r w k p h =
    rw r.same_heap (w k p (ap (lookup k) (sym r.same_sessions) ∙ h))

module _ {S : Type 0} (out : Outside) (store : OfflineStore S) where
  pub SameRoutes-write :
      (c : Comet S) (conn : Conn) (buf : Bytes) → SameRoutes c (write out c conn buf).1
  unfolding write
  SameRoutes-write c conn buf = elim (Bool-cases (out.write_good conn c.writes)) [
    | inl good ↦ rw good (record { same_ids = refl; same_sessions = refl; same_heap = refl })
    | inr bad ↦ rw bad (record { same_ids = refl; same_sessions = refl; same_heap = refl })
  ]

  pub SameRoutes-set_session :
      (c : Comet S) (p : ℕ) (sess : Session) → SameRoutes c (set_session c p sess)
  SameRoutes-set_session c p sess = record {
    same_ids = refl;
    same_sessions = refl;
    same_heap = length-set c.heap p sess;
  }

  SameRoutes-if :
      (b : Bool) (c x y : Comet S)
      → SameRoutes c x
      → SameRoutes c y
      → SameRoutes c (if b then x else y)
  SameRoutes-if true c x y h k = h
  SameRoutes-if false c x y h k = k

  SameRoutes-send_tracked :
      (p : ℕ) (sess : Session) (build : Header → Message) (protocol t : ℕ) (msg : Bytes)
      (unsent : Comet S → Comet S)
      → ((c : Comet S) → SameRoutes c (unsent c))
      → (c : Comet S)
      → SameRoutes c (state_of (send_tracked out store p sess build protocol t msg unsent c))
  unfolding send_tracked
  SameRoutes-send_tracked p sess build protocol t msg unsent keeps c =
      let tid = next_tid sess.tid in
      let sess1 : Session = record sess { tid = tid } in
      let c1 = set_session c p sess1 in
      let one = SameRoutes-set_session c p sess1 in
      elim (Option-cases (pack out.pack_json (build (header_for sess t tid)) protocol)) [
        | inl gone ↦ rw (gone, send_tracked) one
        | inr (buf, packed) ↦
            let two = SameRoutes-trans c c1 _ one (SameRoutes-write c1 sess.conn buf) in
            rw (packed, send_tracked)
              (SameRoutes-if (write out c1 sess.conn buf).0 c _ _
                (SameRoutes-trans c _ _ two
                  (SameRoutes-set_session _ p (save_transaction sess1 tid t msg)))
                (SameRoutes-trans c _ _ two (keeps _)))
      ]

  pub SameRoutes-send_to :
      (p : ℕ) (build : Header → Message) (protocol t : ℕ) (msg : Bytes) (unsent : Comet S → Comet S)
      → ((c : Comet S) → SameRoutes c (unsent c))
      → (c : Comet S) → SameRoutes c (state_of (send_to out store p build protocol t msg unsent c))
  unfolding send_to
  SameRoutes-send_to p build protocol t msg unsent keeps c =
      elim (Option-cases (get_elem? c.heap p)) [
        | inl gone ↦ rw (gone, send_to) (SameRoutes-refl c)
        | inr (sess, at) ↦
            rw (at, send_to) (SameRoutes-send_tracked p sess build protocol t msg unsent keeps c)
      ]

  SameRoutes-unsent_push :
      (msg : PushRequest) (c : Comet S) → SameRoutes c (unsent_push out store msg c)
  unfolding unsent_push
  SameRoutes-unsent_push msg c = record {
    same_ids = ground arith;
    same_sessions = ground arith;
    same_heap = ground arith;
  }

  SameRoutes-unsent_callback :
      (msg : PushRequest) (c : Comet S) → SameRoutes c (unsent_callback out store msg c)
  unfolding unsent_callback
  SameRoutes-unsent_callback msg c = record {
    same_ids = ground arith;
    same_sessions = ground arith;
    same_heap = ground arith;
  }

  SameRoutes-unsent_im :
      (msg : PushRequest) (c : Comet S) → SameRoutes c (unsent_im out store msg c)
  unfolding unsent_im
  SameRoutes-unsent_im msg c = record {
    same_ids = ground arith;
    same_sessions = ground arith;
    same_heap = ground arith;
  }

  SameRoutes-routed :
      (c : Comet S) (msg : PushRequest) (connected : ℕ → Outcome (Comet S)) (absent : Comet S)
      → ((p : ℕ) → SameRoutes c (state_of (connected p)))
      → SameRoutes c absent
      → SameRoutes c (state_of (routed out store c msg connected absent))
  unfolding routed
  SameRoutes-routed c msg connected absent h k =
      elim (Option-cases (find_sessions c (session_key msg.id msg.termtype))) [
        | inl gone ↦ rw (gone, routed) k
        | inr (p, found) ↦ rw (found, routed) (h p)
      ]

  SameRoutes-push_down :
      (msg : PushRequest) (c : Comet S) → SameRoutes c (state_of (push_down out store msg c))
  unfolding push_down
  SameRoutes-push_down msg c =
      SameRoutes-routed c msg _ _
        (λ p. SameRoutes-send_to p _ _ _ _ _ (SameRoutes-unsent_push msg) c)
        (SameRoutes-unsent_push msg c)

  SameRoutes-callback_down :
      (msg : PushRequest) (c : Comet S) → SameRoutes c (state_of (callback_down out store msg c))
  unfolding callback_down
  SameRoutes-callback_down msg c =
      SameRoutes-routed c msg _ _
        (λ p. SameRoutes-send_to p _ _ _ _ _ (SameRoutes-unsent_callback msg) c)
        (SameRoutes-unsent_callback msg c)

  SameRoutes-message_down :
      (msg : PushRequest) (c : Comet S) → SameRoutes c (state_of (message_down out store msg c))
  unfolding message_down
  SameRoutes-message_down msg c =
      SameRoutes-routed c msg _ _ (λ p. SameRoutes-send_to p _ _ _ _ _ (SameRoutes-unsent_im msg) c)
        (SameRoutes-unsent_im msg c)

  pub SameRoutes-state_of_if :
      (b : Bool) (c : Comet S) (x y : Outcome (Comet S))
      → SameRoutes c (state_of x)
      → SameRoutes c (state_of y)
      → SameRoutes c (state_of (if b then x else y))
  SameRoutes-state_of_if true c x y h k = h
  SameRoutes-state_of_if false c x y h k = k

  -- No push request from the router changes which sessions the comet knows.
  pub rpc_async_handle-SameRoutes :
      (msg : PushRequest) (c : Comet S) → SameRoutes c (state_of (rpc_async_handle out store msg c))
  unfolding rpc_async_handle
  rpc_async_handle-SameRoutes msg c =
      SameRoutes-state_of_if (msg.tp == msgtype_push) c _ _ (SameRoutes-push_down msg c) (
        SameRoutes-state_of_if (msg.tp == msgtype_callback) c _ _ (SameRoutes-callback_down msg c) (
          SameRoutes-state_of_if (msg.tp == msgtype_message) c _ _ (SameRoutes-message_down msg c)
            (SameRoutes-refl c)))
