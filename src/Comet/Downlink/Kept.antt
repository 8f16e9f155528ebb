-- ===== src/Comet/Downlink/Kept.antt =====
-- No message downward is lost: pushes for Android, callbacks and instant messages that the router
-- sends to a comet end in the store, or on the wire with a transaction that remembers them.
use galopush.Prelude.{
  ℕ, Bytes, ◌==◌, if◌then◌else◌, none, some, get_elem?, ◌≡◌, ◌≢◌, ◌⊎◌, inl, inr, refl, ap, ◌∙◌,
  arith, Bool-cases,
}
use galopush.Protocol.Message.{
  Header, Message, msgtype_push, msgtype_callback, msgtype_message, plat_android,
}
use galopush.Protocol.Binary.{pack}
use galopush.Comet.Ident.{session_key}
use galopush.Comet.Session.{Session, next_tid}
use galopush.Comet.State.{OfflineStore, Outside, Comet, Outcome, finished, find_sessions}
use galopush.Comet.Downlink.{
  PushRequest, header_for, protocol_of, push_message, callback_message, im_message, web_connected,
  send_tracked, send_to, routed, unsent_push, unsent_callback, unsent_im, push_down, callback_down,
  message_down, rpc_async_handle,
}
use galopush.Comet.Downlink.Delivery.{
  Tracked, tracked_state, unsent_state, Tracked-tracked_state, send_tracked_good, send_tracked_bad,
}

-- The requests whose messages are worth storing: pushes for Android, callbacks and instant messages
-- for any platform but the web.
abbrev pub IsStorable : PushRequest → Type 0
IsStorable msg =
    ((msg.tp ≡ msgtype_push) × (msg.termtype ≡ plat_android))
    ⊎ (((msg.tp ≡ msgtype_callback) × (msg.termtype ≢ 8))
        ⊎ ((msg.tp ≡ msgtype_message) × (msg.termtype ≢ 8)))

module _ {S : Type 0} (out : Outside) (store : OfflineStore S) where
  -- The message that is built for a request, and how it is stored, by its type.
  abbrev pub message_for : PushRequest → Comet S → Header → Message
  message_for msg c h =
      if msg.tp == msgtype_push
      then push_message 0 (web_connected out store c msg.id) msg.msg h
      else if msg.tp == msgtype_callback
      then callback_message msg.msg h
      else im_message (web_connected out store c msg.id) msg.msg h

  abbrev pub saved_as : PushRequest → S → S
  saved_as msg s =
      if msg.tp == msgtype_push
      then store.save_push s msg.id msg.termtype msg.msg
      else if msg.tp == msgtype_callback
      then store.save_callback s msg.id msg.termtype msg.msg
      else store.save_im s msg.id msg.termtype msg.msg

  -- The user's session on the platform: there is none, or its pointer leads to one for which the
  -- message can be packed.
  pub data Situation (msg : PushRequest) (c : Comet S) : Type 0 where
    absent : find_sessions c (session_key msg.id msg.termtype) ≡ none → Situation msg c
    present :
        (p : ℕ) (sess : Session) (buf : Bytes)
        → find_sessions c (session_key msg.id msg.termtype) ≡ some p
        → get_elem? c.heap p ≡ some sess
        → pack out.pack_json
            (message_for msg c (header_for sess msg.tp (next_tid sess.tid)))
            (protocol_of msg.termtype)
          ≡ some buf
        → Situation msg c

  -- The message is in the store, or tracked on the user's session.
  abbrev pub IsKeptIn : (msg : PushRequest) (c : Comet S) → Situation msg c → Comet S → Type 0
  IsKeptIn msg c (absent gone) c1 = c1.store ≡ saved_as msg c.store
  IsKeptIn msg c (present p sess buf found at packed) c1 =
      (c1.store ≡ saved_as msg c.store) ⊎ Tracked out store c c1 p sess msg.tp msg.msg buf

  module _ (msg : PushRequest) (c : Comet S) (build : Header → Message)
      (unsent : Comet S → Comet S) where
    abbrev handle : Outcome (Comet S)
    handle =
        routed out store c msg
          (λ p. send_to out store p build (protocol_of msg.termtype) msg.tp msg.msg unsent c)
          (unsent c)

    handle-absent :
        find_sessions c (session_key msg.id msg.termtype) ≡ none → handle ≡ finished (unsent c)
    unfolding routed
    handle-absent gone = rw (gone, routed) refl

    handle-present :
        (p : ℕ) (sess : Session) (buf : Bytes)
        → find_sessions c (session_key msg.id msg.termtype) ≡ some p
        → get_elem? c.heap p ≡ some sess
        → pack out.pack_json
            (build (header_for sess msg.tp (next_tid sess.tid)))
            (protocol_of msg.termtype)
          ≡ some buf
        → ((d : Comet S) → (unsent d).store ≡ saved_as msg d.store)
        → (c1 : Comet S) × (handle ≡ finished c1)
          × ((c1.store ≡ saved_as msg c.store) ⊎ Tracked out store c c1 p sess msg.tp msg.msg buf)
    unfolding routed send_to
    handle-present p sess buf found at packed saves =
        let opened : handle
            ≡ send_tracked out store p sess build (protocol_of msg.termtype) msg.tp msg.msg unsent
                c =
          rw (found, routed) (rw (at, send_to) refl) in
        elim (Bool-cases (out.write_good sess.conn c.writes)) [
          | inl good ↦ (
            tracked_state out store c p sess msg.tp msg.msg buf,
            opened
                ∙ send_tracked_good out store p sess build (protocol_of msg.termtype) msg.tp msg.msg
                    buf unsent c packed good,
            inr (Tracked-tracked_state out store c p sess msg.tp msg.msg buf at),
          )
          | inr bad ↦ (
            unsent (unsent_state out store c p sess),
            opened
                ∙ send_tracked_bad out store p sess build (protocol_of msg.termtype) msg.tp msg.msg
                    buf unsent c packed bad,
            inl (
                saves (unsent_state out store c p sess)
                ∙ ap (saved_as msg) (unfold unsent_state in refl)),
          )
        ]

  -- A handler that is the shared one for the message of the request, and stores what is unsent.
  kept_by :
      (msg : PushRequest) (c : Comet S) (unsent : Comet S → Comet S) (h : Situation msg c)
      → rpc_async_handle out store msg c ≡ handle msg c (message_for msg c) unsent
      → ((d : Comet S) → (unsent d).store ≡ saved_as msg d.store)
      → (c1 : Comet S) × (rpc_async_handle out store msg c ≡ finished c1) × IsKeptIn msg c h c1
  kept_by msg c unsent (absent gone) same saves =
      (unsent c, same ∙ handle-absent msg c (message_for msg c) unsent gone, saves c)
  kept_by msg c unsent (present p sess buf found at packed) same saves =
      let (c1, ends, kept) =
        handle-present msg c (message_for msg c) unsent p sess buf found at packed saves in
      (c1, same ∙ ends, kept)

  -- A push for Android, or a callback or an instant message for any platform but the web, for a user
  -- who has no session there or one for which the message can be packed: the comet handles it without
  -- a panic, and it is stored as its type calls for, or it is on the wire with a transaction that
  -- remembers it.
  pub rpc_async_handle-IsKeptIn :
      (msg : PushRequest) (c : Comet S) (h : Situation msg c)
      → IsStorable msg
      → (c1 : Comet S) × (rpc_async_handle out store msg c ≡ finished c1) × IsKeptIn msg c h c1
  unfolding rpc_async_handle push_down callback_down message_down unsent_push unsent_callback
      unsent_im
  rpc_async_handle-IsKeptIn msg c h (inl (tp, plat)) =
      kept_by msg c (unsent_push out store msg) h (rw tp refl) (λ d. rw (tp, plat) refl)
  rpc_async_handle-IsKeptIn msg c h (inr (inl (tp, plat))) =
      kept_by msg c (unsent_callback out store msg) h (rw tp refl) (λ d. ground (arith, tp, plat))
  rpc_async_handle-IsKeptIn msg c h (inr (inr (tp, plat))) =
      kept_by msg c (unsent_im out store msg) h (rw tp refl) (λ d. ground (arith, tp, plat))
