-- ===== src/Router/Handler/Downward.antt =====
-- A push, a callback or an instant message, from the queue to the calls of a comet.
use galopush.Prelude.{
  ℕ, zero, suc, Bytes, codes, ◌=ₛ◌, List, [], ◌∷◌, ◌++◌, some, get_elem?, ◌≡◌, refl, ap, ◌∙◌, subst,
  All,
}
use galopush.Protocol.Message.{msgtype_push, msgtype_callback, msgtype_message}
use galopush.Rds.Defs.{Sessions, Redis}
use galopush.Rds.Store.{Storager, load, find_sessions}
use galopush.Nsq.{Base64, TopicDiscoverer, Consumers, publish, receive}
use galopush.Nsq.Transport.{IsConnected, receive-publish}
use galopush.Router.Pool.{CometEntry, find_comet}
use galopush.Router.Rpc.{RouterOutside}
use galopush.Router.Nsq.{MsgDownward, Receiver, msg_type_of, deliver, deliver_all, msg_downward}
use galopush.Router.Nsq.Calls.{AllFound, requests, deliver-requests}
use galopush.Router.Handler.{Texts, Served, on_downward, nsq_handler, on_nsq}
use galopush.Router.Handler.Answers.{topics, dispatchers}

-- The topics of messages downward and the types of their messages.
abbrev pub kinds : List (Bytes × ℕ)
kinds =
    (codes "push", msgtype_push)
    ∷ (codes "callback", msgtype_callback)
    ∷ (codes "msgDownward", msgtype_message)
    ∷ []

same_kind : (x y : Bytes × ℕ) → some x ≡ some y → x ≡ y
same_kind x y e = cc

module _ {R : Type 0} (redis : Redis R) (out : RouterOutside) (code : Base64) (texts : Texts) where
  -- A topic of a kind: its place among the topics, the case that it takes, and its type.
  abbrev Handled : Bytes → ℕ → Type 0
  Handled topic t =
      (k : ℕ) × (get_elem? topics k ≡ some topic)
      × ((b : Bytes) (s : Served R)
          → on_nsq redis out code texts topics topic b s
            ≡ on_downward redis out code texts topic b s)
      × (msg_type_of topic ≡ t)

  first : Handled (codes "push") msgtype_push
  unfolding nsq_handler msg_type_of ◌=ₛ◌
  first = (1, refl, (λ b s. refl), refl)

  second : Handled (codes "callback") msgtype_callback
  unfolding nsq_handler msg_type_of ◌=ₛ◌
  second = (2, refl, (λ b s. refl), refl)

  third : Handled (codes "msgDownward") msgtype_message
  unfolding nsq_handler msg_type_of ◌=ₛ◌
  third = (3, refl, (λ b s. refl), refl)

  kinds-Handled : (i t : ℕ) (topic : Bytes) → get_elem? kinds i ≡ some (topic, t) → Handled topic t
  kinds-Handled zero t topic at = subst (λ x. Handled x.0 x.1) (same_kind _ _ at) first
  kinds-Handled (suc zero) t topic at = subst (λ x. Handled x.0 x.1) (same_kind _ _ at) second
  kinds-Handled (suc (suc zero)) t topic at = subst (λ x. Handled x.0 x.1) (same_kind _ _ at) third
  kinds-Handled (suc (suc (suc i))) t topic at = absurd (cc)

  downward-one :
      (topic b : Bytes) (msg : MsgDownward) (receiver : Receiver) (s : Served R)
      → texts.read_downward b ≡ some msg
      → msg.receivers ≡ receiver ∷ []
      → (on_downward redis out code texts topic b s).router
        ≡ deliver redis out (msg_type_of topic) msg receiver s.router
  unfolding on_downward msg_downward deliver_all
  downward-one topic b msg receiver s reads one =
      rw (reads, on_downward)
        (ap (λ rs. deliver_all redis out (msg_type_of topic) msg rs s.router) one)

  -- For a base64 package that reads back what it wrote, consumers that all connect, and a user whom
  -- FindSessions finds, on a comet that the router knows, with pointers that lead to terminals: a
  -- message for that user that is published on one of the topics push, callback and msgDownward, as a
  -- text that reads as the message, makes the router call that comet once for each of the user's
  -- terminals whose platform is in the receiver's mask, in order, with the message type of the topic.
  pub receive-requests :
      (lib : Consumers) (i t : ℕ) (topic b : Bytes) (msg : MsgDownward) (receiver : Receiver)
      (s : Served R) (p : ℕ) (st : Storager R) (box : Sessions) (c : CometEntry)
      → All (IsConnected lib (on_nsq redis out code texts topics)) topics
      → code.decode64 (code.encode64 b) ≡ some b
      → get_elem? kinds i ≡ some (topic, t)
      → texts.read_downward b ≡ some msg
      → msg.receivers ≡ receiver ∷ []
      → find_sessions redis s.router.store receiver.uid ≡ (some p, st)
      → get_elem? st.boxes p ≡ some box
      → find_comet s.router.pool box.comet_id ≡ some c
      → AllFound st.items box.sess
      → (d : TopicDiscoverer (Served R)) × (dispatchers redis out code texts lib ≡ some d)
        × ((receive code d (publish code topic b) s).router.calls
            ≡ s.router.calls ++ requests c t msg receiver.termtype (load st.items box.sess))
  receive-requests lib i t topic b msg receiver s p st box c connected decodes kind reads one found
        stored known pointers =
      let (k, listed, takes, typed) = kinds-Handled i t topic kind in
      let (d, made, handed) =
        receive-publish lib (on_nsq redis out code texts topics) code topics k topic b s connected
          listed decodes in
      let delivered =
        deliver-requests redis out (msg_type_of topic) msg receiver s.router p st box c found stored
          known pointers in
      (
        d,
        made,
        ap (λ x. x.router.calls) (handed ∙ takes b s)
            ∙ ap (λ r. r.calls) (downward-one topic b msg receiver s reads one)
            ∙ delivered
            ∙ rw typed refl,
      )
