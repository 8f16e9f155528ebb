-- ===== src/Router/Nsq.antt =====
-- router/procNsq.go: messages from the business side to the terminals of their receivers, and
-- questions whether a terminal is online. The JSON texts of NSQ are read before the handlers begin.
pub mod Terminals
pub mod Calls
use galopush.Prelude.{
  ℕ, zero, suc, ◌+◌, Bytes, codes, Bool, true, false, ◌==◌, ◌=ₛ◌, ltb, bit_and, if◌then◌else◌, List,
  [], ◌∷◌, ◌++◌, Option, none, some, length, get_elem?,
}
use galopush.Protocol.Message.{plat_web, msgtype_push, msgtype_callback, msgtype_message}
use galopush.Rds.Defs.{Session, Sessions, Redis}
use galopush.Rds.Store.{Storager, find_sessions, save_sessions}
use galopush.Rds.Messages.{with_box, save_push_msg, save_callback_msg, save_im_msg, session_online}
use galopush.Comet.Downlink.{PushRequest}
use galopush.Router.Pool.{CometEntry, Pool, find_comet}
use galopush.Router.Rpc.{Router, RouterOutside, Call, pushed, kicked, with_store}

-- The structures of router/nsqMsgDef.go.
pub record Receiver : Type 0 where
  pub uid : Bytes
  pub termtype : ℕ

pub record MsgDownward : Type 0 where
  pub receivers : List Receiver
  pub flag : ℕ
  pub body : Bytes

pub record NsqSession : Type 0 where
  pub termtype : ℕ
  pub uid : Bytes
  pub session_id : Bytes
  pub flag : ℕ

pub record SessionTimeout : Type 0 where
  pub back_topic : Bytes
  pub key : Bytes
  pub sess : NsqSession

-- The message type of a topic, 0 for a topic of another name.
unfoldable pub msg_type_of : Bytes → ℕ
msg_type_of topic =
    if topic =ₛ codes "push"
    then msgtype_push
    else if topic =ₛ codes "callback"
    then msgtype_callback
    else if topic =ₛ codes "msgDownward"
    then msgtype_message
    else 0

-- `it.Plat&receiver.Termtype > 0`
unfoldable pub is_selected : ℕ → Session → Bool
is_selected mask it = ltb 0 (bit_and it.plat mask)

-- The request that a terminal is pushed with.
abbrev pub push_request : ℕ → MsgDownward → Session → PushRequest
push_request msg_type msg it = record {
  tp = msg_type;
  flag = msg.flag;
  id = it.id;
  termtype = it.plat;
  apple_token = it.ios_token;
  msg = msg.body;
}

module _ {R : Type 0} (redis : Redis R) where
  -- SaveOfflineMsg
  unfoldable pub save_offline_msg : Storager R → ℕ → Bytes → ℕ → Bytes → Storager R
  save_offline_msg st msg_type id plat msg =
      if msg_type == msgtype_push
      then save_push_msg redis st id plat msg
      else if msg_type == msgtype_callback
      then save_callback_msg redis st id plat msg
      else if msg_type == msgtype_message
      then save_im_msg redis st id plat msg
      else st

  -- The loop for a user whose comet is gone: every selected terminal's message is stored.
  unfoldable pub store_terminals : ℕ → MsgDownward → ℕ → List ℕ → Storager R → Storager R
  store_terminals msg_type msg mask [] st = st
  store_terminals msg_type msg mask (i ∷ is) st =
      store_terminals msg_type msg mask is (elim (get_elem? st.items i) [
        | none ↦ st
        | some it ↦
            if is_selected mask it then save_offline_msg st msg_type it.id it.plat msg.body else st
      ])

  -- SessionTimeout: the flag says whether the terminal is online, and the message goes back.
  unfoldable pub session_timeout : SessionTimeout → Router R → (Bytes × SessionTimeout) × Router R
  session_timeout msg r =
      let (online, st) = session_online redis r.store msg.sess.uid msg.sess.termtype in
      let flag = if online then 1 else msg.sess.flag in
      (
        (msg.back_topic, record msg { sess = record msg.sess { flag = flag } }),
        with_store redis r st,
      )

  module _ (out : RouterOutside) where
    -- A push to one terminal over its comet; what the comet does not take is stored, but not for the
    -- web.
    unfoldable pub push_terminal : CometEntry → ℕ → MsgDownward → Session → Router R → Router R
    push_terminal c msg_type msg it r =
        let good = out.push_good c.id (length r.calls) in
        let r1 : Router R = record r {
          calls = r.calls ++ (pushed c.id (push_request msg_type msg it) ∷ []);
        } in
        if good
        then r1
        else if it.plat == plat_web
        then r1
        else with_store redis r1 (save_offline_msg r1.store msg_type it.id it.plat msg.body)

    unfoldable pub push_selected : CometEntry → ℕ → MsgDownward → ℕ → ℕ → Router R → Router R
    push_selected c msg_type msg mask i r = elim (get_elem? r.store.items i) [
      | none ↦ r
      | some it ↦ if is_selected mask it then push_terminal c msg_type msg it r else r
    ]

    unfoldable pub push_terminals : CometEntry → ℕ → MsgDownward → ℕ → List ℕ → Router R → Router R
    unfolding push_selected
    push_terminals c msg_type msg mask [] r = r
    push_terminals c msg_type msg mask (i ∷ is) r =
        push_terminals c msg_type msg mask is (push_selected c msg_type msg mask i r)

    -- One receiver: an unknown user is passed over.
    unfoldable pub deliver : ℕ → MsgDownward → Receiver → Router R → Router R
    unfolding push_terminals
    deliver msg_type msg receiver r =
        with_box (find_sessions redis r.store receiver.uid) (with_store redis r) (λ st p.
          elim (get_elem? st.boxes p) [
            | none ↦ with_store redis r st
            | some s ↦ elim (find_comet r.pool s.comet_id) [
              | none ↦ with_store redis r (store_terminals msg_type msg receiver.termtype s.sess st)
              | some c ↦
                  push_terminals c msg_type msg receiver.termtype s.sess (with_store redis r st)
            ]
          ])

    -- NsqHandler, a message downward on a topic
    unfoldable pub deliver_all : ℕ → MsgDownward → List Receiver → Router R → Router R
    deliver_all msg_type msg [] r = r
    deliver_all msg_type msg (receiver ∷ rest) r =
        deliver_all msg_type msg rest (deliver msg_type msg receiver r)

    unfoldable pub msg_downward : Bytes → MsgDownward → Router R → Router R
    unfolding deliver_all
    msg_downward topic msg r = deliver_all (msg_type_of topic) msg msg.receivers r
