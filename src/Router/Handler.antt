-- ===== src/Router/Handler.antt =====
-- NsqHandler of router/procNsq.go: which message a topic brings, and what is done with it. The JSON
-- texts of the structures of router/nsqMsgDef.go are read and written by parameters.
pub mod Answers
pub mod Downward
use galopush.Prelude.{
  ℕ, Bytes, Bool, ◌||◌, ◌=ₛ◌, if◌then◌else◌, List, [], ◌∷◌, ◌++◌, Option, none, some, get_elem?,
}
use galopush.Rds.Defs.{Redis}
use galopush.Comet.State.{Outcome, finished, panicked, state_of}
use galopush.Nsq.{Base64, Queued, publish}
use galopush.Router.Rpc.{Router, RouterOutside}
use galopush.Router.Nsq.{MsgDownward, SessionTimeout, session_timeout, msg_downward}
use galopush.Router.Login.{UserOnlineState, user_online_state}

-- json.Unmarshal and json.Marshal at the structures of the queue.
pub record Texts : Type 0 where
  pub read_state : Bytes → Option UserOnlineState
  pub read_downward : Bytes → Option MsgDownward
  pub read_timeout : Bytes → Option SessionTimeout
  pub write_timeout : SessionTimeout → Bytes

-- The router, and what its producer was called with.
pub record Served (R : Type 0) : Type 0 where
  pub router : Router R
  pub queue : List Queued

-- `case p.topics[i]:`, which panics if there is no such topic.
abbrev pub is_topic : List Bytes → ℕ → Bytes → Option Bool
is_topic topics i topic = elim (get_elem? topics i) [ none ↦ none | some t ↦ some (topic =ₛ t) ]

module _ {R : Type 0} (redis : Redis R) (out : RouterOutside) (code : Base64) (texts : Texts) where
  -- The case of topics[4]: the error of Publish is only logged.
  unfoldable pub on_timeout : Bytes → Served R → Served R
  on_timeout b s = elim (texts.read_timeout b) [
    | none ↦ s
    | some msg ↦
        let (answer, r) = session_timeout redis msg s.router in
        record {
          router = r;
          queue = s.queue ++ (publish code answer.0 (texts.write_timeout answer.1) ∷ []);
        }
  ]

  abbrev pub with_outcome : Served R → Outcome (Router R) → Outcome (Served R)
  with_outcome s (finished r) = finished (record s { router = r })
  with_outcome s (panicked r) = panicked (record s { router = r })

  -- The case of topics[0]
  unfoldable pub on_state : Bytes → Served R → Outcome (Served R)
  on_state b s = elim (texts.read_state b) [
    | none ↦ finished s
    | some msg ↦ with_outcome s (user_online_state redis msg s.router)
  ]

  -- The case of topics[1], topics[2] and topics[3]
  unfoldable pub on_downward : Bytes → Bytes → Served R → Served R
  on_downward topic b s = elim (texts.read_downward b) [
    | none ↦ s
    | some msg ↦ record s { router = msg_downward redis out topic msg s.router }
  ]

  -- One case of the switch, and what comes after it.
  abbrev pub case_of :
      Option Bool → Outcome (Served R) → Outcome (Served R) → Served R → Outcome (Served R)
  case_of none this later s = panicked s
  case_of (some b) this later s = if b then this else later

  -- The switch, its cases in the order in which Go tries them.
  unfoldable pub nsq_handler : List Bytes → Bytes → Bytes → Served R → Outcome (Served R)
  unfolding on_timeout on_state on_downward
  nsq_handler topics topic b s =
      let downward = finished (on_downward topic b s) in
      case_of (is_topic topics 4 topic) (finished (on_timeout b s))
        (case_of (is_topic topics 0 topic) (on_state b s)
          (case_of (is_topic topics 1 topic) downward
            (case_of (is_topic topics 2 topic) downward
              (case_of (is_topic topics 3 topic) downward (finished s) s) s)
            s)
          s)
        s

  -- The same with `defer recover`, as the handler of a dispatcher.
  abbrev pub on_nsq : List Bytes → Bytes → Bytes → Served R → Served R
  on_nsq topics topic b s = state_of (nsq_handler topics topic b s)
