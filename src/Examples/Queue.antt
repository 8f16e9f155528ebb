-- ===== src/Examples/Queue.antt =====
-- The queue, the router's handler and the exit of a comet at concrete values.
use galopush.Prelude.{
  codes, Bool, true, List, [], ◌∷◌, ◌++◌, none, some, ◌≡◌, ◌↔◌, ◌=ₛ◌, if◌then◌else◌, refl, All,
  length,
}
use galopush.Prelude.Assoc.{lookup, insert}
use galopush.Rds.Store.{load, find_sessions, copy_box, save_sessions, marshal}
use galopush.Rds.Messages.{change_item, terminals}
use galopush.Comet.State.{state_of}
use galopush.Nsq.{Base64, Consumers, TopicDiscoverer, publish, receive}
use galopush.Nsq.Transport.{IsConnected}
use galopush.Router.Rpc.{Call}
use galopush.Router.Nsq.{SessionTimeout}
use galopush.Router.Nsq.Calls.{requests}
use galopush.Router.Login.{
  user_online_state, rounds, round, throw_out, is_exclusive, shift_down, put_end, add_terminal,
  settle, write_box, share_array,
}
use galopush.Router.Handler.{Texts, Served, on_nsq}
use galopush.Router.Handler.Answers.{OnlineAt, answer_of, topics, dispatchers, receive-timeout}
use galopush.Router.Handler.Downward.{receive-requests}
use galopush.System.Notice.{pushes, handle_pushes, user_online_state-handle_pushes}
use galopush.Examples.Data.{alice, redis, RedisState, alice_box, alice_phone, out, store, twice}
use galopush.Examples.Router.{router, comet, copied_once, alice_found}
use galopush.Examples.Business.{router_out, hello, to_phones, on_ios, three_terminals}

-- A base64 that writes every text as it is, and consumers that all connect.
abbrev plain : Base64
plain = record { encode64 = λ b. b; decode64 = λ b. some b }

abbrev ready : Consumers
ready = record { made = λ t. true; connected = λ t. true }

-- Is Alice on her phone?
abbrev question : SessionTimeout
question = record {
  back_topic = codes "back";
  key = codes "k";
  sess = record { termtype = 1; uid = alice; session_id = codes "s"; flag = 0 };
}

-- Texts that read as that question and that message.
abbrev texts : Texts
texts = record {
  read_state = λ b. none;
  read_downward = λ b. if b =ₛ codes "hello" then some hello else none;
  read_timeout = λ b. if b =ₛ codes "question" then some question else none;
  write_timeout = λ m. codes "answer";
}

abbrev served : Served RedisState
served = record { router = router; queue = [] }

topics-IsConnected : All (IsConnected ready (on_nsq redis router_out plain texts topics)) topics
topics-IsConnected = (refl, (refl, (refl, (refl, (refl, tt)))))

receive-timeout_example :
    (d : TopicDiscoverer (Served RedisState)) × (online : Bool) × (dispatchers redis router_out
        plain texts ready
      ≡ some d)
    × ((online ≡ true) ↔ OnlineAt copied_once.items 1 (terminals copied_once 1))
    × ((receive plain d (publish plain (codes "sessionTimeout") (codes "question")) served).queue
        ≡ []
          ++ (publish plain (codes "back") (texts.write_timeout (answer_of question online)) ∷ []))
unfolding ◌=ₛ◌
receive-timeout_example =
    receive-timeout redis router_out plain texts ready question (codes "question") served 1
      copied_once topics-IsConnected refl refl alice_found

receive-requests_example :
    (d : TopicDiscoverer (Served RedisState)) × (dispatchers redis router_out plain texts ready
      ≡ some d)
    × ((receive plain d (publish plain (codes "callback") (codes "hello")) served).router.calls
        ≡ [] ++ requests (comet (codes "c1") 7) 7 hello 3 (load copied_once.items (0 ∷ [])))
unfolding ◌=ₛ◌ lookup
receive-requests_example =
    receive-requests redis router_out plain texts ready 1 7 (codes "callback") (codes "hello") hello
      to_phones served 1 copied_once alice_box (comet (codes "c1") 7) topics-IsConnected refl refl
      refl refl alice_found refl refl ((alice_phone, refl), tt)

-- Alice on iOS is thrown out by a second login there: one notice is pushed.
one_notice : length (pushes (state_of (user_online_state redis on_ios three_terminals)).calls) ≡ 1
unfolding user_online_state rounds round throw_out is_exclusive shift_down put_end add_terminal
    settle write_box share_array find_sessions copy_box save_sessions marshal lookup ◌=ₛ◌ insert
    change_item
one_notice = refl

user_online_state-handle_pushes_example :
    (new : List Call) × ((state_of (user_online_state redis on_ios three_terminals)).calls
      ≡ [] ++ new)
    × (handle_pushes out store (pushes new) twice ≡ twice)
user_online_state-handle_pushes_example =
    user_online_state-handle_pushes redis out store on_ios three_terminals twice
