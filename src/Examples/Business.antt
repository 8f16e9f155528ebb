-- ===== src/Examples/Business.antt =====
-- Messages and logins from the business side at concrete values.
use galopush.Prelude.{
  ℕ, Bytes, codes, true, List, [], ◌∷◌, ◌++◌, some, ◌≡◌, refl, sym, ◌≤◌, arith, length,
  lt_of_get_elem?, ◌=ₛ◌,
}
use galopush.Prelude.Assoc.{lookup, insert}
use galopush.Rds.Defs.{Session}
use galopush.Rds.Messages.{terminals}
use galopush.Rds.Store.{load, find_sessions, copy_box, save_sessions, marshal}
use galopush.Comet.Session.{conn_string}
use galopush.Comet.Ident.{session_key}
use galopush.Comet.State.{Outcome, panicked, finished, find_id}
use galopush.Comet.Uplink.{bytes_valid_len, session_at}
use galopush.Router.Rpc.{Router, RouterOutside, Code, auth}
use galopush.Protocol.Message.{register}
use galopush.Protocol.Head.{get_msg_type, get_encode}
use galopush.Protocol.Binary.{encode_param_reg, big_endian}
use galopush.Protocol.Binary.RoundTrip.{plain_body}
use galopush.Comet.Tcp.{remain}
use galopush.Comet.Tcp.Frames.{IsSendable}
use galopush.Comet.Tcp.Stream.{pack_all}
use galopush.Comet.Receive.{receive}
use galopush.Router.Nsq.{Receiver, MsgDownward}
use galopush.Router.Login.{
  UserOnlineState, user_online_state, rounds, round, throw_out, is_exclusive, shift_down, put_end,
  add_terminal, settle, write_box, share_array,
}
use galopush.Router.Login.Boxes.{Accepts}
use galopush.Router.Login.Totality.{AtMostOne}
use galopush.Router.Login.Admission.{Suits, request_of, user_online_state-auth}
use galopush.Router.Dispatch.{sync_handle, async_handle}
use galopush.Rpc.{notify, RpcServer, call, enqueue, is_queued, Runs, start, called}
use galopush.Rpc.Order.{requests_of, replay, history, Runs-order}
use galopush.Rpc.Drain.{handle_rounds, drained, Runs-drain}
use galopush.System.{asking, receive-user_online_state}
use galopush.Examples.Data.{
  long, all_bytes, all_bytes_lem, alice_form_fits, alice, secret, redis, RedisState, alice_box,
  alice_phone, alice_form, reg_head, out, store, storage, phone, empty_comet,
}
use galopush.Examples.Router.{router, copied_once, alice_found, leaves}

-- No dial, push or publication fails.
abbrev pub router_out : RouterOutside
router_out = record { dial = λ addr n. true; push_good = λ id n. true; publish = λ msg n. true }

abbrev pub to_phones : Receiver
to_phones = record { uid = alice; termtype = 3 }

abbrev pub hello : MsgDownward
hello = record { receivers = to_phones ∷ []; flag = 1; body = codes "hello" }

-- Alice logs in on iOS, which throws the Android terminal out.
abbrev pub on_ios : UserOnlineState
on_ios = record {
  uid = alice;
  termtype = 2;
  code = codes "fresh";
  device_token = codes "apple";
  login = true;
}

redis-Accepts : Accepts redis
redis-Accepts cli id doc = refl

alone : (msg : UserOnlineState) → AtMostOne msg copied_once.items alice_box.sess
alone msg k m a b =
    let first = lt_of_get_elem? alice_box.sess k a.pointer a.listed in
    let second = lt_of_get_elem? alice_box.sess m b.pointer b.listed in omega arith

alice-Suits : (msg : UserOnlineState) → msg.uid ≡ alice → Suits redis msg (some 1) copied_once
alice-Suits msg same = (alice_box, refl, sym same, alone msg)

user_online_state-auth_example :
    (r : Router RedisState) × (user_online_state redis on_ios router ≡ finished r)
    × ((auth redis (request_of redis on_ios) r).0 ≡ Code.rpc_ret_success)
user_online_state-auth_example =
    user_online_state-auth redis on_ios router (some 1) copied_once redis-Accepts refl alice_found
      (alice-Suits on_ios refl)

-- Alice logs in on Android, and registers with the code.
abbrev pub on_android : UserOnlineState
on_android = record on_ios { termtype = 1; code = secret }

-- Her registration in plain, with a body of 66 bytes.
alice_sends : IsSendable (register reg_head (long 66) alice_form)
unfolding get_msg_type plain_body get_encode encode_param_reg big_endian all_bytes
alice_sends = (
  (refl, alice_form_fits),
  record {
    head_fits = record { line_fits = omega arith; tid_fits = omega arith };
    len_fits = omega arith;
    exact = refl;
    bytes = all_bytes_lem (encode_param_reg alice_form) refl;
    no_empty_ring = λ e. omega arith;
  },
)

receive-user_online_state_example :
    (r : Router RedisState) × (stream : Bytes) × (user_online_state redis on_android router
      ≡ finished r)
    × (pack_all (register reg_head (long 66) alice_form ∷ []) ≡ some stream)
    × (let server : RpcServer (Router RedisState) = record {
      state = r;
      data_chan = notify leaves ∷ [];
      cache = 4;
    } in
        let c =
          receive
            (asking redis router_out server out)
            store
            3
            phone
            (remain stream [])
            empty_comet in
        (find_id c (conn_string phone) ≡ session_key alice 1) × (session_at phone c ≡ some 0))
unfolding bytes_valid_len find_id lookup
receive-user_online_state_example =
    receive-user_online_state redis router_out out store on_android router (some 1) copied_once
      phone reg_head (long 66) alice_form empty_comet (notify leaves ∷ []) 4 2 redis-Accepts refl
      alice_found (alice-Suits on_android refl) alice_sends refl refl refl refl

abbrev idle_server : RpcServer (Router RedisState)
idle_server = record { state = router; data_chan = []; cache = 4 }

abbrev busy_server : RpcServer (Router RedisState)
busy_server = record idle_server { data_chan = notify leaves ∷ [] }

-- The server takes a notification.
one_call :
    Runs
      (sync_handle redis router_out)
      (async_handle redis router_out)
      idle_server
      (notify leaves ∷ [])
      []
      busy_server
unfolding call enqueue is_queued
one_call = called (notify leaves) Code.rpc_ret_success busy_server start refl

Runs-order_example :
    (requests_of (history (sync_handle redis router_out) (async_handle redis router_out) one_call)
      ≡ [])
    × (router
        ≡ replay
            (sync_handle redis router_out)
            (async_handle redis router_out)
            (history (sync_handle redis router_out) (async_handle redis router_out) one_call)
            router)
    × ([] ++ busy_server.data_chan ≡ idle_server.data_chan ++ (notify leaves ∷ []))
    × (length busy_server.data_chan ≤ busy_server.cache)
Runs-order_example =
    Runs-order (sync_handle redis router_out) (async_handle redis router_out) (omega arith) one_call

Runs-drain_example :
    (handle_rounds (sync_handle redis router_out) (async_handle redis router_out) 1 busy_server
      ≡ some (drained (sync_handle redis router_out) (async_handle redis router_out) busy_server))
    × Runs
        (sync_handle redis router_out)
        (async_handle redis router_out)
        idle_server
        (notify leaves ∷ [])
        ([] ++ (notify leaves ∷ []))
        (drained (sync_handle redis router_out) (async_handle redis router_out) busy_server)
Runs-drain_example =
    Runs-drain (sync_handle redis router_out) (async_handle redis router_out) idle_server
      busy_server (notify leaves ∷ []) [] one_call

-- The router that a handler leaves.
unfoldable routed_to : Outcome (Router RedisState) → Router RedisState
routed_to (finished r) = r
routed_to (panicked r) = r

-- Alice on iOS, on Android and on the web, in that order: the login on Android cuts the first terminal
-- out and passes the second one over, so she has two on Android, the first with the old code.
abbrev pub alice_tablet : Session
alice_tablet = record alice_phone { plat = 2 }

abbrev pub three_terminals : Router RedisState
three_terminals = record router {
  store = record storage {
    boxes = record alice_box { sess = 0 ∷ 1 ∷ 2 ∷ [] } ∷ [];
    items = alice_tablet ∷ alice_phone ∷ record alice_phone { plat = 8 } ∷ [];
  };
}

abbrev pub again : UserOnlineState
again = record on_android { code = codes "fresh" }

-- The platform and the code of every terminal in the box that the cache leads to.
unfoldable codes_of : List Session → List (ℕ × Bytes)
codes_of [] = []
codes_of (it ∷ rest) = (it.plat, it.auth_code) ∷ codes_of rest

cut_passes_over :
    let r = routed_to (user_online_state redis again three_terminals) in
    codes_of (load r.store.items (terminals r.store 1))
    ≡ (1, secret) ∷ (8, secret) ∷ (1, codes "fresh") ∷ []
unfolding codes_of routed_to load terminals user_online_state rounds round throw_out is_exclusive
    shift_down put_end add_terminal settle write_box share_array find_sessions copy_box
    save_sessions marshal lookup ◌=ₛ◌ insert
cut_passes_over = refl
