-- ===== src/Examples/Apple.antt =====
-- Pushes for Alice's iOS terminal, which is not connected.
use galopush.Prelude.{
  ℕ, zero, suc, codes, [], ◌++◌, none, some, ◌≡◌, ◌↔◌, ◌⊎◌, ◌=ₛ◌, if◌then◌else◌, refl, arith,
}
use galopush.Prelude.Int.{pos}
use galopush.Prelude.Assoc.{lookup}
use galopush.Protocol.Json.{num, str, Fields, end, field, JsonLib, value_at}
use galopush.Rds.Store.{Storager}
use galopush.Comet.Ident.{session_key, decimal, decimal_rounds}
use galopush.Comet.State.{Comet, ApnsRequest, finished, find_sessions}
use galopush.Comet.Downlink.{PushRequest, rpc_async_handle}
use galopush.Comet.Apns.{
  Notification, Client, Reply, status, refused, crashed, nil, compose, apns_push, apple_calls,
}
use galopush.Comet.Apns.Laws.{
  tries, last_reply, apns_push-nil_iff, apns_push_soundless, rpc_async_handle-apple_calls,
}
use galopush.Examples.Data.{alice, RedisState, store, out, twice}

-- Bob writes to Alice alone.
abbrev talk : Fields
talk = field (codes "MSG00101") (str (codes "17")) (
    field (codes "MSG00103") (str (codes "Bob"))
      (field (codes "MSG00107") (num (pos 1)) (field (codes "MSG00109") (str (codes "hi")) end)))

-- A JSON package that reads one text.
abbrev json : JsonLib
json = record {
  marshal = λ m. [];
  unmarshal = λ b. if b =ₛ codes "talk" then some talk else none;
  encode64 = λ b. b;
  decode64 = λ b. some b;
}

-- A service that refuses the first call and takes the second.
abbrev second_reply : ℕ → Reply
second_reply zero = refused
second_reply (suc n) = status 200

abbrev service : Client
service n note = second_reply n

abbrev push : ℕ → PushRequest
push flag = record {
  tp = 5;
  flag = flag;
  id = alice;
  termtype = 2;
  apple_token = codes "token";
  msg = codes "talk";
}

abbrev call_of : ℕ → ApnsRequest
call_of flag = record { id = alice; token = codes "token"; body = codes "talk"; flag = flag }

abbrev note : Notification
note = compose (codes "token") (codes "chatnotify.mp3") talk

note_text : (note.alert_title ≡ codes "Bob") × (note.alert_body ≡ codes "hi")
unfolding compose value_at ◌=ₛ◌
note_text = (refl, refl)

apns_push-nil_iff_example :
    ((apns_push json (some service) (call_of 1)).pushed ≡ tries service note)
    × (((apns_push json (some service) (call_of 1)).end ≡ nil)
        ↔ ((last_reply service note ≡ status 200) ⊎ (last_reply service note ≡ crashed)))
unfolding ◌=ₛ◌
apns_push-nil_iff_example =
    apns_push-nil_iff json service (call_of 1) talk (codes "chatnotify.mp3") refl refl

apns_push_soundless_example :
    apns_push json (some service) (call_of 3) ≡ record { end = nil; pushed = [] }
unfolding ◌=ₛ◌
apns_push_soundless_example =
    apns_push_soundless json (some service) (call_of 3) talk refl (omega arith)

rpc_async_handle-apple_calls_example :
    (c1 : Comet (Storager RedisState)) × (rpc_async_handle out store (push 1) twice ≡ finished c1)
    × (apple_calls json (some service) c1.apns
        ≡ apple_calls json (some service) [] ++ tries service note)
unfolding ◌=ₛ◌ find_sessions lookup session_key decimal decimal_rounds
rpc_async_handle-apple_calls_example =
    rpc_async_handle-apple_calls out store json service (push 1) talk (codes "chatnotify.mp3") twice
      refl refl refl refl refl
