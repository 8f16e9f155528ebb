-- ===== src/Examples/Uplink.antt =====
-- What becomes of messages, registrations and connections, on a comet that Alice uses.
use galopush.Prelude.{◌≡◌, inl, refl, Bytes, codes, ◌=ₛ◌, [], none, some, get_elem?, ◌∙◌, arith}
use galopush.Prelude.Assoc.{lookup}
use galopush.Rds.Store.{Storager}
use galopush.Comet.Ident.{session_key, decimal, decimal_rounds}
use galopush.Comet.Session.{conn_string, next_tid}
use galopush.Comet.State.{Comet, panicked, state_of, find_id, find_sessions}
use galopush.Comet.Downlink.{PushRequest, header_for, callback_message, callback_down}
use galopush.Comet.Downlink.Delivery.{header_for_lem, Ready, callback_down_lost}
use galopush.Protocol.Binary.RoundTrip.{pack_binary-Frame, pack-binary, plain_body}
use galopush.Comet.Routes.{SameRoutes, IsPooled}
use galopush.Comet.Uplink.{proc_register, session_at, valid_bytes, proc_unregister}
use galopush.Comet.Uplink.Registration.{proc_register-session_at, proc_register-SameRoutes}
use galopush.Comet.Uplink.Removal.{proc_unregister-session_at, proc_unregister_newer}
use galopush.Examples.Data.{
  alice, RedisState, store, out, strict, phone, new_phone, empty_comet, twice, alice_on, alice_key,
  alice_form, reg_head,
}

proc_register-session_at_example :
    (find_id
        (state_of (proc_register out store phone reg_head alice_form empty_comet))
        (conn_string phone)
      ≡ session_key (valid_bytes alice_form.id) 1)
    × (session_at phone (state_of (proc_register out store phone reg_head alice_form empty_comet))
        ≡ some 0)
unfolding find_id lookup
proc_register-session_at_example =
    proc_register-session_at out store phone reg_head alice_form empty_comet refl refl

proc_register-SameRoutes_example :
    SameRoutes empty_comet
      (state_of (proc_register strict store phone reg_head alice_form empty_comet))
proc_register-SameRoutes_example =
    proc_register-SameRoutes strict store phone reg_head alice_form empty_comet (inl refl)

twice-IsPooled : IsPooled twice
unfolding lookup
twice-IsPooled k p h = ground (arith, h)

proc_unregister-session_at_example : session_at phone (proc_unregister out phone twice) ≡ none
proc_unregister-session_at_example = proc_unregister-session_at out phone twice twice-IsPooled

proc_unregister_newer_example :
    (session_at new_phone twice ≡ some 1)
    × (find_id (proc_unregister out phone twice) (conn_string new_phone) ≡ alice_key)
    × (session_at new_phone (proc_unregister out phone twice) ≡ none)
unfolding find_id session_at find_sessions lookup ◌=ₛ◌ session_key decimal decimal_rounds
proc_unregister_newer_example =
    proc_unregister_newer out phone new_phone alice_key 1 (alice_on new_phone 3) twice
      (λ e. ground (arith, e)) refl refl refl refl

-- A callback to Alice's second connection, and an empty one.
abbrev pub request : Bytes → PushRequest
request msg = record { tp = 7; flag = 0; id = alice; termtype = 1; apple_token = []; msg = msg }

pub request_found : find_sessions twice alice_key ≡ some 1
unfolding find_sessions lookup ◌=ₛ◌ session_key decimal decimal_rounds
request_found = refl

unfoldable pub request_ready : Ready out store (request (codes "hi")) twice
unfolding plain_body
request_ready =
    let msg = codes "hi" in
    let h = header_for (alice_on new_phone 3) 7 (next_tid 3) in
    let lem = header_for_lem (alice_on new_phone 3) 7 (next_tid 3) (omega arith) (omega arith) in
    let (frame, packs, _) = pack_binary-Frame (callback_message msg h) tt (record {
      head_fits = lem.2;
      len_fits = omega arith;
      exact = refl;
      bytes = (omega arith, (omega arith, tt));
      no_empty_ring = λ e. omega arith;
    }) in
    record {
      ptr = 1;
      sess = alice_on new_phone 3;
      buf = frame;
      found = request_found;
      at = refl;
      packed = pack-binary out.pack_json (callback_message msg h) ∙ packs;
    }

callback_down_lost_example :
    (c' : Comet (Storager RedisState)) × (callback_down out store (request []) twice ≡ panicked c')
    × (c'.sent ≡ twice.sent)
    × (c'.store ≡ twice.store)
    × (get_elem? c'.heap 1 ≡ some (record (alice_on new_phone 3) { tid = next_tid 3 }))
callback_down_lost_example =
    callback_down_lost out store (request []) twice 1 (alice_on new_phone 3) request_found refl
      (λ e. omega arith) refl refl
