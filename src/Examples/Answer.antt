-- ===== src/Examples/Answer.antt =====
-- Messages to terminals and their answers, on a comet that Alice uses.
use galopush.Prelude.{
  ℕ, Bytes, codes, Bool, true, [], ◌∷◌, ◌++◌, some, get_elem?, ◌≡◌, ◌=ₛ◌, refl, inl, inr, arith,
}
use galopush.Prelude.Assoc.{lookup}
use galopush.Rds.Store.{Storager}
use galopush.Comet.Ident.{session_key, decimal, decimal_rounds}
use galopush.Comet.Session.{conn_string, next_tid}
use galopush.Comet.State.{Comet, finished, find_id}
use galopush.Comet.Downlink.{callback_down, rpc_async_handle}
use galopush.Comet.Downlink.Kept.{Situation, present, IsKeptIn, rpc_async_handle-IsKeptIn}
use galopush.Comet.Tcp.{remain}
use galopush.Comet.Receive.{receive}
use galopush.Ua.Android as Android
use galopush.Ua.Android.{Client}
use galopush.Ua.Android.Reading.{protocol}
use galopush.System.Answer.{IsSound, callback_down-answered}
use galopush.Examples.Data.{alice, RedisState, store, out, new_phone, twice, alice_on}
use galopush.Examples.Uplink.{request, request_ready}

abbrev terminal : Client
terminal = record { tid = 1; writes = 1; sent = []; pings = 1 }

abbrev writes : ℕ → Bool
writes n = true

hi-IsSound : IsSound (codes "hi") (alice_on new_phone 3)
hi-IsSound = record {
  bytes = (omega arith, (omega arith, tt));
  fits = omega arith;
  encodable = omega arith;
  no_empty_ring = λ e. omega arith;
  unused = tt;
}

hi_route : find_id twice (conn_string new_phone) ≡ session_key alice 1
unfolding find_id lookup ◌=ₛ◌ session_key decimal decimal_rounds
hi_route = refl

callback_down-answered_example :
    (c1 : Comet (Storager RedisState)) × (reply : Bytes) × (c2 : Comet (Storager RedisState))
    × (callback_down out store (request (codes "hi")) twice ≡ finished c1)
    × (c1.sent ≡ twice.sent ++ ((new_phone, request_ready.buf) ∷ []))
    × (Android.serve protocol writes 4 (remain (request_ready.buf ++ codes "more") []) terminal
        ≡ Android.serve protocol writes 3
            (remain (codes "more") [])
            (record terminal { writes = 2; sent = reply ∷ [] }))
    × (receive out store 3 new_phone (remain (reply ++ []) []) c1
        ≡ receive out store 2 new_phone (remain [] []) c2)
    × (get_elem? c2.heap 1 ≡ some (record (alice_on new_phone 3) { tid = next_tid 3 }))
unfolding request_ready
callback_down-answered_example =
    callback_down-answered out store (request (codes "hi")) twice request_ready writes terminal
      (codes "more") [] [] [] 3 2 (λ e. omega arith) hi-IsSound refl hi_route refl

hi_situation : Situation out store (request (codes "hi")) twice
hi_situation =
    present request_ready.ptr request_ready.sess request_ready.buf request_ready.found
      request_ready.at request_ready.packed

rpc_async_handle-IsKeptIn_example :
    (c1 : Comet (Storager RedisState)) × (rpc_async_handle out store (request (codes "hi")) twice
      ≡ finished c1)
    × IsKeptIn out store (request (codes "hi")) twice hi_situation c1
rpc_async_handle-IsKeptIn_example =
    rpc_async_handle-IsKeptIn out store (request (codes "hi")) twice hi_situation
      (inr (inl (refl, (λ e. omega arith))))
