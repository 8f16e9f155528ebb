-- ===== src/Rpc/Watch.antt =====
-- The watch over one connection: the client of internal/rpc/client.go with its status channel, the
-- goroutines of StartPing and the status that a reconnection is about to send, and the loop of
-- checkRpc, which the router (router/procRpc.go) and the comet (comet/comet.go) both have. What the
-- loop does beyond the client, when a connection stands and when there is none any more, are the
-- parameters `on_up` and `on_end`. Dials succeed or fail as they like.
pub mod Progress
use galopush.Prelude.{
  ℕ, zero, suc, Bool, true, false, ltb, if◌then◌else◌, List, [], ◌∷◌, ◌++◌, Option, none, some,
  length, ◌≡◌,
}

-- What goes through the status channel: 1 and 0.
pub data Status : Type 0 where
  is_up is_down : Status

pub record Watch (W : Type 0) : Type 0 where
  pub world : W
  pub status : List Status
  pub pingers : ℕ
  pub sending : Bool
  pub looping : Bool

-- `make(chan int, 1)`
abbrev pub room : ℕ
room = 1

module _ {W : Type 0} where
  -- After NewRpcClient and checkRpc: the first status is in the channel.
  abbrev pub started : W → Watch W
  started world = record {
    world = world;
    status = is_up ∷ [];
    pingers = 0;
    sending = false;
    looping = true;
  }

  -- StartPing
  abbrev pub start_ping : Watch W → Watch W
  start_ping w = record w { pingers = suc w.pingers }

  -- A ping that fails: the goroutine sends 0, once there is room, and ends.
  unfoldable pub ping_fails : Watch W → Option (Watch W)
  ping_fails w = elim w.pingers [
    | zero ↦ none
    | suc n ↦
        if ltb (length w.status) room
        then some (record w { pingers = n; status = w.status ++ (is_down ∷ []) })
        else none
  ]

  -- ReConnect sends 1, once there is room.
  unfoldable pub send_up : Watch W → Option (Watch W)
  send_up w =
      if w.sending
      then (if ltb (length w.status) room
          then some (record w { sending = false; status = w.status ++ (is_up ∷ []) })
          else none)
      else none

module _ {W : Type 0} (on_up on_end : W → W) where
  -- ReConnect up to the status that it sends; without a connection the loop ends.
  abbrev pub re_connect : Bool → Watch W → Watch W
  re_connect true w = record w { sending = true }
  re_connect false w = record w { world = on_end w.world; looping = false }

  -- A round of the loop, which waits while the channel is empty.
  unfoldable pub check_rpc : Bool → Watch W → Option (Watch W)
  check_rpc dials w =
      if w.looping
      then (if w.sending then none else elim w.status [
        | [] ↦ none
        | is_up ∷ rest ↦ some (start_ping (record w { world = on_up w.world; status = rest }))
        | is_down ∷ rest ↦ some (re_connect dials (record w { status = rest }))
      ])
      else none

  -- What may happen to a connection, in any order.
  pub data Steps (s : Watch W) : Watch W → Type 0 where
    here : Steps s s
    round :
        {t : Watch W} (dials : Bool) (u : Watch W)
        → Steps s t
        → check_rpc dials t ≡ some u
        → Steps s u
    lost : {t : Watch W} (u : Watch W) → Steps s t → ping_fails t ≡ some u → Steps s u
    sent : {t : Watch W} (u : Watch W) → Steps s t → send_up t ≡ some u → Steps s u
