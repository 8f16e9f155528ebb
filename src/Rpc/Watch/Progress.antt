-- ===== src/Rpc/Watch/Progress.antt =====
-- The loop of checkRpc and its client hold one status between them: nobody waits for room in the
-- channel, and the loop always finds its way back to a connection that is pinged.
use galopush.Prelude.{
  ℕ, zero, suc, ◌+◌, Bool, true, false, if◌then◌else◌, List, [], ◌∷◌, some, length, ◌≡◌, refl, sym,
  ap, ◌∙◌, subst, arith, length-append,
}
use galopush.Rpc.Watch.{
  Status, is_up, is_down, Watch, started, check_rpc, ping_fails, send_up, Steps, here, round, lost,
  sent,
}

module _ {W : Type 0} where
  -- While the loop runs, one of these is there: a status in the channel, a goroutine that pings, or a
  -- status about to be sent; and nothing once it has ended.
  abbrev pub IsBalanced : Watch W → Type 0
  IsBalanced w =
      length w.status + w.pingers + (if w.sending then 1 else 0) ≡ (if w.looping then 1 else 0)

  -- A connection that is pinged, with nothing else under way.
  abbrev pub IsPinged : Watch W → Type 0
  IsPinged w = (w.pingers ≡ 1) × (w.status ≡ []) × (w.sending ≡ false)

  ping_fails-IsBalanced : (w u : Watch W) → IsBalanced w → ping_fails w ≡ some u → IsBalanced u
  unfolding ping_fails
  ping_fails-IsBalanced w u h e = ground (arith, e, h, length-append w.status (is_down ∷ []))

  send_up-IsBalanced : (w u : Watch W) → IsBalanced w → send_up w ≡ some u → IsBalanced u
  unfolding send_up
  send_up-IsBalanced w u h e = ground (arith, e, h, length-append w.status (is_up ∷ []))

  abbrev running : W → List Status → ℕ → Bool → Watch W
  running world status pingers sending = record {
    world = world;
    status = status;
    pingers = pingers;
    sending = sending;
    looping = true;
  }

module _ {W : Type 0} (on_up on_end : W → W) where
  check_rpc-IsBalanced :
      (dials : Bool) (w u : Watch W)
      → IsBalanced w
      → check_rpc on_up on_end dials w ≡ some u
      → IsBalanced u
  unfolding check_rpc
  check_rpc-IsBalanced dials w u h e = ground (arith, e, h)

  -- Whatever happens to a connection after NewRpcClient: the statuses in the channel and those that a
  -- pinging goroutine or a reconnection has still to send are one in all while the loop runs, which
  -- the channel has room for, and none once the loop has ended.
  pub Steps-IsBalanced :
      (world : W) {w : Watch W} → Steps on_up on_end (started world) w → IsBalanced w
  Steps-IsBalanced world here = refl
  Steps-IsBalanced world (round {t = t} dials u run e) =
      check_rpc-IsBalanced dials t u (Steps-IsBalanced world run) e
  Steps-IsBalanced world (lost {t = t} u run e) =
      ping_fails-IsBalanced t u (Steps-IsBalanced world run) e
  Steps-IsBalanced world (sent {t = t} u run e) =
      send_up-IsBalanced t u (Steps-IsBalanced world run) e

  -- From a status about to be sent to a goroutine that pings.
  up_again :
      (world : W) → Steps on_up on_end (running world [] 0 true) (running (on_up world) [] 1 false)
  unfolding check_rpc send_up
  up_again world = round true _ (sent (running world (is_up ∷ []) 0 false) here refl) refl

  recover :
      (world : W) (status : List Status) (pingers : ℕ) (sending : Bool)
      → IsBalanced (running world status pingers sending)
      → (u : Watch W) × Steps on_up on_end (running world status pingers sending) u × IsPinged u
  unfolding check_rpc send_up
  recover world [] zero false h = absurd (omega arith)
  recover world [] zero true h =
      (running (on_up world) [] 1 false, up_again world, (refl, refl, refl))
  recover world [] (suc zero) false h = (running world [] 1 false, here, (refl, refl, refl))
  recover world [] (suc zero) true h = absurd (omega arith)
  recover world [] (suc (suc n)) sending h = absurd (omega arith)
  recover world (is_up ∷ []) zero false h =
      (running (on_up world) [] 1 false, round true _ here refl, (refl, refl, refl))
  recover world (is_down ∷ []) zero false h = (
    running (on_up world) [] 1 false,
    round true _
        (sent (running world (is_up ∷ []) 0 false) (round true (running world [] 0 true) here refl)
          refl)
        refl,
    (refl, refl, refl),
  )
  recover world (s ∷ []) zero true h = absurd (omega arith)
  recover world (s ∷ []) (suc n) sending h = absurd (omega arith)
  recover world (s ∷ t ∷ rest) pingers sending h = absurd (omega arith)

  -- Whatever has happened to a connection: as long as the loop runs, it gets, with dials that succeed,
  -- to where one goroutine pings, the channel is empty and nothing is about to be sent.
  pub Steps-IsPinged :
      (world : W) (w : Watch W)
      → Steps on_up on_end (started world) w
      → w.looping ≡ true
      → (u : Watch W) × Steps on_up on_end w u × IsPinged u
  Steps-IsPinged world w run looping =
      let balanced = Steps-IsBalanced world run in
      subst (λ b. (u : Watch W) × Steps on_up on_end (record w { looping = b }) u × IsPinged u)
        (sym looping)
        (recover w.world w.status w.pingers w.sending
          (balanced ∙ ap (λ b. if b then 1 else 0) looping))
