-- ===== src/Rpc/Order.antt =====
-- The channel of internal/rpc/server.go: nothing is lost, doubled or overtaken in it, and its requests
-- are handled.
use galopush.Prelude.{
  ℕ, suc, ◌≤◌, List, [], ◌∷◌, ◌++◌, some, length, ◌≡◌, refl, subst, sym, ap, ◌∙◌, arith, append-nil,
  append_assoc,
}
use galopush.Router.Rpc.{Code}
use galopush.Rpc.{
  Request, register, auth, notify, msg_upward, kick, push, ping, RpcServer, is_queued, enqueue,
  run_sync, call, Runs, start, called, took,
}
use galopush.Rpc.Channel.{left, order_next, queued_state, call-CallLeaves, next_same}

-- A call of one of the handles.
pub data Done : Type 0 where
  answered handled : Request → Done

-- The requests that asyncHandle was called with.
unfoldable pub requests_of : List Done → List Request
requests_of [] = []
requests_of (answered m ∷ es) = requests_of es
requests_of (handled m ∷ es) = m ∷ requests_of es

requests_of-append : (es fs : List Done) → requests_of (es ++ fs) ≡ requests_of es ++ requests_of fs
unfolding requests_of
requests_of-append [] fs = refl
requests_of-append (answered n ∷ es) fs = requests_of-append es fs
requests_of-append (handled n ∷ es) fs = ap (◌∷◌ n) (requests_of-append es fs)

-- The handle that a call goes to at once: syncHandle for all but a notification, a push and a ping.
abbrev pub done_by : Request → List Done
done_by (register m) = answered (register m) ∷ []
done_by (auth m) = answered (auth m) ∷ []
done_by (msg_upward m) = answered (msg_upward m) ∷ []
done_by (kick m) = answered (kick m) ∷ []
done_by (notify m) = []
done_by (push m) = []
done_by ping = []

requests_of-done_by : (m : Request) → requests_of (done_by m) ≡ []
unfolding requests_of
requests_of-done_by (register m) = refl
requests_of-done_by (auth m) = refl
requests_of-done_by (msg_upward m) = refl
requests_of-done_by (kick m) = refl
requests_of-done_by (notify m) = refl
requests_of-done_by (push m) = refl
requests_of-done_by ping = refl

module _ {S : Type 0} (sync_handle : Request → S → Code × S) (async_handle : Request → S → S) where
  -- What the handles make of a state, one after the other.
  unfoldable pub replay : List Done → S → S
  replay [] st = st
  replay (answered m ∷ es) st = replay es (sync_handle m st).1
  replay (handled m ∷ es) st = replay es (async_handle m st)

  replay-append : (es fs : List Done) (st : S) → replay (es ++ fs) st ≡ replay fs (replay es st)
  unfolding replay
  replay-append [] fs st = refl
  replay-append (answered m ∷ es) fs st = replay-append es fs (sync_handle m st).1
  replay-append (handled m ∷ es) fs st = replay-append es fs (async_handle m st)

  -- The calls of the handles that a run stands for: one for each call that goes to syncHandle, and one
  -- for each round of handleMessage.
  unfoldable pub history :
      {s t : RpcServer S} {taken requests : List Request}
      → Runs sync_handle async_handle s taken requests t
      → List Done
  history start = []
  history (called m code u run e) = history run ++ done_by m
  history (took m rest u run e step) = history run ++ (handled m ∷ [])

  call-state :
      (m : Request) (s u : RpcServer S) (code : Code)
      → call sync_handle async_handle m s ≡ some (code, u)
      → u.state ≡ replay (done_by m) s.state
  unfolding call run_sync enqueue replay
  call-state (register m) s u code e = ap (λ r. (left sync_handle async_handle s r).state) (sym e)
  call-state (auth m) s u code e = ap (λ r. (left sync_handle async_handle s r).state) (sym e)
  call-state (notify m) s u code e = queued_state sync_handle async_handle (notify m) s u code e
  call-state (msg_upward m) s u code e = ap (λ r. (left sync_handle async_handle s r).state) (sym e)
  call-state (kick m) s u code e = ap (λ r. (left sync_handle async_handle s r).state) (sym e)
  call-state (push m) s u code e = queued_state sync_handle async_handle (push m) s u code e
  call-state ping s u code e = ap (λ r. (left sync_handle async_handle s r).state) (sym e)

  -- The requests of a run are those of its history, and its state is that which the history leaves.
  abbrev IsReplayed :
      {s t : RpcServer S} {taken requests : List Request}
      → Runs sync_handle async_handle s taken requests t
      → Type 0
  IsReplayed {s = s} {t = t} {requests = requests} run =
      (requests_of (history run) ≡ requests) × (t.state ≡ replay (history run) s.state)

  run-IsReplayed :
      {s t : RpcServer S} {taken requests : List Request}
      (run : Runs sync_handle async_handle s taken requests t)
      → IsReplayed run
  unfolding history replay requests_of
  run-IsReplayed start = (refl, refl)
  run-IsReplayed {s = s} (called m code u run e) =
      let (same, made) = run-IsReplayed run in
      (
        requests_of-append (history run) (done_by m)
            ∙ ap (λ l. requests_of (history run) ++ l) (requests_of-done_by m)
            ∙ append-nil (requests_of (history run))
            ∙ same,
        call-state m _ u code e
            ∙ ap (replay (done_by m)) made
            ∙ sym (replay-append (history run) (done_by m) s.state),
      )
  run-IsReplayed {s = s} (took {t = t} m rest u run e step) =
      let (same, made) = run-IsReplayed run in
      (
        requests_of-append (history run) (handled m ∷ []) ∙ ap (λ l. l ++ (m ∷ [])) same,
        sym (ap (λ v. v.state) (next_same sync_handle async_handle t u m rest e step))
            ∙ ap (async_handle m) made
            ∙ sym (replay-append (history run) (handled m ∷ []) s.state),
      )

  channel_order :
      {s t : RpcServer S} {taken requests : List Request}
      → length s.data_chan ≤ s.cache
      → Runs sync_handle async_handle s taken requests t
      → (requests ++ t.data_chan ≡ s.data_chan ++ taken) × (length t.data_chan ≤ t.cache)
  channel_order {s = s} le start = (sym (append-nil s.data_chan), le)
  channel_order {s = s} le (called {taken = taken} {handled = requests} m code u run e) =
      let (order, bound) = channel_order le run in
      let (chan, room) = call-CallLeaves sync_handle async_handle m _ u code e in
      (order_next (is_queued m) m requests _ _ s.data_chan taken chan order, room bound)
  channel_order {s = s} le (took {handled = requests} {t = t} m rest u run e step) =
      let (order, bound) = channel_order le run in
      let same = next_same sync_handle async_handle t u m rest e step in
      (
        append_assoc requests (m ∷ []) u.data_chan
            ∙ ap (λ l. requests ++ (m ∷ l)) (sym (ap (λ v. v.data_chan) same))
            ∙ ap (λ l. requests ++ l) (sym e)
            ∙ order,
        subst (λ v. length v.data_chan ≤ v.cache) same (shorter bound (ap length e)),
      )
    where
      shorter : {a b c : ℕ} → a ≤ c → a ≡ suc b → b ≤ c
      shorter le e = omega arith

  -- Whatever a server does from a state whose channel is not overfull: its state is that which the
  -- handles leave, syncHandle called for each call that is not queued and is no ping, and asyncHandle
  -- for each round of handleMessage, in the order in which these came; the requests of the rounds,
  -- followed by what is in the channel, are what was in the channel at first, followed by the
  -- requests taken since, in order; and the channel is never overfull.
  pub Runs-order :
      {s t : RpcServer S} {taken requests : List Request}
      → length s.data_chan ≤ s.cache
      → (run : Runs sync_handle async_handle s taken requests t)
      → (requests_of (history run) ≡ requests)
        × (t.state ≡ replay (history run) s.state)
        × (requests ++ t.data_chan ≡ s.data_chan ++ taken)
        × (length t.data_chan ≤ t.cache)
  Runs-order le run =
      let (same, made) = run-IsReplayed run in
      let (order, bound) = channel_order le run in (same, made, order, bound)
