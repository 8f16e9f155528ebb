-- ===== src/Rpc/Drain.antt =====
-- The channel of internal/rpc/server.go gets empty: rounds of handleMessage with nothing between them.
use galopush.Prelude.{
  ℕ, zero, suc, List, [], ◌∷◌, ◌++◌, Option, some, length, ◌≡◌, refl, subst, ap, ◌∙◌, ◌>>=◌,
  append-nil, append_assoc,
}
use galopush.Router.Rpc.{Code}
use galopush.Rpc.{Request, RpcServer, handle_message, Runs, took}
use galopush.Rpc.Channel.{next, handle_message-next}

module _ {S : Type 0} (sync_handle : Request → S → Code × S) (async_handle : Request → S → S) where
  -- What asyncHandle makes of a state, request by request.
  unfoldable pub drain : List Request → S → S
  drain [] st = st
  drain (m ∷ rest) st = drain rest (async_handle m st)

  -- The server whose channel has been emptied so.
  abbrev pub drained : RpcServer S → RpcServer S
  drained t = record t { state = drain t.data_chan t.state; data_chan = [] }

  -- A number of rounds of handleMessage and nothing between them.
  unfoldable pub handle_rounds : ℕ → RpcServer S → Option (RpcServer S)
  handle_rounds zero t = some t
  handle_rounds (suc n) t = do u ← handle_message sync_handle async_handle t; handle_rounds n u

  rounds-drained :
      (chan : List Request) (t : RpcServer S)
      → t.data_chan ≡ chan
      → handle_rounds (length chan) t
        ≡ some (record t { state = drain chan t.state; data_chan = [] })
  unfolding handle_rounds drain
  rounds-drained [] t e = ap (λ c. some (record t { data_chan = c })) e
  rounds-drained (m ∷ rest) t e =
      ap (λ o. o >>= handle_rounds (length rest))
        (handle_message-next sync_handle async_handle t m rest e)
      ∙ rounds-drained rest (next sync_handle async_handle t m rest) refl

  drained-Runs :
      (chan : List Request) (s t : RpcServer S) (taken before : List Request)
      → Runs sync_handle async_handle s taken before t
      → t.data_chan ≡ chan
      → Runs sync_handle async_handle s taken
          (before ++ chan)
          (record t { state = drain chan t.state; data_chan = [] })
  unfolding drain
  drained-Runs [] s t taken before run e =
      rw (append-nil before) (
        subst (λ c. Runs sync_handle async_handle s taken before (record t { data_chan = c })) e
          run)
  drained-Runs (m ∷ rest) s t taken before run e =
      let t1 = next sync_handle async_handle t m rest in
      let first = took m rest t1 run e (handle_message-next sync_handle async_handle t m rest e) in
      let rec = drained-Runs rest s t1 taken (before ++ (m ∷ [])) first refl in
      subst
        (λ h.
          Runs sync_handle async_handle s taken h
            (record t { state = drain rest t1.state; data_chan = [] }))
        (append_assoc before (m ∷ []) rest) rec

  -- From every state that a server reaches, as many rounds of handleMessage as there are requests in
  -- the channel, with nothing between them, all go through; they lead to the server with an empty
  -- channel and the state that asyncHandle makes of the requests, in order; and they continue the run.
  pub Runs-drain :
      (s t : RpcServer S) (taken before : List Request)
      → Runs sync_handle async_handle s taken before t
      → (handle_rounds (length t.data_chan) t ≡ some (drained t))
        × Runs sync_handle async_handle s taken (before ++ t.data_chan) (drained t)
  Runs-drain s t taken before run =
      (rounds-drained t.data_chan t refl, drained-Runs t.data_chan s t taken before run refl)
