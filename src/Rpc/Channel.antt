-- ===== src/Rpc/Channel.antt =====
-- What one action of internal/rpc/server.go does to its channel and to what its handles work on.
use galopush.Prelude.{
  ◌≤◌, Bool, true, false, ltb, if◌then◌else◌, List, [], ◌∷◌, ◌++◌, Option, none, some, length, ◌≡◌,
  refl, subst, sym, ap, ◌∙◌, arith, inl, inr, Bool-cases, append_assoc, length-append,
}
use galopush.Router.Rpc.{Code}
use galopush.Rpc.{
  Request, register, auth, notify, msg_upward, kick, push, ping, RpcServer, is_queued, enqueue,
  run_sync, call, handle_message,
}

pub order_next :
    (queued : Bool) (m : Request) (before chan chan1 first taken : List Request)
    → chan1 ≡ (if queued then chan ++ (m ∷ []) else chan)
    → before ++ chan ≡ first ++ taken
    → before ++ chan1 ≡ first ++ (if queued then taken ++ (m ∷ []) else taken)
order_next true m before chan chan1 first taken left order =
    ap (λ l. before ++ l) left
    ∙ sym (append_assoc before chan (m ∷ []))
    ∙ ap (λ l. l ++ (m ∷ [])) order
    ∙ append_assoc first taken (m ∷ [])
order_next false m before chan chan1 first taken left order = ap (λ l. before ++ l) left ∙ order

module _ {S : Type 0} (sync_handle : Request → S → Code × S) (async_handle : Request → S → S) where
  -- The server that a call leaves.
  abbrev pub left : RpcServer S → Option (Code × RpcServer S) → RpcServer S
  left s none = s
  left s (some (code, u)) = u

  -- What a call may do to the channel: a request that is queued stands behind the others, and there
  -- was room for it.
  abbrev pub CallLeaves : Request → RpcServer S → RpcServer S → Type 0
  CallLeaves m s u =
      (u.data_chan ≡ (if is_queued m then s.data_chan ++ (m ∷ []) else s.data_chan))
      × (length s.data_chan ≤ s.cache → length u.data_chan ≤ u.cache)

  enqueue-CallLeaves :
      (m : Request) (s u : RpcServer S) (code : Code)
      → is_queued m ≡ true
      → enqueue m s ≡ some (code, u)
      → CallLeaves m s u
  unfolding enqueue
  enqueue-CallLeaves m s u code queued e = go (ltb (length s.data_chan) s.cache) refl e
    where
      longer : RpcServer S
      longer = record s { data_chan = s.data_chan ++ (m ∷ []) }

      success : RpcServer S → Option (Code × RpcServer S)
      success t = some (Code.rpc_ret_success, t)

      leaves : ltb (length s.data_chan) s.cache ≡ true → CallLeaves m s longer
      leaves room =
          let more = length-append s.data_chan (m ∷ []) in (rw queued refl, λ le. ground arith)

      go :
          (b : Bool)
          → ltb (length s.data_chan) s.cache ≡ b
          → (if b then success longer else none) ≡ some (code, u)
          → CallLeaves m s u
      go true room same = subst (CallLeaves m s) (ap (left s) same) (leaves room)
      go false full same = ground arith

  pub queued_state :
      (m : Request) (s u : RpcServer S) (code : Code)
      → enqueue m s ≡ some (code, u)
      → u.state ≡ s.state
  unfolding enqueue
  queued_state m s u code e =
      let kept : (left s (enqueue m s)).state ≡ s.state =
        elim (Bool-cases (ltb (length s.data_chan) s.cache)) [
          | inl room ↦ rw room refl
          | inr full ↦ rw full refl
        ] in
      ap (λ r. (left s r).state) (sym e) ∙ kept

  run_sync-CallLeaves :
      (m : Request) (s u : RpcServer S) (code : Code)
      → is_queued m ≡ false
      → run_sync sync_handle async_handle m s ≡ some (code, u)
      → CallLeaves m s u
  unfolding run_sync
  run_sync-CallLeaves m s u code direct e =
      subst (CallLeaves m s) (ap (left s) e) (rw direct refl, λ le. le)

  pub call-CallLeaves :
      (m : Request) (s u : RpcServer S) (code : Code)
      → call sync_handle async_handle m s ≡ some (code, u)
      → CallLeaves m s u
  unfolding call is_queued
  call-CallLeaves (register m) s u code e = run_sync-CallLeaves (register m) s u code refl e
  call-CallLeaves (auth m) s u code e = run_sync-CallLeaves (auth m) s u code refl e
  call-CallLeaves (notify m) s u code e = enqueue-CallLeaves (notify m) s u code refl e
  call-CallLeaves (msg_upward m) s u code e = run_sync-CallLeaves (msg_upward m) s u code refl e
  call-CallLeaves (kick m) s u code e = run_sync-CallLeaves (kick m) s u code refl e
  call-CallLeaves (push m) s u code e = enqueue-CallLeaves (push m) s u code refl e
  call-CallLeaves ping s u code e = subst (CallLeaves ping s) (ap (left s) e) (refl, λ le. le)

  -- The server after a round of handleMessage.
  abbrev pub next : RpcServer S → Request → List Request → RpcServer S
  next t m rest = record t { state = async_handle m t.state; data_chan = rest }

  pub handle_message-next :
      (t : RpcServer S) (m : Request) (rest : List Request)
      → t.data_chan ≡ m ∷ rest
      → handle_message sync_handle async_handle t ≡ some (next t m rest)
  unfolding handle_message
  handle_message-next t m rest e = rw (e, handle_message) refl

  pub next_same :
      (t u : RpcServer S) (m : Request) (rest : List Request)
      → t.data_chan ≡ m ∷ rest
      → handle_message sync_handle async_handle t ≡ some u
      → next t m rest ≡ u
  next_same t u m rest e step =
      ap (λ o. elim o [ none ↦ t | some v ↦ v ]) (sym (handle_message-next t m rest e) ∙ step)
