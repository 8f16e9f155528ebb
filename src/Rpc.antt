-- ===== src/Rpc.antt =====
-- internal/rpc: the calls between comets and router (public.go, client.go) and the server that takes
-- them (server.go). The transport of net/rpc is outside: a call that fails there is `none`.
pub mod Channel
pub mod Order
pub mod Drain
pub mod Watch
use galopush.Prelude.{
  ℕ, Bool, true, false, ltb, if◌then◌else◌, List, [], ◌∷◌, ◌++◌, Option, none, some, length, Bytes,
  ◌≡◌,
}
use galopush.Comet.State.{StateNotify}
use galopush.Comet.Downlink.{PushRequest}
use galopush.Comet.Downlink.Kick.{KickRequest}
use galopush.Router.Rpc.{Code, AuthRequest, CometRegister, MsgUpward}

-- What a server is called with.
pub data Request : Type 0 where
  register : CometRegister → Request
  auth : AuthRequest → Request
  notify : StateNotify → Request
  msg_upward : MsgUpward → Request
  kick : KickRequest → Request
  push : PushRequest → Request
  ping : Request

-- Does the client's Register, Auth, MsgUpward, Push or Ping return without an error?
unfoldable pub is_granted : Option Code → Bool
is_granted none = false
is_granted (some Code.rpc_ret_success) = true
is_granted (some Code.rpc_ret_failed) = false

-- Does the client's Notify or Kick? They do not look at the code.
unfoldable pub is_delivered : Option Code → Bool
is_delivered none = false
is_delivered (some code) = true

-- RpcServer: what its handles work on, the channel and its capacity.
pub record RpcServer (S : Type 0) : Type 0 where
  pub state : S
  pub data_chan : List Request
  pub cache : ℕ

-- The requests that go through the channel.
unfoldable pub is_queued : Request → Bool
is_queued (notify m) = true
is_queued (push m) = true
is_queued (register m) = false
is_queued (auth m) = false
is_queued (msg_upward m) = false
is_queued (kick m) = false
is_queued ping = false

module _ {S : Type 0} where
  -- A request that goes through the channel waits for room: no step while it is full. This is a
  -- channel with a capacity, as both configurations give it; with the capacity 0, which hands over
  -- from one goroutine to the other, there is no step here.
  unfoldable pub enqueue : Request → RpcServer S → Option (Code × RpcServer S)
  enqueue m s =
      if ltb (length s.data_chan) s.cache
      then some (Code.rpc_ret_success, record s { data_chan = s.data_chan ++ (m ∷ []) })
      else none

module _ {S : Type 0} (sync_handle : Request → S → Code × S) (async_handle : Request → S → S) where
  unfoldable pub run_sync : Request → RpcServer S → Option (Code × RpcServer S)
  run_sync m s =
      let (code, state) = sync_handle m s.state in some (code, record s { state = state })

  -- The methods of RpcServer.
  unfoldable pub call : Request → RpcServer S → Option (Code × RpcServer S)
  unfolding enqueue run_sync
  call (register m) s = run_sync (register m) s
  call (auth m) s = run_sync (auth m) s
  call (notify m) s = enqueue (notify m) s
  call (msg_upward m) s = run_sync (msg_upward m) s
  call (kick m) s = run_sync (kick m) s
  call (push m) s = enqueue (push m) s
  call ping s = some (Code.rpc_ret_success, s)

  -- One round of handleMessage, which waits while the channel is empty.
  unfoldable pub handle_message : RpcServer S → Option (RpcServer S)
  handle_message s = elim s.data_chan [
    | [] ↦ none
    | m ∷ rest ↦ some (record s { state = async_handle m s.state; data_chan = rest })
  ]

  -- What a server may do, with the requests that it put into its channel and those that it handled.
  pub data Runs (s : RpcServer S) : List Request → List Request → RpcServer S → Type 0 where
    start : Runs s [] [] s
    called :
        {taken handled : List Request} {t : RpcServer S} (m : Request) (code : Code)
        (u : RpcServer S)
        → Runs s taken handled t
        → call m t ≡ some (code, u)
        → Runs s (if is_queued m then taken ++ (m ∷ []) else taken) handled u
    took :
        {taken handled : List Request} {t : RpcServer S} (m : Request) (rest : List Request)
        (u : RpcServer S)
        → Runs s taken handled t
        → t.data_chan ≡ m ∷ rest
        → handle_message t ≡ some u
        → Runs s taken (handled ++ (m ∷ [])) u
