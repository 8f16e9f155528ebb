-- ===== src/Comet/Dispatch.antt =====
-- comet/rpcdo.go: the handles that a comet gives to its RPC server. A panic ends in the deferred
-- recover, and then a function that returns a number returns 0.
use galopush.Comet.State.{Outcome, finished, panicked, OfflineStore, Outside, Comet, state_of}
use galopush.Comet.Downlink.{rpc_async_handle}
use galopush.Comet.Downlink.Kick.{kick_down}
use galopush.Router.Rpc.{Code}
use galopush.Rpc.{Request, register, auth, notify, msg_upward, kick, push, ping}

module _ {S : Type 0} where
  -- The number that RpcSyncHandle returns.
  abbrev pub returned : Outcome (Comet S) → Code × Comet S
  returned (finished c) = (Code.rpc_ret_failed, c)
  returned (panicked c) = (Code.rpc_ret_success, c)

module _ {S : Type 0} (out : Outside) (store : OfflineStore S) where
  unfoldable pub sync_handle : Request → Comet S → Code × Comet S
  sync_handle (kick m) c = returned (kick_down out store m c)
  sync_handle (auth m) c = returned (finished c)
  sync_handle (register m) c = returned (finished c)
  sync_handle (msg_upward m) c = returned (finished c)
  sync_handle (notify m) c = returned (finished c)
  sync_handle (push m) c = returned (finished c)
  sync_handle ping c = returned (finished c)

  unfoldable pub async_handle : Request → Comet S → Comet S
  async_handle (push m) c = state_of (rpc_async_handle out store m c)
  async_handle (auth m) c = c
  async_handle (register m) c = c
  async_handle (msg_upward m) c = c
  async_handle (notify m) c = c
  async_handle (kick m) c = c
  async_handle ping c = c
