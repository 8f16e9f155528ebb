-- ===== src/Router/Dispatch.antt =====
-- router/procRpc.go: the handles that the router gives to its RPC server.
use galopush.Rds.Defs.{Redis}
use galopush.Router.Rpc.{Router, RouterOutside, Code, state_notify}
use galopush.Router.Rpc
use galopush.Rpc.{Request, register, auth, notify, msg_upward, kick, push, ping}

module _ {R : Type 0} (redis : Redis R) (out : RouterOutside) where
  -- RpcSyncHandle
  unfoldable pub sync_handle : Request → Router R → Code × Router R
  sync_handle (auth m) r = Rpc.auth redis m r
  sync_handle (register m) r = Rpc.comet_register out m r
  sync_handle (msg_upward m) r = Rpc.msg_upward out m r
  sync_handle (notify m) r = (Code.rpc_ret_failed, r)
  sync_handle (kick m) r = (Code.rpc_ret_failed, r)
  sync_handle (push m) r = (Code.rpc_ret_failed, r)
  sync_handle ping r = (Code.rpc_ret_failed, r)

  -- RpcAsyncHandle
  unfoldable pub async_handle : Request → Router R → Router R
  async_handle (notify m) r = state_notify redis m r
  async_handle (auth m) r = r
  async_handle (register m) r = r
  async_handle (msg_upward m) r = r
  async_handle (kick m) r = r
  async_handle (push m) r = r
  async_handle ping r = r
