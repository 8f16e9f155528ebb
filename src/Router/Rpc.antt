-- ===== src/Router/Rpc.antt =====
-- router/procRpc.go: what the comets call at the router.
pub mod Notify
pub mod Auth
use galopush.Prelude.{
  ℕ, zero, suc, ◌+◌, Bytes, Bool, true, false, ◌&&◌, ◌==◌, ◌=ₛ◌, if◌then◌else◌, List, [], ◌∷◌, ◌++◌,
  Option, none, some, get_elem?, set,
}
use galopush.Rds.Defs.{Session, Sessions, Redis}
use galopush.Rds.Store.{Storager, find_sessions, save_sessions}
use galopush.Rds.Messages.{with_box, terminals, change_item}
use galopush.Comet.State.{StateNotify}
use galopush.Comet.Downlink.{PushRequest}
use galopush.Comet.Downlink.Kick.{KickRequest}
use galopush.Prelude.Int.{pos}
use galopush.Router.Pool.{
  CometEntry, Pool, insert_comet, find_comet, delete_comet, comet_add, comet_sub,
}

-- RPC_RET_SUCCESS and RPC_RET_FAILED
pub data Code : Type 0 where
  rpc_ret_success rpc_ret_failed : Code

pub record AuthRequest : Type 0 where
  pub id : Bytes
  pub plat : ℕ
  pub code : Bytes

pub record CometRegister : Type 0 where
  pub comet_id : Bytes
  pub tcp_addr : Bytes
  pub ws_addr : Bytes
  pub rpc_addr : Bytes

-- MsgUpwardRequst of internal/rpc/public.go, and MsgUpward of router/nsqMsgDef.go, which has the same
-- fields.
pub record MsgUpward : Type 0 where
  pub uid : Bytes
  pub termtype : ℕ
  pub body : Bytes

-- Does the n-th dial to a comet succeed, does a comet take the push that is the n-th call, and does
-- the n-th publication to NSQ succeed?
pub record RouterOutside : Type 0 where
  pub dial : Bytes → ℕ → Bool
  pub push_good : Bytes → ℕ → Bool
  pub publish : MsgUpward → ℕ → Bool

-- What a comet is called with, by the comet's id.
pub data Call : Type 0 where
  pushed : Bytes → PushRequest → Call
  kicked : Bytes → KickRequest → Call

pub record Router (R : Type 0) : Type 0 where
  pub store : Storager R
  pub pool : Pool
  pub dials : ℕ
  pub publications : ℕ
  pub published : List MsgUpward
  pub calls : List Call

-- Does the terminal hold the token of a state notification?
abbrev pub is_notified : StateNotify → Session → Bool
is_notified msg it = it.plat == msg.plat && it.auth_code =ₛ msg.token

-- The loop of AuthRequest over the terminals of a user.
unfoldable pub auth_terminals : AuthRequest → List Session → List ℕ → Bool
auth_terminals msg items [] = false
auth_terminals msg items (i ∷ is) =
    let rest = auth_terminals msg items is in
    elim (get_elem? items i) [
      | none ↦ rest
      | some v ↦
          if v.plat == msg.plat
          then if v.auth_code =ₛ msg.code && v.login then true else rest
          else rest
    ]

-- `it.Online = true` for every terminal that holds the token.
unfoldable pub set_online : StateNotify → List ℕ → List Session → List Session
set_online msg [] items = items
set_online msg (i ∷ is) items = elim (get_elem? items i) [
  | none ↦ set_online msg is items
  | some it ↦
      set_online msg is
        (if is_notified msg it then set items i (record it { online = true }) else items)
]

abbrev pub code_of : Bool → Code
code_of true = Code.rpc_ret_success
code_of false = Code.rpc_ret_failed

module _ {R : Type 0} (redis : Redis R) where
  -- `sess.CometId = …` through a pointer.
  unfoldable pub set_comet : Storager R → ℕ → Bytes → Storager R
  set_comet st p comet = elim (get_elem? st.boxes p) [
    | none ↦ st
    | some s ↦ record st { boxes = set st.boxes p (record s { comet_id = comet }) }
  ]

  -- The loop of the offline notification: every round counts a connection of the comet down, and the
  -- round that finds the terminal returns, without SaveSessions.
  unfoldable pub notify_offline : StateNotify → ℕ → List ℕ → Router R → Router R
  notify_offline msg p [] r = record r { store = save_sessions redis r.store p }
  notify_offline msg p (i ∷ is) r =
      let r1 = record r { pool = comet_sub r.pool msg.comet_id } in
      let rest = notify_offline msg p is r1 in
      elim (get_elem? r.store.items i) [
        | none ↦ rest
        | some it ↦
            if is_notified msg it
            then record r1 { store = change_item r.store i (λ t. record t { online = false }) }
            else rest
      ]

  unfoldable pub notify_online : StateNotify → ℕ → Router R → Router R
  notify_online msg p r =
      let st = r.store in
      record r {
        store =
            save_sessions redis (record st { items = set_online msg (terminals st p) st.items }) p;
        pool = comet_add r.pool msg.comet_id;
      }

  -- The router with another store.
  abbrev pub with_store : Router R → Storager R → Router R
  with_store r st = record r { store = st }

  -- RpcAsyncHandle: a state that is neither 0 nor 1 changes nothing.
  unfoldable pub state_notify : StateNotify → Router R → Router R
  unfolding notify_offline notify_online
  state_notify msg r =
      if msg.state == 0
      then with_box (find_sessions redis r.store msg.id) (with_store r) (λ st p.
        notify_offline msg p (terminals st p) (with_store r (set_comet st p msg.comet_id)))
      else if msg.state == 1
      then with_box (find_sessions redis r.store msg.id) (with_store r)
          (λ st p. notify_online msg p (with_store r (set_comet st p msg.comet_id)))
      else r

  -- RpcSyncHandle, an authorisation
  unfoldable pub auth : AuthRequest → Router R → Code × Router R
  auth msg r =
      with_box (find_sessions redis r.store msg.id) (λ st. (Code.rpc_ret_failed, with_store r st))
        λ st p. (code_of (auth_terminals msg st.items (terminals st p)), with_store r st)

-- A comet as it registers.
abbrev pub entry_of : CometRegister → CometEntry
entry_of msg = record {
  id = msg.comet_id;
  rpc_addr = msg.rpc_addr;
  tcp_addr = msg.tcp_addr;
  ws_addr = msg.ws_addr;
  online = pos 0;
}

module _ {R : Type 0} (out : RouterOutside) where
  -- RpcSyncHandle, a comet that registers: one that the pool has keeps its count, and leaves the pool
  -- when it cannot be dialled.
  unfoldable pub comet_register : CometRegister → Router R → Code × Router R
  comet_register msg r =
      let good = out.dial msg.rpc_addr r.dials in
      let r1 : Router R = record r { dials = r.dials + 1 } in
      elim (find_comet r.pool msg.comet_id) [
        | some c ↦
            if good
            then (
              Code.rpc_ret_success,
              record r1 {
                pool =
                    insert_comet r.pool msg.comet_id (record (entry_of msg) { online = c.online });
              },
            )
            else (Code.rpc_ret_failed, record r1 { pool = delete_comet r.pool msg.comet_id })
        | none ↦
            if good
            then (
              Code.rpc_ret_success,
              record r1 { pool = insert_comet r.pool msg.comet_id (entry_of msg) },
            )
            else (Code.rpc_ret_failed, r1)
      ]

  -- RpcSyncHandle, a message upward
  unfoldable pub msg_upward : MsgUpward → Router R → Code × Router R
  msg_upward msg r =
      let r1 : Router R = record r { publications = r.publications + 1 } in
      if out.publish msg r.publications
      then (Code.rpc_ret_success, record r1 { published = r.published ++ (msg ∷ []) })
      else (Code.rpc_ret_failed, r1)
