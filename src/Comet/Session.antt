-- ===== src/Comet/Session.antt =====
-- comet/session.go, a session with its transactions. A transaction is entered when its timer is
-- started: an answer that comes between saveTransaction and checkTrans, where the timer is nil, is
-- left out. The goroutine that waits on it takes part as two steps, the end of a transaction that was
-- answered, and the timeout; Check has it action by action, with what may come between.
pub mod Laws
pub mod Check
use galopush.Prelude.{
  ℕ, zero, suc, ◌+◌, ◌*◌, ◌^◌, Bytes, Bool, true, false, ◌&&◌, not, ◌==◌, leb, if◌then◌else◌, List,
  [], ◌∷◌, ◌++◌, Option, none, some, map,
}
use galopush.Protocol.Message.{
  plat_android, plat_web, msgtype_push, msgtype_callback, msgtype_message,
}

-- A connection, by its kind and its remote address.
pub data Conn : Type 0 where
  tcp : Bytes → Conn
  ws : Bytes → Conn

-- connString of comet/util.go
abbrev pub conn_string : Conn → Bytes
conn_string (tcp addr) = addr
conn_string (ws addr) = addr

-- `running` is false once the timer was stopped or has fired.
pub record Transaction : Type 0 where
  pub tid : ℕ
  pub msg_type : ℕ
  pub msg : Bytes
  pub running : Bool

pub record Session : Type 0 where
  pub id : Bytes
  pub plat : ℕ
  pub conn : Conn
  pub encode : ℕ
  pub tid : ℕ
  pub token : Bytes
  pub trans : List Transaction

abbrev pub max_uint32 : ℕ
max_uint32 = 2147483647

-- nextTid, as the new value of the counter, which is also what is returned.
unfoldable pub next_tid : ℕ → ℕ
next_tid tid = let tid' = tid + 1 in if leb max_uint32 tid' then 1 else tid'

-- saveTransaction, with newTransaction and the timer of checkTrans.
unfoldable pub save_transaction : Session → ℕ → ℕ → Bytes → Session
save_transaction p tid msg_type msg = record p {
  trans = p.trans ++ (record { tid = tid; msg_type = msg_type; msg = msg; running = true } ∷ []);
}

unfoldable pub get_trans : ℕ → List Transaction → Option Transaction
get_trans tid [] = none
get_trans tid (t ∷ rest) = if t.tid == tid then some t else get_trans tid rest

-- delTrans: the first transaction of the number.
unfoldable pub del_trans : ℕ → List Transaction → List Transaction
del_trans tid [] = []
del_trans tid (t ∷ rest) = if t.tid == tid then rest else t ∷ del_trans tid rest

-- destroy: every timer is stopped.
abbrev pub stop_timer : Transaction → Transaction
stop_timer t = record t { running = false }

unfoldable pub destroy : Session → Session
destroy p = record p { trans = map stop_timer p.trans }

-- What the timeout of checkTrans saves: a push for Android, a callback or an instant message for
-- any platform but the web.
pub data Saved : Type 0 where
  push callback im : Bytes → Saved

unfoldable pub on_timeout : ℕ → Transaction → Option Saved
on_timeout plat t =
    if t.msg_type == msgtype_push && plat == plat_android
    then some (push t.msg)
    else if t.msg_type == msgtype_callback && not (plat == plat_web)
    then some (callback t.msg)
    else if t.msg_type == msgtype_message && not (plat == plat_web)
    then some (im t.msg)
    else none

-- The timeout of a transaction that nothing comes between, up to delTrans: nothing unless its timer
-- runs.
unfoldable pub expire : Session → ℕ → Option (record { left : Session; saved : Option Saved })
expire p tid = elim (get_trans tid p.trans) [
  | none ↦ none
  | some t ↦
      if t.running
      then some (record {
        left = record p { trans = del_trans tid p.trans };
        saved = on_timeout p.plat t;
      })
      else none
]

-- The answer to a transaction that nothing comes between: its timer stops, and its goroutine takes it
-- out of the list.
unfoldable pub answer : Session → ℕ → Session
answer p tid = elim (get_trans tid p.trans) [
  | none ↦ p
  | some t ↦ record p { trans = del_trans tid p.trans }
]
