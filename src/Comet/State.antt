-- ===== src/Comet/State.antt =====
-- The state of a comet and what surrounds it: the session pool of comet/session.go, the connections,
-- the store of offline messages, and the calls to the router and to Apple's push service.
use galopush.Prelude.{
  ℕ, ◌+◌, Bytes, Bool, true, false, if◌then◌else◌, List, [], ◌∷◌, ◌++◌, Option, none, some, length,
  set,
}
use galopush.Prelude.Assoc.{Assoc, lookup, insert, delete}
use galopush.Protocol.Message.{Header, Message}
use galopush.Rds.Defs.{Item, Push}
use galopush.Comet.Session.{Conn, Session}

-- The operations of the store that a comet calls (SavePushMsg and so on).
pub record OfflineStore (S : Type 0) : Type 0 where
  pub save_push : S → Bytes → ℕ → Bytes → S
  pub save_callback : S → Bytes → ℕ → Bytes → S
  pub save_im : S → Bytes → ℕ → Bytes → S
  pub get_push : S → Bytes → ℕ → Option Push × S
  pub get_callbacks : S → Bytes → ℕ → List Item × S
  pub get_ims : S → Bytes → ℕ → List Item × S

-- What the comet meets outside: does the router accept a login (Auth), does it take a message
-- upward, does the n-th write to a connection succeed, and the JSON form of a message, where none is
-- a panic.
pub record Outside : Type 0 where
  pub auth : Bytes → ℕ → Bytes → Bool
  pub msg_upward : Bytes → ℕ → Bytes → Bool
  pub write_good : Conn → ℕ → Bool
  pub pack_json : Message → Option Bytes
  pub comet_id : Bytes

-- StateNotify of internal/rpc/public.go; `state` is 1 for online and 0 for offline.
pub record StateNotify : Type 0 where
  pub id : Bytes
  pub plat : ℕ
  pub token : Bytes
  pub comet_id : Bytes
  pub state : ℕ

-- A call of apnsPush, which runs by itself.
pub record ApnsRequest : Type 0 where
  pub id : Bytes
  pub token : Bytes
  pub body : Bytes
  pub flag : ℕ

-- Sessions are shared by pointer: `heap` holds them, and a pointer is an index into it.
pub record Comet (S : Type 0) : Type 0 where
  pub ids : Assoc Bytes
  pub sessions : Assoc ℕ
  pub heap : List Session
  pub store : S
  pub writes : ℕ
  pub sent : List (Conn × Bytes)
  pub closed : List Conn
  pub notified : List StateNotify
  pub apns : List ApnsRequest

-- A handler that returned, or one that a panic stopped where it was; `recover` keeps the state.
pub data Outcome {ℓ} (A : Type ℓ) : Type ℓ where
  finished : A → Outcome A
  panicked : A → Outcome A

abbrev pub state_of {ℓ} : {A : Type ℓ} → Outcome A → A
state_of (finished c) = c
state_of (panicked c) = c

abbrev pub no_header : Header
no_header = record { line = 0; tid = 0 }

module _ {S : Type 0} where
  -- insertIds, deleteIds; findId gives the empty string for an unknown address.
  abbrev pub insert_ids : Comet S → Bytes → Bytes → Comet S
  insert_ids c addr id = record c { ids = insert addr id c.ids }

  abbrev pub delete_ids : Comet S → Bytes → Comet S
  delete_ids c addr = record c { ids = delete addr c.ids }

  unfoldable pub find_id : Comet S → Bytes → Bytes
  find_id c addr = elim (lookup addr c.ids) [ none ↦ [] | some id ↦ id ]

  -- insertSessions with a new session, deleteSessions, findSessions
  abbrev pub insert_sessions : Comet S → Bytes → Session → Comet S
  insert_sessions c id sess = record c {
    sessions = insert id (length c.heap) c.sessions;
    heap = c.heap ++ (sess ∷ []);
  }

  abbrev pub delete_sessions : Comet S → Bytes → Comet S
  delete_sessions c id = record c { sessions = delete id c.sessions }

  unfoldable pub find_sessions : Comet S → Bytes → Option ℕ
  find_sessions c id = lookup id c.sessions

  -- A write through a session pointer.
  abbrev pub set_session : Comet S → ℕ → Session → Comet S
  set_session c p sess = record c { heap = set c.heap p sess }

  -- write of comet/util.go: does it succeed, and the bytes on the connection.
  unfoldable pub write : Outside → Comet S → Conn → Bytes → Bool × Comet S
  write out c conn buf =
      let c1 = record c { writes = c.writes + 1 } in
      if out.write_good conn c.writes
      then (true, record c1 { sent = c1.sent ++ ((conn, buf) ∷ []) })
      else (false, c1)

  -- closeConn
  abbrev pub close_conn : Comet S → Conn → Comet S
  close_conn c conn = record c { closed = c.closed ++ (conn ∷ []) }

  -- rpcCli.Notify; its error is only logged.
  abbrev pub notify : Outside → Comet S → Session → ℕ → Comet S
  notify out c sess state = record c {
    notified =
        c.notified
        ++ (record {
          id = sess.id;
          plat = sess.plat;
          token = sess.token;
          comet_id = out.comet_id;
          state = state;
        }
            ∷ []);
  }
