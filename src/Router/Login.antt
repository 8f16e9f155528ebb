-- ===== src/Router/Login.antt =====
-- router/procNsq.go, userOnlineState: a login of a user on one platform. The loop ranges over the
-- slice of terminals and removes from it in place: `array` is the backing array, as long as the slice
-- was when the loop began, and `len` the length of the slice.
pub mod Shift
pub mod Steps
pub mod Round
pub mod Totality
pub mod Boxes
pub mod Admission
use galopush.Prelude.{
  ℕ, zero, suc, ◌+◌, Bytes, Bool, true, false, ◌&&◌, ◌==◌, ltb, leb, bit_or, if◌then◌else◌, List,
  [], ◌∷◌, ◌++◌, Option, none, some, length, get_elem?, set, take, ◌-◌,
}
use galopush.Prelude.Assoc.{lookup}
use galopush.Protocol.Message.{plat_ios, kick_reason_repeat, kick_reason_mutex}
use galopush.Rds.Defs.{Body, Session, Sessions, Redis}
use galopush.Rds.Store.{Storager, find_sessions, save_sessions}
use galopush.Rds.Messages.{with_box, change_item}
use galopush.Comet.State.{Outcome, finished, panicked}
use galopush.Comet.Downlink.{PushRequest}
use galopush.Comet.Downlink.Kick.{KickRequest}
use galopush.Router.Pool.{CometEntry, find_comet}
use galopush.Router.Rpc.{Router, Call, pushed, kicked, with_store}

-- UserOnlineState of router/nsqMsgDef.go
pub record UserOnlineState : Type 0 where
  pub uid : Bytes
  pub termtype : ℕ
  pub code : Bytes
  pub device_token : Bytes
  pub login : Bool

-- The notice to an iOS terminal that is thrown out, in UTF-8.
abbrev pub notice : Bytes
notice =
    228 ∷ 189 ∷ 160 ∷ 231 ∷ 154 ∷ 132 ∷ 229 ∷ 184 ∷ 144 ∷ 229 ∷ 143 ∷ 183 ∷ 229 ∷ 183 ∷ 178 ∷ 229
    ∷ 156 ∷ 168 ∷ 229 ∷ 143 ∷ 166 ∷ 228 ∷ 184 ∷ 128 ∷ 229 ∷ 143 ∷ 176 ∷ 230 ∷ 137 ∷ 139 ∷ 230 ∷ 156
    ∷ 186 ∷ 228 ∷ 184 ∷ 138 ∷ 231 ∷ 153 ∷ 187 ∷ 229 ∷ 189 ∷ 149 ∷ 239 ∷ 188 ∷ 140 ∷ 232 ∷ 139 ∷ 165
    ∷ 233 ∷ 157 ∷ 158 ∷ 230 ∷ 156 ∷ 172 ∷ 228 ∷ 186 ∷ 186 ∷ 230 ∷ 147 ∷ 141 ∷ 228 ∷ 189 ∷ 156 ∷ 239
    ∷ 188 ∷ 140 ∷ 232 ∷ 175 ∷ 183 ∷ 231 ∷ 153 ∷ 187 ∷ 229 ∷ 189 ∷ 149 ∷ 229 ∷ 144 ∷ 142 ∷ 228 ∷ 191
    ∷ 174 ∷ 230 ∷ 148 ∷ 185 ∷ 229 ∷ 175 ∷ 134 ∷ 231 ∷ 160 ∷ 129 ∷ []

-- `append(s[:i], s[i+1:]...)` in the backing array of a slice of length `len`: what is behind `i`
-- moves down by one, and what is behind the slice stays.
unfoldable pub shift_down : ℕ → ℕ → List ℕ → List ℕ
shift_down i len [] = []
shift_down zero zero (x ∷ xs) = x ∷ xs
shift_down zero (suc zero) (x ∷ xs) = x ∷ xs
shift_down zero (suc (suc len)) (x ∷ []) = x ∷ []
shift_down zero (suc (suc len)) (x ∷ y ∷ xs) = y ∷ shift_down zero (suc len) (y ∷ xs)
shift_down (suc i) zero (x ∷ xs) = x ∷ xs
shift_down (suc i) (suc len) (x ∷ xs) = x ∷ shift_down i len xs

-- `append(s, p)` in a backing array with room behind the slice, or in a new one.
unfoldable pub put_end : ℕ → ℕ → List ℕ → List ℕ
put_end p zero [] = p ∷ []
put_end p (suc len) [] = p ∷ []
put_end p zero (x ∷ xs) = p ∷ xs
put_end p (suc len) (x ∷ xs) = x ∷ put_end p len xs

-- Do two platforms exclude one another?
unfoldable pub is_exclusive : ℕ → ℕ → Bool
is_exclusive a b = leb 1 (bit_or a b) && leb (bit_or a b) 3

-- The terminal that a login makes.
abbrev pub new_terminal : UserOnlineState → Session
new_terminal msg = record {
  id = msg.uid;
  plat = msg.termtype;
  online = false;
  login = msg.login;
  auth_code = msg.code;
  ios_token = msg.device_token;
  off_msg = record { push = record { off_cnt = 0; msg = [] }; cb = []; im = [] };
}

abbrev pub logged_in : UserOnlineState → Session → Session
logged_in msg v = record v { auth_code = msg.code; ios_token = msg.device_token; login = msg.login }

pub record Loop (R : Type 0) : Type 0 where
  pub array : List ℕ
  pub len : ℕ
  pub found : Bool
  pub router : Router R

-- The calls that throw a terminal out.
abbrev pub kick_calls : Bytes → Session → ℕ → List Call
kick_calls comet v reason =
    kicked comet (record { id = v.id; termtype = v.plat; token = v.auth_code; reason = reason })
    ∷ (if v.plat == plat_ios
        then pushed comet (record {
          tp = 1;
          flag = 1;
          id = v.id;
          termtype = v.plat;
          apple_token = v.ios_token;
          msg = notice;
        })
          ∷ []
        else [])

module _ {R : Type 0} where
  -- `sess.Sess = …` through a pointer.
  unfoldable pub write_box : ℕ → List ℕ → Storager R → Storager R
  write_box p is st = elim (get_elem? st.boxes p) [
    | none ↦ st
    | some s ↦ record st { boxes = set st.boxes p (record s { sess = is }) }
  ]

  -- The cached structure of the user shares the backing array, with the length from before.
  unfoldable pub share_array : Bytes → ℕ → List ℕ → Storager R → Storager R
  unfolding write_box
  share_array uid n array st = elim (lookup uid st.mem_store) [
    | none ↦ st
    | some q ↦ write_box q (take n array) st
  ]

  -- A terminal that is online and logged in is thrown out, if the router knows the user's comet.
  unfoldable pub throw_out : Bytes → Session → ℕ → Router R → Router R
  throw_out comet_id v reason r =
      if v.online && v.login
      then (elim (find_comet r.pool comet_id) [
        | none ↦ r
        | some c ↦ record r { calls = r.calls ++ kick_calls c.id v reason }
      ])
      else r

  -- The round for a terminal of the same platform.
  abbrev pub same_platform : UserOnlineState → Bytes → ℕ → Session → Loop R → Loop R
  same_platform msg comet_id j v l =
      let r = throw_out comet_id v kick_reason_repeat l.router in
      record l { found = true; router = record r { store = change_item r.store j (logged_in msg) } }

  -- The round for a terminal of an excluded platform, which leaves the slice. `sess.Sess[i+1:]` panics
  -- when the slice has become too short.
  abbrev pub other_platform : Bytes → ℕ → Session → Loop R → Outcome (Loop R)
  other_platform comet_id i v l =
      let l1 : Loop R = record l { router = throw_out comet_id v kick_reason_mutex l.router } in
      if ltb i l.len
      then finished (record l1 { array = shift_down i l.len l.array; len = l.len - 1 })
      else panicked l1

  unfoldable pub round : UserOnlineState → Bytes → ℕ → Loop R → Outcome (Loop R)
  unfolding throw_out is_exclusive
  round msg comet_id i l = elim (get_elem? l.array i) [
    | none ↦ finished l
    | some j ↦ elim (get_elem? l.router.store.items j) [
      | none ↦ finished l
      | some v ↦
          if v.plat == msg.termtype
          then finished (same_platform msg comet_id j v l)
          else if is_exclusive v.plat msg.termtype
          then other_platform comet_id i v l
          else finished l
    ]
  ]

  abbrev pub then_loop : Outcome (Loop R) → (Loop R → Outcome (Loop R)) → Outcome (Loop R)
  then_loop (finished l) f = f l
  then_loop (panicked l) f = panicked l

  -- The rounds from the i-th on.
  unfoldable pub rounds : UserOnlineState → Bytes → ℕ → ℕ → Loop R → Outcome (Loop R)
  unfolding round
  rounds msg comet_id zero i l = finished l
  rounds msg comet_id (suc k) i l =
      then_loop (round msg comet_id i l) (λ m. rounds msg comet_id k (suc i) m)

  -- What the loop leaves in the structures.
  unfoldable pub settle : Bytes → ℕ → ℕ → Loop R → Storager R
  unfolding write_box share_array
  settle uid p n l = write_box p (take l.len l.array) (share_array uid n l.array l.router.store)

  -- The new terminal at the end of the slice.
  abbrev pub appended : UserOnlineState → Loop R → Loop R
  appended msg l =
      let st = l.router.store in
      record {
        array = put_end (length st.items) l.len l.array;
        len = suc l.len;
        found = l.found;
        router = record l.router {
          store = record st { items = st.items ++ (new_terminal msg ∷ []) };
        };
      }

  -- `if find == false { … }`
  unfoldable pub add_terminal : UserOnlineState → Loop R → Loop R
  add_terminal msg l = if l.found then l else appended msg l

module _ {R : Type 0} (redis : Redis R) where
  -- What follows the loop over `n` terminals.
  abbrev pub after_rounds : UserOnlineState → ℕ → ℕ → Outcome (Loop R) → Outcome (Router R)
  after_rounds msg p n (finished l) =
      finished (
        with_store redis l.router (save_sessions redis (settle msg.uid p n (add_terminal msg l)) p))
  after_rounds msg p n (panicked l) = panicked (with_store redis l.router (settle msg.uid p n l))

  -- `sess == nil`: a new structure with one terminal.
  unfoldable pub new_user : UserOnlineState → Storager R → Storager R
  new_user msg st =
      save_sessions redis
        (record st {
          boxes =
              st.boxes
              ++ (record { id = msg.uid; comet_id = []; sess = length st.items ∷ [] } ∷ []);
          items = st.items ++ (new_terminal msg ∷ []);
        })
        (length st.boxes)

  -- NsqHandler, a UserOnlineState: a user who logs out changes nothing.
  unfoldable pub user_online_state : UserOnlineState → Router R → Outcome (Router R)
  unfolding rounds add_terminal settle new_user
  user_online_state msg r =
      if msg.login
      then with_box (find_sessions redis r.store msg.uid)
          (λ st. finished (with_store redis r (new_user msg st)))
          (λ st p. elim (get_elem? st.boxes p) [
            | none ↦ finished (with_store redis r st)
            | some s ↦ after_rounds msg p (length s.sess) (
                rounds msg s.comet_id (length s.sess) 0 (record {
                  array = s.sess;
                  len = length s.sess;
                  found = false;
                  router = with_store redis r st;
                }))
          ])
      else finished r
