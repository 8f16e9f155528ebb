-- ===== src/Router/Login/Admission.antt =====
-- A login, and then the terminal's registration: NsqHandler of router/procNsq.go leaves what
-- AuthRequest of router/procRpc.go looks for.
use galopush.Prelude.{
  ℕ, ◌≤◌, Bool, true, false, if◌then◌else◌, Option, none, some, length, get_elem?, ◌≡◌, refl, subst,
  ap, ◌∙◌, arith, get_elem?-end, lt_of_get_elem?,
}
use galopush.Rds.Defs.{Sessions, Redis}
use galopush.Rds.Store.{Storager, find_sessions, save_sessions}
use galopush.Rds.Messages.{with_box}
use galopush.Comet.State.{finished}
use galopush.Router.Rpc.{Router, Code, AuthRequest, auth, with_store}
use galopush.Router.Login.{
  UserOnlineState, Loop, new_terminal, rounds, settle, add_terminal, after_rounds, new_user,
  user_online_state,
}
use galopush.Router.Login.Shift.{get_elem?-take}
use galopush.Router.Login.Totality.{AtMostOne, rounds-finish}
use galopush.Router.Login.Round.{OnFinish, Kept, rounds-Kept}
use galopush.Router.Login.Boxes.{
  Accepts, add_terminal-Written, boxes-add_terminal, settle-box, saved-auth,
}

-- The test of an if that is known.
if_true {ℓ} : {A : Type ℓ} (b : Bool) (x y : A) → b ≡ true → (if b then x else y) ≡ x
if_true b x y e = rw e refl

module _ {R : Type 0} (redis : Redis R) where
  -- The request that a terminal registers with after a login.
  abbrev pub request_of : UserOnlineState → AuthRequest
  request_of msg = record { id = msg.uid; plat = msg.termtype; code = msg.code }

  -- What FindSessions finds for a user: nothing, or a box under the user's id with at most one
  -- terminal of an excluded platform.
  abbrev pub Suits : UserOnlineState → Option ℕ → Storager R → Type 0
  Suits msg none st = Unit {0}
  Suits msg (some p) st =
      (s : Sessions) × (get_elem? st.boxes p ≡ some s)
      × (s.id ≡ msg.uid)
      × AtMostOne msg st.items s.sess

  -- The loop's state before its first round.
  abbrev first_round : Sessions → Router R → Loop R
  first_round s r = record { array = s.sess; len = length s.sess; found = false; router = r }

  first_round-Kept :
      (msg : UserOnlineState) (s : Sessions) (r : Router R)
      → Kept msg r.store.boxes (first_round s r)
  first_round-Kept msg s r = record {
    untouched = refl;
    bound = le_self (length s.sess);
    same = λ k j it listed found same. (k, lt_of_get_elem? s.sess k j listed, listed);
    written = λ e. ground arith;
  }
    where
      le_self : (n : ℕ) → n ≤ n
      le_self n = omega arith

  after_rounds-auth :
      (msg : UserOnlineState) (p n : ℕ) (s : Sessions) (st : Storager R) (l : Loop R)
      → Accepts redis
      → msg.login ≡ true
      → get_elem? st.boxes p ≡ some s
      → s.id ≡ msg.uid
      → Kept msg st.boxes l
      → (auth redis (request_of msg) (
          with_store redis l.router
            (save_sessions redis (settle msg.uid p n (add_terminal msg l)) p))).0
        ≡ Code.rpc_ret_success
  after_rounds-auth msg p n s st l accepts login at same_id h =
      let m = add_terminal msg l in
      let w = add_terminal-Written msg st.boxes l login h in
      let (k, lt, listed) = w.listed in
      let box = ap (λ xs. get_elem? xs p) (boxes-add_terminal msg l ∙ h.untouched) ∙ at in
      let (t, there, ids, slice, items) = settle-box msg.uid p n m s box in
      saved-auth redis msg p t (settle msg.uid p n m) l.router k w.pointer w.it accepts there
        (ids ∙ same_id) (rw slice (get_elem?-take m.len k m.array lt ∙ listed)) (rw items w.found)
        w.same_plat w.same_code w.is_in

  user_online_state-known :
      (msg : UserOnlineState) (r : Router R) (p : ℕ) (st : Storager R) (s : Sessions)
      → msg.login ≡ true
      → find_sessions redis r.store msg.uid ≡ (some p, st)
      → get_elem? st.boxes p ≡ some s
      → user_online_state redis msg r
        ≡ after_rounds redis msg p
            (length s.sess)
            (rounds msg s.comet_id (length s.sess) 0 (first_round s (with_store redis r st)))
  unfolding user_online_state
  user_online_state-known msg r p st s login found at =
      if_true _ _ _ login ∙ rw (found, with_box) (rw (at, user_online_state) refl)

  user_online_state-unknown :
      (msg : UserOnlineState) (r : Router R) (st : Storager R)
      → msg.login ≡ true
      → find_sessions redis r.store msg.uid ≡ (none, st)
      → user_online_state redis msg r ≡ finished (with_store redis r (new_user redis msg st))
  unfolding user_online_state
  user_online_state-unknown msg r st login found = if_true _ _ _ login ∙ rw (found, with_box) refl

  -- For a user whom FindSessions does not find, or finds in a box under the user's id with at most one
  -- terminal of an excluded platform, and a Redis that accepts: a login never panics, and then the
  -- router lets in the terminal with the user's name, the platform and the code of the login.
  pub user_online_state-auth :
      (msg : UserOnlineState) (r : Router R) (o : Option ℕ) (st : Storager R)
      → Accepts redis
      → msg.login ≡ true
      → find_sessions redis r.store msg.uid ≡ (o, st)
      → Suits msg o st
      → (r1 : Router R) × (user_online_state redis msg r ≡ finished r1)
        × ((auth redis (request_of msg) r1).0 ≡ Code.rpc_ret_success)
  unfolding new_user
  user_online_state-auth msg r none st accepts login found suits = (
    with_store redis r (new_user redis msg st),
    user_online_state-unknown msg r st login found,
    saved-auth redis msg (length st.boxes) _ _ r 0 (length st.items) (new_terminal msg) accepts
        (get_elem?-end st.boxes _) refl refl (get_elem?-end st.items _) refl refl login,
  )
  user_online_state-auth msg r (some p) st accepts login found (s, at, same_id, one) =
      let start = first_round s (with_store redis r st) in
      let (m, ends) =
        rounds-finish msg s.comet_id (length s.sess) 0 start
          (λ k le e. (refl, λ j lj ej. one j k ej e)) in
      let kept : Kept msg st.boxes m = subst (OnFinish (Kept msg st.boxes)) ends (
        rounds-Kept msg st.boxes login s.comet_id (length s.sess) 0 start
          (first_round-Kept msg s (with_store redis r st))) in
      (
        with_store redis m.router
            (save_sessions redis (settle msg.uid p (length s.sess) (add_terminal msg m)) p),
        user_online_state-known msg r p st s login found at
            ∙ ap (after_rounds redis msg p (length s.sess)) ends,
        after_rounds-auth msg p (length s.sess) s st m accepts login at same_id kept,
      )
