-- ===== src/Router/Login/Boxes.antt =====
-- What a login leaves in the store (router/procNsq.go): the terminal is in the slice, the slice in the
-- box, and the box in Redis and in the cache.
use galopush.Prelude.{
  ℕ, suc, ◌<◌, Bytes, Bool, true, false, if◌then◌else◌, List, [], ◌∷◌, ◌++◌, none, some, length,
  get_elem?, set, take, ◌≡◌, refl, sym, ap, ◌∙◌, arith, inl, inr, Bool-cases, Option-cases,
  get_elem?-end, get_elem?-set_self, get_elem?-set_ne, lt_of_get_elem?, same_iff, ◌==◌,
}
use galopush.Prelude.Assoc.{lookup, insert, lookup-insert}
use galopush.Rds.Defs.{Session, Sessions, Document, Redis}
use galopush.Rds.Store.{Storager, marshal, copy_box, find_sessions, save_sessions}
use galopush.Rds.Messages.{terminals}
use galopush.Router.Rpc.{Router, Code, auth, with_store}
use galopush.Router.Rpc.Auth.{auth_iff}
use galopush.Router.Login.{
  UserOnlineState, Loop, new_terminal, write_box, share_array, settle, appended, add_terminal,
}
use galopush.Router.Login.Shift.{put_end-end}
use galopush.Router.Login.Round.{Written, Kept}

id_of_some : (a b : Sessions) → some a ≡ some b → a.id ≡ b.id
id_of_some a b e = ap (λ o. elim o [ none ↦ [] | some s ↦ s.id ]) e

module _ {R : Type 0} where
  -- After `if find == false { … }` there is a terminal that the login has written.
  pub add_terminal-Written :
      (msg : UserOnlineState) (boxes : List Sessions) (l : Loop R)
      → msg.login ≡ true
      → Kept msg boxes l
      → Written msg (add_terminal msg l)
  unfolding add_terminal
  add_terminal-Written msg boxes l login h = go l.found refl
    where
      lt_suc : (n : ℕ) → n < suc n
      lt_suc n = omega arith

      go : (b : Bool) → l.found ≡ b → Written msg (if b then l else appended msg l)
      go true found = h.written found
      go false new = record {
        pointer = length l.router.store.items;
        it = new_terminal msg;
        found = get_elem?-end l.router.store.items (new_terminal msg);
        same_plat = refl;
        same_code = refl;
        is_in = login;
        listed =
            (l.len, lt_suc l.len, put_end-end (length l.router.store.items) l.len l.array h.bound);
      }

  pub boxes-add_terminal :
      (msg : UserOnlineState) (l : Loop R)
      → (add_terminal msg l).router.store.boxes ≡ l.router.store.boxes
  unfolding add_terminal
  boxes-add_terminal msg l = elim (Bool-cases l.found) [
    | inl found ↦ rw found refl
    | inr new ↦ rw new refl
  ]

  -- What is read of a box after another slice was written into some box.
  write_box_self :
      (p : ℕ) (is : List ℕ) (st : Storager R) (s : Sessions)
      → get_elem? st.boxes p ≡ some s
      → get_elem? (write_box p is st).boxes p ≡ some (record s { sess = is })
  unfolding write_box
  write_box_self p is st s at =
      rw (at, write_box) (get_elem?-set_self st.boxes p _ (lt_of_get_elem? st.boxes p s at))

  write_box-id :
      (q p : ℕ) (is : List ℕ) (st : Storager R) (s : Sessions)
      → get_elem? st.boxes p ≡ some s
      → (t : Sessions) × (get_elem? (write_box q is st).boxes p ≡ some t) × (t.id ≡ s.id)
  unfolding write_box
  write_box-id q p is st s at = elim (Option-cases (get_elem? st.boxes q)) [
    | inl gone ↦ rw (gone, write_box) (s, at, refl)
    | inr (u, there) ↦
        rw (there, write_box)
          (elim (Bool-cases (q == p)) [
            | inl e ↦
                let same : q ≡ p = ground arith in
                let ids = id_of_some u s (sym there ∙ ap (λ k. get_elem? st.boxes k) same ∙ at) in
                (
                  record u { sess = is },
                  ap (λ k. get_elem? (set st.boxes q (record u { sess = is })) k) (sym same)
                      ∙ get_elem?-set_self st.boxes q _ (lt_of_get_elem? st.boxes q u there),
                  ids,
                )
            | inr ne ↦ (s, get_elem?-set_ne st.boxes q p _ (λ e. ground arith) ∙ at, refl)
          ])
  ]

  items-write_box : (p : ℕ) (is : List ℕ) (st : Storager R) → (write_box p is st).items ≡ st.items
  unfolding write_box
  items-write_box p is st = elim (Option-cases (get_elem? st.boxes p)) [
    | inl gone ↦ rw (gone, write_box) refl
    | inr (s, at) ↦ rw (at, write_box) refl
  ]

  -- What the loop leaves: the box of the handler has the slice, under the user's id.
  pub settle-box :
      (uid : Bytes) (p n : ℕ) (l : Loop R) (s : Sessions)
      → get_elem? l.router.store.boxes p ≡ some s
      → (t : Sessions) × (get_elem? (settle uid p n l).boxes p ≡ some t)
        × (t.id ≡ s.id)
        × (t.sess ≡ take l.len l.array)
        × ((settle uid p n l).items ≡ l.router.store.items)
  unfolding settle share_array
  settle-box uid p n l s at = elim (Option-cases (lookup uid l.router.store.mem_store)) [
    | inl absent ↦
        rw (absent, share_array)
          (
            _,
            write_box_self p (take l.len l.array) l.router.store s at,
            refl,
            refl,
            items-write_box p (take l.len l.array) l.router.store,
          )
    | inr (q, cached) ↦
        let shared = write_box q (take n l.array) l.router.store in
        let (t, there, same_id) = write_box-id q p (take n l.array) l.router.store s at in
        rw (cached, share_array)
          (
            _,
            write_box_self p (take l.len l.array) shared t there,
            same_id,
            refl,
            items-write_box p (take l.len l.array) shared
                ∙ items-write_box q (take n l.array) l.router.store,
          )
  ]

-- Redis takes every document.
abbrev pub Accepts : {R : Type 0} → Redis R → Type 0
Accepts {R} redis = (cli : R) (id : Bytes) (doc : Document) → (redis.put cli id doc).1 ≡ true

module _ {R : Type 0} (redis : Redis R) where
  save_sessions-accepted :
      (st : Storager R) (p : ℕ) (s : Sessions)
      → Accepts redis
      → get_elem? st.boxes p ≡ some s
      → save_sessions redis st p ≡ record st {
        cli = (redis.put st.cli s.id (marshal redis st s)).0;
        mem_store = insert s.id p st.mem_store;
      }
  unfolding save_sessions
  save_sessions-accepted st p s accepts at =
      rw (at, save_sessions) (rw (accepts st.cli s.id (marshal redis st s)) refl)

  find_sessions-cached :
      (st : Storager R) (id : Bytes) (p : ℕ) (s : Sessions)
      → lookup id st.mem_store ≡ some p
      → get_elem? st.boxes p ≡ some s
      → find_sessions redis st id
        ≡ (some (length st.boxes), record st { boxes = st.boxes ++ (s ∷ []) })
  unfolding find_sessions copy_box
  find_sessions-cached st id p s cached at =
      rw (cached, find_sessions) (rw (at, find_sessions) refl)

  -- Once a box with a terminal that the login has written is saved, the router lets it in.
  pub saved-auth :
      (msg : UserOnlineState) (p : ℕ) (s : Sessions) (st : Storager R) (r : Router R) (k i : ℕ)
      (it : Session)
      → Accepts redis
      → get_elem? st.boxes p ≡ some s
      → s.id ≡ msg.uid
      → get_elem? s.sess k ≡ some i
      → get_elem? st.items i ≡ some it
      → it.plat ≡ msg.termtype
      → it.auth_code ≡ msg.code
      → it.login ≡ true
      → (auth redis
          (record { id = msg.uid; plat = msg.termtype; code = msg.code })
          (with_store redis r (save_sessions redis st p))).0
        ≡ Code.rpc_ret_success
  unfolding terminals
  saved-auth msg p s st r k i it accepts at same_id listed found plat code login =
      let saved = save_sessions-accepted st p s accepts at in
      let st1 : Storager R = record st {
        cli = (redis.put st.cli s.id (marshal redis st s)).0;
        mem_store = insert s.id p st.mem_store;
      } in
      let cached : lookup msg.uid st1.mem_store ≡ some p =
        rw (sym same_id)
          (rw (lookup-insert s.id s.id p st.mem_store) (ground (arith, same_iff s.id s.id))) in
      let hit = find_sessions-cached st1 msg.uid p s cached at in
      rw saved (
        (auth_iff redis _ (with_store redis r st1) _ _ hit).1 (record {
          at = k;
          pointer = i;
          it = it;
          listed = rw (get_elem?-end st.boxes s, terminals) listed;
          found = found;
          same_plat = plat;
          same_code = code;
          logged_in = login;
        }))
