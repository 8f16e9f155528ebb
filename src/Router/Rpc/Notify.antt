-- ===== src/Router/Rpc/Notify.antt =====
-- What the router makes of a terminal that goes offline (StateNotify of router/procRpc.go).
use galopush.Prelude.{
  ℕ, zero, suc, ◌+◌, ◌-◌, Bytes, Bool, true, false, ◌==◌, ◌=ₛ◌, ◌&&◌, leb, same_iff, if◌then◌else◌,
  List, [], ◌∷◌, Option, none, some, get_elem?, ◌≡◌, refl, ap, ◌∙◌, sym, subst, arith, Bool-cases,
  Option-cases, inl, inr,
}
use galopush.Rds.Defs.{Session, Redis}
use galopush.Rds.Store.{Storager, find_sessions, copy_box, cache_document}
use galopush.Rds.Messages.{terminals, change_item}
use galopush.Prelude.Assoc.{lookup, lookup-insert}
use galopush.Prelude.Int.{ℤ, pos, negsuc, sub_one}
use galopush.Comet.State.{StateNotify}
use galopush.Router.Pool.{CometEntry, Pool, find_comet, change_online, comet_sub}
use galopush.Router.Rpc.{Router, is_notified, set_comet, notify_offline, with_store, state_notify}

-- Is the terminal of the platform of a notification, under its token?
abbrev pub is_of : StateNotify → Session → Bool
is_of msg it = it.plat == msg.plat && it.auth_code =ₛ msg.token

-- Is there a terminal that holds the token?
unfoldable pub is_listed : StateNotify → List Session → List ℕ → Bool
is_listed msg items [] = false
is_listed msg items (i ∷ is) =
    let rest = is_listed msg items is in
    elim (get_elem? items i) [ none ↦ rest | some it ↦ if is_of msg it then true else rest ]

-- The number of terminals up to the one that holds the token, or of all of them.
unfoldable pub visited : StateNotify → List Session → List ℕ → ℕ
visited msg items [] = 0
visited msg items (i ∷ is) =
    let rest = visited msg items is in
    elim (get_elem? items i) [ none ↦ suc rest | some it ↦ if is_of msg it then 1 else suc rest ]

-- A count less a number.
abbrev pub less : ℤ → ℕ → ℤ
less (pos a) n = if leb n a then pos (a - n) else negsuc (n - a - 1)
less (negsuc a) n = negsuc (a + n)

abbrev pub lower : ℕ → Option CometEntry → Option CometEntry
lower n none = none
lower n (some c) = some (record c { online = less c.online n })

-- A pool in which the comet of the name has a count that is lower by the number, and every other comet
-- is as before.
abbrev pub IsLowered : ℕ → Bytes → Pool → Pool → Type 0
IsLowered n id p q =
    (j : Bytes) → find_comet q j ≡ (if id =ₛ j then lower n (find_comet p j) else find_comet p j)

-- The pool after that many connections of a comet ended.
unfoldable pub subs : ℕ → Bytes → Pool → Pool
subs zero id p = p
subs (suc n) id p = subs n id (comet_sub p id)

less_zero : (z : ℤ) → less z 0 ≡ z
less_zero (pos a) = ground arith
less_zero (negsuc a) = ground arith

less-sub_one : (z : ℤ) (n : ℕ) → less (sub_one z) n ≡ less z (suc n)
less-sub_one (pos zero) n = ground arith
less-sub_one (pos (suc a)) n = ground arith
less-sub_one (negsuc a) n = ground arith

-- One connection less.
comet_sub-IsLowered : (id : Bytes) (p : Pool) → IsLowered 1 id p (comet_sub p id)
unfolding change_online
comet_sub-IsLowered id p = λ j. elim (Option-cases (find_comet p id)) [
  | inl gone ↦ ground (arith, gone, same_iff id j)
  | inr (c, at) ↦
      rw (at, change_online)
        (rw (lookup-insert id j (record c { online = sub_one c.online }) p) (
          ground (arith, at, same_iff id j, less-sub_one c.online 0, less_zero (sub_one c.online))))
]

lower-lower : (n : ℕ) (o : Option CometEntry) → lower n (lower 1 o) ≡ lower (suc n) o
lower-lower n none = refl
lower-lower n (some c) =
    ap (λ z. some (record c { online = z }))
      (ap (λ z. less z n) (sym (less-sub_one c.online 0) ∙ less_zero (sub_one c.online))
        ∙ less-sub_one c.online n)

lower_zero : (o : Option CometEntry) → lower 0 o ≡ o
lower_zero none = refl
lower_zero (some c) = ap (λ z. some (record c { online = z })) (less_zero c.online)

subs-IsLowered : (n : ℕ) (id : Bytes) (p : Pool) → IsLowered n id p (subs n id p)
unfolding subs
subs-IsLowered zero id p = λ j. ground (arith, lower_zero (find_comet p j))
subs-IsLowered (suc n) id p = λ j. ground (
  arith,
  comet_sub-IsLowered id p j,
  subs-IsLowered n id (comet_sub p id) j,
  lower-lower n (find_comet p j),
)

module _ {R : Type 0} (redis : Redis R) where
  cli-change_item :
      (st : Storager R) (i : ℕ) (f : Session → Session) → (change_item st i f).cli ≡ st.cli
  unfolding change_item
  cli-change_item st i f = elim (Option-cases (get_elem? st.items i)) [
    | inl gone ↦ rw (gone, change_item) refl
    | inr (it, at) ↦ rw (at, change_item) refl
  ]

  notify_offline-cli :
      (msg : StateNotify) (p : ℕ) (is : List ℕ) (r : Router R)
      → is_listed msg r.store.items is ≡ true
      → (notify_offline redis msg p is r).store.cli ≡ r.store.cli
  unfolding notify_offline is_listed
  notify_offline-cli msg p [] r listed = ground arith
  notify_offline-cli msg p (i ∷ is) r listed =
      let r1 : Router R = record r { pool = comet_sub r.pool msg.comet_id } in
      elim (Option-cases (get_elem? r.store.items i)) [
        | inl gone ↦
            rw (gone, notify_offline)
              (notify_offline-cli msg p is r1 (rw (gone, is_listed) at listed))
        | inr (it, at) ↦ elim (Bool-cases (is_notified msg it)) [
          | inl held ↦ rw (at, notify_offline) (rw held (cli-change_item r.store i _))
          | inr other ↦
              rw (at, notify_offline)
                (rw other (notify_offline-cli msg p is r1 (ground (arith, listed, at, other))))
        ]
      ]

  pub notify_offline-subs :
      (msg : StateNotify) (p : ℕ) (is : List ℕ) (r : Router R)
      → (notify_offline redis msg p is r).pool
        ≡ subs (visited msg r.store.items is) msg.comet_id r.pool
  unfolding notify_offline visited subs
  notify_offline-subs msg p [] r = refl
  notify_offline-subs msg p (i ∷ is) r =
      let r1 : Router R = record r { pool = comet_sub r.pool msg.comet_id } in
      elim (Option-cases (get_elem? r.store.items i)) [
        | inl gone ↦ rw (gone, notify_offline, visited) (notify_offline-subs msg p is r1)
        | inr (it, at) ↦ elim (Bool-cases (is_notified msg it)) [
          | inl held ↦ rw (at, notify_offline, visited) (rw held refl)
          | inr other ↦
              rw (at, notify_offline, visited) (rw other (notify_offline-subs msg p is r1))
        ]
      ]

  cli-find_sessions : (st : Storager R) (id : Bytes) → (find_sessions redis st id).1.cli ≡ st.cli
  unfolding find_sessions copy_box cache_document
  cli-find_sessions st id = elim (Option-cases (lookup id st.mem_store)) [
    | inr (p, hit) ↦ elim (Option-cases (get_elem? st.boxes p)) [
      | inl gone ↦ rw (hit, find_sessions) (rw (gone, find_sessions) refl)
      | inr (s, at) ↦ rw (hit, find_sessions) (rw (at, find_sessions) refl)
    ]
    | inl miss ↦ elim (Option-cases (redis.get st.cli id)) [
      | inl gone ↦ rw (miss, find_sessions) (rw (gone, find_sessions) refl)
      | inr (doc, read) ↦ rw (miss, find_sessions) (rw (read, find_sessions) refl)
    ]
  ]

  same-set_comet :
      (st : Storager R) (p : ℕ) (comet : Bytes)
      → ((set_comet redis st p comet).cli ≡ st.cli)
        × ((set_comet redis st p comet).items ≡ st.items)
  unfolding set_comet
  same-set_comet st p comet = elim (Option-cases (get_elem? st.boxes p)) [
    | inl gone ↦ rw (gone, set_comet) (refl, refl)
    | inr (s, at) ↦ rw (at, set_comet) (refl, refl)
  ]

  -- When a terminal goes offline whose user FindSessions finds, with a terminal of its platform and
  -- token: Redis keeps what it had, and the count of the comet is lower by the number of the terminals
  -- of the user up to the one that went offline, and every other comet is as before.
  pub state_notify-subs :
      (msg : StateNotify) (r : Router R) (p : ℕ) (st : Storager R)
      → msg.state ≡ 0
      → find_sessions redis r.store msg.id ≡ (some p, st)
      → is_listed msg st.items (terminals st p) ≡ true
      → ((state_notify redis msg r).store.cli ≡ r.store.cli)
        × IsLowered
            (visited msg st.items (terminals st p))
            msg.comet_id
            r.pool
            (state_notify redis msg r).pool
  unfolding state_notify visited
  state_notify-subs msg r p st offline found listed =
      let same = same-set_comet st p msg.comet_id in
      let r1 : Router R = with_store redis r (set_comet redis st p msg.comet_id) in
      let cli : st.cli ≡ r.store.cli = rw found at (cli-find_sessions r.store msg.id) in
      let is = terminals st p in
      rw offline (
        rw (found, state_notify)
          (
            notify_offline-cli msg p is r1 (ap (λ xs. is_listed msg xs is) same.1 ∙ listed)
                ∙ same.0
                ∙ cli,
            subst (IsLowered (visited msg st.items is) msg.comet_id r.pool)
                (sym (
                  notify_offline-subs msg p is r1
                  ∙ ap (λ xs. subs (visited msg xs is) msg.comet_id r.pool) same.1))
                (subs-IsLowered (visited msg st.items is) msg.comet_id r.pool),
          ))
