-- ===== src/Router/Login/Steps.antt =====
-- What a round of the loop over a user's terminals does to the store, branch by branch.
use galopush.Prelude.{
  Bytes, ℕ, true, false, ◌==◌, List, none, some, get_elem?, set, get_elem?-set_self,
  get_elem?-set_ne, lt_of_get_elem?, ◌≡◌, refl, sym, ap, ◌∙◌, arith, inl, inr, Bool-cases,
  Option-cases,
}
use galopush.Rds.Defs.{Session}
use galopush.Rds.Messages.{change_item}
use galopush.Protocol.Message.{kick_reason_repeat}
use galopush.Comet.State.{Outcome, finished}
use galopush.Rds.Store.{Storager}
use galopush.Router.Pool.{find_comet}
use galopush.Router.Rpc.{Router}
use galopush.Router.Login.{
  UserOnlineState, Loop, is_exclusive, logged_in, throw_out, same_platform, other_platform, round,
}

pub plat_of_some : (a b : Session) → some a ≡ some b → a.plat ≡ b.plat
plat_of_some a b e = ap (λ o. elim o [ none ↦ 0 | some it ↦ it.plat ]) e

-- What a terminal has become has the platform it had.
pub plat_before :
    (msg : UserOnlineState) (items : List Session) (j i : ℕ) (v it : Session)
    → get_elem? items j ≡ some v
    → get_elem? (set items j (logged_in msg v)) i ≡ some it
    → (old : Session) × (get_elem? items i ≡ some old) × (old.plat ≡ it.plat)
plat_before msg items j i v it at now = elim (Bool-cases (j == i)) [
  | inl e ↦
      let same : j ≡ i = ground arith in
      let wrote = get_elem?-set_self items j (logged_in msg v) (lt_of_get_elem? items j v at) in
      let here = ap (λ k. get_elem? (set items j (logged_in msg v)) k) same ∙ now in
      (
        v,
        ap (λ k. get_elem? items k) (sym same) ∙ at,
        plat_of_some (logged_in msg v) it (sym wrote ∙ here),
      )
  | inr ne ↦
      (it, sym (get_elem?-set_ne items j i (logged_in msg v) (λ e. ground arith)) ∙ now, refl)
]

module _ {R : Type 0} where
  pub store-throw_out :
      (comet : Bytes) (v : Session) (reason : ℕ) (r : Router R)
      → (throw_out comet v reason r).store ≡ r.store
  unfolding throw_out
  store-throw_out comet v reason r = elim (Option-cases (find_comet r.pool comet)) [
    | inl gone ↦ rw (gone, throw_out) (ground arith)
    | inr (c, known) ↦ rw (known, throw_out) (ground arith)
  ]

  pub items-change_item :
      (st : Storager R) (j : ℕ) (v : Session) (f : Session → Session)
      → get_elem? st.items j ≡ some v
      → (change_item st j f).items ≡ set st.items j (f v)
  unfolding change_item
  items-change_item st j v f at = rw (at, change_item) refl

  boxes-change_item :
      (st : Storager R) (j : ℕ) (f : Session → Session) → (change_item st j f).boxes ≡ st.boxes
  unfolding change_item
  boxes-change_item st j f = elim (Option-cases (get_elem? st.items j)) [
    | inl gone ↦ rw (gone, change_item) refl
    | inr (it, at) ↦ rw (at, change_item) refl
  ]

  pub items-same_platform :
      (msg : UserOnlineState) (comet : Bytes) (j : ℕ) (v : Session) (l : Loop R)
      → get_elem? l.router.store.items j ≡ some v
      → (same_platform msg comet j v l).router.store.items
        ≡ set l.router.store.items j (logged_in msg v)
  items-same_platform msg comet j v l at =
      let thrown = store-throw_out comet v kick_reason_repeat l.router in
      items-change_item _ j v (logged_in msg) (rw thrown at) ∙ rw thrown refl

  pub boxes-same_platform :
      (msg : UserOnlineState) (comet : Bytes) (j : ℕ) (v : Session) (l : Loop R)
      → (same_platform msg comet j v l).router.store.boxes ≡ l.router.store.boxes
  boxes-same_platform msg comet j v l =
      boxes-change_item (throw_out comet v kick_reason_repeat l.router).store j (logged_in msg)
      ∙ rw (store-throw_out comet v kick_reason_repeat l.router) refl

  -- What holds of every branch of a round holds of the round.
  pub round-cases :
      (msg : UserOnlineState) (comet : Bytes) (i : ℕ) (l : Loop R) (P : Outcome (Loop R) → Type 0)
      → P (finished l)
      → ((j : ℕ) (v : Session)
          → get_elem? l.array i ≡ some j
          → get_elem? l.router.store.items j ≡ some v
          → v.plat ≡ msg.termtype
          → P (finished (same_platform msg comet j v l)))
      → ((j : ℕ) (v : Session)
          → get_elem? l.array i ≡ some j
          → get_elem? l.router.store.items j ≡ some v
          → (v.plat == msg.termtype) ≡ false
          → is_exclusive v.plat msg.termtype ≡ true
          → P (other_platform comet i v l))
      → P (round msg comet i l)
  unfolding round
  round-cases msg comet i l P idle same other = elim (Option-cases (get_elem? l.array i)) [
    | inl short ↦ rw (short, round) idle
    | inr (j, listed) ↦ elim (Option-cases (get_elem? l.router.store.items j)) [
      | inl gone ↦ rw (listed, round) (rw (gone, round) idle)
      | inr (v, at) ↦
          rw (listed, round)
            (rw (at, round)
              (elim (Bool-cases (v.plat == msg.termtype)) [
                | inl e ↦ rw e (same j v listed at (ground arith))
                | inr ne ↦ elim (Bool-cases (is_exclusive v.plat msg.termtype)) [
                  | inl cut ↦ rw ne (rw cut (other j v listed at ne cut))
                  | inr kept ↦ rw ne (rw kept idle)
                ]
              ]))
    ]
  ]
