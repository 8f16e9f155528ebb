-- ===== src/OldStores/Equivalence.antt =====
-- redisstore.go and mgostore.go give the same answers to every sequence of operations that saves no
-- instant message, over a reliable Redis and a reliable MongoDB. (Of instant messages the first keeps
-- a window and the second all.)
use galopush.Prelude.{
  ℕ, Bytes, Bool, ◌==◌, ◌=ₛ◌, if◌then◌else◌, List, [], ◌∷◌, ◌++◌, ◌≡◌, refl, sym, ap, ◌∙◌, inl, inr,
  Bool-cases,
}
use galopush.OldStores.RedisStore as RedisStore
use galopush.OldStores.RedisStore.{Client, of_plat, msgs}
use galopush.OldStores.MgoStore as MgoStore
use galopush.OldStores.MgoStore.{Item, Body, empty_body, Collection, msgs_of_plat, not_of_plat}
use galopush.OldStores.Views.{
  forget_items, forget, Changes, redis_view, IsReliable, save_with-Changes, fetch_with-Changes,
}
use galopush.OldStores.MgoViews.{
  mgo_view, IsReliableCollection, save_found-Changes, fetch_found-Changes,
}

pub data Op : Type 0 where
  put_push : Bytes → Bytes → Op
  put_callback : Bytes → ℕ → Bytes → Op
  take_push : Bytes → Op
  take_callbacks take_ims : Bytes → ℕ → Op

pub data Answer : Type 0 where
  went_well : Bool → Answer
  push_was : ℕ → Bytes → Answer
  msgs_were : List Bytes → Answer

forget_items-append :
    (a b : List RedisStore.Item) → forget_items (a ++ b) ≡ forget_items a ++ forget_items b
unfolding forget_items
forget_items-append [] b = refl
forget_items-append (v ∷ rest) b =
    ap (λ l. record { plat = v.plat; msg = v.msg } ∷ l) (forget_items-append rest b)

pub msgs-of_plat :
    (plat : ℕ) (xs : List RedisStore.Item)
    → msgs (of_plat plat xs) ≡ msgs_of_plat plat (forget_items xs)
unfolding msgs of_plat msgs_of_plat forget_items
msgs-of_plat plat [] = refl
msgs-of_plat plat (v ∷ rest) = elim (Bool-cases (v.plat == plat)) [
  | inl e ↦ rw e (ap (◌∷◌ v.msg) (msgs-of_plat plat rest))
  | inr ne ↦ rw ne (msgs-of_plat plat rest)
]

pub forget-not_of_plat :
    (plat : ℕ) (xs : List RedisStore.Item)
    → forget_items (RedisStore.not_of_plat plat xs) ≡ not_of_plat plat (forget_items xs)
unfolding RedisStore.not_of_plat not_of_plat forget_items
forget-not_of_plat plat [] = refl
forget-not_of_plat plat (v ∷ rest) = elim (Bool-cases (v.plat == plat)) [
  | inl e ↦ rw e (forget-not_of_plat plat rest)
  | inr ne ↦
      rw ne (ap (λ l. record { plat = v.plat; msg = v.msg } ∷ l) (forget-not_of_plat plat rest))
]

pub added :
    (plat : ℕ) (msg : Bytes) (b : RedisStore.Body)
    → forget (record b {
      callback = b.callback ++ (record { plat = plat; web_online = 0; msg = msg } ∷ []);
    })
      ≡ MgoStore.add_callback plat msg (forget b)
unfolding forget_items
added plat msg b =
    ap (λ l. record (forget b) { callback = l })
      (forget_items-append b.callback (record { plat = plat; web_online = 0; msg = msg } ∷ []))

-- What the fetching operations read of the messages, and what they leave.
abbrev taken_push : Body → (ℕ × Bytes) × Body
taken_push b = ((b.push.offline, b.push.msg), record b { push = record { offline = 0; msg = [] } })

abbrev pub taken_callbacks : ℕ → Body → List Bytes × Body
taken_callbacks plat b =
    (msgs_of_plat plat b.callback, record b { callback = not_of_plat plat b.callback })

abbrev taken_ims : ℕ → Body → List Bytes × Body
taken_ims plat b = (msgs_of_plat plat b.im, record b { im = not_of_plat plat b.im })

pub none_callbacks : (plat : ℕ) → taken_callbacks plat empty_body ≡ ([], empty_body)
unfolding msgs_of_plat not_of_plat
none_callbacks plat = refl

none_ims : (plat : ℕ) → taken_ims plat empty_body ≡ (msgs [], empty_body)
unfolding msgs_of_plat not_of_plat msgs
none_ims plat = refl

abbrev pushed : ℕ × Bytes → Answer
pushed (n, msg) = push_was n msg

module _ {R C : Type 0} (client : Client R) (coll : Collection C) where
  -- An operation of each store, with its answer.
  unfoldable pub redis_step : Op → R → Answer × R
  redis_step (put_push id msg) r =
      let (good, r1) = RedisStore.save_push_msg client r id msg in (went_well good, r1)
  redis_step (put_callback id plat msg) r =
      let (good, r1) = RedisStore.save_callback_msg client r id plat msg in (went_well good, r1)
  redis_step (take_push id) r =
      let (p, r1) = RedisStore.get_push_msg client r id in (push_was p.0 p.1, r1)
  redis_step (take_callbacks id plat) r =
      let (ms, r1) = RedisStore.get_callback_msg client r id plat in (msgs_were ms, r1)
  redis_step (take_ims id plat) r =
      let (ms, r1) = RedisStore.get_im_msg client r id plat in (msgs_were (msgs ms), r1)

  unfoldable pub mgo_step : Op → C → Answer × C
  mgo_step (put_push id msg) c =
      let (good, c1) = MgoStore.save_push_msg coll c id msg in (went_well good, c1)
  mgo_step (put_callback id plat msg) c =
      let (good, c1) = MgoStore.save_callback_msg coll c id plat msg in (went_well good, c1)
  mgo_step (take_push id) c =
      let (p, c1) = MgoStore.get_push_msg coll c id in (push_was p.0 p.1, c1)
  mgo_step (take_callbacks id plat) c =
      let (ms, c1) = MgoStore.get_callback_msg coll c id plat in (msgs_were ms, c1)
  mgo_step (take_ims id plat) c =
      let (ms, c1) = MgoStore.get_im_msg coll c id plat in (msgs_were ms, c1)

  unfoldable pub redis_run : List Op → R → List Answer
  unfolding redis_step
  redis_run [] r = []
  redis_run (op ∷ ops) r = let (a, r1) = redis_step op r in a ∷ redis_run ops r1

  unfoldable pub mgo_run : List Op → C → List Answer
  unfolding mgo_step
  mgo_run [] c = []
  mgo_run (op ∷ ops) c = let (a, c1) = mgo_step op c in a ∷ mgo_run ops c1

  -- Both stores hold the same messages for every user.
  abbrev pub SameMessages : R → C → Type 0
  SameMessages r c = (id : Bytes) → redis_view client r id ≡ mgo_view coll c id

  -- The same change keeps them the same.
  SameMessages-Changes :
      (r r1 : R) (c c1 : C) (id : Bytes) (g : Body → Body)
      → SameMessages r c
      → Changes (redis_view client r) (redis_view client r1) id g
      → Changes (mgo_view coll c) (mgo_view coll c1) id g
      → SameMessages r1 c1
  SameMessages-Changes r r1 c c1 id g same left right j =
      left j
      ∙ ap (λ b. if id =ₛ j then g b else redis_view client r j) (same id)
      ∙ ap (λ b. if id =ₛ j then g (mgo_view coll c id) else b) (same j)
      ∙ sym (right j)

  -- One operation, with the same answer and the same messages after it.
  abbrev Agree : Op → R → C → Type 0
  Agree op r c =
      ((redis_step op r).0 ≡ (mgo_step op c).0) × SameMessages (redis_step op r).1 (mgo_step op c).1

  agree :
      (op : Op) (r : R) (c : C)
      → IsReliable client
      → IsReliableCollection coll
      → SameMessages r c
      → Agree op r c
  unfolding redis_step mgo_step RedisStore.save_push_msg RedisStore.save_callback_msg
      RedisStore.get_push_msg RedisStore.get_callback_msg RedisStore.get_im_msg
      MgoStore.save_push_msg MgoStore.save_callback_msg MgoStore.get_push_msg
      MgoStore.get_callback_msg MgoStore.get_im_msg
  agree (put_push id msg) r c ok sure same =
      let g = MgoStore.add_push msg in
      let left = save_with-Changes client (RedisStore.add_push msg) g r id ok (λ m. refl) in
      let right = save_found-Changes coll g c id sure in
      (ap went_well (left.0 ∙ sym right.0), SameMessages-Changes r _ c _ id g same left.1 right.1)
  agree (put_callback id plat msg) r c ok sure same =
      let g = MgoStore.add_callback plat msg in
      let left =
        save_with-Changes client (RedisStore.add_callback plat msg) g r id ok
          (λ m. added plat msg m.body) in
      let right = save_found-Changes coll g c id sure in
      (ap went_well (left.0 ∙ sym right.0), SameMessages-Changes r _ c _ id g same left.1 right.1)
  agree (take_push id) r c ok sure same =
      let left =
        fetch_with-Changes client (0, []) _ (λ p. p) taken_push r id ok (λ m. refl) (λ m. refl)
          refl in
      let right = fetch_found-Changes coll (0, []) taken_push c id sure in
      (
        ap pushed (left.0 ∙ ap (λ b. (taken_push b).0) (same id) ∙ sym right.0),
        SameMessages-Changes r _ c _ id (λ b. (taken_push b).1) same left.1 right.1,
      )
  agree (take_callbacks id plat) r c ok sure same =
      let left =
        fetch_with-Changes client [] _ (λ ms. ms) (taken_callbacks plat) r id ok
          (λ m. msgs-of_plat plat m.body.callback)
          (λ m.
            ap (λ l. record (forget m.body) { callback = l })
              (forget-not_of_plat plat m.body.callback))
          (none_callbacks plat) in
      let right = fetch_found-Changes coll [] (taken_callbacks plat) c id sure in
      (
        ap msgs_were (left.0 ∙ ap (λ b. (taken_callbacks plat b).0) (same id) ∙ sym right.0),
        SameMessages-Changes r _ c _ id (λ b. (taken_callbacks plat b).1) same left.1 right.1,
      )
  agree (take_ims id plat) r c ok sure same =
      let left =
        fetch_with-Changes client [] _ msgs (taken_ims plat) r id ok
          (λ m. msgs-of_plat plat m.body.im)
          (λ m. ap (λ l. record (forget m.body) { im = l }) (forget-not_of_plat plat m.body.im))
          (none_ims plat) in
      let right = fetch_found-Changes coll [] (taken_ims plat) c id sure in
      (
        ap msgs_were (left.0 ∙ ap (λ b. (taken_ims plat b).0) (same id) ∙ sym right.0),
        SameMessages-Changes r _ c _ id (λ b. (taken_ims plat b).1) same left.1 right.1,
      )

  -- Over a reliable Redis and a reliable MongoDB that hold the same messages for every user: every
  -- sequence of operations that saves no instant message has the same answers from both stores.
  pub redis_run-mgo_run :
      (ops : List Op) (r : R) (c : C)
      → IsReliable client
      → IsReliableCollection coll
      → SameMessages r c
      → redis_run ops r ≡ mgo_run ops c
  unfolding redis_run mgo_run
  redis_run-mgo_run [] r c ok sure same = refl
  redis_run-mgo_run (op ∷ ops) r c ok sure same =
      let first = agree op r c ok sure same in
      let rest = redis_run-mgo_run ops (redis_step op r).1 (mgo_step op c).1 ok sure first.1 in
      ap (λ a. a ∷ redis_run ops (redis_step op r).1) first.0 ∙ ap (◌∷◌ (mgo_step op c).0) rest
