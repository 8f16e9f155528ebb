-- ===== src/OldStores/Repeats.antt =====
-- redisstore.go and mgostore.go where a callback comes twice: both keep it twice, although a comment of
-- redisstore.go says that repeated callbacks are checked for.
use galopush.Prelude.{
  ℕ, Bytes, true, ◌==◌, ◌=ₛ◌, same_iff, List, [], ◌∷◌, ◌++◌, ◌≡◌, refl, ap, ◌∙◌, arith, inl, inr,
  Bool-cases, append_assoc,
}
use galopush.OldStores.RedisStore as RedisStore
use galopush.OldStores.RedisStore.{Client}
use galopush.OldStores.MgoStore as MgoStore
use galopush.OldStores.MgoStore.{Item, Body, Collection, msgs_of_plat}
use galopush.OldStores.Views.{
  forget, redis_view, IsReliable, Changes, save_with-Changes, fetch_with-Changes,
}
use galopush.OldStores.MgoViews.{IsReliableCollection}
use galopush.OldStores.Equivalence.{
  Op, redis_run, mgo_run, SameMessages, redis_run-mgo_run, msgs-of_plat, forget-not_of_plat, added,
  taken_callbacks, none_callbacks,
}

msgs_of_plat-one :
    (plat : ℕ) (msg : Bytes) (xs : List Item)
    → msgs_of_plat plat (xs ++ (record { plat = plat; msg = msg } ∷ []))
      ≡ msgs_of_plat plat xs ++ (msg ∷ [])
unfolding msgs_of_plat
msgs_of_plat-one plat msg [] = ground arith
msgs_of_plat-one plat msg (v ∷ rest) = elim (Bool-cases (v.plat == plat)) [
  | inl e ↦ rw e (ap (◌∷◌ v.msg) (msgs_of_plat-one plat msg rest))
  | inr ne ↦ rw ne (msgs_of_plat-one plat msg rest)
]

changed :
    (before after : Bytes → Body) (id : Bytes) (g : Body → Body)
    → Changes before after id g
    → after id ≡ g (before id)
changed before after id g change =
    let same : (id =ₛ id) ≡ true = (same_iff id id).1 refl in change id ∙ rw same refl

module _ {R C : Type 0} (client : Client R) (coll : Collection C) where
  -- The callbacks that redisstore gives out after a callback was saved twice.
  abbrev pub after_two : Bytes → ℕ → Bytes → R → List Bytes
  after_two id plat msg r =
      let once = (RedisStore.save_callback_msg client r id plat msg).1 in
      let twice = (RedisStore.save_callback_msg client once id plat msg).1 in
      (RedisStore.get_callback_msg client twice id plat).0

  after_two_lem :
      (id msg : Bytes) (plat : ℕ) (r : R)
      → IsReliable client
      → after_two id plat msg r
        ≡ msgs_of_plat plat (redis_view client r id).callback ++ (msg ∷ msg ∷ [])
  unfolding RedisStore.save_callback_msg RedisStore.get_callback_msg
  after_two_lem id msg plat r ok =
      let g = MgoStore.add_callback plat msg in
      let once = (RedisStore.save_callback_msg client r id plat msg).1 in
      let twice = (RedisStore.save_callback_msg client once id plat msg).1 in
      let first =
        changed (redis_view client r) (redis_view client once) id g
          (save_with-Changes client (RedisStore.add_callback plat msg) g r id ok
            (λ m. added plat msg m.body)).1 in
      let second =
        changed (redis_view client once) (redis_view client twice) id g
          (save_with-Changes client (RedisStore.add_callback plat msg) g once id ok
            (λ m. added plat msg m.body)).1 in
      let read =
        fetch_with-Changes client [] _ (λ ms. ms) (taken_callbacks plat) twice id ok
          (λ m. msgs-of_plat plat m.body.callback)
          (λ m.
            ap (λ l. record (forget m.body) { callback = l })
              (forget-not_of_plat plat m.body.callback))
          (none_callbacks plat) in
      let cb = (redis_view client r id).callback in
      read.0
      ∙ ap (λ b. msgs_of_plat plat b.callback) (second ∙ ap g first)
      ∙ msgs_of_plat-one plat msg (cb ++ (record { plat = plat; msg = msg } ∷ []))
      ∙ ap (λ l. l ++ (msg ∷ [])) (msgs_of_plat-one plat msg cb)
      ∙ append_assoc (msgs_of_plat plat cb) (msg ∷ []) (msg ∷ [])

  -- Over a reliable Redis and a reliable MongoDB that hold the same messages for every user: every
  -- sequence of operations that saves no instant message has the same answers from both stores. For
  -- a callback that comes twice this is so since redisstore drops no repeated callback, against its
  -- comment: after a callback was saved twice it gives out those of before and the callback twice.
  pub redis_run-repeats :
      (ops : List Op) (r : R) (c : C)
      → IsReliable client
      → IsReliableCollection coll
      → SameMessages client coll r c
      → (redis_run client coll ops r ≡ mgo_run client coll ops c)
        × ((id msg : Bytes) (plat : ℕ)
            → after_two id plat msg r
              ≡ msgs_of_plat plat (redis_view client r id).callback ++ (msg ∷ msg ∷ []))
  redis_run-repeats ops r c ok sure same = (
    redis_run-mgo_run client coll ops r c ok sure same,
    λ id msg plat. after_two_lem id msg plat r ok,
  )
