-- ===== src/Examples/Older.antt =====
-- The two older stores at concrete values: Redis as a map, and a collection as the list of what was
-- written, the latest first.
use galopush.Prelude.{
  ℕ, ◌++◌, Bytes, codes, Bool, true, false, ◌=ₛ◌, if◌then◌else◌, List, [], ◌∷◌, Option, none, some,
  ◌≡◌, refl, arith, same_iff, inl, inr, Bool-cases,
}
use galopush.Prelude.Assoc.{Assoc, lookup, insert, lookup-insert}
use galopush.OldStores.RedisStore as RedisStore
use galopush.OldStores.RedisStore.{Client}
use galopush.OldStores.MgoStore.{OffMsg, Collection, msgs_of_plat}
use galopush.OldStores.Views.{redis_view, IsReliable}
use galopush.OldStores.MgoViews.{mgo_view, IsReliableCollection}
use galopush.OldStores.Repeats.{after_two, redis_run-repeats}
use galopush.OldStores.Equivalence.{
  Op, put_push, put_callback, take_push, take_callbacks, take_ims, redis_run, mgo_run,
}
use galopush.Examples.Data.{alice}

abbrev present {ℓ} : {A : Type ℓ} → Option A → Bool
present none = false
present (some a) = true

abbrev map_client : Client (Assoc RedisStore.OffMsg)
map_client = record {
  exists_key = λ r id. some (present (lookup id r));
  get = λ r id. lookup id r;
  put = λ r id m. (insert id m r, true);
}

map_client-IsReliable : IsReliable map_client
map_client-IsReliable = record {
  exists_hit = λ r id m at. rw at refl;
  exists_miss = λ r id gone. rw gone refl;
  put_good = λ r id m. refl;
  get_put = λ r id j m. lookup-insert id j m r;
}

unfoldable latest : Bytes → List OffMsg → Option OffMsg
latest id [] = none
latest id (m ∷ rest) = if m.id =ₛ id then some m else latest id rest

abbrev log_collection : Collection (List OffMsg)
log_collection = record {
  find = λ c id. latest id c;
  insert = λ c m. (m ∷ c, true);
  update = λ c id m. (m ∷ c, true);
}

latest-id : (c : List OffMsg) (id : Bytes) (m : OffMsg) → latest id c ≡ some m → m.id ≡ id
unfolding latest
latest-id [] id m at = ground arith
latest-id (x ∷ rest) id m at = elim (Bool-cases (x.id =ₛ id)) [
  | inl e ↦ ground (arith, same_iff x.id id, at)
  | inr ne ↦ latest-id rest id m (ground (arith, at))
]

latest-cons :
    (c : List OffMsg) (id j : Bytes) (m : OffMsg)
    → m.id ≡ id
    → latest j (m ∷ c) ≡ (if id =ₛ j then some m else latest j c)
unfolding latest
latest-cons c id j m same = rw same refl

log_collection-IsReliableCollection : IsReliableCollection log_collection
log_collection-IsReliableCollection = record {
  find_id = latest-id;
  insert_good = λ c m. refl;
  find_insert = λ c j m new. latest-cons c m.id j m refl;
  update_good = λ c id old m at same. refl;
  find_update = λ c id j old m at same. latest-cons c id j m same;
}

abbrev ops : List Op
ops =
    put_callback alice 1 (codes "a")
    ∷ put_callback alice 1 (codes "a")
    ∷ put_push alice (codes "p")
    ∷ take_push alice
    ∷ take_callbacks alice 1
    ∷ take_ims alice 1
    ∷ []

redis_run-repeats_example :
    (redis_run map_client log_collection ops [] ≡ mgo_run map_client log_collection ops [])
    × ((id msg : Bytes) (plat : ℕ)
        → after_two map_client log_collection id plat msg []
          ≡ msgs_of_plat plat (redis_view map_client [] id).callback ++ (msg ∷ msg ∷ []))
unfolding redis_view mgo_view lookup latest
redis_run-repeats_example =
    redis_run-repeats map_client log_collection ops [] [] map_client-IsReliable
      log_collection-IsReliableCollection (λ id. refl)

-- A callback that comes twice is given out twice.
given_twice :
    (RedisStore.get_callback_msg map_client
      (RedisStore.save_callback_msg map_client
        (RedisStore.save_callback_msg map_client [] alice 1 (codes "a")).1
        alice
        1
        (codes "a")).1
      alice
      1).0
    ≡ codes "a" ∷ codes "a" ∷ []
unfolding RedisStore.get_callback_msg RedisStore.save_callback_msg RedisStore.save_with
    RedisStore.fetch_with RedisStore.of_plat RedisStore.msgs lookup insert ◌=ₛ◌
given_twice = refl
