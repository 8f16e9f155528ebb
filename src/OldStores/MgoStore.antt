-- ===== src/OldStores/MgoStore.antt =====
-- internal/mgostore/mgostore.go. The collection of MongoDB is outside; a call that fails is `none` or
-- false.
use galopush.Prelude.{
  ℕ, ◌+◌, ◌%◌, Bytes, Bool, false, ◌==◌, if◌then◌else◌, List, [], ◌∷◌, ◌++◌, Option, none, some,
}
use galopush.OldStores.RedisStore.{Push}

pub record Item : Type 0 where
  pub plat : ℕ
  pub msg : Bytes

pub record Body : Type 0 where
  pub push : Push
  pub callback : List Item
  pub im : List Item

pub record OffMsg : Type 0 where
  pub id : Bytes
  pub body : Body

-- The collection: Find with One, Insert and Update, by the user's id.
pub record Collection (C : Type 0) : Type 0 where
  pub find : C → Bytes → Option OffMsg
  pub insert : C → OffMsg → C × Bool
  pub update : C → Bytes → OffMsg → C × Bool

abbrev pub empty_body : Body
empty_body = record { push = record { offline = 0; msg = [] }; callback = []; im = [] }

abbrev pub new_msg : Bytes → OffMsg
new_msg id = record { id = id; body = empty_body }

abbrev pub with_body : (Body → Body) → OffMsg → OffMsg
with_body f m = record m { body = f m.body }

abbrev pub add_push : Bytes → Body → Body
add_push msg b = record b { push = record { offline = (b.push.offline + 1) % 65536; msg = msg } }

abbrev pub add_callback : ℕ → Bytes → Body → Body
add_callback plat msg b = record b {
  callback = b.callback ++ (record { plat = plat; msg = msg } ∷ []);
}

abbrev pub add_im : ℕ → Bytes → Body → Body
add_im plat msg b = record b { im = b.im ++ (record { plat = plat; msg = msg } ∷ []) }

-- The messages of a platform, and the items of the others.
unfoldable pub msgs_of_plat : ℕ → List Item → List Bytes
msgs_of_plat plat [] = []
msgs_of_plat plat (v ∷ rest) =
    let later = msgs_of_plat plat rest in if v.plat == plat then v.msg ∷ later else later

unfoldable pub not_of_plat : ℕ → List Item → List Item
not_of_plat plat [] = []
not_of_plat plat (v ∷ rest) =
    let later = not_of_plat plat rest in if v.plat == plat then later else v ∷ later

module _ {C : Type 0} (coll : Collection C) where
  -- GetMsg: a user without a document gets an empty one.
  unfoldable pub get_msg : C → Bytes → Option OffMsg × C
  get_msg c id = elim (coll.find c id) [
    | some m ↦ (some m, c)
    | none ↦
        let (c1, good) = coll.insert c (new_msg id) in
        if good then (some (new_msg id), c1) else (none, c1)
  ]

  -- What follows GetMsg in the saving operations; the answer says that there was no error.
  abbrev pub save_found : (Body → Body) → Bytes → Option OffMsg × C → Bool × C
  save_found f id (none, c) = (false, c)
  save_found f id (some m, c) = let (c1, good) = coll.update c id (with_body f m) in (good, c1)

  -- What follows GetMsg in the fetching operations; an error of Update is dropped.
  abbrev pub fetch_found {κ} :
      {A : Type κ} → A → (Body → A × Body) → Bytes → Option OffMsg × C → A × C
  fetch_found nothing f id (none, c) = (nothing, c)
  fetch_found nothing f id (some m, c) =
      let (a, left) = f m.body in (a, (coll.update c id (record m { body = left })).0)

  -- SavePushMsg, SaveCallbackMsg and SaveImMsg
  unfoldable pub save_push_msg : C → Bytes → Bytes → Bool × C
  unfolding get_msg
  save_push_msg c id msg = save_found (add_push msg) id (get_msg c id)

  unfoldable pub save_callback_msg : C → Bytes → ℕ → Bytes → Bool × C
  unfolding get_msg
  save_callback_msg c id plat msg = save_found (add_callback plat msg) id (get_msg c id)

  unfoldable pub save_im_msg : C → Bytes → ℕ → Bytes → Bool × C
  unfolding get_msg
  save_im_msg c id plat msg = save_found (add_im plat msg) id (get_msg c id)

  -- GetPushMsg, GetCallbackMsg and GetImMsg
  unfoldable pub get_push_msg : C → Bytes → (ℕ × Bytes) × C
  unfolding get_msg
  get_push_msg c id =
      fetch_found (0, [])
        (λ b. ((b.push.offline, b.push.msg), record b { push = record { offline = 0; msg = [] } }))
        id (get_msg c id)

  unfoldable pub get_callback_msg : C → Bytes → ℕ → List Bytes × C
  unfolding get_msg
  get_callback_msg c id plat =
      fetch_found []
        (λ b. (msgs_of_plat plat b.callback, record b { callback = not_of_plat plat b.callback }))
        id (get_msg c id)

  unfoldable pub get_im_msg : C → Bytes → ℕ → List Bytes × C
  unfolding get_msg
  get_im_msg c id plat =
      fetch_found [] (λ b. (msgs_of_plat plat b.im, record b { im = not_of_plat plat b.im })) id
        (get_msg c id)
