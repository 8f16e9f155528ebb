-- ===== src/OldStores/RedisStore.antt =====
-- internal/redisstore/redisstore.go. The client of Redis is outside; a call that fails is `none` or
-- false.
use galopush.Prelude.{
  ℕ, ◌+◌, ◌%◌, Bytes, Bool, true, false, ◌==◌, ltb, if◌then◌else◌, List, [], ◌∷◌, ◌++◌, Option,
  none, some, length, take, drop,
}

pub record Item : Type 0 where
  pub plat : ℕ
  pub web_online : ℕ
  pub msg : Bytes

pub record Push : Type 0 where
  pub offline : ℕ
  pub msg : Bytes

pub record Body : Type 0 where
  pub push : Push
  pub callback : List Item
  pub im : List Item

pub record OffMsg : Type 0 where
  pub id : Bytes
  pub body : Body

-- The client: Exists, Get with the document that json.Unmarshal makes of the text, and Set.
pub record Client (R : Type 0) : Type 0 where
  pub exists_key : R → Bytes → Option Bool
  pub get : R → Bytes → Option OffMsg
  pub put : R → Bytes → OffMsg → R × Bool

-- `var omsg OffMsg`
abbrev pub empty_msg : OffMsg
empty_msg = record {
  id = [];
  body = record { push = record { offline = 0; msg = [] }; callback = []; im = [] };
}

abbrev pub with_body : (Body → Body) → OffMsg → OffMsg
with_body f m = record m { body = f m.body }

abbrev pub add_push : Bytes → OffMsg → OffMsg
add_push msg =
    with_body λ b. record b { push = record { offline = (b.push.offline + 1) % 65536; msg = msg } }

-- The check for a repeated callback only leaves its own loop.
abbrev pub add_callback : ℕ → Bytes → OffMsg → OffMsg
add_callback plat msg = with_body λ b. record b {
  callback = b.callback ++ (record { plat = plat; web_online = 0; msg = msg } ∷ []);
}

abbrev pub shorten : List Item → List Item
shorten im = if ltb 50 (length im) then drop 1 (take 50 im) else im

abbrev pub add_im : ℕ → ℕ → Bytes → OffMsg → OffMsg
add_im plat web msg = with_body λ b. record b {
  im = shorten b.im ++ (record { plat = plat; web_online = web; msg = msg } ∷ []);
}

-- The items of a platform, and the others.
unfoldable pub of_plat : ℕ → List Item → List Item
of_plat plat [] = []
of_plat plat (v ∷ rest) =
    let later = of_plat plat rest in if v.plat == plat then v ∷ later else later

unfoldable pub not_of_plat : ℕ → List Item → List Item
not_of_plat plat [] = []
not_of_plat plat (v ∷ rest) =
    let later = not_of_plat plat rest in if v.plat == plat then later else v ∷ later

unfoldable pub msgs : List Item → List Bytes
msgs [] = []
msgs (v ∷ rest) = v.msg ∷ msgs rest

module _ {R : Type 0} (client : Client R) where
  -- The three saving operations up to what they change; the answer says that there was no error.
  unfoldable pub save_with : (OffMsg → OffMsg) → R → Bytes → Bool × R
  save_with f r id = elim (client.exists_key r id) [
    | none ↦ (false, r)
    | some true ↦ elim (client.get r id) [
      | none ↦ (false, r)
      | some m ↦ let (r1, good) = client.put r id (f m) in (good, r1)
    ]
    | some false ↦ let (r1, good) = client.put r id (f empty_msg) in (good, r1)
  ]

  -- The three fetching operations up to what they read and change; an error of Set is only logged.
  unfoldable pub fetch_with {κ} : {A : Type κ} → A → (OffMsg → A × OffMsg) → R → Bytes → A × R
  fetch_with nothing f r id = elim (client.get r id) [
    | none ↦ (nothing, r)
    | some m ↦ let (a, left) = f m in (a, (client.put r id left).0)
  ]

  -- SavePushMsg, SaveCallbackMsg and SaveImMsg
  unfoldable pub save_push_msg : R → Bytes → Bytes → Bool × R
  unfolding save_with
  save_push_msg r id msg = save_with (add_push msg) r id

  unfoldable pub save_callback_msg : R → Bytes → ℕ → Bytes → Bool × R
  unfolding save_with
  save_callback_msg r id plat msg = save_with (add_callback plat msg) r id

  unfoldable pub save_im_msg : R → Bytes → ℕ → ℕ → Bytes → Bool × R
  unfolding save_with
  save_im_msg r id plat web msg = save_with (add_im plat web msg) r id

  -- GetPushMsg, GetCallbackMsg and GetImMsg
  unfoldable pub get_push_msg : R → Bytes → (ℕ × Bytes) × R
  unfolding fetch_with
  get_push_msg r id =
      fetch_with (0, [])
        (λ m. (
          (m.body.push.offline, m.body.push.msg),
          with_body (λ b. record b { push = record { offline = 0; msg = [] } }) m,
        ))
        r id

  unfoldable pub get_callback_msg : R → Bytes → ℕ → List Bytes × R
  unfolding fetch_with
  get_callback_msg r id plat =
      fetch_with []
        (λ m. (
          msgs (of_plat plat m.body.callback),
          with_body (λ b. record b { callback = not_of_plat plat b.callback }) m,
        ))
        r id

  unfoldable pub get_im_msg : R → Bytes → ℕ → List Item × R
  unfolding fetch_with
  get_im_msg r id plat =
      fetch_with []
        (λ m. (of_plat plat m.body.im, with_body (λ b. record b { im = not_of_plat plat b.im }) m))
        r id
