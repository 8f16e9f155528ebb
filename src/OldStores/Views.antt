-- ===== src/OldStores/Views.antt =====
-- What the operations of redisstore.go do to the messages of each user, when Redis is reliable.
-- The items of redisstore.go carry a flag of the web terminal, which is forgotten here.
use galopush.Prelude.{
  Bytes, true, false, ◌=ₛ◌, if◌then◌else◌, List, [], ◌∷◌, Option, none, some, ◌≡◌, refl, sym, ap,
  ◌∙◌, arith, inl, inr, Option-cases, Bool-cases, same_iff,
}
use galopush.OldStores.RedisStore as RedisStore
use galopush.OldStores.RedisStore.{Client, OffMsg, empty_msg, save_with, fetch_with}
use galopush.OldStores.MgoStore.{Item, Body, empty_body}

unfoldable pub forget_items : List RedisStore.Item → List Item
forget_items [] = []
forget_items (v ∷ rest) = record { plat = v.plat; msg = v.msg } ∷ forget_items rest

abbrev pub forget : RedisStore.Body → Body
forget b = record { push = b.push; callback = forget_items b.callback; im = forget_items b.im }

-- One user's messages are changed, and no other's.
abbrev pub Changes : (Bytes → Body) → (Bytes → Body) → Bytes → (Body → Body) → Type 0
Changes before after id g = (j : Bytes) → after j ≡ (if id =ₛ j then g (before id) else before j)

-- No document is an empty one.
abbrev pub redis_body : Option OffMsg → Body
redis_body none = empty_body
redis_body (some m) = forget m.body

module _ {R : Type 0} (client : Client R) where
  unfoldable pub redis_view : R → Bytes → Body
  redis_view r id = redis_body (client.get r id)

  -- Redis as a map.
  pub record IsReliable : Type 0 where
    pub exists_hit :
        (r : R) (id : Bytes) (m : OffMsg)
        → client.get r id ≡ some m
        → client.exists_key r id ≡ some true
    pub exists_miss :
        (r : R) (id : Bytes) → client.get r id ≡ none → client.exists_key r id ≡ some false
    pub put_good : (r : R) (id : Bytes) (m : OffMsg) → (client.put r id m).1 ≡ true
    pub get_put :
        (r : R) (id j : Bytes) (m : OffMsg)
        → client.get (client.put r id m).0 j ≡ (if id =ₛ j then some m else client.get r j)

  put-Changes :
      (r : R) (id : Bytes) (m : OffMsg) (g : Body → Body)
      → IsReliable
      → forget m.body ≡ g (redis_view r id)
      → Changes (redis_view r) (redis_view (client.put r id m).0) id g
  unfolding redis_view
  put-Changes r id m g ok same j = elim (Bool-cases (id =ₛ j)) [
    | inl e ↦ rw (ok.get_put r id j m) (rw e same)
    | inr ne ↦ rw (ok.get_put r id j m) (rw ne refl)
  ]

  view_hit :
      (r : R) (id : Bytes) (m : OffMsg) → client.get r id ≡ some m → redis_view r id ≡ forget m.body
  unfolding redis_view
  view_hit r id m at = rw at refl

  view_miss : (r : R) (id : Bytes) → client.get r id ≡ none → redis_view r id ≡ empty_body
  unfolding redis_view
  view_miss r id gone = rw gone refl

  -- What a saving operation writes.
  save_with-put :
      (f : OffMsg → OffMsg) (g : Body → Body) (r : R) (id : Bytes)
      → IsReliable
      → ((m : OffMsg) → forget (f m).body ≡ g (forget m.body))
      → (m : OffMsg) × (save_with client f r id ≡ (true, (client.put r id m).0))
        × (forget m.body ≡ g (redis_view r id))
  unfolding save_with forget_items
  save_with-put f g r id ok same = elim (Option-cases (client.get r id)) [
    | inl gone ↦ (
      f empty_msg,
      rw (ok.exists_miss r id gone, save_with)
          (ap (λ good. (good, (client.put r id (f empty_msg)).0)) (ok.put_good r id (f empty_msg))),
      same empty_msg ∙ ap g (sym (view_miss r id gone)),
    )
    | inr (m, at) ↦ (
      f m,
      rw (ok.exists_hit r id m at, save_with)
          (rw (at, save_with)
            (ap (λ good. (good, (client.put r id (f m)).0)) (ok.put_good r id (f m)))),
      same m ∙ ap g (sym (view_hit r id m at)),
    )
  ]

  -- Saving, when `g` is what `f` does to the messages.
  pub save_with-Changes :
      (f : OffMsg → OffMsg) (g : Body → Body) (r : R) (id : Bytes)
      → IsReliable
      → ((m : OffMsg) → forget (f m).body ≡ g (forget m.body))
      → ((save_with client f r id).0 ≡ true)
        × Changes (redis_view r) (redis_view (save_with client f r id).1) id g
  save_with-Changes f g r id ok same =
      let (m, writes, body) = save_with-put f g r id ok same in
      rw writes (refl, put-Changes r id m g ok body)

  -- Fetching, when `g` is what `f` reads and does, and finds nothing in an empty document.
  pub fetch_with-Changes {κ κ'} :
      {A : Type κ} {B : Type κ'} (nothing : A) (f : OffMsg → A × OffMsg) (h : A → B)
      (g : Body → B × Body) (r : R) (id : Bytes)
      → IsReliable
      → ((m : OffMsg) → h (f m).0 ≡ (g (forget m.body)).0)
      → ((m : OffMsg) → forget (f m).1.body ≡ (g (forget m.body)).1)
      → g empty_body ≡ (h nothing, empty_body)
      → (h (fetch_with client nothing f r id).0 ≡ (g (redis_view r id)).0)
        × Changes (redis_view r) (redis_view (fetch_with client nothing f r id).1) id (λ b. (g b).1)
  unfolding fetch_with
  fetch_with-Changes nothing f h g r id ok read left none_left =
      elim (Option-cases (client.get r id)) [
        | inl gone ↦
            let empty = ap g (view_miss r id gone) ∙ none_left in
            rw (gone, fetch_with) (sym (ap (λ x. x.0) empty), untouched gone (ap (λ x. x.1) empty))
        | inr (m, at) ↦
            let here = ap g (view_hit r id m at) in
            rw (at, fetch_with)
              (
                read m ∙ sym (ap (λ x. x.0) here),
                put-Changes r id (f m).1 (λ b. (g b).1) ok (left m ∙ sym (ap (λ x. x.1) here)),
              )
      ]
    where
      untouched :
          client.get r id ≡ none
          → (g (redis_view r id)).1 ≡ empty_body
          → Changes (redis_view r) (redis_view r) id (λ b. (g b).1)
      untouched gone empty j = elim (Bool-cases (id =ₛ j)) [
        | inl e ↦
            let same : id ≡ j = ground (arith, same_iff id j) in
            rw e (ap (redis_view r) (sym same) ∙ view_miss r id gone ∙ sym empty)
        | inr ne ↦ rw ne refl
      ]
