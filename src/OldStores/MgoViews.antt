-- ===== src/OldStores/MgoViews.antt =====
-- What the operations of mgostore.go do to the messages of each user, when MongoDB is reliable.
use galopush.Prelude.{
  Bytes, true, ◌=ₛ◌, if◌then◌else◌, Option, none, some, ◌≡◌, refl, sym, ap, ◌∙◌, arith, inl, inr,
  Option-cases, Bool-cases, same_iff,
}
use galopush.OldStores.MgoStore as MgoStore
use galopush.OldStores.MgoStore.{
  Item, Body, Collection, empty_body, with_body, new_msg, get_msg, save_found, fetch_found,
}
use galopush.OldStores.Views.{Changes}

-- No document is an empty one.
abbrev pub mgo_body : Option MgoStore.OffMsg → Body
mgo_body none = empty_body
mgo_body (some m) = m.body

module _ {C : Type 0} (coll : Collection C) where
  unfoldable pub mgo_view : C → Bytes → Body
  mgo_view c id = mgo_body (coll.find c id)

  -- A collection of MongoDB that does what it is told.
  pub record IsReliableCollection : Type 0 where
    pub find_id : (c : C) (id : Bytes) (m : MgoStore.OffMsg) → coll.find c id ≡ some m → m.id ≡ id
    pub insert_good : (c : C) (m : MgoStore.OffMsg) → (coll.insert c m).1 ≡ true
    pub find_insert :
        (c : C) (j : Bytes) (m : MgoStore.OffMsg)
        → coll.find c m.id ≡ none
        → coll.find (coll.insert c m).0 j ≡ (if m.id =ₛ j then some m else coll.find c j)
    pub update_good :
        (c : C) (id : Bytes) (old m : MgoStore.OffMsg)
        → coll.find c id ≡ some old
        → m.id ≡ id
        → (coll.update c id m).1 ≡ true
    pub find_update :
        (c : C) (id j : Bytes) (old m : MgoStore.OffMsg)
        → coll.find c id ≡ some old
        → m.id ≡ id
        → coll.find (coll.update c id m).0 j ≡ (if id =ₛ j then some m else coll.find c j)

  -- GetMsg finds a document and shows every user the same messages as before.
  pub record Got (c : C) (id : Bytes) : Type 0 where
    pub msg : MgoStore.OffMsg
    pub after : C
    pub gets : get_msg coll c id ≡ (some msg, after)
    pub there : coll.find after id ≡ some msg
    pub named : msg.id ≡ id
    pub same : (j : Bytes) → mgo_view after j ≡ mgo_view c j
    pub body_is : msg.body ≡ mgo_view c id

  get_msg-Got : (c : C) (id : Bytes) → IsReliableCollection → Got c id
  unfolding get_msg mgo_view
  get_msg-Got c id ok = elim (Option-cases (coll.find c id)) [
    | inr (m, at) ↦ record {
      msg = m;
      after = c;
      gets = rw (at, get_msg) refl;
      there = at;
      named = ok.find_id c id m at;
      same = λ j. refl;
      body_is = rw at refl;
    }
    | inl gone ↦ record {
      msg = new_msg id;
      after = (coll.insert c (new_msg id)).0;
      gets = rw (gone, get_msg) (rw (ok.insert_good c (new_msg id)) refl);
      there = rw (ok.find_insert c id (new_msg id) gone) (ground (arith, same_iff id id));
      named = refl;
      same = λ j. rw (ok.find_insert c j (new_msg id) gone) (inserted gone j);
      body_is = rw gone refl;
    }
  ]
    where
      inserted :
          coll.find c id ≡ none
          → (j : Bytes)
          → mgo_body (if id =ₛ j then some (new_msg id) else coll.find c j)
            ≡ mgo_body (coll.find c j)
      inserted gone j = elim (Bool-cases (id =ₛ j)) [
        | inl e ↦
            let same : id ≡ j = ground (arith, same_iff id j) in
            rw e (sym (ap (λ k. mgo_body (coll.find c k)) (sym same) ∙ rw gone refl))
        | inr ne ↦ rw ne refl
      ]

  update-Changes :
      (c : C) (id : Bytes) (new : Body) (g : Body → Body) (got : Got c id)
      → IsReliableCollection
      → new ≡ g (mgo_view c id)
      → Changes
          (mgo_view c)
          (mgo_view (coll.update got.after id (record got.msg { body = new })).0)
          id
          g
  unfolding mgo_view
  update-Changes c id new g got ok same j = elim (Bool-cases (id =ₛ j)) [
    | inl e ↦
        rw
          (ok.find_update got.after id j got.msg (record got.msg { body = new }) got.there
            got.named)
          (rw e same)
    | inr ne ↦
        rw
          (ok.find_update got.after id j got.msg (record got.msg { body = new }) got.there
            got.named)
          (rw ne (got.same j))
  ]

  pub save_found-Changes :
      (f : Body → Body) (c : C) (id : Bytes)
      → IsReliableCollection
      → ((save_found coll f id (get_msg coll c id)).0 ≡ true)
        × Changes (mgo_view c) (mgo_view (save_found coll f id (get_msg coll c id)).1) id f
  save_found-Changes f c id ok =
      let got = get_msg-Got c id ok in
      rw got.gets (
        ok.update_good got.after id got.msg _ got.there got.named,
        update-Changes c id (f got.msg.body) f got ok (ap f got.body_is),
      )

  pub fetch_found-Changes {κ} :
      {A : Type κ} (nothing : A) (f : Body → A × Body) (c : C) (id : Bytes)
      → IsReliableCollection
      → ((fetch_found coll nothing f id (get_msg coll c id)).0 ≡ (f (mgo_view c id)).0)
        × Changes
            (mgo_view c)
            (mgo_view (fetch_found coll nothing f id (get_msg coll c id)).1)
            id
            (λ b. (f b).1)
  fetch_found-Changes nothing f c id ok =
      let got = get_msg-Got c id ok in
      rw got.gets (
        ap (λ b. (f b).0) got.body_is,
        update-Changes c id (f got.msg.body).1 (λ b. (f b).1) got ok
            (ap (λ b. (f b).1) got.body_is),
      )
