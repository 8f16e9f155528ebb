-- ===== src/Router/Nsq/Terminals.antt =====
-- Saving an offline message leaves every terminal where it is, with its user, platform and token.
use galopush.Prelude.{
  ℕ, Bytes, Bool, true, false, ◌==◌, if◌then◌else◌, List, ◌++◌, Option, none, some, get_elem?, set,
  ◌≡◌, refl, ◌∙◌, arith, inl, inr, Bool-cases, Option-cases, get_elem?-set_self, get_elem?-set_ne,
  lt_of_get_elem?, get_elem?-append,
}
use galopush.Prelude.Assoc.{lookup}
use galopush.Protocol.Message.{msgtype_push, msgtype_callback, msgtype_message}
use galopush.Rds.Defs.{Body, Session, Redis}
use galopush.Rds.Store.{
  Storager, find_sessions, save_sessions, copy_box, cache_document, with_off_msg, add_push,
  add_callback, add_im,
}
use galopush.Rds.Messages.{
  with_box, with_terminal, terminal_of, change_item, has_callback, web_online, save_push_msg,
  save_callback_msg, save_im_msg,
}
use galopush.Rds.Delivery.{items-save_sessions}
use galopush.Router.Nsq.{save_offline_msg}

-- The same user, platform and token.
pub record SameOwner (a b : Session) : Type 0 where
  pub id : b.id ≡ a.id
  pub plat : b.plat ≡ a.plat
  pub ios_token : b.ios_token ≡ a.ios_token

abbrev pub SameTerminals : List Session → List Session → Type 0
SameTerminals items items' =
    (i : ℕ) (it : Session)
    → get_elem? items i ≡ some it
    → (it' : Session) × (get_elem? items' i ≡ some it') × SameOwner it it'

pub SameTerminals-refl : (items : List Session) → SameTerminals items items
SameTerminals-refl items i it at = (it, at, record { id = refl; plat = refl; ios_token = refl })

pub SameTerminals-trans :
    (a b c : List Session) → SameTerminals a b → SameTerminals b c → SameTerminals a c
SameTerminals-trans a b c f g i it at =
    let (it', at', same) = f i it at in
    let (it'', at'', same') = g i it' at' in
    (
      it'',
      at'',
      record {
        id = same'.id ∙ same.id;
        plat = same'.plat ∙ same.plat;
        ios_token = same'.ios_token ∙ same.ios_token;
      },
    )

SameTerminals-append : (items more : List Session) → SameTerminals items (items ++ more)
SameTerminals-append items more i it at =
    (it, get_elem?-append items more i it at, record { id = refl; plat = refl; ios_token = refl })

SameTerminals-set :
    (items : List Session) (j : ℕ) (old new : Session)
    → get_elem? items j ≡ some old
    → SameOwner old new
    → SameTerminals items (set items j new)
SameTerminals-set items j old new there same i it at = elim (Bool-cases (i == j)) [
  | inl here ↦
      let e : i ≡ j = ground (arith, here) in
      let self : old ≡ it = ground (arith, e, at, there) in
      (
        new,
        rw e (get_elem?-set_self items j new (lt_of_get_elem? items j old there)),
        rw self at same,
      )
  | inr away ↦ (
    it,
    get_elem?-set_ne items j i new (λ e. ground (arith, e, away)) ∙ at,
    record { id = refl; plat = refl; ios_token = refl },
  )
]

same_body : (it : Session) (b : Body) → SameOwner it (with_off_msg it b)
same_body it b = record { id = refl; plat = refl; ios_token = refl }

SameTerminals-if :
    {R : Type 0} (b : Bool) (st x y : Storager R)
    → SameTerminals st.items x.items
    → SameTerminals st.items y.items
    → SameTerminals st.items (if b then x else y).items
SameTerminals-if true st x y h k = h
SameTerminals-if false st x y h k = k

module _ {R : Type 0} (redis : Redis R) where
  pub SameTerminals-find_sessions :
      (st : Storager R) (id : Bytes) → SameTerminals st.items (find_sessions redis st id).1.items
  unfolding find_sessions copy_box cache_document
  SameTerminals-find_sessions st id = elim (Option-cases (lookup id st.mem_store)) [
    | inr (p, hit) ↦ elim (Option-cases (get_elem? st.boxes p)) [
      | inl gone ↦ rw (hit, find_sessions) (rw (gone, find_sessions) (SameTerminals-refl st.items))
      | inr (s, at) ↦ rw (hit, find_sessions) (rw (at, find_sessions) (SameTerminals-refl st.items))
    ]
    | inl miss ↦ elim (Option-cases (redis.get st.cli id)) [
      | inl gone ↦ rw (miss, find_sessions) (rw (gone, find_sessions) (SameTerminals-refl st.items))
      | inr (doc, read) ↦
          rw (miss, find_sessions)
            (rw (read, find_sessions) (SameTerminals-append st.items doc.sess))
    ]
  ]

  SameTerminals-save :
      (st : Storager R) (p : ℕ) (items : List Session)
      → SameTerminals items st.items
      → SameTerminals items (save_sessions redis st p).items
  SameTerminals-save st p items same = rw (items-save_sessions redis st p) same

  SameTerminals-change_item :
      (st : Storager R) (i : ℕ) (f : Session → Session)
      → ((it : Session) → SameOwner it (f it))
      → SameTerminals st.items (change_item st i f).items
  unfolding change_item
  SameTerminals-change_item st i f same = elim (Option-cases (get_elem? st.items i)) [
    | inl gone ↦ rw (gone, change_item) (SameTerminals-refl st.items)
    | inr (it, at) ↦ rw (at, change_item) (SameTerminals-set st.items i it (f it) at (same it))
  ]

  -- The shape of the three operations: find the user, find the terminal, change it, save.
  SameTerminals-change :
      (st : Storager R) (id : Bytes) (plat : ℕ) (change : Storager R → ℕ → ℕ → Storager R)
      → ((st1 : Storager R) (p i : ℕ) → SameTerminals st1.items (change st1 p i).items)
      → SameTerminals st.items
          (with_box
            (find_sessions redis st id)
            (λ st1. st1)
            (λ st1 p.
              with_terminal
                (terminal_of st1 p plat)
                (save_sessions redis st1 p)
                (change st1 p))).items
  SameTerminals-change st id plat change same =
      go (find_sessions redis st id) (SameTerminals-find_sessions st id)
    where
      go :
          (found : Option ℕ × Storager R)
          → SameTerminals st.items found.1.items
          → SameTerminals st.items
              (with_box found
                (λ st1. st1)
                (λ st1 p.
                  with_terminal
                    (terminal_of st1 p plat)
                    (save_sessions redis st1 p)
                    (change st1 p))).items
      go (none, st1) h = h
      go (some p, st1) h = elim (Option-cases (terminal_of st1 p plat)) [
        | inl gone ↦ rw gone (SameTerminals-save st1 p st.items h)
        | inr (i, at) ↦
            rw at (SameTerminals-trans st.items st1.items (change st1 p i).items h (same st1 p i))
      ]

  pub SameTerminals-save_offline_msg :
      (st : Storager R) (msg_type : ℕ) (id : Bytes) (plat : ℕ) (msg : Bytes)
      → SameTerminals st.items (save_offline_msg redis st msg_type id plat msg).items
  unfolding save_offline_msg save_push_msg save_callback_msg save_im_msg
  SameTerminals-save_offline_msg st msg_type id plat msg =
      SameTerminals-if (msg_type == msgtype_push) st _ _
        (SameTerminals-change st id plat _ (λ st1 p i.
          SameTerminals-save (change_item st1 i (add_push msg)) p st1.items (
            SameTerminals-change_item st1 i (add_push msg)
              (λ it. same_body it (add_push msg it).off_msg))))
        (SameTerminals-if (msg_type == msgtype_callback) st _ _
          (SameTerminals-change st id plat _ (λ st1 p i.
            SameTerminals-if (has_callback redis st1 i msg) st1 _ _ (SameTerminals-refl st1.items) (
              SameTerminals-save (change_item st1 i (add_callback msg)) p st1.items (
                SameTerminals-change_item st1 i (add_callback msg)
                  (λ it. same_body it (add_callback msg it).off_msg)))))
          (SameTerminals-if (msg_type == msgtype_message) st _ _
            (SameTerminals-change st id plat _ (λ st1 p i.
              SameTerminals-save (change_item st1 i (add_im (web_online st1 p) msg)) p st1.items (
                SameTerminals-change_item st1 i (add_im (web_online st1 p) msg)
                  (λ it. same_body it (add_im (web_online st1 p) msg it).off_msg))))
            (SameTerminals-refl st.items)))
