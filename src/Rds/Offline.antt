-- ===== src/Rds/Offline.antt =====
-- Offline messages of a cached user: what is saved is what is fetched, for callbacks and instant
-- messages, and never for pushes.
use galopush.Prelude.{
  ℕ, Bytes, if◌then◌else◌, List, [], Option, none, some, length, get_elem?, ◌≡◌, refl, ◌∙◌, arith,
  Option-cases, Bool-cases, inl, inr, get_elem?-set_self, lt_of_get_elem?,
}
use galopush.Rds.Defs.{Push, Session, Redis}
use galopush.Rds.Store.{
  Storager, has_msg, add_push, reset_push, add_callback, reset_callback, add_im, reset_im,
  find_sessions, save_sessions,
}
use galopush.Rds.Messages.{
  change_item, terminal_of, web_online, save_push_msg, save_callback_msg, save_im_msg, get_push_msg,
  get_callback_msg, get_im_msg, get_push_found, read_push, has_callback, callbacks_at, ims_at,
}
use galopush.Rds.Delivery.{
  Sees-copied, find_hit, copied, terminal_of-copied, settle, Holds, Holds-Settled,
  items-save_sessions,
}

module _ {R : Type 0} (redis : Redis R) where
  read_push-save_sessions :
      (st : Storager R) (i p : ℕ)
      → read_push redis (save_sessions redis st p) i ≡ read_push redis st i
  unfolding read_push
  read_push-save_sessions st i p = rw (items-save_sessions redis st p)

  -- A terminal whose push part has been reset.
  read_push-reset :
      (st : Storager R) (i : ℕ) {push : Push}
      → read_push redis (change_item st i reset_push) i ≡ some push
      → push ≡ record { off_cnt = 0; msg = [] }
  unfolding read_push change_item
  read_push-reset st i e = elim (Option-cases (get_elem? st.items i)) [
    | inl gone ↦ ground arith
    | inr (it, at) ↦
        ground
          (arith, get_elem?-set_self st.items i (reset_push it) (lt_of_get_elem? st.items i it at))
  ]

  found_empty :
      (plat : ℕ) (r : Option ℕ × Storager R) {push : Push}
      → (get_push_found redis plat r).0 ≡ some push
      → push ≡ record { off_cnt = 0; msg = [] }
  unfolding get_push_found
  found_empty plat (none, st1) e = ground arith
  found_empty plat (some p, st1) e = elim (Option-cases (terminal_of st1 p plat)) [
    | inl gone ↦ ground arith
    | inr (i, at) ↦
        read_push-reset st1 i
          (ground (arith, read_push-save_sessions (change_item st1 i reset_push) i p))
  ]

  -- GetPushMsg returns a pointer to the push that it has just reset: in every state, for every user
  -- and platform, a push that the caller gets to see has count 0 and an empty message.
  pub get_push_msg_empty :
      (st : Storager R) (id : Bytes) (plat : ℕ) {push : Push}
      → (get_push_msg redis st id plat).0 ≡ some push
      → push ≡ record { off_cnt = 0; msg = [] }
  unfolding get_push_msg
  get_push_msg_empty st id plat e = found_empty plat (find_sessions redis st id) e

  module _ (st : Storager R) (id : Bytes) (plat : ℕ) (is : List ℕ) (i : ℕ) (it : Session)
      (h : Holds redis st id plat is i it) where
    abbrev pub hit : terminal_of (copied redis st id is h.sees) (length st.boxes) plat ≡ some i
    hit = terminal_of-copied redis st id is h.sees plat ∙ h.first

    edited :
        (f : Session → Session)
        → (f it).plat ≡ it.plat
        → Holds redis
            (save_sessions redis (change_item (copied redis st id is h.sees) i f) (length st.boxes))
            id
            plat
            is
            i
            (f it)
    edited f same =
        Holds-Settled redis st _ id plat is i it (f it) h same
          (settle redis st id is h.sees i it f h.at)

    pub save_push_msg-Holds :
        (msg : Bytes)
        → Holds redis (save_push_msg redis st id plat msg) id plat is i (add_push msg it)
    unfolding save_push_msg
    save_push_msg-Holds msg =
        rw (find_hit redis st id is h.sees) (rw hit (edited (add_push msg) refl))

    copied-Holds : Holds redis (copied redis st id is h.sees) id plat is i it
    copied-Holds = record { sees = Sees-copied redis st id is h.sees; first = h.first; at = h.at }

    pub has_callback_at :
        (msg : Bytes)
        → has_callback redis (copied redis st id is h.sees) i msg ≡ has_msg msg it.off_msg.cb
    unfolding has_callback
    has_callback_at msg = rw (h.at, has_callback)

    -- A repeated callback changes nothing; a new one is added behind the others.
    pub save_callback_msg-Holds :
        (msg : Bytes)
        → Holds redis
            (save_callback_msg redis st id plat msg)
            id
            plat
            is
            i
            (if has_msg msg it.off_msg.cb then it else add_callback msg it)
    unfolding save_callback_msg
    save_callback_msg-Holds msg = elim (Bool-cases (has_msg msg it.off_msg.cb)) [
      | inl old ↦
          rw (find_hit redis st id is h.sees)
            (rw hit (rw (has_callback_at msg) (rw old copied-Holds)))
      | inr new ↦
          rw (find_hit redis st id is h.sees)
            (rw hit (rw (has_callback_at msg) (rw new (edited (add_callback msg) refl))))
    ]

    pub save_im_msg-Holds :
        (msg : Bytes)
        → Holds redis
            (save_im_msg redis st id plat msg)
            id
            plat
            is
            i
            (add_im (web_online (copied redis st id is h.sees) (length st.boxes)) msg it)
    unfolding save_im_msg
    save_im_msg-Holds msg = rw (find_hit redis st id is h.sees) (
        rw hit
          (edited (add_im (web_online (copied redis st id is h.sees) (length st.boxes)) msg) refl))

    pub get_callback_msg-Holds :
        ((get_callback_msg redis st id plat).0 ≡ it.off_msg.cb)
        × Holds redis (get_callback_msg redis st id plat).1 id plat is i (reset_callback it)
    unfolding get_callback_msg callbacks_at
    get_callback_msg-Holds =
        rw (find_hit redis st id is h.sees)
          (rw hit (rw (h.at, callbacks_at) refl, edited reset_callback refl))

    pub get_im_msg-Holds :
        ((get_im_msg redis st id plat).0 ≡ it.off_msg.im)
        × Holds redis (get_im_msg redis st id plat).1 id plat is i (reset_im it)
    unfolding get_im_msg ims_at
    get_im_msg-Holds =
        rw (find_hit redis st id is h.sees) (rw hit (rw (h.at, ims_at) refl, edited reset_im refl))

    -- A push is fetched as the empty one that it has just become.
    pub get_push_msg-Holds :
        ((get_push_msg redis st id plat).0 ≡ some (record { off_cnt = 0; msg = [] }))
        × Holds redis (get_push_msg redis st id plat).1 id plat is i (reset_push it)
    unfolding get_push_msg get_push_found read_push
    get_push_msg-Holds =
        let after = edited reset_push refl in
        rw (find_hit redis st id is h.sees) (rw hit (rw (after.at, read_push) refl, after))
