-- ===== src/Rds/Fetch.antt =====
-- The round trips of offline messages, and the window of instant messages.
use galopush.Prelude.{
  ℕ, zero, suc, ◌≤◌, Bytes, true, false, if◌then◌else◌, List, [], ◌∷◌, ◌++◌, Option, none, some,
  get_elem?, length, take, drop, ltb, ◌=ₛ◌, same_iff, ◌≡◌, ◌⊎◌, refl, sym, ap, ◌∙◌, arith,
  Bool-cases, inl, inr, subst, take-append, length-append, length-take, length-drop,
}
use galopush.Rds.Defs.{Item, Session, Redis}
use galopush.Rds.Store.{Storager, has_msg, add_callback, reset_callback, add_im, reset_im, push_im}
use galopush.Rds.Messages.{web_online, save_callback_msg, save_im_msg, get_callback_msg, get_im_msg}
use galopush.Rds.Delivery.{Holds, copied}
use galopush.Rds.Offline.{
  save_callback_msg-Holds, save_im_msg-Holds, get_callback_msg-Holds, get_im_msg-Holds,
}

-- The text is that of a message of the list.
abbrev pub IsThere : Bytes → List Item → Type 0
IsThere msg items = (i : ℕ) × (v : Item) × (get_elem? items i ≡ some v) × (v.msg ≡ msg)

-- The callbacks of a terminal after one more was saved.
abbrev callbacks_with : Bytes → List Item → List Item
callbacks_with msg cb =
    if has_msg msg cb then cb else cb ++ (record { web_online = false; msg = msg } ∷ [])

has_msg-IsThere : (msg : Bytes) (cb : List Item) → has_msg msg cb ≡ true → IsThere msg cb
unfolding has_msg
has_msg-IsThere msg [] e = ground (arith, e)
has_msg-IsThere msg (v ∷ rest) e = elim (Bool-cases (v.msg =ₛ msg)) [
  | inl same ↦ (0, v, refl, (same_iff v.msg msg).0 same)
  | inr other ↦
      let (i, w, at, is) = has_msg-IsThere msg rest (ground (arith, e, other)) in (suc i, w, at, is)
]

abbrev text_of : Option Item → Bytes
text_of none = []
text_of (some v) = v.msg

IsThere-has_msg :
    (msg : Bytes) (cb : List Item) (i : ℕ) (v : Item)
    → get_elem? cb i ≡ some v
    → v.msg ≡ msg
    → has_msg msg cb ≡ true
unfolding has_msg
IsThere-has_msg msg [] i v at is = ground (arith, at)
IsThere-has_msg msg (w ∷ rest) zero v at is = ground (arith, same_iff w.msg msg, is, ap text_of at)
IsThere-has_msg msg (w ∷ rest) (suc i) v at is = ground (arith, IsThere-has_msg msg rest i v at is)

-- The callbacks after one was saved: as they were when the text was there already, and otherwise the
-- new one stands behind them.
abbrev pub OneMore : Bytes → List Item → List Item → Type 0
OneMore msg cb cb1 =
    (IsThere msg cb × (cb1 ≡ cb))
    ⊎ ((¬ IsThere msg cb) × (cb1 ≡ cb ++ (record { web_online = false; msg = msg } ∷ [])))

callbacks_with-OneMore : (msg : Bytes) (cb : List Item) → OneMore msg cb (callbacks_with msg cb)
callbacks_with-OneMore msg cb = elim (Bool-cases (has_msg msg cb)) [
  | inl old ↦ inl (has_msg-IsThere msg cb old, rw old refl)
  | inr new ↦
      inr ((λ (i, v, at, is). ground (arith, new, IsThere-has_msg msg cb i v at is)), rw new refl)
]

cb_of_saved :
    (msg : Bytes) (it : Session)
    → (if has_msg msg it.off_msg.cb then it else add_callback msg it).off_msg.cb
      ≡ callbacks_with msg it.off_msg.cb
cb_of_saved msg it = elim (Bool-cases (has_msg msg it.off_msg.cb)) [
  | inl old ↦ rw old
  | inr new ↦ rw new
]

module _ {R : Type 0} (redis : Redis R) (st : Storager R) (id : Bytes) (plat : ℕ) (is : List ℕ)
    (i : ℕ) (it : Session) (h : Holds redis st id plat is i it) where
  -- For a user in the cache with a terminal of the platform: saving a callback and fetching the
  -- callbacks gives those that were there, and the new one behind them exactly if none of
  -- them has the same text; fetching once more gives none.
  pub get_callback_msg-save_callback_msg :
      (msg : Bytes)
      → let saved = save_callback_msg redis st id plat msg in
        let fetched = get_callback_msg redis saved id plat in
        OneMore msg it.off_msg.cb fetched.0 × ((get_callback_msg redis fetched.1 id plat).0 ≡ [])
  get_callback_msg-save_callback_msg msg =
      let saved = save_callback_msg redis st id plat msg in
      let new = if has_msg msg it.off_msg.cb then it else add_callback msg it in
      let first =
        get_callback_msg-Holds redis saved id plat is i new
          (save_callback_msg-Holds redis st id plat is i it h msg) in
      let second =
        get_callback_msg-Holds redis (get_callback_msg redis saved id plat).1 id plat is i
          (reset_callback new) first.1 in
      let same = first.0 ∙ cb_of_saved msg it in
      (
        subst (OneMore msg it.off_msg.cb) (sym same) (callbacks_with-OneMore msg it.off_msg.cb),
        second.0,
      )

  -- For a user in the cache with a terminal of the platform: saving an instant message and fetching
  -- gives the window of the messages that were there with the new one last, and fetching once more
  -- gives none.
  pub get_im_msg-save_im_msg :
      (msg : Bytes)
      → let saved = save_im_msg redis st id plat msg in
        let fetched = get_im_msg redis saved id plat in
        (fetched.0
          ≡ push_im it.off_msg.im (record {
            web_online = web_online (copied redis st id is h.sees) (length st.boxes);
            msg = msg;
          }))
        × ((get_im_msg redis fetched.1 id plat).0 ≡ [])
  get_im_msg-save_im_msg msg =
      let saved = save_im_msg redis st id plat msg in
      let new = add_im (web_online (copied redis st id is h.sees) (length st.boxes)) msg it in
      let first =
        get_im_msg-Holds redis saved id plat is i new
          (save_im_msg-Holds redis st id plat is i it h msg) in
      let second =
        get_im_msg-Holds redis (get_im_msg redis saved id plat).1 id plat is i (reset_im new)
          first.1 in
      (first.0, second.0)

take_front :
    (n : ℕ) (front : List Item) (x : Item) → length front ≡ n → take n (front ++ (x ∷ [])) ≡ front
take_front n front x e =
    subst (λ k. take k (front ++ (x ∷ [])) ≡ front) e (take-append front (x ∷ []))

windowed :
    (im : List Item)
    → length im ≤ 51
    → length (if ltb 50 (length im) then drop 1 (take 50 im) else im) ≤ 50
windowed im h = elim (Bool-cases (ltb 50 (length im))) [
  | inl full ↦ rw full (omega (arith, length-drop 1 (take 50 im), length-take 50 im (ground arith)))
  | inr room ↦ rw room (ground arith)
]

-- A window of at most 51 instant messages stays one when a message is added.
pub length-push_im : (im : List Item) (new : Item) → length im ≤ 51 → length (push_im im new) ≤ 51
length-push_im im new h = omega (
  arith,
  length-append (if ltb 50 (length im) then drop 1 (take 50 im) else im) (new ∷ []),
  windowed im h,
)

-- A full window of 51 messages, when one more comes, loses its oldest message and also its newest:
-- `Im[1:50]` leaves out the last of 51. The new message stands behind the 49 that are left.
pub push_im_full :
    (front : List Item) (newest new : Item)
    → length front ≡ 50
    → push_im (front ++ (newest ∷ [])) new ≡ drop 1 front ++ (new ∷ [])
push_im_full front newest new e =
    let full : ltb 50 (length (front ++ (newest ∷ []))) ≡ true =
      let total = length-append front (newest ∷ []) in ground arith in
    rw full (ap (λ f. drop 1 f ++ (new ∷ [])) (take_front 50 front newest e))
