-- ===== src/Rds/Mailbox/Neighbours.antt =====
-- Two users' terminals in one store of internal/rds/rds.go: an operation on the one leaves the other.
use galopush.Prelude.{
  ℕ, Bytes, same_iff, List, [], ◌∷◌, some, length, get_elem?, set, ◌≡◌, ◌≢◌, refl, ap, ◌∙◌, arith,
  inl, inr, Bool-cases, get_elem?-end, get_elem?-append, get_elem?-set_ne,
}
use galopush.Prelude.Assoc.{lookup, lookup-insert}
use galopush.Rds.Defs.{Session, Sessions, Redis}
use galopush.Rds.Store.{
  Storager, has_msg, add_push, reset_push, add_callback, reset_callback, add_im, reset_im, marshal,
  save_sessions,
}
use galopush.Rds.Messages.{
  change_item, web_online, save_push_msg, save_callback_msg, save_im_msg, get_push_msg,
  get_callback_msg, get_im_msg, get_push_found,
}
use galopush.Rds.Delivery.{Holds, find_hit, copied, first_plat-set, items-save_sessions}
use galopush.Rds.Offline.{hit, has_callback_at}
use galopush.Rds.Mailbox.{
  Op, put_push, put_callback, put_im, take_push, take_callbacks, take_ims, perform,
}

module _ {R : Type 0} (redis : Redis R) where
  -- What saving a box leaves: the boxes, and the cache of every other user.
  boxes-save_sessions : (st : Storager R) (p : ℕ) → (save_sessions redis st p).boxes ≡ st.boxes
  unfolding save_sessions
  boxes-save_sessions st p = ground arith

  lookup-save_sessions :
      (st : Storager R) (p : ℕ) (s : Sessions) (other : Bytes)
      → get_elem? st.boxes p ≡ some s
      → s.id ≢ other
      → lookup other (save_sessions redis st p).mem_store ≡ lookup other st.mem_store
  unfolding save_sessions
  lookup-save_sessions st p s other at differs =
      elim (Bool-cases (redis.put st.cli s.id (marshal redis st s)).1) [
        | inl good ↦
            rw (at, save_sessions)
              (rw (good, save_sessions)
                (lookup-insert s.id other p st.mem_store
                  ∙ ground (arith, same_iff s.id other, differs)))
        | inr bad ↦ rw (at, save_sessions) (rw (bad, save_sessions) refl)
      ]

  module _ (st : Storager R) (id : Bytes) (plat : ℕ) (is : List ℕ) (i : ℕ) (it : Session)
      (h : Holds redis st id plat is i it) (other : Bytes) (plat1 : ℕ) (js : List ℕ) (j : ℕ)
      (jt : Session) (k : Holds redis st other plat1 js j jt) (differs : id ≢ other)
      (apart : i ≢ j) where
    -- The other user's terminal stands as it did.
    abbrev pub Kept : Storager R → Type 0
    Kept st1 = Holds redis st1 other plat1 js j jt

    -- The copy that FindSessions makes stands behind the other user's box.
    stored_copied : get_elem? (copied redis st id is h.sees).boxes k.sees.ptr ≡ some k.sees.box
    stored_copied = get_elem?-append st.boxes (h.sees.box ∷ []) k.sees.ptr k.sees.box k.sees.stored

    copied-Kept : Kept (copied redis st id is h.sees)
    copied-Kept = record {
      sees = record {
        ptr = k.sees.ptr;
        box = k.sees.box;
        cached = k.sees.cached;
        stored = stored_copied;
        named = k.sees.named;
        lists = k.sees.lists;
      };
      first = k.first;
      at = k.at;
    }

    edited-Kept :
        (f : Session → Session)
        → (f it).plat ≡ it.plat
        → Kept
            (save_sessions redis (change_item (copied redis st id is h.sees) i f) (length st.boxes))
    unfolding change_item
    edited-Kept f same =
        let st1 = record (copied redis st id is h.sees) { items = set st.items i (f it) } in
        let items = items-save_sessions redis st1 (length st.boxes) in
        rw (h.at, change_item)
          (record {
            sees = record {
              ptr = k.sees.ptr;
              box = k.sees.box;
              cached =
                  lookup-save_sessions st1 (length st.boxes) h.sees.box other
                    (get_elem?-end st.boxes h.sees.box) (rw h.sees.named differs)
                  ∙ k.sees.cached;
              stored =
                  ap (λ bs. get_elem? bs k.sees.ptr) (boxes-save_sessions st1 (length st.boxes))
                  ∙ stored_copied;
              named = k.sees.named;
              lists = k.sees.lists;
            };
            first = rw items (first_plat-set st.items i it (f it) plat1 js h.at same ∙ k.first);
            at = rw items (get_elem?-set_ne st.items i j (f it) apart ∙ k.at);
          })

    -- No operation on the one terminal touches the other.
    pub perform-Kept : (op : Op) → Kept (perform redis id plat op st).1
    unfolding perform save_push_msg save_callback_msg save_im_msg get_push_msg get_push_found
        get_callback_msg get_im_msg
    perform-Kept (put_push msg) =
        rw (find_hit redis st id is h.sees)
          (rw (hit redis st id plat is i it h) (edited-Kept (add_push msg) refl))
    perform-Kept (put_callback msg) = elim (Bool-cases (has_msg msg it.off_msg.cb)) [
      | inl old ↦ rw (find_hit redis st id is h.sees) (
          rw (hit redis st id plat is i it h)
            (rw (has_callback_at redis st id plat is i it h msg) (rw old copied-Kept)))
      | inr new ↦ rw (find_hit redis st id is h.sees) (
          rw (hit redis st id plat is i it h) (
            rw (has_callback_at redis st id plat is i it h msg)
              (rw new (edited-Kept (add_callback msg) refl))))
    ]
    perform-Kept (put_im msg) = rw (find_hit redis st id is h.sees) (
        rw (hit redis st id plat is i it h) (
          edited-Kept (add_im (web_online (copied redis st id is h.sees) (length st.boxes)) msg)
            refl))
    perform-Kept take_push =
        rw (find_hit redis st id is h.sees)
          (rw (hit redis st id plat is i it h) (edited-Kept reset_push refl))
    perform-Kept take_callbacks =
        rw (find_hit redis st id is h.sees)
          (rw (hit redis st id plat is i it h) (edited-Kept reset_callback refl))
    perform-Kept take_ims =
        rw (find_hit redis st id is h.sees)
          (rw (hit redis st id plat is i it h) (edited-Kept reset_im refl))
