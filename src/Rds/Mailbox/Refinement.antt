-- ===== src/Rds/Mailbox/Refinement.antt =====
-- The store keeps the mailbox's promise: each operation of internal/rds/rds.go on a terminal of a
-- cached user is an operation of the mailbox, and so is every sequence of them.
use galopush.Prelude.{
  ℕ, zero, suc, Bytes, false, ◌=ₛ◌, ◌||◌, ltb, if◌then◌else◌, List, [], ◌∷◌, ◌++◌, length, take,
  drop, ◌≡◌, refl, ap, ◌∙◌, sym, subst, inl, inr, Bool-cases,
}
use galopush.Rds.Defs.{Item, Session, Redis}
use galopush.Rds.Store.{Storager, has_msg, add_callback, push_im}
use galopush.Rds.Delivery.{Holds}
use galopush.Rds.Offline.{
  save_push_msg-Holds, save_callback_msg-Holds, save_im_msg-Holds, get_push_msg-Holds,
  get_callback_msg-Holds, get_im_msg-Holds,
}
use galopush.Rds.Mailbox.{
  Mailbox, Op, put_push, put_callback, put_im, take_push, take_callbacks, take_ims, push_is,
  texts_are, texts, is_in, window, step, replay, mailbox, perform, run,
}

has_msg_lem : (msg : Bytes) (cb : List Item) → has_msg msg cb ≡ is_in msg (texts cb)
unfolding has_msg is_in texts
has_msg_lem msg [] = refl
has_msg_lem msg (x ∷ xs) = ap (◌||◌ (x.msg =ₛ msg)) (has_msg_lem msg xs)

texts-append : (a b : List Item) → texts (a ++ b) ≡ texts a ++ texts b
unfolding texts
texts-append [] b = refl
texts-append (x ∷ xs) b = ap (◌∷◌ x.msg) (texts-append xs b)

texts-take : (n : ℕ) (xs : List Item) → texts (take n xs) ≡ take n (texts xs)
unfolding texts
texts-take zero xs = refl
texts-take (suc n) [] = refl
texts-take (suc n) (x ∷ xs) = ap (◌∷◌ x.msg) (texts-take n xs)

texts-drop : (n : ℕ) (xs : List Item) → texts (drop n xs) ≡ drop n (texts xs)
unfolding texts
texts-drop zero xs = refl
texts-drop (suc n) [] = refl
texts-drop (suc n) (x ∷ xs) = texts-drop n xs

length-texts : (xs : List Item) → length (texts xs) ≡ length xs
unfolding texts
length-texts [] = refl
length-texts (x ∷ xs) = ap suc (length-texts xs)

-- The window on texts is the window on items.
texts-push_im : (im : List Item) (x : Item) → texts (push_im im x) ≡ window (texts im) x.msg
unfolding window texts
texts-push_im im x = elim (Bool-cases (ltb 50 (length im))) [
  | inl full ↦ rw (length-texts im) (
      rw full (
        texts-append (drop 1 (take 50 im)) (x ∷ [])
        ∙ rw (texts-drop 1 (take 50 im), texts-take 50 im) refl))
  | inr room ↦ rw (length-texts im) (rw room (texts-append im (x ∷ [])))
]

module _ {R : Type 0} (redis : Redis R) (id : Bytes) (plat : ℕ) where
  -- The i-th structure is the user's first terminal of the platform, and stands for a mailbox.
  pub record Stands (st : Storager R) (is : List ℕ) (i : ℕ) (b : Mailbox) : Type 0 where
    pub it : Session
    pub holds : Holds redis st id plat is i it
    pub view : mailbox it ≡ b

  module _ (is : List ℕ) (i : ℕ) where
    -- One operation of the store is one of the mailbox.
    abbrev pub Simulates : Op → Storager R → Mailbox → Type 0
    Simulates op st b =
        ((perform redis id plat op st).0 ≡ (step op b).0)
        × Stands (perform redis id plat op st).1 is i (step op b).1

    saved_callback :
        (msg : Bytes) (it : Session)
        → mailbox (if has_msg msg it.off_msg.cb then it else add_callback msg it)
          ≡ (step (put_callback msg) (mailbox it)).1
    unfolding step texts
    saved_callback msg it = elim (Bool-cases (has_msg msg it.off_msg.cb)) [
      | inl old ↦ rw old (rw (sym (has_msg_lem msg it.off_msg.cb) ∙ old) refl)
      | inr new ↦ rw new (
          rw (sym (has_msg_lem msg it.off_msg.cb) ∙ new)
            (rw (texts-append it.off_msg.cb (record { web_online = false; msg = msg } ∷ [])) refl))
    ]

    pub simulate :
        (op : Op) (st : Storager R) (it : Session)
        → Holds redis st id plat is i it
        → Simulates op st (mailbox it)
    unfolding perform step texts
    simulate (put_push msg) st it h = (
      refl,
      record { it = _; holds = save_push_msg-Holds redis st id plat is i it h msg; view = refl },
    )
    simulate (put_callback msg) st it h = (
      refl,
      record {
        it = _;
        holds = save_callback_msg-Holds redis st id plat is i it h msg;
        view = saved_callback msg it;
      },
    )
    simulate (put_im msg) st it h = (
      refl,
      record {
        it = _;
        holds = save_im_msg-Holds redis st id plat is i it h msg;
        view = ap (λ w. record (mailbox it) { ims = w }) (texts-push_im it.off_msg.im _);
      },
    )
    simulate take_push st it h =
        let fetched = get_push_msg-Holds redis st id plat is i it h in
        (ap push_is fetched.0, record { it = _; holds = fetched.1; view = refl })
    simulate take_callbacks st it h =
        let fetched = get_callback_msg-Holds redis st id plat is i it h in
        (
          ap (λ cb. texts_are (texts cb)) fetched.0,
          record { it = _; holds = fetched.1; view = refl },
        )
    simulate take_ims st it h =
        let fetched = get_im_msg-Holds redis st id plat is i it h in
        (
          ap (λ im. texts_are (texts im)) fetched.0,
          record { it = _; holds = fetched.1; view = refl },
        )

    -- For the first terminal of a platform of a cached user: every sequence of operations of the store
    -- gives the answers of the mailbox that the terminal stands for, and leaves the terminal standing
    -- for the mailbox that is left, whatever Redis answers.
    pub run-replay :
        (ops : List Op) (st : Storager R) (b : Mailbox)
        → Stands st is i b
        → ((run redis id plat ops st).0 ≡ (replay ops b).0)
          × Stands (run redis id plat ops st).1 is i (replay ops b).1
    unfolding run replay
    run-replay [] st b s = (refl, s)
    run-replay (op ∷ ops) st b s =
        let first = subst (Simulates op st) s.view (simulate op st s.it s.holds) in
        let rest = run-replay ops (perform redis id plat op st).1 (step op b).1 first.1 in
        (
          ap (λ a. a ∷ (run redis id plat ops (perform redis id plat op st).1).0) first.0
              ∙ ap (◌∷◌ (step op b).0) rest.0,
          rest.1,
        )
