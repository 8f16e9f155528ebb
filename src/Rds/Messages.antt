-- ===== src/Rds/Messages.antt =====
-- internal/rds/rds.go, the operations on top of FindSessions and SaveSessions: offline messages of
-- one terminal, the online state of a user, and the loss of a whole comet.
use galopush.Prelude.{
  ℕ, Bytes, ◌=ₛ◌, Bool, true, false, ◌&&◌, ◌==◌, if◌then◌else◌, List, [], ◌∷◌, Option, none, some,
  length, get_elem?, set,
}
use galopush.Protocol.Message.{plat_web}
use galopush.Rds.Defs.{Item, Push, Session, Sessions, Redis}
use galopush.Rds.Store.{
  Storager, first_plat, has_msg, add_push, reset_push, add_callback, reset_callback, add_im,
  reset_im, marshal, find_sessions, save_sessions,
}

-- Is a terminal of the platform online?
unfoldable pub any_online : List Session → ℕ → List ℕ → Bool
any_online items plat [] = false
any_online items plat (i ∷ is) =
    let rest = any_online items plat is in
    elim (get_elem? items i) [
      | none ↦ rest
      | some it ↦ if it.plat == plat && it.online then true else rest
    ]

-- `for _, it := range sess.Sess { it.Online = false }`
unfoldable pub set_offline : List ℕ → List Session → List Session
set_offline [] items = items
set_offline (i ∷ is) items = elim (get_elem? items i) [
  | none ↦ set_offline is items
  | some it ↦ set_offline is (set items i (record it { online = false }))
]

-- The two ways out of the search for a terminal.
abbrev pub with_terminal {κ} : {A : Type κ} → Option ℕ → A → (ℕ → A) → A
with_terminal none absent present = absent
with_terminal (some i) absent present = present i

module _ {R : Type 0} where
  -- `it.… = …` through a pointer.
  unfoldable pub change_item : Storager R → ℕ → (Session → Session) → Storager R
  change_item st i f = elim (get_elem? st.items i) [
    | none ↦ st
    | some it ↦ record st { items = set st.items i (f it) }
  ]

  -- The terminals of a box.
  unfoldable pub terminals : Storager R → ℕ → List ℕ
  terminals st p = elim (get_elem? st.boxes p) [ none ↦ [] | some s ↦ s.sess ]

  -- The terminal of a platform in a box.
  unfoldable pub terminal_of : Storager R → ℕ → ℕ → Option ℕ
  unfolding terminals
  terminal_of st p plat = first_plat st.items plat (terminals st p)

  -- `if sess == nil { … }`, on what FindSessions returned.
  abbrev pub with_box {κ} :
      {A : Type κ} → Option ℕ × Storager R → (Storager R → A) → (Storager R → ℕ → A) → A
  with_box (none, st) absent present = absent st
  with_box (some p, st) absent present = present st p

  -- `it.Online` of the first terminal on the web, false without one.
  unfoldable pub web_online : Storager R → ℕ → Bool
  web_online st p = elim (terminal_of st p plat_web) [
    | none ↦ false
    | some i ↦ elim (get_elem? st.items i) [ none ↦ false | some it ↦ it.online ]
  ]

module _ {R : Type 0} (redis : Redis R) where
  -- SavePushMsg
  unfoldable pub save_push_msg : Storager R → Bytes → ℕ → Bytes → Storager R
  save_push_msg st id plat msg =
      with_box (find_sessions redis st id) (λ st1. st1)
        λ st1 p.
          with_terminal (terminal_of st1 p plat) (save_sessions redis st1 p)
            λ i. save_sessions redis (change_item st1 i (add_push msg)) p

  -- Has the terminal this callback already?
  unfoldable pub has_callback : Storager R → ℕ → Bytes → Bool
  has_callback st i msg = elim (get_elem? st.items i) [
    | none ↦ false
    | some it ↦ has_msg msg it.off_msg.cb
  ]

  -- SaveCallbackMsg: a repeated callback returns at once, with nothing saved.
  unfoldable pub save_callback_msg : Storager R → Bytes → ℕ → Bytes → Storager R
  save_callback_msg st id plat msg =
      with_box (find_sessions redis st id) (λ st1. st1)
        λ st1 p. with_terminal (terminal_of st1 p plat) (save_sessions redis st1 p) λ i.
          if has_callback st1 i msg
          then st1
          else save_sessions redis (change_item st1 i (add_callback msg)) p

  -- SaveImMsg
  unfoldable pub save_im_msg : Storager R → Bytes → ℕ → Bytes → Storager R
  save_im_msg st id plat msg =
      with_box (find_sessions redis st id) (λ st1. st1)
        λ st1 p.
          with_terminal (terminal_of st1 p plat) (save_sessions redis st1 p)
            λ i. save_sessions redis (change_item st1 i (add_im (web_online st1 p) msg)) p

  -- `return r` with `r = &it.OffMsg.Push`: the caller reads the push part of the terminal when the
  -- call is over.
  unfoldable pub read_push : Storager R → ℕ → Option Push
  read_push st i = elim (get_elem? st.items i) [ none ↦ none | some it ↦ some it.off_msg.push ]

  -- GetPushMsg from FindSessions on, with what the caller sees behind the pointer that it gets.
  unfoldable pub get_push_found : ℕ → Option ℕ × Storager R → Option Push × Storager R
  get_push_found plat found =
      with_box found (λ st1. (none, st1))
        λ st1 p.
          with_terminal (terminal_of st1 p plat) (none, save_sessions redis st1 p)
            λ i.
              let st2 = save_sessions redis (change_item st1 i reset_push) p in
              (read_push st2 i, st2)

  -- GetPushMsg
  unfoldable pub get_push_msg : Storager R → Bytes → ℕ → Option Push × Storager R
  unfolding get_push_found
  get_push_msg st id plat = get_push_found plat (find_sessions redis st id)

  unfoldable pub callbacks_at : Storager R → ℕ → List Item
  callbacks_at st i = elim (get_elem? st.items i) [ none ↦ [] | some it ↦ it.off_msg.cb ]

  unfoldable pub ims_at : Storager R → ℕ → List Item
  ims_at st i = elim (get_elem? st.items i) [ none ↦ [] | some it ↦ it.off_msg.im ]

  -- GetCallbackMsg: `r = it.OffMsg.CB` copies the slice before the field is replaced.
  unfoldable pub get_callback_msg : Storager R → Bytes → ℕ → List Item × Storager R
  get_callback_msg st id plat =
      with_box (find_sessions redis st id) (λ st1. ([], st1))
        λ st1 p.
          with_terminal (terminal_of st1 p plat) ([], save_sessions redis st1 p)
            λ i. (callbacks_at st1 i, save_sessions redis (change_item st1 i reset_callback) p)

  -- GetImMsg
  unfoldable pub get_im_msg : Storager R → Bytes → ℕ → List Item × Storager R
  get_im_msg st id plat =
      with_box (find_sessions redis st id) (λ st1. ([], st1))
        λ st1 p.
          with_terminal (terminal_of st1 p plat) ([], save_sessions redis st1 p)
            λ i. (ims_at st1 i, save_sessions redis (change_item st1 i reset_im) p)

  -- SessionOnline
  unfoldable pub session_online : Storager R → Bytes → ℕ → Bool × Storager R
  session_online st id plat =
      with_box (find_sessions redis st id) (λ st1. (false, st1))
        λ st1 p. (any_online st1.items plat (terminals st1 p), st1)

  -- SessionComet: the empty string for an unknown user.
  unfoldable pub session_comet : Storager R → Bytes → Bytes × Storager R
  session_comet st id =
      with_box (find_sessions redis st id) (λ st1. ([], st1))
        λ st1 p. elim (get_elem? st1.boxes p) [ none ↦ ([], st1) | some s ↦ (s.comet_id, st1) ]

  -- SessionCount
  unfoldable pub session_count : Storager R → ℕ
  session_count st = length st.mem_store

  -- Every terminal of a box goes offline, and Redis is told; its error is only logged.
  unfoldable pub offline_terminals : Storager R → Sessions → Storager R
  offline_terminals st s =
      let st1 = record st { items = set_offline s.sess st.items } in
      record st1 { cli = (redis.put st1.cli s.id (marshal redis st1 s)).0 }

  -- One round of OfflineComet's loop.
  unfoldable pub offline_box : Bytes → Storager R → ℕ → Storager R
  unfolding offline_terminals
  offline_box comet st p = elim (get_elem? st.boxes p) [
    | none ↦ st
    | some s ↦ if s.comet_id =ₛ comet then offline_terminals st s else st
  ]

  -- OfflineComet: the loop over the cache.
  unfoldable pub offline_boxes : Bytes → List (Bytes × ℕ) → Storager R → Storager R
  offline_boxes comet [] st = st
  offline_boxes comet ((id, p) ∷ rest) st = offline_boxes comet rest (offline_box comet st p)

  unfoldable pub offline_comet : Storager R → Bytes → Storager R
  offline_comet st comet = offline_boxes comet st.mem_store st
