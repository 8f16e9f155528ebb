-- ===== src/Rds/Mailbox.antt =====
-- What internal/rds/rds.go promises for one terminal of a cached user: a mailbox, on which every
-- sequence of saving and fetching has the answers of the store.
pub mod Refinement
pub mod Neighbours
pub mod Interleaving
use galopush.Prelude.{
  ℕ, zero, suc, ◌+◌, ◌%◌, Bytes, Bool, true, false, ◌=ₛ◌, ◌||◌, ltb, if◌then◌else◌, List, [], ◌∷◌,
  ◌++◌, Option, none, some, length, take, drop, ◌≡◌, refl, ap, ◌∙◌, sym, subst, arith, inl, inr,
  Bool-cases,
}
use galopush.Rds.Defs.{Item, Push, Session, Redis}
use galopush.Rds.Store.{
  Storager, has_msg, add_push, reset_push, add_callback, reset_callback, add_im, reset_im, push_im,
}
use galopush.Rds.Messages.{
  web_online, save_push_msg, save_callback_msg, save_im_msg, get_push_msg, get_callback_msg,
  get_im_msg,
}
use galopush.Rds.Delivery.{Holds, copied}
use galopush.Rds.Offline.{
  save_push_msg-Holds, save_callback_msg-Holds, save_im_msg-Holds, get_push_msg-Holds,
  get_callback_msg-Holds, get_im_msg-Holds,
}

-- The mailbox of a terminal: its latest push with the number of pushes, the texts of its callbacks
-- and of its instant messages, the oldest first.
pub record Mailbox : Type 0 where
  pub push : Push
  pub callbacks : List Bytes
  pub ims : List Bytes

pub data Op : Type 0 where
  put_push put_callback put_im : Bytes → Op
  take_push take_callbacks take_ims : Op

pub data Answer : Type 0 where
  stored : Answer
  push_is : Option Push → Answer
  texts_are : List Bytes → Answer

-- The texts of a list of items.
unfoldable pub texts : List Item → List Bytes
texts [] = []
texts (x ∷ xs) = x.msg ∷ texts xs

unfoldable pub is_in : Bytes → List Bytes → Bool
is_in msg [] = false
is_in msg (x ∷ xs) = x =ₛ msg || is_in msg xs

-- The window of instant messages: from 51 on, the oldest goes, and the newest.
unfoldable pub window : List Bytes → Bytes → List Bytes
window ims msg = (if ltb 50 (length ims) then drop 1 (take 50 ims) else ims) ++ (msg ∷ [])

-- An operation on a mailbox: callbacks are kept once, and what is fetched is gone, where a fetched
-- push is gone before it is seen.
unfoldable pub step : Op → Mailbox → Answer × Mailbox
unfolding is_in window
step (put_push msg) b =
    (stored, record b { push = record { off_cnt = (b.push.off_cnt + 1) % 65536; msg = msg } })
step (put_callback msg) b = (
  stored,
  record b { callbacks = if is_in msg b.callbacks then b.callbacks else b.callbacks ++ (msg ∷ []) },
)
step (put_im msg) b = (stored, record b { ims = window b.ims msg })
step take_push b =
    let empty : Push = record { off_cnt = 0; msg = [] } in
    (push_is (some empty), record b { push = empty })
step take_callbacks b = (texts_are b.callbacks, record b { callbacks = [] })
step take_ims b = (texts_are b.ims, record b { ims = [] })

unfoldable pub replay : List Op → Mailbox → List Answer × Mailbox
unfolding step
replay [] b = ([], b)
replay (op ∷ ops) b = let (a, b1) = step op b in let (rest, b2) = replay ops b1 in (a ∷ rest, b2)

-- The mailbox that a terminal's structure stands for.
abbrev pub mailbox : Session → Mailbox
mailbox it = record {
  push = it.off_msg.push;
  callbacks = texts it.off_msg.cb;
  ims = texts it.off_msg.im;
}

module _ {R : Type 0} (redis : Redis R) (id : Bytes) (plat : ℕ) where
  -- The store's own operations for a user and a platform.
  unfoldable pub perform : Op → Storager R → Answer × Storager R
  perform (put_push msg) st = (stored, save_push_msg redis st id plat msg)
  perform (put_callback msg) st = (stored, save_callback_msg redis st id plat msg)
  perform (put_im msg) st = (stored, save_im_msg redis st id plat msg)
  perform take_push st = let (p, st1) = get_push_msg redis st id plat in (push_is p, st1)
  perform take_callbacks st =
      let (cb, st1) = get_callback_msg redis st id plat in (texts_are (texts cb), st1)
  perform take_ims st = let (im, st1) = get_im_msg redis st id plat in (texts_are (texts im), st1)

  unfoldable pub run : List Op → Storager R → List Answer × Storager R
  unfolding perform
  run [] st = ([], st)
  run (op ∷ ops) st =
      let (a, st1) = perform op st in let (rest, st2) = run ops st1 in (a ∷ rest, st2)
