-- ===== src/Comet/Session/Check.antt =====
-- checkTrans of comet/session.go, action by action: the goroutine that waits on one transaction, its
-- timer and its channel, with the answers of procResp (comet/socketdo.go) and the end of the session
-- at any point between its actions. `expire` and `answer` of Comet.Session are its undisturbed runs.
pub mod Laws
pub mod Race
pub mod Undisturbed
use galopush.Prelude.{
  ℕ, zero, suc, Bool, true, false, ◌==◌, if◌then◌else◌, List, [], ◌∷◌, ◌++◌, Option, none, some,
  ◌≡◌,
}
use galopush.Comet.Session.{
  Transaction, Session, Saved, get_trans, del_trans, stop_timer, destroy, on_timeout,
}

-- Where the goroutine stands: at its `select`, behind the save and before `t.exit <- 1`, before
-- delTrans, and behind it.
pub data Place : Type 0 where
  waiting timed_out leaving gone : Place

-- The session; the goroutine; whether the timer's tick and a signal are in their channels, of one place
-- each; the handlers between `timer.Stop()` and `trans.exit <- 1`; and what was saved.
pub record Watched : Type 0 where
  pub sess : Session
  pub place : Place
  pub ticked : Bool
  pub signalled : Bool
  pub answering : ℕ
  pub saved : List Saved

-- The goroutine when checkTrans starts it.
abbrev pub watch : Session → Watched
watch p = record {
  sess = p;
  place = waiting;
  ticked = false;
  signalled = false;
  answering = 0;
  saved = [];
}

-- `t.timer.Stop()` of the transaction of the number; also what is left of a timer that has fired.
unfoldable pub stop_trans : ℕ → List Transaction → List Transaction
stop_trans tid [] = []
stop_trans tid (t ∷ rest) = if t.tid == tid then stop_timer t ∷ rest else t ∷ stop_trans tid rest

abbrev pub stopped : ℕ → Session → Session
stopped tid p = record p { trans = stop_trans tid p.trans }

abbrev pub is_gone : Place → Bool
is_gone waiting = false
is_gone timed_out = false
is_gone leaving = false
is_gone gone = true

abbrev pub save : List Saved → Option Saved → List Saved
save saved none = saved
save saved (some s) = saved ++ (s ∷ [])

module _ (t : Transaction) where
  -- The actions, each at the end of those before it.
  pub data Steps (w : Watched) : Watched → Type 0 where
    start : Steps w w
    -- The timer fires.
    fires :
        (v : Watched) (u : Transaction)
        → Steps w v
        → is_gone v.place ≡ false
        → get_trans t.tid v.sess.trans ≡ some u
        → u.running ≡ true
        → Steps w (record v { sess = stopped t.tid v.sess; ticked = true })
    -- `case <-t.timer.C`, with the save.
    times_out :
        (v : Watched)
        → Steps w v
        → v.place ≡ waiting
        → v.ticked ≡ true
        → Steps w (record v {
          place = timed_out;
          ticked = false;
          saved = save v.saved (on_timeout v.sess.plat t);
        })
    -- `t.exit <- 1` of the goroutine, which waits for room in the channel.
    signals :
        (v : Watched)
        → Steps w v
        → v.place ≡ timed_out
        → v.signalled ≡ false
        → Steps w (record v { place = waiting; signalled = true })
    -- `case <-t.exit`
    leaves :
        (v : Watched)
        → Steps w v
        → v.place ≡ waiting
        → v.signalled ≡ true
        → Steps w (record v { place = leaving; signalled = false })
    -- delTrans, which stops the timer and closes the channel.
    deletes :
        (v : Watched)
        → Steps w v
        → v.place ≡ leaving
        → Steps w (record v {
          place = gone;
          sess = record v.sess { trans = del_trans t.tid v.sess.trans };
        })
    -- procResp finds the transaction and stops the timer.
    answered :
        (v : Watched) (u : Transaction)
        → Steps w v
        → is_gone v.place ≡ false
        → get_trans t.tid v.sess.trans ≡ some u
        → Steps w (record v { sess = stopped t.tid v.sess; answering = suc v.answering })
    -- `trans.exit <- 1` of procResp, which waits for room too.
    sends :
        (v : Watched) (n : ℕ)
        → Steps w v
        → is_gone v.place ≡ false
        → v.answering ≡ suc n
        → v.signalled ≡ false
        → Steps w (record v { answering = n; signalled = true })
    -- The same after the channel was closed: a panic ends the handler.
    panics :
        (v : Watched) (n : ℕ)
        → Steps w v
        → v.place ≡ gone
        → v.answering ≡ suc n
        → Steps w (record v { answering = n })
    -- The session is destroyed.
    destroyed : (v : Watched) → Steps w v → Steps w (record v { sess = destroy v.sess })
