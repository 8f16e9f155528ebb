-- ===== src/Comet/Session/Check/Race.antt =====
-- The race of checkTrans: an answer between the save of a timeout and the signal behind it.
use galopush.Prelude.{
  ℕ, suc, ◌≤◌, true, false, List, [], Option, none, some, map, ◌≡◌, ◌≢◌, refl, sym, ap, ◌∙◌, arith,
}
use galopush.Comet.Session.{Transaction, Session, get_trans, stop_timer, destroy, on_timeout}
use galopush.Comet.Session.Check.{
  timed_out, Watched, watch, stop_trans, stopped, save, Steps, start, fires, times_out, signals,
  leaves, deletes, answered, sends, panics, destroyed,
}
use galopush.Comet.Session.Check.Laws.{stop_found, get_trans-stop_trans, get_trans-destroyed}

module _ (t : Transaction) where
  -- The goroutine waits for room in a channel that only it empties.
  pub record IsStuck (w : Watched) : Type 0 where
    pub behind_the_save : w.place ≡ timed_out
    pub full : w.signalled ≡ true

  -- What stays so, with the number of the handlers that wait as well.
  pub record StaysStuck (w v : Watched) : Type 0 where
    pub stuck : IsStuck v
    pub saved_same : v.saved ≡ w.saved
    pub waiting_too : w.answering ≤ v.answering
    pub listed : get_trans t.tid w.sess.trans ≢ none → get_trans t.tid v.sess.trans ≢ none

  stop_found-some : (o : Option Transaction) → stop_found o ≡ none → o ≡ none
  stop_found-some none e = refl
  stop_found-some (some u) e = absurd (cc)

  -- A step that only stops timers.
  StaysStuck-timers :
      (w v : Watched) (ts : List Transaction) (n : ℕ)
      → get_trans t.tid ts ≡ stop_found (get_trans t.tid v.sess.trans)
      → v.answering ≤ n
      → StaysStuck w v
      → StaysStuck w (record v { sess = record v.sess { trans = ts }; answering = n })
  StaysStuck-timers w v ts n same more s = record {
    stuck = record { behind_the_save = s.stuck.behind_the_save; full = s.stuck.full };
    saved_same = s.saved_same;
    waiting_too = omega (arith, s.waiting_too, more);
    listed = λ there gone. s.listed there (stop_found-some _ (sym same ∙ gone));
  }

  -- A goroutine that waits behind the save for room in a full channel waits for ever, whatever else
  -- happens: nothing more is saved, the transaction stays in the list if it was there, and every
  -- handler that wants to hand over an answer for it waits as well.
  pub IsStuck-Steps : {w v : Watched} → IsStuck w → Steps t w v → StaysStuck w v
  unfolding destroy
  IsStuck-Steps stuck start = record {
    stuck = stuck;
    saved_same = refl;
    waiting_too = omega arith;
    listed = λ there. there;
  }
  IsStuck-Steps {w = w} stuck (fires v u run here at running) =
      let s = IsStuck-Steps stuck run in
      let rest =
        StaysStuck-timers w v (stop_trans t.tid v.sess.trans) v.answering
          (get_trans-stop_trans t.tid v.sess.trans) (omega arith) s in
      record {
        stuck = record { behind_the_save = s.stuck.behind_the_save; full = s.stuck.full };
        saved_same = s.saved_same;
        waiting_too = s.waiting_too;
        listed = rest.listed;
      }
  IsStuck-Steps stuck (times_out v run here ticked) =
      let s = (IsStuck-Steps stuck run).stuck in absurd (ground (arith, s.behind_the_save, here))
  IsStuck-Steps stuck (signals v run here room) =
      let s = (IsStuck-Steps stuck run).stuck in absurd (ground (arith, s.full, room))
  IsStuck-Steps stuck (leaves v run here signal) =
      let s = (IsStuck-Steps stuck run).stuck in absurd (ground (arith, s.behind_the_save, here))
  IsStuck-Steps stuck (deletes v run here) =
      let s = (IsStuck-Steps stuck run).stuck in absurd (ground (arith, s.behind_the_save, here))
  IsStuck-Steps {w = w} stuck (answered v u run here at) =
      StaysStuck-timers w v (stop_trans t.tid v.sess.trans) (suc v.answering)
        (get_trans-stop_trans t.tid v.sess.trans) (omega arith) (IsStuck-Steps stuck run)
  IsStuck-Steps stuck (sends v n run here more room) =
      let s = (IsStuck-Steps stuck run).stuck in absurd (ground (arith, s.full, room))
  IsStuck-Steps stuck (panics v n run here more) =
      let s = (IsStuck-Steps stuck run).stuck in absurd (ground (arith, s.behind_the_save, here))
  IsStuck-Steps {w = w} stuck (destroyed v run) =
      StaysStuck-timers w v (map stop_timer v.sess.trans) v.answering
        (get_trans-destroyed t.tid v.sess.trans) (omega arith) (IsStuck-Steps stuck run)

  -- The state in which an answer has come between the save and `t.exit <- 1`.
  abbrev pub overtaken : Session → Watched
  overtaken p = record {
    sess = stopped t.tid (stopped t.tid p);
    place = timed_out;
    ticked = false;
    signalled = true;
    answering = 0;
    saved = save [] (on_timeout p.plat t);
  }

  pub overtaken-Steps :
      (p : Session)
      → get_trans t.tid p.trans ≡ some t
      → t.running ≡ true
      → Steps t (watch p) (overtaken p)
  overtaken-Steps p at running =
      let again : get_trans t.tid (stop_trans t.tid p.trans) ≡ some (stop_timer t) =
        get_trans-stop_trans t.tid p.trans ∙ ap stop_found at in
      sends _ 0
        (answered _ (stop_timer t) (times_out _ (fires _ t start refl at running) refl refl) refl
          again)
        refl refl refl
