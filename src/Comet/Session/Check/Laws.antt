-- ===== src/Comet/Session/Check/Laws.antt =====
-- A transaction is saved once at most, whatever happens between the actions of checkTrans.
use galopush.Prelude.{
  ℕ, ◌+◌, ◌≤◌, Bool, true, false, if◌then◌else◌, List, [], ◌∷◌, Option, none, some, length, map,
  ◌≡◌, refl, arith, Option-cases, Bool-cases, inl, inr, length-append,
}
use galopush.Comet.Session.{
  Transaction, Session, Saved, get_trans, del_trans, stop_timer, destroy, on_timeout,
}
use galopush.Comet.Session.Check.{
  Watched, watch, stop_trans, is_gone, save, Steps, start, fires, times_out, signals, leaves,
  deletes, answered, sends, panics, destroyed,
}

pub del_trans-stop_trans :
    (tid : ℕ) (ts : List Transaction) → del_trans tid (stop_trans tid ts) ≡ del_trans tid ts
unfolding del_trans stop_trans
del_trans-stop_trans tid [] = refl
del_trans-stop_trans tid (t ∷ ts) = ground (arith, del_trans-stop_trans tid ts)

abbrev pub stop_found : Option Transaction → Option Transaction
stop_found none = none
stop_found (some t) = some (stop_timer t)

pub get_trans-stop_trans :
    (tid : ℕ) (ts : List Transaction)
    → get_trans tid (stop_trans tid ts) ≡ stop_found (get_trans tid ts)
unfolding get_trans stop_trans
get_trans-stop_trans tid [] = refl
get_trans-stop_trans tid (t ∷ ts) = ground (arith, get_trans-stop_trans tid ts)

pub get_trans-destroyed :
    (tid : ℕ) (ts : List Transaction)
    → get_trans tid (map stop_timer ts) ≡ stop_found (get_trans tid ts)
unfolding get_trans
get_trans-destroyed tid [] = refl
get_trans-destroyed tid (t ∷ ts) = ground (arith, get_trans-destroyed tid ts)

-- 1 while the timer of the transaction may still fire.
abbrev may_fire : Option Transaction → ℕ
may_fire none = 0
may_fire (some t) = if t.running then 1 else 0

may_fire-stop_found : (o : Option Transaction) → may_fire (stop_found o) ≡ 0
may_fire-stop_found none = refl
may_fire-stop_found (some t) = refl

abbrev one_if : Bool → ℕ
one_if true = 1
one_if false = 0

module _ (t : Transaction) where
  abbrev timer : Watched → ℕ
  timer w = if is_gone w.place then 0 else may_fire (get_trans t.tid w.sess.trans)

  -- The saves there were, the tick that waits and the one that may still come.
  abbrev chances : Watched → ℕ
  chances w = length w.saved + one_if w.ticked + timer w

  length-save : (saved : List Saved) (o : Option Saved) → length (save saved o) ≤ length saved + 1
  length-save saved none = omega arith
  length-save saved (some s) = omega (arith, length-append saved (s ∷ []))

  chances-Steps : {p : Session} {w : Watched} → Steps t (watch p) w → chances w ≤ 1
  unfolding destroy
  chances-Steps {p = p} start = elim (Option-cases (get_trans t.tid p.trans)) [
    | inl lone ↦ ground (arith, lone)
    | inr (u, at) ↦ elim (Bool-cases u.running) [
      | inl running ↦ ground (arith, at, running)
      | inr still ↦ ground (arith, at, still)
    ]
  ]
  chances-Steps (fires v u run here at running) = ground (
    arith,
    here,
    at,
    running,
    chances-Steps run,
    get_trans-stop_trans t.tid v.sess.trans,
    may_fire-stop_found (get_trans t.tid v.sess.trans),
  )
  chances-Steps (times_out v run here ticked) =
      ground
        (arith, here, ticked, chances-Steps run, length-save v.saved (on_timeout v.sess.plat t))
  chances-Steps (signals v run here room) = ground (arith, here, chances-Steps run)
  chances-Steps (leaves v run here signal) = ground (arith, here, chances-Steps run)
  chances-Steps (deletes v run here) = ground (arith, here, chances-Steps run)
  chances-Steps (answered v u run here at) = ground (
    arith,
    here,
    chances-Steps run,
    get_trans-stop_trans t.tid v.sess.trans,
    may_fire-stop_found (get_trans t.tid v.sess.trans),
  )
  chances-Steps (sends v n run here more room) = chances-Steps run
  chances-Steps (panics v n run here more) = chances-Steps run
  chances-Steps (destroyed v run) = ground (
    arith,
    chances-Steps run,
    get_trans-destroyed t.tid v.sess.trans,
    may_fire-stop_found (get_trans t.tid v.sess.trans),
  )

  -- Whatever the timer, the goroutine, any number of answers and the end of the session do, in
  -- whatever order: the transaction is saved once at most.
  pub Steps-saved_once : {p : Session} {w : Watched} → Steps t (watch p) w → length w.saved ≤ 1
  Steps-saved_once run = omega (arith, chances-Steps run)
