-- ===== src/System/Notice.antt =====
-- The notice that a login sends to an iOS terminal it throws out (router/procNsq.go), at the comet
-- (comet/rpcdo.go): it goes out as a push of type 1, for which RpcAsyncHandle has no case.
use galopush.Prelude.{
  ℕ, zero, suc, Bytes, Bool, true, false, ◌==◌, List, [], ◌∷◌, ◌++◌, Option, none, some, get_elem?,
  if◌then◌else◌, ltb, ◌&&◌, length, ◌≡◌, refl, sym, ◌∙◌, inl, inr, All, All-append, Bool-cases,
  Option-cases, append-nil, append_assoc,
}
use galopush.Protocol.Message.{plat_ios, kick_reason_repeat, kick_reason_mutex}
use galopush.Rds.Defs.{Session, Sessions, Redis}
use galopush.Rds.Store.{Storager, find_sessions}
use galopush.Rds.Messages.{with_box}
use galopush.Comet.State.{OfflineStore, Outside, Comet, Outcome, finished, panicked, state_of}
use galopush.Comet.Downlink.{PushRequest, rpc_async_handle}
use galopush.Router.Pool.{find_comet}
use galopush.Router.Rpc.{Router, Call, pushed, kicked, with_store}
use galopush.Router.Login.{
  UserOnlineState, Loop, kick_calls, throw_out, round, then_loop, rounds, after_rounds, new_user,
  user_online_state,
}
use galopush.Router.Login.Steps.{round-cases}

-- The requests of RpcAsyncHandle among the calls of comets.
abbrev pub pushes : List Call → List PushRequest
pushes [] = []
pushes (pushed comet req ∷ rest) = req ∷ pushes rest
pushes (kicked comet req ∷ rest) = pushes rest

-- A comet that handles requests one after the other; RpcAsyncHandle recovers from a panic.
abbrev pub handle_pushes :
    {S : Type 0} → Outside → OfflineStore S → List PushRequest → Comet S → Comet S
handle_pushes out store [] c = c
handle_pushes out store (req ∷ rest) c =
    handle_pushes out store rest (state_of (rpc_async_handle out store req c))

-- No push of a type that comets know.
abbrev IsQuiet : Call → Type 0
IsQuiet (pushed comet req) = req.tp ≡ 1
IsQuiet (kicked comet req) = Unit

-- The calls went on with quiet ones.
abbrev Quietly : List Call → List Call → Type 0
Quietly before after = (new : List Call) × (after ≡ before ++ new) × All IsQuiet new

Quietly-refl : (calls : List Call) → Quietly calls calls
Quietly-refl calls = ([], sym (append-nil calls), tt)

Quietly-trans : (a b c : List Call) → Quietly a b → Quietly b c → Quietly a c
Quietly-trans a b c (m, e, h) (n, f, k) =
    (m ++ n, f ∙ rw e (append_assoc a m n), All-append IsQuiet m n h k)

kick_calls-IsQuiet :
    (comet : Bytes) (v : Session) (reason : ℕ) → All IsQuiet (kick_calls comet v reason)
kick_calls-IsQuiet comet v reason = elim (Bool-cases (v.plat == plat_ios)) [
  | inl ios ↦ rw ios (tt, (refl, tt))
  | inr other ↦ rw other (tt, tt)
]

handle_pushes-IsQuiet :
    {S : Type 0} (out : Outside) (store : OfflineStore S) (calls : List Call) (c : Comet S)
    → All IsQuiet calls
    → handle_pushes out store (pushes calls) c ≡ c
unfolding rpc_async_handle
handle_pushes-IsQuiet out store [] c h = refl
handle_pushes-IsQuiet out store (pushed comet req ∷ rest) c (tp, h) =
    rw tp (handle_pushes-IsQuiet out store rest c h)
handle_pushes-IsQuiet out store (kicked comet req ∷ rest) c (one, h) =
    handle_pushes-IsQuiet out store rest c h

module _ {R : Type 0} where
  throw_out-Quietly :
      (comet : Bytes) (v : Session) (reason : ℕ) (r : Router R)
      → Quietly r.calls (throw_out comet v reason r).calls
  unfolding throw_out
  throw_out-Quietly comet v reason r = elim (Bool-cases (v.online && v.login)) [
    | inl here ↦ elim (Option-cases (find_comet r.pool comet)) [
      | inl gone ↦ rw here (rw (gone, throw_out) (Quietly-refl r.calls))
      | inr (d, known) ↦
          rw here (
            rw (known, throw_out)
              (kick_calls d.id v reason, refl, kick_calls-IsQuiet d.id v reason))
    ]
    | inr away ↦ rw away (Quietly-refl r.calls)
  ]

  abbrev LoopQuietly : List Call → Outcome (Loop R) → Type 0
  LoopQuietly before o = Quietly before (state_of o).router.calls

  round-Quietly :
      (msg : UserOnlineState) (comet : Bytes) (i : ℕ) (l : Loop R)
      → LoopQuietly l.router.calls (round msg comet i l)
  round-Quietly msg comet i l =
      round-cases msg comet i l (LoopQuietly l.router.calls) (Quietly-refl l.router.calls)
        (λ j v listed at same. throw_out-Quietly comet v kick_reason_repeat l.router)
        (λ j v listed at other excludes. elim (Bool-cases (ltb i l.len)) [
          | inl inside ↦ rw inside (throw_out-Quietly comet v kick_reason_mutex l.router)
          | inr outside ↦ rw outside (throw_out-Quietly comet v kick_reason_mutex l.router)
        ])

  then_loop-Quietly :
      (before : List Call) (o : Outcome (Loop R)) (f : Loop R → Outcome (Loop R))
      → LoopQuietly before o
      → ((m : Loop R) → LoopQuietly m.router.calls (f m))
      → LoopQuietly before (then_loop o f)
  then_loop-Quietly before (finished l) f h step =
      Quietly-trans before l.router.calls (state_of (f l)).router.calls h (step l)
  then_loop-Quietly before (panicked l) f h step = h

  rounds-Quietly :
      (msg : UserOnlineState) (comet : Bytes) (k i : ℕ) (l : Loop R)
      → LoopQuietly l.router.calls (rounds msg comet k i l)
  unfolding rounds
  rounds-Quietly msg comet zero i l = Quietly-refl l.router.calls
  rounds-Quietly msg comet (suc k) i l =
      then_loop-Quietly l.router.calls (round msg comet i l) _ (round-Quietly msg comet i l)
        (λ m. rounds-Quietly msg comet k (suc i) m)

module _ {R : Type 0} (redis : Redis R) where
  after_rounds-Quietly :
      (msg : UserOnlineState) (p n : ℕ) (before : List Call) (o : Outcome (Loop R))
      → LoopQuietly before o
      → Quietly before (state_of (after_rounds redis msg p n o)).calls
  after_rounds-Quietly msg p n before (finished l) h = h
  after_rounds-Quietly msg p n before (panicked l) h = h

  -- The loop that a login starts with.
  abbrev start : Router R → Storager R → Sessions → Loop R
  start r st s = record {
    array = s.sess;
    len = length s.sess;
    found = false;
    router = with_store redis r st;
  }

  user_online_state-Quietly :
      (msg : UserOnlineState) (r : Router R)
      → Quietly r.calls (state_of (user_online_state redis msg r)).calls
  unfolding user_online_state
  user_online_state-Quietly msg r =
      either msg.login _ _ (go (find_sessions redis r.store msg.uid)) (Quietly-refl r.calls)
    where
      either :
          (b : Bool) (x y : Outcome (Router R))
          → Quietly r.calls (state_of x).calls
          → Quietly r.calls (state_of y).calls
          → Quietly r.calls (state_of (if b then x else y)).calls
      either true x y h k = h
      either false x y h k = k

      go :
          (found : Option ℕ × Storager R)
          → Quietly r.calls
              (state_of (
                with_box found
                  (λ st. finished (with_store redis r (new_user redis msg st)))
                  (λ st p. elim (get_elem? st.boxes p) [
                    | none ↦ finished (with_store redis r st)
                    | some s ↦
                        after_rounds redis msg p
                          (length s.sess)
                          (rounds msg s.comet_id (length s.sess) 0 (start r st s))
                  ]))).calls
      go (none, st) = Quietly-refl r.calls
      go (some p, st) = elim (Option-cases (get_elem? st.boxes p)) [
        | inl gone ↦ rw (gone, with_box) (Quietly-refl r.calls)
        | inr (s, at) ↦
            rw (at, with_box)
              (after_rounds-Quietly msg p (length s.sess) r.calls
                (rounds msg s.comet_id (length s.sess) 0 (start r st s))
                (rounds-Quietly msg s.comet_id (length s.sess) 0 (start r st s)))
      ]

  -- In every state of the router and of a comet, and for every login: the comet that handles the
  -- pushes among the calls that the login makes is left as it was, so no notice goes anywhere.
  pub user_online_state-handle_pushes :
      {S : Type 0} (out : Outside) (store : OfflineStore S) (msg : UserOnlineState) (r : Router R)
      (c : Comet S)
      → (new : List Call) × ((state_of (user_online_state redis msg r)).calls ≡ r.calls ++ new)
        × (handle_pushes out store (pushes new) c ≡ c)
  user_online_state-handle_pushes out store msg r c =
      let (new, grown, quiet) = user_online_state-Quietly msg r in
      (new, grown, handle_pushes-IsQuiet out store new c quiet)
