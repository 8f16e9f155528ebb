-- ===== src/Router/Nsq/Calls.antt =====
-- Which terminals a message downward reaches: one call for each selected terminal, in order, whatever
-- became of the calls before it.
use galopush.Prelude.{
  ℕ, Bool, ltb, bit_and, ◌==◌, if◌then◌else◌, List, [], ◌∷◌, ◌++◌, some, length, get_elem?, ◌≡◌,
  refl, sym, ◌∙◌, arith, inl, inr, All, Bool-cases, append-nil, append_assoc,
}
use galopush.Protocol.Message.{plat_web}
use galopush.Rds.Defs.{Session, Sessions, Redis}
use galopush.Rds.Store.{Storager, load, find_sessions}
use galopush.Rds.Messages.{with_box}
use galopush.Router.Pool.{CometEntry, find_comet}
use galopush.Router.Rpc.{Router, RouterOutside, Call, pushed, with_store}
use galopush.Router.Nsq.{
  MsgDownward, Receiver, is_selected, push_request, push_terminal, push_selected, push_terminals,
  deliver,
}
use galopush.Router.Nsq.Terminals.{
  SameOwner, SameTerminals, SameTerminals-refl, SameTerminals-save_offline_msg,
}

-- Do the bits of a platform and of a mask have one in common?
abbrev pub in_mask : ℕ → ℕ → Bool
in_mask mask plat = ltb 0 (bit_and plat mask)

-- The calls that a list of terminals asks for: one for each whose platform is in the mask, with its
-- user, its platform and its token, and the text and the flag of the message.
unfoldable pub requests : CometEntry → ℕ → MsgDownward → ℕ → List Session → List Call
requests c msg_type msg mask [] = []
requests c msg_type msg mask (it ∷ rest) =
    let later = requests c msg_type msg mask rest in
    if in_mask mask it.plat
    then pushed c.id (record {
      tp = msg_type;
      flag = msg.flag;
      id = it.id;
      termtype = it.plat;
      apple_token = it.ios_token;
      msg = msg.body;
    })
      ∷ later
    else later

-- Every pointer leads to a terminal.
abbrev pub AllFound : List Session → List ℕ → Type 0
AllFound items = All (λ i. (it : Session) × (get_elem? items i ≡ some it))

AllFound-SameTerminals :
    (a b : List Session) (is : List ℕ) → SameTerminals a b → AllFound a is → AllFound b is
AllFound-SameTerminals a b [] same h = h
AllFound-SameTerminals a b (i ∷ is) same ((it, at), h) =
    let (it', at', owner) = same i it at in ((it', at'), AllFound-SameTerminals a b is same h)

load-found :
    (items : List Session) (i : ℕ) (is : List ℕ) (it : Session)
    → get_elem? items i ≡ some it
    → load items (i ∷ is) ≡ it ∷ load items is
unfolding load
load-found items i is it at = rw (at, load) refl

module _ (c : CometEntry) (msg_type : ℕ) (msg : MsgDownward) (mask : ℕ) where
  -- A terminal with the same owner asks for the same call.
  requests-SameOwner :
      (a b : Session) (later : List Call)
      → SameOwner a b
      → (if in_mask mask b.plat then pushed c.id (push_request msg_type msg b) ∷ later else later)
        ≡ (if in_mask mask a.plat then pushed c.id (push_request msg_type msg a) ∷ later else later)
  requests-SameOwner a b later same = rw (same.id, same.plat, same.ios_token) refl

  requests-load :
      (a b : List Session) (is : List ℕ)
      → SameTerminals a b
      → AllFound a is
      → requests c msg_type msg mask (load b is) ≡ requests c msg_type msg mask (load a is)
  unfolding requests load
  requests-load a b [] same h = refl
  requests-load a b (i ∷ is) same ((it, at), h) =
      let (it', at', owner) = same i it at in
      let rest = requests-load a b is same h in
      rw (at, load) (rw (at', load) (rw rest (requests-SameOwner it it' _ owner)))

  module _ {R : Type 0} (redis : Redis R) (out : RouterOutside) where
    SameTerminals-push_terminal :
        (it : Session) (r : Router R)
        → SameTerminals r.store.items (push_terminal redis out c msg_type msg it r).store.items
    unfolding push_terminal
    SameTerminals-push_terminal it r = elim (Bool-cases (out.push_good c.id (length r.calls))) [
      | inl good ↦ rw good (SameTerminals-refl r.store.items)
      | inr bad ↦ elim (Bool-cases (it.plat == plat_web)) [
        | inl web ↦ rw bad (rw web (SameTerminals-refl r.store.items))
        | inr kept ↦
            rw bad (
              rw kept
                (SameTerminals-save_offline_msg redis r.store msg_type it.id it.plat msg.body))
      ]
    ]

    calls-push_terminal :
        (it : Session) (r : Router R)
        → (push_terminal redis out c msg_type msg it r).calls
          ≡ r.calls ++ (pushed c.id (push_request msg_type msg it) ∷ [])
    unfolding push_terminal
    calls-push_terminal it r = ground arith

    push_selected-found :
        (i : ℕ) (it : Session) (r : Router R)
        → get_elem? r.store.items i ≡ some it
        → push_selected redis out c msg_type msg mask i r
          ≡ (if in_mask mask it.plat then push_terminal redis out c msg_type msg it r else r)
    unfolding push_selected is_selected
    push_selected-found i it r at = rw (at, push_selected) refl

    -- One round: what is called is what the terminal asks for, and the owners stay.
    push_selected-calls :
        (i : ℕ) (it : Session) (r : Router R)
        → get_elem? r.store.items i ≡ some it
        → let r1 = push_selected redis out c msg_type msg mask i r in
          (r1.calls ≡ r.calls ++ requests c msg_type msg mask (it ∷ []))
          × SameTerminals r.store.items r1.store.items
    unfolding requests
    push_selected-calls i it r at = elim (Bool-cases (in_mask mask it.plat)) [
      | inl chosen ↦
          rw (push_selected-found i it r at)
            (rw chosen (calls-push_terminal it r, SameTerminals-push_terminal it r))
      | inr passed ↦
          rw (push_selected-found i it r at)
            (rw passed (sym (append-nil r.calls), SameTerminals-refl r.store.items))
    ]

    requests-cons :
        (it : Session) (rest : List Session)
        → requests c msg_type msg mask (it ∷ rest)
          ≡ requests c msg_type msg mask (it ∷ []) ++ requests c msg_type msg mask rest
    unfolding requests
    requests-cons it rest = ground arith

    -- For a list of pointers that lead to terminals: the comet is called once for each terminal whose
    -- platform is in the mask, in the order of the list, with the terminal's user, platform and
    -- token, whatever became of the earlier calls.
    pub push_terminals-requests :
        (is : List ℕ) (r : Router R)
        → AllFound r.store.items is
        → (push_terminals redis out c msg_type msg mask is r).calls
          ≡ r.calls ++ requests c msg_type msg mask (load r.store.items is)
    unfolding push_terminals requests load
    push_terminals-requests [] r h = sym (append-nil r.calls)
    push_terminals-requests (i ∷ is) r ((it, at), h) =
        let r1 = push_selected redis out c msg_type msg mask i r in
        let (called, same) = push_selected-calls i it r at in
        let rest =
          push_terminals-requests is r1
            (AllFound-SameTerminals r.store.items r1.store.items is same h) in
        let first = load-found r.store.items i is it at in
        rest
        ∙ simp (
          called,
          requests-load r.store.items r1.store.items is same h,
          first,
          append_assoc,
          requests-cons it (load r.store.items is),
        )

-- A receiver whom FindSessions finds, on a comet that the router knows, with pointers that lead to
-- terminals: the comet is called once for each of the user's terminals whose platform is in the
-- receiver's mask, in order, whatever became of the earlier calls.
pub deliver-requests :
    {R : Type 0} (redis : Redis R) (out : RouterOutside) (msg_type : ℕ) (msg : MsgDownward)
    (receiver : Receiver) (r : Router R) (p : ℕ) (st : Storager R) (s : Sessions) (c : CometEntry)
    → find_sessions redis r.store receiver.uid ≡ (some p, st)
    → get_elem? st.boxes p ≡ some s
    → find_comet r.pool s.comet_id ≡ some c
    → AllFound st.items s.sess
    → (deliver redis out msg_type msg receiver r).calls
      ≡ r.calls ++ requests c msg_type msg receiver.termtype (load st.items s.sess)
unfolding deliver
deliver-requests redis out msg_type msg receiver r p st s c found box known pointers =
    rw (found, with_box)
      (rw (box, deliver)
        (rw (known, deliver)
          (push_terminals-requests c msg_type msg receiver.termtype redis out s.sess
            (with_store redis r st) pointers)))
