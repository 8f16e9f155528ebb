-- ===== src/Router/Login/Round.antt =====
-- The loop over a user's terminals: whatever it cuts out, a terminal of the platform that logs in
-- stays in the slice, with the new code once it was found.
use galopush.Prelude.{
  Bytes, ℕ, zero, suc, ◌-◌, ◌<◌, ◌≤◌, Bool, true, false, ◌==◌, ltb, List, some, length, get_elem?,
  set, get_elem?-set_self, lt_of_get_elem?, ◌≡◌, refl, sym, ap, ◌∙◌, arith, inl, inr, Bool-cases,
}
use galopush.Rds.Defs.{Session, Sessions}
use galopush.Protocol.Message.{kick_reason_mutex}
use galopush.Comet.State.{Outcome, finished, panicked}
use galopush.Router.Rpc.{Router}
use galopush.Router.Login.{
  UserOnlineState, Loop, shift_down, logged_in, other_platform, round, then_loop, rounds,
}
use galopush.Router.Login.Shift.{
  length-shift_down, shift_down-before, shift_down-behind, shift_down-among,
}
use galopush.Router.Login.Steps.{
  plat_of_some, plat_before, store-throw_out, boxes-same_platform, items-same_platform, round-cases,
}

module _ {R : Type 0} where
  -- A property of the loop's state wherever it does not panic.
  abbrev pub OnFinish : (Loop R → Type 0) → Outcome (Loop R) → Type 0
  OnFinish P (finished l) = P l
  OnFinish P (panicked l) = Unit

  -- The pointer is in the slice.
  abbrev pub InSlice : Loop R → ℕ → Type 0
  InSlice l j = (k : ℕ) × (k < l.len) × (get_elem? l.array k ≡ some j)

  -- A terminal of the slice that the login has written.
  pub record Written (msg : UserOnlineState) (l : Loop R) : Type 0 where
    pub pointer : ℕ
    pub it : Session
    pub found : get_elem? l.router.store.items pointer ≡ some it
    pub same_plat : it.plat ≡ msg.termtype
    pub same_code : it.auth_code ≡ msg.code
    pub is_in : it.login ≡ true
    pub listed : InSlice l pointer

  pub record Kept (msg : UserOnlineState) (boxes : List Sessions) (l : Loop R) : Type 0 where
    pub untouched : l.router.store.boxes ≡ boxes
    pub bound : l.len ≤ length l.array
    pub same :
        (k j : ℕ) (it : Session)
        → get_elem? l.array k ≡ some j
        → get_elem? l.router.store.items j ≡ some it
        → it.plat ≡ msg.termtype
        → InSlice l j
    pub written : l.found ≡ true → Written msg l

  -- A pointer other than the one that is cut out stays in the slice.
  InSlice-cut :
      (l : Loop R) (i j : ℕ)
      → i < l.len
      → l.len ≤ length l.array
      → ¬ (get_elem? l.array i ≡ some j)
      → InSlice l j
      → (k : ℕ) × (k < l.len - 1) × (get_elem? (shift_down i l.len l.array) k ≡ some j)
  InSlice-cut l zero j here bound other (zero, lt, at) = absurd (other at)
  InSlice-cut l (suc i) j here bound other (zero, lt, at) =
      (0, omega arith, shift_down-before (suc i) l.len l.array 0 (omega arith) ∙ at)
  InSlice-cut l i j here bound other (suc k, lt, at) = elim (Bool-cases (ltb (suc k) i)) [
    | inl front ↦
        (suc k, ground arith, shift_down-before i l.len l.array (suc k) (ground arith) ∙ at)
    | inr behind ↦ elim (Bool-cases (suc k == i)) [
      | inl e ↦ absurd (other (rw (sym (eq_of i k e)) at))
      | inr ne ↦ (
        k,
        omega arith,
        shift_down-behind i l.len l.array k (ground arith) (omega arith) bound ∙ at,
      )
    ]
  ]
    where
      eq_of : (i k : ℕ) → (suc k == i) ≡ true → suc k ≡ i
      eq_of i k e = ground arith

  module _ (msg : UserOnlineState) (boxes : List Sessions) (login : msg.login ≡ true) where
    Kept-written :
        (l : Loop R) (k j : ℕ) (v : Session) (r : Router R)
        → Kept msg boxes l
        → get_elem? l.array k ≡ some j
        → get_elem? l.router.store.items j ≡ some v
        → v.plat ≡ msg.termtype
        → r.store.boxes ≡ l.router.store.boxes
        → r.store.items ≡ set l.router.store.items j (logged_in msg v)
        → Kept msg boxes (record l { found = true; router = r })
    Kept-written l k j v r h listed at plat same_boxes items = record {
      untouched = same_boxes ∙ h.untouched;
      bound = h.bound;
      same = λ i p it there found same_plat.
          let (old, before, plats) =
            plat_before msg l.router.store.items j p v it at
              (sym (ap (λ xs. get_elem? xs p) items) ∙ found) in
          h.same i p old there before (plats ∙ same_plat);
      written = λ _. record {
        pointer = j;
        it = logged_in msg v;
        found = rw items (
            get_elem?-set_self l.router.store.items j (logged_in msg v)
              (lt_of_get_elem? l.router.store.items j v at));
        same_plat = plat;
        same_code = refl;
        is_in = login;
        listed = h.same k j v listed at plat;
      };
    }

    -- A cut takes a terminal of another platform away, and no other.
    Kept-cut :
        (l : Loop R) (i j : ℕ) (v : Session) (r : Router R)
        → Kept msg boxes l
        → get_elem? l.array i ≡ some j
        → get_elem? l.router.store.items j ≡ some v
        → (v.plat == msg.termtype) ≡ false
        → i < l.len
        → r.store.boxes ≡ l.router.store.boxes
        → r.store.items ≡ l.router.store.items
        → Kept msg boxes
            (record l { array = shift_down i l.len l.array; len = l.len - 1; router = r })
    Kept-cut l i j v r h listed at plat here same_boxes items =
        let stays : (p : ℕ) (it : Session)
            → get_elem? l.router.store.items p ≡ some it
            → it.plat ≡ msg.termtype
            → InSlice l p
            → (k : ℕ) × (k < l.len - 1) × (get_elem? (shift_down i l.len l.array) k ≡ some p) =
          λ p it found same_plat.
            InSlice-cut l i p here h.bound (λ e. other_plat p it found same_plat e) in
        record {
          untouched = same_boxes ∙ h.untouched;
          bound = rw (length-shift_down i l.len l.array) (le_pred h.bound);
          same = λ k p it there found same_plat.
              let (m, before) = shift_down-among i l.len l.array k p there in
              let old = sym (ap (λ xs. get_elem? xs p) items) ∙ found in
              stays p it old same_plat (h.same m p it before old same_plat);
          written = λ is_found.
              let w = h.written is_found in
              record {
                pointer = w.pointer;
                it = w.it;
                found = rw items w.found;
                same_plat = w.same_plat;
                same_code = w.same_code;
                is_in = w.is_in;
                listed = stays w.pointer w.it w.found w.same_plat w.listed;
              };
        }
      where
        le_pred : {a b : ℕ} → a ≤ b → a - 1 ≤ b
        le_pred le = omega arith

        other_plat :
            (p : ℕ) (it : Session)
            → get_elem? l.router.store.items p ≡ some it
            → it.plat ≡ msg.termtype
            → get_elem? l.array i ≡ some p
            → ⊥
        other_plat p it found same_plat e =
            let same : p ≡ j = ground arith in
            let plats =
              plat_of_some v it
                (sym at ∙ ap (λ k. get_elem? l.router.store.items k) (sym same) ∙ found) in
            ground arith

    round-Kept :
        (comet : Bytes) (i : ℕ) (l : Loop R)
        → Kept msg boxes l
        → OnFinish (Kept msg boxes) (round msg comet i l)
    round-Kept comet i l h =
        round-cases msg comet i l (OnFinish (Kept msg boxes)) h
          (λ j v listed at same.
            Kept-written l i j v _ h listed at same (boxes-same_platform msg comet j v l)
              (items-same_platform msg comet j v l at))
          (λ j v listed at other excludes. after_cut (ltb i l.len) refl j v listed at other)
      where
        after_cut :
            (b : Bool)
            → ltb i l.len ≡ b
            → (j : ℕ) (v : Session) → get_elem? l.array i ≡ some j
            → get_elem? l.router.store.items j ≡ some v
            → (v.plat == msg.termtype) ≡ false
            → OnFinish (Kept msg boxes) (other_platform comet i v l)
        after_cut true e j v listed at other =
            let thrown = store-throw_out comet v kick_reason_mutex l.router in
            rw e (
              Kept-cut l i j v _ h listed at other (ground arith) (rw thrown refl) (rw thrown refl))
        after_cut false e j v listed at other = rw e tt

    then_loop-OnFinish :
        (P Q : Loop R → Type 0) (o : Outcome (Loop R)) (f : Loop R → Outcome (Loop R))
        → OnFinish P o
        → ((m : Loop R) → P m → OnFinish Q (f m))
        → OnFinish Q (then_loop o f)
    then_loop-OnFinish P Q (finished l) f h step = step l h
    then_loop-OnFinish P Q (panicked l) f h step = h

    pub rounds-Kept :
        (comet : Bytes) (k i : ℕ) (l : Loop R)
        → Kept msg boxes l
        → OnFinish (Kept msg boxes) (rounds msg comet k i l)
    unfolding rounds
    rounds-Kept comet zero i l h = h
    rounds-Kept comet (suc k) i l h =
        then_loop-OnFinish (Kept msg boxes) (Kept msg boxes) (round msg comet i l) _
          (round-Kept comet i l h) (λ m. rounds-Kept comet k (suc i) m)
