-- ===== src/Router/Login/Totality.antt =====
-- The loop over a user's terminals does not panic when at most one of them is of an excluded
-- platform, as the loop itself sees to.
use galopush.Prelude.{
  ℕ, zero, suc, ◌-◌, ◌≤◌, Bytes, true, false, ◌==◌, ltb, List, some, length, get_elem?, set, ◌≡◌,
  refl, sym, ap, ◌∙◌, arith, inl, inr, Bool-cases, lt_of_get_elem?,
}
use galopush.Protocol.Message.{kick_reason_mutex}
use galopush.Rds.Defs.{Session}
use galopush.Comet.State.{Outcome, finished, panicked}
use galopush.Router.Rpc.{Router}
use galopush.Router.Login.{
  UserOnlineState, Loop, shift_down, is_exclusive, logged_in, throw_out, same_platform, round,
  then_loop, rounds,
}
use galopush.Router.Login.Shift.{shift_down-behind, shift_down-after}
use galopush.Router.Login.Steps.{plat_before, store-throw_out, items-same_platform, round-cases}

-- The terminal at a place of the array is of a platform that the login excludes.
pub record Excluded (msg : UserOnlineState) (items : List Session) (array : List ℕ) (k : ℕ)
    : Type 0 where
  pub pointer : ℕ
  pub it : Session
  pub listed : get_elem? array k ≡ some pointer
  pub found : get_elem? items pointer ≡ some it
  pub other : (it.plat == msg.termtype) ≡ false
  pub excludes : is_exclusive it.plat msg.termtype ≡ true

abbrev pub AtMostOne : UserOnlineState → List Session → List ℕ → Type 0
AtMostOne msg items is = (k m : ℕ) → Excluded msg items is k → Excluded msg items is m → k ≡ m

module _ {R : Type 0} where
  abbrev pub Finishes : (Loop R → Type 0) → Outcome (Loop R) → Type 0
  Finishes P (finished l) = P l
  Finishes P (panicked l) = ⊥

  -- From the i-th place on there is one excluded terminal at most, and before it nothing was cut.
  abbrev pub Safe : UserOnlineState → ℕ → Loop R → Type 0
  Safe msg i l =
      (k : ℕ)
      → i ≤ k
      → Excluded msg l.router.store.items l.array k
      → (l.len ≡ length l.array)
        × ((m : ℕ) → i ≤ m → Excluded msg l.router.store.items l.array m → m ≡ k)

  module _ (msg : UserOnlineState) where
    Safe-later : (i : ℕ) (l : Loop R) → Safe msg i l → Safe msg (suc i) l
    Safe-later i l h k le e =
        let (full, unique) = h k (omega arith) e in (full, λ m lm em. unique m (omega arith) em)

    Safe-written :
        (i j : ℕ) (l : Loop R) (v : Session) (r : Router R)
        → get_elem? l.router.store.items j ≡ some v
        → r.store.items ≡ set l.router.store.items j (logged_in msg v)
        → Safe msg i l
        → Safe msg i (record l { found = true; router = r })
    Safe-written i j l v r at items h k le e =
        let (full, unique) = h k le (before k e) in (full, λ m lm em. unique m lm (before m em))
      where
        before :
            (k : ℕ)
            → Excluded msg r.store.items l.array k
            → Excluded msg l.router.store.items l.array k
        before k e =
            let (old, there, plats) =
              plat_before msg l.router.store.items j e.pointer v e.it at
                (sym (ap (λ xs. get_elem? xs e.pointer) items) ∙ e.found) in
            record {
              pointer = e.pointer;
              it = old;
              listed = e.listed;
              found = there;
              other = rw plats e.other;
              excludes = rw plats e.excludes;
            }

    Safe-cut :
        (i : ℕ) (l : Loop R) (r : Router R)
        → Excluded msg l.router.store.items l.array i
        → r.store.items ≡ l.router.store.items
        → Safe msg i l
        → Safe msg
            (suc i)
            (record l { array = shift_down i l.len l.array; len = l.len - 1; router = r })
    Safe-cut i l r here items h k le e = elim (Bool-cases (ltb (suc k) l.len)) [
      | inl inside ↦
          let moved =
            shift_down-behind i l.len l.array k (omega arith) (ground arith) (full_le full) in
          absurd (gone (suc k) (omega arith) (unique (suc k) (omega arith) (old (suc k) moved)))
      | inr outside ↦ absurd (
          gone k (omega arith)
            (unique k (omega arith) (old k (shift_down-after i l.len l.array k (ground arith)))))
    ]
      where
        full : l.len ≡ length l.array
        full = (h i (omega arith) here).0

        unique : (m : ℕ) → i ≤ m → Excluded msg l.router.store.items l.array m → m ≡ i
        unique = (h i (omega arith) here).1

        full_le : l.len ≡ length l.array → l.len ≤ length l.array
        full_le f = omega arith

        gone : (m : ℕ) → suc i ≤ m → m ≡ i → ⊥
        gone m lt e = omega arith

        old :
            (m : ℕ)
            → get_elem? (shift_down i l.len l.array) k ≡ get_elem? l.array m
            → Excluded msg l.router.store.items l.array m
        old m moved = record {
          pointer = e.pointer;
          it = e.it;
          listed = sym moved ∙ e.listed;
          found = sym (ap (λ xs. get_elem? xs e.pointer) items) ∙ e.found;
          other = e.other;
          excludes = e.excludes;
        }

    round-Safe :
        (comet : Bytes) (i : ℕ) (l : Loop R)
        → Safe msg i l
        → Finishes (Safe msg (suc i)) (round msg comet i l)
    round-Safe comet i l h =
        round-cases msg comet i l (Finishes (Safe msg (suc i))) (Safe-later i l h)
          (λ j v listed at same.
            let m = same_platform msg comet j v l in
            Safe-later i m
              (Safe-written i j l v m.router at (items-same_platform msg comet j v l at) h))
          (λ j v listed at other excludes.
            let here : Excluded msg l.router.store.items l.array i = record {
              pointer = j;
              it = v;
              listed = listed;
              found = at;
              other = other;
              excludes = excludes;
            } in
            rw (inside here) (
              Safe-cut i l (throw_out comet v kick_reason_mutex l.router) here
                (rw (store-throw_out comet v kick_reason_mutex l.router) refl) h))
      where
        inside : Excluded msg l.router.store.items l.array i → ltb i l.len ≡ true
        inside e =
            let full = (h i (omega arith) e).0 in
            let lt = lt_of_get_elem? l.array i e.pointer e.listed in ground arith

    then_loop-Finishes :
        (P Q : Loop R → Type 0) (o : Outcome (Loop R)) (f : Loop R → Outcome (Loop R))
        → Finishes P o
        → ((m : Loop R) → P m → Finishes Q (f m))
        → Finishes Q (then_loop o f)
    then_loop-Finishes P Q (finished l) f h step = step l h
    then_loop-Finishes P Q (panicked l) f h step = absurd h

    pub rounds-finish :
        (comet : Bytes) (k i : ℕ) (l : Loop R)
        → Safe msg i l
        → (m : Loop R) × (rounds msg comet k i l ≡ finished m)
    unfolding rounds
    rounds-finish comet k i l h = finish_of _ (go k i l h)
      where
        finish_of :
            (o : Outcome (Loop R)) → Finishes (λ m. Unit {0}) o → (m : Loop R) × (o ≡ finished m)
        finish_of (finished m) h = (m, refl)
        finish_of (panicked m) h = absurd h

        go :
            (k i : ℕ) (l : Loop R)
            → Safe msg i l
            → Finishes (λ m. Unit {0}) (rounds msg comet k i l)
        go zero i l h = tt
        go (suc k) i l h =
            then_loop-Finishes (Safe msg (suc i)) _ (round msg comet i l) _ (round-Safe comet i l h)
              (λ m. go k (suc i) m)
