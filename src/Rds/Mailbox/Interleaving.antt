-- ===== src/Rds/Mailbox/Interleaving.antt =====
-- Many users' terminals in one store of internal/rds/rds.go: whatever the order in which saving and
-- fetching for them come, the store is a row of mailboxes, one for each terminal.
use galopush.Prelude.{
  ℕ, Bytes, ◌==◌, List, [], ◌∷◌, ◌++◌, none, some, get_elem?, set, ◌≡◌, ◌≢◌, refl, sym, ap, ◌∙◌,
  subst, arith, inl, inr, All, Bool-cases, get_elem?-set_self, get_elem?-set_ne, lt_of_get_elem?,
}
use galopush.Rds.Defs.{Redis}
use galopush.Rds.Store.{Storager}
use galopush.Rds.Mailbox.{Mailbox, Op, Answer, step, perform}
use galopush.Rds.Mailbox.Refinement.{Stands, Simulates, simulate}
use galopush.Rds.Mailbox.Neighbours.{perform-Kept}

-- The first terminal of a platform of a user: its place on the heap, among the user's terminals.
pub record Terminal : Type 0 where
  pub id : Bytes
  pub plat : ℕ
  pub places : List ℕ
  pub place : ℕ

-- An operation on the terminal of a number.
pub record Turn : Type 0 where
  pub number : ℕ
  pub op : Op

-- Terminals of different users, at different places.
abbrev pub AreApart : List Terminal → Type 0
AreApart ts =
    (k m : ℕ) (t u : Terminal)
    → get_elem? ts k ≡ some t
    → get_elem? ts m ≡ some u
    → k ≢ m
    → (t.id ≢ u.id) × (t.place ≢ u.place)

-- A turn in a row of mailboxes.
unfoldable pub turn : Turn → List Mailbox → List Answer × List Mailbox
turn x ms = elim (get_elem? ms x.number) [
  | none ↦ ([], ms)
  | some b ↦ let (a, b1) = step x.op b in (a ∷ [], set ms x.number b1)
]

unfoldable pub turns : List Turn → List Mailbox → List Answer × List Mailbox
unfolding turn
turns [] ms = ([], ms)
turns (x ∷ xs) ms = let (a, ms1) = turn x ms in let (rest, ms2) = turns xs ms1 in (a ++ rest, ms2)

module _ {R : Type 0} (redis : Redis R) (ts : List Terminal) where
  -- The same turn in the store.
  unfoldable pub store_turn : Turn → Storager R → List Answer × Storager R
  store_turn x st = elim (get_elem? ts x.number) [
    | none ↦ ([], st)
    | some t ↦ let (a, st1) = perform redis t.id t.plat x.op st in (a ∷ [], st1)
  ]

  unfoldable pub store_turns : List Turn → Storager R → List Answer × Storager R
  unfolding store_turn
  store_turns [] st = ([], st)
  store_turns (x ∷ xs) st =
      let (a, st1) = store_turn x st in let (rest, st2) = store_turns xs st1 in (a ++ rest, st2)

  -- Every terminal stands for its mailbox.
  abbrev pub AllStand : Storager R → List Mailbox → Type 0
  AllStand st ms =
      (k : ℕ) (t : Terminal)
      → get_elem? ts k ≡ some t
      → (b : Mailbox) × (get_elem? ms k ≡ some b) × Stands redis t.id t.plat st t.places t.place b

  -- The turns name terminals of the row.
  abbrev pub AreNamed : List Turn → Type 0
  AreNamed = All (λ x. (t : Terminal) × (get_elem? ts x.number ≡ some t))

  same_terminal : (t u : Terminal) → some t ≡ some u → t ≡ u
  same_terminal t u e = cc

  module _ (apart : AreApart ts) (k : ℕ) (t : Terminal) (at : get_elem? ts k ≡ some t)
      (st : Storager R) (ms : List Mailbox) (h : AllStand st ms) (op : Op) where
    -- What the operation does to the terminal that it is on.
    here :
        (b : Mailbox) × (get_elem? ms k ≡ some b)
        × Simulates redis t.id t.plat t.places t.place op st b
    here =
        let (b, in_row, s) = h k t at in
        (
          b,
          in_row,
          subst (Simulates redis t.id t.plat t.places t.place op st) s.view
              (simulate redis t.id t.plat t.places t.place op st s.it s.holds),
        )

    AllStand-perform : AllStand (perform redis t.id t.plat op st).1 (set ms k (step op here.0).1)
    AllStand-perform m u there = elim (Bool-cases (k == m)) [
      | inl same ↦
          let e : k ≡ m = ground (arith, same) in
          let f : t ≡ u = same_terminal t u (sym at ∙ ap (get_elem? ts) e ∙ there) in
          (
            (step op here.0).1,
            ap (get_elem? (set ms k (step op here.0).1)) (sym e)
                ∙ get_elem?-set_self ms k (step op here.0).1 (lt_of_get_elem? ms k here.0 here.1),
            subst
                (λ x.
                  Stands redis x.id x.plat (perform redis t.id t.plat op st).1 x.places x.place
                    (step op here.0).1)
                f here.2.1,
          )
      | inr other ↦
          let ne : k ≢ m = λ e. ground (arith, e, other) in
          let (b, in_row, s) = h m u there in
          let own = (h k t at).2 in
          let (ids, places) = apart k m t u at there ne in
          (
            b,
            get_elem?-set_ne ms k m (step op here.0).1 ne ∙ in_row,
            record {
              it = s.it;
              holds =
                  perform-Kept redis st t.id t.plat t.places t.place own.it own.holds u.id u.plat
                    u.places u.place s.it s.holds ids places op;
              view = s.view;
            },
          )
    ]

  store_turn-turn :
      (apart : AreApart ts) (x : Turn) (t : Terminal) (at : get_elem? ts x.number ≡ some t)
      (st : Storager R) (ms : List Mailbox)
      → AllStand st ms
      → ((store_turn x st).0 ≡ (turn x ms).0) × AllStand (store_turn x st).1 (turn x ms).1
  unfolding store_turn turn
  store_turn-turn apart x t at st ms h =
      let (b, in_row, answered) = here apart x.number t at st ms h x.op in
      rw (at, store_turn)
        (rw (in_row, turn)
          (ap (λ a. a ∷ []) answered.0, AllStand-perform apart x.number t at st ms h x.op))

  -- For the first terminals of a platform of different cached users, at different places of the heap:
  -- every sequence of saving and fetching for them, in whatever order they take turns, gives the
  -- answers that the row of their mailboxes gives, and leaves every terminal standing for the mailbox
  -- that is left, whatever Redis answers.
  pub store_turns-turns :
      (xs : List Turn) (st : Storager R) (ms : List Mailbox)
      → AreApart ts
      → AllStand st ms
      → AreNamed xs
      → ((store_turns xs st).0 ≡ (turns xs ms).0) × AllStand (store_turns xs st).1 (turns xs ms).1
  unfolding store_turns turns
  store_turns-turns [] st ms apart h named = (refl, h)
  store_turns-turns (x ∷ xs) st ms apart h ((t, at), named) =
      let first = store_turn-turn apart x t at st ms h in
      let rest = store_turns-turns xs (store_turn x st).1 (turn x ms).1 apart first.1 named in
      (
        ap (λ a. a ++ (store_turns xs (store_turn x st).1).0) first.0
            ∙ ap (λ a. (turn x ms).0 ++ a) rest.0,
        rest.1,
      )
