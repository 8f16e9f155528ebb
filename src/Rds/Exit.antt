-- ===== src/Rds/Exit.antt =====
-- OfflineComet of internal/rds/rds.go: which terminals go offline when a comet is gone.
use galopush.Prelude.{
  ℕ, Bytes, Bool, true, false, ◌||◌, ◌&&◌, ◌==◌, ◌=ₛ◌, same_iff, if◌then◌else◌, List, [], ◌∷◌,
  Option, none, some, get_elem?, set, ◌≡◌, refl, ap, ◌∙◌, arith, inl, inr, Bool-cases, Option-cases,
  get_elem?-end, get_elem?-set_self, get_elem?-set_ne, lt_of_get_elem?,
}
use galopush.Prelude.Assoc.{lookup}
use galopush.Rds.Defs.{Session, Sessions, Redis}
use galopush.Rds.Store.{Storager, find_sessions, copy_box}
use galopush.Rds.Messages.{
  terminals, any_online, set_offline, session_online, offline_terminals, offline_box, offline_boxes,
  offline_comet,
}

-- A terminal that goes offline, if it does.
abbrev pub offline_if : Bool → Option Session → Option Session
offline_if false o = o
offline_if true none = none
offline_if true (some it) = some (record it { online = false })

-- Is a pointer in a list?
abbrev pub is_listed : ℕ → List ℕ → Bool
is_listed i [] = false
is_listed i (j ∷ js) = (j == i) || is_listed i js

-- Is the terminal behind a pointer in the box `p`, and the box on the comet?
unfoldable pub in_box : Bytes → List Sessions → ℕ → ℕ → Bool
in_box comet boxes i p = elim (get_elem? boxes p) [
  | none ↦ false
  | some s ↦ (s.comet_id =ₛ comet) && is_listed i s.sess
]

-- Is it in a cached box on the comet?
abbrev pub on_comet : Bytes → List Sessions → List (Bytes × ℕ) → ℕ → Bool
on_comet comet boxes [] i = false
on_comet comet boxes ((id, p) ∷ rest) i = in_box comet boxes i p || on_comet comet boxes rest i

offline_if-twice :
    (a b : Bool) (o : Option Session) → offline_if a (offline_if b o) ≡ offline_if (b || a) o
offline_if-twice false false o = refl
offline_if-twice false true o = refl
offline_if-twice true false o = refl
offline_if-twice true true none = refl
offline_if-twice true true (some it) = refl

-- One terminal goes offline, or a pointer leads nowhere.
set_one :
    (items : List Session) (j i : ℕ) (it : Session)
    → get_elem? items j ≡ some it
    → get_elem? (set items j (record it { online = false })) i
      ≡ offline_if (j == i) (get_elem? items i)
set_one items j i it at = elim (Bool-cases (j == i)) [
  | inl same ↦
      let e : i ≡ j = ground (arith, same) in
      rw same (
        rw e (
          get_elem?-set_self items j (record it { online = false }) (lt_of_get_elem? items j it at)
          ∙ rw at refl))
  | inr other ↦
      rw other
        (get_elem?-set_ne items j i (record it { online = false }) (λ e. ground (arith, e, other)))
]

skip_one :
    (items : List Session) (j i : ℕ) (b : Bool)
    → get_elem? items j ≡ none
    → offline_if b (get_elem? items i) ≡ offline_if ((j == i) || b) (get_elem? items i)
skip_one items j i b gone = elim (Bool-cases (j == i)) [
  | inl same ↦ let e : i ≡ j = ground (arith, same) in rw same (rw e (rw gone (nowhere b)))
  | inr other ↦ rw other refl
]
  where
    nowhere : (b : Bool) → offline_if b none ≡ none
    nowhere true = refl
    nowhere false = refl

get_elem?-set_offline :
    (is : List ℕ) (items : List Session) (i : ℕ)
    → get_elem? (set_offline is items) i ≡ offline_if (is_listed i is) (get_elem? items i)
unfolding set_offline
get_elem?-set_offline [] items i = refl
get_elem?-set_offline (j ∷ js) items i = elim (Option-cases (get_elem? items j)) [
  | inl gone ↦
      rw (gone, set_offline)
        (get_elem?-set_offline js items i ∙ skip_one items j i (is_listed i js) gone)
  | inr (it, at) ↦
      rw (at, set_offline)
        (get_elem?-set_offline js (set items j (record it { online = false })) i
          ∙ ap (offline_if (is_listed i js)) (set_one items j i it at)
          ∙ offline_if-twice (is_listed i js) (j == i) (get_elem? items i))
]

module _ {R : Type 0} (redis : Redis R) (comet : Bytes) where
  -- One round of the loop: the boxes and the cache stay, and a terminal goes offline exactly if it
  -- is in the box and the box is on the comet.
  pub record Round (st st1 : Storager R) (b : ℕ → Bool) : Type 0 where
    pub boxes : st1.boxes ≡ st.boxes
    pub cache : st1.mem_store ≡ st.mem_store
    pub items : (i : ℕ) → get_elem? st1.items i ≡ offline_if (b i) (get_elem? st.items i)

  offline_box-Round :
      (st : Storager R) (p : ℕ)
      → Round st (offline_box redis comet st p) (λ i. in_box comet st.boxes i p)
  unfolding offline_box offline_terminals in_box
  offline_box-Round st p = elim (Option-cases (get_elem? st.boxes p)) [
    | inl gone ↦
        rw (gone, offline_box)
          (rw (gone, in_box) (record { boxes = refl; cache = refl; items = λ i. refl }))
    | inr (s, at) ↦ elim (Bool-cases (s.comet_id =ₛ comet)) [
      | inl here ↦
          rw (at, offline_box)
            (rw (at, in_box)
              (rw here (record {
                boxes = refl;
                cache = refl;
                items = get_elem?-set_offline s.sess st.items;
              })))
      | inr away ↦
          rw (at, offline_box)
            (rw (at, in_box) (rw away (record { boxes = refl; cache = refl; items = λ i. refl })))
    ]
  ]

  offline_boxes-Round :
      (cached : List (Bytes × ℕ)) (st : Storager R)
      → Round st (offline_boxes redis comet cached st) (on_comet comet st.boxes cached)
  unfolding offline_boxes
  offline_boxes-Round [] st = record { boxes = refl; cache = refl; items = λ i. refl }
  offline_boxes-Round ((id, p) ∷ rest) st =
      let st1 = offline_box redis comet st p in
      let first = offline_box-Round st p in
      let later = offline_boxes-Round rest st1 in
      record {
        boxes = later.boxes ∙ first.boxes;
        cache = later.cache ∙ first.cache;
        items = λ i.
            later.items i
            ∙ ap (λ bs. offline_if (on_comet comet bs rest i) (get_elem? st1.items i)) first.boxes
            ∙ ap (offline_if (on_comet comet st.boxes rest i)) (first.items i)
            ∙ offline_if-twice (on_comet comet st.boxes rest i) (in_box comet st.boxes i p)
                (get_elem? st.items i);
      }

  -- After OfflineComet a terminal is offline if its pointer is in a cached box on the comet, and else
  -- as it was; the boxes and the cache stay.
  pub offline_comet-Round :
      (st : Storager R)
      → Round st (offline_comet redis st comet) (on_comet comet st.boxes st.mem_store)
  unfolding offline_comet
  offline_comet-Round st = offline_boxes-Round st.mem_store st

or_true : (b : Bool) → (b || true) ≡ true
or_true true = refl
or_true false = refl

on_comet-cached :
    (comet : Bytes) (boxes : List Sessions) (cached : List (Bytes × ℕ)) (id : Bytes) (p i : ℕ)
    → lookup id cached ≡ some p
    → in_box comet boxes i p ≡ true
    → on_comet comet boxes cached i ≡ true
unfolding lookup
on_comet-cached comet boxes [] id p i found inside = absurd (cc)
on_comet-cached comet boxes ((j, q) ∷ rest) id p i found inside = elim (Bool-cases (j =ₛ id)) [
  | inl same ↦ let e : q ≡ p = ground (arith, found, same) in rw e (rw inside refl)
  | inr other ↦
      let later = on_comet-cached comet boxes rest id p i (ground (arith, found, other)) inside in
      rw later (or_true (in_box comet boxes i q))
]

-- Terminals that went offline are not online.
any_online-offline :
    (before items : List Session) (plat : ℕ) (is : List ℕ)
    → ((i : ℕ) → is_listed i is ≡ true → get_elem? items i ≡ offline_if true (get_elem? before i))
    → any_online items plat is ≡ false
unfolding any_online
any_online-offline before items plat [] off = refl
any_online-offline before items plat (i ∷ is) off =
    let rest = any_online-offline before items plat is (λ j h. off j (rw h (or_true (i == j)))) in
    let here = off i (ground arith) in
    elim (Option-cases (get_elem? before i)) [
      | inl gone ↦
          let nowhere : get_elem? items i ≡ none = here ∙ rw gone refl in
          ground (arith, rest, nowhere)
      | inr (it, at) ↦
          let there : get_elem? items i ≡ some (record it { online = false }) = here ∙ rw at refl in
          rw (there, any_online) (rw rest (never (it.plat == plat)))
    ]
  where
    never : (b : Bool) → (if b && false then true else false) ≡ false
    never true = refl
    never false = refl

module _ {R : Type 0} (redis : Redis R) where
  in_box-listed :
      (boxes : List Sessions) (p i : ℕ) (s : Sessions)
      → get_elem? boxes p ≡ some s
      → is_listed i s.sess ≡ true
      → in_box s.comet_id boxes i p ≡ true
  unfolding in_box
  in_box-listed boxes p i s at listed =
      rw (at, in_box) (rw listed (ground (arith, same_iff s.comet_id s.comet_id)))

  session_online-cached :
      (st : Storager R) (id : Bytes) (plat p : ℕ) (s : Sessions)
      → lookup id st.mem_store ≡ some p
      → get_elem? st.boxes p ≡ some s
      → (session_online redis st id plat).0 ≡ any_online st.items plat s.sess
  unfolding session_online find_sessions copy_box terminals
  session_online-cached st id plat p s cached at =
      rw (cached, find_sessions)
        (rw (at, find_sessions) (rw (get_elem?-end st.boxes s, terminals) refl))

  -- For a cached user whose box is on a comet: once the comet is gone, no terminal of the user is
  -- online.
  pub offline_comet-session_online :
      (st : Storager R) (id : Bytes) (plat p : ℕ) (s : Sessions)
      → lookup id st.mem_store ≡ some p
      → get_elem? st.boxes p ≡ some s
      → (session_online redis (offline_comet redis st s.comet_id) id plat).0 ≡ false
  offline_comet-session_online st id plat p s cached at =
      let round = offline_comet-Round redis s.comet_id st in
      let st1 = offline_comet redis st s.comet_id in
      session_online-cached st1 id plat p s (rw round.cache cached) (rw round.boxes at)
      ∙ any_online-offline st.items st1.items plat s.sess (λ i listed.
        let on =
          on_comet-cached s.comet_id st.boxes st.mem_store id p i cached
            (in_box-listed st.boxes p i s at listed) in
        round.items i ∙ rw on refl)
