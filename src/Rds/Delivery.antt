-- ===== src/Rds/Delivery.antt =====
-- What the store gives back of what was put in, for a user in the cache.
use galopush.Prelude.{
  get_elem?-end, get_elem?-append, ℕ, Bytes, same_iff, List, [], ◌∷◌, ◌++◌, some, length, get_elem?,
  set, ◌≡◌, refl, ap, ◌∙◌, arith, Bool-cases, inl, inr, get_elem?-set_self, get_elem?-set_ne,
  lt_of_get_elem?,
}
use galopush.Prelude.Assoc.{lookup, lookup-insert}
use galopush.Rds.Defs.{Session, Sessions, Redis}
use galopush.Rds.Store.{Storager, first_plat, marshal, find_sessions, save_sessions}
use galopush.Rds.Messages.{change_item, terminals, terminal_of}

-- Setting a field of a terminal other than its platform moves no search by platform.
pub first_plat-set :
    (items : List Session) (i : ℕ) (it new : Session) (plat : ℕ) (is : List ℕ)
    → get_elem? items i ≡ some it
    → new.plat ≡ it.plat
    → first_plat (set items i new) plat is ≡ first_plat items plat is
unfolding first_plat
first_plat-set items i it new plat [] got same = refl
first_plat-set items i it new plat (j ∷ is) got same = ground (
  arith,
  first_plat-set items i it new plat is got same,
  get_elem?-set_self items i new (lt_of_get_elem? items i it got),
  get_elem?-set_ne items i j new,
)

module _ {R : Type 0} (redis : Redis R) where
  -- The user's box in the cache, with its terminals.
  pub record Sees (st : Storager R) (id : Bytes) (is : List ℕ) : Type 0 where
    pub ptr : ℕ
    pub box : Sessions
    pub cached : lookup id st.mem_store ≡ some ptr
    pub stored : get_elem? st.boxes ptr ≡ some box
    pub named : box.id ≡ id
    pub lists : box.sess ≡ is

  pub items-save_sessions : (st : Storager R) (p : ℕ) → (save_sessions redis st p).items ≡ st.items
  unfolding save_sessions
  items-save_sessions st p = ground arith

  -- A hit of the cache hands out a fresh copy and changes nothing else.
  pub find_hit :
      (st : Storager R) (id : Bytes) (is : List ℕ) (v : Sees st id is)
      → find_sessions redis st id
        ≡ (some (length st.boxes), record st { boxes = st.boxes ++ (v.box ∷ []) })
  unfolding find_sessions
  find_hit st id is v = rw (v.cached, v.stored, find_sessions)

  -- The state that a hit leaves.
  abbrev pub copied : (st : Storager R) (id : Bytes) (is : List ℕ) → Sees st id is → Storager R
  copied st id is v = record st { boxes = st.boxes ++ (v.box ∷ []) }

  -- Saving a box of the user keeps the user's terminals in the cache, whatever Redis answers.
  save_sessions-Sees :
      (st : Storager R) (id : Bytes) (is : List ℕ) (q : ℕ) (s : Sessions)
      → Sees st id is
      → get_elem? st.boxes q ≡ some s
      → s.id ≡ id
      → s.sess ≡ is
      → Sees (save_sessions redis st q) id is
  unfolding save_sessions
  save_sessions-Sees st id is q s v at name list =
      elim (Bool-cases (redis.put st.cli s.id (marshal redis st s)).1) [
        | inl good ↦
            rw (at, save_sessions)
              (rw (good, save_sessions)
                (record {
                  ptr = q;
                  box = s;
                  cached =
                      rw (lookup-insert s.id id q st.mem_store) (ground (arith, same_iff s.id id));
                  stored = at;
                  named = name;
                  lists = list;
                }))
        | inr bad ↦
            rw (at, save_sessions)
              (rw (bad, save_sessions)
                (record {
                  ptr = v.ptr;
                  box = v.box;
                  cached = v.cached;
                  stored = v.stored;
                  named = v.named;
                  lists = v.lists;
                }))
      ]

  pub Sees-copied :
      (st : Storager R) (id : Bytes) (is : List ℕ) (v : Sees st id is)
      → Sees (copied st id is v) id is
  Sees-copied st id is v = record {
    ptr = v.ptr;
    box = v.box;
    cached = v.cached;
    stored = get_elem?-append st.boxes (v.box ∷ []) v.ptr v.box v.stored;
    named = v.named;
    lists = v.lists;
  }

  pub terminal_of-copied :
      (st : Storager R) (id : Bytes) (is : List ℕ) (v : Sees st id is) (plat : ℕ)
      → terminal_of (copied st id is v) (length st.boxes) plat ≡ first_plat st.items plat is
  unfolding terminal_of
  terminal_of-copied st id is v plat =
      rw (get_elem?-end st.boxes v.box, terminals) (ap (first_plat st.items plat) v.lists)

  -- What an operation does that changes one terminal and saves.
  pub record Settled (st st' : Storager R) (id : Bytes) (is : List ℕ) (items : List Session)
      : Type 0 where
    pub sees : Sees st' id is
    pub items_after : st'.items ≡ items

  pub settle :
      (st : Storager R) (id : Bytes) (is : List ℕ) (v : Sees st id is) (i : ℕ) (it : Session)
      (f : Session → Session)
      → get_elem? st.items i ≡ some it
      → Settled st
          (save_sessions redis (change_item (copied st id is v) i f) (length st.boxes))
          id
          is
          (set st.items i (f it))
  unfolding change_item
  settle st id is v i it f got =
      rw (got, change_item)
        (record {
          sees =
              save_sessions-Sees (record (copied st id is v) { items = set st.items i (f it) }) id
                is (length st.boxes) v.box
                (record {
                  ptr = v.ptr;
                  box = v.box;
                  cached = v.cached;
                  stored = get_elem?-append st.boxes (v.box ∷ []) v.ptr v.box v.stored;
                  named = v.named;
                  lists = v.lists;
                })
                (get_elem?-end st.boxes v.box) v.named v.lists;
          items_after =
              items-save_sessions (record (copied st id is v) { items = set st.items i (f it) })
                (length st.boxes);
        })

  -- The premises of the theorems below: the user is cached with the terminals `is`, and `i` is the
  -- first of the platform, with the contents `it`.
  pub record Holds (st : Storager R) (id : Bytes) (plat : ℕ) (is : List ℕ) (i : ℕ) (it : Session)
      : Type 0 where
    pub sees : Sees st id is
    pub first : first_plat st.items plat is ≡ some i
    pub at : get_elem? st.items i ≡ some it

  pub Holds-Settled :
      (st st' : Storager R) (id : Bytes) (plat : ℕ) (is : List ℕ) (i : ℕ) (it new : Session)
      → Holds st id plat is i it
      → new.plat ≡ it.plat
      → Settled st st' id is (set st.items i new)
      → Holds st' id plat is i new
  Holds-Settled st st' id plat is i it new h same s = record {
    sees = s.sees;
    first = rw s.items_after (first_plat-set st.items i it new plat is h.at same ∙ h.first);
    at = rw s.items_after (get_elem?-set_self st.items i new (lt_of_get_elem? st.items i it h.at));
  }
