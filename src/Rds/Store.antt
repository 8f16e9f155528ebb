-- ===== src/Rds/Store.antt =====
-- internal/rds/rds.go. `FindSessions` hands out a shallow copy, whose terminals stay shared with the
-- cache: structures live on two heaps, and a pointer is an index. The mutex makes each operation one
-- step. Where Go would follow a pointer, an index out of range (which no operation makes) is none.
use galopush.Prelude.{
  ℕ, zero, suc, ◌+◌, ◌%◌, Bytes, ◌=ₛ◌, Bool, false, ◌||◌, ◌==◌, ltb, if◌then◌else◌, List, [], ◌∷◌,
  ◌++◌, Option, none, some, length, get_elem?, take, drop,
}
use galopush.Prelude.Assoc.{Assoc, lookup, insert}
use galopush.Rds.Defs.{Item, Body, Session, Sessions, Document, Redis}

pub record Storager (R : Type 0) : Type 0 where
  pub cli : R
  pub boxes : List Sessions
  pub items : List Session
  pub mem_store : Assoc ℕ

-- The structures behind a list of pointers.
unfoldable pub load : List Session → List ℕ → List Session
load items [] = []
load items (i ∷ is) = elim (get_elem? items i) [
  | none ↦ load items is
  | some it ↦ it ∷ load items is
]

-- The first terminal of a platform: `for _, it := range sess.Sess { if it.Plat == plat … break }`.
unfoldable pub first_plat : List Session → ℕ → List ℕ → Option ℕ
first_plat items plat [] = none
first_plat items plat (i ∷ is) = elim (get_elem? items i) [
  | none ↦ first_plat items plat is
  | some it ↦ if it.plat == plat then some i else first_plat items plat is
]

-- Fresh pointers for `n` structures behind the `at` that there are.
unfoldable pub fresh : ℕ → ℕ → List ℕ
fresh at zero = []
fresh at (suc n) = at ∷ fresh (suc at) n

unfoldable pub has_msg : Bytes → List Item → Bool
has_msg msg [] = false
has_msg msg (v ∷ rest) = v.msg =ₛ msg || has_msg msg rest

-- `it.OffMsg` of one terminal.
abbrev pub with_off_msg : Session → Body → Session
with_off_msg it b = record it { off_msg = b }

abbrev pub add_push : Bytes → Session → Session
add_push msg it = with_off_msg it (record it.off_msg {
  push = record { off_cnt = (it.off_msg.push.off_cnt + 1) % 65536; msg = msg };
})

abbrev pub reset_push : Session → Session
reset_push it = with_off_msg it (record it.off_msg { push = record { off_cnt = 0; msg = [] } })

abbrev pub add_callback : Bytes → Session → Session
add_callback msg it =
    with_off_msg it
      (record it.off_msg { cb = it.off_msg.cb ++ (record { web_online = false; msg = msg } ∷ []) })

abbrev pub reset_callback : Session → Session
reset_callback it = with_off_msg it (record it.off_msg { cb = [] })

-- `if len(Im) > 50 { Im = Im[1:50] }`, then `append`.
abbrev pub push_im : List Item → Item → List Item
push_im im i = (if ltb 50 (length im) then drop 1 (take 50 im) else im) ++ (i ∷ [])

abbrev pub add_im : Bool → Bytes → Session → Session
add_im web msg it =
    with_off_msg it
      (record it.off_msg { im = push_im it.off_msg.im (record { web_online = web; msg = msg }) })

abbrev pub reset_im : Session → Session
reset_im it = with_off_msg it (record it.off_msg { im = [] })

module _ {R : Type 0} (redis : Redis R) where
  -- NewStorager
  pub new_storager : R → Storager R
  new_storager cli = record { cli = cli; boxes = []; items = []; mem_store = [] }

  -- `json.Marshal(sess)`
  unfoldable pub marshal : Storager R → Sessions → Document
  marshal st s = record { id = s.id; comet_id = s.comet_id; sess = load st.items s.sess }

  -- A copy of a structure, at a new address.
  unfoldable pub copy_box : Storager R → Sessions → Option ℕ × Storager R
  copy_box st s = (some (length st.boxes), record st { boxes = st.boxes ++ (s ∷ []) })

  -- `json.Unmarshal(b, &sess)` at new addresses, and `p.memStore[id] = &sess`.
  unfoldable pub cache_document : Storager R → Bytes → Document → Option ℕ × Storager R
  cache_document st id doc = (
    some (length st.boxes),
    record st {
      boxes =
          st.boxes
          ++ (record {
            id = doc.id;
            comet_id = doc.comet_id;
            sess = fresh (length st.items) (length doc.sess);
          }
              ∷ []);
      items = st.items ++ doc.sess;
      mem_store = insert id (length st.boxes) st.mem_store;
    },
  )

  unfoldable pub find_sessions : Storager R → Bytes → Option ℕ × Storager R
  unfolding copy_box cache_document
  find_sessions st id = elim (lookup id st.mem_store) [
    | some p ↦ elim (get_elem? st.boxes p) [ some s ↦ copy_box st s | none ↦ (none, st) ]
    | none ↦ elim (redis.get st.cli id) [ some doc ↦ cache_document st id doc | none ↦ (none, st) ]
  ]

  -- Redis first, and the cache only if Redis accepted the document.
  unfoldable pub save_sessions : Storager R → ℕ → Storager R
  unfolding marshal
  save_sessions st p = elim (get_elem? st.boxes p) [
    | none ↦ st
    | some s ↦
        let (cli, good) = redis.put st.cli s.id (marshal st s) in
        if good
        then record st { cli = cli; mem_store = insert s.id p st.mem_store }
        else record st { cli = cli }
  ]
