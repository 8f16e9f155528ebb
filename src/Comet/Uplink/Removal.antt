-- ===== src/Comet/Uplink/Removal.antt =====
-- What procUnRegister of comet/socketdo.go does when a connection ends, also to another connection of
-- the same user on the same platform.
use galopush.Prelude.{
  ℕ, Bytes, [], none, some, get_elem?, ◌≡◌, ◌≢◌, inl, inr, refl, sym, ap, ◌∙◌, arith, Bool-cases,
  Option-cases, same_iff, same_refl, get_elem?-lt,
}
use galopush.Prelude.Assoc.{Assoc, lookup, delete, lookup-delete}
use galopush.Comet.Session.{Session, Conn, conn_string}
use galopush.Comet.State.{Outside, Comet, find_id, find_sessions}
use galopush.Comet.Routes.{IsPooled}
use galopush.Comet.Uplink.{is_empty, session_at, unregister, with_session, proc_unregister}

find_id-delete :
    {S : Type 0} (m : Assoc Bytes) (c : Comet S) (a : Bytes) → c.ids ≡ delete a m → find_id c a ≡ []
unfolding find_id
find_id-delete m c a e =
    let gone : lookup a c.ids ≡ none =
      ap (lookup a) e ∙ lookup-delete a a m ∙ (rw (same_refl a) refl) in
    rw (gone, find_id) refl

find_id-delete_other :
    {S : Type 0} (c c' : Comet S) (a b : Bytes)
    → c'.ids ≡ delete a c.ids
    → a ≢ b
    → find_id c' b ≡ find_id c b
unfolding find_id
find_id-delete_other c c' a b e apart =
    let same : lookup b c'.ids ≡ lookup b c.ids =
      ap (lookup b) e ∙ lookup-delete a b c.ids ∙ ground (arith, same_iff a b) in
    rw (same, find_id) refl

session_at_unknown :
    {S : Type 0} (conn : Conn) (c : Comet S)
    → find_id c (conn_string conn) ≡ []
    → session_at conn c ≡ none
unfolding session_at
session_at_unknown conn c e = rw e refl

-- No session under the key of the address.
session_at_removed :
    {S : Type 0} (conn : Conn) (k : Bytes) (c : Comet S)
    → find_id c (conn_string conn) ≡ k
    → lookup k c.sessions ≡ none
    → session_at conn c ≡ none
unfolding session_at find_sessions
session_at_removed conn k c e gone = rw e (rw gone (ground arith))

session_at_same :
    {S : Type 0} (a b : Conn) (c : Comet S)
    → find_id c (conn_string a) ≡ find_id c (conn_string b)
    → session_at b c ≡ session_at a c
unfolding session_at
session_at_same a b c e = rw e refl

session_at-lookup :
    {S : Type 0} (conn : Conn) (p : ℕ) (c : Comet S)
    → session_at conn c ≡ some p
    → lookup (find_id c (conn_string conn)) c.sessions ≡ some p
unfolding session_at find_sessions
session_at-lookup conn p c e = elim (Bool-cases (is_empty (find_id c (conn_string conn)))) [
  | inl empty ↦ ground (arith, e, empty)
  | inr real ↦ ground (arith, e, real)
]

module _ {S : Type 0} (out : Outside) where
  proc_unregister-found :
      (conn : Conn) (p : ℕ) (sess : Session) (c : Comet S)
      → session_at conn c ≡ some p
      → get_elem? c.heap p ≡ some sess
      → proc_unregister out conn c ≡ unregister out conn (find_id c (conn_string conn)) p sess c
  unfolding proc_unregister
  proc_unregister-found conn p sess c found at = rw found (rw (at, with_session) refl)

  unregister-find_sessions :
      (conn : Conn) (k : Bytes) (p : ℕ) (sess : Session) (c : Comet S)
      → lookup k (unregister out conn k p sess c).sessions ≡ none
  unfolding unregister
  unregister-find_sessions conn k p sess c = lookup-delete k k c.sessions ∙ (rw (same_refl k) refl)

  -- After procUnRegister of a connection, its address leads to no session, in a pool whose pointers all
  -- lead to sessions.
  pub proc_unregister-session_at :
      (conn : Conn) (c : Comet S) → IsPooled c → session_at conn (proc_unregister out conn c) ≡ none
  proc_unregister-session_at conn c pooled = elim (Option-cases (session_at conn c)) [
    | inl gone ↦
        let still : proc_unregister out conn c ≡ c = unfold proc_unregister in rw gone refl in
        ap (session_at conn) still ∙ gone
    | inr (p, found) ↦
        let (sess, at) = get_elem?-lt c.heap p (pooled _ p (session_at-lookup conn p c found)) in
        let k = find_id c (conn_string conn) in
        ap (session_at conn) (proc_unregister-found conn p sess c found at)
        ∙ session_at_unknown conn (unregister out conn k p sess c) (
            unfold unregister in
            find_id-delete c.ids (unregister out conn k p sess c) (conn_string conn) refl)
  ]

  -- A connection that ends takes with it the session of another connection that has the same key, as
  -- a newer one of the same user and platform has: that one keeps its entry in the table of addresses,
  -- and its address leads to no session any more.
  pub proc_unregister_newer :
      (old new : Conn) (k : Bytes) (p : ℕ) (sess : Session) (c : Comet S)
      → conn_string old ≢ conn_string new
      → find_id c (conn_string old) ≡ k
      → find_id c (conn_string new) ≡ k
      → session_at old c ≡ some p
      → get_elem? c.heap p ≡ some sess
      → (session_at new c ≡ some p)
        × (find_id (proc_unregister out old c) (conn_string new) ≡ k)
        × (session_at new (proc_unregister out old c) ≡ none)
  proc_unregister_newer old new k p sess c apart is_old is_new found at =
      let c1 = unregister out old k p sess c in
      let ends : proc_unregister out old c ≡ c1 =
        proc_unregister-found old p sess c found at
        ∙ ap (λ j. unregister out old j p sess c) is_old in
      let kept : find_id c1 (conn_string new) ≡ k =
        find_id-delete_other c c1 (conn_string old) (conn_string new) (unfold unregister in refl)
          apart
        ∙ is_new in
      (
        session_at_same old new c (is_old ∙ sym is_new) ∙ found,
        ap (λ d. find_id d (conn_string new)) ends ∙ kept,
        ap (session_at new) ends
            ∙ session_at_removed new k c1 kept (unregister-find_sessions old k p sess c),
      )
