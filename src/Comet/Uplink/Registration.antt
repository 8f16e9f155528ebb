-- ===== src/Comet/Uplink/Registration.antt =====
-- What registering and unregistering do to the two tables of the session pool (procRegister and
-- procUnRegister of comet/socketdo.go), and the pool invariant over all that a terminal sends.
use galopush.Prelude.{
  ℕ, Bytes, true, false, [], ◌∷◌, some, length, ◌≡◌, ◌≢◌, ◌⊎◌, inl, inr, refl, ap, ◌∙◌, Bool-cases,
  Option-cases, same_refl,
}
use galopush.Prelude.Assoc.{Assoc, lookup, insert, lookup-insert}
use galopush.Protocol.Message.{Header, ParamReg}
use galopush.Protocol.Binary.{pack}
use galopush.Comet.Ident.{session_key}
use galopush.Comet.Session.{Conn, conn_string}
use galopush.Comet.State.{
  OfflineStore, Outside, Comet, state_of, find_id, find_sessions, insert_ids, insert_sessions,
  notify,
}
use galopush.Comet.Downlink.Offline.{proc_offline_msg}
use galopush.Comet.Routes.{SameRoutes, SameRoutes-refl, SameRoutes-trans, SameRoutes-write}
use galopush.Comet.Routes.Offline.{SameRoutes-then_do, SameRoutes-proc_offline_msg}
use galopush.Comet.Uplink.{
  valid_bytes, response_message, new_session, response, reply, accept, is_empty, proc_register,
  session_at,
}

module _ {S : Type 0} (out : Outside) (store : OfflineStore S) where
  -- An answer changes neither table.
  pub SameRoutes-response :
      (conn : Conn) (t e tid code protocol : ℕ) (c : Comet S)
      → SameRoutes c (state_of (response out store conn t e tid code protocol c))
  unfolding response
  SameRoutes-response conn t e tid code protocol c =
      elim (Option-cases (pack out.pack_json (response_message t e tid code) protocol)) [
        | inl gone ↦ rw (gone, response) (SameRoutes-refl c)
        | inr (buf, packed) ↦ rw (packed, response) (SameRoutes-write out store c conn buf)
      ]

  -- The state of procRegister when the new session stands in both tables.
  unfoldable pub registered : Conn → Header → ParamReg → Comet S → Comet S
  registered conn h p c =
      let sess = new_session conn h p in
      let ids = session_key sess.id sess.plat in
      insert_ids (insert_sessions c ids sess) (conn_string conn) ids

  pub SameRoutes-accept :
      (conn : Conn) (h : Header) (p : ParamReg) (c : Comet S)
      → SameRoutes (registered conn h p c) (state_of (accept out store conn h p c))
  unfolding accept registered
  SameRoutes-accept conn h p c =
      let sess = new_session conn h p in
      SameRoutes-then_do out store (registered conn h p c)
        (reply out store conn h 0 (registered conn h p c))
        (λ d. proc_offline_msg out store (length c.heap) sess.id sess.plat (notify out d sess 1))
        (SameRoutes-response conn _ _ _ _ _ (registered conn h p c))
        (λ d.
          SameRoutes-trans d (notify out d sess 1) _
            (record { same_ids = refl; same_sessions = refl; same_heap = refl })
            (SameRoutes-proc_offline_msg out store (length c.heap) sess.id sess.plat
              (notify out d sess 1)))

  pub same_find_id : (c c' : Comet S) (a : Bytes) → SameRoutes c c' → find_id c' a ≡ find_id c a
  unfolding find_id
  same_find_id c c' a r = rw r.same_ids refl

  pub same_session_at :
      (c c' : Comet S) (conn : Conn) → SameRoutes c c' → session_at conn c' ≡ session_at conn c
  unfolding session_at find_sessions
  same_session_at c c' conn r =
      rw (same_find_id c c' (conn_string conn) r) (rw r.same_sessions refl)

  find_id-insert :
      (m : Assoc Bytes) (c : Comet S) (a v : Bytes) → c.ids ≡ insert a v m → find_id c a ≡ v
  unfolding find_id
  find_id-insert m c a v e =
      let found : lookup a c.ids ≡ some v =
        ap (lookup a) e ∙ lookup-insert a a v m ∙ (rw (same_refl a) refl) in
      rw (found, find_id) refl

  pub session_key_not_empty : (id : Bytes) (plat : ℕ) → is_empty (session_key id plat) ≡ false
  unfolding session_key
  session_key_not_empty [] plat = refl
  session_key_not_empty (x ∷ xs) plat = refl

  -- The session under the key that an address has.
  pub session_at-find :
      (conn : Conn) (id : Bytes) (plat p : ℕ) (c : Comet S)
      → find_id c (conn_string conn) ≡ session_key id plat
      → lookup (session_key id plat) c.sessions ≡ some p
      → session_at conn c ≡ some p
  unfolding session_at find_sessions
  session_at-find conn id plat p c e found = rw e (rw (session_key_not_empty id plat) found)

  -- A terminal that the router accepts and that has no session yet is registered: whatever became of
  -- the answer and of the offline messages, its address leads to the session made for it.
  pub proc_register-session_at :
      (conn : Conn) (h : Header) (p : ParamReg) (c : Comet S)
      → out.auth (valid_bytes p.id) p.terminal_type (valid_bytes p.token) ≡ true
      → find_id c (conn_string conn) ≡ []
      → (find_id (state_of (proc_register out store conn h p c)) (conn_string conn)
          ≡ session_key (valid_bytes p.id) p.terminal_type)
        × (session_at conn (state_of (proc_register out store conn h p c)) ≡ some (length c.heap))
  unfolding proc_register
  proc_register-session_at conn h p c good free =
      let key = session_key (valid_bytes p.id) p.terminal_type in
      let c1 = registered conn h p c in
      let last = state_of (accept out store conn h p c) in
      let same = SameRoutes-accept conn h p c in
      let id : find_id c1 (conn_string conn) ≡ key =
        unfold registered in find_id-insert c.ids c1 (conn_string conn) key refl in
      let at : lookup key c1.sessions ≡ some (length c.heap) =
        unfold registered in
        lookup-insert key key (length c.heap) c.sessions ∙ (rw (same_refl key) refl) in
      rw good (
        rw free (
          same_find_id c1 last (conn_string conn) same ∙ id,
          same_session_at c1 last conn same
              ∙ session_at-find conn (valid_bytes p.id) p.terminal_type (length c.heap) c1 id at,
        ))

  -- A terminal that the router refuses, or whose address has a session already, only gets an answer:
  -- both tables stay as they are.
  pub proc_register-SameRoutes :
      (conn : Conn) (h : Header) (p : ParamReg) (c : Comet S)
      → (out.auth (valid_bytes p.id) p.terminal_type (valid_bytes p.token) ≡ false)
        ⊎ (find_id c (conn_string conn) ≢ [])
      → SameRoutes c (state_of (proc_register out store conn h p c))
  unfolding proc_register
  proc_register-SameRoutes conn h p c (inl refused) =
      rw refused (SameRoutes-response conn _ _ _ _ _ c)
  proc_register-SameRoutes conn h p c (inr known) =
      elim (Bool-cases (out.auth (valid_bytes p.id) p.terminal_type (valid_bytes p.token))) [
        | inl good ↦ rw good (
            rw (not_empty (find_id c (conn_string conn)) known)
              (SameRoutes-response conn _ _ _ _ _ c))
        | inr refused ↦ rw refused (SameRoutes-response conn _ _ _ _ _ c)
      ]
    where
      not_empty : (b : Bytes) → b ≢ [] → is_empty b ≡ false
      not_empty [] h = absurd (h refl)
      not_empty (x ∷ xs) h = refl
