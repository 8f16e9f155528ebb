-- ===== src/Comet/Routes/Offline.antt =====
-- The offline messages leave the session pool as it is, as far as its tables go.
use galopush.Prelude.{
  ℕ, Bytes, Bool, ◌==◌, if◌then◌else◌, List, [], ◌∷◌, refl, Option-cases, inl, inr,
}
use galopush.Protocol.Message.{plat_web, plat_android}
use galopush.Rds.Defs.{Item}
use galopush.Comet.State.{OfflineStore, Outside, Comet, Outcome, finished, panicked, state_of}
use galopush.Comet.Downlink.{then_do, store_push, web_connected}
use galopush.Comet.Downlink.Offline.{
  send_each, offline_push, offline_callbacks, offline_ims, proc_offline_msg,
}
use galopush.Comet.Routes.{
  SameRoutes, SameRoutes-refl, SameRoutes-trans, SameRoutes-send_to, SameRoutes-state_of_if,
}

module _ {S : Type 0} (out : Outside) (store : OfflineStore S) where
  pub SameRoutes-then_do :
      (c : Comet S) (o : Outcome (Comet S)) (f : Comet S → Outcome (Comet S))
      → SameRoutes c (state_of o)
      → ((d : Comet S) → SameRoutes d (state_of (f d)))
      → SameRoutes c (state_of (then_do o f))
  SameRoutes-then_do c (finished d) f h k = SameRoutes-trans c d _ h (k d)
  SameRoutes-then_do c (panicked d) f h k = h

  SameRoutes-send_each :
      (send : Item → Comet S → Outcome (Comet S))
      → ((v : Item) (c : Comet S) → SameRoutes c (state_of (send v c)))
      → (vs : List Item) (c : Comet S) → SameRoutes c (state_of (send_each send vs c))
  unfolding send_each
  SameRoutes-send_each send k [] c = SameRoutes-refl c
  SameRoutes-send_each send k (v ∷ vs) c =
      SameRoutes-then_do c (send v c) _ (k v c) (λ d. SameRoutes-send_each send k vs d)

  SameRoutes-store : (c : Comet S) (s : S) → SameRoutes c (record c { store = s })
  SameRoutes-store c s = record { same_ids = refl; same_sessions = refl; same_heap = refl }

  SameRoutes-offline_push :
      (p : ℕ) (id : Bytes) (plat : ℕ) (web : Bool) (c : Comet S)
      → SameRoutes c (state_of (offline_push out store p id plat web c))
  unfolding offline_push
  SameRoutes-offline_push p id plat web c =
      let c1 = record c { store = (store.get_push c.store id plat).1 } in
      elim (Option-cases (store.get_push c.store id plat).0) [
        | inl gone ↦ rw (gone, offline_push) (SameRoutes-store c _)
        | inr (off, found) ↦
            rw (found, offline_push)
              (SameRoutes-trans c c1 _ (SameRoutes-store c _) (
                SameRoutes-send_to out store p _ _ _ _ (store_push out store id plat off.msg)
                  (λ d. SameRoutes-store d _) c1))
      ]

  SameRoutes-offline_callbacks :
      (p : ℕ) (id : Bytes) (plat : ℕ) (c : Comet S)
      → SameRoutes c (state_of (offline_callbacks out store p id plat c))
  unfolding offline_callbacks
  SameRoutes-offline_callbacks p id plat c =
      let got = store.get_callbacks c.store id plat in
      SameRoutes-trans c (record c { store = got.1 }) _ (SameRoutes-store c got.1)
        (SameRoutes-send_each _
          (λ v d. SameRoutes-send_to out store p _ _ _ _ _ (λ e. SameRoutes-store e _) d) got.0
          (record c { store = got.1 }))

  SameRoutes-offline_ims :
      (p : ℕ) (id : Bytes) (plat : ℕ) (c : Comet S)
      → SameRoutes c (state_of (offline_ims out store p id plat c))
  unfolding offline_ims
  SameRoutes-offline_ims p id plat c =
      let got = store.get_ims c.store id plat in
      SameRoutes-trans c (record c { store = got.1 }) _ (SameRoutes-store c got.1)
        (SameRoutes-send_each _
          (λ v d. SameRoutes-send_to out store p _ _ _ _ _ (λ e. SameRoutes-store e _) d) got.0
          (record c { store = got.1 }))

  -- The delivery of the offline messages changes neither table.
  pub SameRoutes-proc_offline_msg :
      (p : ℕ) (id : Bytes) (plat : ℕ) (c : Comet S)
      → SameRoutes c (state_of (proc_offline_msg out store p id plat c))
  unfolding proc_offline_msg
  SameRoutes-proc_offline_msg p id plat c =
      let web = web_connected out store c id in
      let first : Outcome (Comet S) =
        if plat == plat_android then offline_push out store p id plat web c else finished c in
      let second = then_do first (offline_callbacks out store p id plat) in
      let kept_first : SameRoutes c (state_of first) =
        SameRoutes-state_of_if out store (plat == plat_android) c
          (offline_push out store p id plat web c) (finished c)
          (SameRoutes-offline_push p id plat web c) (SameRoutes-refl c) in
      let kept_second =
        SameRoutes-then_do c first (offline_callbacks out store p id plat) kept_first
          (λ d. SameRoutes-offline_callbacks p id plat d) in
      SameRoutes-state_of_if out store (plat == plat_web) c (finished c)
        (then_do second (offline_ims out store p id plat)) (SameRoutes-refl c)
        (SameRoutes-then_do c second (offline_ims out store p id plat) kept_second
          (λ d. SameRoutes-offline_ims p id plat d))
