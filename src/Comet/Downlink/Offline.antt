-- ===== src/Comet/Downlink/Offline.antt =====
-- comet/offmsg.go: the offline messages that wait for a terminal that registers.
use galopush.Prelude.{ℕ, Bytes, Bool, ◌==◌, if◌then◌else◌, List, [], ◌∷◌, none, some}
use galopush.Protocol.Message.{
  msgtype_push, msgtype_callback, msgtype_message, plat_android, plat_web, protocol_type_binary,
}
use galopush.Rds.Defs.{Item}
use galopush.Comet.State.{OfflineStore, Outside, Comet, Outcome, finished}
use galopush.Comet.Downlink.{
  push_message, callback_message, im_message, then_do, send_to, store_push, store_callback,
  store_im, web_connected,
}

-- A loop over messages, which a panic stops.
unfoldable pub send_each :
    {S : Type 0} → (Item → Comet S → Outcome (Comet S)) → List Item → Comet S → Outcome (Comet S)
send_each send [] c = finished c
send_each send (v ∷ rest) c = then_do (send v c) (λ d. send_each send rest d)

module _ {S : Type 0} (out : Outside) (store : OfflineStore S) where
  unfoldable pub offline_push : ℕ → Bytes → ℕ → Bool → Comet S → Outcome (Comet S)
  offline_push p id plat web c =
      let (found, s) = store.get_push c.store id plat in
      let c1 = record c { store = s } in
      elim found [
        | none ↦ finished c1
        | some off ↦
            send_to out store p (push_message off.off_cnt web off.msg) protocol_type_binary
              msgtype_push off.msg (store_push out store id plat off.msg) c1
      ]

  unfoldable pub offline_callbacks : ℕ → Bytes → ℕ → Comet S → Outcome (Comet S)
  offline_callbacks p id plat c =
      let (found, s) = store.get_callbacks c.store id plat in
      send_each
        (λ v.
          send_to out store p (callback_message v.msg) protocol_type_binary msgtype_callback v.msg
            (store_callback out store id plat v.msg))
        found (record c { store = s })

  unfoldable pub offline_ims : ℕ → Bytes → ℕ → Comet S → Outcome (Comet S)
  offline_ims p id plat c =
      let (found, s) = store.get_ims c.store id plat in
      send_each
        (λ v.
          send_to out store p (im_message v.web_online v.msg) protocol_type_binary msgtype_message
            v.msg (store_im out store id plat v.msg))
        found (record c { store = s })

  -- ProcOfflineMsg
  unfoldable pub proc_offline_msg : ℕ → Bytes → ℕ → Comet S → Outcome (Comet S)
  proc_offline_msg p id plat c =
      if plat == plat_web
      then finished c
      else then_do
          (then_do
            (if plat == plat_android
              then offline_push p id plat (web_connected out store c id) c
              else finished c)
            (offline_callbacks p id plat))
          (offline_ims p id plat)
