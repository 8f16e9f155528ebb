-- ===== src/Comet/Apns/Laws.antt =====
-- What Apple's service is called with, from the push that the router sends to a comet on.
use galopush.Prelude.{
  ℕ, zero, suc, ◌≤◌, Bytes, Option, ◌==◌, List, [], ◌∷◌, ◌++◌, none, some, get_elem?, ◌≡◌, ◌↔◌, ◌⊎◌,
  inl, inr, Bool-cases, ap, refl, ◌∙◌, arith, append_assoc, append-nil,
}
use galopush.Protocol.Message.{msgtype_push, plat_ios}
use galopush.Protocol.Json.{Fields, JsonLib}
use galopush.Comet.Ident.{session_key}
use galopush.Comet.State.{OfflineStore, Outside, ApnsRequest, Comet, finished, find_sessions}
use galopush.Comet.Downlink.{PushRequest, unsent_push, routed, push_down, rpc_async_handle}
use galopush.Comet.Apns.{
  Notification, Client, Reply, status, refused, crashed, nil, ios_sound, compose, recovered,
  check_status, apns_push_once_more, after_push, send, try_push, apns_push, apple_calls,
}

-- A notification is tried a second time exactly if the first try was refused.
abbrev pub tried : Notification → Reply → List Notification
tried note (status code) = note ∷ []
tried note refused = note ∷ note ∷ []
tried note crashed = note ∷ []

abbrev pub tries : Client → Notification → List Notification
tries client note = tried note (client 0 note)

-- The reply that counts: the second after the first try was refused.
abbrev pub after : Client → Notification → Reply → Reply
after client note (status code) = status code
after client note refused = client 1 note
after client note crashed = crashed

abbrev pub last_reply : Client → Notification → Reply
last_reply client note = after client note (client 0 note)

pushed-after_push :
    (client : Client) (note : Notification) (reply : Reply)
    → (after_push client note reply).pushed ≡ tried note reply
unfolding after_push
pushed-after_push client note (status code) = refl
pushed-after_push client note refused = refl
pushed-after_push client note crashed = refl

-- A status is taken exactly if it is 200.
check_status_iff : (code : ℕ) → (recovered (check_status (some code)) ≡ nil) ↔ (code ≡ 200)
unfolding check_status
check_status_iff code = elim (Bool-cases (code == 200)) [
  | inl good ↦ rw good ((λ h. ground (arith, good)), (λ h. refl))
  | inr bad ↦ rw bad ((λ h. cc), (λ h. absurd (ground (arith, h, bad))))
]

last_iff :
    (reply : Reply)
    → (recovered (apns_push_once_more reply) ≡ nil) ↔ ((reply ≡ status 200) ⊎ (reply ≡ crashed))
unfolding apns_push_once_more check_status
last_iff (status code) =
    let (there, back) = check_status_iff code in
    ((λ h. inl (ap status (there h))), (λ h. elim h [ inl e ↦ back (cc) | inr e ↦ absurd (cc) ]))
last_iff refused = ((λ h. absurd (cc)), (λ h. elim h [ inl e ↦ cc | inr e ↦ cc ]))
last_iff crashed = ((λ h. inr refl), (λ h. refl))

end-after_push :
    (client : Client) (note : Notification) (reply : Reply)
    → recovered (after_push client note reply).end
      ≡ recovered (apns_push_once_more (after client note reply))
unfolding after_push apns_push_once_more check_status
end-after_push client note (status code) = refl
end-after_push client note refused = refl
end-after_push client note crashed = refl

module _ (lib : JsonLib) (cli : Client) (req : ApnsRequest) (m : Fields) (sound : Bytes) where
  -- A body that reads as JSON and a flag with a sound: the notification is handed to Apple.
  apns_push-send :
      lib.unmarshal req.body ≡ some m
      → get_elem? ios_sound req.flag ≡ some sound
      → apns_push lib (some cli) req ≡ (
          let done = send cli (compose req.token sound m) in
          record { end = recovered done.end; pushed = done.pushed })
  unfolding apns_push try_push
  apns_push-send reads sounds = rw (reads, try_push) (rw (sounds, try_push) refl)

  -- A push whose text reads as a JSON object and whose flag has a sound: apnsPush calls Apple with
  -- the notification once, and once more exactly if the first call was refused; and it returns no
  -- error exactly if the call that counts answered 200 or panicked.
  pub apns_push-nil_iff :
      lib.unmarshal req.body ≡ some m
      → get_elem? ios_sound req.flag ≡ some sound
      → let note = compose req.token sound m in
        let done = apns_push lib (some cli) req in
        (done.pushed ≡ tries cli note)
        × ((done.end ≡ nil)
            ↔ ((last_reply cli note ≡ status 200) ⊎ (last_reply cli note ≡ crashed)))
  apns_push-nil_iff reads sounds =
      let note = compose req.token sound m in
      rw (apns_push-send reads sounds) (
        pushed-after_push cli note (cli 0 note),
        rw (end-after_push cli note (cli 0 note)) (last_iff (last_reply cli note)),
      )

soundless : (flag : ℕ) → 3 ≤ flag → get_elem? ios_sound flag ≡ none
soundless zero h = absurd (omega arith)
soundless (suc zero) h = absurd (omega arith)
soundless (suc (suc zero)) h = absurd (omega arith)
soundless (suc (suc (suc n))) h = refl

-- A push whose flag has no sound, for a text that reads as a JSON object, is lost: Apple is not
-- called, and apnsPush returns no error.
pub apns_push_soundless :
    (lib : JsonLib) (client : Option Client) (req : ApnsRequest) (m : Fields)
    → lib.unmarshal req.body ≡ some m
    → 3 ≤ req.flag
    → apns_push lib client req ≡ record { end = nil; pushed = [] }
unfolding apns_push try_push
apns_push_soundless lib none req m reads high = rw (reads, try_push) refl
apns_push_soundless lib (some cli) req m reads high =
    rw (reads, try_push) (rw (soundless req.flag high, try_push) refl)

apple_calls-append :
    (lib : JsonLib) (client : Option Client) (xs ys : List ApnsRequest)
    → apple_calls lib client (xs ++ ys) ≡ apple_calls lib client xs ++ apple_calls lib client ys
unfolding apple_calls
apple_calls-append lib client [] ys = refl
apple_calls-append lib client (x ∷ xs) ys = simp (apple_calls-append lib client xs ys, append_assoc)

module _ {S : Type 0} (out : Outside) (store : OfflineStore S) where
  -- A push for a user on iOS who has no session goes to the list of calls of apnsPush.
  push_down-ios :
      (msg : PushRequest) (c : Comet S)
      → msg.tp ≡ msgtype_push
      → msg.termtype ≡ plat_ios
      → find_sessions c (session_key msg.id plat_ios) ≡ none
      → rpc_async_handle out store msg c ≡ finished (unsent_push out store msg c)
  unfolding rpc_async_handle push_down routed
  push_down-ios msg c tp plat gone = rw tp (rw plat (rw (gone, routed) refl))

  -- A push of the router for a user on iOS who has no session at the comet, whose text reads as a
  -- JSON object and whose flag has a sound: the comet handles it without a panic, and the calls that
  -- Apple's service gets are those of before and the notification, twice if the first call was
  -- refused.
  pub rpc_async_handle-apple_calls :
      (lib : JsonLib) (cli : Client) (msg : PushRequest) (m : Fields) (sound : Bytes) (c : Comet S)
      → msg.tp ≡ msgtype_push
      → msg.termtype ≡ plat_ios
      → find_sessions c (session_key msg.id plat_ios) ≡ none
      → lib.unmarshal msg.msg ≡ some m
      → get_elem? ios_sound msg.flag ≡ some sound
      → (c1 : Comet S) × (rpc_async_handle out store msg c ≡ finished c1)
        × (apple_calls lib (some cli) c1.apns
            ≡ apple_calls lib (some cli) c.apns ++ tries cli (compose msg.apple_token sound m))
  unfolding unsent_push apple_calls
  rpc_async_handle-apple_calls lib cli msg m sound c tp plat gone reads sounds =
      let req : ApnsRequest = record {
        id = msg.id;
        token = msg.apple_token;
        body = msg.msg;
        flag = msg.flag;
      } in
      let sent = apns_push-nil_iff lib cli req m sound reads sounds in
      (
        unsent_push out store msg c,
        push_down-ios msg c tp plat gone,
        rw plat (apple_calls-append lib (some cli) c.apns (req ∷ []) ∙ simp (sent.0, append-nil)),
      )
