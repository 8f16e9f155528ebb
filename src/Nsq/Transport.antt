-- ===== src/Nsq/Transport.antt =====
-- A message that a producer publishes reaches the handler unchanged.
use galopush.Prelude.{
  ℕ, zero, suc, Bytes, true, ◌&&◌, ◌=ₛ◌, same_iff, List, [], ◌∷◌, some, get_elem?, ◌≡◌, refl, ap,
  ◌∙◌, subst, inl, inr, Bool-cases, arith, All,
}
use galopush.Prelude.Assoc.{lookup, insert, lookup-insert}
use galopush.Nsq.{
  Base64, TopicDiscoverer, Consumers, publish, new_dispatcher, new_consumer_dispatcher, discover,
  new_topic_discoverer, receive, handle_message,
}

some_injective : (a b : Bytes) → some a ≡ some b → a ≡ b
some_injective a b e = cc

module _ {S : Type 0} (lib : Consumers) (handle : Bytes → Bytes → S → S) where
  -- Every consumer is made and connects.
  abbrev pub IsConnected : Bytes → Type 0
  IsConnected t = (lib.made t && lib.connected t) ≡ true

  consumer_dispatcher-connected :
      (t : Bytes)
      → IsConnected t
      → new_consumer_dispatcher lib t handle ≡ some (new_dispatcher t handle)
  unfolding new_consumer_dispatcher
  consumer_dispatcher-connected t h = rw h refl

  lookup_self :
      (t : Bytes) (found : TopicDiscoverer S)
      → lookup t (insert t (new_dispatcher t handle) found) ≡ some (new_dispatcher t handle)
  lookup_self t found =
      lookup-insert t t (new_dispatcher t handle) found ∙ ground (arith, same_iff t t)

  lookup-kept :
      (t v : Bytes) (found : TopicDiscoverer S)
      → lookup t found ≡ some (new_dispatcher t handle)
      → lookup t (insert v (new_dispatcher v handle) found) ≡ some (new_dispatcher t handle)
  lookup-kept t v found there =
      lookup-insert v t (new_dispatcher v handle) found ∙ elim (Bool-cases (v =ₛ t)) [
        | inl same ↦ rw same (ap (λ x. some (new_dispatcher x handle)) ((same_iff v t).0 same))
        | inr other ↦ rw other there
      ]

  discover-connected :
      (v : Bytes) (rest : List Bytes) (found : TopicDiscoverer S)
      → IsConnected v
      → discover lib handle (v ∷ rest) found
        ≡ discover lib handle rest (insert v (new_dispatcher v handle) found)
  unfolding discover
  discover-connected v rest found h = rw (consumer_dispatcher-connected v h, discover) refl

  -- With consumers that connect, a topic that has its dispatcher keeps it.
  discover-kept :
      (t : Bytes) (topics : List Bytes) (found : TopicDiscoverer S)
      → All IsConnected topics
      → lookup t found ≡ some (new_dispatcher t handle)
      → (d : TopicDiscoverer S) × (discover lib handle topics found ≡ some d)
        × (lookup t d ≡ some (new_dispatcher t handle))
  unfolding discover
  discover-kept t [] found h there = (found, refl, there)
  discover-kept t (v ∷ rest) found (hv, h) there =
      rw (discover-connected v rest found hv)
        (discover-kept t rest _ h (lookup-kept t v found there))

  discover-found :
      (t : Bytes) (i : ℕ) (topics : List Bytes) (found : TopicDiscoverer S)
      → All IsConnected topics
      → get_elem? topics i ≡ some t
      → (d : TopicDiscoverer S) × (discover lib handle topics found ≡ some d)
        × (lookup t d ≡ some (new_dispatcher t handle))
  discover-found t zero [] found h at = absurd (cc)
  discover-found t (suc i) [] found h at = absurd (cc)
  discover-found t zero (v ∷ rest) found (hv, h) at = rw (discover-connected v rest found hv) (
      discover-kept t rest _ h (
        subst
          (λ x.
            lookup x (insert v (new_dispatcher v handle) found) ≡ some (new_dispatcher x handle))
          (some_injective v t at) (lookup_self v found)))
  discover-found t (suc i) (v ∷ rest) found (hv, h) at =
      rw (discover-connected v rest found hv) (discover-found t i rest _ h at)

  -- For a base64 package that reads back what it wrote, topics whose consumers all connect, and a
  -- topic among them: the discoverer is made, and what a producer publishes on the topic is handed to
  -- the handler with the topic, unchanged.
  pub receive-publish :
      (code : Base64) (topics : List Bytes) (i : ℕ) (topic msg : Bytes) (s : S)
      → All IsConnected topics
      → get_elem? topics i ≡ some topic
      → code.decode64 (code.encode64 msg) ≡ some msg
      → (d : TopicDiscoverer S) × (new_topic_discoverer lib topics handle ≡ some d)
        × (receive code d (publish code topic msg) s ≡ handle topic msg s)
  unfolding new_topic_discoverer receive publish handle_message
  receive-publish code topics i topic msg s h at reads =
      let (d, made, listed) = discover-found topic i topics [] h at in
      (d, made, rw (listed, receive) (rw (reads, handle_message) refl))
