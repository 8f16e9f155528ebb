-- ===== src/Nsq.antt =====
-- internal/nsq/nsq.go: messages to and from the queue in base64, and a dispatcher for each topic.
-- encoding/base64 is a parameter, and so is whether the library makes and connects a consumer.
pub mod Transport
use galopush.Prelude.{Bytes, Bool, ◌&&◌, if◌then◌else◌, List, [], ◌∷◌, Option, none, some}
use galopush.Prelude.Assoc.{Assoc, lookup, insert}

-- base64.StdEncoding
pub record Base64 : Type 0 where
  pub encode64 : Bytes → Bytes
  pub decode64 : Bytes → Option Bytes

-- A message of the queue: the topic and the bytes of its body.
pub record Queued : Type 0 where
  pub topic : Bytes
  pub body : Bytes

-- Dispatcher: the topic, and what handles a message.
pub record Dispatcher (S : Type 0) : Type 0 where
  pub topic : Bytes
  pub handle : Bytes → Bytes → S → S

-- TopicDiscoverer: the dispatchers by their topics.
abbrev pub TopicDiscoverer : Type 0 → Type 0
TopicDiscoverer S = Assoc (Dispatcher S)

-- Is a consumer of a topic made, and does it connect?
pub record Consumers : Type 0 where
  pub made : Bytes → Bool
  pub connected : Bytes → Bool

-- Publish: what the producer is called with.
unfoldable pub publish : Base64 → Bytes → Bytes → Queued
publish code topic msg = record { topic = topic; body = code.encode64 msg }

module _ {S : Type 0} where
  -- HandleMessage: a body that is not base64 is handled as it is.
  unfoldable pub handle_message : Base64 → Dispatcher S → Bytes → S → S
  handle_message code p raw s = elim (code.decode64 raw) [
    | none ↦ p.handle p.topic raw s
    | some body ↦ p.handle p.topic body s
  ]

  abbrev pub new_dispatcher : Bytes → (Bytes → Bytes → S → S) → Dispatcher S
  new_dispatcher topic handle = record { topic = topic; handle = handle }

  -- NewConsumerDispatcher: none where it returns an error, or ends the program.
  unfoldable pub new_consumer_dispatcher :
      Consumers → Bytes → (Bytes → Bytes → S → S) → Option (Dispatcher S)
  new_consumer_dispatcher lib topic handle =
      if lib.made topic && lib.connected topic then some (new_dispatcher topic handle) else none

  -- The loop of NewTopicDiscoverer over the topics; none is log.Fatal.
  unfoldable pub discover :
      Consumers
      → (Bytes → Bytes → S → S)
      → List Bytes
      → TopicDiscoverer S
      → Option (TopicDiscoverer S)
  unfolding new_consumer_dispatcher
  discover lib handle [] found = some found
  discover lib handle (v ∷ rest) found = elim (new_consumer_dispatcher lib v handle) [
    | none ↦ none
    | some cd ↦ discover lib handle rest (insert v cd found)
  ]

  -- NewTopicDiscoverer
  unfoldable pub new_topic_discoverer :
      Consumers → List Bytes → (Bytes → Bytes → S → S) → Option (TopicDiscoverer S)
  unfolding discover
  new_topic_discoverer lib topics handle = discover lib handle topics []

  -- The library hands a message of a topic to the handler that was added for it.
  unfoldable pub receive : Base64 → TopicDiscoverer S → Queued → S → S
  unfolding handle_message
  receive code discoverer q s = elim (lookup q.topic discoverer) [
    | none ↦ s
    | some d ↦ handle_message code d q.body s
  ]
