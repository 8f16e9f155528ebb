-- ===== src/Router/Handler/Answers.antt =====
-- What the business side gets for what it puts into the queue.
use galopush.Prelude.{
  ℕ, zero, suc, Bytes, codes, Bool, true, ◌&&◌, ◌==◌, ◌=ₛ◌, if◌then◌else◌, List, [], ◌∷◌, ◌++◌,
  Option, some, get_elem?, ◌≡◌, ◌↔◌, refl, ap, ◌∙◌, arith, inl, inr, All, Bool-cases, Option-cases,
}
use galopush.Rds.Defs.{Session, Redis}
use galopush.Rds.Store.{Storager, find_sessions}
use galopush.Rds.Messages.{terminals, any_online, session_online}
use galopush.Nsq.{Base64, TopicDiscoverer, Consumers, publish, new_topic_discoverer, receive}
use galopush.Nsq.Transport.{IsConnected, receive-publish}
use galopush.Router.Rpc.{RouterOutside, with_store}
use galopush.Router.Nsq.{SessionTimeout, session_timeout}
use galopush.Router.Handler.{Texts, Served, on_timeout, nsq_handler, on_nsq}

-- A terminal of the platform that is online, among the terminals behind pointers.
pub record OnlineAt (items : List Session) (plat : ℕ) (is : List ℕ) : Type 0 where
  pub place : ℕ
  pub pointer : ℕ
  pub it : Session
  pub listed : get_elem? is place ≡ some pointer
  pub found : get_elem? items pointer ≡ some it
  pub same_plat : it.plat ≡ plat
  pub is_online : it.online ≡ true

OnlineAt-later :
    (items : List Session) (plat i : ℕ) (is : List ℕ)
    → OnlineAt items plat is
    → OnlineAt items plat (i ∷ is)
OnlineAt-later items plat i is h = record {
  place = suc h.place;
  pointer = h.pointer;
  it = h.it;
  listed = h.listed;
  found = h.found;
  same_plat = h.same_plat;
  is_online = h.is_online;
}

any_online_hit :
    (items : List Session) (plat : ℕ) (is : List ℕ) (place pointer : ℕ) (it : Session)
    → get_elem? is place ≡ some pointer
    → get_elem? items pointer ≡ some it
    → it.plat ≡ plat
    → it.online ≡ true
    → any_online items plat is ≡ true
unfolding any_online
any_online_hit items plat [] place pointer it listed found same online = absurd (cc)
any_online_hit items plat (i ∷ is) zero pointer it listed found same online = ground arith
any_online_hit items plat (i ∷ is) (suc k) pointer it listed found same online =
    let rest = any_online_hit items plat is k pointer it listed found same online in
    ground (arith, rest)

any_online-OnlineAt :
    (items : List Session) (plat : ℕ) (is : List ℕ)
    → any_online items plat is ≡ true
    → OnlineAt items plat is
unfolding any_online
any_online-OnlineAt items plat [] h = absurd (cc)
any_online-OnlineAt items plat (i ∷ is) h = elim (Option-cases (get_elem? items i)) [
  | inl gone ↦
      OnlineAt-later items plat i is (any_online-OnlineAt items plat is (ground (arith, h, gone)))
  | inr (it, at) ↦ elim (Bool-cases (it.plat == plat && it.online)) [
    | inl good ↦ record {
      place = 0;
      pointer = i;
      it = it;
      listed = refl;
      found = at;
      same_plat = ground (arith, good);
      is_online = ground (arith, good);
    }
    | inr bad ↦
        OnlineAt-later items plat i is
          (any_online-OnlineAt items plat is (ground (arith, h, at, bad)))
  ]
]

any_online_iff :
    (items : List Session) (plat : ℕ) (is : List ℕ)
    → (any_online items plat is ≡ true) ↔ OnlineAt items plat is
any_online_iff items plat is = (
  any_online-OnlineAt items plat is,
  λ h. any_online_hit items plat is h.place h.pointer h.it h.listed h.found h.same_plat h.is_online,
)

-- The question with its answer: the flag is 1 for a terminal that is online, and else as it was.
abbrev pub answer_of : SessionTimeout → Bool → SessionTimeout
answer_of msg online = record msg {
  sess = record msg.sess { flag = if online then 1 else msg.sess.flag };
}

-- The topics that Init reads from the configuration, as router/config.ini gives them.
abbrev pub topics : List Bytes
topics =
    codes "userOnlineState"
    ∷ codes "push"
    ∷ codes "callback"
    ∷ codes "msgDownward"
    ∷ codes "sessionTimeout"
    ∷ []

module _ {R : Type 0} (redis : Redis R) (out : RouterOutside) (code : Base64) (texts : Texts) where
  -- The router's dispatchers.
  abbrev pub dispatchers : Consumers → Option (TopicDiscoverer (Served R))
  dispatchers lib = new_topic_discoverer lib topics (on_nsq redis out code texts topics)

  on_timeout-answer :
      (msg : SessionTimeout) (b : Bytes) (s : Served R) (p : ℕ) (st : Storager R)
      → texts.read_timeout b ≡ some msg
      → find_sessions redis s.router.store msg.sess.uid ≡ (some p, st)
      → on_timeout redis out code texts b s ≡ record {
        router = with_store redis s.router st;
        queue =
            s.queue
            ++ (publish code msg.back_topic (
                  texts.write_timeout
                    (answer_of msg (any_online st.items msg.sess.termtype (terminals st p))))
                ∷ []);
      }
  unfolding on_timeout session_timeout session_online
  on_timeout-answer msg b s p st reads found =
      rw (reads, on_timeout) (rw (found, session_online) refl)

  on_nsq-timeout :
      (b : Bytes) (s : Served R)
      → on_nsq redis out code texts topics (codes "sessionTimeout") b s
        ≡ on_timeout redis out code texts b s
  unfolding nsq_handler ◌=ₛ◌
  on_nsq-timeout b s = refl

  -- For a base64 package that reads back what it wrote, consumers that all connect, and a user whom
  -- FindSessions finds: a question that is published on the topic sessionTimeout, as a text that
  -- reads as the question, makes the router publish one message, on the topic that the question
  -- names: the text of the question, with the flag 1 if a terminal of the platform is online among
  -- the user's and the flag of the question otherwise.
  pub receive-timeout :
      (lib : Consumers) (msg : SessionTimeout) (b : Bytes) (s : Served R) (p : ℕ) (st : Storager R)
      → All (IsConnected lib (on_nsq redis out code texts topics)) topics
      → code.decode64 (code.encode64 b) ≡ some b
      → texts.read_timeout b ≡ some msg
      → find_sessions redis s.router.store msg.sess.uid ≡ (some p, st)
      → (d : TopicDiscoverer (Served R)) × (online : Bool) × (dispatchers lib ≡ some d)
        × ((online ≡ true) ↔ OnlineAt st.items msg.sess.termtype (terminals st p))
        × ((receive code d (publish code (codes "sessionTimeout") b) s).queue
            ≡ s.queue
              ++ (publish code msg.back_topic (texts.write_timeout (answer_of msg online)) ∷ []))
  receive-timeout lib msg b s p st connected decodes reads found =
      let (d, made, handed) =
        receive-publish lib (on_nsq redis out code texts topics) code topics 4
          (codes "sessionTimeout") b s connected refl decodes in
      let online = any_online st.items msg.sess.termtype (terminals st p) in
      (
        d,
        online,
        made,
        any_online_iff st.items msg.sess.termtype (terminals st p),
        ap (λ x. x.queue)
            (handed ∙ on_nsq-timeout b s ∙ on_timeout-answer msg b s p st reads found),
      )
