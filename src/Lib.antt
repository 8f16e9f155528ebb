-- ===== src/Lib.antt =====
-- A model of galopush, a push server in Go, and proofs about it. Terminals hold a TCP or websocket
-- connection to a comet. A router takes messages from the business side over NSQ, looks up in Redis
-- on which comet a user is, and hands the messages to that comet over RPC; the comet packs them, and
-- stores what no terminal answers. Comets report registrations and ends of connections to the router.
--
--   Protocol   internal/protocol. Message holds the constants and structures of protocol.go, Head
--              the header bits and Binary the structures and packBinary of binary.go, Codec the four
--              encodings of code.go. A panic is `none`. Codec/RoundTrip, Codec/Totality,
--              Binary/Words and Binary/RoundTrip hold the proofs. Json is json.go, the form of the web
--              terminals' messages, with its round trips in Json/RoundTrip.
--   Comet      comet/. Tcp is handleTcpConn of tcp.go with readTimeout of util.go, on the list of
--              segments that arrive. Session is a session with its transactions and State the pool
--              and what surrounds it (session.go); Ident the session keys. Downlink is rpcdo.go, with
--              Kick, and Offline for offmsg.go; Uplink is socketdo.go; Ws is ws.go; Receive is the
--              way from the segments of a connection to the handlers. Routes says which handlers
--              leave the pool as it is. Apns is apns.go, with the pushes that Downlink hands to
--              it. Sessions stand on a heap, since handlers share them by
--              pointer; one ends as `finished`, or as `panicked` with the state that recover keeps.
--   Rds        internal/rds. Defs is def.go; Store and Messages are rds.go, with the shallow copies
--              of FindSessions on a heap of boxes, and the terminals, which stay shared, on another.
--              Mailbox is what the store promises for one terminal, and Mailbox/Interleaving for many.
--   Router     router/. Pool is pool.go, Rpc is procRpc.go, Http is the choice of an address in
--              http.go. Nsq and Login are procNsq.go with nsqMsgDef.go: messages downward, and the
--              login of a user with its loop over a slice that it shortens, on the backing array.
--              Handler is NsqHandler, which chooses among these by the topic, Exit the goroutine of
--              router.go that clears a comet that is gone, and Watch is checkRpc.
--   Rpc        internal/rpc: the server with its channel, of at least one place, as a step
--              relation, and what the client makes of an answer. Watch is the client's heartbeat and
--              reconnection with the loop of checkRpc, which router and comet (comet/comet.go, in
--              Comet/Watch) both have.
--              Router/Dispatch and Comet/Dispatch are the handles of the two programs.
--   Nsq        internal/nsq/nsq.go: the queue in base64, and the dispatchers of the topics.
--   Ua         ua/android/android.go, the terminal on TCP that the repository brings.
--   System     a login at the router followed by a registration at a comet, from the bytes on; in
--              Answer a callback that the Android terminal answers, in Notice what becomes of the
--              pushes that a login makes.
--   OldStores  internal/redisstore and internal/mgostore, the two stores that internal/rds has taken the
--              place of: RedisStore and MgoStore hold their operations, Views what these do to the
--              messages of each user; Equivalence and Repeats compare the two.
--   Counter    internal/counter/counter.go.
--   Prelude    shared names, lemmas and the association lists that stand for Go maps. Their order is
--              the order of a range, and the theorems hold for every order.
--   Examples   the theorems at concrete values.
--
-- Integers are natural numbers, with the conversions to 8, 16 and 32 bits written out; the loads of
-- comets, which can fall below 0, are integers without bounds, and the counters are integers that
-- wrap around as int64 does. The decimal digits of a platform
-- use one round more than its value, which is enough for its digits. The TCP loop runs on fuel, for
-- which one round more than there are unread bytes is enough.
--
-- Parameters stand for what is not in the repository: Redis (with its JSON documents), MongoDB,
-- encoding/json and encoding/base64, the connections' writes, the NSQ and APNs clients, and where one
-- program is looked at by itself the other side of the RPC. The package galopush/protocol of the
-- Android terminal, which is not there, is one too; internal/protocol takes its place. Mutexes make
-- an operation one step. The goroutine of a transaction takes part as the steps `answer` and `expire`;
-- Comet/Session/Check has it action by action, with what may come between, and these two as its
-- undisturbed runs. Only an answer between saveTransaction and checkTrans is left out.
--
-- Not modelled: the second checkRpc that a comet gets when it registers again, configuration, logging,
-- statistics and start-up, and the other test programs: ua/bench is the Android terminal many times
-- over, ua/web uses structures that no package of the repository has, and test/ and pushProducer/ only
-- call libraries.
pub mod Prelude
pub mod Protocol
pub mod Nsq
pub mod Comet
pub mod Ua
pub mod Rds
pub mod Router
pub mod Rpc
pub mod System
pub mod OldStores
pub mod Counter
pub mod Examples
