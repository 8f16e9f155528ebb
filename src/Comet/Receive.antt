-- ===== src/Comet/Receive.antt =====
-- handleTcpConn of comet/tcp.go and handleMessage of comet/socketdo.go together: what the segments of
-- one connection do to a comet when one goroutine takes its messages from the data channel.
use galopush.Prelude.{ℕ, List, [], ◌∷◌}
use galopush.Protocol.Message.{Message}
use galopush.Comet.Session.{Conn}
use galopush.Comet.State.{OfflineStore, Outside, Comet, state_of}
use galopush.Comet.Tcp.{Segments, serve}
use galopush.Comet.Uplink.{proc_trans}

module _ {S : Type 0} (out : Outside) (store : OfflineStore S) where
  -- The rounds of handleMessage; procTrans recovers from a panic.
  unfoldable pub handle_messages : Conn → List Message → Comet S → Comet S
  handle_messages conn [] c = c
  handle_messages conn (m ∷ rest) c =
      handle_messages conn rest (state_of (proc_trans out store conn m c))

  unfoldable pub receive : ℕ → Conn → Segments → Comet S → Comet S
  unfolding handle_messages
  receive fuel conn s c = handle_messages conn (serve fuel s) c
