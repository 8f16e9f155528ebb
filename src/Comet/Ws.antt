-- ===== src/Comet/Ws.antt =====
-- comet/ws.go, handlerWsconn: the loop that reads the messages of a web terminal. The list of what
-- websocket.Message.Receive gives ends with its error; an error or a panic of UnPackJson ends the
-- loop too, and all three run the same defers.
pub mod Forms
use galopush.Prelude.{ℕ, Bytes, List, [], ◌∷◌}
use galopush.Protocol.Message.{Message}
use galopush.Protocol.Json.{JsonLib, Parsed, ok, failed, panicked, unpack_json}

-- The messages for the data channel.
abbrev pub cache_then : Parsed Message → List Message → List Message
cache_then (ok m) rest = m ∷ rest
cache_then failed rest = []
cache_then panicked rest = []

unfoldable pub serve_ws : JsonLib → List Bytes → List Message
serve_ws lib [] = []
serve_ws lib (buf ∷ rest) = cache_then (unpack_json lib buf) (serve_ws lib rest)
