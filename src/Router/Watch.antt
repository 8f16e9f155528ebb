-- ===== src/Router/Watch.antt =====
-- checkRpc of router/procRpc.go: the router deletes a comet from its pool when it cannot be dialled
-- again.
use galopush.Prelude.{Bytes, Bool, Option}
use galopush.Router.Pool.{Pool, delete_comet}
use galopush.Rpc.Watch as Watch
use galopush.Rpc.Watch.{Watch as Watched}

abbrev pub kept : Pool → Pool
kept pool = pool

abbrev pub deleted : Bytes → Pool → Pool
deleted id pool = delete_comet pool id

abbrev pub check_rpc : Bytes → Bool → Watched Pool → Option (Watched Pool)
check_rpc id = Watch.check_rpc kept (deleted id)
