-- ===== src/Comet/Watch.antt =====
-- checkRpc of comet/comet.go: the comet registers at the router whenever the connection stands, and
-- gives up when the router cannot be dialled again. An error of Register is only logged.
use galopush.Prelude.{Bool, List, [], ◌∷◌, ◌++◌, Option}
use galopush.Router.Rpc.{CometRegister}
use galopush.Rpc.Watch as Watch
use galopush.Rpc.Watch.{Watch as Watched}

-- The registrations that were sent.
abbrev pub registered : CometRegister → List CometRegister → List CometRegister
registered msg sent = sent ++ (msg ∷ [])

abbrev pub given_up : List CometRegister → List CometRegister
given_up sent = sent

abbrev pub check_rpc :
    CometRegister → Bool → Watched (List CometRegister) → Option (Watched (List CometRegister))
check_rpc msg = Watch.check_rpc (registered msg) given_up
