-- ===== src/Examples/Watch.antt =====
-- The watch over a connection at concrete values.
use galopush.Prelude.{codes, true, List, [], ◌∷◌, refl}
use galopush.Router.Rpc.{CometRegister}
use galopush.Router.Pool.{Pool}
use galopush.Router.Watch.{kept, deleted}
use galopush.Comet.Watch.{registered, given_up}
use galopush.Rpc.Watch.{Watch, started, is_down, check_rpc, ping_fails, Steps, here, round, lost}
use galopush.Rpc.Watch.Progress.{IsBalanced, Steps-IsBalanced, IsPinged, Steps-IsPinged}
use galopush.Examples.Router.{two}

-- The router's connection to a comet, whose first ping fails.
abbrev down : Watch Pool
down = record (started two) { status = is_down ∷ [] }

ping_failed : Steps kept (deleted (codes "c1")) (started two) down
unfolding check_rpc ping_fails
ping_failed =
    lost down (round true (record (started two) { status = []; pingers = 1 }) here refl) refl

Steps-IsBalanced_example : IsBalanced down
Steps-IsBalanced_example = Steps-IsBalanced kept (deleted (codes "c1")) two ping_failed

-- A comet's connection to the router, over which it has registered.
abbrev form : CometRegister
form = record {
  comet_id = codes "c1";
  tcp_addr = codes "10.0.0.9:2";
  ws_addr = codes "10.0.0.9:3";
  rpc_addr = codes "10.0.0.9:1";
}

abbrev first : Watch (List CometRegister)
first = started []

abbrev lost_router : Watch (List CometRegister)
lost_router = record first { world = form ∷ []; status = is_down ∷ [] }

router_lost : Steps (registered form) given_up first lost_router
unfolding check_rpc ping_fails
router_lost =
    lost lost_router
      (round true (record first { world = form ∷ []; status = []; pingers = 1 }) here refl) refl

Steps-IsPinged_example :
    (u : Watch (List CometRegister)) × Steps (registered form) given_up lost_router u × IsPinged u
Steps-IsPinged_example = Steps-IsPinged (registered form) given_up [] lost_router router_lost refl
