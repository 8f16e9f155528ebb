-- ===== src/Examples/Router.antt =====
-- The router's pool and calls, and a counter, at concrete values.
use galopush.Prelude.{ℕ, ◌≡◌, ◌↔◌, ◌=ₛ◌, refl, Bytes, codes, List, [], ◌∷◌, some, arith}
use galopush.Prelude.Assoc.{lookup}
use galopush.Rds.Store.{Storager, find_sessions, copy_box}
use galopush.Rds.Messages.{terminals}
use galopush.Comet.State.{StateNotify}
use galopush.Prelude.Int.{pos}
use galopush.Router.Pool.{CometEntry, Pool, balancer}
use galopush.Router.Pool.Balance.{IsLeast, balancer-IsLeast}
use galopush.Router.Rpc.{Router, Code, AuthRequest, auth, state_notify}
use galopush.Router.Rpc.Auth.{Admits, auth_iff}
use galopush.Router.Rpc.Notify.{is_listed, visited, IsLowered, state_notify-subs}
use galopush.Counter.{Step, count, new_counter, IsBelowMax, AllHaveRoom, count-IsBelowMax}
use galopush.Examples.Data.{alice, secret, redis, RedisState, storage, alice_box}

abbrev pub comet : Bytes → ℕ → CometEntry
comet id n = record {
  id = id;
  rpc_addr = codes "10.0.0.9:1";
  tcp_addr = codes "10.0.0.9:2";
  ws_addr = codes "10.0.0.9:3";
  online = pos n;
}

abbrev pub two : Pool
two = (codes "c1", comet (codes "c1") 7) ∷ (codes "c2", comet (codes "c2") 4) ∷ []

balancer-IsLeast_example : (d : CometEntry) × (balancer two ≡ some d) × IsLeast d two
balancer-IsLeast_example =
    balancer-IsLeast two (λ e. ground (arith, e)) ((6, refl), ((3, refl), tt))

abbrev pub router : Router RedisState
router = record {
  store = storage;
  pool = two;
  dials = 0;
  publications = 0;
  published = [];
  calls = [];
}

-- What FindSessions leaves behind: a second copy of Alice's box.
abbrev pub copied_once : Storager RedisState
copied_once = record storage { boxes = alice_box ∷ alice_box ∷ [] }

pub alice_found : find_sessions redis router.store alice ≡ (some 1, copied_once)
unfolding find_sessions copy_box lookup ◌=ₛ◌
alice_found = refl

abbrev login : AuthRequest
login = record { id = alice; plat = 1; code = secret }

auth_iff_example :
    ((auth redis login router).0 ≡ Code.rpc_ret_success)
    ↔ Admits login copied_once.items (terminals copied_once 1)
auth_iff_example = auth_iff redis login router 1 copied_once alice_found

abbrev pub leaves : StateNotify
leaves = record { id = alice; plat = 1; token = secret; comet_id = codes "c1"; state = 0 }

state_notify-subs_example :
    ((state_notify redis leaves router).store.cli ≡ storage.cli)
    × IsLowered
        (visited leaves copied_once.items (terminals copied_once 1))
        (codes "c1")
        two
        (state_notify redis leaves router).pool
unfolding is_listed terminals ◌=ₛ◌
state_notify-subs_example =
    state_notify-subs redis leaves router 1 copied_once refl alice_found refl

abbrev steps : List Step
steps = Step.added alice ∷ Step.added alice ∷ Step.subbed alice ∷ []

new_counter_below : IsBelowMax new_counter
unfolding lookup
new_counter_below tp d h = ground (arith, h)

new_counter_room : AllHaveRoom 3 new_counter
unfolding lookup
new_counter_room = (omega arith, λ tp d h. ground (arith, h))

count-IsBelowMax_example : IsBelowMax (count steps new_counter)
count-IsBelowMax_example = count-IsBelowMax steps new_counter new_counter_below new_counter_room
