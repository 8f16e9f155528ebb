-- ===== src/Router/Http.antt =====
-- router/http.go: the address that a terminal is given.
use galopush.Prelude.{ℕ, Bytes, codes, ◌==◌, ◌=ₛ◌, if◌then◌else◌, [], Option, none, some, get_elem?}
use galopush.Protocol.Message.{plat_android, plat_ios, plat_web, plat_winphone, plat_pc}
use galopush.Rds.Defs.{Redis}
use galopush.Rds.Store.{Storager, find_sessions}
use galopush.Rds.Messages.{with_box}
use galopush.Router.Pool.{CometEntry, Pool, find_comet, balancer}

-- The platform that loadDispatcher reads from the form, 0 for an unknown name.
unfoldable pub plat_of : Bytes → ℕ
plat_of s =
    if s =ₛ codes "Android"
    then plat_android
    else if s =ₛ codes "iOS"
    then plat_ios
    else if s =ₛ codes "Web"
    then plat_web
    else if s =ₛ codes "WinPhone"
    then plat_winphone
    else if s =ₛ codes "PC"
    then plat_pc
    else 0

-- The address of a comet that a platform connects to.
abbrev pub address_for : CometEntry → ℕ → Bytes
address_for c plat = if plat == plat_web then c.ws_addr else c.tcp_addr

-- The comet that the balancer assigns, and no address without one.
abbrev pub assigned : Option CometEntry → ℕ → Bytes
assigned none plat = []
assigned (some c) plat = address_for c plat

-- The comet that a user is on, if the router still knows it.
abbrev pub attached : Option CometEntry → Pool → ℕ → Bytes
attached none pool plat = assigned (balancer pool) plat
attached (some c) pool plat = address_for c plat

module _ {R : Type 0} (redis : Redis R) where
  -- balancer of router/http.go: the comet that the user is on, if the router still knows it.
  unfoldable pub address_of_user : Pool → Storager R → Bytes → ℕ → Bytes × Storager R
  address_of_user pool st id plat =
      with_box (find_sessions redis st id) (λ st1. (assigned (balancer pool) plat, st1))
        λ st1 p. elim (get_elem? st1.boxes p) [
          | none ↦ (assigned (balancer pool) plat, st1)
          | some s ↦ (attached (find_comet pool s.comet_id) pool plat, st1)
        ]
