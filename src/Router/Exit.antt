-- ===== src/Router/Exit.antt =====
-- The goroutine that Start of router/router.go begins: a comet that is gone leaves the pool, and its
-- users go offline. Nothing in the repository sends on the channel that it reads.
use galopush.Prelude.{ℕ, Bytes, false, ◌=ₛ◌, if◌then◌else◌, none, some, get_elem?, ◌≡◌}
use galopush.Prelude.Assoc.{lookup, lookup-delete}
use galopush.Rds.Defs.{Sessions, Redis}
use galopush.Rds.Messages.{session_online, offline_comet}
use galopush.Rds.Exit.{offline_if, on_comet, offline_comet-Round, offline_comet-session_online}
use galopush.Router.Pool.{find_comet, delete_comet}
use galopush.Router.Rpc.{Router}

module _ {R : Type 0} (redis : Redis R) where
  -- `case id := <-p.cometExit`
  unfoldable pub comet_exit : Bytes → Router R → Router R
  comet_exit id r = record r {
    pool = delete_comet r.pool id;
    store = offline_comet redis r.store id;
  }

  -- After the exit of a comet the router does not know it, and every other comet as before; a
  -- terminal whose pointer is in a cached box on that comet is offline, and every other terminal as
  -- it was; and a question whether a cached user on that comet is online is answered no, for every
  -- platform.
  pub comet_exit-session_online :
      (r : Router R) (id : Bytes) (p : ℕ) (s : Sessions)
      → lookup id r.store.mem_store ≡ some p
      → get_elem? r.store.boxes p ≡ some s
      → let r1 = comet_exit s.comet_id r in
        ((d : Bytes)
          → find_comet r1.pool d ≡ (if s.comet_id =ₛ d then none else find_comet r.pool d))
        × ((i : ℕ)
            → get_elem? r1.store.items i
              ≡ offline_if
                  (on_comet s.comet_id r.store.boxes r.store.mem_store i)
                  (get_elem? r.store.items i))
        × ((plat : ℕ) → (session_online redis r1.store id plat).0 ≡ false)
  unfolding comet_exit
  comet_exit-session_online r id p s cached at = (
    λ d. lookup-delete s.comet_id d r.pool,
    (offline_comet-Round redis s.comet_id r.store).items,
    λ plat. offline_comet-session_online redis r.store id plat p s cached at,
  )
