-- ===== src/Router/Pool.antt =====
-- router/pool.go: the comets that the router knows, and the choice of one by load.
pub mod Balance
use galopush.Prelude.{
  ℕ, zero, suc, Bytes, Bool, true, false, ltb, if◌then◌else◌, List, [], ◌∷◌, Option, none, some,
}
use galopush.Prelude.Int.{ℤ, pos, negsuc, add_one, sub_one, is_zero, ltz}
use galopush.Prelude.Assoc.{Assoc, lookup, insert, delete}

-- `comet`; its RPC client and its channel are the address that they serve.
pub record CometEntry : Type 0 where
  pub id : Bytes
  pub rpc_addr : Bytes
  pub tcp_addr : Bytes
  pub ws_addr : Bytes
  pub online : ℤ

abbrev pub Pool : Type 0
Pool = Assoc CometEntry

-- insertComet, findComet, deleteComet
abbrev pub insert_comet : Pool → Bytes → CometEntry → Pool
insert_comet p id c = insert id c p

abbrev pub find_comet : Pool → Bytes → Option CometEntry
find_comet p id = lookup id p

abbrev pub delete_comet : Pool → Bytes → Pool
delete_comet p id = delete id p

-- A change of the count of a comet, if the pool has it.
unfoldable pub change_online : (ℤ → ℤ) → Pool → Bytes → Pool
change_online f p id = elim (lookup id p) [
  | none ↦ p
  | some c ↦ insert id (record c { online = f c.online }) p
]

-- cometAdd, cometSub
abbrev pub comet_add : Pool → Bytes → Pool
comet_add = change_online add_one

abbrev pub comet_sub : Pool → Bytes → Pool
comet_sub = change_online sub_one

-- One round of balancer's loop over `minLoad` and `c`.
abbrev pub first_choice : ℤ → Option CometEntry → CometEntry → ℤ × Option CometEntry
first_choice min_load c v = if is_zero min_load then (v.online, some v) else (min_load, c)

abbrev pub lower_choice : ℤ × Option CometEntry → CometEntry → ℤ × Option CometEntry
lower_choice (min_load, c) v = if ltz v.online min_load then (v.online, some v) else (min_load, c)

unfoldable pub balance : Pool → ℤ × Option CometEntry → Option CometEntry
balance [] (min_load, c) = c
balance ((id, v) ∷ rest) (min_load, c) = balance rest (lower_choice (first_choice min_load c v) v)

-- balancer
unfoldable pub balancer : Pool → Option CometEntry
unfolding balance
balancer p = balance p (pos 0, none)
