-- ===== src/Router/Pool/Balance.antt =====
-- Which comet the router's balancer chooses.
use galopush.Prelude.{
  ℕ, zero, suc, ◌≤◌, Bytes, Bool, true, false, if◌then◌else◌, [], ◌∷◌, Option, none, some, ◌≡◌, ◌≢◌,
  refl, ap, ◌∙◌, arith, Bool-cases, inl, inr, All, Option-cases, same_refl, same_iff,
}
use galopush.Prelude.Assoc.{lookup, insert, lookup-insert}
use galopush.Prelude.Int.{ℤ, amount, pos, negsuc, add_one, sub_one, ltz}
use galopush.Router.Pool.{
  CometEntry, Pool, comet_add, comet_sub, change_online, balance, balancer, first_choice,
  lower_choice,
}

-- A comet with a connection, as an entry of the pool.
abbrev pub IsBusy : CometEntry → Type 0
IsBusy c = (n : ℕ) × (c.online ≡ pos (suc n))

-- No comet of a pool has a lower load than this one.
abbrev pub IsLeast : CometEntry → Pool → Type 0
IsLeast c p = All (λ kv. amount c.online ≤ amount kv.1.online) p

-- One round over a busy comet keeps the lower load of the two.
choice-IsBusy :
    (c v : CometEntry)
    → IsBusy c
    → IsBusy v
    → (d : CometEntry) × (lower_choice (first_choice c.online (some c) v) v ≡ (d.online, some d))
      × IsBusy d
      × (amount d.online ≤ amount c.online)
      × (amount d.online ≤ amount v.online)
choice-IsBusy c v (m, cm) (n, vn) = elim (Bool-cases (ltz v.online c.online)) [
  | inl lower ↦
      (v, ground (arith, cm, vn, lower), (n, vn), ground (arith, cm, vn, lower), omega arith)
  | inr same ↦ (c, ground (arith, cm, vn, same), (m, cm), omega arith, ground (arith, cm, vn, same))
]

balance-IsLeast :
    (p : Pool) (c : CometEntry)
    → IsBusy c
    → All (λ kv. IsBusy kv.1) p
    → (d : CometEntry) × (balance p (c.online, some c) ≡ some d)
      × (amount d.online ≤ amount c.online)
      × IsLeast d p
unfolding balance
balance-IsLeast [] c busy all = (c, refl, omega arith, tt)
balance-IsLeast ((k, v) ∷ p) c busy all =
    let (d, step, d_busy, d_c, d_v) = choice-IsBusy c v busy all.0 in
    let (e, found, e_d, least) = balance-IsLeast p d d_busy all.1 in
    (e, ap (balance p) step ∙ found, omega arith, (omega arith, least))

same_choice :
    (v : CometEntry) (b : Bool)
    → ◌≡◌ {A = ℤ × Option CometEntry}
        (if b then (v.online, some v) else (v.online, some v))
        (v.online, some v)
same_choice v true = refl
same_choice v false = refl

-- In a pool whose comets all have connections, the balancer chooses a comet, and none has a lower
-- load.
pub balancer-IsLeast :
    (p : Pool)
    → p ≢ []
    → All (λ kv. IsBusy kv.1) p
    → (d : CometEntry) × (balancer p ≡ some d) × IsLeast d p
unfolding balancer balance
balancer-IsLeast [] some_comet all = absurd (some_comet refl)
balancer-IsLeast ((k, v) ∷ p) some_comet all =
    let (d, found, d_v, least) = balance-IsLeast p v all.0 all.1 in
    (d, ap (balance p) (same_choice v (ltz v.online v.online)) ∙ found, (d_v, least))

-- With two comets the first of which has no connection, the second is chosen, whatever its load.
pub balancer_idle :
    (i j : Bytes) (a b : CometEntry) → a.online ≡ pos 0 → balancer ((i, a) ∷ (j, b) ∷ []) ≡ some b
unfolding balancer balance
balancer_idle i j a b idle = rw idle (ap (λ r. r.1) (same_choice b (ltz b.online b.online)))

sub_one-add_one : (z : ℤ) → sub_one (add_one z) ≡ z
sub_one-add_one (pos n) = refl
sub_one-add_one (negsuc zero) = refl
sub_one-add_one (negsuc (suc n)) = refl

change_online-found :
    (f : ℤ → ℤ) (p : Pool) (id : Bytes) (c : CometEntry)
    → lookup id p ≡ some c
    → change_online f p id ≡ insert id (record c { online = f c.online }) p
unfolding change_online
change_online-found f p id c found = rw (found, change_online) refl

change_online-absent :
    (f : ℤ → ℤ) (p : Pool) (id : Bytes) → lookup id p ≡ none → change_online f p id ≡ p
unfolding change_online
change_online-absent f p id gone = rw (gone, change_online) refl

-- A connection that is counted and then taken away leaves the router with the same comets and loads,
-- also for a comet that it does not know.
pub comet_sub-comet_add :
    (p : Pool) (id k : Bytes) → lookup k (comet_sub (comet_add p id) id) ≡ lookup k p
comet_sub-comet_add p id k = elim (Option-cases (lookup id p)) [
  | inl gone ↦
      rw (change_online-absent add_one p id gone) (rw (change_online-absent sub_one p id gone) refl)
  | inr (c, found) ↦
      let more : CometEntry = record c { online = add_one c.online } in
      let again : lookup id (insert id more p) ≡ some more =
        lookup-insert id id more p ∙ (rw (same_refl id) refl) in
      rw (change_online-found add_one p id c found) (
        rw (change_online-found sub_one (insert id more p) id more again) (
          ground (
            arith,
            lookup-insert id k more p,
            lookup-insert id k (record more { online = sub_one (add_one c.online) })
                (insert id more p),
            sub_one-add_one c.online,
            same_iff id k,
            found,
          )))
]
