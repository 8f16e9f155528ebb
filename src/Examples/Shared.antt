-- ===== src/Examples/Shared.antt =====
-- Alice's phone and Bob's in one store.
use galopush.Prelude.{
  ℕ, zero, suc, Bytes, codes, List, [], ◌∷◌, some, get_elem?, ◌≡◌, ◌≢◌, ◌=ₛ◌, refl, subst, arith,
}
use galopush.Prelude.Assoc.{lookup}
use galopush.Rds.Defs.{Session}
use galopush.Rds.Store.{Storager, first_plat}
use galopush.Rds.Mailbox.{
  Mailbox, put_push, put_callback, put_im, take_push, take_callbacks, take_ims, mailbox,
}
use galopush.Rds.Mailbox.Refinement.{Stands}
use galopush.Rds.Mailbox.Interleaving.{
  Terminal, Turn, AreApart, AllStand, turns, store_turns, store_turns-turns,
}
use galopush.Examples.Data.{alice, alice_phone, alice_box, redis, RedisState, storage}

abbrev bob : Bytes
bob = codes "bob"

abbrev bob_phone : Session
bob_phone = record alice_phone { id = bob; plat = 2 }

abbrev shared : Storager RedisState
shared = record storage {
  boxes = alice_box ∷ (record { id = bob; comet_id = codes "c2"; sess = 1 ∷ [] }) ∷ [];
  items = alice_phone ∷ bob_phone ∷ [];
  mem_store = (alice, 0) ∷ (bob, 1) ∷ [];
}

abbrev at_alice : Terminal
at_alice = record { id = alice; plat = 1; places = 0 ∷ []; place = 0 }

abbrev at_bob : Terminal
at_bob = record { id = bob; plat = 2; places = 1 ∷ []; place = 1 }

abbrev row : List Terminal
row = at_alice ∷ at_bob ∷ []

abbrev boxes : List Mailbox
boxes = mailbox alice_phone ∷ mailbox bob_phone ∷ []

some_injective : (t u : Terminal) → some t ≡ some u → t ≡ u
some_injective t u e = cc

-- Two numbers name different users.
AreApart_pair :
    (a b t u : Terminal)
    → some a ≡ some t
    → some b ≡ some u
    → (a.id ≢ b.id) × (a.place ≢ b.place)
    → (t.id ≢ u.id) × (t.place ≢ u.place)
AreApart_pair a b t u e f h =
    subst (λ x. (x.id ≢ u.id) × (x.place ≢ u.place)) (some_injective a t e)
      (subst (λ x. (a.id ≢ x.id) × (a.place ≢ x.place)) (some_injective b u f) h)

row-AreApart : AreApart row
row-AreApart zero zero t u e f ne = absurd (ne refl)
row-AreApart zero (suc zero) t u e f ne =
    AreApart_pair at_alice at_bob t u e f ((λ h. cc), (λ h. omega arith))
row-AreApart (suc zero) zero t u e f ne =
    AreApart_pair at_bob at_alice t u e f ((λ h. cc), (λ h. omega arith))
row-AreApart (suc zero) (suc zero) t u e f ne = absurd (ne refl)
row-AreApart zero (suc (suc m)) t u e f ne = absurd (cc)
row-AreApart (suc zero) (suc (suc m)) t u e f ne = absurd (cc)
row-AreApart (suc (suc k)) m t u e f ne = absurd (cc)

abbrev Stood : ℕ → Terminal → Type 0
Stood k t =
    (b : Mailbox) × (get_elem? boxes k ≡ some b)
    × Stands redis t.id t.plat shared t.places t.place b

alice_stands : Stood 0 at_alice
unfolding lookup ◌=ₛ◌ first_plat
alice_stands = (
  mailbox alice_phone,
  refl,
  record {
    it = alice_phone;
    holds = record {
      sees = record {
        ptr = 0;
        box = alice_box;
        cached = refl;
        stored = refl;
        named = refl;
        lists = refl;
      };
      first = refl;
      at = refl;
    };
    view = refl;
  },
)

bob_stands : Stood 1 at_bob
unfolding lookup ◌=ₛ◌ first_plat
bob_stands = (
  mailbox bob_phone,
  refl,
  record {
    it = bob_phone;
    holds = record {
      sees = record {
        ptr = 1;
        box = record { id = bob; comet_id = codes "c2"; sess = 1 ∷ [] };
        cached = refl;
        stored = refl;
        named = refl;
        lists = refl;
      };
      first = refl;
      at = refl;
    };
    view = refl;
  },
)

shared-AllStand : AllStand redis row shared boxes
shared-AllStand zero t e = subst (Stood 0) (some_injective at_alice t e) alice_stands
shared-AllStand (suc zero) t e = subst (Stood 1) (some_injective at_bob t e) bob_stands
shared-AllStand (suc (suc k)) t e = absurd (cc)

-- They take turns.
abbrev taken : List Turn
taken =
    (record { number = 0; op = put_callback (codes "b") })
    ∷ (record { number = 1; op = put_im (codes "y") })
    ∷ (record { number = 0; op = take_callbacks })
    ∷ (record { number = 1; op = take_ims })
    ∷ (record { number = 1; op = put_push (codes "p") })
    ∷ (record { number = 0; op = take_push })
    ∷ []

store_turns-turns_example :
    ((store_turns redis row taken shared).0 ≡ (turns taken boxes).0)
    × AllStand redis row (store_turns redis row taken shared).1 (turns taken boxes).1
store_turns-turns_example =
    store_turns-turns redis row taken shared boxes row-AreApart shared-AllStand (
      (at_alice, refl),
      (
        (at_bob, refl),
        ((at_alice, refl), ((at_bob, refl), ((at_bob, refl), ((at_alice, refl), tt)))),
      ),
    )
