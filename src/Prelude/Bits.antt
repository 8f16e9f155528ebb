-- ===== src/Prelude/Bits.antt =====
-- Exclusive or at variables, and the fields of a byte.
use Prim.Native.Nat.{
  ℕ, zero, suc, ◌+◌, ◌*◌, ◌/◌, ◌%◌, ◌^◌, ◌≤◌, ◌<◌, bit_and, bit_or, bit_xor, digits,
  bit_xor-bitwise, differ,
}
use mathlib.Core.Path.{◌≡◌, refl}
use mathlib.Core.Bool.{Bool, true, ◌&&◌}
use native.Mathlib.Nat.{pow-suc}
use native.Mathlib.Omega.{arith}
use galopush.Prelude.Tests.{◌==◌, ==_iff}

abbrev xor_rounds : ℕ → ℕ → ℕ → ℕ
xor_rounds rounds x y = digits (λ y. y) differ rounds x y

-- Rounds beyond the digits of the first number change nothing.
same_rounds : (x y k l : ℕ) → x ≤ l → x ≤ k → xor_rounds k x y ≡ xor_rounds l x y
same_rounds (suc x) y (suc k) (suc l) below under =
    let halves = same_rounds (suc x / 2) (y / 2) k l (omega arith) (omega arith) in
    omega (arith, halves)
same_rounds (suc x) y zero l below under = absurd (omega arith)
same_rounds (suc x) y (suc k) zero below under = absurd (omega arith)
same_rounds zero y (suc k) (suc l) below under = refl
same_rounds zero y (suc k) zero below under = refl
same_rounds zero y zero (suc l) below under = refl
same_rounds zero y zero zero below under = refl

xor_step : (a b : ℕ) → bit_xor a b ≡ bit_xor (a / 2) (b / 2) * 2 + differ (a % 2) (b % 2)
xor_step zero b = simp bit_xor-bitwise (omega arith)
xor_step (suc a) b =
    simp bit_xor-bitwise
      (omega (arith, same_rounds (suc a / 2) (b / 2) a (suc a / 2) (omega arith) (omega arith)))

xor_bit : (x y : ℕ) → x < 2 → y < 2 → differ x y ≡ (x + y) % 2
xor_bit zero zero p q = refl
xor_bit zero (suc zero) p q = refl
xor_bit (suc zero) zero p q = refl
xor_bit (suc zero) (suc zero) p q = refl
xor_bit zero (suc (suc y)) p q = absurd (omega arith)
xor_bit (suc zero) (suc (suc y)) p q = absurd (omega arith)
xor_bit (suc (suc x)) y p q = absurd (omega arith)

-- The lowest digit and the rest of an exclusive or.
xor_parts :
    (a b : ℕ)
    → (bit_xor a b / 2 ≡ bit_xor (a / 2) (b / 2)) × (bit_xor a b % 2 ≡ (a % 2 + b % 2) % 2)
xor_parts a b = omega (arith, xor_step a b, xor_bit (a % 2) (b % 2) (omega arith) (omega arith))

xor_undo_fuel : (n a b : ℕ) → a ≤ n → b ≤ n → bit_xor (bit_xor a b) b ≡ a
xor_undo_fuel zero zero zero p q = refl
xor_undo_fuel zero (suc a) b p q = absurd (omega arith)
xor_undo_fuel zero zero (suc b) p q = absurd (omega arith)
xor_undo_fuel (suc n) a b p q = ground (
  arith,
  xor_parts a b,
  xor_parts (bit_xor a b) b,
  xor_undo_fuel n (a / 2) (b / 2) (omega arith) (omega arith),
)

-- Doing it twice undoes it, at every width.
pub xor_undo : (a b : ℕ) → bit_xor (bit_xor a b) b ≡ a
xor_undo a b = xor_undo_fuel (a + b) a b (omega arith) (omega arith)

xor_fits : (w a b : ℕ) → a < 2 ^ w → b < 2 ^ w → bit_xor a b < 2 ^ w
xor_fits zero zero zero p q = omega arith
xor_fits zero (suc a) b p q = absurd (omega arith)
xor_fits zero zero (suc b) p q = absurd (omega arith)
xor_fits (suc w) a b p q = omega (
  arith,
  pow-suc 2 w,
  xor_parts a b,
  xor_fits w (a / 2) (b / 2) (omega (arith, pow-suc 2 w)) (omega (arith, pow-suc 2 w)),
)

pub xor-lt : (a b : ℕ) → a < 256 → b < 256 → bit_xor a b < 256
xor-lt = xor_fits 8

-- Does a test hold of every number below the bound?
holds_under : (ℕ → Bool) → ℕ → Bool
holds_under test zero = true
holds_under test (suc bound) = let rest = holds_under test bound in rest && test bound

holds_at :
    (test : ℕ → Bool) (bound k : ℕ) → k < bound → holds_under test bound ≡ true → test k ≡ true
unfolding holds_under
holds_at test (suc bound) k inside all = ground (arith, holds_at test bound k)
holds_at test zero k inside all = absurd (omega arith)

low_table : holds_under (λ x. bit_and x 0x3f == x % 64) 256 ≡ true
unfolding holds_under
low_table = refl

high_table : holds_under (λ x. bit_and x 0xc0 == x / 64 * 64) 256 ≡ true
unfolding holds_under
high_table = refl

join_table : holds_under (λ x. bit_or (x / 64 * 64) (x % 64) == x) 256 ≡ true
unfolding holds_under
join_table = refl

swap_table : holds_under (λ x. bit_or (x % 64) (x / 64 * 64) == x) 256 ≡ true
unfolding holds_under
swap_table = refl

-- A byte is two bits above six: the masks of the two parts, and their union.
pub low_bits : (x : ℕ) → x < 256 → bit_and x 0x3f ≡ x % 64
low_bits x h = (==_iff _ _).0 (holds_at _ 256 x h low_table)

pub high_bits : (x : ℕ) → x < 256 → bit_and x 0xc0 ≡ x / 64 * 64
high_bits x h = (==_iff _ _).0 (holds_at _ 256 x h high_table)

pub or_fields :
    (q r : ℕ) → q < 4 → r < 64 → (bit_or (q * 64) r ≡ q * 64 + r) × (bit_or r (q * 64) ≡ q * 64 + r)
or_fields q r hq hr = (
  rw (div_part, mod_part) at ((==_iff _ _).0 (holds_at _ 256 (q * 64 + r) fits join_table)),
  rw (div_part, mod_part) at ((==_iff _ _).0 (holds_at _ 256 (q * 64 + r) fits swap_table)),
)
  where
    fits : q * 64 + r < 256
    fits = omega arith

    div_part : (q * 64 + r) / 64 ≡ q
    div_part = omega arith

    mod_part : (q * 64 + r) % 64 ≡ r
    mod_part = omega arith
