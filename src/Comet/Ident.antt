-- ===== src/Comet/Ident.antt =====
-- `fmt.Sprintf("%s-%d", id, plat)`, the key of a user's session on one platform.
use galopush.Prelude.{
  ℕ, zero, suc, ◌+◌, ◌-◌, ◌*◌, ◌/◌, ◌%◌, ◌≤◌, ◌<◌, Bytes, [], ◌∷◌, ◌++◌, ltb, if◌then◌else◌, ◌≡◌,
  refl, sym, ap, subst, ◌∙◌, arith, All, All-append, Bool-cases, inl, inr,
}

-- Decimal digits; `n + 1` rounds are more than `n` has digits.
unfoldable pub decimal_rounds : ℕ → ℕ → Bytes
decimal_rounds zero n = []
decimal_rounds (suc fuel) n =
    let front = decimal_rounds fuel (n / 10) in
    if ltb n 10 then (b'0' + n) ∷ [] else front ++ ((b'0' + n % 10) ∷ [])

unfoldable pub decimal : ℕ → Bytes
unfolding decimal_rounds
decimal n = decimal_rounds (suc n) n

unfoldable pub session_key : Bytes → ℕ → Bytes
unfolding decimal
session_key id plat = id ++ (b'-' ∷ decimal plat)

read_decimal : ℕ → Bytes → ℕ
read_decimal acc [] = acc
read_decimal acc (c ∷ cs) = read_decimal (acc * 10 + (c - 48)) cs

read_decimal-append :
    (acc : ℕ) (cs : Bytes) (c : ℕ)
    → read_decimal acc (cs ++ (c ∷ [])) ≡ read_decimal acc cs * 10 + (c - 48)
unfolding read_decimal
read_decimal-append acc [] c = refl
read_decimal-append acc (d ∷ cs) c = read_decimal-append (acc * 10 + (d - 48)) cs c

read_decimal-decimal_rounds : (f n : ℕ) → n < f → read_decimal 0 (decimal_rounds f n) ≡ n
unfolding decimal_rounds
read_decimal-decimal_rounds zero n h = absurd (omega arith)
read_decimal-decimal_rounds (suc f) n h = elim (Bool-cases (ltb n 10)) [
  | inl one ↦ rw one (unfold read_decimal in omega arith)
  | inr more ↦ rw more (
      ground (
        arith,
        read_decimal-append 0 (decimal_rounds f (n / 10)) (48 + n % 10),
        read_decimal-decimal_rounds f (n / 10),
      ))
]

-- No digit is a dash.
abbrev IsDigit : ℕ → Type 0
IsDigit c = 48 ≤ c

decimal_rounds-digits : (f n : ℕ) → All IsDigit (decimal_rounds f n)
unfolding decimal_rounds
decimal_rounds-digits zero n = tt
decimal_rounds-digits (suc f) n = elim (Bool-cases (ltb n 10)) [
  | inl one ↦ rw one (omega arith, tt)
  | inr more ↦ rw more (
      All-append IsDigit (decimal_rounds f (n / 10)) ((48 + n % 10) ∷ [])
        (decimal_rounds-digits f (n / 10)) (omega arith, tt))
]

no_dash : (xs es : Bytes) → All IsDigit (xs ++ (45 ∷ es)) → ⊥
no_dash [] es h = omega arith
no_dash (x ∷ xs) es h = no_dash xs es h.1

split_dash :
    (xs ys ds es : Bytes)
    → All IsDigit ds
    → All IsDigit es
    → xs ++ (45 ∷ ds) ≡ ys ++ (45 ∷ es)
    → (xs ≡ ys) × (ds ≡ es)
split_dash [] [] ds es p q e = (refl, ground arith)
split_dash [] (y ∷ ys) ds es p q e =
    let tails : ds ≡ ys ++ (45 ∷ es) = ground arith in
    absurd (no_dash ys es (subst (All IsDigit) tails p))
split_dash (x ∷ xs) [] ds es p q e =
    let tails : es ≡ xs ++ (45 ∷ ds) = ground arith in
    absurd (no_dash xs ds (subst (All IsDigit) tails q))
split_dash (x ∷ xs) (y ∷ ys) ds es p q e =
    let (front, back) = split_dash xs ys ds es p q (ground arith) in (ground arith, back)

decimal-injective : (m n : ℕ) → decimal m ≡ decimal n → m ≡ n
unfolding decimal
decimal-injective m n e =
    sym (read_decimal-decimal_rounds (suc m) m (omega arith))
    ∙ ap (read_decimal 0) e
    ∙ read_decimal-decimal_rounds (suc n) n (omega arith)

-- Two pairs of a user and a platform never share a key, whatever bytes the user names hold, dashes
-- and digits included.
pub session_key-injective :
    (a b : Bytes) (p q : ℕ) → session_key a p ≡ session_key b q → (a ≡ b) × (p ≡ q)
unfolding session_key
session_key-injective a b p q e =
    let (names, digits) =
      split_dash a b (decimal p) (decimal q) (decimal_rounds-digits (suc p) p)
        (decimal_rounds-digits (suc q) q) e in
    (names, decimal-injective p q digits)
