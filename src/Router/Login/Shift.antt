-- ===== src/Router/Login/Shift.antt =====
-- The slice of terminals when a terminal is cut out of it in place, and when one is appended.
use galopush.Prelude.{
  ℕ, zero, suc, ◌<◌, ◌≤◌, List, [], ◌∷◌, some, length, get_elem?, take, ◌≡◌, refl, arith,
}
use galopush.Router.Login.{shift_down, put_end}

pub length-shift_down : (i len : ℕ) (xs : List ℕ) → length (shift_down i len xs) ≡ length xs
unfolding shift_down
length-shift_down i len [] = refl
length-shift_down zero zero (x ∷ xs) = refl
length-shift_down zero (suc zero) (x ∷ xs) = refl
length-shift_down zero (suc (suc len)) (x ∷ []) = refl
length-shift_down zero (suc (suc len)) (x ∷ y ∷ xs) =
    let rest = length-shift_down zero (suc len) (y ∷ xs) in omega arith
length-shift_down (suc i) zero (x ∷ xs) = refl
length-shift_down (suc i) (suc len) (x ∷ xs) = let rest = length-shift_down i len xs in omega arith

-- In front of the cut nothing moves.
pub shift_down-before :
    (i len : ℕ) (xs : List ℕ) (k : ℕ) → k < i → get_elem? (shift_down i len xs) k ≡ get_elem? xs k
unfolding shift_down
shift_down-before i len [] k lt = refl
shift_down-before zero len (x ∷ xs) k lt = ground arith
shift_down-before (suc i) zero (x ∷ xs) k lt = refl
shift_down-before (suc i) (suc len) (x ∷ xs) zero lt = refl
shift_down-before (suc i) (suc len) (x ∷ xs) (suc k) lt = shift_down-before i len xs k (omega arith)

-- Behind the cut everything moves down by one, up to the end of the slice.
pub shift_down-behind :
    (i len : ℕ) (xs : List ℕ) (k : ℕ)
    → i ≤ k
    → suc k < len
    → len ≤ length xs
    → get_elem? (shift_down i len xs) k ≡ get_elem? xs (suc k)
unfolding shift_down
shift_down-behind i len [] k le lt bound = ground arith
shift_down-behind zero zero (x ∷ xs) k le lt bound = ground arith
shift_down-behind zero (suc zero) (x ∷ xs) k le lt bound = ground arith
shift_down-behind zero (suc (suc len)) (x ∷ []) k le lt bound = ground arith
shift_down-behind zero (suc (suc len)) (x ∷ y ∷ xs) zero le lt bound = refl
shift_down-behind zero (suc (suc len)) (x ∷ y ∷ xs) (suc k) le lt bound =
    shift_down-behind zero (suc len) (y ∷ xs) k (omega arith) (omega arith) (omega arith)
shift_down-behind (suc i) zero (x ∷ xs) k le lt bound = ground arith
shift_down-behind (suc i) (suc len) (x ∷ xs) zero le lt bound = ground arith
shift_down-behind (suc i) (suc len) (x ∷ xs) (suc k) le lt bound =
    shift_down-behind i len xs k (omega arith) (omega arith) (omega arith)

-- What is appended stands at the end of the longer slice.
pub put_end-end :
    (p len : ℕ) (xs : List ℕ) → len ≤ length xs → get_elem? (put_end p len xs) len ≡ some p
unfolding put_end
put_end-end p zero [] bound = refl
put_end-end p (suc len) [] bound = ground arith
put_end-end p zero (x ∷ xs) bound = refl
put_end-end p (suc len) (x ∷ xs) bound = put_end-end p len xs (omega arith)

pub get_elem?-take : (n k : ℕ) (xs : List ℕ) → k < n → get_elem? (take n xs) k ≡ get_elem? xs k
get_elem?-take zero k xs lt = ground arith
get_elem?-take (suc n) k [] lt = refl
get_elem?-take (suc n) zero (x ∷ xs) lt = refl
get_elem?-take (suc n) (suc k) (x ∷ xs) lt = get_elem?-take n k xs (omega arith)

-- Nothing comes into the array that was not there.
pub shift_down-among :
    (i len : ℕ) (xs : List ℕ) (k j : ℕ)
    → get_elem? (shift_down i len xs) k ≡ some j
    → (m : ℕ) × (get_elem? xs m ≡ some j)
unfolding shift_down
shift_down-among i len [] k j at = ground arith
shift_down-among zero zero (x ∷ xs) k j at = (k, at)
shift_down-among zero (suc zero) (x ∷ xs) k j at = (k, at)
shift_down-among zero (suc (suc len)) (x ∷ []) k j at = (k, at)
shift_down-among zero (suc (suc len)) (x ∷ y ∷ xs) zero j at = (1, at)
shift_down-among zero (suc (suc len)) (x ∷ y ∷ xs) (suc k) j at =
    let (m, there) = shift_down-among zero (suc len) (y ∷ xs) k j at in (suc m, there)
shift_down-among (suc i) zero (x ∷ xs) k j at = (k, at)
shift_down-among (suc i) (suc len) (x ∷ xs) zero j at = (0, at)
shift_down-among (suc i) (suc len) (x ∷ xs) (suc k) j at =
    let (m, there) = shift_down-among i len xs k j at in (suc m, there)

-- Behind the end of the shorter slice nothing changes.
pub shift_down-after :
    (i len : ℕ) (xs : List ℕ) (k : ℕ)
    → len ≤ suc k
    → get_elem? (shift_down i len xs) k ≡ get_elem? xs k
unfolding shift_down
shift_down-after i len [] k le = refl
shift_down-after zero zero (x ∷ xs) k le = refl
shift_down-after zero (suc zero) (x ∷ xs) k le = refl
shift_down-after zero (suc (suc len)) (x ∷ []) k le = refl
shift_down-after zero (suc (suc len)) (x ∷ y ∷ xs) zero le = absurd (omega arith)
shift_down-after zero (suc (suc len)) (x ∷ y ∷ xs) (suc k) le =
    shift_down-after zero (suc len) (y ∷ xs) k (omega arith)
shift_down-after (suc i) zero (x ∷ xs) k le = refl
shift_down-after (suc i) (suc len) (x ∷ xs) zero le = refl
shift_down-after (suc i) (suc len) (x ∷ xs) (suc k) le = shift_down-after i len xs k (omega arith)
