-- ===== src/Counter.antt =====
-- internal/counter/counter.go: counters by name, each with the highest value that it had. A count is
-- an int64, which wraps around.
use galopush.Prelude.{
  ℕ, zero, suc, ◌+◌, ◌<◌, leb, length, Bytes, Bool, if◌then◌else◌, List, [], ◌∷◌, none, some, ◌≡◌,
  refl, sym, subst, arith, Option-cases, Bool-cases, inl, inr,
}
use galopush.Prelude.Assoc.{Assoc, lookup, insert, lookup-insert}
use galopush.Prelude.Int.{ℤ, pos, negsuc, add_one, sub_one, ltz}

pub record Data : Type 0 where
  pub current : ℤ
  pub max : ℤ

abbrev pub Counter : Type 0
Counter = Assoc Data

-- The greatest int64. `negsuc max_int64` is the least.
abbrev pub max_int64 : ℕ
max_int64 = 9223372036854775807

-- `+ 1` and `- 1` of an int64, which wrap around at its ends.
unfoldable pub add_int64 : ℤ → ℤ
add_int64 (pos n) = if leb max_int64 n then negsuc max_int64 else pos (suc n)
add_int64 (negsuc n) = add_one (negsuc n)

unfoldable pub sub_int64 : ℤ → ℤ
sub_int64 (pos n) = sub_one (pos n)
sub_int64 (negsuc n) = if leb max_int64 n then pos max_int64 else negsuc (suc n)

-- NewCounter
abbrev pub new_counter : Counter
new_counter = []

-- `if d.current > d.max { d.max = d.current }`
abbrev pub raise_max : Data → Data
raise_max d = if ltz d.max d.current then record d { max = d.current } else d

-- Add
unfoldable pub add : Counter → Bytes → Counter
add c tp = elim (lookup tp c) [
  | some d ↦ insert tp (raise_max (record d { current = add_int64 d.current })) c
  | none ↦ insert tp (record { current = pos 1; max = pos 1 }) c
]

-- Sub
unfoldable pub sub : Counter → Bytes → Counter
sub c tp = elim (lookup tp c) [
  | some d ↦ insert tp (record d { current = sub_int64 d.current }) c
  | none ↦ c
]

pub data Step : Type 0 where
  added subbed : Bytes → Step

unfoldable pub count : List Step → Counter → Counter
unfolding add sub
count [] c = c
count (added tp ∷ rest) c = count rest (add c tp)
count (subbed tp ∷ rest) c = count rest (sub c tp)

-- No counter is above its maximum.
abbrev pub IsBelowMax : Counter → Type 0
IsBelowMax c = (tp : Bytes) (d : Data) → lookup tp c ≡ some d → ltz d.max d.current ≡ Bool.false

ltz_irrefl : (a : ℤ) → ltz a a ≡ Bool.false
ltz_irrefl (pos n) = ground arith
ltz_irrefl (negsuc n) = ground arith

raise_max_lem : (d : Data) → ltz (raise_max d).max (raise_max d).current ≡ Bool.false
raise_max_lem d = elim (Bool-cases (ltz d.max d.current)) [
  | inl higher ↦ rw higher (ltz_irrefl d.current)
  | inr lower ↦ rw lower lower
]

-- How far from 0 a count is, give or take one.
abbrev size : ℤ → ℕ
size (pos n) = n
size (negsuc n) = n

-- An int64 that so many changes by one leave between its ends.
abbrev pub HasRoom : ℕ → ℤ → Type 0
HasRoom k z = size z + k < max_int64

sub_int64_below : (a b : ℤ) → HasRoom 1 a → ltz b a ≡ Bool.false → ltz b (sub_int64 a) ≡ Bool.false
unfolding sub_int64
sub_int64_below (pos (suc a)) (pos b) r h = ground arith
sub_int64_below (pos zero) (pos b) r h = ground arith
sub_int64_below (pos (suc a)) (negsuc b) r h = ground arith
sub_int64_below (pos zero) (negsuc b) r h = ground arith
sub_int64_below (negsuc a) (pos b) r h = ground arith
sub_int64_below (negsuc a) (negsuc b) r h = ground arith

add_int64-HasRoom : (k : ℕ) (z : ℤ) → HasRoom (suc k) z → HasRoom k (add_int64 z)
unfolding add_int64
add_int64-HasRoom k (pos n) r = ground arith
add_int64-HasRoom k (negsuc zero) r = ground arith
add_int64-HasRoom k (negsuc (suc n)) r = ground arith

sub_int64-HasRoom : (k : ℕ) (z : ℤ) → HasRoom (suc k) z → HasRoom k (sub_int64 z)
unfolding sub_int64
sub_int64-HasRoom k (pos zero) r = ground arith
sub_int64-HasRoom k (pos (suc n)) r = ground arith
sub_int64-HasRoom k (negsuc n) r = ground arith

-- Every count has room for so many changes, a new one too.
abbrev pub AllHaveRoom : ℕ → Counter → Type 0
AllHaveRoom k c =
    (1 + k < max_int64) × ((tp : Bytes) (d : Data) → lookup tp c ≡ some d → HasRoom k d.current)

-- No counter is above its maximum, and all have room for so many changes.
abbrev IsSafe : ℕ → Counter → Type 0
IsSafe k c = IsBelowMax c × AllHaveRoom k c

insert-IsSafe :
    (k : ℕ) (c : Counter) (tp : Bytes) (d : Data)
    → IsSafe (suc k) c
    → ltz d.max d.current ≡ Bool.false
    → HasRoom k d.current
    → IsSafe k (insert tp d c)
insert-IsSafe k c tp d (w, (few, room)) h r = (
  (λ j e found. ground (arith, lookup-insert tp j d c, w j e)),
  (omega (arith, few), λ j e found. ground (arith, lookup-insert tp j d c, room j e)),
)

raise_max-current : (d : Data) → (raise_max d).current ≡ d.current
raise_max-current d = elim (Bool-cases (ltz d.max d.current)) [
  | inl higher ↦ rw higher refl
  | inr lower ↦ rw lower refl
]

add-IsSafe : (k : ℕ) (c : Counter) (tp : Bytes) → IsSafe (suc k) c → IsSafe k (add c tp)
unfolding add
add-IsSafe k c tp w = elim (Option-cases (lookup tp c)) [
  | inl gone ↦
      rw (gone, add)
        (insert-IsSafe k c tp (record { current = pos 1; max = pos 1 }) w refl
          (omega (arith, w.1.0)))
  | inr (d, at) ↦
      let d1 : Data = record d { current = add_int64 d.current } in
      rw (at, add)
        (insert-IsSafe k c tp (raise_max d1) w (raise_max_lem d1) (
          subst (HasRoom k) (sym (raise_max-current d1))
            (add_int64-HasRoom k d.current (w.1.1 tp d at))))
]

sub-IsSafe : (k : ℕ) (c : Counter) (tp : Bytes) → IsSafe (suc k) c → IsSafe k (sub c tp)
unfolding sub
sub-IsSafe k c tp w = elim (Option-cases (lookup tp c)) [
  | inl gone ↦
      rw (gone, sub) (w.0, (omega (arith, w.1.0), λ j e found. omega (arith, w.1.1 j e found)))
  | inr (d, at) ↦
      let room = w.1.1 tp d at in
      rw (at, sub)
        (insert-IsSafe k c tp _ w
          (sub_int64_below d.current d.max (omega (arith, room)) (w.0 tp d at))
          (sub_int64-HasRoom k d.current room))
]

count-IsSafe :
    (k : ℕ) (steps : List Step) (c : Counter)
    → length steps ≡ k
    → IsSafe k c
    → IsSafe 0 (count steps c)
unfolding count
count-IsSafe zero [] c e w = w
count-IsSafe (suc k) [] c e w = absurd (omega (arith, e))
count-IsSafe zero (s ∷ rest) c e w = absurd (omega (arith, e))
count-IsSafe (suc k) (added tp ∷ rest) c e w =
    count-IsSafe k rest (add c tp) (omega (arith, e)) (add-IsSafe k c tp w)
count-IsSafe (suc k) (subbed tp ∷ rest) c e w =
    count-IsSafe k rest (sub c tp) (omega (arith, e)) (sub-IsSafe k c tp w)

-- After any sequence of additions and subtractions from counters that are not above their maximum, no
-- counter is above its maximum, as long as every count stays inside its int64: each has room for as
-- many changes by one as there are steps.
pub count-IsBelowMax :
    (steps : List Step) (c : Counter)
    → IsBelowMax c
    → AllHaveRoom (length steps) c
    → IsBelowMax (count steps c)
count-IsBelowMax steps c w room = (count-IsSafe (length steps) steps c refl (w, room)).0
