-- ===== src/Protocol/Codec/Steps.antt =====
-- The loops of the encodings, round by round: each is undone by its counterpart, and none goes out
-- of range while the length fits.
use galopush.Prelude.{
  ℕ, zero, suc, ◌-◌, ◌*◌, ◌≤◌, ◌<◌, bit_xor, Bytes, [], ◌∷◌, Option, some, ◌>>=◌, get_elem?, set,
  ◌≡◌, ◌≢◌, refl, ap, arith, length, All, >>=-eq-some, ◌∙◌, get_elem?-set_self, get_elem?-set_ne,
  get_elem?-lt, lt_of_get_elem?, set-set, set_same, length-set,
}
use galopush.Prelude.Bits.{xor_undo, xor-lt}
use galopush.Protocol.Message.{IsByte}
use galopush.Protocol.Codec.{flip_bits, swap_pairs, xor_at, mix_up, mix_down}

pub flip_bits_undo :
    (n : ℕ) (b c : Bytes) → All IsByte b → flip_bits n b ≡ some c → flip_bits n c ≡ some b
unfolding flip_bits
flip_bits_undo zero b c h e = ground arith
flip_bits_undo (suc n) [] c h e = ground arith
flip_bits_undo (suc n) (x ∷ rest) c h e =
    let (r, good, built) = >>=-eq-some (flip_bits n rest) _ e in
    ground (arith, flip_bits_undo n rest r h.1 good)

pub swap_pairs_undo : (n : ℕ) (b c : Bytes) → swap_pairs n b ≡ some c → swap_pairs n c ≡ some b
unfolding swap_pairs
swap_pairs_undo zero b c e = ground arith
swap_pairs_undo (suc n) [] c e = ground arith
swap_pairs_undo (suc n) (x ∷ []) c e = ground arith
swap_pairs_undo (suc n) (x ∷ y ∷ rest) c e =
    let (r, good, built) = >>=-eq-some (swap_pairs n rest) _ e in
    ground (arith, swap_pairs_undo n rest r good)

-- The two reads behind `b[i] ^= b[j]`.
xor_at_reads :
    (b : Bytes) (i j : ℕ) (c : Bytes)
    → xor_at b i j ≡ some c
    → (x : ℕ) × (y : ℕ) × (get_elem? b i ≡ some x)
      × (get_elem? b j ≡ some y)
      × (c ≡ set b i (bit_xor x y))
unfolding xor_at
xor_at_reads b i j c e =
    let (x, gx, rest) = >>=-eq-some (get_elem? b i) _ e in
    let (y, gy, built) = >>=-eq-some (get_elem? b j) _ rest in (x, y, gx, gy, ground arith)

pub xor_at_undo :
    (b : Bytes) (i j : ℕ) (c : Bytes) → i ≢ j → xor_at b i j ≡ some c → xor_at c i j ≡ some b
unfolding xor_at
xor_at_undo b i j c ne e =
    let (x, y, gx, gy, built) = xor_at_reads b i j c e in
    ground (
      arith,
      get_elem?-set_self b i (bit_xor x y) (lt_of_get_elem? b i x gx),
      get_elem?-set_ne b i j (bit_xor x y) ne,
      xor_undo x y,
      set-set b i (bit_xor x y) x,
      set_same b i x gx,
    )

-- `mix_down` takes the rounds of `mix_up` back, the last one first.
pub mix_down-mix_up : (n : ℕ) (b c : Bytes) → mix_up n b ≡ some c → mix_down n c ≡ some b
unfolding mix_up mix_down
mix_down-mix_up zero b c e = ground arith
mix_down-mix_up (suc i) b c e =
    let (m, up, last) = >>=-eq-some (mix_up i b) _ e in
    ground (arith, xor_at_undo m (suc i) i c (omega arith) last, mix_down-mix_up i b m up)

pub mix_up-mix_down : (n : ℕ) (b c : Bytes) → mix_down n b ≡ some c → mix_up n c ≡ some b
unfolding mix_up mix_down
mix_up-mix_down zero b c e = ground arith
mix_up-mix_down (suc i) b c e =
    let (m, first, down) = >>=-eq-some (xor_at b (suc i) i) _ e in
    ground (arith, xor_at_undo b (suc i) i m (omega arith) first, mix_up-mix_down i m c down)

-- A buffer that a round returns: of the same length, and of bytes again.
pub record Keeps (b : Bytes) (r : Option Bytes) : Type 0 where
  pub out : Bytes
  pub returns : r ≡ some out
  pub same_length : length out ≡ length b
  pub bytes : All IsByte out

All-set : (b : Bytes) (i v : ℕ) → All IsByte b → v < 256 → All IsByte (set b i v)
All-set [] i v h k = h
All-set (x ∷ xs) zero v h k = (k, h.1)
All-set (x ∷ xs) (suc i) v h k = (h.0, All-set xs i v h.1 k)

All-get : (b : Bytes) (i x : ℕ) → All IsByte b → get_elem? b i ≡ some x → x < 256
All-get [] i x h e = ground arith
All-get (y ∷ ys) zero x h e = ground arith
All-get (y ∷ ys) (suc i) x h e = All-get ys i x h.1 e

pub flip_bits-Keeps : (n : ℕ) (b : Bytes) → All IsByte b → n ≤ length b → Keeps b (flip_bits n b)
unfolding flip_bits
flip_bits-Keeps zero b h f = record { out = b; returns = refl; same_length = refl; bytes = h }
flip_bits-Keeps (suc n) [] h f = absurd (omega arith)
flip_bits-Keeps (suc n) (x ∷ rest) h f =
    let k = flip_bits-Keeps n rest h.1 (omega arith) in
    record {
      out = (255 - x) ∷ k.out;
      returns = rw k.returns;
      same_length = ap suc k.same_length;
      bytes = (omega arith, k.bytes);
    }

pub swap_pairs-Keeps :
    (n : ℕ) (b : Bytes) → All IsByte b → 2 * n ≤ length b → Keeps b (swap_pairs n b)
unfolding swap_pairs
swap_pairs-Keeps zero b h f = record { out = b; returns = refl; same_length = refl; bytes = h }
swap_pairs-Keeps (suc n) [] h f = absurd (omega arith)
swap_pairs-Keeps (suc n) (x ∷ []) h f = absurd (omega arith)
swap_pairs-Keeps (suc n) (x ∷ y ∷ rest) h f =
    let k = swap_pairs-Keeps n rest h.1.1 (omega arith) in
    record {
      out = y ∷ x ∷ k.out;
      returns = rw k.returns;
      same_length = omega (arith, k.same_length);
      bytes = (h.1.0, (h.0, k.bytes));
    }

pub xor_at-Keeps :
    (b : Bytes) (i j : ℕ) → All IsByte b → i < length b → j < length b → Keeps b (xor_at b i j)
unfolding xor_at
xor_at-Keeps b i j h hi hj =
    let (x, gx) = get_elem?-lt b i hi in
    let (y, gy) = get_elem?-lt b j hj in
    record {
      out = set b i (bit_xor x y);
      returns = rw (gx, gy);
      same_length = length-set b i (bit_xor x y);
      bytes = All-set b i _ h (xor-lt x y (All-get b i x h gx) (All-get b j y h gy));
    }

-- One round after another.
pub Keeps-bind :
    {b : Bytes} {r : Option Bytes} (f : Bytes → Option Bytes) (k : Keeps b r)
    → Keeps k.out (f k.out)
    → Keeps b (r >>= f)
Keeps-bind f k m = record {
  out = m.out;
  returns = rw k.returns m.returns;
  same_length = m.same_length ∙ k.same_length;
  bytes = m.bytes;
}

pub mix_up-Keeps : (n : ℕ) (b : Bytes) → All IsByte b → n < length b → Keeps b (mix_up n b)
unfolding mix_up
mix_up-Keeps zero b h f = record { out = b; returns = refl; same_length = refl; bytes = h }
mix_up-Keeps (suc i) b h f =
    let k = mix_up-Keeps i b h (omega arith) in
    Keeps-bind (λ b'. xor_at b' (suc i) i) k
      (xor_at-Keeps k.out (suc i) i k.bytes (rw k.same_length f) (rw k.same_length (omega arith)))

pub mix_down-Keeps : (n : ℕ) (b : Bytes) → All IsByte b → n < length b → Keeps b (mix_down n b)
unfolding mix_down
mix_down-Keeps zero b h f = record { out = b; returns = refl; same_length = refl; bytes = h }
mix_down-Keeps (suc i) b h f =
    let k = xor_at-Keeps b (suc i) i h f (omega arith) in
    Keeps-bind (mix_down i) k (mix_down-Keeps i k.out k.bytes (rw k.same_length (omega arith)))
