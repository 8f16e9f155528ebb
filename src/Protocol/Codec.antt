-- ===== src/Protocol/Codec.antt =====
-- internal/protocol/code.go: the four encodings of a message body. A slice is a list; a function
-- changes the first `length` bytes in place and returns the buffer, and `none` is the panic of an
-- index out of range.
pub mod Steps
pub mod RoundTrip
pub mod Totality
use galopush.Prelude.{
  ℕ, zero, suc, ◌-◌, ◌*◌, ◌/◌, ◌%◌, bit_xor, Bytes, Bool, [], ◌∷◌, ◌==◌, if◌then◌else◌, Option,
  none, some, ◌>>=◌, get_elem?, set,
}
use galopush.Protocol.Message.{encode_bit_not, encode_byte_rvs, encode_loop_xor}

-- `for i := 0; i < length; i++ { b[i] = ^b[i] }`, from the front of what is left of the slice.
unfoldable pub flip_bits : ℕ → Bytes → Option Bytes
flip_bits zero b = some b
flip_bits (suc n) [] = none
flip_bits (suc n) (x ∷ rest) = do rest' ← flip_bits n rest; some ((255 - x) ∷ rest')

-- `for i := 0; i < length; i = i + 2 { b[i], b[i+1] = b[i+1], b[i] }`, with the pairs left to swap.
pub swap_pairs : ℕ → Bytes → Option Bytes
swap_pairs zero b = some b
swap_pairs (suc n) [] = none
swap_pairs (suc n) (x ∷ []) = none
swap_pairs (suc n) (x ∷ y ∷ rest) = do rest' ← swap_pairs n rest; some (y ∷ x ∷ rest')

-- `if length%2 != 0 { length = length - 1 }`
abbrev pub even_length : ℕ → ℕ
even_length length = if length % 2 == 0 then length else length - 1

-- `b[i] ^= b[j]`
unfoldable pub xor_at : Bytes → ℕ → ℕ → Option Bytes
xor_at b i j = do x ← get_elem? b i; y ← get_elem? b j; some (set b i (bit_xor x y))

-- The first n rounds of `for i := 0; i < length-1; i++ { b[i+1] ^= b[i] }`.
unfoldable pub mix_up : ℕ → Bytes → Option Bytes
mix_up zero b = some b
mix_up (suc i) b = do b' ← mix_up i b; xor_at b' (suc i) i

-- `for i := length - 1; i > 0; i-- { b[i] ^= b[i-1] }`, from round i on.
unfoldable pub mix_down : ℕ → Bytes → Option Bytes
mix_down zero b = some b
mix_down (suc i) b = do b' ← xor_at b (suc i) i; mix_down i b'

-- With `length` 0 the loop is empty and `b[length-1]` is out of range.
unfoldable pub loop_xor_encode : ℕ → Bytes → Option Bytes
loop_xor_encode zero b = none
loop_xor_encode (suc last) b = do b' ← mix_up last b; xor_at b' 0 last

unfoldable pub loop_xor_decode : ℕ → Bytes → Option Bytes
loop_xor_decode zero b = none
loop_xor_decode (suc last) b = do b' ← xor_at b 0 last; mix_down last b'

unfoldable pub codec_encode : Bytes → ℕ → ℕ → Option Bytes
codec_encode b length encode =
    if encode == encode_bit_not
    then flip_bits length b
    else if encode == encode_byte_rvs
    then swap_pairs (even_length length / 2) b
    else if encode == encode_loop_xor
    then if length == 1 then some b else loop_xor_encode length b
    else some b

unfoldable pub codec_decode : Bytes → ℕ → ℕ → Option Bytes
codec_decode b length encode =
    if encode == encode_bit_not
    then flip_bits length b
    else if encode == encode_byte_rvs
    then swap_pairs (even_length length / 2) b
    else if encode == encode_loop_xor
    then if length == 1 then some b else loop_xor_decode length b
    else some b
