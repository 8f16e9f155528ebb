-- ===== src/Protocol/Codec/RoundTrip.antt =====
-- Decoding undoes encoding and the other way round.
use galopush.Prelude.{ℕ, zero, suc, ◌/◌, Bytes, ◌≡◌, ◌≢◌, some, arith, All, >>=-eq-some}
use galopush.Protocol.Message.{IsByte}
use galopush.Protocol.Codec.{
  even_length, xor_at, mix_up, loop_xor_encode, loop_xor_decode, codec_encode, codec_decode,
}
use galopush.Protocol.Codec.Steps.{
  flip_bits_undo, swap_pairs_undo, xor_at_undo, mix_down-mix_up, mix_up-mix_down,
}

loop_xor_decode-loop_xor_encode :
    (n : ℕ) (b c : Bytes) → n ≢ 1 → loop_xor_encode n b ≡ some c → loop_xor_decode n c ≡ some b
unfolding loop_xor_encode loop_xor_decode
loop_xor_decode-loop_xor_encode zero b c ne e = ground arith
loop_xor_decode-loop_xor_encode (suc last) b c ne e =
    let (m, up, ring) = >>=-eq-some (mix_up last b) _ e in
    ground (arith, xor_at_undo m 0 last c (omega arith) ring, mix_down-mix_up last b m up)

loop_xor_encode-loop_xor_decode :
    (n : ℕ) (b c : Bytes) → n ≢ 1 → loop_xor_decode n b ≡ some c → loop_xor_encode n c ≡ some b
unfolding loop_xor_encode loop_xor_decode
loop_xor_encode-loop_xor_decode zero b c ne e = ground arith
loop_xor_encode-loop_xor_decode (suc last) b c ne e =
    let (m, ring, down) = >>=-eq-some (xor_at b 0 last) _ e in
    ground (arith, xor_at_undo b 0 last m (omega arith) ring, mix_up-mix_down last m c down)

-- Whenever CodecEncode returns a buffer of bytes, CodecDecode with the same length and encoding
-- gives the original buffer back, for every value of the encoding.
pub codec_decode-codec_encode :
    (b : Bytes) (length encode : ℕ) (c : Bytes)
    → All IsByte b
    → codec_encode b length encode ≡ some c
    → codec_decode c length encode ≡ some b
unfolding codec_encode codec_decode
codec_decode-codec_encode b length encode c h e = ground (
  arith,
  flip_bits_undo length b c,
  swap_pairs_undo (even_length length / 2) b c,
  loop_xor_decode-loop_xor_encode length b c,
)

-- Whenever CodecDecode returns a buffer of bytes, CodecEncode with the same length and encoding
-- gives the original buffer back.
pub codec_encode-codec_decode :
    (b : Bytes) (length encode : ℕ) (c : Bytes)
    → All IsByte b
    → codec_decode b length encode ≡ some c
    → codec_encode c length encode ≡ some b
unfolding codec_encode codec_decode
codec_encode-codec_decode b length encode c h e = ground (
  arith,
  flip_bits_undo length b c,
  swap_pairs_undo (even_length length / 2) b c,
  loop_xor_encode-loop_xor_decode length b c,
)
