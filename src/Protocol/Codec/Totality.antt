-- ===== src/Protocol/Codec/Totality.antt =====
-- When the encodings return, and when they panic.
use galopush.Prelude.{
  ℕ, zero, suc, ◌/◌, ◌≤◌, ◌<◌, Bytes, ◌==◌, ◌≡◌, ◌≢◌, ◌↔◌, refl, Option, none, some, arith, All,
  length, [], ◌∷◌, Bool-cases, inl, inr, if◌then◌else◌,
}
use galopush.Protocol.Message.{IsByte}
use galopush.Protocol.Codec.{
  flip_bits, swap_pairs, even_length, xor_at, mix_down, loop_xor_encode, loop_xor_decode,
  codec_encode, codec_decode,
}
use galopush.Protocol.Codec.Steps.{
  Keeps, flip_bits-Keeps, swap_pairs-Keeps, xor_at-Keeps, Keeps-bind, mix_up-Keeps, mix_down-Keeps,
}

loop_xor_encode-Keeps :
    (n : ℕ) (b : Bytes) → All IsByte b → 0 < n → n ≤ length b → Keeps b (loop_xor_encode n b)
unfolding loop_xor_encode
loop_xor_encode-Keeps zero b h p f = absurd (omega arith)
loop_xor_encode-Keeps (suc last) b h p f =
    let k = mix_up-Keeps last b h f in
    Keeps-bind (λ b'. xor_at b' 0 last) k
      (xor_at-Keeps k.out 0 last k.bytes (omega (arith, k.same_length))
        (omega (arith, k.same_length)))

loop_xor_decode-Keeps :
    (n : ℕ) (b : Bytes) → All IsByte b → 0 < n → n ≤ length b → Keeps b (loop_xor_decode n b)
unfolding loop_xor_decode
loop_xor_decode-Keeps zero b h p f = absurd (omega arith)
loop_xor_decode-Keeps (suc last) b h p f =
    let k = xor_at-Keeps b 0 last h (omega arith) f in
    Keeps-bind (mix_down last) k (mix_down-Keeps last k.out k.bytes (omega (arith, k.same_length)))

same : (b : Bytes) → All IsByte b → Keeps b (some b)
same b h = record { out = b; returns = refl; same_length = refl; bytes = h }

-- The cases of both switches: the encoding's value, and the length where the ring is concerned.
switch_cases {κ} :
    (P : Option Bytes → Type κ) (n encode : ℕ) (flipped swapped ring plain : Option Bytes)
    → P flipped
    → P swapped
    → (encode ≡ 3 → n ≢ 1 → P ring)
    → P plain
    → P (
        if encode == 1
        then flipped
        else if encode == 2
        then swapped
        else if encode == 3
        then if n == 1 then plain else ring
        else plain)
switch_cases P n encode flipped swapped ring plain f s r p = elim (Bool-cases (encode == 1)) [
  | inl one ↦ rw one f
  | inr not_one ↦ elim (Bool-cases (encode == 2)) [
    | inl two ↦ rw (not_one, two) s
    | inr not_two ↦ elim (Bool-cases (encode == 3)) [
      | inr other ↦ rw (not_one, not_two, other) p
      | inl three ↦ elim (Bool-cases (n == 1)) [
        | inl single ↦ rw (not_one, not_two, three, single) p
        | inr more ↦ rw (not_one, not_two, three, more) (r (ground arith) (ground arith))
      ]
    ]
  ]
]

-- CodecEncode returns a buffer of the same length, of bytes again, if the length lies within the
-- buffer and is not 0 under the ring encoding.
pub codec_encode-Keeps :
    (b : Bytes) (n encode : ℕ)
    → All IsByte b
    → n ≤ length b
    → (encode ≡ 3 → 0 < n)
    → Keeps b (codec_encode b n encode)
unfolding codec_encode
codec_encode-Keeps b n encode h f p =
    switch_cases (Keeps b) n encode _ _ _ _ (flip_bits-Keeps n b h f)
      (swap_pairs-Keeps (even_length n / 2) b h (ground arith))
      (λ three more. loop_xor_encode-Keeps n b h (p three) f) (same b h)

-- CodecDecode returns a buffer of the same length, of bytes again, if the length lies within the
-- buffer and is not 0 under the ring encoding.
pub codec_decode-Keeps :
    (b : Bytes) (n encode : ℕ)
    → All IsByte b
    → n ≤ length b
    → (encode ≡ 3 → 0 < n)
    → Keeps b (codec_decode b n encode)
unfolding codec_decode
codec_decode-Keeps b n encode h f p =
    switch_cases (Keeps b) n encode _ _ _ _ (flip_bits-Keeps n b h f)
      (swap_pairs-Keeps (even_length n / 2) b h (ground arith))
      (λ three more. loop_xor_decode-Keeps n b h (p three) f) (same b h)

encode_of_empty_panics : (encode : ℕ) → codec_encode [] 0 encode ≡ none → encode ≡ 3
unfolding codec_encode flip_bits swap_pairs loop_xor_encode
encode_of_empty_panics encode e = ground arith

ring_of_empty : (encode : ℕ) → encode ≡ 3 → codec_encode [] 0 encode ≡ none
unfolding codec_encode flip_bits swap_pairs loop_xor_encode
ring_of_empty encode e = ground arith

-- Encoding a whole body of bytes, as Pack does, panics exactly when the body is empty and the
-- encoding is the ring of exclusive ors.
pub codec_encode-eq-none_iff :
    (b : Bytes) (encode : ℕ)
    → All IsByte b
    → (codec_encode b (length b) encode ≡ none) ↔ ((encode ≡ 3) × (b ≡ []))
codec_encode-eq-none_iff [] encode h =
    (λ e. (encode_of_empty_panics encode e, refl), λ e. ring_of_empty encode e.0)
codec_encode-eq-none_iff (x ∷ xs) encode h = (
  λ e.
      let k =
        codec_encode-Keeps (x ∷ xs) (suc (length xs)) encode h (omega arith) (λ _. omega arith) in
      ground (arith, k.returns),
  λ e. ground arith,
)
