-- ===== src/Examples/Wire.antt =====
-- The header, the encodings and the frames, at concrete messages.
use galopush.Prelude.{◌≡◌, ◌↔◌, refl, Bytes, [], ◌∷◌, none, some, length, All, arith}
use galopush.Protocol.Message.{callback, encode_loop_xor, IsByte}
use galopush.Protocol.Codec.{
  codec_encode, codec_decode, loop_xor_encode, loop_xor_decode, mix_up, mix_down, xor_at,
}
use galopush.Protocol.Codec.RoundTrip.{codec_decode-codec_encode}
use galopush.Protocol.Codec.Totality.{codec_encode-eq-none_iff}
use galopush.Protocol.Binary.{pack_binary}
use galopush.Protocol.Binary.RoundTrip.{plain_body, Frame, pack_binary-Frame}
use galopush.Examples.Data.{callback_head, long}

-- Five bytes under the ring of exclusive ors.
abbrev five : Bytes
five = 10 ∷ 20 ∷ 30 ∷ 40 ∷ 255 ∷ []

five_bytes : All IsByte five
five_bytes = (omega arith, (omega arith, (omega arith, (omega arith, (omega arith, tt)))))

abbrev ringed : Bytes
ringed = 221 ∷ 30 ∷ 0 ∷ 40 ∷ 215 ∷ []

five-ringed : codec_encode five 5 3 ≡ some ringed
unfolding codec_encode loop_xor_encode mix_up xor_at
five-ringed = refl

five-unringed : codec_decode five 5 3 ≡ some (245 ∷ 225 ∷ 10 ∷ 54 ∷ 215 ∷ [])
unfolding codec_decode loop_xor_decode mix_down xor_at
five-unringed = refl

codec_decode-codec_encode_example : codec_decode ringed 5 3 ≡ some five
codec_decode-codec_encode_example = codec_decode-codec_encode five 5 3 ringed five_bytes five-ringed

codec_encode-eq-none_iff_example :
    (codec_encode five (length five) 3 ≡ none) ↔ ((encode_loop_xor ≡ 3) × (five ≡ []))
codec_encode-eq-none_iff_example = codec_encode-eq-none_iff five 3 five_bytes

-- A callback under the ring encoding.
pack_binary-Frame_example :
    (frame : Bytes) × (pack_binary (callback callback_head (long 5) five) ≡ some frame)
    × Frame callback_head (long 5) five frame
unfolding plain_body
pack_binary-Frame_example = pack_binary-Frame (callback callback_head (long 5) five) tt (record {
  head_fits = record { line_fits = omega arith; tid_fits = omega arith };
  len_fits = omega arith;
  exact = refl;
  bytes = five_bytes;
  no_empty_ring = λ e. omega arith;
})
