-- ===== src/Protocol/Json/RoundTrip.antt =====
-- What a text of json.go is read back as.
use galopush.Prelude.{
  ℕ, ◌%◌, ◌^◌, ◌<◌, ◌≡◌, ◌≢◌, ◌⊎◌, refl, ◌∙◌, Bytes, codes, ◌=ₛ◌, [], ◌∷◌, some, length, All, arith,
}
use galopush.Prelude.Int.{pos}
use galopush.Protocol.Message.{Header, AddHeader, ParamResp, resp, IsByte, IsU32}
use galopush.Protocol.Head.{
  fields_of_line, get_msg_type, get_encode, get_msg_type-set_msg_type, get_encode-set_encode,
  set_msg_type, set_encode,
}
use galopush.Protocol.Codec.RoundTrip.{codec_decode-codec_encode}
use galopush.Protocol.Codec.Totality.{codec_encode-Keeps}
use galopush.Protocol.Json.{
  num, Fields, JsonLib, ok, value_at, document, web_header, unpack_cmd, unpack_fields, encode,
  decode, pack_json, unpack_json,
}

positive : (b : Bytes) → b ≢ [] → 0 < length b
positive [] h = absurd (h refl)
positive (x ∷ b) h = omega arith

-- The header that UnPackJson makes carries the command and the number, and asks for no encoding.
pub web_header_lem :
    (cmd tid : ℕ)
    → cmd < 64
    → IsU32 tid
    → (get_msg_type (web_header cmd (pos tid)) ≡ cmd)
      × (get_encode (web_header cmd (pos tid)) ≡ 0)
      × ((web_header cmd (pos tid)).tid ≡ tid)
unfolding web_header
web_header_lem cmd tid small fits =
    let zero_header : Header = record { line = 0; tid = 0 } in
    let typed = get_msg_type-set_msg_type zero_header cmd (omega arith) small in
    let plain = set_encode (set_msg_type zero_header cmd) 0 in
    let coded = get_encode-set_encode (set_msg_type zero_header cmd) 0 typed.3 (omega arith) in
    let same = fields_of_line plain (tid % 2 ^ 32) in
    (same.0 ∙ coded.1 ∙ typed.0, same.1 ∙ coded.0, omega arith)

-- What encoding/json promises for a document of valid texts: bytes, not empty, that are read back.
pub record Marshals (lib : JsonLib) (f : Fields) : Type 0 where
  pub bytes : All IsByte (lib.marshal f)
  pub some_text : lib.marshal f ≢ []
  pub reads : lib.unmarshal (lib.marshal f) ≡ some f

module _ (lib : JsonLib) (reads64 : (b : Bytes) → lib.decode64 (lib.encode64 b) ≡ some b) where
  -- Decode undoes Encode on every text of bytes that is not empty, where base64 is read back.
  pub decode-encode :
      (b : Bytes)
      → All IsByte b
      → b ≢ []
      → (c : Bytes) × (encode lib b ≡ some c) × (decode lib c ≡ ok b)
  unfolding encode decode
  decode-encode b bytes some_text =
      let kept =
        codec_encode-Keeps b (length b) 3 bytes (omega arith) (λ e. positive b some_text) in
      (
        lib.encode64 kept.out,
        rw (kept.returns, encode) refl,
        rw (reads64 kept.out) (
            rw kept.same_length
              (rw (codec_decode-codec_encode b (length b) 3 kept.out bytes kept.returns) refl)),
      )

  -- A document that went through Encode reaches the switch of UnPackJson as it was.
  pub unpack_json-encode :
      (f : Fields)
      → Marshals lib f
      → (c : Bytes) × (encode lib (lib.marshal f) ≡ some c) × (unpack_json lib c ≡ unpack_fields f)
  unfolding unpack_json
  unpack_json-encode f good =
      let (c, packs, reads) = decode-encode (lib.marshal f) good.bytes good.some_text in
      (c, packs, rw (reads) (rw (good.reads) refl))

  -- An answer that packJson packs comes back from UnPackJson: an answer of the same type, under the
  -- same number, with the same code, and with no encoding in its header.
  pub unpack_json-pack_json :
      (h : Header) (a : AddHeader) (p : ParamResp)
      → (get_msg_type h ≡ 6)
        ⊎ ((get_msg_type h ≡ 8) ⊎ ((get_msg_type h ≡ 10) ⊎ (get_msg_type h ≡ 12)))
      → IsU32 h.tid
      → IsByte p.code
      → Marshals lib (document h (codes "code") (num (pos p.code)))
      → (c : Bytes) × (h' : Header) × (pack_json lib (resp h a p) ≡ some c)
        × (unpack_json lib c ≡ ok (resp h' (record { len = 1 }) p))
        × (get_msg_type h' ≡ get_msg_type h)
        × (get_encode h' ≡ 0)
        × (h'.tid ≡ h.tid)
  unfolding pack_json unpack_fields unpack_cmd value_at ◌=ₛ◌
  unpack_json-pack_json h a p kind number code good =
      let (c, packs, reads) =
        unpack_json-encode (document h (codes "code") (num (pos p.code))) good in
      let head = web_header_lem (get_msg_type h) h.tid (ground (arith, kind)) number in
      (
        c,
        web_header (get_msg_type h) (pos h.tid),
        packs,
        reads ∙ ground (arith, kind, code),
        head.0,
        head.1,
        head.2,
      )
