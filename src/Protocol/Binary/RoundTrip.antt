-- ===== src/Protocol/Binary/RoundTrip.antt =====
-- A packed message: a header in clear, and a body that decodes to what was packed.
use galopush.Prelude.{
  ◌<◌, Bytes, [], ◌++◌, ◌≡◌, refl, ap, some, none, arith, Option, length, take, drop, append_assoc,
  All,
}
use galopush.Protocol.Message.{
  Header, AddHeader, Message, resp, register, push, kick, callback, im_up, im_down, header, IsByte,
  IsU32, IsHeader,
}
use galopush.Protocol.Head.{get_encode}
use galopush.Protocol.Codec.{codec_decode}
use galopush.Protocol.Codec.RoundTrip.{codec_decode-codec_encode}
use galopush.Protocol.Codec.Totality.{codec_encode-Keeps, codec_encode-eq-none_iff}
use galopush.Protocol.Binary.{
  big_endian, encode_header, encode_add_header, encode_param_reg, encode_param_push, encode_body,
  pack, pack_binary,
}

-- The body that Pack writes after the two headers, before it is encoded.
unfoldable pub plain_body : Message → Bytes
plain_body (register h a p) = encode_param_reg p
plain_body (push h a p msg) = encode_param_push p ++ msg
plain_body (callback h a msg) = msg
plain_body (im_down h a flag msg) = big_endian 1 flag ++ msg
plain_body (im_up h a msg) = msg
plain_body (resp h a p) = big_endian 1 p.code
plain_body (kick h a reason) = big_endian 1 reason
plain_body (header h) = []

-- What both sides of the wire agree on for a message with the headers `h` and `a`: the fields fit
-- their widths, and the length field is the length of the plain body.
pub record IsFramed (h : Header) (a : AddHeader) (body : Bytes) : Type 0 where
  pub head_fits : IsHeader h
  pub len_fits : IsU32 a.len
  pub exact : a.len ≡ length body
  pub bytes : All IsByte body
  pub no_empty_ring : get_encode h ≡ 3 → 0 < a.len

-- The encoded body of a framed message, with the whole frame.
pub record Frame (h : Header) (a : AddHeader) (body : Bytes) (frame : Bytes) : Type 0 where
  pub wire : Bytes
  pub layout : frame ≡ encode_header h ++ (encode_add_header a ++ wire)
  pub wire_length : length wire ≡ a.len
  pub decodes : codec_decode wire a.len (get_encode h) ≡ some body

-- The nine bytes of the headers stand apart from the body.
split_headers :
    (h : Header) (a : AddHeader) (body : Bytes)
    → let buf = encode_header h ++ (encode_add_header a ++ body) in
      (take 9 buf ≡ encode_header h ++ encode_add_header a) × (drop 9 buf ≡ body)
unfolding encode_header encode_add_header big_endian
split_headers h a body = (refl, refl)

pub encode_body-Frame :
    (h : Header) (a : AddHeader) (body : Bytes)
    → IsFramed h a body
    → (frame : Bytes) × (encode_body h a (encode_header h ++ (encode_add_header a ++ body))
        ≡ some frame)
      × Frame h a body frame
encode_body-Frame h a body v =
    let k =
      codec_encode-Keeps body a.len (get_encode h) v.bytes (omega (arith, v.exact))
        v.no_empty_ring in
    let (front, back) = split_headers h a body in
    (
      encode_header h ++ (encode_add_header a ++ k.out),
      rw (back, front, k.returns)
          (ap some (append_assoc (encode_header h) (encode_add_header a) k.out)),
      record {
        wire = k.out;
        layout = refl;
        wire_length = omega (arith, k.same_length, v.exact);
        decodes = codec_decode-codec_encode body a.len (get_encode h) k.out v.bytes k.returns;
      },
    )

-- The headers of a message that has a body.
abbrev pub head_of : Message → Header
head_of (register h a p) = h
head_of (push h a p msg) = h
head_of (callback h a msg) = h
head_of (im_down h a flag msg) = h
head_of (im_up h a msg) = h
head_of (resp h a p) = h
head_of (kick h a reason) = h
head_of (header h) = h

abbrev pub add_of : Message → AddHeader
add_of (register h a p) = a
add_of (push h a p msg) = a
add_of (callback h a msg) = a
add_of (im_down h a flag msg) = a
add_of (im_up h a msg) = a
add_of (resp h a p) = a
add_of (kick h a reason) = a
add_of (header h) = record { len = 0 }

abbrev pub HasBody : Message → Type 0
HasBody (header h) = ⊥
HasBody m = Unit

-- A message with a body whose headers are framed for it packs to its two headers in clear, and
-- then a body of the announced length which the receiver's CodecDecode turns into the plain body.
pub pack_binary-Frame :
    (m : Message)
    → HasBody m
    → IsFramed (head_of m) (add_of m) (plain_body m)
    → (frame : Bytes) × (pack_binary m ≡ some frame)
      × Frame (head_of m) (add_of m) (plain_body m) frame
unfolding pack_binary plain_body
pack_binary-Frame (register h a p) _ v = encode_body-Frame h a (encode_param_reg p) v
pack_binary-Frame (push h a p msg) _ v = encode_body-Frame h a (encode_param_push p ++ msg) v
pack_binary-Frame (callback h a msg) _ v = encode_body-Frame h a msg v
pack_binary-Frame (im_down h a flag msg) _ v = encode_body-Frame h a (big_endian 1 flag ++ msg) v
pack_binary-Frame (im_up h a msg) _ v = encode_body-Frame h a msg v
pack_binary-Frame (resp h a p) _ v = encode_body-Frame h a (big_endian 1 p.code) v
pack_binary-Frame (kick h a reason) _ v = encode_body-Frame h a (big_endian 1 reason) v
pack_binary-Frame (header h) b v = absurd b

pub pack_binary-header : (h : Header) → pack_binary (header h) ≡ some (encode_header h)
unfolding pack_binary
pack_binary-header h = refl

pub pack-binary : (json : Message → Option Bytes) (m : Message) → pack json m 1 ≡ pack_binary m
unfolding pack
pack-binary json m = refl

-- An empty callback under the ring encoding cannot be packed.
pub pack_binary-callback_empty :
    (h : Header) → get_encode h ≡ 3 → pack_binary (callback h (record { len = 0 }) []) ≡ none
unfolding pack_binary
pack_binary-callback_empty h ring =
    let a : AddHeader = record { len = 0 } in
    let (front, back) = split_headers h a [] in
    let panics = (codec_encode-eq-none_iff [] (get_encode h) tt).1 (ring, refl) in
    rw back (rw panics)
