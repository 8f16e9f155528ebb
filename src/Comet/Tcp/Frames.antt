-- ===== src/Comet/Tcp/Frames.antt =====
-- A packed message that arrives in one segment, whatever follows it, is read back as it was.
use galopush.Prelude.{
  ℕ, suc, ◌-◌, ◌≤◌, ◌<◌, Bytes, [], ◌∷◌, ◌++◌, ◌≡◌, ◌≢◌, refl, sym, ap, ◌∙◌, some, arith, length,
  take-append, drop-append, append-nil, append_assoc, ◌⊎◌, inl, inr, ltb, false,
}
use galopush.Protocol.Message.{
  Header, AddHeader, ParamResp, ParamReg, Message, resp, register, push, kick, callback, im_up,
  im_down, header, IsU32, IsHeader, IsParamReg,
}
use galopush.Protocol.Head.{get_msg_type, get_encode}
use galopush.Protocol.Codec.{codec_decode}
use galopush.Protocol.Binary.{
  encode_header, encode_add_header, encode_param_reg, big_endian, pack_binary,
}
use galopush.Protocol.Binary.Words.{
  length-encode_header, length-encode_add_header, decode_header_exact, decode_add_header_exact,
  length-big_endian, length-encode_param_reg, decode_param_resp_exact, decode_param_reg_exact,
}
use galopush.Protocol.Binary.RoundTrip.{
  plain_body, IsFramed, Frame, head_of, add_of, HasBody, pack_binary-Frame, pack_binary-header,
}
use galopush.Comet.Tcp.{
  Segments, remain, read_timeout, read_resp, read_register, read_im, read_body, read_rest,
  read_frame, max_msg_len,
}

no_padding : (k : ℕ) → k - k ≡ 0
no_padding k = omega arith

-- One Read takes exactly the bytes asked for when they lie in the segment at hand.
pub read_exactly :
    (xs rest : Bytes) (s : Segments) (n : ℕ)
    → n ≡ length xs
    → read_timeout n (remain (xs ++ rest) s) ≡ some (record { buffer = xs; rest = remain rest s })
unfolding read_timeout
read_exactly [] rest s n e = rw e
read_exactly (x ∷ xs) rest s n e =
    rw (e, take-append xs rest, drop-append xs rest, no_padding (suc (length xs)), append-nil xs)
      refl

-- The messages that a terminal sends with a body, with the type that each header must carry. The
-- length of an instant message is bounded by the code; the others have a fixed length.
abbrev pub IsUpward : Message → Type 0
IsUpward (resp h a p) =
    ((get_msg_type h ≡ 6) ⊎ ((get_msg_type h ≡ 8) ⊎ (get_msg_type h ≡ 10))) × (p.code < 256)
IsUpward (register h a p) = (get_msg_type h ≡ 1) × IsParamReg p
IsUpward (im_up h a msg) = (get_msg_type h ≡ 9) × (a.len ≤ max_msg_len)
IsUpward _ = ⊥

module _ (h : Header) (a : AddHeader) (wire rest : Bytes) (s : Segments)
    (long : a.len ≡ length wire) where
  read_resp-frame :
      (p : ParamResp)
      → codec_decode wire a.len (get_encode h) ≡ some (big_endian 1 p.code)
      → p.code < 256
      → read_resp h a (remain (wire ++ rest) s)
        ≡ some (record { cached = some (resp h a p); stream = remain rest s })
  unfolding read_resp
  read_resp-frame p good fits =
      rw (read_exactly wire rest s a.len long) (rw good (rw (decode_param_resp_exact p.code fits)))

  read_register-frame :
      (p : ParamReg)
      → codec_decode wire a.len (get_encode h) ≡ some (encode_param_reg p)
      → IsParamReg p
      → read_register h a (remain (wire ++ rest) s)
        ≡ some (record { cached = some (register h a p); stream = remain rest s })
  unfolding read_register
  read_register-frame p good fits =
      rw (read_exactly wire rest s a.len long) (rw good (rw (decode_param_reg_exact p fits)))

  read_im-frame :
      (msg : Bytes)
      → codec_decode wire a.len (get_encode h) ≡ some msg
      → read_im h a (remain (wire ++ rest) s)
        ≡ some (record { cached = some (im_up h a msg); stream = remain rest s })
  unfolding read_im
  read_im-frame msg good = rw (read_exactly wire rest s a.len long) (rw good)

read_rest-header :
    (h : Header) (a : AddHeader) (body : Bytes) (s : Segments)
    → IsU32 a.len
    → a.len ≤ max_msg_len
    → read_rest h (remain (encode_add_header a ++ body) s) ≡ read_body h a (remain body s)
unfolding read_rest
read_rest-header h a body s fits small =
    let bounded : ltb max_msg_len a.len ≡ false = ground arith in
    rw (read_exactly (encode_add_header a) body s 4 (sym (length-encode_add_header a)))
      (rw (decode_add_header_exact a fits) (rw bounded))

-- The fixed header of a frame is read back; what comes next depends on its type alone.
read_frame-header :
    (h : Header) (body : Bytes) (s : Segments)
    → IsHeader h
    → 0 < get_msg_type h
    → get_msg_type h < 64
    → get_msg_type h ≢ 3
    → read_frame (remain (encode_header h ++ body) s) ≡ read_rest h (remain body s)
unfolding read_frame
read_frame-header h body s fits pos top other =
    rw (read_exactly (encode_header h) body s 5 (sym (length-encode_header h)))
      (rw (decode_header_exact h fits) (ground arith))

-- A heartbeat is read back from its fixed header alone.
read_frame-heartbeat :
    (h : Header) (rest : Bytes) (s : Segments)
    → IsHeader h
    → get_msg_type h ≡ 3
    → read_frame (remain (encode_header h ++ rest) s)
      ≡ some (record { cached = some (header h); stream = remain rest s })
unfolding read_frame
read_frame-heartbeat h rest s fits beat =
    rw (read_exactly (encode_header h) rest s 5 (sym (length-encode_header h)))
      (rw (decode_header_exact h fits) (rw beat))

pub regroup : (x y wire rest : Bytes) → (x ++ (y ++ wire)) ++ rest ≡ x ++ (y ++ (wire ++ rest))
regroup x y wire rest = simp append_assoc

-- Both headers of a frame are read back, and the switch meets the encoded body.
read_frame-headers :
    (h : Header) (a : AddHeader) (body frame : Bytes) (f : Frame h a body frame) (rest : Bytes)
    (s : Segments)
    → IsFramed h a body
    → a.len ≤ max_msg_len
    → 0 < get_msg_type h
    → get_msg_type h < 64
    → get_msg_type h ≢ 3
    → read_frame (remain (frame ++ rest) s) ≡ read_body h a (remain (f.wire ++ rest) s)
read_frame-headers h a body frame f rest s v small pos top other =
    ap (λ b. read_frame (remain (b ++ rest) s)) f.layout
    ∙ ap (λ b. read_frame (remain b s))
        (regroup (encode_header h) (encode_add_header a) f.wire rest)
    ∙ read_frame-header h (encode_add_header a ++ (f.wire ++ rest)) s v.head_fits pos top other
    ∙ read_rest-header h a (f.wire ++ rest) s v.len_fits small

read_body-resp :
    (h : Header) (a : AddHeader) (s : Segments)
    → (get_msg_type h ≡ 6) ⊎ ((get_msg_type h ≡ 8) ⊎ (get_msg_type h ≡ 10))
    → read_body h a s ≡ read_resp h a s
unfolding read_body
read_body-resp h a s (inl e) = rw e
read_body-resp h a s (inr (inl e)) = rw e
read_body-resp h a s (inr (inr e)) = rw e

read_body-register :
    (h : Header) (a : AddHeader) (s : Segments)
    → get_msg_type h ≡ 1
    → read_body h a s ≡ read_register h a s
unfolding read_body
read_body-register h a s e = rw e

read_body-im :
    (h : Header) (a : AddHeader) (s : Segments)
    → get_msg_type h ≡ 9
    → read_body h a s ≡ read_im h a s
unfolding read_body
read_body-im h a s e = rw e

-- The type of an upward message lies in the range of the first test.
type_range :
    (t : ℕ) → (t ≡ 6) ⊎ ((t ≡ 8) ⊎ (t ≡ 10)) ⊎ (t ≡ 1) ⊎ (t ≡ 9) → (0 < t) × (t < 64) × (t ≢ 3)
type_range t h = ground arith

read_frame-Frame :
    (m : Message) (rest : Bytes) (s : Segments) (frame : Bytes)
    → IsUpward m
    → IsFramed (head_of m) (add_of m) (plain_body m)
    → Frame (head_of m) (add_of m) (plain_body m) frame
    → read_frame (remain (frame ++ rest) s)
      ≡ some (record { cached = some m; stream = remain rest s })
unfolding plain_body
read_frame-Frame (resp h a p) rest s frame (t, fits) v f =
    let (pos, top, other) = type_range (get_msg_type h) (ground arith) in
    read_frame-headers h a (big_endian 1 p.code) frame f rest s v
      (omega (arith, v.exact, length-big_endian 1 p.code)) pos top other
    ∙ read_body-resp h a (remain (f.wire ++ rest) s) t
    ∙ read_resp-frame h a f.wire rest s (sym f.wire_length) p f.decodes fits
read_frame-Frame (register h a p) rest s frame (t, fits) v f =
    let (pos, top, other) = type_range (get_msg_type h) (ground arith) in
    read_frame-headers h a (encode_param_reg p) frame f rest s v
      (omega (arith, v.exact, length-encode_param_reg p fits)) pos top other
    ∙ read_body-register h a (remain (f.wire ++ rest) s) t
    ∙ read_register-frame h a f.wire rest s (sym f.wire_length) p f.decodes fits
read_frame-Frame (push h a p msg) rest s frame up v f = absurd up
read_frame-Frame (kick h a r) rest s frame up v f = absurd up
read_frame-Frame (callback h a msg) rest s frame up v f = absurd up
read_frame-Frame (im_down h a g msg) rest s frame up v f = absurd up
read_frame-Frame (header h) rest s frame up v f = absurd up
read_frame-Frame (im_up h a msg) rest s frame (t, small) v f =
    let (pos, top, other) = type_range (get_msg_type h) (ground arith) in
    read_frame-headers h a msg frame f rest s v small pos top other
    ∙ read_body-im h a (remain (f.wire ++ rest) s) t
    ∙ read_im-frame h a f.wire rest s (sym f.wire_length) msg f.decodes

-- What a terminal may send: a heartbeat, or an upward message whose headers are framed for it.
abbrev pub IsSendable : Message → Type 0
IsSendable (header h) = IsHeader h × (get_msg_type h ≡ 3)
IsSendable m = IsUpward m × IsFramed (head_of m) (add_of m) (plain_body m)

-- The frame of a message, and how a round of the server's loop reads it.
pub record Received (m : Message) : Type 0 where
  pub frame : Bytes
  pub packs : pack_binary m ≡ some frame
  pub reads :
      (rest : Bytes) (s : Segments)
      → read_frame (remain (frame ++ rest) s)
        ≡ some (record { cached = some m; stream = remain rest s })

Received-upward :
    (m : Message)
    → HasBody m
    → IsUpward m
    → IsFramed (head_of m) (add_of m) (plain_body m)
    → Received m
Received-upward m b up v =
    let (frame, packs, f) = pack_binary-Frame m b v in
    record {
      frame = frame;
      packs = packs;
      reads = λ rest s. read_frame-Frame m rest s frame up v f;
    }

-- A message that a terminal may send packs to a frame which, arriving in one segment with anything
-- behind it, puts that very message on the data channel and leaves exactly what is behind it.
pub IsSendable-Received : (m : Message) → IsSendable m → Received m
IsSendable-Received (resp h a p) (up, v) = Received-upward (resp h a p) tt up v
IsSendable-Received (register h a p) (up, v) = Received-upward (register h a p) tt up v
IsSendable-Received (im_up h a msg) (up, v) = Received-upward (im_up h a msg) tt up v
IsSendable-Received (header h) (v, beat) = record {
  frame = encode_header h;
  packs = pack_binary-header h;
  reads = λ rest s. read_frame-heartbeat h rest s v beat;
}
IsSendable-Received (push h a p msg) (up, v) = absurd up
IsSendable-Received (kick h a r) (up, v) = absurd up
IsSendable-Received (callback h a msg) (up, v) = absurd up
IsSendable-Received (im_down h a g msg) (up, v) = absurd up
