-- ===== src/Ua/Android/Reading.antt =====
-- What the Android terminal makes of the frames of a comet, when its protocol package is that of the
-- repository.
use galopush.Prelude.{
  ℕ, suc, ◌+◌, ◌^◌, ◌<◌, Bytes, Bool, true, [], ◌∷◌, ◌++◌, ◌≡◌, refl, sym, ap, ◌∙◌, some, arith,
  ◌⊎◌, inl, inr,
}
use galopush.Protocol.Message.{Header, AddHeader, Message, resp, callback, IsHeader}
use galopush.Protocol.Head.{
  get_msg_type, get_encode, set_msg_type, set_encode, get_msg_type-set_msg_type,
  get_encode-set_encode, fields_of_line,
}
use galopush.Protocol.Codec.{codec_decode}
use galopush.Protocol.Binary.{
  encode_header, encode_add_header, big_endian, pack_binary, decode_header, decode_add_header,
  decode_param_resp, decode_param_push,
}
use galopush.Protocol.Binary.Words.{
  length-encode_header, length-encode_add_header, decode_header_exact, decode_add_header_exact,
  length-big_endian,
}
use galopush.Protocol.Binary.RoundTrip.{plain_body, IsFramed, Frame}
use galopush.Comet.Tcp.{Segments, remain}
use galopush.Comet.Tcp.Frames.{read_exactly, regroup, IsSendable, Received, IsSendable-Received}
use galopush.Ua.Android.{
  Client, header_of, send, answer, proc, serve, Protocol, read_body, read_callback, read_switch,
  read_rest, read_round,
}

-- internal/protocol
abbrev pub protocol : Protocol
protocol = record {
  pack = pack_binary;
  codec_decode = codec_decode;
  decode_header = decode_header;
  decode_add_header = decode_add_header;
  decode_param_resp = decode_param_resp;
  decode_param_push = decode_param_push;
  get_msg_type = get_msg_type;
  get_encode = get_encode;
  set_msg_type = set_msg_type;
  set_encode = set_encode;
}

module _ (h : Header) (a : AddHeader) (body frame : Bytes) (f : Frame h a body frame) (rest : Bytes)
    (s : Segments) (v : IsFramed h a body) where
  read_body-frame : read_body protocol h a (remain (f.wire ++ rest) s) ≡ some (body, remain rest s)
  unfolding read_body
  read_body-frame = rw (read_exactly f.wire rest s a.len (sym f.wire_length)) (rw f.decodes refl)

  read_rest-switch :
      read_rest protocol h (remain (encode_add_header a ++ (f.wire ++ rest)) s)
      ≡ read_switch protocol h a (remain (f.wire ++ rest) s)
  unfolding read_rest
  read_rest-switch =
      rw
        (read_exactly (encode_add_header a) (f.wire ++ rest) s 4 (sym (length-encode_add_header a)))
        (rw (decode_add_header_exact a v.len_fits) refl)

  -- Both headers are read back, for the types of messages downward.
  read_round-switch :
      4 < get_msg_type h
      → get_msg_type h < 10
      → read_round protocol (remain (frame ++ rest) s)
        ≡ read_switch protocol h a (remain (f.wire ++ rest) s)
  unfolding read_round
  read_round-switch low high =
      ap (λ b. read_round protocol (remain (b ++ rest) s)) f.layout
      ∙ ap (λ b. read_round protocol (remain b s))
          (regroup (encode_header h) (encode_add_header a) f.wire rest)
      ∙ rw
          (read_exactly (encode_header h) (encode_add_header a ++ (f.wire ++ rest)) s 5
            (sym (length-encode_header h)))
          (rw (decode_header_exact h v.head_fits) (ground arith))
      ∙ read_rest-switch

  read_switch-callback :
      get_msg_type h ≡ 7
      → read_switch protocol h a (remain (f.wire ++ rest) s)
        ≡ some (record { message = callback h a body; stream = remain rest s })
  unfolding read_switch read_callback
  read_switch-callback t = rw t (rw read_body-frame refl)

  -- The frame of a callback is read back as it was.
  pub read_round-callback :
      get_msg_type h ≡ 7
      → read_round protocol (remain (frame ++ rest) s)
        ≡ some (record { message = callback h a body; stream = remain rest s })
  read_round-callback t =
      read_round-switch (omega (arith, t)) (omega (arith, t)) ∙ read_switch-callback t

-- The answer with a code of 0 to a message downward, under the number of the message.
abbrev pub answer_message : ℕ → ℕ → Message
answer_message msg_type tid =
    resp (header_of protocol msg_type tid) (record { len = 1 }) (record { code = 0 })

header_of_lem :
    (t tid : ℕ)
    → t < 64
    → tid < 2 ^ 32
    → (get_msg_type (header_of protocol t tid) ≡ t) × IsHeader (header_of protocol t tid)
unfolding header_of
header_of_lem t tid small fits =
    let h0 : Header = record { line = 0; tid = 0 } in
    let typed = get_msg_type-set_msg_type h0 t (omega arith) small in
    let plain = set_encode (set_msg_type h0 t) 3 in
    let coded = get_encode-set_encode (set_msg_type h0 t) 3 typed.3 (omega arith) in
    let same = fields_of_line plain tid in
    (same.0 ∙ coded.1 ∙ typed.0, record { line_fits = coded.3; tid_fits = fits })

-- The answer can be sent: the comet reads it back.
pub answer-IsSendable :
    (t tid : ℕ) → (t ≡ 6) ⊎ ((t ≡ 8) ⊎ (t ≡ 10)) → tid < 2 ^ 32 → IsSendable (answer_message t tid)
unfolding plain_body big_endian
answer-IsSendable t tid kind fits =
    let (typed, head) = header_of_lem t tid (ground arith) fits in
    (
      (rw typed kind, omega arith),
      record {
        head_fits = head;
        len_fits = omega arith;
        exact = sym (length-big_endian 1 0);
        bytes = (omega arith, tt);
        no_empty_ring = λ e. omega arith;
      },
    )

-- The client that reads the frame of a callback answers it, and goes on behind the frame.
pub serve-callback :
    (write_good : ℕ → Bool) (fuel : ℕ) (h : Header) (a : AddHeader) (body frame : Bytes)
    (f : Frame h a body frame) (rest : Bytes) (s : Segments) (c : Client)
    → IsFramed h a body
    → get_msg_type h ≡ 7
    → write_good c.writes ≡ true
    → (r : Received (answer_message 8 h.tid)) × (serve protocol write_good
          (suc fuel)
          (remain (frame ++ rest) s)
          c
        ≡ serve protocol write_good fuel
            (remain rest s)
            (record c { writes = c.writes + 1; sent = c.sent ++ (r.frame ∷ []) }))
unfolding serve proc answer send
serve-callback write_good fuel h a body frame f rest s c v t good =
    let r =
      IsSendable-Received (answer_message 8 h.tid)
        (answer-IsSendable 8 h.tid (inr (inl refl)) v.head_fits.tid_fits) in
    (r, rw (read_round-callback h a body frame f rest s v t, serve) (rw r.packs (rw good refl)))
