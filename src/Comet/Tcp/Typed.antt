-- ===== src/Comet/Tcp/Typed.antt =====
-- What the loop of comet/tcp.go lets through: messages of the types that terminals send, whose fields
-- fit their widths.
use galopush.Prelude.{
  ℕ, zero, suc, ◌≤◌, List, Option, none, some, >>=-eq-some, length, ltb, ◌≡◌, ◌⊎◌, subst, arith,
  inl, inr, All, Option-cases, Bool-cases, ◌==◌, ◌||◌, leb,
}
use galopush.Protocol.Message.{
  Header, AddHeader, Message, resp, register, im_up, header, IsByte, IsU32, IsHeader, IsParamReg,
}
use galopush.Protocol.Head.{get_msg_type, get_encode}
use galopush.Protocol.Codec.{codec_decode}
use galopush.Protocol.Binary.{decode_header, decode_add_header, decode_param_resp, decode_param_reg}
use galopush.Protocol.Binary.Bounds.{
  decode_add_header-IsU32, decode_header-IsHeader, decode_param_resp-IsByte,
  decode_param_reg-IsParamReg,
}
use galopush.Comet.Tcp.{
  Segments, read_timeout, Round, read_kickresp, read_resp, read_register, read_im, read_body,
  read_rest, read_frame, serve, cached_then, max_msg_len,
}
use galopush.Comet.Tcp.Reading.{AreBytes, read_timeout-AreBytes, decoded-AreBytes}

-- A message that a terminal may send, with its fields in their widths.
abbrev pub IsTyped : Message → Type 0
IsTyped (resp h a p) =
    IsHeader h
    × ((get_msg_type h ≡ 6) ⊎ ((get_msg_type h ≡ 8) ⊎ (get_msg_type h ≡ 10)))
    × IsU32 a.len
    × IsByte p.code
IsTyped (register h a p) = IsHeader h × (get_msg_type h ≡ 1) × IsU32 a.len × IsParamReg p
IsTyped (im_up h a msg) =
    IsHeader h
    × (get_msg_type h ≡ 9)
    × (a.len ≤ max_msg_len)
    × (length msg ≡ a.len)
    × All IsByte msg
IsTyped (header h) = IsHeader h × (get_msg_type h ≡ 3)
IsTyped _ = ⊥

-- A round leaves bytes, and a message in its widths if it leaves one.
abbrev CachedTyped : Option Message → Type 0
CachedTyped none = Unit
CachedTyped (some m) = IsTyped m

abbrev IsRound : Round → Type 0
IsRound r = CachedTyped r.cached × AreBytes r.stream

same_round : (q r : Round) → some q ≡ some r → q ≡ r
same_round q r e = cc

read_kickresp-IsRound :
    (a : AddHeader) (s : Segments) {r : Round} → AreBytes s → read_kickresp a s ≡ some r → IsRound r
unfolding read_kickresp
read_kickresp-IsRound a s bs e =
    let (c, got, built) = >>=-eq-some (read_timeout a.len s) _ e in
    let (bytes, left, full) = read_timeout-AreBytes a.len s bs got in
    subst IsRound (same_round (record { cached = none; stream = c.rest }) _ built) (tt, left)

module _ (h : Header) (a : AddHeader) (s : Segments) (fits : IsHeader h) (len_fits : IsU32 a.len)
    (bs : AreBytes s) where
  read_resp-IsRound :
      {r : Round}
      → (get_msg_type h ≡ 6) ⊎ ((get_msg_type h ≡ 8) ⊎ (get_msg_type h ≡ 10))
      → read_resp h a s ≡ some r
      → IsRound r
  unfolding read_resp
  read_resp-IsRound t e =
      let (c, got, more) = >>=-eq-some (read_timeout a.len s) _ e in
      let (bytes, left, full) = read_timeout-AreBytes a.len s bs got in
      let (body, decoded, last) = >>=-eq-some (codec_decode c.buffer a.len (get_encode h)) _ more in
      let whole = decoded-AreBytes c.buffer a.len (get_encode h) body bytes full decoded in
      let (p, parsed, built) = >>=-eq-some (decode_param_resp body) _ last in
      subst IsRound (same_round (record { cached = some (resp h a p); stream = c.rest }) _ built)
        ((fits, t, len_fits, decode_param_resp-IsByte body whole.0 parsed), left)

  read_register-IsRound :
      {r : Round} → get_msg_type h ≡ 1 → read_register h a s ≡ some r → IsRound r
  unfolding read_register
  read_register-IsRound t e =
      let (c, got, more) = >>=-eq-some (read_timeout a.len s) _ e in
      let (bytes, left, full) = read_timeout-AreBytes a.len s bs got in
      let (body, decoded, last) = >>=-eq-some (codec_decode c.buffer a.len (get_encode h)) _ more in
      let whole = decoded-AreBytes c.buffer a.len (get_encode h) body bytes full decoded in
      let (p, parsed, built) = >>=-eq-some (decode_param_reg body) _ last in
      subst IsRound
        (same_round (record { cached = some (register h a p); stream = c.rest }) _ built)
        ((fits, t, len_fits, decode_param_reg-IsParamReg body whole.0 parsed), left)

  read_im-IsRound :
      {r : Round} → get_msg_type h ≡ 9 → a.len ≤ max_msg_len → read_im h a s ≡ some r → IsRound r
  unfolding read_im
  read_im-IsRound t small e =
      let (c, got, more) = >>=-eq-some (read_timeout a.len s) _ e in
      let (bytes, left, full) = read_timeout-AreBytes a.len s bs got in
      let (body, decoded, built) =
        >>=-eq-some (codec_decode c.buffer a.len (get_encode h)) _ more in
      let whole = decoded-AreBytes c.buffer a.len (get_encode h) body bytes full decoded in
      subst IsRound
        (same_round (record { cached = some (im_up h a body); stream = c.rest }) _ built)
        ((fits, t, small, whole.1, whole.0), left)

  read_body-IsRound : {r : Round} → a.len ≤ max_msg_len → read_body h a s ≡ some r → IsRound r
  unfolding read_body
  read_body-IsRound {r} small e =
      let t = get_msg_type h in
      elim (Bool-cases (t == 12)) [
        | inl kicked ↦ read_kickresp-IsRound a s bs (ground (arith, e, kicked))
        | inr c1 ↦ elim (Bool-cases (t == 6 || (t == 8 || t == 10))) [
          | inl answered ↦
              read_resp-IsRound (ground (arith, answered)) (ground (arith, e, c1, answered))
          | inr c2 ↦ elim (Bool-cases (t == 1)) [
            | inl registers ↦
                read_register-IsRound (ground (arith, registers))
                  (ground (arith, e, c1, c2, registers))
            | inr c3 ↦ elim (Bool-cases (t == 9)) [
              | inl talks ↦
                  read_im-IsRound (ground (arith, talks)) small
                    (ground (arith, e, c1, c2, c3, talks))
              | inr c4 ↦ absurd (ground (arith, e, c1, c2, c3, c4))
            ]
          ]
        ]
      ]

read_rest-IsRound :
    (h : Header) (s : Segments) {r : Round}
    → IsHeader h
    → AreBytes s
    → read_rest h s ≡ some r
    → IsRound r
unfolding read_rest
read_rest-IsRound h s {r} fits bs e =
    let (c, got, more) = >>=-eq-some (read_timeout 4 s) _ e in
    let (bytes, left, full) = read_timeout-AreBytes 4 s bs got in
    let (a, decoded, last) = >>=-eq-some (decode_add_header c.buffer) _ more in
    elim (Bool-cases (ltb max_msg_len a.len)) [
      | inl over ↦ absurd (ground (arith, last, over))
      | inr small ↦
          read_body-IsRound h a c.rest fits (decode_add_header-IsU32 c.buffer bytes decoded) left
            (ground (arith, small)) (ground (arith, last, small))
    ]

read_frame-IsRound : (s : Segments) {r : Round} → AreBytes s → read_frame s ≡ some r → IsRound r
unfolding read_frame
read_frame-IsRound s {r} bs e =
    let (c, got, more) = >>=-eq-some (read_timeout 5 s) _ e in
    let (bytes, left, full) = read_timeout-AreBytes 5 s bs got in
    let (h, decoded, last) = >>=-eq-some (decode_header c.buffer) _ more in
    let fits = decode_header-IsHeader c.buffer bytes decoded in
    let t = get_msg_type h in
    elim (Bool-cases (t == 0 || leb 64 t)) [
      | inl unknown ↦ absurd (ground (arith, last, unknown))
      | inr known ↦ elim (Bool-cases (t == 3)) [
        | inl beat ↦
            subst IsRound
              (same_round (record { cached = some (header h); stream = c.rest }) r
                (ground (arith, last, known, beat)))
              ((fits, ground (arith, beat)), left)
        | inr other ↦ read_rest-IsRound h c.rest fits left (ground (arith, last, known, other))
      ]
    ]

-- Whatever bytes arrive, in whatever segments, and for any number of rounds: every message that the
-- loop puts on the data channel is one that a terminal may send (a heartbeat, an answer, a
-- registration or an instant message, under its own type), its fields fit their widths, the two names
-- of a registration are of 32 bytes, and an instant message is as long as its header says, at most
-- 10 MB.
pub serve-IsTyped : (fuel : ℕ) (s : Segments) → AreBytes s → All IsTyped (serve fuel s)
unfolding serve
serve-IsTyped zero s bs = tt
serve-IsTyped (suc fuel) s bs = elim (Option-cases (read_frame s)) [
  | inl done ↦ rw (done, serve) tt
  | inr (r, round) ↦
      let (typed, left) = read_frame-IsRound s bs round in
      rw (round, serve)
        (also r.cached (serve fuel r.stream) typed (serve-IsTyped fuel r.stream left))
]
  where
    also :
        (o : Option Message) (rest : List Message)
        → CachedTyped o
        → All IsTyped rest
        → All IsTyped (cached_then o rest)
    also none rest h k = k
    also (some m) rest h k = (h, k)
