-- ===== src/Comet/Tcp/Stream.antt =====
-- The loop over a whole stream: it ends, it delivers what was sent, and a Read that returns early
-- breaks it.
use galopush.Prelude.{
  ℕ, zero, suc, ◌+◌, ◌≤◌, ◌<◌, Bytes, List, [], ◌∷◌, ◌++◌, ◌≡◌, refl, ap, ◌∙◌, Option, some, ◌>>=◌,
  >>=-eq-some, arith, length, length-drop, drop, Option-cases, inl, inr, All,
}
use galopush.Protocol.Message.{Header, AddHeader, Message, header, IsHeader}
use galopush.Protocol.Head.{get_msg_type, get_encode, get_msg_type_lem}
use galopush.Protocol.Binary.Words.{decode_header_padded}
use galopush.Protocol.Codec.{codec_decode}
use galopush.Protocol.Binary.{
  pack_binary, decode_header, decode_add_header, decode_param_resp, decode_param_reg,
}
use galopush.Comet.Tcp.{
  Segments, remain, conn_read, read_timeout, Round, read_kickresp, read_resp, read_register,
  read_im, read_body, read_rest, read_frame, serve, handle_tcp_conn,
}
use galopush.Comet.Tcp.Frames.{IsSendable, Received, IsSendable-Received}

-- The bytes that have not been read.
abbrev pub unread : Segments → ℕ
unread [] = 0
unread (seg ∷ s) = length seg + unread s

unread-remain : (seg : Bytes) (s : Segments) → unread (remain seg s) ≡ length seg + unread s
unfolding remain
unread-remain [] s = omega arith
unread-remain (x ∷ seg) s = refl

-- A Read with a buffer takes at least a byte off the stream.
conn_read-lt :
    (n : ℕ) (s : Segments) {got : Bytes} {rest : Segments}
    → conn_read n s ≡ some (record { got = got; rest = rest })
    → (unread rest ≤ unread s) × (0 < n → unread rest < unread s)
unfolding conn_read
conn_read-lt zero s e = ground arith
conn_read-lt (suc n) [] e = ground arith
conn_read-lt (suc n) ([] ∷ s) e = ground (arith, conn_read-lt (suc n) s e)
conn_read-lt (suc n) ((x ∷ seg) ∷ s) e =
    ground (arith, unread-remain (drop n seg) s, length-drop n seg)

abbrev Filled : Type 0
Filled = record { buffer : Bytes; rest : Segments }

read_timeout-lt :
    (n : ℕ) (s : Segments) {r : Filled}
    → read_timeout n s ≡ some r
    → (unread r.rest ≤ unread s) × (0 < n → unread r.rest < unread s)
unfolding read_timeout
read_timeout-lt n s e =
    let (c, got, built) = >>=-eq-some (conn_read n s) _ e in ground (arith, conn_read-lt n s got)

-- No case of the switch puts bytes back.
read_kickresp-le :
    (a : AddHeader) (s : Segments) {r : Round}
    → read_kickresp a s ≡ some r
    → unread r.stream ≤ unread s
unfolding read_kickresp
read_kickresp-le a s e =
    let (c, got, built) = >>=-eq-some (read_timeout a.len s) _ e in
    ground (arith, read_timeout-lt a.len s got)

read_resp-le :
    (h : Header) (a : AddHeader) (s : Segments) {r : Round}
    → read_resp h a s ≡ some r
    → unread r.stream ≤ unread s
unfolding read_resp
read_resp-le h a s e =
    let (c, got, more) = >>=-eq-some (read_timeout a.len s) _ e in
    let (body, decoded, last) = >>=-eq-some (codec_decode c.buffer a.len (get_encode h)) _ more in
    let (p, parsed, built) = >>=-eq-some (decode_param_resp body) _ last in
    ground (arith, read_timeout-lt a.len s got)

read_register-le :
    (h : Header) (a : AddHeader) (s : Segments) {r : Round}
    → read_register h a s ≡ some r
    → unread r.stream ≤ unread s
unfolding read_register
read_register-le h a s e =
    let (c, got, more) = >>=-eq-some (read_timeout a.len s) _ e in
    let (body, decoded, last) = >>=-eq-some (codec_decode c.buffer a.len (get_encode h)) _ more in
    let (p, parsed, built) = >>=-eq-some (decode_param_reg body) _ last in
    ground (arith, read_timeout-lt a.len s got)

read_im-le :
    (h : Header) (a : AddHeader) (s : Segments) {r : Round}
    → read_im h a s ≡ some r
    → unread r.stream ≤ unread s
unfolding read_im
read_im-le h a s e =
    let (c, got, more) = >>=-eq-some (read_timeout a.len s) _ e in
    let (body, decoded, built) = >>=-eq-some (codec_decode c.buffer a.len (get_encode h)) _ more in
    ground (arith, read_timeout-lt a.len s got)

read_body-le :
    (h : Header) (a : AddHeader) (s : Segments) {r : Round}
    → read_body h a s ≡ some r
    → unread r.stream ≤ unread s
unfolding read_body
read_body-le h a s {r} e = ground (
  arith,
  read_kickresp-le a s {r = r},
  read_resp-le h a s {r = r},
  read_register-le h a s {r = r},
  read_im-le h a s {r = r},
)

read_rest-le :
    (h : Header) (s : Segments) {r : Round} → read_rest h s ≡ some r → unread r.stream ≤ unread s
unfolding read_rest
read_rest-le h s {r} e =
    let (c, got, more) = >>=-eq-some (read_timeout 4 s) _ e in
    let (a, decoded, last) = >>=-eq-some (decode_add_header c.buffer) _ more in
    ground (arith, read_timeout-lt 4 s got, read_body-le h a c.rest {r = r})

-- Every round that goes on has taken at least a byte off the stream.
read_frame-lt : (s : Segments) {r : Round} → read_frame s ≡ some r → unread r.stream < unread s
unfolding read_frame
read_frame-lt s {r} e =
    let (c, got, more) = >>=-eq-some (read_timeout 5 s) _ e in
    let (h, decoded, last) = >>=-eq-some (decode_header c.buffer) _ more in
    ground (arith, read_timeout-lt 5 s got, read_rest-le h c.rest {r = r})

-- The loop returns: with more rounds than there are unread bytes it comes to its end, for any bytes in
-- any segments, and the messages it has passed on are those of `serve` with any such number of rounds.
pub handle_tcp_conn-serve :
    (f g : ℕ) (s : Segments) → unread s < f → unread s < g → handle_tcp_conn f s ≡ some (serve g s)
unfolding handle_tcp_conn serve
handle_tcp_conn-serve zero g s p q = absurd (omega arith)
handle_tcp_conn-serve (suc f) zero s p q = absurd (omega arith)
handle_tcp_conn-serve (suc f) (suc g) s p q = elim (Option-cases (read_frame s)) [
  | inl done ↦ rw (done, handle_tcp_conn, serve) refl
  | inr (r, round) ↦
      let rest =
        handle_tcp_conn-serve f g r.stream (omega (arith, read_frame-lt s round))
          (omega (arith, read_frame-lt s round)) in
      rw (round, handle_tcp_conn, serve) (rw rest refl)
]

-- A terminal that writes its messages one after the other.
unfoldable pub pack_all : List Message → Option Bytes
pack_all [] = some []
pack_all (m ∷ ms) = do frame ← pack_binary m; rest ← pack_all ms; some (frame ++ rest)

serve_end : (fuel : ℕ) → serve fuel [] ≡ []
unfolding serve read_frame read_timeout conn_read
serve_end zero = refl
serve_end (suc fuel) = refl

-- The frame of a message at the head of the stream: the message comes first, and then whatever the
-- loop makes of what is behind the frame.
pub serve-Received :
    (m : Message) (got : Received m) (rest : Bytes) (s : Segments) (fuel : ℕ)
    → serve (suc fuel) (remain (got.frame ++ rest) s) ≡ m ∷ serve fuel (remain rest s)
unfolding serve
serve-Received m got rest s fuel = rw (got.reads rest s, serve) refl

serve_first :
    (m : Message) (ms : List Message) (got : Received m) (rest : Bytes)
    → ((fuel : ℕ) → length ms ≤ fuel → serve fuel (remain rest []) ≡ ms)
    → (fuel : ℕ) → suc (length ms) ≤ fuel
    → serve fuel (remain (got.frame ++ rest) []) ≡ m ∷ ms
serve_first m ms got rest served zero enough = absurd (omega arith)
serve_first m ms got rest served (suc fuel) enough =
    serve-Received m got rest [] fuel ∙ ap (◌∷◌ m) (served fuel (omega arith))

-- The bytes that a list of messages packs to, and that the loop reads them back.
record Served (ms : List Message) : Type 0 where
  stream : Bytes
  packed : pack_all ms ≡ some stream
  served : (fuel : ℕ) → length ms ≤ fuel → serve fuel (remain stream []) ≡ ms

serve-All : (ms : List Message) → All IsSendable ms → Served ms
unfolding pack_all
serve-All [] _ = record {
  stream = [];
  packed = refl;
  served = λ fuel _. unfold remain in serve_end fuel;
}
serve-All (m ∷ ms) (good, goods) =
    let got = IsSendable-Received m good in
    let tail = serve-All ms goods in
    record {
      stream = got.frame ++ tail.stream;
      packed = rw (got.packs, tail.packed);
      served = λ fuel enough. serve_first m ms got tail.stream tail.served fuel enough;
    }

-- The messages that a terminal packs one after the other, if they arrive in one segment, reach the
-- data channel all of them, unchanged and in order, within as many rounds as there are messages.
pub serve-pack_all :
    (ms : List Message) (fuel : ℕ)
    → All IsSendable ms
    → length ms ≤ fuel
    → (stream : Bytes) × (pack_all ms ≡ some stream) × (serve fuel (remain stream []) ≡ ms)
serve-pack_all ms fuel good enough =
    let s = serve-All ms good in (s.stream, s.packed, s.served fuel enough)

-- A Read may return early, and readTimeout does not read on: whenever the first byte of a heartbeat
-- arrives in a segment of its own, the message that is passed on has the transaction number 0,
-- whatever was sent, and the bytes of the number are left to be read as the next header.
pub read_frame_short :
    (h : Header) (s : Segments)
    → IsHeader h
    → get_msg_type h ≡ 3
    → read_frame ((h.line ∷ []) ∷ s)
      ≡ some (record { cached = some (header (record { line = h.line; tid = 0 })); stream = s })
unfolding read_frame read_timeout conn_read remain
read_frame_short h s v beat =
    let lone : Header = record { line = h.line; tid = 0 } in
    let same : get_msg_type lone ≡ 3 =
      omega (arith, beat, get_msg_type_lem h v.line_fits, get_msg_type_lem lone v.line_fits) in
    rw (decode_header_padded h.line) (rw same)
