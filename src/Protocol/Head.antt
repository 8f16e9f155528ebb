-- ===== src/Protocol/Head.antt =====
-- internal/protocol/binary.go, the first byte of a message: its type in six bits and the encoding
-- of its body in the two above.
use galopush.Prelude.{ℕ, ◌+◌, ◌*◌, ◌/◌, ◌%◌, ◌<◌, bit_and, bit_or, ◌≡◌, refl, arith}
use galopush.Prelude.Bits.{low_bits, high_bits, or_fields}
use galopush.Protocol.Message.{Header, IsByte}

unfoldable pub get_msg_type : Header → ℕ
get_msg_type head = bit_and head.line 0x3f

-- `byte(msgType)` keeps the low eight bits.
pub set_msg_type : Header → ℕ → Header
set_msg_type head msg_type =
    let shifted = head.line / 64 in
    let restored = shifted * 64 % 256 in record head { line = bit_or restored (msg_type % 256) }

unfoldable pub get_encode : Header → ℕ
get_encode head = bit_and head.line 0xc0 / 64

pub set_encode : Header → ℕ → Header
set_encode head encode =
    let shifted = head.line * 4 % 256 in
    let restored = shifted / 4 in record head { line = bit_or restored (encode % 256 * 64 % 256) }

-- The two fields as arithmetic.
pub get_msg_type_lem : (h : Header) → IsByte h.line → get_msg_type h ≡ h.line % 64
unfolding get_msg_type
get_msg_type_lem h b = low_bits h.line b

pub get_encode_lem : (h : Header) → IsByte h.line → get_encode h ≡ h.line / 64
unfolding get_encode
get_encode_lem h b = omega (arith, high_bits h.line b)

pub set_msg_type_lem :
    (h : Header) (t : ℕ) → IsByte h.line → t < 64 → (set_msg_type h t).line ≡ h.line / 64 * 64 + t
unfolding set_msg_type
set_msg_type_lem h t b f = ground (arith, or_fields (h.line / 64) t (omega arith) f)

pub set_encode_lem :
    (h : Header) (e : ℕ) → IsByte h.line → e < 4 → (set_encode h e).line ≡ h.line % 64 + e * 64
unfolding set_encode
set_encode_lem h e b f = ground (arith, or_fields e (h.line % 64) f (omega arith))

-- Setting the message type (below 64) of a header byte makes it the type that is read, keeps the
-- encoding, the transaction number and the byte range.
pub get_msg_type-set_msg_type :
    (h : Header) (t : ℕ)
    → IsByte h.line
    → t < 64
    → let g = set_msg_type h t in
      (get_msg_type g ≡ t) × (get_encode g ≡ get_encode h) × (g.tid ≡ h.tid) × IsByte g.line
get_msg_type-set_msg_type h t b f =
    let line = set_msg_type_lem h t b f in
    let fits : IsByte (set_msg_type h t).line = omega (arith, line) in
    (
      omega (arith, line, get_msg_type_lem (set_msg_type h t) fits),
      omega (arith, line, get_encode_lem (set_msg_type h t) fits, get_encode_lem h b),
      unfold set_msg_type in refl,
      fits,
    )

-- Setting the encoding (below 4) of a header byte makes it the encoding that is read, keeps the
-- message type, the transaction number and the byte range.
pub get_encode-set_encode :
    (h : Header) (e : ℕ)
    → IsByte h.line
    → e < 4
    → let g = set_encode h e in
      (get_encode g ≡ e) × (get_msg_type g ≡ get_msg_type h) × (g.tid ≡ h.tid) × IsByte g.line
get_encode-set_encode h e b f =
    let line = set_encode_lem h e b f in
    let fits : IsByte (set_encode h e).line = omega (arith, line) in
    (
      omega (arith, line, get_encode_lem (set_encode h e) fits),
      omega (arith, line, get_msg_type_lem (set_encode h e) fits, get_msg_type_lem h b),
      unfold set_encode in refl,
      fits,
    )

-- Both fields are read from the first byte alone.
pub fields_of_line :
    (h : Header) (tid : ℕ)
    → let g = record h { tid = tid } in
      (get_msg_type g ≡ get_msg_type h) × (get_encode g ≡ get_encode h)
unfolding get_msg_type get_encode
fields_of_line h tid = (refl, refl)
