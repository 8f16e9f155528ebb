-- ===== src/Comet/Ws/Forms.antt =====
-- The registration form of a web terminal, from the terminal's text to the handlers of the comet.
use galopush.Prelude.{
  ℕ, zero, suc, ◌-◌, ◌%◌, ◌≤◌, ◌≡◌, ◌≢◌, refl, ap, Bytes, codes, ◌=ₛ◌, [], ◌∷◌, ◌++◌, some, length,
  take, replicate, All, arith, take-append,
}
use galopush.Prelude.Int.{pos}
use galopush.Protocol.Message.{Header, AddHeader, ParamReg, register, IsU32, IsByte}
use galopush.Protocol.Head.{get_msg_type}
use galopush.Protocol.Json.{
  num, str, obj, Fields, end, field, JsonLib, ok, value_at, array32, web_header, long, unpack_cmd,
  unpack_fields, encode, unpack_json,
}
use galopush.Protocol.Json.RoundTrip.{Marshals, web_header_lem, unpack_json-encode}
use galopush.Comet.Uplink.{bytes_valid_len, valid_bytes}

-- A name that fits in the 32 bytes of a registration and holds no NUL.
pub record IsName (b : Bytes) : Type 0 where
  pub fits : length b ≤ 32
  pub no_nul : All (λ x. x ≢ 0) b

bytes_valid_len-append :
    (b : Bytes) (n : ℕ) → All (λ x. x ≢ 0) b → bytes_valid_len (b ++ replicate n 0) ≡ length b
unfolding bytes_valid_len
bytes_valid_len-append [] zero h = refl
bytes_valid_len-append [] (suc n) h = refl
bytes_valid_len-append (x ∷ b) n h = ground (arith, bytes_valid_len-append b n h.1, h.0)

take_short : (b : Bytes) (n : ℕ) → length b ≤ n → take n b ≡ b
take_short [] zero h = refl
take_short [] (suc n) h = refl
take_short (x ∷ b) zero h = absurd (omega arith)
take_short (x ∷ b) (suc n) h = ap (◌∷◌ x) (take_short b n (omega arith))

-- A name is what procRegister reads of the array that it was copied into.
pub valid_bytes-array32 : (b : Bytes) → IsName b → valid_bytes (array32 b) ≡ b
unfolding array32
valid_bytes-array32 b name =
    rw (take_short b 32 name.fits, bytes_valid_len-append b (32 - length b) name.no_nul)
      (take-append b _)

-- The form that a web terminal sends.
abbrev pub form : ℕ → ℕ → ℕ → Bytes → Bytes → Fields
form tid version plat id token = field (codes "cmd") (num (pos 1)) (
    field (codes "data")
      (obj (
        field (codes "id") (str id) (
          field (codes "termType") (num (pos plat))
            (field (codes "token") (str token) (field (codes "version") (num (pos version)) end)))))
      (field (codes "tid") (num (pos tid)) end))

module _ (lib : JsonLib) (reads64 : (b : Bytes) → lib.decode64 (lib.encode64 b) ≡ some b) where
  -- A form with a user and a token that are names: it packs to a text that UnPackJson makes a
  -- registration of, in which procRegister finds the same user, platform and token.
  pub unpack_json-form :
      (tid version plat : ℕ) (id token : Bytes)
      → IsU32 tid
      → IsByte plat
      → IsName id
      → IsName token
      → Marshals lib (form tid version plat id token)
      → (c : Bytes) × (h : Header) × (a : AddHeader) × (p : ParamReg) × (encode lib
            (lib.marshal (form tid version plat id token))
          ≡ some c)
        × (unpack_json lib c ≡ ok (register h a p))
        × (get_msg_type h ≡ 1)
        × (h.tid ≡ tid)
        × (valid_bytes p.id ≡ id)
        × (valid_bytes p.token ≡ token)
        × (p.terminal_type ≡ plat)
  unfolding unpack_fields unpack_cmd value_at ◌=ₛ◌
  unpack_json-form tid version plat id token number fits user secret good =
      let (c, packs, reads) =
        unpack_json-encode lib reads64 (form tid version plat id token) good in
      let head = web_header_lem 1 tid (omega arith) number in
      (
        c,
        web_header 1 (pos tid),
        long 66,
        record {
          version = version % 256;
          terminal_type = plat % 256;
          id = array32 id;
          token = array32 token;
        },
        packs,
        reads,
        head.0,
        head.2,
        valid_bytes-array32 id user,
        valid_bytes-array32 token secret,
        omega arith,
      )
