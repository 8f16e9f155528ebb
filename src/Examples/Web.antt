-- ===== src/Examples/Web.antt =====
-- The JSON messages of a web terminal at concrete values.
use galopush.Prelude.{Bytes, codes, ◌=ₛ◌, if◌then◌else◌, some, none, ◌≡◌, refl, inr, inl, arith}
use galopush.Prelude.Int.{pos}
use galopush.Protocol.Message.{Header, AddHeader, ParamReg, ParamResp, register, resp}
use galopush.Protocol.Head.{get_msg_type, get_encode}
use galopush.Protocol.Json.{Fields, JsonLib, num, ok, document, encode, pack_json, unpack_json}
use galopush.Protocol.Json.RoundTrip.{Marshals, unpack_json-pack_json}
use galopush.Comet.Uplink.{valid_bytes}
use galopush.Comet.Ws.Forms.{IsName, form, unpack_json-form}
use galopush.Examples.Data.{alice, secret, all_bytes, all_bytes_lem}

-- A JSON package that knows one document.
abbrev text : Bytes
text = codes "{}"

abbrev knows : Fields → JsonLib
knows f = record {
  marshal = λ g. text;
  unmarshal = λ b. if b =ₛ text then some f else none;
  encode64 = λ b. b;
  decode64 = λ b. some b;
}

knows-Marshals : (f : Fields) → Marshals (knows f) f
unfolding all_bytes ◌=ₛ◌
knows-Marshals f = record {
  bytes = all_bytes_lem text refl;
  some_text = λ e. ground arith;
  reads = refl;
}

-- The answer to an instant message, type 10, under the number 7, of no error.
abbrev answer_head : Header
answer_head = record { line = 10; tid = 7 }

abbrev answer_code : ParamResp
answer_code = record { code = 0 }

abbrev answer_text : Fields
answer_text = document answer_head (codes "code") (num (pos 0))

answer_type : get_msg_type answer_head ≡ 10
unfolding get_msg_type
answer_type = refl

unpack_json-pack_json_example :
    (c : Bytes) × (h : Header) × (pack_json
        (knows answer_text)
        (resp answer_head (record { len = 1 }) answer_code)
      ≡ some c)
    × (unpack_json (knows answer_text) c ≡ ok (resp h (record { len = 1 }) answer_code))
    × (get_msg_type h ≡ get_msg_type answer_head)
    × (get_encode h ≡ 0)
    × (h.tid ≡ 7)
unpack_json-pack_json_example =
    unpack_json-pack_json (knows answer_text) (λ b. refl) answer_head (record { len = 1 })
      answer_code (inr (inr (inl answer_type))) (omega arith) (omega arith)
      (knows-Marshals answer_text)

abbrev alice_text : Fields
alice_text = form 5 1 8 alice secret

alice-IsName : IsName alice
alice-IsName = record { fits = omega arith; no_nul = ground arith }

secret-IsName : IsName secret
secret-IsName = record { fits = omega arith; no_nul = ground arith }

unpack_json-form_example :
    (c : Bytes) × (h : Header) × (a : AddHeader) × (p : ParamReg) × (encode (knows alice_text) text
      ≡ some c)
    × (unpack_json (knows alice_text) c ≡ ok (register h a p))
    × (get_msg_type h ≡ 1)
    × (h.tid ≡ 5)
    × (valid_bytes p.id ≡ alice)
    × (valid_bytes p.token ≡ secret)
    × (p.terminal_type ≡ 8)
unpack_json-form_example =
    unpack_json-form (knows alice_text) (λ b. refl) 5 1 8 alice secret (omega arith) (omega arith)
      alice-IsName secret-IsName (knows-Marshals alice_text)
