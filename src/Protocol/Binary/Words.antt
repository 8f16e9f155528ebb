-- ===== src/Protocol/Binary/Words.antt =====
-- Big-endian words and the fixed-size structures: what is written is read back.
use galopush.Prelude.{
  ℕ, zero, suc, ◌+◌, ◌*◌, ◌/◌, ◌%◌, ◌^◌, ◌<◌, Bytes, [], ◌∷◌, ◌++◌, ◌≡◌, refl, ◌∙◌, some, arith,
  length, length-append, take-append, drop-append, All, All-append, append-nil, take, drop, subst,
  ltb, false,
}
use native.Mathlib.Nat.{pow-suc}
use galopush.Protocol.Message.{
  Header, AddHeader, ParamReg, ParamPush, IsByte, IsU32, IsHeader, IsParamReg,
}
use galopush.Protocol.Binary.{
  big_endian, from_big_endian, encode_header, encode_add_header, encode_param_reg,
  encode_param_push, decode_header, decode_add_header, decode_param_reg, decode_param_push,
  decode_param_resp,
}

pub length-big_endian : (n x : ℕ) → length (big_endian n x) ≡ n
unfolding big_endian
length-big_endian zero x = refl
length-big_endian (suc n) x =
    omega
      (arith, length-append (big_endian n (x / 256)) (x % 256 ∷ []), length-big_endian n (x / 256))

pub big_endian-bytes : (n x : ℕ) → All IsByte (big_endian n x)
unfolding big_endian
big_endian-bytes zero x = tt
big_endian-bytes (suc n) x =
    All-append IsByte (big_endian n (x / 256)) (x % 256 ∷ []) (big_endian-bytes n (x / 256))
      (omega arith, tt)

from_big_endian-append :
    (acc : ℕ) (xs : Bytes) (y : ℕ)
    → from_big_endian acc (xs ++ (y ∷ [])) ≡ from_big_endian acc xs * 256 + y
unfolding from_big_endian
from_big_endian-append acc [] y = refl
from_big_endian-append acc (x ∷ xs) y = from_big_endian-append (acc * 256 + x) xs y

-- A number that fits in `n` bytes is read back from its big-endian form.
pub from_big_endian-big_endian : (n x : ℕ) → x < 256 ^ n → from_big_endian 0 (big_endian n x) ≡ x
unfolding big_endian
from_big_endian-big_endian zero x h = unfold from_big_endian in omega arith
from_big_endian-big_endian (suc n) x h = omega (
  arith,
  pow-suc 256 n,
  from_big_endian-append 0 (big_endian n (x / 256)) (x % 256),
  from_big_endian-big_endian n (x / 256) (omega (arith, pow-suc 256 n)),
)

pub length-encode_header : (h : Header) → length (encode_header h) ≡ 5
unfolding encode_header big_endian
length-encode_header h = refl

pub length-encode_add_header : (a : AddHeader) → length (encode_add_header a) ≡ 4
unfolding encode_add_header big_endian
length-encode_add_header a = refl

-- A fixed header whose fields fit is read back, whatever follows it.
pub decode_header-encode_header :
    (h : Header) (rest : Bytes) → IsHeader h → decode_header (encode_header h ++ rest) ≡ some h
unfolding decode_header encode_header big_endian from_big_endian
decode_header-encode_header h rest v = ground arith

pub decode_add_header-encode_add_header :
    (a : AddHeader) (rest : Bytes)
    → IsU32 a.len
    → decode_add_header (encode_add_header a ++ rest) ≡ some a
unfolding decode_add_header encode_add_header big_endian from_big_endian
decode_add_header-encode_add_header a rest v = ground arith

pub decode_param_resp-big_endian :
    (c : ℕ) (rest : Bytes)
    → c < 256
    → decode_param_resp (big_endian 1 c ++ rest) ≡ some (record { code = c })
unfolding decode_param_resp big_endian from_big_endian
decode_param_resp-big_endian c rest v = ground arith

-- The offline count (below 65536) and the flag (below 256) of a push are read back, whatever
-- message follows them.
pub decode_param_push-encode_param_push :
    (p : ParamPush) (rest : Bytes)
    → p.offline < 65536
    → p.flag < 256
    → decode_param_push (encode_param_push p ++ rest) ≡ some p
unfolding decode_param_push encode_param_push big_endian from_big_endian
decode_param_push-encode_param_push p rest v w = ground arith

length-fields : (p : ParamReg) → IsParamReg p → length (p.id ++ p.token) ≡ 64
length-fields p v = omega (arith, length-append p.id p.token, v.id_length, v.token_length)

pub length-encode_param_reg : (p : ParamReg) → IsParamReg p → length (encode_param_reg p) ≡ 66
unfolding encode_param_reg big_endian
length-encode_param_reg p v = omega (arith, length-fields p v)

take_exactly : (n : ℕ) (xs ys : Bytes) → length xs ≡ n → take n (xs ++ ys) ≡ xs
take_exactly n xs ys e = subst (λ k. take k (xs ++ ys) ≡ xs) e (take-append xs ys)

drop_exactly : (n : ℕ) (xs ys : Bytes) → length xs ≡ n → drop n (xs ++ ys) ≡ ys
drop_exactly n xs ys e = subst (λ k. drop k (xs ++ ys) ≡ ys) e (drop-append xs ys)

-- A registration body of 66 bytes is cut into two bytes and two arrays of 32.
decode_fields :
    (v t : ℕ) (fields rest : Bytes)
    → length fields ≡ 64
    → decode_param_reg (v ∷ t ∷ (fields ++ rest))
      ≡ some (record {
        version = 0 * 256 + v;
        terminal_type = 0 * 256 + t;
        id = take 32 fields;
        token = drop 32 fields;
      })
unfolding decode_param_reg from_big_endian
decode_fields v t fields rest e =
    let whole : take 64 (fields ++ rest) ≡ fields = take_exactly 64 fields rest e in
    let enough : ltb (suc (suc (length (fields ++ rest)))) 66 ≡ false =
      let total = length-append fields rest in ground arith in
    rw (enough, whole)

-- A registration body whose fields fit is read back, whatever follows it.
pub decode_param_reg-encode_param_reg :
    (p : ParamReg) (rest : Bytes)
    → IsParamReg p
    → decode_param_reg (encode_param_reg p ++ rest) ≡ some p
unfolding encode_param_reg big_endian
decode_param_reg-encode_param_reg p rest v =
    decode_fields (p.version % 256) (p.terminal_type % 256) (p.id ++ p.token) rest
      (length-fields p v)
    ∙ rw (take_exactly 32 p.id p.token v.id_length, drop_exactly 32 p.id p.token v.id_length)
        (ground arith)

-- The same with nothing after the structure.
pub decode_param_resp_exact :
    (c : ℕ) → c < 256 → decode_param_resp (big_endian 1 c) ≡ some (record { code = c })
decode_param_resp_exact c v =
    subst (λ b. decode_param_resp b ≡ some (record { code = c })) (append-nil (big_endian 1 c))
      (decode_param_resp-big_endian c [] v)

pub decode_param_reg_exact :
    (p : ParamReg) → IsParamReg p → decode_param_reg (encode_param_reg p) ≡ some p
decode_param_reg_exact p v =
    subst (λ b. decode_param_reg b ≡ some p) (append-nil (encode_param_reg p))
      (decode_param_reg-encode_param_reg p [] v)

pub decode_header_exact : (h : Header) → IsHeader h → decode_header (encode_header h) ≡ some h
decode_header_exact h v =
    subst (λ b. decode_header b ≡ some h) (append-nil (encode_header h))
      (decode_header-encode_header h [] v)

pub decode_add_header_exact :
    (a : AddHeader) → IsU32 a.len → decode_add_header (encode_add_header a) ≡ some a
decode_add_header_exact a v =
    subst (λ b. decode_add_header b ≡ some a) (append-nil (encode_add_header a))
      (decode_add_header-encode_add_header a [] v)

-- A fixed header of which only the first byte is not zero.
pub decode_header_padded :
    (x : ℕ) → decode_header (x ∷ 0 ∷ 0 ∷ 0 ∷ 0 ∷ []) ≡ some (record { line = x; tid = 0 })
unfolding decode_header from_big_endian
decode_header_padded x = ground arith
