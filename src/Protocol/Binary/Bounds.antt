-- ===== src/Protocol/Binary/Bounds.antt =====
-- What the structures of internal/protocol/binary.go that are read from bytes fit in.
use galopush.Prelude.{
  suc, ◌+◌, ◌*◌, ◌≤◌, Bytes, [], ◌∷◌, some, length, take, drop, ltb, ◌≡◌, refl, sym, ◌∙◌, arith,
  All, All-take, All-drop, length-take, length-drop, subst, inl, inr, Bool-cases,
}
use galopush.Protocol.Message.{
  Header, AddHeader, ParamResp, ParamReg, IsByte, IsU32, IsHeader, IsParamReg,
}
use galopush.Protocol.Binary.{
  from_big_endian, decode_header, decode_add_header, decode_param_resp, decode_param_reg,
}

-- Four bytes are a number of 32 bits.
pub decode_add_header-IsU32 :
    (b : Bytes) {a : AddHeader} → All IsByte b → decode_add_header b ≡ some a → IsU32 a.len
unfolding decode_add_header from_big_endian
decode_add_header-IsU32 [] h e = ground arith
decode_add_header-IsU32 (x ∷ []) h e = ground arith
decode_add_header-IsU32 (x ∷ y ∷ []) h e = ground arith
decode_add_header-IsU32 (x ∷ y ∷ z ∷ []) h e = ground arith
decode_add_header-IsU32 (x ∷ y ∷ z ∷ w ∷ rest) (hx, (hy, (hz, (hw, h)))) e = ground arith

pub decode_header-IsHeader :
    (b : Bytes) {g : Header} → All IsByte b → decode_header b ≡ some g → IsHeader g
unfolding decode_header from_big_endian
decode_header-IsHeader [] h e = ground arith
decode_header-IsHeader (x ∷ []) h e = ground arith
decode_header-IsHeader (x ∷ y ∷ []) h e = ground arith
decode_header-IsHeader (x ∷ y ∷ z ∷ []) h e = ground arith
decode_header-IsHeader (x ∷ y ∷ z ∷ w ∷ []) h e = ground arith
decode_header-IsHeader (x ∷ y ∷ z ∷ w ∷ v ∷ rest) (hx, (hy, (hz, (hw, (hv, h))))) e = record {
  line_fits = ground arith;
  tid_fits = ground arith;
}

pub decode_param_resp-IsByte :
    (b : Bytes) {p : ParamResp} → All IsByte b → decode_param_resp b ≡ some p → IsByte p.code
unfolding decode_param_resp from_big_endian
decode_param_resp-IsByte [] h e = ground arith
decode_param_resp-IsByte (x ∷ rest) (hx, h) e = ground arith

-- What is cut out of 64 bytes.
fields_of :
    (rest : Bytes)
    → 64 ≤ length rest
    → (length (take 32 (take 64 rest)) ≡ 32) × (length (drop 32 (take 64 rest)) ≡ 32)
fields_of rest long =
    let whole = length-take 64 rest in
    (
      omega (arith, length-take 32 (take 64 rest), whole),
      omega (arith, length-drop 32 (take 64 rest), whole),
    )

same_reg : (q p : ParamReg) → some q ≡ some p → q ≡ p
same_reg q p e = cc

pub decode_param_reg-IsParamReg :
    (b : Bytes) {p : ParamReg} → All IsByte b → decode_param_reg b ≡ some p → IsParamReg p
unfolding decode_param_reg from_big_endian
decode_param_reg-IsParamReg [] h e = ground arith
decode_param_reg-IsParamReg (x ∷ []) h e = ground arith
decode_param_reg-IsParamReg (x ∷ y ∷ rest) {p} (hx, (hy, h)) e =
    elim (Bool-cases (ltb (suc (suc (length rest))) 66)) [
      | inl short ↦ absurd (ground (arith, short, e))
      | inr enough ↦
          let long : 64 ≤ length rest = ground (arith, enough) in
          let q : ParamReg = record {
            version = 0 * 256 + x;
            terminal_type = 0 * 256 + y;
            id = take 32 (take 64 rest);
            token = drop 32 (take 64 rest);
          } in
          let same : q ≡ p = same_reg q p (sym (rw enough refl) ∙ e) in
          let fields = fields_of rest long in
          subst IsParamReg same (record {
            version_fits = omega arith;
            terminal_type_fits = omega arith;
            id_length = fields.0;
            token_length = fields.1;
            id_bytes = All-take IsByte 32 (take 64 rest) (All-take IsByte 64 rest h);
            token_bytes = All-drop IsByte 32 (take 64 rest) (All-take IsByte 64 rest h);
          })
    ]
