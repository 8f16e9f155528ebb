-- ===== src/Comet/Tcp/Reading.antt =====
-- What readTimeout of comet/util.go and CodecDecode make of segments of bytes: buffers of bytes, as
-- long as they were asked for.
use galopush.Prelude.{
  ℕ, zero, suc, ◌-◌, ◌<◌, ◌≤◌, Bytes, [], ◌∷◌, ◌++◌, some, >>=-eq-some, length, take, drop,
  replicate, ◌≡◌, sym, ◌∙◌, subst, arith, All, All-append, All-take, All-drop, length-append,
  length-replicate,
}
use galopush.Protocol.Message.{IsByte}
use galopush.Protocol.Codec.{codec_decode, loop_xor_decode}
use galopush.Protocol.Codec.Totality.{codec_decode-Keeps}
use galopush.Comet.Tcp.{Segments, remain, conn_read, read_timeout}

-- Segments of bytes.
abbrev pub AreBytes : Segments → Type 0
AreBytes = All (All IsByte)

AreBytes-remain :
    (seg : Bytes) (s : Segments) → All IsByte seg → AreBytes s → AreBytes (remain seg s)
unfolding remain
AreBytes-remain [] s h k = k
AreBytes-remain (x ∷ seg) s h k = (h, k)

abbrev Got : Type 0
Got = record { got : Bytes; rest : Segments }

length-take_le : (n : ℕ) (xs : Bytes) → length (take n xs) ≤ n
length-take_le zero xs = omega arith
length-take_le (suc n) [] = omega arith
length-take_le (suc n) (x ∷ xs) = omega (arith, length-take_le n xs)

some_got : (a b : Got) → some a ≡ some b → a ≡ b
some_got a b e = cc

conn_read-AreBytes :
    (n : ℕ) (s : Segments) {r : Got}
    → AreBytes s
    → conn_read n s ≡ some r
    → All IsByte r.got × AreBytes r.rest × (length r.got ≤ n)
unfolding conn_read
conn_read-AreBytes zero s h e =
    subst (λ x. All IsByte x.got × AreBytes x.rest × (length x.got ≤ 0))
      (some_got (record { got = []; rest = s }) _ e) (tt, h, omega arith)
conn_read-AreBytes (suc n) [] h e = absurd (cc)
conn_read-AreBytes (suc n) ([] ∷ s) (hx, h) e = conn_read-AreBytes (suc n) s h e
conn_read-AreBytes (suc n) ((x ∷ seg) ∷ s) ((hx, hseg), h) e =
    subst (λ r. All IsByte r.got × AreBytes r.rest × (length r.got ≤ suc n))
      (some_got (record { got = x ∷ take n seg; rest = remain (drop n seg) s }) _ e)
      (
        (hx, All-take IsByte n seg hseg),
        AreBytes-remain (drop n seg) s (All-drop IsByte n seg hseg) h,
        (let short = length-take_le n seg in omega (arith, short)),
      )

abbrev Filled : Type 0
Filled = record { buffer : Bytes; rest : Segments }

All-zeros : (n : ℕ) → All IsByte (replicate n 0)
All-zeros zero = tt
All-zeros (suc n) = (omega arith, All-zeros n)

length-zeros : (n : ℕ) → length (replicate {A = ℕ} n 0) ≡ n
length-zeros n = length-replicate {A = ℕ} n 0

some_filled : (a b : Filled) → some a ≡ some b → a ≡ b
some_filled a b e = cc

-- A buffer is filled with bytes, to its length.
pub read_timeout-AreBytes :
    (n : ℕ) (s : Segments) {r : Filled}
    → AreBytes s
    → read_timeout n s ≡ some r
    → All IsByte r.buffer × AreBytes r.rest × (length r.buffer ≡ n)
unfolding read_timeout
read_timeout-AreBytes n s h e =
    let (c, got, built) = >>=-eq-some (conn_read n s) _ e in
    let (bytes, left, short) = conn_read-AreBytes n s h got in
    let zeros = replicate (n - length c.got) 0 in
    subst (λ r. All IsByte r.buffer × AreBytes r.rest × (length r.buffer ≡ n))
      (some_filled (record { buffer = c.got ++ zeros; rest = c.rest }) _ built)
      (
        All-append IsByte c.got zeros bytes (All-zeros (n - length c.got)),
        left,
        omega (arith, length-append c.got zeros, length-zeros (n - length c.got), short),
      )

-- A body that was decoded under the ring encoding was not empty.
ring_long :
    (b : Bytes) (n encode : ℕ) (body : Bytes)
    → codec_decode b n encode ≡ some body
    → encode ≡ 3
    → 0 < n
unfolding codec_decode loop_xor_decode
ring_long b zero encode body d three = ground (arith, d, three)
ring_long b (suc n) encode body d three = omega arith

-- A body that was decoded is of bytes, and as long as before.
pub decoded-AreBytes :
    (b : Bytes) (n encode : ℕ) (body : Bytes)
    → All IsByte b
    → length b ≡ n
    → codec_decode b n encode ≡ some body
    → All IsByte body × (length body ≡ n)
decoded-AreBytes b n encode body h e d =
    let k = codec_decode-Keeps b n encode h (omega (arith, e)) (ring_long b n encode body d) in
    let same : k.out ≡ body = some_bytes k.out body (sym k.returns ∙ d) in
    subst (λ x. All IsByte x × (length x ≡ n)) same (k.bytes, k.same_length ∙ e)
  where
    some_bytes : (a b : Bytes) → some a ≡ some b → a ≡ b
    some_bytes a b e = cc
