-- ===== src/Words/RoundTrip.antt =====
-- Every conversion of utill.c is little-endian, and each pair is inverse.
use mathlib.Core.Option
use melsec_mc_net.Prelude.{ℕ, ◌^◌, ◌<◌, ◌≡◌, ap, ◌∙◌, some, List, [], ◌∷◌, ◌++◌, arith, length}
use melsec_mc_net.Words.{
  short2bytes, bytes2short, ushort2bytes, bytes2ushort, int2bytes, bytes2int32, uint2bytes,
  bytes2uint32, big_int2bytes, bytes2big_int, ubig_int2bytes, bytes2ubig_int, float2bytes,
  bytes2float, double2bytes, bytes2double,
}
use melsec_mc_net.Words.LittleEndian.{
  le_bytes, le_value, IsBytes, short2bytes-le_bytes, int2bytes-le_bytes, big_int2bytes-le_bytes,
  bytes2short-le_value, bytes2int32-le_value, bytes2big_int-le_value, length-le_bytes,
  IsBytes-le_bytes, le_value-le_bytes, le_bytes-le_value,
}
use melsec_mc_net.Words.Scalar.{
  Scalar, short, ushort, int32, uint32, int64, uint64, float, double, width, encode, decode,
}

-- Every `…2bytes` function writes the low bytes of its argument, lowest first, as many as its type
-- has.
pub encode-eq-le_bytes : (s : Scalar) (i : ℕ) → encode s i ≡ le_bytes (width s) i
unfolding ushort2bytes short2bytes uint2bytes int2bytes ubig_int2bytes big_int2bytes float2bytes
    double2bytes
encode-eq-le_bytes short i = short2bytes-le_bytes i
encode-eq-le_bytes ushort i = short2bytes-le_bytes i
encode-eq-le_bytes int32 i = int2bytes-le_bytes i
encode-eq-le_bytes uint32 i = int2bytes-le_bytes i
encode-eq-le_bytes int64 i = big_int2bytes-le_bytes i
encode-eq-le_bytes uint64 i = big_int2bytes-le_bytes i
encode-eq-le_bytes float i = int2bytes-le_bytes i
encode-eq-le_bytes double i = big_int2bytes-le_bytes i

decode2 :
    (bs rest : List ℕ) → IsBytes bs → length bs ≡ 2 → bytes2short (bs ++ rest) ≡ some (le_value bs)
decode2 (b0 ∷ b1 ∷ []) rest h e = bytes2short-le_value b0 b1 rest h
decode2 [] rest h e = absurd (omega arith)
decode2 (b0 ∷ []) rest h e = absurd (omega arith)
decode2 (b0 ∷ b1 ∷ b2 ∷ bs) rest h e = absurd (omega arith)

decode4 :
    (bs rest : List ℕ) → IsBytes bs → length bs ≡ 4 → bytes2int32 (bs ++ rest) ≡ some (le_value bs)
decode4 (b0 ∷ b1 ∷ b2 ∷ b3 ∷ []) rest h e = bytes2int32-le_value b0 b1 b2 b3 rest h
decode4 [] rest h e = absurd (omega arith)
decode4 (b0 ∷ []) rest h e = absurd (omega arith)
decode4 (b0 ∷ b1 ∷ []) rest h e = absurd (omega arith)
decode4 (b0 ∷ b1 ∷ b2 ∷ []) rest h e = absurd (omega arith)
decode4 (b0 ∷ b1 ∷ b2 ∷ b3 ∷ b4 ∷ bs) rest h e = absurd (omega arith)

decode8 :
    (bs rest : List ℕ)
    → IsBytes bs
    → length bs ≡ 8
    → bytes2big_int (bs ++ rest) ≡ some (le_value bs)
decode8 (b0 ∷ b1 ∷ b2 ∷ b3 ∷ b4 ∷ b5 ∷ b6 ∷ b7 ∷ []) rest h e =
    bytes2big_int-le_value b0 b1 b2 b3 b4 b5 b6 b7 rest h
decode8 [] rest h e = absurd (omega arith)
decode8 (b0 ∷ []) rest h e = absurd (omega arith)
decode8 (b0 ∷ b1 ∷ []) rest h e = absurd (omega arith)
decode8 (b0 ∷ b1 ∷ b2 ∷ []) rest h e = absurd (omega arith)
decode8 (b0 ∷ b1 ∷ b2 ∷ b3 ∷ []) rest h e = absurd (omega arith)
decode8 (b0 ∷ b1 ∷ b2 ∷ b3 ∷ b4 ∷ []) rest h e = absurd (omega arith)
decode8 (b0 ∷ b1 ∷ b2 ∷ b3 ∷ b4 ∷ b5 ∷ []) rest h e = absurd (omega arith)
decode8 (b0 ∷ b1 ∷ b2 ∷ b3 ∷ b4 ∷ b5 ∷ b6 ∷ []) rest h e = absurd (omega arith)
decode8 (b0 ∷ b1 ∷ b2 ∷ b3 ∷ b4 ∷ b5 ∷ b6 ∷ b7 ∷ b8 ∷ bs) rest h e = absurd (omega arith)

-- Every `bytes2…` function reads as many bytes as its type has, lowest first, and no byte behind
-- them matters.
pub decode-eq-le_value :
    (s : Scalar) (bs rest : List ℕ)
    → IsBytes bs
    → length bs ≡ width s
    → decode s (bs ++ rest) ≡ some (le_value bs)
unfolding bytes2ushort bytes2short bytes2uint32 bytes2int32 bytes2ubig_int bytes2big_int bytes2float
    bytes2double
decode-eq-le_value short = decode2
decode-eq-le_value ushort = decode2
decode-eq-le_value int32 = decode4
decode-eq-le_value uint32 = decode4
decode-eq-le_value int64 = decode8
decode-eq-le_value uint64 = decode8
decode-eq-le_value float = decode4
decode-eq-le_value double = decode8

-- For each of the eight types, a value that fits its width is read back from the bytes that it was
-- written as, whatever bytes follow them.
pub decode-encode :
    (s : Scalar) (i : ℕ) (rest : List ℕ)
    → i < 256 ^ width s
    → decode s (encode s i ++ rest) ≡ some i
decode-encode s i rest h = rw encode-eq-le_bytes (
    decode-eq-le_value s (le_bytes (width s) i) rest (IsBytes-le_bytes (width s) i)
      (length-le_bytes (width s) i)
    ∙ ap some (le_value-le_bytes (width s) i h))

-- For each of the eight types, as many bytes as it has decode to a value, and writing that value
-- produces the same bytes.
pub encode-decode :
    (s : Scalar) (bs rest : List ℕ)
    → IsBytes bs
    → length bs ≡ width s
    → Option.map (encode s) (decode s (bs ++ rest)) ≡ some bs
encode-decode s bs rest h e =
    rw (decode-eq-le_value s bs rest h e, encode-eq-le_bytes, ← e)
      (ap some (le_bytes-le_value bs h))
