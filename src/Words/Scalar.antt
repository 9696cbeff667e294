-- ===== src/Words/Scalar.antt =====
-- The eight types that utill.c converts, as one family.
use melsec_mc_net.Prelude.{ℕ, Option, List}
use melsec_mc_net.Words.{
  short2bytes, bytes2short, ushort2bytes, bytes2ushort, int2bytes, bytes2int32, uint2bytes,
  bytes2uint32, big_int2bytes, bytes2big_int, ubig_int2bytes, bytes2ubig_int, float2bytes,
  bytes2float, double2bytes, bytes2double,
}

-- The types that the library transfers, by the pair of functions that converts each.
pub data Scalar : Type 0 where
  short ushort int32 uint32 int64 uint64 float double : Scalar

abbrev pub width : Scalar → ℕ
width short = 2
width ushort = 2
width int32 = 4
width uint32 = 4
width int64 = 8
width uint64 = 8
width float = 4
width double = 8

abbrev pub encode : Scalar → ℕ → List ℕ
encode short = short2bytes
encode ushort = ushort2bytes
encode int32 = int2bytes
encode uint32 = uint2bytes
encode int64 = big_int2bytes
encode uint64 = ubig_int2bytes
encode float = float2bytes
encode double = double2bytes

abbrev pub decode : Scalar → List ℕ → Option ℕ
decode short = bytes2short
decode ushort = bytes2ushort
decode int32 = bytes2int32
decode uint32 = bytes2uint32
decode int64 = bytes2big_int
decode uint64 = bytes2ubig_int
decode float = bytes2float
decode double = bytes2double
