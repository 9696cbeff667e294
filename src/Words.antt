-- ===== src/Words.antt =====
-- melsec_mc_net/utill.c: the conversions between C integers and little-endian bytes.
-- A signed value is its two's complement bit pattern, a float or double the pattern that the cast
-- of its address reads, so the signed, unsigned and floating functions work on the same numbers.
-- What a function writes through `bytes` is the list it returns; what it reads through `bytes` is
-- a list whose end is the end of the allocation.
pub mod LittleEndian
pub mod Scalar
pub mod Itoa
pub mod RoundTrip
use melsec_mc_net.Prelude.{
  ℕ, ◌*◌, ◌/◌, ◌%◌, ◌^◌, bit_and, bit_or, Option, none, some, List, [], ◌∷◌,
}

-- the cast to `byte`
abbrev pub u8 : ℕ → ℕ
u8 n = n % 2 ^ 8

abbrev pub u16 : ℕ → ℕ
u16 n = n % 2 ^ 16

abbrev pub u32 : ℕ → ℕ
u32 n = n % 2 ^ 32

unfoldable pub short2bytes : ℕ → List ℕ
short2bytes i = u8 (bit_and 0xff i) ∷ u8 (bit_and 0xff00 i / 2 ^ 8) ∷ []

-- `none` is a read past the end of the allocation.
unfoldable pub bytes2short : List ℕ → Option ℕ
bytes2short (b0 ∷ b1 ∷ rest) = some (bit_or (bit_and b0 0xff) (bit_and (b1 * 2 ^ 8) 0xff00))
bytes2short _ = none

unfoldable pub ushort2bytes : ℕ → List ℕ
ushort2bytes i = u8 (bit_and 0xff i) ∷ u8 (bit_and 0xff00 i / 2 ^ 8) ∷ []

unfoldable pub bytes2ushort : List ℕ → Option ℕ
bytes2ushort (b0 ∷ b1 ∷ rest) = some (bit_or (bit_and b0 0xff) (bit_and (b1 * 2 ^ 8) 0xff00))
bytes2ushort _ = none

unfoldable pub int2bytes : ℕ → List ℕ
int2bytes i =
    u8 (bit_and 0xff i)
    ∷ u8 (bit_and 0xff00 i / 2 ^ 8)
    ∷ u8 (bit_and 0xff0000 i / 2 ^ 16)
    ∷ u8 (bit_and 0xff000000 i / 2 ^ 24)
    ∷ []

unfoldable pub bytes2int32 : List ℕ → Option ℕ
bytes2int32 (b0 ∷ b1 ∷ b2 ∷ b3 ∷ rest) =
    let r0 : ℕ = bit_and b0 0xff in
    let r1 : ℕ = bit_or r0 (bit_and (b1 * 2 ^ 8) 0xff00) in
    let r2 : ℕ = bit_or r1 (bit_and (b2 * 2 ^ 16) 0xff0000) in
    some (bit_or r2 (bit_and (b3 * 2 ^ 24) 0xff000000))
bytes2int32 _ = none

unfoldable pub uint2bytes : ℕ → List ℕ
uint2bytes i =
    u8 (bit_and 0xff i)
    ∷ u8 (bit_and 0xff00 i / 2 ^ 8)
    ∷ u8 (bit_and 0xff0000 i / 2 ^ 16)
    ∷ u8 (bit_and 0xff000000 i / 2 ^ 24)
    ∷ []

unfoldable pub bytes2uint32 : List ℕ → Option ℕ
bytes2uint32 (b0 ∷ b1 ∷ b2 ∷ b3 ∷ rest) =
    let r0 : ℕ = bit_and b0 0xff in
    let r1 : ℕ = bit_or r0 (bit_and (b1 * 2 ^ 8) 0xff00) in
    let r2 : ℕ = bit_or r1 (bit_and (b2 * 2 ^ 16) 0xff0000) in
    some (bit_or r2 (bit_and (b3 * 2 ^ 24) 0xff000000))
bytes2uint32 _ = none

-- `i >> k` keeps, of a negative `i`, the bits that the mask reads.
unfoldable pub big_int2bytes : ℕ → List ℕ
big_int2bytes i =
    u8 (bit_and 0xff i)
    ∷ u8 (bit_and 0xff (i / 2 ^ 8))
    ∷ u8 (bit_and 0xff (i / 2 ^ 16))
    ∷ u8 (bit_and 0xff (i / 2 ^ 24))
    ∷ u8 (bit_and 0xff (i / 2 ^ 32))
    ∷ u8 (bit_and 0xff (i / 2 ^ 40))
    ∷ u8 (bit_and 0xff (i / 2 ^ 48))
    ∷ u8 (bit_and 0xff (i / 2 ^ 56))
    ∷ []

unfoldable pub bytes2big_int : List ℕ → Option ℕ
bytes2big_int (b0 ∷ b1 ∷ b2 ∷ b3 ∷ b4 ∷ b5 ∷ b6 ∷ b7 ∷ rest) =
    let r0 : ℕ = bit_and b0 0xff in
    let r1 : ℕ = bit_or r0 (bit_and (b1 * 2 ^ 8) 0xff00) in
    let r2 : ℕ = bit_or r1 (bit_and (b2 * 2 ^ 16) 0xff0000) in
    let r3 : ℕ = bit_or r2 (bit_and (b3 * 2 ^ 24) 0xff000000) in
    let r4 : ℕ = bit_or r3 (bit_and (b4 * 2 ^ 32) 0xff00000000) in
    let r5 : ℕ = bit_or r4 (bit_and (b5 * 2 ^ 40) 0xff0000000000) in
    let r6 : ℕ = bit_or r5 (bit_and (b6 * 2 ^ 48) 0xff000000000000) in
    some (bit_or r6 (bit_and (b7 * 2 ^ 56) 0xff00000000000000))
bytes2big_int _ = none

unfoldable pub ubig_int2bytes : ℕ → List ℕ
ubig_int2bytes i =
    u8 (bit_and 0xff i)
    ∷ u8 (bit_and 0xff (i / 2 ^ 8))
    ∷ u8 (bit_and 0xff (i / 2 ^ 16))
    ∷ u8 (bit_and 0xff (i / 2 ^ 24))
    ∷ u8 (bit_and 0xff (i / 2 ^ 32))
    ∷ u8 (bit_and 0xff (i / 2 ^ 40))
    ∷ u8 (bit_and 0xff (i / 2 ^ 48))
    ∷ u8 (bit_and 0xff (i / 2 ^ 56))
    ∷ []

unfoldable pub bytes2ubig_int : List ℕ → Option ℕ
bytes2ubig_int (b0 ∷ b1 ∷ b2 ∷ b3 ∷ b4 ∷ b5 ∷ b6 ∷ b7 ∷ rest) =
    let r0 : ℕ = bit_and b0 0xff in
    let r1 : ℕ = bit_or r0 (bit_and (b1 * 2 ^ 8) 0xff00) in
    let r2 : ℕ = bit_or r1 (bit_and (b2 * 2 ^ 16) 0xff0000) in
    let r3 : ℕ = bit_or r2 (bit_and (b3 * 2 ^ 24) 0xff000000) in
    let r4 : ℕ = bit_or r3 (bit_and (b4 * 2 ^ 32) 0xff00000000) in
    let r5 : ℕ = bit_or r4 (bit_and (b5 * 2 ^ 40) 0xff0000000000) in
    let r6 : ℕ = bit_or r5 (bit_and (b6 * 2 ^ 48) 0xff000000000000) in
    some (bit_or r6 (bit_and (b7 * 2 ^ 56) 0xff00000000000000))
bytes2ubig_int _ = none

unfoldable pub float2bytes : ℕ → List ℕ
unfolding int2bytes
float2bytes i = int2bytes i

unfoldable pub bytes2float : List ℕ → Option ℕ
unfolding bytes2int32
bytes2float bytes = bytes2int32 bytes

unfoldable pub double2bytes : ℕ → List ℕ
unfolding big_int2bytes
double2bytes i = big_int2bytes i

unfoldable pub bytes2double : List ℕ → Option ℕ
unfolding bytes2big_int
bytes2double bytes = bytes2big_int bytes
