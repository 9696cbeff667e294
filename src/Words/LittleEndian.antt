-- ===== src/Words/LittleEndian.antt =====
-- The conversions of utill.c against the little-endian reading of a byte list, one function of
-- each width at a time.
use mathlib.Core.Path.{ap₂}
use native.Mathlib.Nat.{pow-suc}
use melsec_mc_net.Prelude.{
  ℕ, zero, suc, ◌+◌, ◌*◌, ◌/◌, ◌%◌, ◌^◌, ◌<◌, bit_and, ◌≡◌, refl, ap, ◌∙◌, some, List, [], ◌∷◌,
  arith, length, All,
}
use melsec_mc_net.Prelude.Bits.{low_mask, byte_field, join_byte, bit_and_comm}
use melsec_mc_net.Words.{
  u8, short2bytes, bytes2short, int2bytes, bytes2int32, big_int2bytes, bytes2big_int,
}

-- The `n` low bytes of a number, lowest first.
unfoldable pub le_bytes : ℕ → ℕ → List ℕ
le_bytes zero v = []
le_bytes (suc n) v = v % 256 ∷ le_bytes n (v / 256)

-- The number that a list of bytes stands for, lowest first.
unfoldable pub le_value : List ℕ → ℕ
le_value [] = 0
le_value (b ∷ bs) = b + 256 * le_value bs

abbrev pub IsBytes : List ℕ → Type 0
IsBytes = All (λ b. b < 256)

mask_low : (x : ℕ) → u8 (bit_and 0xff x) ≡ x % 256
mask_low x = omega (arith, low_mask 8 x)

pub int2bytes-le_bytes : (i : ℕ) → int2bytes i ≡ le_bytes 4 i
unfolding int2bytes le_bytes
int2bytes-le_bytes i = ground (arith, mask_low i, byte_field 8 i, byte_field 16 i, byte_field 24 i)

low_byte : (b : ℕ) → b < 256 → bit_and b 0xff ≡ b
low_byte b h = bit_and_comm b 0xff ∙ omega (arith, low_mask 8 b)

pub bytes2int32-le_value :
    (b0 b1 b2 b3 : ℕ) (rest : List ℕ)
    → IsBytes (b0 ∷ b1 ∷ b2 ∷ b3 ∷ [])
    → bytes2int32 (b0 ∷ b1 ∷ b2 ∷ b3 ∷ rest) ≡ some (le_value (b0 ∷ b1 ∷ b2 ∷ b3 ∷ []))
unfolding bytes2int32 le_value
bytes2int32-le_value b0 b1 b2 b3 rest h =
    rw
      (
        low_byte b0 (omega arith),
        join_byte 8 b0 b1 (omega arith) (omega arith),
        join_byte 16 (b0 + b1 * 2 ^ 8) b2 (omega arith) (omega arith),
        join_byte 24 (b0 + b1 * 2 ^ 8 + b2 * 2 ^ 16) b3 (omega arith) (omega arith),
      )
      (ap some (omega arith))

pub short2bytes-le_bytes : (i : ℕ) → short2bytes i ≡ le_bytes 2 i
unfolding short2bytes le_bytes
short2bytes-le_bytes i = ground (arith, mask_low i, byte_field 8 i)

pub bytes2short-le_value :
    (b0 b1 : ℕ) (rest : List ℕ)
    → IsBytes (b0 ∷ b1 ∷ [])
    → bytes2short (b0 ∷ b1 ∷ rest) ≡ some (le_value (b0 ∷ b1 ∷ []))
unfolding bytes2short le_value
bytes2short-le_value b0 b1 rest h =
    rw (low_byte b0 (omega arith), join_byte 8 b0 b1 (omega arith) (omega arith))
      (ap some (omega arith))

pub big_int2bytes-le_bytes : (i : ℕ) → big_int2bytes i ≡ le_bytes 8 i
unfolding big_int2bytes le_bytes
big_int2bytes-le_bytes i = ground (
  arith,
  mask_low i,
  mask_low (i / 2 ^ 8),
  mask_low (i / 2 ^ 16),
  mask_low (i / 2 ^ 24),
  mask_low (i / 2 ^ 32),
  mask_low (i / 2 ^ 40),
  mask_low (i / 2 ^ 48),
  mask_low (i / 2 ^ 56),
)

module _ (b0 b1 b2 b3 b4 b5 b6 b7 : ℕ) (rest : List ℕ)
    (h : IsBytes (b0 ∷ b1 ∷ b2 ∷ b3 ∷ b4 ∷ b5 ∷ b6 ∷ b7 ∷ [])) where
  low_half : ℕ
  low_half = b0 + b1 * 2 ^ 8 + b2 * 2 ^ 16 + b3 * 2 ^ 24

  pub bytes2big_int-le_value :
      bytes2big_int (b0 ∷ b1 ∷ b2 ∷ b3 ∷ b4 ∷ b5 ∷ b6 ∷ b7 ∷ rest)
      ≡ some (le_value (b0 ∷ b1 ∷ b2 ∷ b3 ∷ b4 ∷ b5 ∷ b6 ∷ b7 ∷ []))
  unfolding bytes2big_int le_value low_half
  bytes2big_int-le_value =
      rw
        (
          low_byte b0 (omega arith),
          join_byte 8 b0 b1 (omega arith) (omega arith),
          join_byte 16 (b0 + b1 * 2 ^ 8) b2 (omega arith) (omega arith),
          join_byte 24 (b0 + b1 * 2 ^ 8 + b2 * 2 ^ 16) b3 (omega arith) (omega arith),
          join_byte 32 low_half b4 (omega arith) (omega arith),
          join_byte 40 (low_half + b4 * 2 ^ 32) b5 (omega arith) (omega arith),
          join_byte 48 (low_half + b4 * 2 ^ 32 + b5 * 2 ^ 40) b6 (omega arith) (omega arith),
          join_byte 56 (low_half + b4 * 2 ^ 32 + b5 * 2 ^ 40 + b6 * 2 ^ 48) b7 (omega arith)
              (omega arith),
        )
        (ap some (omega arith))

pub IsBytes-le_bytes : (n v : ℕ) → IsBytes (le_bytes n v)
unfolding le_bytes
IsBytes-le_bytes zero v = tt
IsBytes-le_bytes (suc n) v = (omega arith, IsBytes-le_bytes n (v / 256))

pub length-le_bytes : (n v : ℕ) → length (le_bytes n v) ≡ n
unfolding le_bytes
length-le_bytes zero v = refl
length-le_bytes (suc n) v = ap suc (length-le_bytes n (v / 256))

pub le_value-le_bytes : (n v : ℕ) → v < 256 ^ n → le_value (le_bytes n v) ≡ v
unfolding le_value le_bytes
le_value-le_bytes zero v h = omega arith
le_value-le_bytes (suc n) v h =
    omega (arith, le_value-le_bytes n (v / 256) (omega (arith, pow-suc 256 n)))

pub le_bytes-le_value : (bs : List ℕ) → IsBytes bs → le_bytes (length bs) (le_value bs) ≡ bs
unfolding le_value le_bytes
le_bytes-le_value [] h = refl
le_bytes-le_value (b ∷ bs) h =
    ap₂ ◌∷◌ (omega arith) (ap (le_bytes (length bs)) (omega arith) ∙ le_bytes-le_value bs h.1)
