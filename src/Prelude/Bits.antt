-- ===== src/Prelude/Bits.antt =====
-- `&` with a byte-wide field and `|` of disjoint fields, as arithmetic.
use Prim.Native.Nat.{
  ℕ, zero, suc, ◌+◌, ◌-◌, ◌*◌, ◌/◌, ◌%◌, ◌^◌, ◌≤◌, ◌<◌, min, max, bit_and, bit_or, digits,
  bit_and-bitwise, bit_or-bitwise,
}
use mathlib.Core.Path.{◌≡◌, refl, ap}
use native.Mathlib.Nat.{
  pow-suc, one-le-pow, div-div-eq-div-mul, div-add-mod, mul-one, div-one, mul-div_cancel,
}
use native.Mathlib.Omega.{arith}

-- The recursion on binary digits does not depend on its fuel, once there is enough.
enough_fuel :
    (z : ℕ → ℕ) (f : ℕ → ℕ → ℕ) (n m a b : ℕ) → a ≤ n → a ≤ m → digits z f n a b ≡ digits z f m a b
enough_fuel z f zero zero a b p q = refl
enough_fuel z f zero (suc m) zero b p q = refl
enough_fuel z f zero (suc m) (suc a) b p q = absurd (omega arith)
enough_fuel z f (suc n) zero zero b p q = refl
enough_fuel z f (suc n) zero (suc a) b p q = absurd (omega arith)
enough_fuel z f (suc n) (suc m) zero b p q = refl
enough_fuel z f (suc n) (suc m) (suc a) b p q =
    omega (arith, enough_fuel z f n m (suc a / 2) (b / 2) (omega arith) (omega arith))

and_low : (a b : ℕ) → bit_and a b ≡ 2 * bit_and (a / 2) (b / 2) + min (a % 2) (b % 2)
and_low zero b = omega (arith, bit_and-bitwise 0 b, bit_and-bitwise 0 (b / 2))
and_low (suc a) b = omega (
  arith,
  bit_and-bitwise (suc a) b,
  bit_and-bitwise (suc a / 2) (b / 2),
  enough_fuel (λ t. 0) min a (suc a / 2) (suc a / 2) (b / 2) (omega arith) (omega arith),
)

or_low : (a b : ℕ) → bit_or a b ≡ 2 * bit_or (a / 2) (b / 2) + max (a % 2) (b % 2)
or_low zero b = omega (arith, bit_or-bitwise 0 b, bit_or-bitwise 0 (b / 2))
or_low (suc a) b = omega (
  arith,
  bit_or-bitwise (suc a) b,
  bit_or-bitwise (suc a / 2) (b / 2),
  enough_fuel (λ t. t) max a (suc a / 2) (suc a / 2) (b / 2) (omega arith) (omega arith),
)

double_field : (q k : ℕ) → q * 2 ^ suc k ≡ 2 * (q * 2 ^ k)
double_field q k = omega (arith, ap (λ (t : ℕ). q * t) (pow-suc 2 k))

div_halves : (d x : ℕ) → x / (d * 2) ≡ x / 2 / d
div_halves d x = rw div-div-eq-div-mul (ap (λ (t : ℕ). x / t) (omega arith))

mod_halves : (d x : ℕ) → x % (d * 2) ≡ 2 * (x / 2 % d) + x % 2
mod_halves d x =
    omega
      (arith, ap (λ (t : ℕ). d * t) (div_halves d x), div-add-mod x (d * 2), div-add-mod (x / 2) d)

zero-bit_and : (b : ℕ) → bit_and 0 b ≡ 0
zero-bit_and b = bit_and-bitwise 0 b

-- `m & x` where `m` has the low `w` bits.
pub low_mask : (w x : ℕ) → bit_and (2 ^ w - 1) x ≡ x % 2 ^ w
low_mask zero x = omega (arith, zero-bit_and x)
low_mask (suc w) x = ground (
  arith,
  and_low (2 ^ suc w - 1) x,
  pow-suc 2 w,
  one-le-pow w 2,
  low_mask w (x / 2),
  mod_halves (2 ^ w) x,
)

-- `m << k & x` looks at the bits of `x` from the `k`th on.
pub shifted_mask : (k m x : ℕ) → bit_and (m * 2 ^ k) x ≡ bit_and m (x / 2 ^ k) * 2 ^ k
shifted_mask zero m x =
    omega (arith, ap (λ (t : ℕ). bit_and t x) (mul-one m), ap (λ (t : ℕ). bit_and m t) (div-one x))
shifted_mask (suc k) m x = ground (
  arith,
  and_low (m * 2 ^ suc k) x,
  double_field m k,
  double_field (bit_and m (x / 2 ^ suc k)) k,
  shifted_mask k m (x / 2),
  div_halves (2 ^ k) x,
  pow-suc 2 k,
)

bit_or-zero : (n a : ℕ) → a ≤ n → bit_or a 0 ≡ a
bit_or-zero n zero h = refl
bit_or-zero zero (suc a) h = absurd (omega arith)
bit_or-zero (suc n) (suc a) h =
    omega (arith, or_low (suc a) 0, bit_or-zero n (suc a / 2) (omega arith))

zero-bit_or : (b : ℕ) → bit_or 0 b ≡ b
zero-bit_or b = bit_or-bitwise 0 b

-- `r | q << k` where `r` has `k` bits.
pub or_fields : (k q r : ℕ) → r < 2 ^ k → bit_or r (q * 2 ^ k) ≡ r + q * 2 ^ k
or_fields zero q zero h = omega (arith, zero-bit_or (q * 1))
or_fields zero q (suc r) h = absurd (omega arith)
or_fields (suc k) q r h = ground (
  arith,
  or_low r (q * 2 ^ suc k),
  double_field q k,
  pow-suc 2 k,
  or_fields k q (r / 2) (omega (arith, pow-suc 2 k)),
)

bit_and-zero : (n a : ℕ) → a ≤ n → bit_and a 0 ≡ 0
bit_and-zero n zero h = refl
bit_and-zero zero (suc a) h = absurd (omega arith)
bit_and-zero (suc n) (suc a) h =
    omega (arith, and_low (suc a) 0, bit_and-zero n (suc a / 2) (omega arith))

and_comm_fuel : (n a b : ℕ) → a ≤ n → bit_and a b ≡ bit_and b a
and_comm_fuel n zero b h = omega (arith, zero-bit_and b, bit_and-zero b b (omega arith))
and_comm_fuel zero (suc a) b h = absurd (omega arith)
and_comm_fuel (suc n) (suc a) b h =
    omega (
      arith,
      and_low (suc a) b,
      and_low b (suc a),
      and_comm_fuel n (suc a / 2) (b / 2) (omega arith),
    )

pub bit_and_comm : (a b : ℕ) → bit_and a b ≡ bit_and b a
bit_and_comm a b = and_comm_fuel a a b (omega arith)

-- A byte-wide mask takes one byte out of a word, in its place.
pub byte_field : (k x : ℕ) → bit_and (255 * 2 ^ k) x ≡ x / 2 ^ k % 256 * 2 ^ k
byte_field k x =
    omega (arith, shifted_mask k 255 x, ap (λ (t : ℕ). t * 2 ^ k) (low_mask 8 (x / 2 ^ k)))

-- `r | (b << k & 0xff << k)`: a byte put above `k` bits.
pub join_byte :
    (k r b : ℕ) → r < 2 ^ k → b < 256 → bit_or r (bit_and (b * 2 ^ k) (255 * 2 ^ k)) ≡ r + b * 2 ^ k
join_byte k r b hr hb =
    rw (bit_and_comm (b * 2 ^ k) (255 * 2 ^ k), byte_field k (b * 2 ^ k), shifted_back)
      (or_fields k b r hr)
  where
    shifted_back : b * 2 ^ k / 2 ^ k % 256 ≡ b
    shifted_back = omega (arith, mul-div_cancel b (one-le-pow k 2 (omega arith)))

-- `q << k | r` where `r` has `k` bits.
pub fields_or : (k q r : ℕ) → r < 2 ^ k → bit_or (q * 2 ^ k) r ≡ q * 2 ^ k + r
fields_or zero q zero h = omega (arith, bit_or-zero (q * 1) (q * 1) (omega arith))
fields_or zero q (suc r) h = absurd (omega arith)
fields_or (suc k) q r h = ground (
  arith,
  or_low (q * 2 ^ suc k) r,
  double_field q k,
  pow-suc 2 k,
  fields_or k q (r / 2) (omega (arith, pow-suc 2 k)),
)
