-- ===== src/Words/Itoa.antt =====
-- melsec_mc_net/utill.c: `itoa`, against the digits of the number.
use native.Mathlib.Nat.{pow-zero, one-le-pow, mod-lt}
use mathlib.Core.Path.{ap₂, subst}
use melsec_mc_net.Prelude.{
  ℕ, zero, suc, ◌+◌, ◌-◌, ◌/◌, ◌%◌, ◌^◌, ◌<◌, ◌≤◌, ltb, ◌==◌, ◌&&◌, bit_and, if◌then◌else◌, ◌≡◌,
  refl, sym, ap, ◌∙◌, true, false, Option, none, some, List, [], ◌∷◌, ◌++◌, arith, append_assoc,
  append-nil,
}
use melsec_mc_net.Prelude.Bits.{low_mask, bit_and_comm}
use melsec_mc_net.Words.{u8}
use melsec_mc_net.Ascii.Digits.{hex_digit, numeral, digit-below, digit-above}

-- `if (*dest > '9') *dest += 'A' - '9' - 1`, of a signed `char`
abbrev letter : ℕ → ℕ
letter c = if ltb b'9' c && ltb c 128 then u8 (c + 7) else c

unfoldable pub itoa_digit : ℕ → ℕ → ℕ
itoa_digit radix value =
    if radix == 16
    then letter (b'0' + bit_and value 0xF)
    else if radix == 10
    then b'0' + value % 10
    else if radix == 8
    then b'0' + bit_and value 7
    else if radix == 2
    then b'0' + bit_and value 1
    else letter (u8 (b'0' + value % radix))

unfoldable pub itoa_next : ℕ → ℕ → ℕ
itoa_next radix value =
    if radix == 16
    then value / 2 ^ 4
    else if radix == 10
    then value / 10
    else if radix == 8
    then value / 2 ^ 3
    else if radix == 2
    then value / 2 ^ 1
    else value / radix

-- The loops of the switch, in front of the text that is there. A 64-bit number has at most 64 digits.
unfoldable pub itoa_loop : ℕ → ℕ → ℕ → List ℕ → List ℕ
itoa_loop zero radix value text = text
itoa_loop (suc left) radix value text =
    let rest = itoa_loop left radix (itoa_next radix value) (itoa_digit radix value ∷ text) in
    if value == 0 then text else rest

-- A base of 0 or 1 divides by zero, or leaves the buffer.
abbrev itoa_digits : ℕ → ℕ → List ℕ → Option (List ℕ)
itoa_digits radix value sign =
    if ltb radix 2 then none else some (sign ++ itoa_loop 64 radix value [])

-- The characters of `str` before the NUL; `radix` is the bit pattern of an `int`. A negative one asks for
-- a signed number; the negation of the least `int` is undefined.
unfoldable pub itoa : ℕ → ℕ → Option (List ℕ)
itoa value radix =
    if value == 0
    then some (b'0' ∷ [])
    else if ltb radix (2 ^ 31)
    then itoa_digits radix value []
    else if radix == 2 ^ 31
    then none
    else if ltb value (2 ^ 63)
    then itoa_digits (2 ^ 32 - radix) value []
    else itoa_digits (2 ^ 32 - radix) (2 ^ 64 - value) (b'-' ∷ [])

itoa_digit-eq :
    (radix value : ℕ)
    → 2 ≤ radix
    → radix ≤ 36
    → value % radix < radix
    → itoa_digit radix value ≡ hex_digit (value % radix)
unfolding itoa_digit
itoa_digit-eq radix value two few below = ground (
  arith,
  bit_and_comm value 15,
  low_mask 4 value,
  bit_and_comm value 7,
  low_mask 3 value,
  bit_and_comm value 1,
  low_mask 1 value,
)

itoa_next-eq : (radix value : ℕ) → itoa_next radix value ≡ value / radix
unfolding itoa_next
itoa_next-eq radix value = ground arith

itoa_loop-numeral :
    (k left radix value : ℕ) (text : List ℕ)
    → 2 ≤ radix
    → radix ≤ 36
    → k ≤ left
    → value < radix ^ k
    → (0 < k → radix ^ (k - 1) ≤ value)
    → itoa_loop left radix value text ≡ numeral k radix value ++ text
unfolding itoa_loop numeral
itoa_loop-numeral zero zero radix value text two few l h more = refl
itoa_loop-numeral zero (suc left) radix value text two few l h more =
    let stops : (value == 0) ≡ true = ground (arith, pow-zero radix, h) in
    rw (stops, if◌then◌else◌) refl
itoa_loop-numeral (suc k) zero radix value text two few l h more = absurd (omega arith)
itoa_loop-numeral (suc k) (suc left) radix value text two few l h more =
    let before : suc k - 1 ≡ k = omega arith in
    let least : radix ^ k ≤ value =
      subst (λ (m : ℕ). radix ^ m ≤ value) before (more (omega arith)) in
    let goes_on : (value == 0) ≡ false = ground (arith, one-le-pow k radix (omega arith), least) in
    rw (goes_on, if◌then◌else◌)
      (ap₂ (λ (n c : ℕ). itoa_loop left radix n (c ∷ text)) (itoa_next-eq radix value)
          (itoa_digit-eq radix value two few (mod-lt value (omega arith)))
        ∙ itoa_loop-numeral k left radix (value / radix) (hex_digit (value % radix) ∷ text) two few
            (omega arith) (digit-below value k radix (omega arith) h)
            (λ some_left. digit-above value k radix (omega arith) some_left least)
        ∙ sym
            (append_assoc (numeral k radix (value / radix)) (hex_digit (value % radix) ∷ []) text))

module _ (radix k n : ℕ) (two : 2 ≤ radix) (few : radix ≤ 36) (digits : k ≤ 64)
    (fits : n < radix ^ k) (needed : 0 < k → radix ^ (k - 1) ≤ n) (some_value : 0 < n) where
  loop_text : (sign : List ℕ) → itoa_digits radix n sign ≡ some (sign ++ numeral k radix n)
  loop_text sign =
      let based : ltb radix 2 ≡ false = ground (arith, two) in
      rw (based, if◌then◌else◌)
        (ap (λ (t : List ℕ). some (sign ++ t))
          (itoa_loop-numeral k 64 radix n [] two few digits fits needed
            ∙ append-nil (numeral k radix n)))

  -- A positive 64-bit number, in a base from 2 to 36, in which it has at most 64 digits: `itoa` prints
  -- exactly its digits.
  pub itoa-numeral : n < 2 ^ 64 → itoa n radix ≡ some (numeral k radix n)
  unfolding itoa
  itoa-numeral small =
      let nonzero : (n == 0) ≡ false = ground (arith, some_value) in
      let unsigned : ltb radix (2 ^ 31) ≡ true = ground (arith, few) in
      rw (nonzero, unsigned, if◌then◌else◌) (loop_text [])

  -- The negative of a positive number up to 2 ^ 63, for the negative of the base: a minus sign and exactly
  -- the digits of the number.
  pub itoa-negative :
      n ≤ 2 ^ 63 → itoa (2 ^ 64 - n) (2 ^ 32 - radix) ≡ some (b'-' ∷ numeral k radix n)
  unfolding itoa
  itoa-negative small =
      let base_back : 2 ^ 32 - (2 ^ 32 - radix) ≡ radix = omega (arith, few) in
      let value_back : 2 ^ 64 - (2 ^ 64 - n) ≡ n = omega (arith, small) in
      let nonzero : (2 ^ 64 - n == 0) ≡ false = ground (arith, small) in
      let signed : ltb (2 ^ 32 - radix) (2 ^ 31) ≡ false = ground (arith, few) in
      let not_least : (2 ^ 32 - radix == 2 ^ 31) ≡ false = ground (arith, few) in
      let negative : ltb (2 ^ 64 - n) (2 ^ 63) ≡ false = ground (arith, small) in
      rw (nonzero, itoa)
        (rw (signed, if◌then◌else◌)
          (rw (not_least, negative, if◌then◌else◌)
            (ap₂ (λ (r v : ℕ). itoa_digits r v (b'-' ∷ [])) base_back value_back
              ∙ loop_text (b'-' ∷ []))))
