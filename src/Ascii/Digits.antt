-- ===== src/Ascii/Digits.antt =====
-- Numbers as digits, by their mathematical description.
use mathlib.Core.Path.{subst}
use native.Mathlib.Nat.{
  pow-suc, div-lt_iff_lt-mul, le-div_iff_mul-le, div-add-mod', mod-lt, pow-zero, pow-succ', div-one,
  div-div-eq-div-mul, mul_assoc,
}
use melsec_mc_net.Prelude.{
  ℕ, zero, suc, ◌+◌, ◌-◌, ◌*◌, ◌/◌, ◌%◌, ◌^◌, ◌<◌, ◌≤◌, ◌≡◌, refl, sym, ap, ◌∙◌, Option, some, none,
  List, [], ◌∷◌, ◌++◌, arith, length, ltb, leb, ◌&&◌, if◌then◌else◌, take, take-all, length-append,
}

-- The character of a digit below 16.
abbrev pub hex_digit : ℕ → ℕ
hex_digit n = if ltb n 10 then n + 48 else n + 55

-- The last digits of a number, the first one first.
unfoldable pub numeral : ℕ → ℕ → ℕ → List ℕ
numeral zero base n = []
numeral (suc k) base n = numeral k base (n / base) ++ hex_digit (n % base) ∷ []

abbrev below : ℕ → ℕ → Option ℕ
below base d = if ltb d base then some d else none

-- The digit of a character in a base: upper-case letters only.
abbrev pub digit_of : ℕ → ℕ → Option ℕ
digit_of base c =
    if leb 48 c && leb c 57
    then below base (c - 48)
    else if leb 65 c && leb c 70
    then below base (c - 55)
    else none

-- The number that digits stand for, behind the digits of the number `front`.
unfoldable pub number_of : ℕ → ℕ → List ℕ → Option ℕ
number_of base front [] = some front
number_of base front (c ∷ text) = elim (digit_of base c) [
  | none ↦ none
  | some d ↦ number_of base (front * base + d) text
]

digit_of-hex_digit : (base n : ℕ) → n < base → base ≤ 16 → digit_of base (hex_digit n) ≡ some n
digit_of-hex_digit base n h b = ground arith

pub digit-below : (n k base : ℕ) → 0 < base → n < base ^ suc k → n / base < base ^ k
digit-below n k base p h = (div-lt_iff_lt-mul p).1 (subst (λ (m : ℕ). n < m) (pow-suc base k) h)

pub digit-above : (n k base : ℕ) → 0 < base → 0 < k → base ^ k ≤ n → base ^ (k - 1) ≤ n / base
digit-above n zero base p pos h = absurd (omega arith)
digit-above n (suc k) base p pos h =
    let before : suc k - 1 ≡ k = omega arith in
    subst (λ (m : ℕ). base ^ m ≤ n / base) (sym before)
      ((le-div_iff_mul-le p).1 (subst (λ (m : ℕ). m ≤ n) (pow-suc base k) h))

number_of-last :
    (base front : ℕ) (text : List ℕ) (n d : ℕ)
    → d < base
    → base ≤ 16
    → number_of base front text ≡ some n
    → number_of base front (text ++ hex_digit d ∷ []) ≡ some (n * base + d)
unfolding number_of
number_of-last base front [] n d h b e = ground (arith, digit_of-hex_digit base d h b)
number_of-last base front (c ∷ text) n d h b e =
    elim (digit_of base c)
        as (λ o.
          (elim o [ none ↦ none | some x ↦ number_of base (front * base + x) text ]) ≡ some n
          → (elim o [
            | none ↦ none
            | some x ↦ number_of base (front * base + x) (text ++ hex_digit d ∷ [])
          ])
            ≡ some (n * base + d)) [
              | none ↦ λ nothing. cc
              | some x ↦ number_of-last base (front * base + x) text n d h b
            ]
      e

-- The digits of a number that is small enough for them are read as that number.
pub number_of-numeral :
    (k base n front : ℕ)
    → 0 < base
    → base ≤ 16
    → n < base ^ k
    → number_of base front (numeral k base n) ≡ some (front * base ^ k + n)
unfolding number_of numeral
number_of-numeral zero base n front p b h = ap some (grind (arith, pow-zero base))
number_of-numeral (suc k) base n front p b h =
    number_of-last base front (numeral k base (n / base)) (front * base ^ k + n / base) (n % base)
      (mod-lt n p) b (number_of-numeral k base (n / base) front p b (digit-below n k base p h))
    ∙ ap some (grind (arith, pow-suc base k, div-add-mod' n base))

pub number_of-numeral_alone :
    (k base n : ℕ)
    → 0 < base
    → base ≤ 16
    → n < base ^ k
    → number_of base 0 (numeral k base n) ≡ some n
number_of-numeral_alone k base n p b h = number_of-numeral k base n 0 p b h ∙ ap some (grind arith)

pub length-numeral : (k base n : ℕ) → length (numeral k base n) ≡ k
unfolding numeral
length-numeral zero base n = refl
length-numeral (suc k) base n =
    length-append (numeral k base (n / base)) (hex_digit (n % base) ∷ [])
    ∙ omega (arith, length-numeral k base (n / base))

take-front :
    (k : ℕ) (front rest : List ℕ) → k ≤ length front → take k (front ++ rest) ≡ take k front
take-front zero front rest h = refl
take-front (suc k) [] rest h = absurd (omega arith)
take-front (suc k) (c ∷ front) rest h =
    ap (λ (t : List ℕ). c ∷ t) (take-front k front rest (omega arith))

pub pow-add : (base k j : ℕ) → base ^ (k + j) ≡ base ^ k * base ^ j
pow-add base k zero =
    let no_more : k + 0 ≡ k = omega arith in
    ap (λ (m : ℕ). base ^ m) no_more ∙ grind (arith, pow-zero base)
pow-add base k (suc j) =
    let one_more : k + suc j ≡ suc (k + j) = omega arith in
    ap (λ (m : ℕ). base ^ m) one_more
    ∙ pow-suc base (k + j)
    ∙ ap (λ (m : ℕ). m * base) (pow-add base k j)
    ∙ mul_assoc (base ^ k) (base ^ j) base
    ∙ ap (λ (m : ℕ). base ^ k * m) (sym (pow-suc base j))

-- The first digits of a number that has more.
pub take-numeral :
    (k j base n : ℕ) → 0 < base → take k (numeral (k + j) base n) ≡ numeral k base (n / base ^ j)
unfolding numeral
take-numeral k zero base n p =
    let no_more : k + 0 ≡ k = omega arith in
    let unchanged : n ≡ n / base ^ 0 =
      sym (div-one n) ∙ ap (λ (m : ℕ). n / m) (sym (pow-zero base)) in
    ap (λ (m : ℕ). take k (numeral m base n)) no_more
    ∙ take-all k (numeral k base n) (omega (arith, length-numeral k base n))
    ∙ ap (numeral k base) unchanged
take-numeral k (suc j) base n p =
    let more : k + suc j ≡ suc (k + j) = omega arith in
    ap (λ (m : ℕ). take k (numeral m base n)) more
    ∙ take-front k (numeral (k + j) base (n / base)) (hex_digit (n % base) ∷ [])
        (omega (arith, length-numeral (k + j) base (n / base)))
    ∙ take-numeral k j base (n / base) p
    ∙ ap (numeral k base)
        (div-div-eq-div-mul n base (base ^ j) ∙ ap (λ (m : ℕ). n / m) (sym (pow-succ' base j)))
