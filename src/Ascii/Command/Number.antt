-- ===== src/Ascii/Command/Number.antt =====
-- The device number in an ASCII command, against the digits of the number.
use native.Mathlib.Nat.{pow-zero, one-le-pow}
use mathlib.Core.Path.{subst}
use melsec_mc_net.Prelude.{
  ℕ, zero, suc, ◌+◌, ◌-◌, ◌/◌, ◌%◌, ◌^◌, ◌<◌, ◌≤◌, ◌≡◌, refl, sym, ap, ◌∙◌, some, List, [], ◌∷◌,
  ◌++◌, arith, ◌==◌, ◌&&◌, true, false, if◌then◌else◌, append-nil, append_assoc, take,
}
use melsec_mc_net.Address.{AddressData}
use melsec_mc_net.Socket.{is_negative}
use melsec_mc_net.Ascii.Builders.{hex_str}
use melsec_mc_net.Ascii.Command.{print_number, mc_ascii_format_device_number}
use melsec_mc_net.Ascii.Digits.{hex_digit, numeral, take-numeral, digit-below, digit-above}

pub hex_str-eq : (n : ℕ) → hex_str n ≡ hex_digit n
unfolding hex_str
hex_str-eq n = ground arith

-- It goes on while there are digits, or places to fill.
goes_on :
    (n k width base : ℕ)
    → 0 < base
    → (width < suc k → base ^ (suc k - 1) ≤ n)
    → (n == 0 && width == 0) ≡ false
goes_on n k zero base p more =
    let before : suc k - 1 ≡ k = omega arith in
    let some_digit : 1 ≤ n =
      omega
        (arith, one-le-pow k base p, subst (λ (m : ℕ). base ^ m ≤ n) before (more (omega arith))) in
    ground (arith, some_digit)
goes_on n k (suc width) base p more = ground arith

-- What is printed is the digits of the number: as many as the width, or more when there are more.
pub print_number-numeral :
    (k left width base n : ℕ) (text : List ℕ)
    → 0 < base
    → width ≤ k
    → k ≤ left
    → n < base ^ k
    → (width < k → base ^ (k - 1) ≤ n)
    → print_number left width base n text ≡ numeral k base n ++ text
unfolding print_number numeral
print_number-numeral zero zero width base n text p w l h more = refl
print_number-numeral zero (suc left) width base n text p w l h more =
    let stops : (n == 0 && width == 0) ≡ true = ground (arith, pow-zero base, h, w) in
    rw (stops, if◌then◌else◌) refl
print_number-numeral (suc k) zero width base n text p w l h more = absurd (omega arith)
print_number-numeral (suc k) (suc left) width base n text p w l h more =
    let before : suc k - 1 ≡ k = omega arith in
    rw (goes_on n k width base p more, if◌then◌else◌)
      (print_number-numeral k left (width - 1) base (n / base) (hex_str (n % base) ∷ text) p
        (omega arith) (omega arith) (digit-below n k base p h)
        (λ fewer.
          digit-above n k base p (omega arith)
            (subst (λ (m : ℕ). base ^ m ≤ n) before (more (omega arith)))))
    ∙ ap (λ (c : ℕ). numeral k base (n / base) ++ c ∷ text) (hex_str-eq (n % base))
    ∙ sym (append_assoc (numeral k base (n / base)) (hex_digit (n % base) ∷ []) text)

-- The base in which a device number is printed.
abbrev pub printed_base : AddressData → ℕ
printed_base a = if a.data_type.from_base == 16 then 16 else 10

first_six :
    (j base n : ℕ)
    → 0 < base
    → j ≤ 4
    → n < base ^ (6 + j)
    → (0 < j → base ^ (5 + j) ≤ n)
    → take 6 (print_number 10 6 base n []) ≡ numeral 6 base (n / base ^ j)
first_six j base n p few h more =
    let before : 6 + j - 1 ≡ 5 + j = omega arith in
    ap (take 6) (
      print_number-numeral (6 + j) 10 6 base n [] p (omega arith) (omega arith) h
        (λ longer. subst (λ (m : ℕ). base ^ m ≤ n) (sym before) (more (omega arith)))
      ∙ append-nil (numeral (6 + j) base n))
    ∙ take-numeral 6 j base n p

-- A device number that is not negative: where it has at most six digits in its base, they are what is
-- printed; where it has more, the first six of them.
pub format-numeral :
    (a : AddressData) (j : ℕ)
    → a.address_start < 2 ^ 31
    → j ≤ 4
    → a.address_start < printed_base a ^ (6 + j)
    → (0 < j → printed_base a ^ (5 + j) ≤ a.address_start)
    → mc_ascii_format_device_number a
      ≡ some (numeral 6 (printed_base a) (a.address_start / printed_base a ^ j))
unfolding mc_ascii_format_device_number
format-numeral a j small few h more =
    let positive : is_negative a.address_start ≡ false = ground (arith, small) in
    rw (positive, if◌then◌else◌)
      (elim (a.data_type.from_base == 16)
          as (λ b.
            a.address_start < (if b then 16 else 10) ^ (6 + j)
            → (0 < j → (if b then 16 else 10) ^ (5 + j) ≤ a.address_start)
            → (if b
                then some (take 6 (print_number 10 6 16 a.address_start []))
                else some (take 6 (print_number 10 6 10 a.address_start [])))
              ≡ some (
                  numeral 6 (if b then 16 else 10)
                    (a.address_start / (if b then 16 else 10) ^ j))) [
                      | true ↦ λ h more.
                          ap some (first_six j 16 a.address_start (omega arith) few h more)
                      | false ↦ λ h more.
                          ap some (first_six j 10 a.address_start (omega arith) few h more)
                    ]
        h more)
