-- ===== src/Address/Digits.antt =====
-- What `strtol` reads in the digits of a device number.
use melsec_mc_net.Prelude.{
  ℕ, ◌+◌, ◌-◌, ◌*◌, ◌^◌, ◌≤◌, ◌<◌, min, ◌==◌, if◌then◌else◌, ◌≡◌, refl, ap, ◌∙◌, false, List, [],
  ◌∷◌, map, arith, All,
}
use melsec_mc_net.Address.Strtol.{
  is_space, skip_spaces, digit_value, digits_from, skip_prefix, magnitude, signed, strtol,
}
use melsec_mc_net.Address.Devices.{digit_char, number_from, number_of}

digit_value-digit_char : (n : ℕ) → n < 36 → digit_value (digit_char n) ≡ n
unfolding digit_value
digit_value-digit_char n h = ground arith

digits_from-map :
    (base acc : ℕ) (ns : List ℕ)
    → base < 37
    → All (λ n. n < base) ns
    → digits_from base acc (map digit_char ns) ≡ number_from base acc ns
unfolding digits_from
digits_from-map base acc [] hb h = refl
digits_from-map base acc (n ∷ ns) hb h =
    ground (arith, digit_value-digit_char n, digits_from-map base (acc * base + n) ns)

skip_prefix-map :
    (ns : List ℕ) → All (λ n. n < 16) ns → skip_prefix (map digit_char ns) ≡ map digit_char ns
unfolding skip_prefix
skip_prefix-map [] h = refl
skip_prefix-map (n ∷ []) h = refl
skip_prefix-map (n ∷ k ∷ ns) h = ground arith

-- A digit is neither blank nor a sign.
digit_is_plain :
    (n : ℕ)
    → n < 16
    → (is_space (digit_char n) ≡ false)
      × ((digit_char n == b'-') ≡ false)
      × ((digit_char n == b'+') ≡ false)
unfolding is_space
digit_is_plain n h = ground arith

strtol-cons :
    (base n : ℕ) (ns : List ℕ)
    → n < 16
    → strtol (map digit_char (n ∷ ns)) base
      ≡ min (magnitude base (map digit_char (n ∷ ns))) (2 ^ 63 - 1)
unfolding strtol skip_spaces signed
strtol-cons base n ns h =
    let (blank, minus, plus) = digit_is_plain n h in
    rw (blank, if◌then◌else◌) (rw (minus, if◌then◌else◌) (rw (plus, if◌then◌else◌)))

All-lt_mono : {j k : ℕ} (ns : List ℕ) → j ≤ k → All (λ n. n < j) ns → All (λ n. n < k) ns
All-lt_mono [] le h = tt
All-lt_mono (n ∷ ns) le h = (omega arith, All-lt_mono ns le h.1)

pub strtol_ten :
    (ns : List ℕ)
    → All (λ n. n < 10) ns
    → strtol (map digit_char ns) 10 ≡ min (number_of 10 ns) (2 ^ 63 - 1)
unfolding magnitude
strtol_ten [] h = unfold strtol skip_spaces signed in omega arith
strtol_ten (n ∷ ns) h =
    strtol-cons 10 n ns (omega arith)
    ∙ ap (λ (t : ℕ). min t (2 ^ 63 - 1)) (digits_from-map 10 0 (n ∷ ns) (omega arith) h)

pub strtol_sixteen :
    (ns : List ℕ)
    → All (λ n. n < 16) ns
    → strtol (map digit_char ns) 16 ≡ min (number_of 16 ns) (2 ^ 63 - 1)
unfolding magnitude
strtol_sixteen [] h = unfold strtol skip_spaces signed in omega arith
strtol_sixteen (n ∷ ns) h =
    strtol-cons 16 n ns (omega arith)
    ∙ ap (λ (t : ℕ). min t (2 ^ 63 - 1))
        (ap (digits_from 16 0) (skip_prefix-map (n ∷ ns) h)
          ∙ digits_from-map 16 0 (n ∷ ns) (omega arith) h)

-- What the parser makes of the digits of a number that an `int` holds.
