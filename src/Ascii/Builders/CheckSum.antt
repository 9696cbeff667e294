-- ===== src/Ascii/Builders/CheckSum.antt =====
-- What `check_CRC` accepts.
use mathlib.Core.Path.{ap₂}
use melsec_mc_net.Prelude.{
  ℕ, suc, ◌+◌, ◌-◌, ◌/◌, ◌%◌, ◌^◌, ◌<◌, ltb, ◌==◌, ◌&&◌, not, bit_and, if◌then◌else◌, ◌≡◌, refl, ap,
  ◌∙◌, false, some, List, [], ◌∷◌, ◌++◌, arith, length, take, drop, get_elem?, length-append,
  take-append,
}
use melsec_mc_net.Prelude.Bits.{low_mask, bit_and_comm}
use melsec_mc_net.Words.{u8, u16}
use melsec_mc_net.Machine.{World, >>=-eq_some, alloc-eq_some}
use melsec_mc_net.Ascii.Digits.{hex_digit}
use melsec_mc_net.Ascii.Command.Number.{hex_str-eq}
use melsec_mc_net.Ascii.Builders.{
  hex_str, hex_chars, build_ascii_bytes_from_ushort, sum_of, calculate_crc, check_crc,
}

get_elem?-append : (xs ys : List ℕ) (i : ℕ) → get_elem? (xs ++ ys) (length xs + i) ≡ get_elem? ys i
get_elem?-append [] ys i = ap (get_elem? ys) (omega arith)
get_elem?-append (x ∷ xs) ys i =
    let next : length (x ∷ xs) + i ≡ suc (length xs + i) = omega arith in
    ap (get_elem? (x ∷ xs ++ ys)) next ∙ get_elem?-append xs ys i

-- The first two characters of a 16-bit number are those of its low byte.
low_digits :
    (n : ℕ)
    → n < 2 ^ 16
    → (rest : List ℕ) × (hex_chars (u8 (bit_and 0xff n) ∷ u8 (bit_and 0xff (n / 2 ^ 8)) ∷ [])
        ≡ hex_digit (n / 16 % 16) ∷ hex_digit (n % 16) ∷ rest)
unfolding hex_chars
low_digits n h =
    let high = u8 (bit_and 0xff (n / 2 ^ 8)) in
    let low : u8 (bit_and 0xff n) ≡ n % 256 = ground (arith, low_mask 8 n, bit_and_comm n 255) in
    let first : bit_and (n % 256 / 16) 15 ≡ n / 16 % 16 =
      ground (arith, low_mask 4 (n % 256 / 16), bit_and_comm (n % 256 / 16) 15) in
    let second : bit_and (n % 256) 15 ≡ n % 16 =
      ground (arith, low_mask 4 (n % 256), bit_and_comm (n % 256) 15) in
    (
      hex_str (bit_and (high / 2 ^ 4) 0x0f) ∷ hex_str (bit_and high 0x0f) ∷ [],
      ap (λ (b : ℕ). hex_chars (b ∷ high ∷ [])) low
          ∙ ap₂ (λ (a b : ℕ). a ∷ b ∷ hex_chars (high ∷ []))
              (hex_str-eq (bit_and (n % 256 / 2 ^ 4) 15) ∙ ap hex_digit first)
              (hex_str-eq (bit_and (n % 256) 15) ∙ ap hex_digit second),
    )

module _ (h : ℕ) (body : List ℕ) (d c : ℕ) where
  abbrev summed : List ℕ
  summed = (h ∷ body) ++ d ∷ c ∷ []

  end_at : length summed - 2 ≡ length (h ∷ body)
  end_at = omega (arith, length-append (h ∷ body) (d ∷ c ∷ []))

  middle : drop 1 (take (length summed - 2) summed) ≡ body
  middle =
      ap (λ (n : ℕ). drop 1 (take n summed)) end_at
      ∙ ap (drop 1) (take-append (h ∷ body) (d ∷ c ∷ []))

  next_to_last : get_elem? summed (length summed - 2) ≡ some d
  next_to_last =
      let at : length summed - 2 ≡ length (h ∷ body) + 0 = omega (arith, end_at) in
      ap (get_elem? summed) at ∙ get_elem?-append (h ∷ body) (d ∷ c ∷ []) 0

  last : get_elem? summed (length summed - 1) ≡ some c
  last =
      let at : length summed - 1 ≡ length (h ∷ body) + 1 =
        omega (arith, length-append (h ∷ body) (d ∷ c ∷ [])) in
      ap (get_elem? summed) at ∙ get_elem?-append (h ∷ body) (d ∷ c ∷ []) 1

  computed :
      (w : World)
      → w.mallocs ≡ []
      → (rest : List ℕ) × (calculate_crc summed w
          ≡ some
              (some (hex_digit (sum_of body / 16 % 16) ∷ hex_digit (sum_of body % 16) ∷ rest), w))
  unfolding calculate_crc build_ascii_bytes_from_ushort
  computed w m =
      let n = u16 (sum_of body) in
      let text = hex_chars (u8 (bit_and 0xff n) ∷ u8 (bit_and 0xff (n / 2 ^ 8)) ∷ []) in
      let (rest, digits) = low_digits n (omega arith) in
      (
        rest,
        ap (λ (bs : List ℕ). build_ascii_bytes_from_ushort (u16 (sum_of bs)) w) middle
            ∙ alloc-eq_some text w m
            ∙ ap (λ (t : List ℕ). some (some t, w)) digits
            ∙ ap₂ (λ (a b : ℕ). some (some (hex_digit a ∷ hex_digit b ∷ rest), w)) (omega arith)
                (omega arith),
      )

  -- At least three bytes, the last two of them characters, where memory is to be had: `check_CRC`
  -- accepts them exactly if the first of the two is the hexadecimal digit of the sum of the bytes
  -- between the first one and the two, and the second is not: where the second one is right too, it
  -- rejects them.
  pub check_crc-eq :
      (w : World)
      → w.mallocs ≡ []
      → check_crc (some summed) w
        ≡ some
            (hex_digit (sum_of body / 16 % 16) == d && not (hex_digit (sum_of body % 16) == c), w)
  unfolding check_crc
  check_crc-eq w m =
      let (rest, sums) = computed w m in
      let long : ltb (length summed) 2 ≡ false =
        ground (arith, length-append (h ∷ body) (d ∷ c ∷ [])) in
      rw (long, if◌then◌else◌)
        (>>=-eq_some (calculate_crc summed) _ sums ∙ rw (next_to_last, last) refl)
