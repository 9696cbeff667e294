-- ===== src/Address/Strtol.antt =====
-- `strtol(s, NULL, base)` of the C library, as melsec_mc_comm.c calls it with the bases 0, 10 and
-- 16: blanks, a sign, the prefix of the base, the digits, and the result clamped to a 64-bit `long`,
-- given as its bit pattern.
use melsec_mc_net.Prelude.{
  ℕ, ◌+◌, ◌-◌, ◌*◌, ◌^◌, ◌%◌, min, ltb, leb, ◌==◌, ◌&&◌, ◌||◌, if◌then◌else◌, List, [], ◌∷◌, Bool,
}

unfoldable pub is_space : ℕ → Bool
is_space c = c == 32 || (leb 9 c && leb c 13)

unfoldable pub skip_spaces : List ℕ → List ℕ
unfolding is_space
skip_spaces [] = []
skip_spaces (c ∷ cs) = let rest = skip_spaces cs in if is_space c then rest else c ∷ cs

-- 36 stands for a character that is no digit in any base.
unfoldable pub digit_value : ℕ → ℕ
digit_value c =
    if leb b'0' c && leb c b'9'
    then c - b'0'
    else if leb b'A' c && leb c b'Z'
    then c - b'A' + 10
    else if leb b'a' c && leb c b'z'
    then c - b'a' + 10
    else 36

unfoldable pub digits_from : ℕ → ℕ → List ℕ → ℕ
unfolding digit_value
digits_from base acc [] = acc
digits_from base acc (c ∷ cs) =
    let rest = digits_from base (acc * base + digit_value c) cs in
    if ltb (digit_value c) base then rest else acc

-- a prefix `0x`
unfoldable pub skip_prefix : List ℕ → List ℕ
skip_prefix (c ∷ x ∷ cs) = if c == b'0' && (x == b'x' || x == b'X') then cs else c ∷ x ∷ cs
skip_prefix cs = cs

-- Base 0 reads `0x` as base 16, a leading 0 as base 8, and anything else as base 10.
unfoldable pub guessed_base : List ℕ → ℕ
guessed_base (c ∷ x ∷ cs) = if c == b'0' then (if x == b'x' || x == b'X' then 16 else 8) else 10
guessed_base cs = 10

unfoldable pub magnitude : ℕ → List ℕ → ℕ
unfolding digits_from skip_prefix guessed_base
magnitude base cs =
    if base == 16
    then digits_from 16 0 (skip_prefix cs)
    else if base == 0
    then (let b = guessed_base cs in digits_from b 0 (if b == 16 then skip_prefix cs else cs))
    else digits_from base 0 cs

unfoldable pub signed : ℕ → List ℕ → ℕ
unfolding magnitude
signed base [] = 0
signed base (c ∷ cs) =
    if c == b'-'
    then (2 ^ 64 - min (magnitude base cs) (2 ^ 63)) % 2 ^ 64
    else if c == b'+'
    then min (magnitude base cs) (2 ^ 63 - 1)
    else min (magnitude base (c ∷ cs)) (2 ^ 63 - 1)

unfoldable pub strtol : List ℕ → ℕ → ℕ
unfolding skip_spaces signed
strtol s base = signed base (skip_spaces s)
