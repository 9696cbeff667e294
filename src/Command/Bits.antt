-- ===== src/Command/Bits.antt =====
-- The packing of Boolean values for a bit write, and its reading of a bit response.
use melsec_mc_net.Prelude.{
  ℕ, zero, suc, ◌+◌, ◌*◌, ◌/◌, ◌%◌, ◌<◌, ◌≡◌, ◌≢◌, refl, ap, ◌≤◌, ◌∙◌, ◌&&◌, leb, ltb, ◌==◌,
  if◌then◌else◌, Bool, true, false, some, List, [], ◌∷◌, arith, length, get_elem?,
}
use melsec_mc_net.Command.{trans_byte, trans_loop, trans_bytes, extract_bits}

abbrev pub value_at : List Bool → ℕ → Bool
value_at [] j = false
value_at (v ∷ vs) zero = v
value_at (v ∷ vs) (suc j) = value_at vs j

get_elem?-value_at :
    (values : List Bool) (j : ℕ) → j < length values → get_elem? values j ≡ some (value_at values j)
get_elem?-value_at [] j h = absurd (omega arith)
get_elem?-value_at (v ∷ vs) zero h = refl
get_elem?-value_at (v ∷ vs) (suc j) h = get_elem?-value_at vs j (omega arith)

-- Whether the packing drops the value at `j`: it stands second in its pair, and its index is not
-- less than the number of bytes.
abbrev pub is_lost : ℕ → ℕ → Bool
is_lost len j = j % 2 == 1 && leb len j

abbrev pub bit : Bool → ℕ
bit b = if b then 1 else 0

-- What arrives for the value at `j`.
abbrev pub arrives : List Bool → ℕ → ℕ → ℕ
arrives values len j = if is_lost len j then 0 else bit (value_at values j)

module _ (values : List Bool) (len : ℕ) where
  -- the bytes that the loop makes, where every read is in bounds
  abbrev packed : ℕ → ℕ → List ℕ
  packed zero i = []
  packed (suc left) i =
      trans_byte (value_at values (i * 2))
        (if ltb (i * 2 + 1) len then value_at values (i * 2 + 1) else false)
      ∷ packed left (i + 1)

  trans_loop-packed :
      (left i : ℕ)
      → i + left ≡ len
      → len * 2 ≤ length values + 1
      → trans_loop values len left i ≡ some (packed left i)
  unfolding trans_loop
  trans_loop-packed zero i e h = refl
  trans_loop-packed (suc left) i e h = ground (
    arith,
    get_elem?-value_at values (i * 2),
    get_elem?-value_at values (i * 2 + 1),
    trans_loop-packed left (i + 1),
  )

length-packed : (values : List Bool) (len left i : ℕ) → length (packed values len left i) ≡ left
length-packed values len zero i = refl
length-packed values len (suc left) i = ap suc (length-packed values len left (i + 1))

pub extract-trans_byte :
    (first second : Bool) (bytes : List ℕ)
    → extract_bits (trans_byte first second ∷ bytes) ≡ bit first ∷ bit second ∷ extract_bits bytes
unfolding extract_bits trans_byte
extract-trans_byte true true bytes = refl
extract-trans_byte true false bytes = refl
extract-trans_byte false true bytes = refl
extract-trans_byte false false bytes = refl

first_of_pair : (i : ℕ) → i * 2 + 0 ≡ i * 2
first_of_pair i = omega arith

get_elem?-extract :
    (values : List Bool) (len left i k : ℕ)
    → k < left * 2
    → get_elem? (extract_bits (packed values len left i)) k ≡ some (arrives values len (i * 2 + k))
get_elem?-extract values len zero i k h = absurd (omega arith)
get_elem?-extract values len (suc left) i zero h =
    rw extract-trans_byte (ground (arith, ap (value_at values) (first_of_pair i)))
get_elem?-extract values len (suc left) i (suc zero) h = rw extract-trans_byte (ground arith)
get_elem?-extract values len (suc left) i (suc (suc k)) h = rw extract-trans_byte (
    get_elem?-extract values len left (i + 1) k (omega arith)
    ∙ ap (λ (j : ℕ). some (arrives values len j)) (omega arith))

-- A bit write of any values reads no value out of bounds, and what it packs is unpacked, by the
-- library's own reading of a bit response, to the values, with these exceptions: a value at an odd
-- index that is not less than the number of bytes, half of the number of values rounded up, arrives
-- as 0.
pub trans_bytes-arrives :
    (values : List Bool)
    → (bytes : List ℕ) × (trans_bytes values ≡ some bytes)
      × (length bytes ≡ (length values + 1) / 2)
      × ((j : ℕ)
          → j < length values
          → get_elem? (extract_bits bytes) j ≡ some (arrives values ((length values + 1) / 2) j))
unfolding trans_bytes
trans_bytes-arrives values = (
  packed values len len 0,
  trans_loop-packed values len len 0 (omega arith) (omega arith),
  length-packed values len len 0,
  λ j h.
      get_elem?-extract values len len 0 j (omega arith)
      ∙ ap (λ (k : ℕ). some (arrives values len k)) (omega arith),
)
  where
    len : ℕ
    len = (length values + 1) / 2

-- A value that is true, at an odd index from half of the number of values on, is lost: the packed
-- bytes are not those of the values.
pub trans_bytes-loses :
    (values : List Bool) (j : ℕ)
    → j < length values
    → j % 2 ≡ 1
    → (length values + 1) / 2 ≤ j
    → value_at values j ≡ true
    → (bytes : List ℕ) × (trans_bytes values ≡ some bytes)
      × (get_elem? (extract_bits bytes) j ≢ some (bit (value_at values j)))
trans_bytes-loses values j h odd late set = (
  (trans_bytes-arrives values).0,
  (trans_bytes-arrives values).1,
  λ same. ground (arith, (trans_bytes-arrives values).3 j h),
)
