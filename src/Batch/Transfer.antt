-- ===== src/Batch/Transfer.antt =====
-- The batches, from the address to the values.
use native.Mathlib.Nat.{mul-suc, mul_comm, mul_assoc}
use melsec_mc_net.Prelude.{
  ℕ, zero, suc, ◌+◌, ◌*◌, ◌/◌, ◌^◌, ◌<◌, ◌≤◌, leb, ltb, ◌≡◌, refl, sym, ap, ◌∙◌, true, false,
  Option, some, none, List, [], ◌∷◌, ◌++◌, arith, length, drop, All, length-append, drop-append,
  take-length, if◌then◌else◌,
}
use melsec_mc_net.Address.{AddressData, parsed, mc_analysis_address}
use melsec_mc_net.Machine.{
  World, checked, >>=-eq_some, Buffer, ErrorCode, success, malloc, malloc-eq_some,
}
use melsec_mc_net.Socket.{is_positive}
use melsec_mc_net.Socket.Receive.{incoming}
use melsec_mc_net.Socket.Send.{capacity}
use melsec_mc_net.Command.Frame.{request}
use melsec_mc_net.Response.Frame.{ResponseFrame, IsWellFormed, frame_of, code_of, copied}
use melsec_mc_net.Transaction.Session.{IsReady}
use melsec_mc_net.Client.{read_word_value, write_word_value}
use melsec_mc_net.Client.Exchanges.{
  Requested, read_word_value-Requested, write_word_value-Requested,
}
use melsec_mc_net.Words.Scalar.{Scalar, width, encode, decode}
use melsec_mc_net.Words.RoundTrip.{decode-encode}
use melsec_mc_net.Client.Scalars.{length-encode, width-bounds}
use melsec_mc_net.Batch.{
  int_product, read_values, store_values, read_batch, write_values, write_batch,
}

-- Values that fit their type.
abbrev pub Fit : Scalar → List ℕ → Type 0
Fit s values = All (λ v. v < 256 ^ width s) values

pub length-write_values :
    (s : Scalar) (values : List ℕ)
    → length (write_values (encode s) values) ≡ length values * width s
unfolding write_values
length-write_values s [] = omega arith
length-write_values s (v ∷ values) =
    length-append (encode s v) (write_values (encode s) values)
    ∙ grind (arith, length-encode s v, length-write_values s values)

drop-encode : (s : Scalar) (v : ℕ) (rest : List ℕ) → drop (width s) (encode s v ++ rest) ≡ rest
drop-encode s v rest =
    ap (λ (n : ℕ). drop n (encode s v ++ rest)) (sym (length-encode s v))
    ∙ drop-append (encode s v) rest

-- The loops of a batch: values that fit their type and are encoded one behind the other are decoded
-- again, all of them and in order.
pub read_values-write_values :
    (s : Scalar) (values : List ℕ)
    → Fit s values
    → read_values (decode s) (width s) (length values) (write_values (encode s) values)
      ≡ some values
unfolding read_values write_values
read_values-write_values s [] fit = refl
read_values-write_values s (v ∷ values) (fits, fit) =
    rw (decode-encode s v (write_values (encode s) values) fits, read_values)
      (rw (drop-encode s v (write_values (encode s) values))
        (rw (read_values-write_values s values fit) refl))

int_product-eq : (m n : ℕ) (w : World) → m * n < 2 ^ 31 → int_product m n w ≡ some (m * n, w)
unfolding int_product
int_product-eq m n w h =
    let small : ltb (m * n) (2 ^ 31) ≡ true = ground (arith, h) in rw (small, if◌then◌else◌) refl

store_values-eq :
    (s : Scalar) (values : List ℕ) (w : World)
    → Fit s values
    → length values * width s < 2 ^ 31
    → store_values s (length values) (write_values (encode s) values) w
      ≡ some ((success, some values), w)
unfolding store_values
store_values-eq s values w fit small =
    let enough : leb (length values * width s) (length (write_values (encode s) values)) ≡ true =
      ground (arith, length-write_values s values) in
    >>=-eq_some (int_product (length values) (width s)) _
      (int_product-eq (length values) (width s) w small)
    ∙ rw enough (
        >>=-eq_some
          (checked
            (read_values (decode s) (width s) (length values) (write_values (encode s) values)))
          _ (ap (λ (o : Option (List ℕ)). checked o w) (read_values-write_values s values fit)))

le-mul : (n k : ℕ) → 0 < k → n ≤ n * k
le-mul n zero h = absurd (omega arith)
le-mul n (suc k) h = omega (arith, mul-suc n k)

pub twice : (s : Scalar) (n words : ℕ) → width s ≡ 2 * words → n * width s ≡ 2 * (n * words)
twice s n words e =
    ap (λ (k : ℕ). n * k) e
    ∙ sym (mul_assoc n 2 words)
    ∙ ap (λ (m : ℕ). m * words) (mul_comm n 2)
    ∙ mul_assoc 2 n words

module _ (fd : ℕ) (w : World) (ready : IsReady fd w) (f : ResponseFrame) (valid : IsWellFormed f)
    (rest : List ℕ) (comes : incoming w.recvs ≡ frame_of f ++ rest) (s : Scalar) (address : List ℕ)
    (words : ℕ) (values : List ℕ) (some_values : 0 < length values)
    (few : length values * width s < 65524) where
  module _ (a : AddressData)
      (parses : mc_analysis_address (some address) (length values * words) ≡ parsed a)
      (per_value : width s ≡ 2 * words) where
    -- A read of a batch of at least one number, of any of the types, of fewer than 65524 bytes in all:
    -- on a ready descriptor, at an address that is parsed, for half as many words as a value has
    -- bytes, where the system takes the frame at once and the PLC answers with a well-formed response
    -- with the end code 0 and the bytes of as many values as are asked for, which fit the type, the
    -- result is success with exactly these values, in order, and the PLC was asked, once, for the
    -- words of these values, from the address's number modulo 2 ^ 24 on.
    pub read_batch-values :
        21 ≤ capacity w.sends
        → f.end0 + 256 * f.end1 ≡ 0
        → f.values ≡ write_values (encode s) values
        → Fit s values
        → (v : World) × (read_batch s words fd (some address) (length values) w
            ≡ some ((success, some values), v))
          × Requested (request a 0x0401 0 a.length []) rest fd w v
    unfolding read_batch
    read_batch-values fits zero_code comes_as fit =
        let points = length values * words in
        let size : length values * width s ≡ 2 * points = twice s (length values) words per_value in
        let longer = le-mul (length values) words (omega (arith, per_value, width-bounds s)) in
        let pos : is_positive (length values) ≡ true =
          ground (arith, some_values, longer, size, few) in
        let pos_points : is_positive points ≡ true =
          ground (arith, some_values, longer, size, few) in
        let bytes = write_values (encode s) values in
        let few_points : points < 2 ^ 31 = omega (arith, size, few) in
        let few_bytes : length values * width s < 2 ^ 31 = omega (arith, few) in
        let (v, returns, requested) =
          read_word_value-Requested fd w ready f valid rest comes address points a none pos_points
            parses fits in
        let good : (code_of f, copied 0 true none f.values) ≡ (success, some bytes) =
          ground
            (arith, zero_code, comes_as, length-write_values s values, size, longer, some_values) in
        let product : int_product (length values) words w ≡ some (points, w) =
          int_product-eq (length values) words w few_points in
        let got : read_word_value fd (some address) points none w
            ≡ some ((success, some bytes), v) =
          returns ∙ ap (λ (r : ErrorCode × Buffer). some (r, v)) good in
        let stored : store_values s (length values) bytes v ≡ some ((success, some values), v) =
          store_values-eq s values v fit few_bytes in
        (
          v,
          rw (ready.positive, pos, if◌then◌else◌)
              (>>=-eq_some (int_product (length values) words) _ product
                ∙ >>=-eq_some (read_word_value fd (some address) points none) _ got
                ∙ stored),
          requested,
        )

    -- A write of a batch of at least one number, of any of the types, of fewer than 65524 bytes in
    -- all, on a ready descriptor, at an address that is parsed, for half as many words as a value has
    -- bytes, where the system takes the frame at once and a well-formed response comes whole: the PLC
    -- is asked, once, to write the bytes of the values, in order, low byte first, to as many words as
    -- they have, and the code tells whether it answers with the end code 0.
    pub write_batch-Requested :
        21 + length values * width s ≤ capacity w.sends
        → (v : World) × (write_batch s words fd (some address) (length values) (some values) w
            ≡ some (code_of f, v))
          × Requested
              (request a 0x1401 0
                (length (write_values (encode s) values) / 2)
                (write_values (encode s) values))
              rest
              fd
              w
              v
    unfolding write_batch
    write_batch-Requested fits =
        let size : length values * width s ≡ 2 * (length values * words) =
          twice s (length values) words per_value in
        let longer = le-mul (length values) words (omega (arith, per_value, width-bounds s)) in
        let pos : is_positive (length values) ≡ true =
          ground (arith, some_values, longer, size, few) in
        let enough : ltb (length values) (length values) ≡ false = ground arith in
        let bytes = write_values (encode s) values in
        let len = length-write_values s values in
        let (v, returns, requested) =
          write_word_value-Requested fd w ready f valid rest comes address (length values * words) a
            bytes parses (omega (arith, len, few)) (omega (arith, len, fits)) in
        (
          v,
          rw (ready.positive, pos, if◌then◌else◌)
              (>>=-eq_some (int_product (length values) (width s)) _
                  (int_product-eq (length values) (width s) w (omega (arith, few)))
                ∙ >>=-eq_some malloc _ (malloc-eq_some w ready.memory)
                ∙ rw (enough, if◌then◌else◌)
                    (ap
                        (λ (vs : List ℕ).
                          write_word_value fd (some address) (length values * words)
                            (some (write_values (encode s) vs)) w)
                        (take-length values)
                      ∙ returns)),
          requested,
        )
