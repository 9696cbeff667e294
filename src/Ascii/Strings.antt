-- ===== src/Ascii/Strings.antt =====
-- The read and the write of a string over the ASCII protocol.
use melsec_mc_net.Prelude.{
  take-append, length-take, sym, ℕ, ◌+◌, ◌-◌, ◌*◌, ◌/◌, ◌^◌, ◌<◌, ◌≤◌, ltb, leb, ◌≡◌, ap, ◌∙◌, true,
  false, some, none, List, [], ◌∷◌, ◌++◌, arith, All, if◌then◌else◌, length, take, replicate, zero,
  suc,
}
use melsec_mc_net.Address.{AddressData, parsed, mc_analysis_address}
use melsec_mc_net.Machine.{
  World, >>=-eq_some, success, alloc, alloc-eq_some, malloc, malloc-eq_some,
}
use melsec_mc_net.Socket.{is_positive}
use melsec_mc_net.Socket.Receive.{incoming}
use melsec_mc_net.Socket.Send.{capacity}
use melsec_mc_net.Client.{even_up}
use melsec_mc_net.Client.Strings.{padded, length-padded, words-IsPositive}
use melsec_mc_net.Ascii.Command.Words.{words_text, IsByte}
use melsec_mc_net.Ascii.Command.Core.{HasDigits, Asks, ascii_request}
use melsec_mc_net.Ascii.Response.Frame.{
  AsciiResponse, HasFields, ascii_frame_of, ascii_code_of, parse_read-words,
}
use melsec_mc_net.Ascii.Exchanges.{IsAsciiReady, AsciiRequested}
use melsec_mc_net.Ascii.Values.{ascii_read_word_value}
use melsec_mc_net.Ascii.Typed.{ascii_string_of, mc_ascii_read_string, mc_ascii_write_string}
use melsec_mc_net.Ascii.Requests.{read_value-Requested, write_word_value-Requested}

-- The first bytes, as many as the string is long, and zeros to one more than its whole words.
abbrev pub terminated : ℕ → List ℕ → List ℕ
terminated len bytes = take len bytes ++ replicate (even_up len + 1 - len) 0

ascii_string_of-eq :
    (len : ℕ) (bytes : List ℕ) (w : World)
    → w.mallocs ≡ []
    → even_up len ≤ length bytes
    → ascii_string_of len (success, some bytes) w ≡ some ((success, some (terminated len bytes)), w)
unfolding ascii_string_of
ascii_string_of-eq len bytes w m h =
    let enough : leb (even_up len) (length bytes) ≡ true = ground arith in
    rw (enough, if◌then◌else◌)
      (>>=-eq_some (alloc (terminated len bytes)) _ (alloc-eq_some (terminated len bytes) w m))

IsByte-take : (n : ℕ) (bytes : List ℕ) → All IsByte bytes → All IsByte (take n bytes)
IsByte-take zero bytes h = tt
IsByte-take (suc n) [] h = tt
IsByte-take (suc n) (b ∷ bytes) (small, h) = (small, IsByte-take n bytes h)

IsByte-append : (xs ys : List ℕ) → All IsByte xs → All IsByte ys → All IsByte (xs ++ ys)
IsByte-append [] ys h k = k
IsByte-append (x ∷ xs) ys (small, h) k = (small, IsByte-append xs ys h k)

IsByte-zeros : (n : ℕ) → All IsByte (replicate n 0)
IsByte-zeros zero = tt
IsByte-zeros (suc n) = (omega arith, IsByte-zeros n)

IsByte-padded : (len : ℕ) (val : List ℕ) → All IsByte val → All IsByte (padded len val)
IsByte-padded len val h =
    IsByte-append (take len val) (replicate (even_up len - len) 0) (IsByte-take len val h)
      (IsByte-zeros (even_up len - len))

module _ (fd : ℕ) (w : World) (at : IsAsciiReady fd w) (r : AsciiResponse) (valid : HasFields r)
    (rest : List ℕ) (comes : incoming w.recvs ≡ ascii_frame_of r ++ rest) (address : List ℕ)
    (a : AddressData) (more : ℕ) (digits : HasDigits a more) (len : ℕ) (pos : 0 < len)
    (parses : mc_analysis_address (some address) (even_up len / 2) ≡ parsed a) where
  -- A read of a string of a positive length below 2 ^ 31 - 1 over the ASCII protocol: on a ready
  -- descriptor, with a network address of two bytes, at an address that is parsed and whose number is
  -- not negative, where the system takes the frame at once and the PLC answers with well-formed
  -- fields, the end code 0 and the words of as many bytes as the length rounded up to whole words, the
  -- result is success with the bytes of the string, terminated by one zero or two; the PLC was asked
  -- for the words of the address, once, from the device number that the first six digits of the
  -- address's number are.
  pub mc_ascii_read_string-value :
      (bytes : List ℕ)
      → len + 1 < 2 ^ 31
      → length bytes ≡ even_up len
      → All IsByte bytes
      → r.end_code ≡ 0
      → r.text ≡ words_text bytes
      → 42 ≤ capacity w.sends
      → (v : World) × (mc_ascii_read_string fd (some address) len w
          ≡ some ((success, some (terminated len bytes)), v))
        × AsciiRequested (Asks a (ascii_request a more 0x0401 0 []) 20) rest fd w v
  unfolding mc_ascii_read_string ascii_read_word_value
  mc_ascii_read_string-value bytes small count byte good text fits =
      let positive : is_positive len ≡ true = ground arith in
      let (v, returns, requested) =
        read_value-Requested fd w at r valid rest comes address (even_up len / 2) a more parses
          digits false none (success, some bytes) (words-IsPositive len pos small) fits
          (λ u m.
            parse_read-words r valid good bytes none u text (ground (arith, count))
              (ground (arith, count)) byte m) in
      (
        v,
        rw (at.ready.positive, positive, if◌then◌else◌)
            (>>=-eq_some (ascii_read_word_value fd (some address) (even_up len / 2) none) _ returns
              ∙ ascii_string_of-eq len bytes v
                  (ap (λ (u : World). u.mallocs) requested.after.world ∙ at.ready.memory)
                  (ground (arith, count))),
        requested,
      )

  -- A write of a string of a positive length below 32755, of which the caller has as many bytes, over
  -- the ASCII protocol: on a ready descriptor, with a network address of two bytes, to an address that
  -- is parsed and whose number is not negative, where the system takes the frame at once and a
  -- response with well-formed fields comes whole, the PLC is asked, once, to write the words of the
  -- string's bytes, with a zero if their number is odd, from the device number that the first six
  -- digits of the address's number are, and the code tells whether it answers with the end code 0.
  pub mc_ascii_write_string-Requested :
      (val : List ℕ)
      → len ≤ length val
      → All IsByte val
      → len < 32755
      → 2 * len + 44 ≤ capacity w.sends
      → (v : World) × (mc_ascii_write_string fd (some address) len (some val) w
          ≡ some (ascii_code_of r, v))
        × AsciiRequested
            (Asks a
              (ascii_request a more 0x1401 0 (words_text (padded len val)))
              (2 * length (padded len val) + 20))
            rest
            fd
            w
            v
  unfolding mc_ascii_write_string
  mc_ascii_write_string-Requested val has byte few fits =
      let positive : is_positive len ≡ true = ground arith in
      let covers : ltb (length val) len ≡ false = ground arith in
      let count : length (padded len val) ≡ even_up len = length-padded len val has in
      let (v, returns, requested) =
        write_word_value-Requested fd w at r valid rest comes address (even_up len / 2) a more
          parses digits (padded len val) (words-IsPositive len pos (omega arith))
          (ground (arith, count)) (ground (arith, count)) (ground (arith, count))
          (IsByte-padded len val byte) (ground (arith, count)) in
      (
        v,
        rw (at.ready.positive, positive, if◌then◌else◌)
            (>>=-eq_some malloc _ (malloc-eq_some w at.ready.memory) ∙ rw covers returns),
        requested,
      )

-- What of the bytes that were written comes back.
terminated-padded :
    (len : ℕ) (val : List ℕ)
    → len ≤ length val
    → terminated len (padded len val) ≡ terminated len val
terminated-padded len val has =
    ap (λ (bytes : List ℕ). bytes ++ replicate (even_up len + 1 - len) 0)
      (sym (ap (λ (n : ℕ). take n (padded len val)) (length-take len val has))
        ∙ take-append (take len val) (replicate (even_up len - len) 0))

-- Two moments of a connection, each ready for a transaction, and what the PLC answers there.
module _ (fd : ℕ) (w u : World) (at_w : IsAsciiReady fd w) (at_u : IsAsciiReady fd u)
    (q r : AsciiResponse) (valid_q : HasFields q) (valid_r : HasFields r) (rest_w rest_u : List ℕ)
    (comes_w : incoming w.recvs ≡ ascii_frame_of q ++ rest_w)
    (comes_u : incoming u.recvs ≡ ascii_frame_of r ++ rest_u) (address : List ℕ) (a : AddressData)
    (more : ℕ) (digits : HasDigits a more) where
  -- A string of a positive length below 32755, of which the caller has as many bytes, at an address
  -- that is parsed and whose number is not negative, over the ASCII protocol, on a descriptor that is
  -- ready when it is written and when it is read, with a network address of two bytes, where the
  -- system takes the frames at once and the PLC answers both with well-formed fields: the write asks
  -- the PLC once to store the words of the string's bytes, with a zero if their number is odd; if it
  -- answers the read with the end code 0 and the text that it was asked to store, the read returns
  -- success and the bytes of the string, terminated by one zero or two, and the PLC was asked once for
  -- the words of the string. In both requests the device number is the first six digits of the
  -- address's number.
  pub mc_ascii_read_string-mc_ascii_write_string :
      (len : ℕ) (val : List ℕ)
      → 0 < len
      → len ≤ length val
      → All IsByte val
      → len < 32755
      → mc_analysis_address (some address) (even_up len / 2) ≡ parsed a
      → 2 * len + 44 ≤ capacity w.sends
      → 42 ≤ capacity u.sends
      → r.end_code ≡ 0
      → r.text ≡ words_text (padded len val)
      → ((v : World) × (mc_ascii_write_string fd (some address) len (some val) w
            ≡ some (ascii_code_of q, v))
          × AsciiRequested
              (Asks a
                (ascii_request a more 0x1401 0 (words_text (padded len val)))
                (2 * length (padded len val) + 20))
              rest_w
              fd
              w
              v)
        × ((v : World) × (mc_ascii_read_string fd (some address) len u
              ≡ some ((success, some (terminated len val)), v))
            × AsciiRequested (Asks a (ascii_request a more 0x0401 0 []) 20) rest_u fd u v)
  mc_ascii_read_string-mc_ascii_write_string len val pos has byte few parses fits_w fits_u good
        text =
      let (v, returns, requested) =
        mc_ascii_read_string-value fd u at_u r valid_r rest_u comes_u address a more digits len pos
          parses (padded len val) (omega arith) (length-padded len val has)
          (IsByte-padded len val byte) good text fits_u in
      (
        mc_ascii_write_string-Requested fd w at_w q valid_q rest_w comes_w address a more digits len
            pos parses val has byte few fits_w,
        (
          v,
          returns
              ∙ ap (λ (bytes : List ℕ). some ((success, some bytes), v))
                  (terminated-padded len val has),
          requested,
        ),
      )
