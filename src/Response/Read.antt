-- ===== src/Response/Read.antt =====
-- What `mc_read_response` takes from a connection.
use native.Mathlib.Decide.{dec_lt}
use melsec_mc_net.Prelude.{
  ℕ, ◌+◌, ◌-◌, ◌<◌, ltb, if◌then◌else◌, ◌≡◌, ◌≢◌, refl, sym, ap, ◌∙◌, true, false, some, List, [],
  ◌∷◌, ◌++◌, arith, length, take, drop, ◌||◌, take-append, drop-append, length-append,
}
use melsec_mc_net.Prelude.Bits.{or_fields}
use melsec_mc_net.Machine.{
  World, malloc, ErrorCode, success, >>=-eq_some, malloc-eq_some, RecvEvent,
}
use melsec_mc_net.Socket.{is_positive, mc_recv_exact}
use melsec_mc_net.Socket.Receive.{incoming, ending, mc_recv_exact-full, mc_recv_exact-short}
use melsec_mc_net.Response.{
  Reply, live, dangling, length_field, read_payload, read_body, mc_read_response,
}
use melsec_mc_net.Response.Frame.{ResponseFrame, IsWellFormed, header_of, frame_of}

-- A read of a stream that begins with `front`, as long as what is asked for.
add-sub_cancel : (n : ℕ) → n + 11 - 11 ≡ n
add-sub_cancel n = omega arith

if_pos_test : (n : ℕ) → 0 < n → ltb 0 n ≡ true
if_pos_test n h = ground arith

pub recv_front :
    (n : ℕ) (front rest : List ℕ) (w : World)
    → incoming w.recvs ≡ front ++ rest
    → length front ≡ n
    → (later : List RecvEvent) × (mc_recv_exact n w
        ≡ some ((success, front), record w { recvs = later }))
      × (incoming later ≡ rest)
      × (ending later ≡ ending w.recvs)
recv_front n front rest w e len =
    let (later, returns, left, end) =
      mc_recv_exact-full n w (omega (arith, ap length e, length-append front rest)) in
    let took : take n (incoming w.recvs) ≡ front =
      ap (take n) e ∙ ap (λ (k : ℕ). take k (front ++ rest)) (sym len) ∙ take-append front rest in
    (
      later,
      returns ∙ ap (λ (got : List ℕ). some ((success, got), record w { recvs = later })) took,
      left
          ∙ ap (drop n) e
          ∙ ap (λ (k : ℕ). drop k (front ++ rest)) (sym len)
          ∙ drop-append front rest,
      end,
    )

module _ (header got : List ℕ) (n : ℕ) (w v : World) where
  received_all :
      0 < n
      → mc_recv_exact n w ≡ some ((success, got), v)
      → read_payload header (n + 11) w
        ≡ some (record { code = success; response = live (header ++ got); read_count = n + 11 }, v)
  unfolding read_payload
  received_all pos e =
      rw (add-sub_cancel n, if_pos_test n pos, if◌then◌else◌) (>>=-eq_some (mc_recv_exact n) _ e)

  received_less :
      (code : ErrorCode)
      → 0 < n
      → code ≢ success
      → mc_recv_exact n w ≡ some ((code, got), v)
      → read_payload header (n + 11) w
        ≡ some (record { code = code; response = dangling; read_count = 0 }, v)
  unfolding read_payload
  received_less code pos ne e =
      rw (add-sub_cancel n, if_pos_test n pos, if◌then◌else◌)
        (>>=-eq_some (mc_recv_exact n) _ e ∙ ground arith)

is_empty : (xs : List ℕ) → ¬ (0 < length xs) → (length xs ≡ 0) × (xs ≡ [])
is_empty [] h = (refl, refl)
is_empty (x ∷ xs) h = absurd (omega arith)

nothing_to_receive :
    (header : List ℕ) (w : World)
    → read_payload header 11 w
      ≡ some (record { code = success; response = live header; read_count = 11 }, w)
unfolding read_payload
nothing_to_receive header w = refl

long_enough : (n : ℕ) → (ltb (n + 2) 2 || ltb (n + 2 + 9) 11) ≡ false
long_enough n = ground arith

pub ending-ne-success : (events : List RecvEvent) → ending events ≢ success
ending-ne-success [] = λ e. cc
ending-ne-success (RecvEvent.arrive b bs ∷ events) = ending-ne-success events
ending-ne-success (RecvEvent.interrupted ∷ events) = ending-ne-success events
ending-ne-success (RecvEvent.shut ∷ events) = λ e. cc
ending-ne-success (RecvEvent.failed ∷ events) = λ e. cc

module _ (f : ResponseFrame) (valid : IsWellFormed f) where
  length_field-eq : (w : World) → length_field (header_of f) w ≡ some (length f.values + 2, w)
  unfolding length_field
  length_field-eq w =
      ap (λ (n : ℕ). some (n, w))
        (or_fields 8 f.high f.low valid.low_byte ∙ omega (arith, valid.counted))

  -- Once the header has come, memory is asked for and then the data.
  read_body-payload :
      (w : World)
      → w.mallocs ≡ []
      → read_body (header_of f) w ≡ read_payload (header_of f) (length f.values + 11) w
  unfolding read_body
  read_body-payload w e =
      >>=-eq_some (length_field (header_of f)) _ (length_field-eq w)
      ∙ rw (long_enough (length f.values)) (
          >>=-eq_some malloc _ (malloc-eq_some w e)
          ∙ ap (λ (n : ℕ). read_payload (header_of f) n w) (omega arith))

  abbrev pub whole : Reply
  whole = record { code = success; response = live (frame_of f); read_count = length (frame_of f) }

  read_payload-whole :
      (rest : List ℕ) (w : World)
      → incoming w.recvs ≡ f.values ++ rest
      → (later : List RecvEvent) × (read_payload (header_of f) (length f.values + 11) w
          ≡ some (whole, record w { recvs = later }))
        × (incoming later ≡ rest)
  unfolding read_payload
  read_payload-whole rest w e = elim (dec_lt 0 (length f.values)) [
    | yes pos ↦
        let (later, returns, left, end) = recv_front (length f.values) f.values rest w e refl in
        (
          later,
          received_all (header_of f) f.values (length f.values) w (record w { recvs = later }) pos
                returns
              ∙ ap
                  (λ (n : ℕ). some (
                    record { code = success; response = live (frame_of f); read_count = n },
                    record w { recvs = later },
                  ))
                  (omega arith),
          left,
        )
    | no nothing ↦ (
      w.recvs,
      ap (λ (n : ℕ). read_payload (header_of f) (n + 11) w) (is_empty f.values nothing).0
          ∙ nothing_to_receive (header_of f) w
          ∙ ap
              (λ (vs : List ℕ). some (
                record {
                  code = success;
                  response = live (header_of f ++ vs);
                  read_count = length (header_of f ++ vs);
                },
                w,
              ))
              (sym (is_empty f.values nothing).1),
      e ∙ ap (λ (vs : List ℕ). vs ++ rest) (is_empty f.values nothing).1,
    )
  ]

  read_payload-cut :
      (w : World)
      → length (incoming w.recvs) < length f.values
      → (later : List RecvEvent) × (read_payload (header_of f) (length f.values + 11) w
          ≡ some (
            record { code = ending w.recvs; response = dangling; read_count = 0 },
            record w { recvs = later },
          ))
  unfolding read_payload
  read_payload-cut w h =
      let (later, returns) = mc_recv_exact-short (length f.values) w h in
      (
        later,
        received_less (header_of f) (incoming w.recvs) (length f.values) w
            (record w { recvs = later }) (ending w.recvs) (omega arith) (ending-ne-success w.recvs)
            returns,
      )

  -- A well-formed response that arrives whole on a positive descriptor, in whatever chunks: where
  -- memory is to be had, `mc_read_response` returns success with exactly the bytes of the frame and
  -- their number, and takes nothing of what follows.
  pub mc_read_response-whole :
      (fd : ℕ) (rest : List ℕ) (w : World)
      → is_positive fd ≡ true
      → w.mallocs ≡ []
      → incoming w.recvs ≡ frame_of f ++ rest
      → (later : List RecvEvent) × (mc_read_response fd w
          ≡ some (whole, record w { recvs = later }))
        × (incoming later ≡ rest)
  unfolding mc_read_response
  mc_read_response-whole fd rest w ready m e =
      let (mid, header_returns, mid_left, mid_end) =
        recv_front 11 (header_of f) (f.values ++ rest) w e refl in
      let v : World = record w { recvs = mid } in
      let (later, returns, left) = read_payload-whole rest v mid_left in
      (
        later,
        rw (ready, if◌then◌else◌)
            (>>=-eq_some (mc_recv_exact 11) _ header_returns ∙ read_body-payload v m ∙ returns),
        left,
      )

  -- A well-formed response that ends after its header on a positive descriptor: where memory is to be
  -- had and the connection fails or is closed before all the data have come, `mc_read_response` returns
  -- the error of the connection, and has released the memory that `response->data` still points at.
  pub mc_read_response-cut :
      (fd : ℕ) (part : List ℕ) (w : World)
      → is_positive fd ≡ true
      → w.mallocs ≡ []
      → incoming w.recvs ≡ header_of f ++ part
      → length part < length f.values
      → (later : List RecvEvent) × (mc_read_response fd w
          ≡ some (
            record { code = ending w.recvs; response = dangling; read_count = 0 },
            record w { recvs = later },
          ))
  unfolding mc_read_response
  mc_read_response-cut fd part w ready m e less =
      let (mid, header_returns, mid_left, mid_end) = recv_front 11 (header_of f) part w e refl in
      let v : World = record w { recvs = mid } in
      let (later, returns) = read_payload-cut v (omega (arith, less, ap length mid_left)) in
      (
        later,
        rw (ready, if◌then◌else◌)
            (>>=-eq_some (mc_recv_exact 11) _ header_returns
              ∙ read_body-payload v m
              ∙ returns
              ∙ ap
                  (λ (c : ErrorCode). some (
                    record { code = c; response = dangling; read_count = 0 },
                    record w { recvs = later },
                  ))
                  mid_end),
      )
