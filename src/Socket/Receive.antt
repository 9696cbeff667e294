-- ===== src/Socket/Receive.antt =====
-- `mc_recv_exact` reads a stream: how the bytes come in chunks does not matter.
use mathlib.Core.Path.{ap₂}
use melsec_mc_net.Prelude.{
  ℕ, zero, suc, ◌-◌, ◌≤◌, ◌≡◌, refl, sym, ap, ◌∙◌, List, [], ◌∷◌, ◌++◌, append_assoc, append-nil,
  arith, length, take, drop, length-append, ltb, Bool-cases, inl, inr, ◌<◌, some,
}
use melsec_mc_net.Machine.{
  World, ErrorCode, success, socket_recv_failed, connection_closed, RecvEvent, arrive, shut,
  interrupted, failed,
}
use melsec_mc_net.Socket.{put_back, recv_loop, mc_recv_exact}

-- The bytes that arrive before the connection ends, and how it ends.
abbrev pub incoming : List RecvEvent → List ℕ
incoming [] = []
incoming (arrive b bs ∷ events) = b ∷ bs ++ incoming events
incoming (interrupted ∷ events) = incoming events
incoming (shut ∷ events) = []
incoming (failed ∷ events) = []

abbrev pub ending : List RecvEvent → ErrorCode
ending [] = socket_recv_failed
ending (arrive b bs ∷ events) = ending events
ending (interrupted ∷ events) = ending events
ending (shut ∷ events) = connection_closed
ending (failed ∷ events) = socket_recv_failed

incoming-put_back :
    (cs : List ℕ) (events : List RecvEvent) → incoming (put_back cs events) ≡ cs ++ incoming events
incoming-put_back [] events = refl
incoming-put_back (c ∷ cs) events = refl

ending-put_back :
    (cs : List ℕ) (events : List RecvEvent) → ending (put_back cs events) ≡ ending events
ending-put_back [] events = refl
ending-put_back (c ∷ cs) events = refl

take-append_le : (n : ℕ) (xs ys : List ℕ) → n ≤ length xs → take n (xs ++ ys) ≡ take n xs
take-append_le zero xs ys h = refl
take-append_le (suc n) [] ys h = absurd (omega arith)
take-append_le (suc n) (x ∷ xs) ys h = ap (λ t. x ∷ t) (take-append_le n xs ys (omega arith))

drop-append_le : (n : ℕ) (xs ys : List ℕ) → n ≤ length xs → drop n (xs ++ ys) ≡ drop n xs ++ ys
drop-append_le zero xs ys h = refl
drop-append_le (suc n) [] ys h = absurd (omega arith)
drop-append_le (suc n) (x ∷ xs) ys h = drop-append_le n xs ys (omega arith)

take-append_ge :
    (n : ℕ) (xs ys : List ℕ) → length xs ≤ n → take n (xs ++ ys) ≡ xs ++ take (n - length xs) ys
take-append_ge n [] ys h = ap (λ (k : ℕ). take k ys) (omega arith)
take-append_ge zero (x ∷ xs) ys h = absurd (omega arith)
take-append_ge (suc n) (x ∷ xs) ys h =
    ap (λ t. x ∷ t)
      (take-append_ge n xs ys (omega arith) ∙ ap (λ (k : ℕ). xs ++ take k ys) (omega arith))

drop-append_ge :
    (n : ℕ) (xs ys : List ℕ) → length xs ≤ n → drop n (xs ++ ys) ≡ drop (n - length xs) ys
drop-append_ge n [] ys h = ap (λ (k : ℕ). drop k ys) (omega arith)
drop-append_ge zero (x ∷ xs) ys h = absurd (omega arith)
drop-append_ge (suc n) (x ∷ xs) ys h =
    drop-append_ge n xs ys (omega arith) ∙ ap (λ (k : ℕ). drop k ys) (omega arith)

-- What a read of `n` bytes leaves of a stream that has them.
pub record IsRead (n : ℕ) (events : List RecvEvent) (got : List ℕ)
    (result : ErrorCode × List ℕ × List RecvEvent) : Type 0 where
  pub code : result.0 ≡ success
  pub bytes : result.1 ≡ got ++ take n (incoming events)
  pub rest : incoming result.2 ≡ drop n (incoming events)
  pub end : ending result.2 ≡ ending events

recv_loop-IsRead :
    (n : ℕ) (events : List RecvEvent) (got : List ℕ)
    → n ≤ length (incoming events)
    → IsRead n events got (recv_loop n events got)
unfolding recv_loop
recv_loop-IsRead zero events got h = record {
  code = refl;
  bytes = sym (append-nil got);
  rest = refl;
  end = refl;
}
recv_loop-IsRead (suc n) [] got h = absurd (omega arith)
recv_loop-IsRead (suc n) (shut ∷ events) got h = absurd (omega arith)
recv_loop-IsRead (suc n) (failed ∷ events) got h = absurd (omega arith)
recv_loop-IsRead (suc n) (interrupted ∷ events) got h =
    let r = recv_loop-IsRead (suc n) events got h in
    record { code = r.code; bytes = r.bytes; rest = r.rest; end = r.end }
recv_loop-IsRead (suc n) (arrive b bs ∷ events) got h = elim (Bool-cases (ltb n (length bs))) [
  | inl longer ↦ rw longer (record {
    code = refl;
    bytes =
        ap (λ (t : List ℕ). got ++ b ∷ t)
          (sym (take-append_le n bs (incoming events) (ground arith)));
    rest =
        incoming-put_back (drop n bs) events
        ∙ sym (drop-append_le n bs (incoming events) (ground arith));
    end = ending-put_back (drop n bs) events;
  })
  | inr whole ↦
      let fits : length bs ≤ n = ground arith in
      let r =
        recv_loop-IsRead (n - length bs) events (got ++ b ∷ bs)
          (omega (arith, length-append bs (incoming events))) in
      rw whole (record {
        code = r.code;
        bytes =
            r.bytes
            ∙ append_assoc got (b ∷ bs) (take (n - length bs) (incoming events))
            ∙ ap (λ (t : List ℕ). got ++ b ∷ t) (sym (take-append_ge n bs (incoming events) fits));
        rest = r.rest ∙ sym (drop-append_ge n bs (incoming events) fits);
        end = r.end;
      })
]

-- Where the stream ends first, all of it is read, and the result says how it ended.
recv_loop_short :
    (n : ℕ) (events : List RecvEvent) (got : List ℕ)
    → length (incoming events) < n
    → ((recv_loop n events got).0 ≡ ending events)
      × ((recv_loop n events got).1 ≡ got ++ incoming events)
unfolding recv_loop
recv_loop_short zero events got h = absurd (omega arith)
recv_loop_short (suc n) [] got h = (refl, sym (append-nil got))
recv_loop_short (suc n) (shut ∷ events) got h = (refl, sym (append-nil got))
recv_loop_short (suc n) (failed ∷ events) got h = (refl, sym (append-nil got))
recv_loop_short (suc n) (interrupted ∷ events) got h = recv_loop_short (suc n) events got h
recv_loop_short (suc n) (arrive b bs ∷ events) got h = elim (Bool-cases (ltb n (length bs))) [
  | inl longer ↦ absurd (ground (arith, length-append bs (incoming events)))
  | inr whole ↦
      let r =
        recv_loop_short (n - length bs) events (got ++ b ∷ bs)
          (ground (arith, length-append bs (incoming events))) in
      rw whole (r.0, r.1 ∙ append_assoc got (b ∷ bs) (incoming events))
]

-- What a read of `n` bytes does, from the events of the connection.
pub record IsExact (n : ℕ) (events : List RecvEvent) (result : ErrorCode × List ℕ × List RecvEvent)
    : Type 0 where
  pub full :
      n ≤ length (incoming events)
      → (result.0 ≡ success)
        × (result.1 ≡ take n (incoming events))
        × (incoming result.2 ≡ drop n (incoming events))
        × (ending result.2 ≡ ending events)
  pub short :
      length (incoming events) < n → (result.0 ≡ ending events) × (result.1 ≡ incoming events)

-- What `mc_recv_exact` does to the state.
pub mc_recv_exact-IsExact :
    (n : ℕ) (w : World)
    → (result : ErrorCode × List ℕ × List RecvEvent) × (mc_recv_exact n w
        ≡ some ((result.0, result.1), record w { recvs = result.2 }))
      × IsExact n w.recvs result
unfolding mc_recv_exact
mc_recv_exact-IsExact n w = (
  recv_loop n w.recvs [],
  refl,
  record {
    full = λ h. let r = recv_loop-IsRead n w.recvs [] h in (r.code, r.bytes, r.rest, r.end);
    short = recv_loop_short n w.recvs [];
  },
)

-- If the connection delivers `n` bytes before it ends, then `mc_recv_exact`, whatever the chunks in
-- which they come and however often it is interrupted, returns success with exactly the first `n` of
-- them; the bytes behind them stay to be read, the connection ends as it would have, and nothing but
-- its events changes.
pub mc_recv_exact-full :
    (n : ℕ) (w : World)
    → n ≤ length (incoming w.recvs)
    → (later : List RecvEvent) × (mc_recv_exact n w
        ≡ some ((success, take n (incoming w.recvs)), record w { recvs = later }))
      × (incoming later ≡ drop n (incoming w.recvs))
      × (ending later ≡ ending w.recvs)
mc_recv_exact-full n w h =
    let (result, returns, exact) = mc_recv_exact-IsExact n w in
    let (code, bytes, left, end) = exact.full h in
    (
      result.2,
      returns
          ∙ ap₂ (λ (c : ErrorCode) (got : List ℕ). some ((c, got), record w { recvs = result.2 }))
              code bytes,
      left,
      end,
    )

-- If the connection ends before it has delivered `n` bytes, then `mc_recv_exact` returns the error of
-- its end, closed by the peer or failed, with all the bytes that came, and nothing but its events
-- changes.
pub mc_recv_exact-short :
    (n : ℕ) (w : World)
    → length (incoming w.recvs) < n
    → (later : List RecvEvent) × (mc_recv_exact n w
        ≡ some ((ending w.recvs, incoming w.recvs), record w { recvs = later }))
mc_recv_exact-short n w h =
    let (result, returns, exact) = mc_recv_exact-IsExact n w in
    (
      result.2,
      returns
          ∙ ap₂ (λ (c : ErrorCode) (got : List ℕ). some ((c, got), record w { recvs = result.2 }))
              (exact.short h).0 (exact.short h).1,
    )
