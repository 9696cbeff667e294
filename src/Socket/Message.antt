-- ===== src/Socket/Message.antt =====
-- `mc_read_msg` reads what `mc_recv_exact` does, and counts a connection that ends as success.
use mathlib.Core.Option.{some-injective}
use melsec_mc_net.Prelude.{
  ℕ, zero, suc, ◌-◌, ltb, ◌≡◌, refl, ap, ◌∙◌, if◌then◌else◌, Bool, true, false, Option, none, some,
  List, [], ◌∷◌, ◌++◌, length, Bool-cases, inl, inr,
}
use melsec_mc_net.Machine.{
  World, ErrorCode, success, connection_closed, RecvEvent, arrive, shut, interrupted, failed,
}
use melsec_mc_net.Socket.{is_positive, recv_loop, read_loop, mc_recv_exact, mc_read_msg}

-- Success and a closed connection are no failure.
abbrev pub no_failure : ErrorCode → Bool
no_failure success = true
no_failure connection_closed = true
no_failure _ = false

-- The result of `mc_read_msg`, from that of `mc_recv_exact` and the bytes that it stores.
abbrev pub count_of : ErrorCode → List ℕ → Option ℕ
count_of code got = if no_failure code then some (length got) else none

read_loop-eq :
    (n : ℕ) (events : List RecvEvent) (got : List ℕ)
    → read_loop n events got ≡ (
      no_failure (recv_loop n events got).0,
      (recv_loop n events got).1,
      (recv_loop n events got).2,
    )
unfolding read_loop recv_loop
read_loop-eq zero events got = refl
read_loop-eq (suc n) [] got = refl
read_loop-eq (suc n) (shut ∷ events) got = refl
read_loop-eq (suc n) (interrupted ∷ events) got = read_loop-eq (suc n) events got
read_loop-eq (suc n) (failed ∷ events) got = refl
read_loop-eq (suc n) (arrive b bs ∷ events) got = elim (Bool-cases (ltb n (length bs))) [
  | inl longer ↦ rw (longer, if◌then◌else◌) refl
  | inr whole ↦ rw (whole, if◌then◌else◌) (read_loop-eq (n - length bs) events (got ++ b ∷ bs))
]

-- On a positive descriptor, with a buffer and a positive number of bytes, `mc_read_msg` makes of the
-- connection what `mc_recv_exact` does, and stores the same bytes; its result is their number, unless
-- the connection has failed, and then -1.
pub mc_read_msg-eq :
    (fd n : ℕ) (w v : World) (code : ErrorCode) (got : List ℕ)
    → is_positive fd ≡ true
    → is_positive n ≡ true
    → mc_recv_exact n w ≡ some ((code, got), v)
    → mc_read_msg fd true n w ≡ some ((count_of code got, got), v)
unfolding mc_read_msg mc_recv_exact
mc_read_msg-eq fd n w v code got pos some_bytes e =
    rw (pos, some_bytes, if◌then◌else◌)
      (ap
          (λ (t : Bool × List ℕ × List RecvEvent).
            some ((if t.0 then some (length t.1) else none, t.1), record w { recvs = t.2 }))
          (read_loop-eq n w.recvs [])
        ∙ ap (λ (p : (ErrorCode × List ℕ) × World). some ((count_of p.0.0 p.0.1, p.0.1), p.1))
            (some-injective _ _ e))
