-- ===== src/Transaction/Retry.antt =====
-- The rounds of tries in which a transaction sends its command.
use melsec_mc_net.Prelude.{
  ℕ, zero, suc, ◌+◌, ◌*◌, ◌<◌, ◌≡◌, refl, sym, ap, ◌∙◌, true, false, some, none, List, arith,
  length, if◌then◌else◌, Bool, Option-cases, inl, inr, Bool-cases, ◌==◌,
}
use melsec_mc_net.Machine.{World, M, ◌>>=◌, pure, Buffer, buffer_length}
use melsec_mc_net.Socket.{is_positive, mc_write_msg, try_loop, mc_try_send_msg}
use melsec_mc_net.Socket.Send.{Tried, try_loop-Tried, not_negative}
use melsec_mc_net.Transaction.{send_attempts}

abbrev or_else : ℕ → ℕ → Buffer → Bool → M Bool
or_else tries fd cmd ok = if ok then pure true else try_loop tries fd cmd

try_loop-add :
    (a b fd : ℕ) (cmd : Buffer) (w : World)
    → try_loop (a + b) fd cmd w ≡ (try_loop a fd cmd >>= or_else b fd cmd) w
unfolding try_loop
try_loop-add zero b fd cmd w = ap (λ (n : ℕ). try_loop n fd cmd w) (omega arith)
try_loop-add (suc a) b fd cmd w =
    let e : suc a + b ≡ suc (a + b) = omega arith in
    rw e (elim (Option-cases (mc_write_msg fd cmd w)) [
      | inl undef ↦ rw (undef, try_loop, ◌>>=◌) refl
      | inr ((none, v), wrote) ↦ rw (wrote, try_loop, ◌>>=◌) (try_loop-add a b fd cmd v)
      | inr ((some n, v), wrote) ↦ elim (Bool-cases (n == buffer_length cmd)) [
        | inl whole ↦ rw (wrote, try_loop, ◌>>=◌) (rw (whole, if◌then◌else◌) refl)
        | inr part ↦
            rw (wrote, try_loop, ◌>>=◌) (rw (part, if◌then◌else◌) (try_loop-add a b fd cmd v))
      ]
    ])

module _ (fd : ℕ) (positive : is_positive fd ≡ true) where
  round :
      (n : ℕ) (cmd : Buffer) (w : World) (rest : M Bool)
      → ((v : World) → rest v ≡ try_loop (3 * n) fd cmd v)
      → (try_loop 3 fd cmd >>= λ sent. if sent then pure true else rest) w
        ≡ (try_loop 3 fd cmd >>= or_else (3 * n) fd cmd) w
  round n cmd w rest e = elim (Option-cases (try_loop 3 fd cmd w)) [
    | inl undef ↦ rw (undef, ◌>>=◌) refl
    | inr ((true, v), tried) ↦ rw (tried, ◌>>=◌) refl
    | inr ((false, v), tried) ↦ rw (tried, ◌>>=◌) (e v)
  ]

  send_attempts-eq :
      (n : ℕ) (cmd : Buffer) (w : World) → send_attempts n fd cmd w ≡ try_loop (3 * n) fd cmd w
  unfolding send_attempts mc_try_send_msg try_loop
  send_attempts-eq zero cmd w = refl
  send_attempts-eq (suc n) cmd w =
      let e : 3 * suc n ≡ 3 + 3 * n = omega arith in
      rw (e, not_negative fd positive, if◌then◌else◌)
        (round n cmd w (send_attempts n fd cmd) (send_attempts-eq n cmd)
          ∙ sym (try_loop-add 3 (3 * n) fd cmd w))

  -- The rounds of a transaction on a positive descriptor and a command of at least one byte: they end,
  -- and they try three times in each. If one try succeeds, it is the last and leaves the whole command
  -- on the connection, behind what each failed try left of its beginning; if none does, all the tries
  -- failed. Nothing but the send events and what was sent changes.
  pub send_attempts-Tried :
      (n : ℕ) (cmd : List ℕ) (w : World)
      → 0 < length cmd
      → Tried cmd (3 * n) w (send_attempts n fd (some cmd) w)
  send_attempts-Tried n cmd w some_bytes =
      rw (send_attempts-eq n (some cmd) w) (try_loop-Tried fd positive cmd some_bytes (3 * n) w)
