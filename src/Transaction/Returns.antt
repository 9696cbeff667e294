-- ===== src/Transaction/Returns.antt =====
-- A transaction returns whatever the network does, and leaves the table of locks as it must be for the
-- next one.
use native.Mathlib.Decide.{dec_lt}
use mathlib.Core.Path.{subst}
use melsec_mc_net.Prelude.{
  ℕ, ◌+◌, ◌-◌, ◌<◌, ltb, ◌||◌, if◌then◌else◌, ◌≡◌, refl, sym, ap, ◌∙◌, Bool, true, false, some,
  none, List, [], ◌∷◌, ◌++◌, arith, length, length-take, get_elem?, get_elem?-some, Bool-cases, inl,
  inr,
}
use melsec_mc_net.Machine.{
  World, M, checked, pure, invalid_parameter, >>=-eq_some, malloc, ErrorCode, success,
  socket_send_failed, Buffer,
}
use melsec_mc_net.Machine.Returns.{
  Returns, Anything, on_code-Returns, on_test-Returns, on_bool-Returns, checked-Returns,
  pure-Returns, >>=-Returns, malloc-Returns,
}
use melsec_mc_net.Socket.{is_positive, mc_recv_exact}
use melsec_mc_net.Socket.Receive.{incoming, mc_recv_exact-IsExact}
use melsec_mc_net.Locks.{mc_lock_fd_transaction, mc_unlock_fd_transaction}
use melsec_mc_net.Locks.Slots.{NoneHeld, HasRoom}
use melsec_mc_net.Locks.Table.{HeldBy, mc_lock-HeldBy, mc_unlock-NoneHeld}
use melsec_mc_net.Response.Read.{ending-ne-success}
use melsec_mc_net.Response.{
  Reply, refused, dangling, length_field, read_payload, read_body, mc_read_response,
}
use melsec_mc_net.Settings.{config_of}
use melsec_mc_net.Socket.Send.{pieces}
use melsec_mc_net.Transaction.{
  attempts, send_attempts, send_and_receive, transact, transaction, mc_send_and_receive_transaction,
}
use melsec_mc_net.Transaction.Retry.{send_attempts-Tried}
use melsec_mc_net.Transaction.Session.{after_unlock-success}

-- A read of `n` bytes returns, and has them all if it succeeds.
pub recv-Returns :
    (n : ℕ) (w : World) → Returns (λ got. got.0 ≡ success → length got.1 ≡ n) (mc_recv_exact n) w
recv-Returns n w =
    let (result, returns, exact) = mc_recv_exact-IsExact n w in
    (
      (result.0, result.1),
      w.mallocs,
      result.2,
      returns,
      elim (dec_lt (length (incoming w.recvs)) n) [
        | yes short ↦ λ ok. absurd (ending-ne-success w.recvs (sym (exact.short short).0 ∙ ok))
        | no enough ↦ λ ok.
            ap length (exact.full (omega arith)).1 ∙ length-take n (incoming w.recvs) (omega arith)
      ],
    )

-- A descriptor on which no transaction is under way, and another one can be made: the table of locks
-- has a slot for it, and the pthread functions succeed.
pub record IsIdle (fd : ℕ) (w : World) : Type 0 where
  pub positive : is_positive fd ≡ true
  pub threads : w.pthreads ≡ []
  pub idle : NoneHeld w.tx_locks
  pub room : HasRoom fd w.tx_locks

module _ (fd : ℕ) (cmd : List ℕ) (some_bytes : 0 < length cmd) (read_response : ℕ → M Reply)
    (P : Reply → Type 0) (refusal : P (refused socket_send_failed))
    (reads : (w : World) → Returns P (read_response fd) w) where
  -- While the lock is held: neither the locks nor what the pthread functions do changes.
  send_and_receive_returns :
      (w : World)
      → is_positive fd ≡ true
      → (reply : Reply) × (v : World) × (send_and_receive read_response fd (some cmd) w
          ≡ some (reply, v))
        × P reply
        × (v.tx_locks ≡ w.tx_locks)
        × (v.pthreads ≡ w.pthreads)
  unfolding send_and_receive
  send_and_receive_returns w positive =
      let n = attempts (config_of fd w.configs) in
      let t = send_attempts-Tried fd positive n cmd w some_bytes in
      let after : Bool → World = λ ok. record w {
        sends = t.later;
        sent = w.sent ++ pieces t.cuts cmd ++ (if ok then cmd else []);
      } in
      elim (Bool-cases t.ok) [
        | inl sent ↦
            let (reply, mallocs, recvs, returns, p) = reads (after true) in
            (
              reply,
              record (after true) { mallocs = mallocs; recvs = recvs },
              >>=-eq_some (send_attempts n fd (some cmd)) _
                    (t.returns ∙ ap (λ (ok : Bool). some (ok, after ok)) sent)
                  ∙ returns,
              p,
              refl,
              refl,
            )
        | inr unsent ↦ (
          refused socket_send_failed,
          after false,
          >>=-eq_some (send_attempts n fd (some cmd)) _
              (t.returns ∙ ap (λ (ok : Bool). some (ok, after ok)) unsent),
          refusal,
          refl,
          refl,
        )
      ]

  -- A transaction returns, with a reply of which `P` holds, and the descriptor is idle again.
  pub transact_returns :
      (w : World)
      → IsIdle fd w
      → (reply : Reply) × (v : World) × (transact read_response fd (some cmd) w ≡ some (reply, v))
        × P reply
        × IsIdle fd v
  unfolding transact
  transact_returns w at =
      let (locks, locked, held) = mc_lock-HeldBy fd at.positive w at.threads at.idle at.room in
      let w1 : World = record w { tx_locks = locks } in
      let (reply, w2, returns, p, same, threads) = send_and_receive_returns w1 at.positive in
      let (locks', unlocked, idle, room) =
        mc_unlock-NoneHeld fd at.positive w2 (threads ∙ at.threads)
          (subst (HeldBy fd) (sym same) held) in
      (
        reply,
        record w2 { tx_locks = locks' },
        >>=-eq_some (mc_lock_fd_transaction fd) _ locked
            ∙ >>=-eq_some (send_and_receive read_response fd (some cmd)) _ returns
            ∙ >>=-eq_some (mc_unlock_fd_transaction fd) _ unlocked
            ∙ ap (λ (r : Reply). some (r, record w2 { tx_locks = locks' }))
                (after_unlock-success reply),
        p,
        record { positive = at.positive; threads = threads ∙ at.threads; idle = idle; room = room },
      )

-- What `mc_read_response` reads out of the header is there.
length_field-Returns :
    (header : List ℕ) (w : World) → length header ≡ 11 → Returns Anything (length_field header) w
unfolding length_field
length_field-Returns header w e =
    let (low, at7) = get_elem?-some header 7 (omega arith) in
    let (high, at8) = get_elem?-some header 8 (omega arith) in
    >>=-Returns (checked (get_elem? header 7)) _ w (checked-Returns (get_elem? header 7) w at7)
      (λ a v p.
        >>=-Returns (checked (get_elem? header 8)) _ v (checked-Returns (get_elem? header 8) v at8)
          (λ b u q. pure-Returns _ u tt))

read_payload-Returns :
    (header : List ℕ) (n : ℕ) (w : World) → Returns Anything (read_payload header n) w
unfolding read_payload
read_payload-Returns header n w =
    let cut : ErrorCode → M Reply =
      λ c. pure (record { code = c; response = dangling; read_count = 0 }) in
    on_test-Returns _ _ (ltb 0 (n - 11)) w
      (λ more. >>=-Returns (mc_recv_exact (n - 11)) _ w (recv-Returns (n - 11) w) (λ got v p.
        on_code-Returns _ cut got.0 v (λ ok. pure-Returns _ v tt) (λ c. pure-Returns _ v tt)))
      (λ nothing. pure-Returns _ w tt)

read_body-Returns :
    (header : List ℕ) (w : World) → length header ≡ 11 → Returns Anything (read_body header) w
unfolding read_body
read_body-Returns header w e =
    >>=-Returns (length_field header) _ w (length_field-Returns header w e) (λ n v p.
      on_bool-Returns _ _ (ltb n 2 || ltb (n + 9) 11) v (λ short. pure-Returns _ v tt)
        (λ long. >>=-Returns malloc _ v (malloc-Returns v) (λ ok u q.
          on_test-Returns _ _ ok u (λ had. read_payload-Returns header (n + 9) u)
            (λ missing. pure-Returns _ u tt))))

mc_read_response-Returns : (fd : ℕ) (w : World) → Returns Anything (mc_read_response fd) w
unfolding mc_read_response
mc_read_response-Returns fd w =
    on_test-Returns _ _ (is_positive fd) w
      (λ positive. >>=-Returns (mc_recv_exact 11) _ w (recv-Returns 11 w) (λ got v p.
        on_code-Returns _ (λ c. pure (refused c)) got.0 v (λ ok. read_body-Returns got.1 v (p ok))
          (λ c. pure-Returns _ v tt)))
      (λ negative. pure-Returns _ w tt)

module _ (fd : ℕ) (read_response : ℕ → M Reply) (P : Reply → Type 0)
    (refusal : (code : ErrorCode) → P (refused code))
    (reads : (w : World) → Returns P (read_response fd) w) where
  -- The transaction of either protocol, over its own function for the response.
  pub transaction_returns :
      (cmd : Buffer) (w : World)
      → IsIdle fd w
      → (reply : Reply) × (v : World) × (transaction read_response fd cmd w ≡ some (reply, v))
        × P reply
        × IsIdle fd v
  unfolding transaction
  transaction_returns none w at =
      (refused invalid_parameter, w, refl, refusal invalid_parameter, at)
  transaction_returns (some []) w at =
      (refused invalid_parameter, w, refl, refusal invalid_parameter, at)
  transaction_returns (some (b ∷ cmd)) w at =
      let (reply, v, returns, p, after) =
        transact_returns fd (b ∷ cmd) (omega arith) read_response P (refusal socket_send_failed)
          reads w at in
      (reply, v, rw (at.positive, if◌then◌else◌) returns, p, after)

-- Whatever memory is to be had, whatever the network does and however often the caller has the command
-- sent again: on an idle descriptor, a transaction returns, and the descriptor is idle again, so that the
-- next transaction returns too.
pub mc_send_and_receive_transaction-returns :
    (fd : ℕ) (cmd : Buffer) (w : World)
    → IsIdle fd w
    → (reply : Reply) × (v : World) × (mc_send_and_receive_transaction fd cmd w ≡ some (reply, v))
      × IsIdle fd v
unfolding mc_send_and_receive_transaction
mc_send_and_receive_transaction-returns fd cmd w at =
    let (reply, v, returns, p, after) =
      transaction_returns fd mc_read_response Anything (λ code. tt) (mc_read_response-Returns fd)
        cmd w at in
    (reply, v, returns, after)
