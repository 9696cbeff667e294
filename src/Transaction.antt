-- ===== src/Transaction.antt =====
-- melsec_mc_net/melsec_mc_bin.c: `mc_send_and_receive_transaction`, and the exchange that the
-- functions of the same file make around it.
pub mod Retry
pub mod Session
pub mod Exchange
pub mod Returns
pub mod Idle
use melsec_mc_net.Prelude.{
  ℕ, zero, suc, ◌+◌, ◌^◌, ltb, ◌&&◌, not, if◌then◌else◌, Bool, true, false, Option, none, some,
  List, [], ◌∷◌, length,
}
use melsec_mc_net.Machine.{
  World, M, ◌>>=◌, ◌>>◌, pure, Buffer, ErrorCode, success, invalid_parameter, build_core_cmd_failed,
  socket_send_failed, response_header_failed, CommConfig,
}
use melsec_mc_net.Socket.{is_positive, mc_try_send_msg}
use melsec_mc_net.Settings.{config_of}
use melsec_mc_net.Locks.{mc_lock_fd_transaction, mc_unlock_fd_transaction}
use melsec_mc_net.Command.{pack_mc_command}
use melsec_mc_net.Response.{
  Pointer, null, live, dangling, release, Reply, refused, mc_read_response,
  min_response_header_size,
}

-- The rounds of `for (i = 0; i <= retry_count; i++)`, for a signed count.
abbrev pub attempts : CommConfig → ℕ
attempts config = if ltb config.retry_count (2 ^ 31) then suc config.retry_count else 0

-- The sleep between two attempts changes nothing here.
unfoldable pub send_attempts : ℕ → ℕ → Buffer → M Bool
send_attempts zero fd cmd = pure false
send_attempts (suc left) fd cmd = do
  sent ← mc_try_send_msg fd cmd
  if sent then pure true else send_attempts left fd cmd

-- The result of the unlock counts only after a success.
abbrev pub after_unlock : Reply → ErrorCode → Reply
after_unlock reply unlocked = elim reply.code [
  | success ↦ record reply { code = unlocked }
  | _ ↦ reply
]

-- The text of `mc_send_and_receive_transaction`, which stands in the file of each protocol, over that
-- file's own function for the response.
module _ (read_response : ℕ → M Reply) where
  -- What is done while the lock is held.
  unfoldable pub send_and_receive : ℕ → Buffer → M Reply
  send_and_receive fd cmd w =
      (do
        sent ← send_attempts (attempts (config_of fd w.configs)) fd cmd
        if sent then read_response fd else pure (refused socket_send_failed))
        w

  unfoldable pub transact : ℕ → Buffer → M Reply
  transact fd cmd = do
    locked ← mc_lock_fd_transaction fd
    elim locked [
      | success ↦ (do
        reply ← send_and_receive fd cmd
        unlocked ← mc_unlock_fd_transaction fd
        pure (after_unlock reply unlocked))
      | code ↦ pure (refused code)
    ]

  unfoldable pub transaction : ℕ → Buffer → M Reply
  transaction fd none = pure (refused invalid_parameter)
  transaction fd (some []) = pure (refused invalid_parameter)
  transaction fd (some (b ∷ cmd)) =
      if is_positive fd then transact fd (some (b ∷ cmd)) else pure (refused invalid_parameter)

unfoldable pub mc_send_and_receive_transaction : ℕ → Buffer → M Reply
mc_send_and_receive_transaction = transaction mc_read_response

-- Whether the response of a transaction is good enough to be parsed.
abbrev pub accepted : Reply → ErrorCode
accepted reply = elim reply.code [
  | success ↦
      if ltb reply.read_count min_response_header_size then response_header_failed else success
  | other ↦ other
]

-- The response as the parsers take it; a `dangling` one is released before.
abbrev pub response_buffer : Pointer → Buffer
response_buffer null = none
response_buffer (live bytes) = some bytes
response_buffer dangling = none

-- The text that is common to the functions that exchange a command: the core is packed with the
-- network address, the transaction is made, what came back is checked, parsed and released.
module _ {ℓ} {A : Type ℓ} (fd : ℕ) (fails : ErrorCode → A) (parse : Buffer → M A) where
  unfoldable pub finish : Reply → M A
  finish reply = elim (accepted reply) [
    | success ↦ (do
      parsed ← parse (response_buffer reply.response)
      release reply.response
      pure parsed)
    | code ↦ (do release reply.response; pure (fails code))
  ]

  unfoldable pub exchange : Buffer → M A
  exchange core_cmd w =
      (do
        cmd ←
            pack_mc_command core_cmd w.network_address.network_number
              w.network_address.station_number
        elim cmd [
          | none ↦ pure (fails build_core_cmd_failed)
          | some bytes ↦ (do reply ← mc_send_and_receive_transaction fd (some bytes); finish reply)
        ])
        w
