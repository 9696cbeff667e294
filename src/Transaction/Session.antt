-- ===== src/Transaction/Session.antt =====
-- A transaction as a whole: what is sent, what is read, and what becomes of the lock.
use mathlib.Core.Path.{ap₂}
use melsec_mc_net.Prelude.{
  append-nil, ℕ, ◌^◌, ◌<◌, ◌≤◌, ltb, ◌≡◌, refl, ap, ◌∙◌, true, some, List, [], ◌∷◌, ◌++◌, arith,
  length, if◌then◌else◌, Bool,
}
use melsec_mc_net.Machine.{World, M, >>=-eq_some, SendEvent, RecvEvent, TxLock, success}
use melsec_mc_net.Socket.{is_positive}
use melsec_mc_net.Socket.Receive.{incoming, ending}
use melsec_mc_net.Socket.Send.{pieces, capacity}
use melsec_mc_net.Settings.{config_of}
use melsec_mc_net.Locks.{mc_lock_fd_transaction, mc_unlock_fd_transaction}
use melsec_mc_net.Locks.Slots.{NoneHeld, HasRoom}
use melsec_mc_net.Locks.Table.{mc_lock-HeldBy, mc_unlock-NoneHeld}
use melsec_mc_net.Response.{Reply, dangling, mc_read_response}
use melsec_mc_net.Response.Frame.{ResponseFrame, IsWellFormed, header_of, frame_of}
use melsec_mc_net.Response.Read.{whole, mc_read_response-whole, mc_read_response-cut}
use melsec_mc_net.Transaction.{
  attempts, send_attempts, send_and_receive, transact, mc_send_and_receive_transaction, transaction,
  after_unlock,
}
use melsec_mc_net.Transaction.Retry.{send_attempts-Tried}

-- A descriptor on which a transaction can be made: the library's calls of the system succeed, no
-- transaction is under way, the table has a slot for it, and the number of retries is not negative.
pub record IsReady (fd : ℕ) (w : World) : Type 0 where
  pub positive : is_positive fd ≡ true
  pub memory : w.mallocs ≡ []
  pub threads : w.pthreads ≡ []
  pub idle : NoneHeld w.tx_locks
  pub room : HasRoom fd w.tx_locks
  pub retries : ltb (config_of fd w.configs).retry_count (2 ^ 31) ≡ true

-- The state after a command was sent at once and its answer read, so that `Left` holds of what comes
-- later on the connection.
pub record Exchanged (Left : List RecvEvent → Type 0) (cmd : List ℕ) (fd : ℕ) (w v : World)
    : Type 0 where
  pub sends : List SendEvent
  pub recvs : List RecvEvent
  pub tx_locks : List TxLock
  pub world :
      v ≡ record w { sends = sends; recvs = recvs; tx_locks = tx_locks; sent = w.sent ++ cmd }
  pub unread : Left recvs
  pub idle : NoneHeld tx_locks
  pub room : HasRoom fd tx_locks

pub after_unlock-success : (reply : Reply) → after_unlock reply success ≡ reply
after_unlock-success reply =
    elim reply.code
      as (λ c. after_unlock (record reply { code = c }) success ≡ record reply { code = c }) [
        | success ↦ refl
        | _ ↦ refl
      ]

module _ (fd : ℕ) (cmd : List ℕ) (some_bytes : 0 < length cmd) where
  send_once :
      (w : World)
      → is_positive fd ≡ true
      → ltb (config_of fd w.configs).retry_count (2 ^ 31) ≡ true
      → length cmd ≤ capacity w.sends
      → (later : List SendEvent) × (send_attempts
            (attempts (config_of fd w.configs))
            fd
            (some cmd)
            w
          ≡ some (true, record w { sends = later; sent = w.sent ++ cmd }))
  send_once w positive retries fits =
      let t =
        send_attempts-Tried fd positive (attempts (config_of fd w.configs)) cmd w some_bytes in
      let (ok, none_cut) = t.at_once fits (ground (arith, retries)) in
      (
        t.later,
        t.returns
            ∙ ap₂
                (λ (b : Bool) (cs : List ℕ). some (
                  b,
                  record w {
                    sends = t.later;
                    sent = w.sent ++ pieces cs cmd ++ (if b then cmd else []);
                  },
                ))
                ok none_cut
            ∙ ap (λ (s : List ℕ). some (true, record w { sends = t.later; sent = s ++ cmd }))
                (append-nil w.sent),
      )

  -- The lock is taken, the command sent, the response read, and the lock given back.
  pub transact_steps :
      (read_response : ℕ → M Reply) (w : World) (reply : Reply) (Left : List RecvEvent → Type 0)
      → IsReady fd w
      → length cmd ≤ capacity w.sends
      → ((v : World)
          → v.mallocs ≡ []
          → v.recvs ≡ w.recvs
          → (later : List RecvEvent) × (read_response fd v
              ≡ some (reply, record v { recvs = later }))
            × Left later)
      → (v : World) × (transact read_response fd (some cmd) w ≡ some (reply, v))
        × Exchanged Left cmd fd w v
  unfolding transact send_and_receive
  transact_steps read_response w reply Left ready fits answers =
      let (locks, locked, held) =
        mc_lock-HeldBy fd ready.positive w ready.threads ready.idle ready.room in
      let w1 : World = record w { tx_locks = locks } in
      let (sends, sent) = send_once w1 ready.positive ready.retries fits in
      let w2 : World = record w1 { sends = sends; sent = w.sent ++ cmd } in
      let (recvs, received, left) = answers w2 ready.memory refl in
      let w3 : World = record w2 { recvs = recvs } in
      let (locks', unlocked, idle, room) =
        mc_unlock-NoneHeld fd ready.positive w3 ready.threads held in
      (
        record w3 { tx_locks = locks' },
        >>=-eq_some (mc_lock_fd_transaction fd) _ locked
            ∙ >>=-eq_some (send_and_receive read_response fd (some cmd)) _ (
                >>=-eq_some (send_attempts (attempts (config_of fd w.configs)) fd (some cmd)) _ sent
                ∙ received)
            ∙ >>=-eq_some (mc_unlock_fd_transaction fd) _ unlocked
            ∙ ap (λ (r : Reply). some (r, record w3 { tx_locks = locks' }))
                (after_unlock-success reply),
        record {
          sends = sends;
          recvs = recvs;
          tx_locks = locks';
          world = refl;
          unread = left;
          idle = idle;
          room = room;
        },
      )

module _ (fd : ℕ) (w : World) (ready : IsReady fd w) (f : ResponseFrame)
    (valid : IsWellFormed f) where
  -- A transaction on a ready descriptor with a command of at least one byte, where the system takes the
  -- command at once and a well-formed response comes whole: the result is success with the frame of
  -- the response, exactly the command is sent, exactly the response is read, and no lock is held
  -- afterwards.
  pub mc_send_and_receive_transaction-whole :
      (cmd rest : List ℕ)
      → 0 < length cmd
      → length cmd ≤ capacity w.sends
      → incoming w.recvs ≡ frame_of f ++ rest
      → (v : World) × (mc_send_and_receive_transaction fd (some cmd) w ≡ some (whole f valid, v))
        × Exchanged (λ later. incoming later ≡ rest) cmd fd w v
  unfolding mc_send_and_receive_transaction transaction
  mc_send_and_receive_transaction-whole [] rest pos fits comes = absurd (omega arith)
  mc_send_and_receive_transaction-whole (c ∷ cmd) rest pos fits comes =
      rw (ready.positive, if◌then◌else◌)
        (transact_steps fd (c ∷ cmd) pos mc_read_response w (whole f valid)
          (λ later. incoming later ≡ rest) ready fits
          (λ v m e.
            mc_read_response-whole f valid fd rest v ready.positive m (ap incoming e ∙ comes)))

  abbrev pub cut_off : Reply
  cut_off = record { code = ending w.recvs; response = dangling; read_count = 0 }

  pub mc_send_and_receive_transaction-cut :
      (cmd part : List ℕ)
      → 0 < length cmd
      → length cmd ≤ capacity w.sends
      → incoming w.recvs ≡ header_of f ++ part
      → length part < length f.values
      → (v : World) × (mc_send_and_receive_transaction fd (some cmd) w ≡ some (cut_off, v))
        × Exchanged (λ later. Unit {0}) cmd fd w v
  unfolding mc_send_and_receive_transaction transaction
  mc_send_and_receive_transaction-cut [] part pos fits comes less = absurd (omega arith)
  mc_send_and_receive_transaction-cut (c ∷ cmd) part pos fits comes less =
      rw (ready.positive, if◌then◌else◌)
        (transact_steps fd (c ∷ cmd) pos mc_read_response w cut_off (λ later. Unit {0}) ready fits
          (λ v m e.
            let (later, returns) =
              mc_read_response-cut f valid fd part v ready.positive m (ap incoming e ∙ comes)
                less in
            (
              later,
              returns
                  ∙ ap
                      (λ (events : List RecvEvent). some (
                        record { code = ending events; response = dangling; read_count = 0 },
                        record v { recvs = later },
                      ))
                      e,
              tt,
            )))
