-- ===== src/Tests/Threads.antt =====
-- Two threads in transactions on one descriptor, and the calls of one that runs alone.
use melsec_mc_net.Prelude.{
  ℕ, ◌≡◌, refl, true, false, Option, none, some, List, [], ◌∷◌, find_index?,
}
use mathlib.Core.List.{foldl}
use melsec_mc_net.Machine.{success, TxLock, pthread}
use melsec_mc_net.Locks.{mc_lock_fd_transaction, mc_get_or_create_fd_tx_mutex_locked, claim}
use melsec_mc_net.Threads.{
  Shared, Pc, entering, locking, inside, Choice, create, advance, System, pick, empty_table, start,
  Reach, here, later,
}
use melsec_mc_net.Threads.Table.{Held}
use melsec_mc_net.Threads.Safety.{mutual_exclusion, unlock_finds}
use melsec_mc_net.Threads.Progress.{Moves, no_deadlock}
use melsec_mc_net.Threads.Alone.{Alone, free, mc_lock_alone}
use melsec_mc_net.Machine.{World}
use melsec_mc_net.Locks.{mc_unlock_fd_transaction}
use melsec_mc_net.ThreadSafe.{mc_mutex_unlock}
use melsec_mc_net.Threads.{leaving, idle}
use melsec_mc_net.Threads.Alone.Unlock.{mc_unlock_alone}
use melsec_mc_net.Tests.Data.{unused, taken, world}
use melsec_mc_net.ThreadSafe.{mc_mutex_init, mc_mutex_lock}

-- Every call is a transaction on descriptor 3 that only receives, and every mutex can be initialised.
abbrev three : Choice
three = record { transaction = true; fd = 3; sends = false; initialises = true }

record Run : Type 0 where
  last : System
  reached : Reach last

turned :
    (r : Run) (i : ℕ) (o : Option (Shared × Pc)) → advance three r.last.mem (r.last.pc i) ≡ o → Run
turned r i none e = r
turned r i (some (m, p)) e = record { last = _; reached = later r.reached (pick i three e) }

-- A turn of a thread that waits changes nothing.
run : List ℕ → Run
unfolding turned
run =
    foldl (λ r i. turned r i (advance three r.last.mem (r.last.pc i)) refl)
      (record { last = start; reached = here })

-- Thread 0 is in its transaction, and thread 1 waits for the mutex.
abbrev contended : Run
contended = run (0 ∷ 1 ∷ 0 ∷ 1 ∷ 0 ∷ 0 ∷ 0 ∷ 0 ∷ 1 ∷ 1 ∷ 1 ∷ 1 ∷ 1 ∷ [])

contended_waits :
    (contended.last.pc 0 ≡ inside 3)
    × (contended.last.pc 1 ≡ locking 3 0)
    × (advance three contended.last.mem (contended.last.pc 1) ≡ none)
unfolding run turned advance create empty_table find_index?
contended_waits = (refl, refl, refl)

mutual_exclusion_example : ◌≡◌ {A = ℕ} 0 0
unfolding run turned advance create empty_table find_index?
mutual_exclusion_example = mutual_exclusion contended.reached 3 0 0 refl refl

no_deadlock_example : (j : ℕ) × Moves contended.last.mem (contended.last.pc j)
unfolding run turned advance create empty_table find_index?
no_deadlock_example = no_deadlock contended.reached 1 (λ e. cc)

-- Thread 0 has sought its slot, and thread 1 waits.
abbrev releasing : Run
releasing = run (0 ∷ 1 ∷ 0 ∷ 1 ∷ 0 ∷ 0 ∷ 0 ∷ 0 ∷ 1 ∷ 1 ∷ 1 ∷ 1 ∷ 0 ∷ 0 ∷ 0 ∷ [])

unlock_finds_example :
    (k : ℕ) × (◌≡◌ {A = Option ℕ} (some 0) (some k)) × Held releasing.last.mem.locks 3 k
unfolding run turned advance create empty_table find_index?
unlock_finds_example = unlock_finds releasing.reached 0 3 refl

abbrev taken_locks : List TxLock
taken_locks = record (taken 3) { held = true } ∷ taken 5 ∷ []

mc_lock_alone_example :
    Alone three (free (unused ∷ taken 5 ∷ [])) (entering 3) (free taken_locks) (inside 3)
unfolding mc_lock_fd_transaction mc_get_or_create_fd_tx_mutex_locked claim mc_mutex_init
    mc_mutex_lock find_index? pthread
mc_lock_alone_example =
    mc_lock_alone three 3 (world []) refl refl refl success
      (record (world []) { tx_locks = taken_locks }) refl

abbrev in_transaction : World
in_transaction = record (world []) { tx_locks = taken_locks }

mc_unlock_alone_example :
    Alone three (free taken_locks) (leaving 3) (free (taken 3 ∷ taken 5 ∷ [])) idle
unfolding mc_unlock_fd_transaction mc_mutex_unlock find_index? pthread
mc_unlock_alone_example =
    mc_unlock_alone three 3 in_transaction refl refl success
      (record (world []) { tx_locks = taken 3 ∷ taken 5 ∷ [] }) refl
