-- ===== src/Threads.antt =====
-- melsec_mc_net/melsec_mc_bin.c: `mc_lock_fd_transaction` and `mc_unlock_fd_transaction` in several
-- threads. A step of a thread is a lock or an unlock of a mutex, or one of the loops over the table.
-- The locks and unlocks of mutexes succeed; a lock waits until the mutex is not held.
pub mod Table
pub mod Advance
pub mod Invariant
pub mod Safety
pub mod Owners
pub mod Progress
pub mod Alone
use melsec_mc_net.Prelude.{
  ℕ, ◌==◌, ◌||◌, ◌≡◌, if◌then◌else◌, Bool, true, false, Option, none, some, List, get_elem?, set,
  find_index?, replicate,
}
use melsec_mc_net.Machine.{TxLock}
use melsec_mc_net.Socket.{is_positive}
use melsec_mc_net.Locks.{max_tx_connections, owns, is_free}

-- What the threads share; `guarded` is whether `g_connection_mutex` is held.
pub record Shared : Type 0 where
  pub locks : List TxLock
  pub guarded : Bool

-- Where a thread stands, with the local variables that are live there; `none` is NULL.
pub data Pc : Type 0 where
  idle : Pc  -- outside of a transaction
  waiting : Pc  -- another call, before the lock of `g_connection_mutex`
  working : Pc  -- before its unlock: a connection, its end, a copy of the network address
  entering : (fd : ℕ) → Pc  -- `mc_lock_fd_transaction`, before the lock of `g_connection_mutex`
  looking : (fd : ℕ) → Pc  -- the first loop of `mc_get_or_create_fd_tx_mutex_locked`
  creating : (fd : ℕ) → Pc  -- its second loop
  returning : (fd : ℕ) (tx_mutex : Option ℕ) → Pc  -- before the unlock of `g_connection_mutex`
  locking : (fd i : ℕ) → Pc  -- before the lock of `tx_mutex`
  inside : (fd : ℕ) → Pc  -- between the lock and the unlock, where it receives and sleeps
  sending : (fd : ℕ) → Pc  -- `mc_write_msg`, before the lock of `g_connection_mutex`
  writing : (fd : ℕ) → Pc  -- its loop, and the unlock of `g_connection_mutex`
  leaving : (fd : ℕ) → Pc  -- `mc_unlock_fd_transaction`, before the lock of `g_connection_mutex`
  seeking : (fd : ℕ) → Pc  -- its loop
  found : (fd : ℕ) (tx_mutex : Option ℕ) → Pc  -- before the unlock of `g_connection_mutex`
  unlocking : (fd i : ℕ) → Pc  -- before the unlock of `tx_mutex`

-- What a step leaves open: whether the next call is a transaction, and on which descriptor; whether a
-- transaction sends again; whether `mc_mutex_init` succeeds.
pub record Choice : Type 0 where
  pub transaction : Bool
  pub fd : ℕ
  pub sends : Bool
  pub initialises : Bool

-- A free slot that is taken, if its mutex is initialised.
abbrev pub taken : Bool → ℕ → TxLock → TxLock
taken ready fd s = record s { fd = fd; in_use = ready; tx_mutex_initialized = ready }

-- The second loop of `mc_get_or_create_fd_tx_mutex_locked`.
unfoldable pub create : Bool → ℕ → List TxLock → List TxLock × Option ℕ
create ok fd locks = elim (find_index? is_free locks) [
  | none ↦ (locks, none)
  | some i ↦ elim (get_elem? locks i) [
    | none ↦ (locks, none)
    | some s ↦
        let ready = s.tx_mutex_initialized || ok in
        (set locks i (taken ready fd s), if ready then some i else none)
  ]
]

-- The next call of a thread. A lock on a descriptor that is not positive returns at once.
abbrev pub called : Choice → Pc
called c =
    if c.transaction then (if is_positive c.fd then Pc.entering c.fd else Pc.idle) else Pc.waiting

-- One step of one thread; `none` if it waits.
unfoldable pub advance : Choice → Shared → Pc → Option (Shared × Pc)
advance c m Pc.idle = some (m, called c)
advance c m Pc.waiting = if m.guarded then none else some (record m { guarded = true }, Pc.working)
advance c m Pc.working = some (record m { guarded = false }, Pc.idle)
advance c m (Pc.entering fd) =
    if m.guarded then none else some (record m { guarded = true }, Pc.looking fd)
advance c m (Pc.looking fd) = elim (find_index? (owns fd) m.locks) [
  | some i ↦ some (m, Pc.returning fd (some i))
  | none ↦ some (m, Pc.creating fd)
]
advance c m (Pc.creating fd) =
    let made = create c.initialises fd m.locks in
    some (record m { locks = made.0 }, Pc.returning fd made.1)
advance c m (Pc.returning fd none) = some (record m { guarded = false }, Pc.idle)
advance c m (Pc.returning fd (some i)) = some (record m { guarded = false }, Pc.locking fd i)
advance c m (Pc.locking fd i) = elim (get_elem? m.locks i) [
  | none ↦ none
  | some s ↦
      if s.held
      then none
      else some (record m { locks = set m.locks i (record s { held = true }) }, Pc.inside fd)
]
advance c m (Pc.inside fd) = some (m, if c.sends then Pc.sending fd else Pc.leaving fd)
advance c m (Pc.sending fd) =
    if m.guarded then none else some (record m { guarded = true }, Pc.writing fd)
advance c m (Pc.writing fd) = some (record m { guarded = false }, Pc.inside fd)
advance c m (Pc.leaving fd) =
    if m.guarded then none else some (record m { guarded = true }, Pc.seeking fd)
advance c m (Pc.seeking fd) = some (m, Pc.found fd (find_index? (owns fd) m.locks))
advance c m (Pc.found fd none) = some (record m { guarded = false }, Pc.idle)
advance c m (Pc.found fd (some i)) = some (record m { guarded = false }, Pc.unlocking fd i)
advance c m (Pc.unlocking fd i) = elim (get_elem? m.locks i) [
  | none ↦ none
  | some s ↦ some (record m { locks = set m.locks i (record s { held = false }) }, Pc.idle)
]

-- Any number of threads.
pub record System : Type 0 where
  pub mem : Shared
  pub pc : ℕ → Pc

abbrev pub update : (ℕ → Pc) → ℕ → Pc → ℕ → Pc
update pc i p j = if i == j then p else pc j

-- A step of any thread, in any order.
pub data Step (s : System) : System → Type 0 where
  pick :
      (i : ℕ) (c : Choice) {m : Shared} {p : Pc}
      → advance c s.mem (s.pc i) ≡ some (m, p)
      → Step s (record { mem = m; pc = update s.pc i p })

abbrev pub unused : TxLock
unused = record { fd = 0; in_use = false; tx_mutex_initialized = false; held = false }

-- `g_tx_connection_locks`, before any call
unfoldable pub empty_table : List TxLock
empty_table = replicate max_tx_connections unused

abbrev pub start : System
start = record { mem = record { locks = empty_table; guarded = false }; pc = λ _. Pc.idle }

pub data Reach : System → Type 0 where
  here : Reach start
  later : {s t : System} → Reach s → Step s t → Reach t
