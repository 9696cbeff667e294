-- ===== src/Threads/Invariant.antt =====
-- What holds in every state that the threads reach.
pub mod Effects
pub mod Steps
pub mod Writes
pub mod Kept
use melsec_mc_net.Prelude.{ℕ, ◌≡◌, Bool, true, false, Option, none, some, List}
use melsec_mc_net.Machine.{TxLock}
use melsec_mc_net.Threads.Table.{Owned, Held, Unknown, OneSlot}
use melsec_mc_net.Threads.{
  Shared, Pc, waiting, working, sending, writing, looking, creating, returning, locking, inside,
  leaving, seeking, found, unlocking,
}

-- The thread holds `g_connection_mutex`.
abbrev pub guards : Pc → Bool
guards working = true
guards (writing _) = true
guards (looking _) = true
guards (creating _) = true
guards (returning _ _) = true
guards (seeking _) = true
guards (found _ _) = true
guards _ = false

-- The thread holds the mutex of a descriptor.
abbrev pub transacts : Pc → Option ℕ
transacts (inside fd) = some fd
transacts (sending fd) = some fd
transacts (writing fd) = some fd
transacts (leaving fd) = some fd
transacts (seeking fd) = some fd
transacts (found fd _) = some fd
transacts (unlocking fd _) = some fd
transacts _ = none

-- What a thread knows of the table.
abbrev pub Knows : List TxLock → Pc → Type 0
Knows locks (creating fd) = Unknown locks fd
Knows locks (returning fd (some i)) = Owned locks fd i
Knows locks (locking fd i) = Owned locks fd i
Knows locks (inside fd) = (i : ℕ) × Held locks fd i
Knows locks (sending fd) = (i : ℕ) × Held locks fd i
Knows locks (writing fd) = (i : ℕ) × Held locks fd i
Knows locks (leaving fd) = (i : ℕ) × Held locks fd i
Knows locks (seeking fd) = (i : ℕ) × Held locks fd i
Knows locks (found fd none) = ⊥
Knows locks (found fd (some i)) = Held locks fd i
Knows locks (unlocking fd i) = Held locks fd i
Knows locks _ = Unit

pub record Inv (m : Shared) (pc : ℕ → Pc) : Type 0 where
  pub guarded : (i : ℕ) → guards (pc i) ≡ true → m.guarded ≡ true
  pub one_guard : (i j : ℕ) → guards (pc i) ≡ true → guards (pc j) ≡ true → i ≡ j
  pub one_slot : OneSlot m.locks
  pub one_transaction :
      (fd i j : ℕ) → transacts (pc i) ≡ some fd → transacts (pc j) ≡ some fd → i ≡ j
  pub knows : (i : ℕ) → Knows m.locks (pc i)
