-- ===== src/Threads/Safety.antt =====
-- The invariant in every state that the threads reach, and mutual exclusion.
use mathlib.Core.Path.{subst}
use melsec_mc_net.Prelude.{ℕ, ◌≡◌, refl, Option, none, some, arith, get_elem?, replicate, zero, suc}
use melsec_mc_net.Machine.{TxLock}
use melsec_mc_net.Locks.{max_tx_connections}
use melsec_mc_net.Threads.Table.{Owned, Held}
use melsec_mc_net.Threads.Invariant.{transacts, Knows, Inv}
use melsec_mc_net.Threads.Invariant.Effects.{Ensures}
use melsec_mc_net.Threads.{
  found, System, Step, pick, unused, empty_table, start, Reach, here, later,
}
use melsec_mc_net.Threads.Invariant.Kept.{advance-Effect, Inv-kept}

Step-Inv : {s t : System} → Step s t → Inv s.mem s.pc → Inv t.mem t.pc
Step-Inv {s} (pick i c {m} {p} e) inv = Inv-kept inv i (
    subst (Ensures s.mem (s.pc i)) e
      (advance-Effect s.mem inv.one_slot c (s.pc i) (inv.guarded i) (inv.knows i)))

replicate-unused : (n i : ℕ) (s : TxLock) → get_elem? (replicate n unused) i ≡ some s → s ≡ unused
replicate-unused zero i s e = cc
replicate-unused (suc n) zero s e = cc
replicate-unused (suc n) (suc i) s e = replicate-unused n i s e

-- In the empty table every slot is unused.
pub empty_table-unused : (i : ℕ) (s : TxLock) → get_elem? empty_table i ≡ some s → s ≡ unused
unfolding empty_table
empty_table-unused i s e = replicate-unused max_tx_connections i s e

start-Inv : Inv start.mem start.pc
start-Inv = record {
  guarded = λ i e. cc;
  one_guard = λ i j e. cc;
  one_slot = λ fd j k o. absurd (not_owned fd j o);
  one_transaction = λ fd i j e. cc;
  knows = λ i. tt;
}
  where
    not_owned : (fd j : ℕ) → Owned empty_table fd j → ⊥
    not_owned fd j o = ground (arith, empty_table-unused j o.slot o.there, o.own)

pub Reach-Inv : {s : System} → Reach s → Inv s.mem s.pc
Reach-Inv here = start-Inv
Reach-Inv (later r st) = Step-Inv st (Reach-Inv r)

-- In every state that any number of threads reach, in any order of their steps and whatever the
-- initialisations of mutexes return: of the threads that are between the lock and the unlock of a
-- transaction on one descriptor, there is at most one.
pub mutual_exclusion :
    {s : System}
    → Reach s
    → (fd i j : ℕ) → transacts (s.pc i) ≡ some fd
    → transacts (s.pc j) ≡ some fd
    → i ≡ j
mutual_exclusion r = (Reach-Inv r).one_transaction

-- In every state that any number of threads reach: a thread that ends its transaction on a descriptor
-- finds in the table the slot of the descriptor, and its mutex is held.
pub unlock_finds :
    {s : System}
    → Reach s
    → (i fd : ℕ) {o : Option ℕ} → s.pc i ≡ found fd o
    → (k : ℕ) × (o ≡ some k) × Held s.mem.locks fd k
unlock_finds {s} r i fd {o} e = of_found o (subst (Knows s.mem.locks) e ((Reach-Inv r).knows i))
  where
    of_found :
        (o : Option ℕ)
        → Knows s.mem.locks (found fd o)
        → (k : ℕ) × (o ≡ some k) × Held s.mem.locks fd k
    of_found none k = absurd k
    of_found (some j) k = (j, refl, k)
