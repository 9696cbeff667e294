-- ===== src/Threads/Progress.antt =====
-- No deadlock: while a thread is in a call, some thread in a call can make a step.
use mathlib.Core.Bool.{false≢true}
use mathlib.Core.Path.{subst}
use melsec_mc_net.Prelude.{
  ℕ, ◌≡◌, ◌≢◌, inl, inr, refl, sym, ap, ◌∙◌, true, false, none, some, Bool-cases, Option-cases,
  find_index?,
}
use melsec_mc_net.Locks.{owns}
use melsec_mc_net.Machine.{TxLock}
use melsec_mc_net.Threads.Table.{Owned}
use melsec_mc_net.Threads.Invariant.{guards, transacts, Knows, Inv}
use melsec_mc_net.Threads.Safety.{Reach-Inv, empty_table-unused}
use melsec_mc_net.Threads.Owners.{Traces}
use melsec_mc_net.Threads.Owners.Kept.{Owners, Owners-kept, advance-Traces}
use melsec_mc_net.Threads.Advance.{
  advance-waiting_free, advance-sending_free, advance-entering_free, advance-leaving_free,
  advance-looking_known, advance-looking_new, advance-locking_free, advance-unlocking,
}
use melsec_mc_net.Threads.{
  Shared, Pc, waiting, working, sending, writing, idle, entering, looking, creating, returning,
  locking, inside, leaving, seeking, found, unlocking, Choice, advance, System, Step, pick, start,
  Reach, here, later,
}

Step-Owners : {s t : System} → Step s t → Inv s.mem s.pc → Owners s.mem s.pc → Owners t.mem t.pc
Step-Owners {s} (pick i c {m} {p} e) inv was = Owners-kept was i (
    subst (Traces s.mem (s.pc i)) e
      (advance-Traces s.mem inv.one_slot c (s.pc i) (inv.guarded i) (inv.knows i)))

start-Owners : Owners start.mem start.pc
start-Owners = record {
  guard_owner = λ e. cc;
  mutex_owner = λ k s at held.
      absurd (false≢true (sym (ap (λ (r : TxLock). r.held) (empty_table-unused k s at)) ∙ held));
}

Reach-Owners : {s : System} → Reach s → Owners s.mem s.pc
Reach-Owners here = start-Owners
Reach-Owners (later r st) = Step-Owners st (Reach-Inv r) (Reach-Owners r)

-- A thread in a call that does not wait.
pub record Moves (m : Shared) (p : Pc) : Type 0 where
  pub in_call : p ≢ idle
  pub steps : (c : Choice) → (t : Shared × Pc) × (advance c m p ≡ some t)

module _ (m : Shared) where
  looking-Moves : (fd : ℕ) → Moves m (looking fd)
  looking-Moves fd = record {
    in_call = λ e. cc;
    steps = λ c. elim (Option-cases (find_index? (owns fd) m.locks)) [
      | inl new ↦ (_, advance-looking_new c m fd new)
      | inr (i, old) ↦ (_, advance-looking_known c m fd i old)
    ];
  }

  -- The thread that holds `g_connection_mutex` never waits.
  guards-Moves : (p : Pc) → guards p ≡ true → Moves m p
  unfolding advance
  guards-Moves idle g = cc
  guards-Moves waiting g = cc
  guards-Moves working g = record { in_call = λ e. cc; steps = λ c. (_, refl) }
  guards-Moves (entering fd) g = cc
  guards-Moves (looking fd) g = looking-Moves fd
  guards-Moves (creating fd) g = record { in_call = λ e. cc; steps = λ c. (_, refl) }
  guards-Moves (returning fd none) g = record { in_call = λ e. cc; steps = λ c. (_, refl) }
  guards-Moves (returning fd (some i)) g = record { in_call = λ e. cc; steps = λ c. (_, refl) }
  guards-Moves (locking fd i) g = cc
  guards-Moves (inside fd) g = cc
  guards-Moves (sending fd) g = cc
  guards-Moves (writing fd) g = record { in_call = λ e. cc; steps = λ c. (_, refl) }
  guards-Moves (leaving fd) g = cc
  guards-Moves (seeking fd) g = record { in_call = λ e. cc; steps = λ c. (_, refl) }
  guards-Moves (found fd none) g = record { in_call = λ e. cc; steps = λ c. (_, refl) }
  guards-Moves (found fd (some i)) g = record { in_call = λ e. cc; steps = λ c. (_, refl) }
  guards-Moves (unlocking fd i) g = cc

  -- While nobody holds `g_connection_mutex`, the thread of a transaction does not wait.
  transacts-Moves :
      m.guarded ≡ false
      → (p : Pc) → (guards p ≡ true → m.guarded ≡ true)
      → Knows m.locks p
      → (fd : ℕ) → transacts p ≡ some fd
      → Moves m p
  unfolding advance
  transacts-Moves free idle g k fd e = cc
  transacts-Moves free waiting g k fd e = cc
  transacts-Moves free working g k fd e = cc
  transacts-Moves free (entering h) g k fd e = cc
  transacts-Moves free (looking h) g k fd e = cc
  transacts-Moves free (creating h) g k fd e = cc
  transacts-Moves free (returning h r) g k fd e = cc
  transacts-Moves free (locking h i) g k fd e = cc
  transacts-Moves free (inside h) g k fd e = record { in_call = λ e. cc; steps = λ c. (_, refl) }
  transacts-Moves free (sending h) g k fd e = record {
    in_call = λ e. cc;
    steps = λ c. (_, advance-sending_free c m h free);
  }
  transacts-Moves free (writing h) g k fd e = absurd (false≢true (sym free ∙ g refl))
  transacts-Moves free (leaving h) g k fd e = record {
    in_call = λ e. cc;
    steps = λ c. (_, advance-leaving_free c m h free);
  }
  transacts-Moves free (seeking h) g k fd e = absurd (false≢true (sym free ∙ g refl))
  transacts-Moves free (found h r) g k fd e = absurd (false≢true (sym free ∙ g refl))
  transacts-Moves free (unlocking h i) g k fd e = record {
    in_call = λ e. cc;
    steps = λ c. (_, advance-unlocking c m h i k.slot k.there);
  }

abbrev Someone : System → Type 0
Someone s = (j : ℕ) × Moves s.mem (s.pc j)

module _ (s : System) (inv : Inv s.mem s.pc) (owners : Owners s.mem s.pc) where
  transacting-Someone :
      s.mem.guarded ≡ false → (j fd : ℕ) → transacts (s.pc j) ≡ some fd → Someone s
  transacting-Someone free j fd e =
      (j, transacts-Moves s.mem free (s.pc j) (inv.guarded j) (inv.knows j) fd e)

  -- A thread that waits for the mutex of a slot waits for a thread that does not wait.
  locking-Someone :
      s.mem.guarded ≡ false
      → (i fd k : ℕ) → s.pc i ≡ locking fd k
      → Owned s.mem.locks fd k
      → Someone s
  locking-Someone free i fd k e o = elim (Bool-cases o.slot.held) [
    | inl held ↦
        let owner = owners.mutex_owner k o.slot o.there held in
        transacting-Someone free owner.thread owner.mine.fd owner.mine.transacts_fd
    | inr not_held ↦ (
      i,
      subst (Moves s.mem) (sym e) (record {
        in_call = λ e. cc;
        steps = λ c. (_, advance-locking_free c s.mem fd k o.slot o.there not_held);
      }),
    )
  ]

  unguarded : s.mem.guarded ≡ false → (i : ℕ) (p : Pc) → s.pc i ≡ p → p ≢ idle → Someone s
  unguarded free i idle e ne = absurd (ne refl)
  unguarded free i waiting e ne = (
    i,
    subst (Moves s.mem) (sym e)
        (record { in_call = ne; steps = λ c. (_, advance-waiting_free c s.mem free) }),
  )
  unguarded free i working e ne = (i, subst (Moves s.mem) (sym e) (guards-Moves s.mem working refl))
  unguarded free i (entering fd) e ne = (
    i,
    subst (Moves s.mem) (sym e)
        (record { in_call = ne; steps = λ c. (_, advance-entering_free c s.mem fd free) }),
  )
  unguarded free i (looking fd) e ne = (i, subst (Moves s.mem) (sym e) (looking-Moves s.mem fd))
  unguarded free i (creating fd) e ne =
      (i, subst (Moves s.mem) (sym e) (guards-Moves s.mem (creating fd) refl))
  unguarded free i (returning fd r) e ne =
      (i, subst (Moves s.mem) (sym e) (guards-Moves s.mem (returning fd r) refl))
  unguarded free i (locking fd k) e ne =
      locking-Someone free i fd k e (subst (Knows s.mem.locks) e (inv.knows i))
  unguarded free i (inside fd) e ne = transacting-Someone free i fd (ap transacts e)
  unguarded free i (sending fd) e ne = transacting-Someone free i fd (ap transacts e)
  unguarded free i (writing fd) e ne = transacting-Someone free i fd (ap transacts e)
  unguarded free i (leaving fd) e ne = transacting-Someone free i fd (ap transacts e)
  unguarded free i (seeking fd) e ne = transacting-Someone free i fd (ap transacts e)
  unguarded free i (found fd r) e ne = transacting-Someone free i fd (ap transacts e)
  unguarded free i (unlocking fd k) e ne = transacting-Someone free i fd (ap transacts e)

  moves : (i : ℕ) → s.pc i ≢ idle → Someone s
  moves i ne = elim (Bool-cases s.mem.guarded) [
    | inl held ↦ let (j, g) = owners.guard_owner held in (j, guards-Moves s.mem (s.pc j) g)
    | inr free ↦ unguarded free i (s.pc i) refl ne
  ]

-- No deadlock: in every state that any number of threads reach, if a thread is in a call, then some
-- thread that is in a call does not wait, whatever its next step leaves open.
pub no_deadlock : {s : System} → Reach s → (i : ℕ) → s.pc i ≢ idle → (j : ℕ) × Moves s.mem (s.pc j)
no_deadlock {s} r = moves s (Reach-Inv r) (Reach-Owners r)
