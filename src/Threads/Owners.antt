-- ===== src/Threads/Owners.antt =====
-- Whoever holds a mutex is a thread: `g_connection_mutex`, and the mutex of a slot.
pub mod Steps
pub mod Kept
use mathlib.Core.Bool.{false≢true}
use mathlib.Core.Path.{subst}
use mathlib.Core.Option.{some-injective}
use melsec_mc_net.Prelude.{
  get_elem?-set, ℕ, ◌==◌, ◌||◌, ◌≡◌, ◌≢◌, ◌⊎◌, inl, inr, refl, sym, ap, ◌∙◌, Bool, true, false,
  Option, none, some, List, arith, if◌then◌else◌, Bool-cases, Option-cases, get_elem?, find_index?,
  ==_iff, set,
}
use melsec_mc_net.Prelude.Find.{find_index?-some}
use melsec_mc_net.Machine.{TxLock}
use melsec_mc_net.Locks.{owns, is_free}
use melsec_mc_net.Socket.{is_positive}
use melsec_mc_net.Threads.Table.{
  Owned, Held, Unknown, OneSlot, marked, create-full, create-free, Held-Owned,
}
use melsec_mc_net.Threads.Invariant.{guards, transacts, Knows, Inv}
use melsec_mc_net.Threads.Advance.{
  advance-entering_free, advance-entering_held, advance-leaving_free, advance-leaving_held,
  advance-looking_known, advance-looking_new, advance-seeking, advance-locking_free,
  advance-locking_held, advance-unlocking,
}
use melsec_mc_net.Threads.{
  Shared, Pc, idle, entering, looking, creating, returning, locking, inside, leaving, seeking,
  found, unlocking, Choice, create, taken, advance, System, update,
}

-- The thread is in the transaction whose mutex this slot has.
pub record Mine (p : Pc) (s : TxLock) : Type 0 where
  pub fd : ℕ
  pub transacts_fd : transacts p ≡ some fd
  pub own : owns fd s ≡ true

-- The slot was held before, by another thread than the one at `p`.
pub record Was (locks : List TxLock) (p : Pc) (k : ℕ) (s : TxLock) : Type 0 where
  pub old : TxLock
  pub there : get_elem? locks k ≡ some old
  pub held : old.held ≡ true
  pub keeps : (fd : ℕ) → owns fd old ≡ true → owns fd s ≡ true
  pub other : (fd : ℕ) → transacts p ≡ some fd → owns fd old ≡ true → ⊥

-- Where the holds after a step come from.
pub record Traced (m : Shared) (p : Pc) (m' : Shared) (p' : Pc) : Type 0 where
  pub guard_from :
      m'.guarded ≡ true → (guards p' ≡ true) ⊎ ((m.guarded ≡ true) × (guards p ≡ false))
  pub mutex_from :
      (k : ℕ) (s : TxLock)
      → get_elem? m'.locks k ≡ some s
      → s.held ≡ true
      → Mine p' s ⊎ Was m.locks p k s

abbrev pub Traces : Shared → Pc → Option (Shared × Pc) → Type 0
Traces m p none = Unit
Traces m p (some (m', p')) = Traced m p m' p'

pub traced :
    (m : Shared) (p : Pc) {r : Option (Shared × Pc)} {t : Shared × Pc}
    → r ≡ some t
    → Traced m p t.0 t.1
    → Traces m p r
traced m p e t = subst (Traces m p) (sym e) t

pub waits : (m : Shared) (p : Pc) {r : Option (Shared × Pc)} → r ≡ none → Traces m p r
waits m p e = subst (Traces m p) (sym e) tt

module _ (m : Shared) where
  pub held_before :
      (p p' : Pc) (o : Option ℕ)
      → transacts p ≡ o
      → transacts p' ≡ o
      → (k : ℕ) (s : TxLock) → get_elem? m.locks k ≡ some s
      → s.held ≡ true
      → Mine p' s ⊎ Was m.locks p k s
  held_before p p' none e e' k s at held = inr (record {
    old = s;
    there = at;
    held = held;
    keeps = λ fd h. h;
    other = λ fd h h'. absurd (cc);
  })
  held_before p p' (some g) e e' k s at held = elim (Bool-cases (owns g s)) [
    | inl own ↦ inl (record { fd = g; transacts_fd = e'; own = own })
    | inr not_own ↦ inr (record {
      old = s;
      there = at;
      held = held;
      keeps = λ fd h. h;
      other = λ fd h h'. ground (arith, sym e ∙ h);
    })
  ]

  -- A step that leaves the table alone, and the transaction of the thread.
  pub Traced-of_same_table :
      (p p' : Pc) (b : Bool)
      → transacts p ≡ transacts p'
      → (b ≡ true → (guards p' ≡ true) ⊎ ((m.guarded ≡ true) × (guards p ≡ false)))
      → Traced m p (record m { guarded = b }) p'
  Traced-of_same_table p p' b same from = record {
    guard_from = from;
    mutex_from = held_before p p' (transacts p') same refl;
  }
