-- ===== src/Threads/Owners/Kept.antt =====
-- Every hold of a mutex is a thread's, before a step and after it.
use mathlib.Core.Bool.{false≢true}
use mathlib.Core.Path.{subst}
use melsec_mc_net.Prelude.{
  ℕ, ◌≡◌, ◌≢◌, inl, inr, refl, sym, ap, ◌∙◌, Bool, true, false, none, some, arith, if◌then◌else◌,
  Bool-cases, get_elem?, find_index?, ==_iff,
}
use melsec_mc_net.Machine.{TxLock}
use melsec_mc_net.Locks.{owns}
use melsec_mc_net.Socket.{is_positive}
use melsec_mc_net.Threads.Table.{Owned, OneSlot}
use melsec_mc_net.Threads.Invariant.{guards, transacts, Knows}
use melsec_mc_net.Threads.Advance.{advance-locking_free, advance-locking_held, advance-unlocking}
use melsec_mc_net.Threads.{
  Shared, Pc, waiting, working, sending, writing, idle, entering, looking, creating, returning,
  locking, inside, leaving, seeking, found, unlocking, Choice, advance, update,
}
use melsec_mc_net.Threads.Owners.{Mine, Traced, Traces, traced, waits, Traced-of_same_table}
use melsec_mc_net.Threads.Owners.Steps.{
  sending-Traces, waiting-Traces, entering-Traces, leaving-Traces, looking-Traces, creating-Traces,
  locked-Traced, unlocked-Traced,
}

module _ (m : Shared) (one : OneSlot m.locks) (c : Choice) where
  called-Traced :
      (b positive : Bool) (fd : ℕ)
      → Traced m idle m (if b then (if positive then entering fd else idle) else waiting)
  called-Traced true true fd =
      Traced-of_same_table m idle (entering fd) m.guarded refl (λ e. inr (e, refl))
  called-Traced true false fd = Traced-of_same_table m idle idle m.guarded refl (λ e. inr (e, refl))
  called-Traced false positive fd =
      Traced-of_same_table m idle waiting m.guarded refl (λ e. inr (e, refl))

  inside-Traced :
      (fd : ℕ) (b : Bool) → Traced m (inside fd) m (if b then sending fd else leaving fd)
  inside-Traced fd true =
      Traced-of_same_table m (inside fd) (sending fd) m.guarded refl (λ e. inr (e, refl))
  inside-Traced fd false =
      Traced-of_same_table m (inside fd) (leaving fd) m.guarded refl (λ e. inr (e, refl))

  locking-Traces :
      (fd i : ℕ) → Owned m.locks fd i → Traces m (locking fd i) (advance c m (locking fd i))
  locking-Traces fd i o = elim (Bool-cases o.slot.held) [
    | inl held ↦ waits m (locking fd i) (advance-locking_held c m fd i o.slot o.there held)
    | inr free ↦
        traced m (locking fd i) (advance-locking_free c m fd i o.slot o.there free)
          (locked-Traced m c fd i o.slot o.there o.own)
  ]

  pub advance-Traces :
      (p : Pc) → (guards p ≡ true → m.guarded ≡ true) → Knows m.locks p → Traces m p (advance c m p)
  unfolding advance
  advance-Traces idle g k = called-Traced c.transaction (is_positive c.fd) c.fd
  advance-Traces waiting g k = waiting-Traces m c 0
  advance-Traces working g k = Traced-of_same_table m working idle false refl (λ e. cc)
  advance-Traces (entering fd) g k = entering-Traces m c fd
  advance-Traces (looking fd) g k = looking-Traces m c fd
  advance-Traces (creating fd) g k = creating-Traces m c fd
  advance-Traces (returning fd none) g k =
      Traced-of_same_table m (returning fd none) idle false refl (λ e. cc)
  advance-Traces (returning fd (some i)) g k =
      Traced-of_same_table m (returning fd (some i)) (locking fd i) false refl (λ e. cc)
  advance-Traces (locking fd i) g k = locking-Traces fd i k
  advance-Traces (inside fd) g k = inside-Traced fd c.sends
  advance-Traces (sending fd) g k = sending-Traces m c fd
  advance-Traces (writing fd) g k =
      Traced-of_same_table m (writing fd) (inside fd) false refl (λ e. cc)
  advance-Traces (leaving fd) g k = leaving-Traces m c fd
  advance-Traces (seeking fd) g k =
      Traced-of_same_table m (seeking fd) (found fd (find_index? (owns fd) m.locks)) m.guarded refl
        (λ e. inl refl)
  advance-Traces (found fd none) g k = absurd k
  advance-Traces (found fd (some i)) g k =
      Traced-of_same_table m (found fd (some i)) (unlocking fd i) false refl (λ e. cc)
  advance-Traces (unlocking fd i) g k =
      traced m (unlocking fd i) (advance-unlocking c m fd i k.slot k.there)
        (unlocked-Traced m c fd one i k.slot k.there k.own)

-- A thread that is in the transaction whose mutex this slot has.
pub record Owner (pc : ℕ → Pc) (s : TxLock) : Type 0 where
  pub thread : ℕ
  pub mine : Mine (pc thread) s

pub record Owners (m : Shared) (pc : ℕ → Pc) : Type 0 where
  pub guard_owner : m.guarded ≡ true → (j : ℕ) × (guards (pc j) ≡ true)
  pub mutex_owner : (k : ℕ) (s : TxLock) → get_elem? m.locks k ≡ some s → s.held ≡ true → Owner pc s

-- The thread that moved, and another one, after the move.
pub update_self : (pc : ℕ → Pc) (i : ℕ) (p : Pc) → update pc i p i ≡ p
update_self pc i p = rw ((==_iff i i).1 refl, if◌then◌else◌)

pub update_other : (pc : ℕ → Pc) (i : ℕ) (p : Pc) (j : ℕ) → i ≢ j → update pc i p j ≡ pc j
update_other pc i p j ne = ground (arith, ==_iff i j)

module _ {m : Shared} {pc : ℕ → Pc} (was : Owners m pc) (i : ℕ) {m' : Shared} {p : Pc}
    (t : Traced m (pc i) m' p) where
  guarding : m'.guarded ≡ true → (j : ℕ) × (guards (update pc i p j) ≡ true)
  guarding e = elim (t.guard_from e) [
    | inl own ↦ (i, ap guards (update_self pc i p) ∙ own)
    | inr (before, not_own) ↦
        let (j, g) = was.guard_owner before in
        (
          j,
          ap guards (
                update_other pc i p j
                  (λ same. false≢true (sym not_own ∙ ap (λ n. guards (pc n)) same ∙ g)))
              ∙ g,
        )
  ]

  holding :
      (k : ℕ) (s : TxLock) → get_elem? m'.locks k ≡ some s → s.held ≡ true → Owner (update pc i p) s
  holding k s at held = elim (t.mutex_from k s at held) [
    | inl mine ↦ record { thread = i; mine = subst (λ q. Mine q s) (sym (update_self pc i p)) mine }
    | inr w ↦
        let o = was.mutex_owner k w.old w.there w.held in
        let apart : i ≢ o.thread = λ same.
          w.other o.mine.fd (ap (λ n. transacts (pc n)) same ∙ o.mine.transacts_fd) o.mine.own in
        record {
          thread = o.thread;
          mine = record {
            fd = o.mine.fd;
            transacts_fd = ap transacts (update_other pc i p o.thread apart) ∙ o.mine.transacts_fd;
            own = w.keeps o.mine.fd o.mine.own;
          };
        }
  ]

  pub Owners-kept : Owners m' (update pc i p)
  Owners-kept = record { guard_owner = guarding; mutex_owner = holding }
