-- ===== src/Threads/Invariant/Steps.antt =====
-- The effect of the step that a thread makes from each place.
use mathlib.Core.Bool.{false≢true}
use mathlib.Core.Path.{subst}
use melsec_mc_net.Prelude.{
  ℕ, ◌≡◌, inl, inr, refl, sym, ◌∙◌, true, Option, none, some, find_index?, Option-cases, Bool-cases,
}
use melsec_mc_net.Prelude.Find.{find_index?-none}
use melsec_mc_net.Locks.{owns}
use melsec_mc_net.Threads.Table.{Held, OneSlot, Held-Owned, found-Owned}
use melsec_mc_net.Threads.Invariant.{Knows}
use melsec_mc_net.Threads.Invariant.Effects.{Effect, Ensures, Effect-of_same_table}
use melsec_mc_net.Threads.{
  Shared, Pc, waiting, working, sending, writing, entering, looking, creating, returning, leaving,
  seeking, found, Choice, advance,
}
use melsec_mc_net.Threads.Advance.{
  advance-waiting_free, advance-waiting_held, advance-sending_free, advance-sending_held,
  advance-entering_free, advance-entering_held, advance-leaving_free, advance-leaving_held,
  advance-looking_known, advance-looking_new, advance-seeking,
}

pub ensured :
    (m : Shared) (p : Pc) {r : Option (Shared × Pc)} {t : Shared × Pc}
    → r ≡ some t
    → Effect m p t.0 t.1
    → Ensures m p r
ensured m p e effect = subst (Ensures m p) (sym e) effect

pub waits : (m : Shared) (p : Pc) {r : Option (Shared × Pc)} → r ≡ none → Ensures m p r
waits m p e = subst (Ensures m p) (sym e) tt

module _ (m : Shared) (one : OneSlot m.locks) (c : Choice) (fd : ℕ) where
  pub entering-Effect : Ensures m (entering fd) (advance c m (entering fd))
  entering-Effect = elim (Bool-cases m.guarded) [
    | inl busy ↦ waits m (entering fd) (advance-entering_held c m fd busy)
    | inr free ↦ ensured m (entering fd) (advance-entering_free c m fd free) (
        Effect-of_same_table m one (entering fd) (looking fd) true (λ e. (refl, inr free))
          (λ e e'. refl) (λ fd e. cc) tt)
  ]

  pub sending-Effect :
      Knows m.locks (sending fd) → Ensures m (sending fd) (advance c m (sending fd))
  sending-Effect k = elim (Bool-cases m.guarded) [
    | inl busy ↦ waits m (sending fd) (advance-sending_held c m fd busy)
    | inr free ↦ ensured m (sending fd) (advance-sending_free c m fd free) (
        Effect-of_same_table m one (sending fd) (writing fd) true (λ e. (refl, inr free))
          (λ e e'. refl) (λ fd e. e) k)
  ]

  pub waiting-Effect : Ensures m waiting (advance c m waiting)
  waiting-Effect = elim (Bool-cases m.guarded) [
    | inl busy ↦ waits m waiting (advance-waiting_held c m busy)
    | inr free ↦ ensured m waiting (advance-waiting_free c m free) (
        Effect-of_same_table m one waiting working true (λ e. (refl, inr free)) (λ e e'. refl)
          (λ fd e. cc) tt)
  ]

  pub leaving-Effect :
      Knows m.locks (leaving fd) → Ensures m (leaving fd) (advance c m (leaving fd))
  leaving-Effect k = elim (Bool-cases m.guarded) [
    | inl busy ↦ waits m (leaving fd) (advance-leaving_held c m fd busy)
    | inr free ↦ ensured m (leaving fd) (advance-leaving_free c m fd free) (
        Effect-of_same_table m one (leaving fd) (seeking fd) true (λ e. (refl, inr free))
          (λ e e'. refl) (λ fd e. e) k)
  ]

  pub looking-Effect : m.guarded ≡ true → Ensures m (looking fd) (advance c m (looking fd))
  looking-Effect g = elim (Option-cases (find_index? (owns fd) m.locks)) [
    | inl new ↦ ensured m (looking fd) (advance-looking_new c m fd new) (
        Effect-of_same_table m one (looking fd) (creating fd) m.guarded (λ e. (g, inl refl))
          (λ e e'. e) (λ fd e. cc) (find_index?-none (owns fd) m.locks new))
    | inr (i, old) ↦ ensured m (looking fd) (advance-looking_known c m fd i old) (
        Effect-of_same_table m one (looking fd) (returning fd (some i)) m.guarded
          (λ e. (g, inl refl)) (λ e e'. e) (λ fd e. cc) (found-Owned fd m.locks i old))
  ]

  -- The slot that is sought is the one whose mutex the thread holds.
  seeks-Held :
      (o : Option ℕ)
      → find_index? (owns fd) m.locks ≡ o
      → Knows m.locks (seeking fd)
      → Knows m.locks (found fd o)
  seeks-Held none e (i, h) =
      false≢true (sym (find_index?-none (owns fd) m.locks e i h.slot h.there) ∙ h.own)
  seeks-Held (some j) e (i, h) =
      subst (Held m.locks fd) (one fd i j (Held-Owned h) (found-Owned fd m.locks j e)) h

  pub seeking-Effect :
      m.guarded ≡ true
      → Knows m.locks (seeking fd)
      → Ensures m (seeking fd) (advance c m (seeking fd))
  seeking-Effect g k = ensured m (seeking fd) (advance-seeking c m fd) (
      Effect-of_same_table m one (seeking fd) (found fd (find_index? (owns fd) m.locks)) m.guarded
        (λ e. (g, inl refl)) (λ e e'. e) (λ fd e. e)
        (seeks-Held (find_index? (owns fd) m.locks) refl k))
