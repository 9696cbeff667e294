-- ===== src/Threads/Owners/Steps.antt =====
-- Where the holds come from after the step that a thread makes from each place.
use mathlib.Core.Path.{subst}
use mathlib.Core.Option.{some-injective}
use melsec_mc_net.Prelude.{
  get_elem?-set, ℕ, ◌==◌, ◌||◌, ◌≡◌, inl, inr, refl, sym, ap, ◌∙◌, Bool, true, false, some, arith,
  if◌then◌else◌, Bool-cases, Option-cases, get_elem?, find_index?, set,
}
use melsec_mc_net.Prelude.Find.{find_index?-some}
use melsec_mc_net.Machine.{TxLock}
use melsec_mc_net.Locks.{owns, is_free}
use melsec_mc_net.Threads.Table.{OneSlot, marked, create-full, create-free}
use melsec_mc_net.Threads.Advance.{
  advance-waiting_free, advance-waiting_held, advance-sending_free, advance-sending_held,
  advance-entering_free, advance-entering_held, advance-leaving_free, advance-leaving_held,
  advance-looking_known, advance-looking_new,
}
use melsec_mc_net.Threads.{
  waiting, working, sending, writing, Shared, idle, entering, looking, creating, returning, locking,
  inside, leaving, seeking, unlocking, Choice, create, taken, advance,
}
use melsec_mc_net.Threads.Owners.{Was, Traced, Traces, traced, waits, Traced-of_same_table}

module _ (m : Shared) (c : Choice) (fd : ℕ) where
  pub entering-Traces : Traces m (entering fd) (advance c m (entering fd))
  entering-Traces = elim (Bool-cases m.guarded) [
    | inl busy ↦ waits m (entering fd) (advance-entering_held c m fd busy)
    | inr free ↦
        traced m (entering fd) (advance-entering_free c m fd free)
          (Traced-of_same_table m (entering fd) (looking fd) true refl (λ e. inl refl))
  ]

  pub leaving-Traces : Traces m (leaving fd) (advance c m (leaving fd))
  leaving-Traces = elim (Bool-cases m.guarded) [
    | inl busy ↦ waits m (leaving fd) (advance-leaving_held c m fd busy)
    | inr free ↦
        traced m (leaving fd) (advance-leaving_free c m fd free)
          (Traced-of_same_table m (leaving fd) (seeking fd) true refl (λ e. inl refl))
  ]

  pub sending-Traces : Traces m (sending fd) (advance c m (sending fd))
  sending-Traces = elim (Bool-cases m.guarded) [
    | inl busy ↦ waits m (sending fd) (advance-sending_held c m fd busy)
    | inr free ↦
        traced m (sending fd) (advance-sending_free c m fd free)
          (Traced-of_same_table m (sending fd) (writing fd) true refl (λ e. inl refl))
  ]

  pub waiting-Traces : Traces m waiting (advance c m waiting)
  waiting-Traces = elim (Bool-cases m.guarded) [
    | inl busy ↦ waits m waiting (advance-waiting_held c m busy)
    | inr free ↦
        traced m waiting (advance-waiting_free c m free)
          (Traced-of_same_table m waiting working true refl (λ e. inl refl))
  ]

  pub looking-Traces : Traces m (looking fd) (advance c m (looking fd))
  looking-Traces = elim (Option-cases (find_index? (owns fd) m.locks)) [
    | inl new ↦
        traced m (looking fd) (advance-looking_new c m fd new)
          (Traced-of_same_table m (looking fd) (creating fd) m.guarded refl (λ e. inl refl))
    | inr (i, old) ↦
        traced m (looking fd) (advance-looking_known c m fd i old) (
          Traced-of_same_table m (looking fd) (returning fd (some i)) m.guarded refl
            (λ e. inl refl))
  ]

  held_taken :
      (i k : ℕ) (t s : TxLock) (ready : Bool)
      → get_elem? m.locks i ≡ some t
      → t.in_use ≡ false
      → get_elem? (set m.locks i (taken ready fd t)) k ≡ some s
      → s.held ≡ true
      → Was m.locks (creating fd) k s
  held_taken i k t s ready there free at held = record {
    old = if i == k then t else s;
    there = ground (arith, get_elem?-set m.locks i k t (taken ready fd t) there);
    held = ground (arith, get_elem?-set m.locks i k t (taken ready fd t) there);
    keeps = λ g h. ground arith;
    other = λ g e h. absurd (cc);
  }

  -- A slot after a free one was taken, or was not.
  held_created :
      (ok : Bool) (k : ℕ) (s : TxLock)
      → get_elem? (create ok fd m.locks).0 k ≡ some s
      → s.held ≡ true
      → Was m.locks (creating fd) k s
  held_created ok k s at held = elim (Option-cases (find_index? is_free m.locks)) [
    | inl full ↦ record {
      old = s;
      there = sym (ap (λ t. get_elem? t.0 k) (create-full ok fd m.locks full)) ∙ at;
      held = held;
      keeps = λ g h. h;
      other = λ g e h. absurd (cc);
    }
    | inr (i, e) ↦
        let (t, there, free, before) = find_index?-some is_free m.locks i e in
        held_taken i k t s (t.tx_mutex_initialized || ok) there (ground arith)
          (sym (ap (λ r. get_elem? r.0 k) (create-free ok fd m.locks i t e there)) ∙ at) held
  ]

  pub creating-Traces : Traces m (creating fd) (advance c m (creating fd))
  unfolding advance
  creating-Traces = record {
    guard_from = λ e. inl refl;
    mutex_from = λ k s at held. inr (held_created c.initialises k s at held);
  }

  pub locked-Traced :
      (i : ℕ) (t : TxLock)
      → get_elem? m.locks i ≡ some t
      → owns fd t ≡ true
      → Traced m (locking fd i) (record m { locks = marked m.locks i t true }) (inside fd)
  locked-Traced i t there own = record {
    guard_from = λ e. inr (e, refl);
    mutex_from = λ k s at held. elim (Bool-cases (i == k)) [
      | inl same ↦ inl (record {
        fd = fd;
        transacts_fd = refl;
        own = ground (arith, own, get_elem?-set m.locks i k t (record t { held = true }) there);
      })
      | inr ne ↦ inr (record {
        old = s;
        there = ground (arith, get_elem?-set m.locks i k t (record t { held = true }) there);
        held = held;
        keeps = λ g h. h;
        other = λ g e h. absurd (cc);
      })
    ];
  }

  pub unlocked-Traced :
      OneSlot m.locks
      → (i : ℕ) (t : TxLock) → get_elem? m.locks i ≡ some t
      → owns fd t ≡ true
      → Traced m (unlocking fd i) (record m { locks = marked m.locks i t false }) idle
  unlocked-Traced one i t there own = record {
    guard_from = λ e. inr (e, refl);
    mutex_from = λ k s at held. elim (Bool-cases (i == k)) [
      | inl same ↦
          absurd (ground (arith, get_elem?-set m.locks i k t (record t { held = false }) there))
      | inr ne ↦
          let at_k : get_elem? m.locks k ≡ some s =
            ground (arith, get_elem?-set m.locks i k t (record t { held = false }) there) in
          inr (record {
            old = s;
            there = at_k;
            held = held;
            keeps = λ g h. h;
            other = λ g e h. ground (
              arith,
              one g i k
                  (record {
                    slot = t;
                    there = there;
                    own = subst (λ d. owns d t ≡ true) (some-injective _ _ e) own;
                  })
                  (record { slot = s; there = at_k; own = h }),
            );
          })
    ];
  }
