-- ===== src/Threads/Invariant/Writes.antt =====
-- The effect of the steps that write to the table.
use mathlib.Core.Bool.{false≢true}
use mathlib.Core.Path.{subst}
use mathlib.Core.Option.{some-injective}
use melsec_mc_net.Prelude.{
  ℕ, ◌≡◌, inl, inr, refl, sym, ap, ◌∙◌, true, false, Option, none, some, List, arith, get_elem?,
  Bool-cases,
}
use melsec_mc_net.Machine.{TxLock}
use melsec_mc_net.Threads.Table.{
  Owned, Held, Unknown, OneSlot, Held-Owned, marked, marked-Owned, marked-Held, marked-Unknown,
  marked-OneSlot, locked-Held, Created, create-Created,
}
use melsec_mc_net.Threads.Invariant.{guards, Knows}
use melsec_mc_net.Threads.Invariant.Steps.{ensured, waits}
use melsec_mc_net.Threads.Invariant.Effects.{Effect, Ensures, Knows-kept}
use melsec_mc_net.Threads.{
  Shared, idle, creating, returning, locking, inside, unlocking, Choice, create, advance,
}
use melsec_mc_net.Threads.Advance.{advance-locking_free, advance-locking_held, advance-unlocking}

-- Two descriptors that own one slot are the same.
owners_eq :
    (locks : List TxLock) (fd g i j : ℕ) → Owned locks fd i → Owned locks g j → i ≡ j → fd ≡ g
owners_eq locks fd g i j o p e = ground (arith, o.there, p.there, o.own, p.own)

module _ (m : Shared) (one : OneSlot m.locks) (c : Choice) (fd : ℕ) where
  learns_created :
      (locks : List TxLock) (r : Option ℕ)
      → ((i : ℕ) → r ≡ some i → Owned locks fd i)
      → Knows locks (returning fd r)
  learns_created locks none mine = tt
  learns_created locks (some i) mine = mine i refl

  pub creating-Effect :
      m.guarded ≡ true → Unknown m.locks fd → Ensures m (creating fd) (advance c m (creating fd))
  unfolding advance
  creating-Effect g new =
      let made = create c.initialises fd m.locks in
      let created : Created fd m.locks made = create-Created c.initialises fd m.locks in
      record {
        enters = λ e. (g, inl refl);
        stays = λ e e'. e;
        one = created.one new one;
        begins = λ g e. cc;
        learns = learns_created made.0 made.1 created.mine;
        spares = λ q apart.
            Knows-kept m.locks made.0 created.keeps_owned q
              (λ h e. absurd (false≢true (sym (apart.one_guard refl) ∙ ap guards e)))
              (λ h j e. created.keeps_held h j);
      }

  module _ (i : ℕ) (s : TxLock) (at : get_elem? m.locks i ≡ some s) where
    -- No thread holds the mutex that is not held.
    not_held : Owned m.locks fd i → s.held ≡ false → (j : ℕ) → Held m.locks fd j → ⊥
    not_held o free j h = ground (arith, one fd i j o (Held-Owned h), h.there, h.held)

    locked-Effect :
        Owned m.locks fd i
        → s.held ≡ false
        → Effect m (locking fd i) (record m { locks = marked m.locks i s true }) (inside fd)
    locked-Effect o free = record {
      enters = λ e. cc;
      stays = λ e e'. e;
      one = marked-OneSlot m.locks i s at true one;
      begins = λ g e.
          inr
            (subst (λ h. (j : ℕ) → Held m.locks h j → ⊥) (some-injective _ _ e) (not_held o free));
      learns = (i, locked-Held m.locks fd i s at o);
      spares = λ q apart.
          Knows-kept m.locks (marked m.locks i s true) (marked-Owned m.locks i s at true) q
            (λ g e. marked-Unknown m.locks i s at true g)
            (λ g j e h. marked-Held m.locks i s at true g j h (inr refl));
    }

    unlocked-Effect :
        Held m.locks fd i
        → Effect m (unlocking fd i) (record m { locks = marked m.locks i s false }) idle
    unlocked-Effect mine = record {
      enters = λ e. cc;
      stays = λ e e'. e;
      one = marked-OneSlot m.locks i s at false one;
      begins = λ g e. cc;
      learns = tt;
      spares = λ q apart.
          Knows-kept m.locks (marked m.locks i s false) (marked-Owned m.locks i s at false) q
            (λ g e. marked-Unknown m.locks i s at false g)
            (λ g j e h. marked-Held m.locks i s at false g j h (
              inl (λ same. apart.one_transaction fd refl (
                e
                ∙ ap some
                    (sym (owners_eq m.locks fd g i j (Held-Owned mine) (Held-Owned h) same))))));
    }

  pub locking-Effect :
      (i : ℕ) → Owned m.locks fd i → Ensures m (locking fd i) (advance c m (locking fd i))
  locking-Effect i o = elim (Bool-cases o.slot.held) [
    | inl held ↦ waits m (locking fd i) (advance-locking_held c m fd i o.slot o.there held)
    | inr free ↦
        ensured m (locking fd i) (advance-locking_free c m fd i o.slot o.there free)
          (locked-Effect i o.slot o.there o free)
  ]

  pub unlocking-Effect :
      (i : ℕ) → Held m.locks fd i → Ensures m (unlocking fd i) (advance c m (unlocking fd i))
  unlocking-Effect i h =
      ensured m (unlocking fd i) (advance-unlocking c m fd i h.slot h.there)
        (unlocked-Effect i h.slot h.there h)
