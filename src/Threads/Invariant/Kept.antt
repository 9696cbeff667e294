-- ===== src/Threads/Invariant/Kept.antt =====
-- Every step of a thread has its effect, and a step with its effect keeps the invariant.
use mathlib.Core.Bool.{false≢true}
use mathlib.Core.Path.{subst}
use mathlib.Core.Option.{some-injective, none-ne-some}
use melsec_mc_net.Prelude.{
  ℕ, ◌==◌, ◌≡◌, ◌≢◌, inl, inr, refl, sym, ◌∙◌, Bool, true, false, none, some, List, if◌then◌else◌,
  Bool-cases, ==_iff,
}
use melsec_mc_net.Machine.{TxLock}
use melsec_mc_net.Threads.Table.{Held, OneSlot}
use melsec_mc_net.Threads.Invariant.{guards, transacts, Knows, Inv}
use melsec_mc_net.Threads.Invariant.Effects.{Apart, Effect, Ensures, Effect-of_same_table}
use melsec_mc_net.Threads.Invariant.Steps.{
  sending-Effect, waiting-Effect, entering-Effect, leaving-Effect, looking-Effect, seeking-Effect,
}
use melsec_mc_net.Threads.Invariant.Writes.{creating-Effect, locking-Effect, unlocking-Effect}
use melsec_mc_net.Socket.{is_positive}
use melsec_mc_net.Threads.{
  Shared, Pc, waiting, working, sending, writing, idle, entering, looking, creating, returning,
  locking, inside, leaving, seeking, found, unlocking, Choice, advance, update,
}

-- A thread in a transaction holds the mutex of a slot of its descriptor.
pub transacts-Held :
    (locks : List TxLock) (q : Pc) (fd : ℕ)
    → Knows locks q
    → transacts q ≡ some fd
    → (i : ℕ) × Held locks fd i
transacts-Held locks idle fd k e = cc
transacts-Held locks waiting fd k e = cc
transacts-Held locks working fd k e = cc
transacts-Held locks (entering g) fd k e = cc
transacts-Held locks (looking g) fd k e = cc
transacts-Held locks (creating g) fd k e = cc
transacts-Held locks (returning g r) fd k e = cc
transacts-Held locks (locking g i) fd k e = cc
transacts-Held locks (inside g) fd k e =
    subst (λ h. (i : ℕ) × Held locks h i) (some-injective _ _ e) k
transacts-Held locks (leaving g) fd k e =
    subst (λ h. (i : ℕ) × Held locks h i) (some-injective _ _ e) k
transacts-Held locks (sending g) fd k e =
    subst (λ h. (i : ℕ) × Held locks h i) (some-injective _ _ e) k
transacts-Held locks (writing g) fd k e =
    subst (λ h. (i : ℕ) × Held locks h i) (some-injective _ _ e) k
transacts-Held locks (seeking g) fd k e =
    subst (λ h. (i : ℕ) × Held locks h i) (some-injective _ _ e) k
transacts-Held locks (found g none) fd k e = absurd k
transacts-Held locks (found g (some i)) fd k e =
    subst (λ h. (i : ℕ) × Held locks h i) (some-injective _ _ e) (i, k)
transacts-Held locks (unlocking g i) fd k e =
    subst (λ h. (i : ℕ) × Held locks h i) (some-injective _ _ e) (i, k)

module _ (m : Shared) (one : OneSlot m.locks) (c : Choice) where
  -- A step that leaves the shared state alone and locks nothing.
  calling-Effect :
      (p' : Pc) → guards p' ≡ false → transacts p' ≡ none → Knows m.locks p' → Effect m idle m p'
  calling-Effect p' out none_held k =
      Effect-of_same_table m one idle p' m.guarded (λ e. absurd (false≢true (sym out ∙ e)))
        (λ e e'. e) (λ fd e. absurd (none-ne-some _ (sym none_held ∙ e))) k

  called-Effect :
      (b positive : Bool) (fd : ℕ)
      → Effect m idle m (if b then (if positive then entering fd else idle) else waiting)
  called-Effect true true fd = calling-Effect (entering fd) refl refl tt
  called-Effect true false fd = calling-Effect idle refl refl tt
  called-Effect false positive fd = calling-Effect waiting refl refl tt

  inside-Effect :
      (fd : ℕ)
      → Knows m.locks (inside fd)
      → (b : Bool) → Effect m (inside fd) m (if b then sending fd else leaving fd)
  inside-Effect fd k true =
      Effect-of_same_table m one (inside fd) (sending fd) m.guarded (λ e. cc) (λ e e'. e)
        (λ fd e. e) k
  inside-Effect fd k false =
      Effect-of_same_table m one (inside fd) (leaving fd) m.guarded (λ e. cc) (λ e e'. e)
        (λ fd e. e) k

  pub advance-Effect :
      (p : Pc)
      → (guards p ≡ true → m.guarded ≡ true)
      → Knows m.locks p
      → Ensures m p (advance c m p)
  unfolding advance
  advance-Effect idle g k = called-Effect c.transaction (is_positive c.fd) c.fd
  advance-Effect waiting g k = waiting-Effect m one c 0
  advance-Effect working g k =
      Effect-of_same_table m one working idle false (λ e. cc) (λ e e'. cc) (λ fd e. cc) tt
  advance-Effect (entering fd) g k = entering-Effect m one c fd
  advance-Effect (looking fd) g k = looking-Effect m one c fd (g refl)
  advance-Effect (creating fd) g k = creating-Effect m one c fd (g refl) k
  advance-Effect (returning fd none) g k =
      Effect-of_same_table m one (returning fd none) idle false (λ e. cc) (λ e e'. cc) (λ fd e. cc)
        tt
  advance-Effect (returning fd (some i)) g k =
      Effect-of_same_table m one (returning fd (some i)) (locking fd i) false (λ e. cc) (λ e e'. cc)
        (λ fd e. cc) k
  advance-Effect (locking fd i) g k = locking-Effect m one c fd i k
  advance-Effect (inside fd) g k = inside-Effect fd k c.sends
  advance-Effect (sending fd) g k = sending-Effect m one c fd k
  advance-Effect (writing fd) g k =
      Effect-of_same_table m one (writing fd) (inside fd) false (λ e. cc) (λ e e'. cc) (λ fd e. e) k
  advance-Effect (leaving fd) g k = leaving-Effect m one c fd k
  advance-Effect (seeking fd) g k = seeking-Effect m one c fd (g refl) k
  advance-Effect (found fd none) g k = absurd k
  advance-Effect (found fd (some i)) g k =
      Effect-of_same_table m one (found fd (some i)) (unlocking fd i) false (λ e. cc) (λ e e'. cc)
        (λ fd e. e) k
  advance-Effect (unlocking fd i) g k = unlocking-Effect m one c fd i k

-- What holds of the thread that moved, and of the others, holds of all.
pub everywhere {ℓ} :
    (P : Pc → ℕ → Type ℓ) (pc : ℕ → Pc) (i : ℕ) (p : Pc)
    → P p i
    → ((j : ℕ) → i ≢ j → P (pc j) j)
    → (j : ℕ) → P (update pc i p j) j
everywhere P pc i p own other j = elim (Bool-cases (i == j)) [
  | inl same ↦ rw (same, if◌then◌else◌) (subst (P p) ((==_iff i j).0 same) own)
  | inr ne ↦ rw (ne, if◌then◌else◌) (other j (λ e. false≢true (sym ne ∙ (==_iff i j).1 e)))
]

-- A property that one thread has at most.
one_thread {ℓ} :
    (P : Pc → Type ℓ) (pc : ℕ → Pc) (i : ℕ) (p : Pc)
    → (P p → (j : ℕ) → i ≢ j → P (pc j) → ⊥)
    → ((j k : ℕ) → P (pc j) → P (pc k) → j ≡ k)
    → (j k : ℕ) → P (update pc i p j)
    → P (update pc i p k)
    → j ≡ k
one_thread P pc i p alone old j k =
    everywhere (λ q j. P q → P (update pc i p k) → j ≡ k) pc i p
      (λ mine.
        everywhere (λ q k. P q → i ≡ k) pc i p (λ h. refl) (λ k ne h. absurd (alone mine k ne h)) k)
      (λ j ne h.
        everywhere (λ q k. P q → j ≡ k) pc i p (λ mine. absurd (alone mine j ne h))
          (λ k ne' h'. old j k h h') k)
      j

-- In a state with the invariant, thread `i` makes a step with its effect.
module _ {m : Shared} {pc : ℕ → Pc} (inv : Inv m pc) (i : ℕ) {m' : Shared} {p : Pc}
    (f : Effect m (pc i) m' p) where
  separate_others : (j : ℕ) → i ≢ j → Apart (pc i) (pc j)
  separate_others j ne = record {
    one_guard = λ e. elim (Bool-cases (guards (pc j))) [
      | inl both ↦ absurd (ne (inv.one_guard i j e both))
      | inr other ↦ other
    ];
    one_transaction = λ fd e e'. ne (inv.one_transaction fd i j e e');
  }

  alone_guarding : guards p ≡ true → (j : ℕ) → i ≢ j → guards (pc j) ≡ true → ⊥
  alone_guarding e j ne e' = elim ((f.enters e).1) [
    | inl before ↦ ne (inv.one_guard i j before e')
    | inr free ↦ false≢true (sym free ∙ inv.guarded j e')
  ]

  still_guarded : (j : ℕ) → i ≢ j → guards (pc j) ≡ true → m'.guarded ≡ true
  still_guarded j ne e = elim (Bool-cases (guards (pc i))) [
    | inl both ↦ absurd (ne (inv.one_guard i j both e))
    | inr other ↦ f.stays (inv.guarded j e) other
  ]

  alone_transacting :
      (fd : ℕ) → transacts p ≡ some fd → (j : ℕ) → i ≢ j → transacts (pc j) ≡ some fd → ⊥
  alone_transacting fd e j ne e' = elim (f.begins fd e) [
    | inl before ↦ ne (inv.one_transaction fd i j before e')
    | inr new ↦ let (k, h) = transacts-Held m.locks (pc j) fd (inv.knows j) e' in new k h
  ]

  pub Inv-kept : Inv m' (update pc i p)
  Inv-kept = record {
    guarded =
        everywhere (λ q j. guards q ≡ true → m'.guarded ≡ true) pc i p (λ e. (f.enters e).0)
          still_guarded;
    one_guard = one_thread (λ q. guards q ≡ true) pc i p alone_guarding inv.one_guard;
    one_slot = f.one;
    one_transaction = λ fd.
        one_thread (λ q. transacts q ≡ some fd) pc i p (alone_transacting fd)
          (inv.one_transaction fd);
    knows =
        everywhere (λ q j. Knows m'.locks q) pc i p f.learns
          (λ j ne. f.spares (pc j) (separate_others j ne) (inv.knows j));
  }
