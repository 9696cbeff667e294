-- ===== src/Prelude/Find.antt =====
-- The first element of a list that passes a test.
use Prim.Native.Nat.{ℕ, zero, suc, ◌<◌}
use mathlib.Core.Path.{◌≡◌, refl, sym, ap, ◌∙◌, subst}
use mathlib.Core.Logic.{inl, inr}
use mathlib.Core.Bool.{Bool, true, false, false≢true}
use mathlib.Core.List.{List, [], ◌∷◌}
use mathlib.Core.Option
use mathlib.Core.Option.{Option, none, some, some-injective}
use native.Mathlib.Omega.{arith}
use melsec_mc_net.Prelude.Tests.{if◌then◌else◌, Bool-cases, Option-cases}
use melsec_mc_net.Prelude.Lists.{length, get_elem?, set, find_index?}

module _ {ℓ} {A : Type ℓ} (test : A → Bool) where
  -- No element before index `n` passes.
  abbrev pub NoneBefore : List A → ℕ → Type ℓ
  NoneBefore xs n = (k : ℕ) (y : A) → k < n → get_elem? xs k ≡ some y → test y ≡ false

  -- What the answer of a search says: which element is the first that passes, or that none does.
  abbrev pub Found : List A → Option ℕ → Type ℓ
  Found xs none = (j : ℕ) (x : A) → get_elem? xs j ≡ some x → test x ≡ false
  Found xs (some i) = (x : A) × (get_elem? xs i ≡ some x) × (test x ≡ true) × NoneBefore xs i

  none_later : (x : A) (xs : List A) → test x ≡ false → Found xs none → Found (x ∷ xs) none
  none_later x xs fails found zero y e = subst (λ t. test t ≡ false) (some-injective _ _ e) fails
  none_later x xs fails found (suc j) y e = found j y e

  NoneBefore-later :
      (x : A) (xs : List A) (i : ℕ) → test x ≡ false → NoneBefore xs i → NoneBefore (x ∷ xs) (suc i)
  NoneBefore-later x xs i fails before zero y lt e =
      subst (λ t. test t ≡ false) (some-injective _ _ e) fails
  NoneBefore-later x xs i fails before (suc k) y lt e = before k y (omega arith) e

  Found-cons :
      (x : A) (xs : List A) (o : Option ℕ)
      → test x ≡ false
      → Found xs o
      → Found (x ∷ xs) (Option.map suc o)
  Found-cons x xs none fails found = none_later x xs fails found
  Found-cons x xs (some i) fails (y, at, passes, before) =
      (y, at, passes, NoneBefore-later x xs i fails before)

  pub find_index?-Found : (xs : List A) → Found xs (find_index? test xs)
  unfolding find_index?
  find_index?-Found [] = λ j x e. cc
  find_index?-Found (x ∷ xs) = elim (Bool-cases (test x)) [
    | inl passes ↦ rw (passes, if◌then◌else◌) (x, refl, passes, λ k y lt e. absurd (omega arith))
    | inr fails ↦
        rw (fails, if◌then◌else◌)
          (Found-cons x xs (find_index? test xs) fails (find_index?-Found xs))
  ]

  pub find_index?-some : (xs : List A) (i : ℕ) → find_index? test xs ≡ some i → Found xs (some i)
  find_index?-some xs i e = subst (Found xs) e (find_index?-Found xs)

  pub find_index?-none : (xs : List A) → find_index? test xs ≡ none → Found xs none
  find_index?-none xs e = subst (Found xs) e (find_index?-Found xs)

  -- Where an element passes, one is found.
  pub find_index?-eq_some :
      (xs : List A) (j : ℕ) (x : A)
      → get_elem? xs j ≡ some x
      → test x ≡ true
      → (i : ℕ) × (find_index? test xs ≡ some i)
  find_index?-eq_some xs j x e passes = elim (Option-cases (find_index? test xs)) [
    | inl n ↦ absurd (false≢true (sym (find_index?-none xs n j x e) ∙ passes))
    | inr s ↦ s
  ]

  -- Writing an element that passes over the first that does, or anywhere if none does.
  pub find_index?-set :
      (xs : List A) (i : ℕ) (x : A)
      → test x ≡ true
      → i < length xs
      → NoneBefore xs i
      → find_index? test (set xs i x) ≡ some i
  unfolding find_index?
  find_index?-set [] i x passes h before = absurd (omega arith)
  find_index?-set (y ∷ ys) zero x passes h before = rw (passes, if◌then◌else◌)
  find_index?-set (y ∷ ys) (suc i) x passes h before =
      rw (before zero y (omega arith) refl, if◌then◌else◌)
        (ap (Option.map suc)
          (find_index?-set ys i x passes (omega arith) (λ k z le. before (suc k) z (omega arith))))
