-- ===== src/Machine/Returns.antt =====
-- Actions that return whatever memory is to be had and whatever comes from the network.
use melsec_mc_net.Prelude.{
  ◌∙◌, ◌≡◌, refl, ℕ, Bool, true, false, if◌then◌else◌, some, none, Option, List,
}
use melsec_mc_net.Machine.Events.{RecvEvent, ErrorCode, success}
use melsec_mc_net.Machine.Monad.{World, M, ◌>>=◌, pure, malloc, alloc, checked, >>=-eq_some}

module _ {ℓ} {A : Type ℓ} where
  -- The action returns a value of which `P` holds, and nothing but the events of memory and of what is
  -- received changes.
  abbrev pub Returns {κ} : (A → Type κ) → M A → World → Type (ℓ ⊔ κ)
  Returns P m w =
      (a : A) × (mallocs : List Bool) × (recvs : List RecvEvent) × (m w
        ≡ some (a, record w { mallocs = mallocs; recvs = recvs }))
      × P a

  pub pure-Returns {κ} : {P : A → Type κ} (a : A) (w : World) → P a → Returns P (pure a) w
  pure-Returns a w p = (a, w.mallocs, w.recvs, refl, p)

  -- What is done on success returns, and what is done on another code.
  pub on_code-Returns {κ} :
      {P : A → Type κ} (good : M A) (bad : ErrorCode → M A) (code : ErrorCode) (w : World)
      → (code ≡ success → Returns P good w)
      → ((c : ErrorCode) → Returns P (bad c) w)
      → Returns P (elim code [ success ↦ good | c ↦ bad c ]) w
  on_code-Returns {P = P} good bad code w g b =
      elim code
          as (λ c.
            (c ≡ success → Returns P good w)
            → Returns P (elim c [ success ↦ good | c' ↦ bad c' ]) w) [
              | success ↦ λ on_success. on_success refl
              | c ↦ λ on_success. b c
            ]
        g

  pub on_option-Returns {κ ℓ'} :
      {B : Type ℓ'} {P : A → Type κ} (on_none : M A) (on_some : B → M A) (o : Option B) (w : World)
      → Returns P on_none w
      → ((b : B) → o ≡ some b → Returns P (on_some b) w)
      → Returns P (elim o [ none ↦ on_none | some b ↦ on_some b ]) w
  on_option-Returns {P = P} on_none on_some o w n s =
      elim o
          as (λ o'.
            ((b : _) → o' ≡ some b → Returns P (on_some b) w)
            → Returns P (elim o' [ none ↦ on_none | some b ↦ on_some b ]) w) [
              | none ↦ λ on. n
              | some b ↦ λ on. on b refl
            ]
        s

  pub on_bool-Returns {κ} :
      {P : A → Type κ} (on_true on_false : M A) (test : Bool) (w : World)
      → (test ≡ true → Returns P on_true w)
      → (test ≡ false → Returns P on_false w)
      → Returns P (elim test [ true ↦ on_true | false ↦ on_false ]) w
  on_bool-Returns {P = P} on_true on_false test w y n =
      elim test
          as (λ t.
            (t ≡ true → Returns P on_true w)
            → (t ≡ false → Returns P on_false w)
            → Returns P (elim t [ true ↦ on_true | false ↦ on_false ]) w) [
              | true ↦ λ when when_not. when refl
              | false ↦ λ when when_not. when_not refl
            ]
        y n

  pub on_test-Returns {κ} :
      {P : A → Type κ} (then_do else_do : M A) (test : Bool) (w : World)
      → (test ≡ true → Returns P then_do w)
      → (test ≡ false → Returns P else_do w)
      → Returns P (if test then then_do else else_do) w
  on_test-Returns {P = P} then_do else_do test w y n =
      elim test
          as (λ t.
            (t ≡ true → Returns P then_do w)
            → (t ≡ false → Returns P else_do w)
            → Returns P (if t then then_do else else_do) w) [
              | true ↦ λ when when_not. when refl
              | false ↦ λ when when_not. when_not refl
            ]
        y n

module _ {ℓ κ ℓ' κ'} {A : Type ℓ} {B : Type ℓ'} {P : A → Type κ} {Q : B → Type κ'} where
  pub >>=-Returns :
      (m : M A) (f : A → M B) (w : World)
      → Returns P m w
      → ((a : A) (v : World) → P a → Returns Q (f a) v)
      → Returns Q (m >>= f) w
  >>=-Returns m f w (a, mallocs, recvs, returns, p) next =
      let (b, mallocs', recvs', ends, q) =
        next a (record w { mallocs = mallocs; recvs = recvs }) p in
      (b, mallocs', recvs', >>=-eq_some m f returns ∙ ends, q)

abbrev pub Anything {ℓ} : {A : Type ℓ} → A → Type 0
Anything a = Unit

pub malloc-Returns : (w : World) → Returns Anything malloc w
unfolding malloc
malloc-Returns w = (_, _, w.recvs, refl, tt)

pub alloc-Returns : (bytes : List ℕ) (w : World) → Returns Anything (alloc bytes) w
unfolding alloc
alloc-Returns bytes w = (_, _, w.recvs, refl, tt)

pub checked-Returns {ℓ} :
    {A : Type ℓ} (o : Option A) {a : A} (w : World) → o ≡ some a → Returns Anything (checked o) w
checked-Returns o {a} w e = (a, w.mallocs, w.recvs, rw (e, checked) refl, tt)
