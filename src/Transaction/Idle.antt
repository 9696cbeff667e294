-- ===== src/Transaction/Idle.antt =====
-- Actions that return and leave a descriptor idle.
use melsec_mc_net.Prelude.{ℕ, ◌≡◌, ◌∙◌, Option, some, none}
use melsec_mc_net.Machine.{World, M, ◌>>=◌, >>=-eq_some}
use melsec_mc_net.Machine.Returns.{Returns}
use melsec_mc_net.Transaction.Returns.{IsIdle}

-- The action returns, and the descriptor is idle again.
abbrev pub KeepsIdle {ℓ} : {A : Type ℓ} → ℕ → M A → World → Type ℓ
KeepsIdle {A = A} fd m w = (a : A) × (v : World) × (m w ≡ some (a, v)) × IsIdle fd v

-- What is done on an absent and on a present value.
pub on_option-KeepsIdle {ℓ ℓ'} :
    {A : Type ℓ} {B : Type ℓ'} (fd : ℕ) (on_none : M A) (on_some : B → M A) (o : Option B)
    (w : World)
    → KeepsIdle fd on_none w
    → ((b : B) → KeepsIdle fd (on_some b) w)
    → KeepsIdle fd (elim o [ none ↦ on_none | some b ↦ on_some b ]) w
on_option-KeepsIdle fd on_none on_some o w n s =
    elim o as (λ o'. KeepsIdle fd (elim o' [ none ↦ on_none | some b ↦ on_some b ]) w) [
      | none ↦ n
      | some b ↦ s b
    ]

module _ {ℓ κ} {A : Type ℓ} {P : A → Type κ} (fd : ℕ) where
  pub Returns-KeepsIdle : (m : M A) (w : World) → IsIdle fd w → Returns P m w → KeepsIdle fd m w
  Returns-KeepsIdle m w at (a, mallocs, recvs, returns, p) = (
    a,
    record w { mallocs = mallocs; recvs = recvs },
    returns,
    record { positive = at.positive; threads = at.threads; idle = at.idle; room = at.room },
  )

  pub >>=-KeepsIdle {ℓ'} :
      {B : Type ℓ'} (m : M A) (f : A → M B) (w : World)
      → IsIdle fd w
      → Returns P m w
      → ((a : A) (v : World) → P a → IsIdle fd v → KeepsIdle fd (f a) v)
      → KeepsIdle fd (m >>= f) w
  >>=-KeepsIdle m f w at (a, mallocs, recvs, returns, p) next =
      let (b, v, ends, idle) =
        next a (record w { mallocs = mallocs; recvs = recvs }) p
          (record {
            positive = at.positive;
            threads = at.threads;
            idle = at.idle;
            room = at.room;
          }) in
      (b, v, >>=-eq_some m f returns ∙ ends, idle)
