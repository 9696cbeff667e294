-- ===== src/Settings/Removal.antt =====
-- The removal of connection settings, and that no descriptor has two slots.
use mathlib.Core.Bool.{false≢true}
use melsec_mc_net.Prelude.{
  ℕ, zero, suc, ◌==◌, if◌then◌else◌, ◌≡◌, refl, sym, ap, ◌∙◌, true, false, none, some, List, [],
  ◌∷◌, arith, get_elem?, set, find_index?, inl, inr, Option-cases, Bool-cases,
}
use melsec_mc_net.Prelude.Find.{find_index?-some, find_index?-none}
use melsec_mc_net.Machine.{CommConfig, ConfigSlot}
use melsec_mc_net.Settings.{
  holds, default_comm_config, find_connection_config, config_of, mc_remove_connection_config,
}
use melsec_mc_net.Settings.Laws.{lookup, config_of-eq}

-- The slot at an index is the descriptor's.
pub record Holds (slots : List ConfigSlot) (fd i : ℕ) : Type 0 where
  pub slot : ConfigSlot
  pub there : get_elem? slots i ≡ some slot
  pub held : holds fd slot ≡ true

-- No descriptor has two slots.
abbrev pub OneSlot : List ConfigSlot → Type 0
OneSlot slots = (fd j k : ℕ) → Holds slots fd j → Holds slots fd k → j ≡ k

-- A slot after it was given back.
abbrev pub released : ConfigSlot → ConfigSlot
released s = record s { in_use = false }

Holds-suc :
    {x : ConfigSlot} {xs : List ConfigSlot} {fd k : ℕ} → Holds xs fd k → Holds (x ∷ xs) fd (suc k)
Holds-suc h = record { slot = h.slot; there = h.there; held = h.held }

lookup-new :
    (fd : ℕ) (slots : List ConfigSlot)
    → ((k : ℕ) → Holds slots fd k → ⊥)
    → lookup fd slots ≡ default_comm_config
lookup-new fd [] new = refl
lookup-new fd (x ∷ xs) new = elim (Bool-cases (holds fd x)) [
  | inl held ↦ absurd (new 0 (record { slot = x; there = refl; held = held }))
  | inr other ↦ rw (other, if◌then◌else◌) (lookup-new fd xs (λ k h. new (suc k) (Holds-suc h)))
]

lookup-released :
    (fd fd' : ℕ) (slots : List ConfigSlot) (i : ℕ) (s : ConfigSlot)
    → get_elem? slots i ≡ some s
    → holds fd s ≡ true
    → ((k : ℕ) → Holds slots fd k → k ≡ i)
    → lookup fd' (set slots i (released s))
      ≡ (if fd' == fd then default_comm_config else lookup fd' slots)
lookup-released fd fd' [] i s e own one = absurd cc
lookup-released fd fd' (x ∷ xs) zero s e own one =
    ground
      (arith, e, own, lookup-new fd xs (λ k h. absurd (ground (arith, one (suc k) (Holds-suc h)))))
lookup-released fd fd' (x ∷ xs) (suc i) s e own one =
    let later =
      lookup-released fd fd' xs i s e own (λ k h. ground (arith, one (suc k) (Holds-suc h))) in
    let first : holds fd x ≡ true → ⊥ =
      λ h. absurd (ground (arith, one 0 (record { slot = x; there = refl; held = h }))) in
    elim (Bool-cases (holds fd x)) [
      | inl held ↦ absurd (first held)
      | inr other ↦ ground (arith, later, other)
    ]

pub remove_new :
    (fd : ℕ) (slots : List ConfigSlot)
    → find_index? (holds fd) slots ≡ none
    → mc_remove_connection_config fd slots ≡ slots
unfolding mc_remove_connection_config find_connection_config
remove_new fd slots new = rw (new, mc_remove_connection_config) refl

pub remove_known :
    (fd : ℕ) (slots : List ConfigSlot) (i : ℕ) (s : ConfigSlot)
    → find_index? (holds fd) slots ≡ some i
    → get_elem? slots i ≡ some s
    → mc_remove_connection_config fd slots ≡ set slots i (released s)
unfolding mc_remove_connection_config find_connection_config
remove_known fd slots i s old there = rw (old, mc_remove_connection_config) (rw there refl)

pub found-Holds :
    (fd : ℕ) (slots : List ConfigSlot) (i : ℕ)
    → find_index? (holds fd) slots ≡ some i
    → Holds slots fd i
found-Holds fd slots i e =
    let (s, at, passes, before) = find_index?-some (holds fd) slots i e in
    record { slot = s; there = at; held = passes }

pub none-Holds :
    (fd : ℕ) (slots : List ConfigSlot)
    → find_index? (holds fd) slots ≡ none
    → (k : ℕ) → Holds slots fd k
    → ⊥
none-Holds fd slots e k h =
    false≢true (sym (find_index?-none (holds fd) slots e k h.slot h.there) ∙ h.held)

-- Where no descriptor has two slots: after the settings of a descriptor are removed, they are the
-- default, and those of every other descriptor are what they were.
pub mc_remove_connection_config-config_of :
    (fd fd' : ℕ) (slots : List ConfigSlot)
    → OneSlot slots
    → config_of fd' (mc_remove_connection_config fd slots)
      ≡ (if fd' == fd then default_comm_config else config_of fd' slots)
mc_remove_connection_config-config_of fd fd' slots one =
    elim (Option-cases (find_index? (holds fd) slots)) [
      | inl new ↦
          ap (config_of fd') (remove_new fd slots new)
          ∙ ground (arith, config_of-eq fd slots, lookup-new fd slots (none-Holds fd slots new))
      | inr (i, old) ↦
          let h = found-Holds fd slots i old in
          ap (config_of fd') (remove_known fd slots i h.slot old h.there)
          ∙ config_of-eq fd' (set slots i (released h.slot))
          ∙ lookup-released fd fd' slots i h.slot h.there h.held (λ k g. one fd k i g h)
          ∙ ap (λ (c : CommConfig). if fd' == fd then default_comm_config else c)
              (sym (config_of-eq fd' slots))
    ]
