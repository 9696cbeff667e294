-- ===== src/Settings/Laws.antt =====
-- The table of connection settings as a map from descriptors to settings.
use mathlib.Core.Path.{ap₂}
use mathlib.Core.Option
use mathlib.Core.Option.{some-injective, none-ne-some}
use melsec_mc_net.Prelude.{
  ℕ, zero, suc, ◌==◌, if◌then◌else◌, ◌≡◌, refl, sym, ap, ◌∙◌, Bool, true, Option, none, some, List,
  [], ◌∷◌, arith, get_elem?, set, find_index?, inl, inr, Option-cases, Bool-cases,
}
use melsec_mc_net.Prelude.Find.{NoneBefore, find_index?-some, find_index?-none}
use melsec_mc_net.Machine.{World, CommConfig, ConfigSlot, success, setsockopt}
use melsec_mc_net.Socket.{is_positive}
use melsec_mc_net.Settings.{
  holds, is_free, default_comm_config, find_connection_config, add_connection_config, put_config,
  config_of, mc_set_comm_config, mc_get_comm_config,
}

-- The settings of the first slot of the descriptor.
abbrev pub lookup : ℕ → List ConfigSlot → CommConfig
lookup fd [] = default_comm_config
lookup fd (s ∷ slots) = let rest = lookup fd slots in if holds fd s then s.config else rest

abbrev config_at : Option ℕ → List ConfigSlot → CommConfig
config_at none slots = default_comm_config
config_at (some i) slots = elim (get_elem? slots i) [
  | none ↦ default_comm_config
  | some s ↦ s.config
]

config_at-suc :
    (o : Option ℕ) (s : ConfigSlot) (slots : List ConfigSlot)
    → config_at (Option.map suc o) (s ∷ slots) ≡ config_at o slots
config_at-suc none s slots = refl
config_at-suc (some i) s slots = refl

config_at-find :
    (fd : ℕ) (slots : List ConfigSlot)
    → config_at (find_index? (holds fd) slots) slots ≡ lookup fd slots
unfolding find_index?
config_at-find fd [] = refl
config_at-find fd (s ∷ slots) = elim (Bool-cases (holds fd s)) [
  | inl here ↦ rw (here, if◌then◌else◌) refl
  | inr other ↦
      rw (other, if◌then◌else◌)
        (config_at-suc (find_index? (holds fd) slots) s slots ∙ config_at-find fd slots)
]

pub config_of-eq : (fd : ℕ) (slots : List ConfigSlot) → config_of fd slots ≡ lookup fd slots
unfolding config_of find_connection_config
config_of-eq fd slots = elim (Option-cases (find_index? (holds fd) slots)) [
  | inl new ↦
      rw (new, config_of)
        (sym (ap (λ (o : Option ℕ). config_at o slots) new) ∙ config_at-find fd slots)
  | inr (i, old) ↦
      rw (old, config_of)
        (sym (ap (λ (o : Option ℕ). config_at o slots) old) ∙ config_at-find fd slots)
]

abbrev pub slot_of : ℕ → CommConfig → ConfigSlot
slot_of fd c = record { fd = fd; config = c; in_use = true }

lookup-set :
    (fd fd' : ℕ) (c : CommConfig) (slots : List ConfigSlot) (i : ℕ) (s : ConfigSlot)
    → get_elem? slots i ≡ some s
    → (s.in_use ≡ true → s.fd ≡ fd)
    → NoneBefore (holds fd) slots i
    → lookup fd' (set slots i (slot_of fd c)) ≡ (if fd' == fd then c else lookup fd' slots)
lookup-set fd fd' c [] i s e own before = absurd cc
lookup-set fd fd' c (x ∷ xs) zero s e own before = ground (arith, e, own)
lookup-set fd fd' c (x ∷ xs) (suc i) s e own before =
    let later = lookup-set fd fd' c xs i s e own (λ k y lt. before (suc k) y (omega arith)) in
    ground (arith, later, before zero x (omega arith) refl)

pub slot-eq :
    (fd : ℕ) (c : CommConfig) (s : ConfigSlot)
    → holds fd s ≡ true
    → record s { config = c } ≡ slot_of fd c
slot-eq fd c s h =
    let used : s.in_use ≡ true = ground (arith, h) in
    let same : s.fd ≡ fd = ground (arith, h) in
    ap₂ (λ (d : ℕ) (u : Bool). record { fd = d; config = c; in_use = u }) same used

pub add_known :
    (fd : ℕ) (c : CommConfig) (slots : List ConfigSlot) (j : ℕ) (s : ConfigSlot)
    → find_index? (holds fd) slots ≡ some j
    → get_elem? slots j ≡ some s
    → add_connection_config fd c slots ≡ some (j, set slots j (record s { config = c }))
unfolding add_connection_config find_connection_config
add_known fd c slots j s old there = rw (old, add_connection_config) (rw (there, put_config) refl)

pub add_new :
    (fd : ℕ) (c : CommConfig) (slots : List ConfigSlot) (j : ℕ)
    → find_index? (holds fd) slots ≡ none
    → find_index? is_free slots ≡ some j
    → add_connection_config fd c slots ≡ some (j, set slots j (slot_of fd c))
unfolding add_connection_config find_connection_config
add_new fd c slots j new free = rw (new, add_connection_config) (rw free refl)

pub add_full :
    (fd : ℕ) (c : CommConfig) (slots : List ConfigSlot)
    → find_index? (holds fd) slots ≡ none
    → find_index? is_free slots ≡ none
    → add_connection_config fd c slots ≡ none
unfolding add_connection_config find_connection_config
add_full fd c slots new full = rw (new, add_connection_config) (rw full refl)

pub same_table :
    {o : Option (ℕ × List ConfigSlot)} {i j : ℕ} {xs ys : List ConfigSlot}
    → o ≡ some (i, xs)
    → o ≡ some (j, ys)
    → xs ≡ ys
same_table e f = ap (λ (p : ℕ × List ConfigSlot). p.1) (some-injective _ _ (sym e ∙ f))

-- After settings are stored for a descriptor, whether it had a slot or takes a free one, these are the
-- settings of the descriptor, and those of every other descriptor are what they were.
pub add_connection_config-config_of :
    (fd fd' : ℕ) (c : CommConfig) (slots after : List ConfigSlot) (i : ℕ)
    → add_connection_config fd c slots ≡ some (i, after)
    → config_of fd' after ≡ (if fd' == fd then c else config_of fd' slots)
add_connection_config-config_of fd fd' c slots after i e =
    elim (Option-cases (find_index? (holds fd) slots)) [
      | inr (j, old) ↦
          let (s, there, owned, before) = find_index?-some (holds fd) slots j old in
          let stored : set slots j (slot_of fd c) ≡ after =
            ap (set slots j) (sym (slot-eq fd c s owned))
            ∙ same_table (add_known fd c slots j s old there) e in
          result j s there (λ u. ground (arith, owned)) before stored
      | inl new ↦ elim (Option-cases (find_index? is_free slots)) [
        | inl full ↦ absurd (none-ne-some _ (sym (add_full fd c slots new full) ∙ e))
        | inr (j, free) ↦
            let (s, there, unused, earlier) = find_index?-some is_free slots j free in
            let stored : set slots j (slot_of fd c) ≡ after =
              same_table (add_new fd c slots j new free) e in
            result j s there (λ u. absurd (ground (arith, u, unused)))
              (λ k y lt at. find_index?-none (holds fd) slots new k y at) stored
      ]
    ]
  where
    result :
        (j : ℕ) (s : ConfigSlot)
        → get_elem? slots j ≡ some s
        → (s.in_use ≡ true → s.fd ≡ fd)
        → NoneBefore (holds fd) slots j
        → set slots j (slot_of fd c) ≡ after
        → config_of fd' after ≡ (if fd' == fd then c else config_of fd' slots)
    result j s there own before stored =
        rw (config_of-eq fd' after, config_of-eq fd' slots)
          (ap (lookup fd') (sym stored) ∙ lookup-set fd fd' c slots j s there own before)

-- Where setting the settings of a descriptor succeeds, the settings that are then got for any positive
-- descriptor are these for that descriptor, and what they were for every other.
pub mc_get_comm_config-set :
    (fd fd' : ℕ) (c : CommConfig) (w v : World)
    → mc_set_comm_config fd c w ≡ some (success, v)
    → is_positive fd' ≡ true
    → mc_get_comm_config fd' v
      ≡ some ((success, some (if fd' == fd then c else config_of fd' w.configs)), v)
unfolding mc_get_comm_config mc_set_comm_config setsockopt
mc_get_comm_config-set fd fd' c w v done positive =
    elim (Option-cases (add_connection_config fd c w.configs)) [
      | inl full ↦ absurd (ground (arith, full, done))
      | inr ((i, after), added) ↦
          let kept : v.configs ≡ after = ground (arith, added, done) in
          rw (positive, if◌then◌else◌)
            (ap (λ (r : CommConfig). some ((success, some r), v))
              (ap (config_of fd') kept
                ∙ add_connection_config-config_of fd fd' c w.configs after i added))
    ]
