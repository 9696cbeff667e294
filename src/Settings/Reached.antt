-- ===== src/Settings/Reached.antt =====
-- The tables of connection settings that the calls make: no descriptor has two slots.
use mathlib.Core.Path.{subst}
use mathlib.Core.Option.{none-ne-some}
use melsec_mc_net.Prelude.{
  ℕ, zero, suc, ◌==◌, if◌then◌else◌, ◌≡◌, ◌⊎◌, sym, ◌∙◌, true, false, some, List, replicate, arith,
  get_elem?, get_elem?-set, set, find_index?, inl, inr, Option-cases, Bool-cases,
}
use melsec_mc_net.Prelude.Find.{find_index?-some}
use melsec_mc_net.Machine.{CommConfig, ConfigSlot}
use melsec_mc_net.Settings.{
  holds, is_free, default_comm_config, add_connection_config, config_of,
  mc_remove_connection_config, max_connections,
}
use melsec_mc_net.Settings.Laws.{add_known, add_new, add_full, slot_of, same_table}
use melsec_mc_net.Settings.Removal.{
  Holds, OneSlot, released, remove_new, remove_known, found-Holds, none-Holds,
  mc_remove_connection_config-config_of,
}

-- A write to a slot that gives it to no other descriptor.
set-OneSlot :
    (slots : List ConfigSlot) (i : ℕ) (s t : ConfigSlot)
    → get_elem? slots i ≡ some s
    → ((g : ℕ) → holds g t ≡ true → (k : ℕ) → Holds slots g k → k ≡ i)
    → OneSlot slots
    → OneSlot (set slots i t)
set-OneSlot slots i s t at given one g j k h h' = elim (was j h) [
  | inl (ij, own) ↦ elim (was k h') [
    | inl (ik, own') ↦ ij ∙ sym ik
    | inr o' ↦ ij ∙ sym (given g own k o')
  ]
  | inr o ↦ elim (was k h') [ inl (ik, own') ↦ given g own' j o ∙ sym ik | inr o' ↦ one g j k o o' ]
]
  where
    was : (n : ℕ) → Holds (set slots i t) g n → ((n ≡ i) × (holds g t ≡ true)) ⊎ Holds slots g n
    was n o = elim (Bool-cases (i == n)) [
      | inl same ↦ inl (ground (arith, get_elem?-set slots i n s t at, o.there, o.held))
      | inr ne ↦ inr (record {
        slot = o.slot;
        there = ground (arith, get_elem?-set slots i n s t at, o.there);
        held = o.held;
      })
    ]

removed-OneSlot :
    (fd : ℕ) (slots : List ConfigSlot)
    → OneSlot slots
    → OneSlot (mc_remove_connection_config fd slots)
removed-OneSlot fd slots one = elim (Option-cases (find_index? (holds fd) slots)) [
  | inl new ↦ subst OneSlot (sym (remove_new fd slots new)) one
  | inr (i, old) ↦
      let h = found-Holds fd slots i old in
      subst OneSlot (sym (remove_known fd slots i h.slot old h.there))
        (set-OneSlot slots i h.slot (released h.slot) h.there (λ g own. absurd (cc)) one)
]

added-OneSlot :
    (fd : ℕ) (c : CommConfig) (slots after : List ConfigSlot) (i : ℕ)
    → add_connection_config fd c slots ≡ some (i, after)
    → OneSlot slots
    → OneSlot after
added-OneSlot fd c slots after i e one = elim (Option-cases (find_index? (holds fd) slots)) [
  | inr (j, old) ↦
      let h = found-Holds fd slots j old in
      subst OneSlot (same_table (add_known fd c slots j h.slot old h.there) e) (
        set-OneSlot slots j h.slot (record h.slot { config = c }) h.there
          (λ g own k o. one g k j o (record { slot = h.slot; there = h.there; held = own })) one)
  | inl new ↦ elim (Option-cases (find_index? is_free slots)) [
    | inl full ↦ absurd (none-ne-some _ (sym (add_full fd c slots new full) ∙ e))
    | inr (j, unused) ↦
        let (s, there, passes, before) = find_index?-some is_free slots j unused in
        subst OneSlot (same_table (add_new fd c slots j new unused) e) (
          set-OneSlot slots j s (slot_of fd c) there
            (λ g own k o.
              absurd
                (none-Holds fd slots new k (subst (λ d. Holds slots d k) (ground (arith, own)) o)))
            one)
  ]
]

-- `connection_configs`, before any call
abbrev pub empty_slot : ConfigSlot
empty_slot = record {
  fd = 0;
  config = record {
    send_timeout_ms = 0;
    recv_timeout_ms = 0;
    retry_count = 0;
    retry_interval_ms = 0;
  };
  in_use = false;
}

empty-Holds : (n fd k : ℕ) → Holds (replicate n empty_slot) fd k → ⊥
empty-Holds zero fd k h = none-ne-some _ h.there
empty-Holds (suc n) fd zero h = ground (arith, h.there, h.held)
empty-Holds (suc n) fd (suc k) h =
    empty-Holds n fd k (record { slot = h.slot; there = h.there; held = h.held })

-- The calls that write to the table, in any order, with any arguments.
pub data Table : List ConfigSlot → Type 0 where
  unwritten : Table (replicate max_connections empty_slot)
  added :
      {slots after : List ConfigSlot} (fd : ℕ) (c : CommConfig) (i : ℕ)
      → Table slots
      → add_connection_config fd c slots ≡ some (i, after)
      → Table after
  removed :
      {slots after : List ConfigSlot} (fd : ℕ)
      → Table slots
      → mc_remove_connection_config fd slots ≡ after
      → Table after

Table-OneSlot : {slots : List ConfigSlot} → Table slots → OneSlot slots
Table-OneSlot unwritten = λ fd j k h. absurd (empty-Holds max_connections fd j h)
Table-OneSlot (added {slots} {after} fd c i t e) =
    added-OneSlot fd c slots after i e (Table-OneSlot t)
Table-OneSlot (removed {slots} fd t e) =
    subst OneSlot e (removed-OneSlot fd slots (Table-OneSlot t))

-- In every table that calls of `add_connection_config` and `mc_remove_connection_config` make of the
-- empty one, no descriptor has two slots; after the settings of a descriptor are removed, they are the
-- default, and those of every other descriptor are what they were.
pub Table-removal :
    {slots : List ConfigSlot}
    → Table slots
    → (fd fd' : ℕ)
    → OneSlot slots
      × (config_of fd' (mc_remove_connection_config fd slots)
          ≡ (if fd' == fd then default_comm_config else config_of fd' slots))
Table-removal {slots} t fd fd' =
    (Table-OneSlot t, mc_remove_connection_config-config_of fd fd' slots (Table-OneSlot t))
