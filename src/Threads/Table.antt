-- ===== src/Threads/Table.antt =====
-- The slots of the table of locks under the writes that the threads make.
use mathlib.Core.Path.{subst}
use mathlib.Core.Option.{some-injective}
use mathlib.Core.Bool.{false≢true}
use melsec_mc_net.Prelude.{
  ℕ, ◌==◌, ◌||◌, ◌≡◌, ◌≢◌, ◌⊎◌, refl, sym, ◌∙◌, if◌then◌else◌, Bool, true, false, Option, none,
  some, List, arith, get_elem?, get_elem?-set, set, find_index?, inl, inr, Bool-cases, Option-cases,
  get_elem?-set_self, get_elem?-lt,
}
use melsec_mc_net.Prelude.Find.{find_index?-some}
use melsec_mc_net.Machine.{TxLock}
use melsec_mc_net.Locks.{owns, is_free}
use melsec_mc_net.Threads.{taken, create}

-- The slot at an index is the descriptor's.
pub record Owned (locks : List TxLock) (fd i : ℕ) : Type 0 where
  pub slot : TxLock
  pub there : get_elem? locks i ≡ some slot
  pub own : owns fd slot ≡ true

-- It is, and its mutex is held.
pub record Held (locks : List TxLock) (fd i : ℕ) : Type 0 where
  pub slot : TxLock
  pub there : get_elem? locks i ≡ some slot
  pub own : owns fd slot ≡ true
  pub held : slot.held ≡ true

-- No slot is the descriptor's.
abbrev pub Unknown : List TxLock → ℕ → Type 0
Unknown locks fd = (j : ℕ) (s : TxLock) → get_elem? locks j ≡ some s → owns fd s ≡ false

-- No descriptor has two slots.
abbrev pub OneSlot : List TxLock → Type 0
OneSlot locks = (fd j k : ℕ) → Owned locks fd j → Owned locks fd k → j ≡ k

pub Held-Owned : {locks : List TxLock} {fd i : ℕ} → Held locks fd i → Owned locks fd i
Held-Owned h = record { slot = h.slot; there = h.there; own = h.own }

pub found-Owned :
    (fd : ℕ) (locks : List TxLock) (i : ℕ) → find_index? (owns fd) locks ≡ some i → Owned locks fd i
found-Owned fd locks i e =
    let (s, at, passes, before) = find_index?-some (owns fd) locks i e in
    record { slot = s; there = at; own = passes }

-- The table after a lock or an unlock of the mutex of a slot.
abbrev pub marked : List TxLock → ℕ → TxLock → Bool → List TxLock
marked locks i s b = set locks i (record s { held = b })

module _ (locks : List TxLock) (i : ℕ) (s : TxLock) (at : get_elem? locks i ≡ some s)
    (b : Bool) where
  pub marked-Owned : (fd j : ℕ) → Owned locks fd j → Owned (marked locks i s b) fd j
  marked-Owned fd j o = record {
    slot = if i == j then record s { held = b } else o.slot;
    there = ground (arith, get_elem?-set locks i j s (record s { held = b }) at);
    own = ground arith;
  }

  pub marked-Owned_old : (fd j : ℕ) → Owned (marked locks i s b) fd j → Owned locks fd j
  marked-Owned_old fd j o = record {
    slot = if i == j then s else o.slot;
    there = ground (arith, get_elem?-set locks i j s (record s { held = b }) at);
    own = ground (arith, get_elem?-set locks i j s (record s { held = b }) at);
  }

  pub marked-Held :
      (fd j : ℕ) → Held locks fd j → i ≢ j ⊎ (b ≡ true) → Held (marked locks i s b) fd j
  marked-Held fd j o other = record {
    slot = if i == j then record s { held = b } else o.slot;
    there = ground (arith, get_elem?-set locks i j s (record s { held = b }) at);
    own = ground arith;
    held = ground arith;
  }

  pub marked-Unknown : (fd : ℕ) → Unknown locks fd → Unknown (marked locks i s b) fd
  marked-Unknown fd none_owns j t there = elim (Bool-cases (owns fd t)) [
    | inl own ↦
        let o = marked-Owned_old fd j (record { slot = t; there = there; own = own }) in
        absurd (false≢true (sym (none_owns j o.slot o.there) ∙ o.own))
    | inr other ↦ other
  ]

  pub marked-OneSlot : OneSlot locks → OneSlot (marked locks i s b)
  marked-OneSlot one fd j k o p = one fd j k (marked-Owned_old fd j o) (marked-Owned_old fd k p)

-- A lock makes the mutex of the slot held.
pub locked-Held :
    (locks : List TxLock) (fd i : ℕ) (s : TxLock)
    → get_elem? locks i ≡ some s
    → Owned locks fd i
    → Held (marked locks i s true) fd i
locked-Held locks fd i s at o = record {
  slot = record s { held = true };
  there = get_elem?-set_self locks i (record s { held = true }) (get_elem?-lt locks i at);
  own = ground arith;
  held = refl;
}

-- A free slot is taken, or stays free where its mutex cannot be initialised.
module _ (locks : List TxLock) (fd i : ℕ) (s : TxLock) (at : get_elem? locks i ≡ some s)
    (free : s.in_use ≡ false) (ready : Bool) where
  abbrev after : List TxLock
  after = set locks i (taken ready fd s)

  taken-Owned : (g j : ℕ) → Owned locks g j → Owned after g j
  taken-Owned g j o = record {
    slot = if i == j then taken ready fd s else o.slot;
    there = ground (arith, get_elem?-set locks i j s (taken ready fd s) at);
    own = ground arith;
  }

  taken-Held : (g j : ℕ) → Held locks g j → Held after g j
  taken-Held g j o = record {
    slot = if i == j then taken ready fd s else o.slot;
    there = ground (arith, get_elem?-set locks i j s (taken ready fd s) at);
    own = ground arith;
    held = ground arith;
  }

  taken-Owned_self : ready ≡ true → Owned after fd i
  taken-Owned_self yes_ready = record {
    slot = taken ready fd s;
    there = ground (arith, get_elem?-set locks i i s (taken ready fd s) at);
    own = ground arith;
  }

  taken-Owned_old : (g j : ℕ) → Owned after g j → ((i ≡ j) × (fd ≡ g)) ⊎ Owned locks g j
  taken-Owned_old g j o = elim (Bool-cases (i == j)) [
    | inl same ↦ inl (ground (arith, get_elem?-set locks i j s (taken ready fd s) at))
    | inr other ↦ inr (record {
      slot = o.slot;
      there = ground (arith, get_elem?-set locks i j s (taken ready fd s) at);
      own = o.own;
    })
  ]

  taken-OneSlot : Unknown locks fd → OneSlot locks → OneSlot after
  taken-OneSlot new one g j k o p = elim (taken-Owned_old g j o) [
    | inl (ij, e) ↦ elim (taken-Owned_old g k p) [
      | inl (ik, e') ↦ sym ij ∙ ik
      | inr q ↦ absurd (unknown g k q e)
    ]
    | inr q ↦ elim (taken-Owned_old g k p) [
      | inl (ik, e) ↦ absurd (unknown g j q e)
      | inr r ↦ one g j k q r
    ]
  ]
    where
      unknown : (g k : ℕ) → Owned locks g k → fd ≡ g → ⊥
      unknown g k q e = ground (arith, new k q.slot)

-- What the second loop of `mc_get_or_create_fd_tx_mutex_locked` does to the table.
pub record Created (fd : ℕ) (locks : List TxLock) (made : List TxLock × Option ℕ) : Type 0 where
  pub keeps_owned : (g j : ℕ) → Owned locks g j → Owned made.0 g j
  pub keeps_held : (g j : ℕ) → Held locks g j → Held made.0 g j
  pub one : Unknown locks fd → OneSlot locks → OneSlot made.0
  pub mine : (i : ℕ) → made.1 ≡ some i → Owned made.0 fd i

refused-Created : (fd : ℕ) (locks : List TxLock) → Created fd locks (locks, none)
refused-Created fd locks = record {
  keeps_owned = λ g j o. o;
  keeps_held = λ g j h. h;
  one = λ new one. one;
  mine = λ i e. cc;
}

taken-Created :
    (fd i : ℕ) (locks : List TxLock) (s : TxLock) (ready : Bool)
    → get_elem? locks i ≡ some s
    → s.in_use ≡ false
    → Created fd locks (set locks i (taken ready fd s), if ready then some i else none)
taken-Created fd i locks s ready at free = record {
  keeps_owned = taken-Owned locks fd i s at free ready;
  keeps_held = taken-Held locks fd i s at free ready;
  one = taken-OneSlot locks fd i s at free ready;
  mine = mine ready;
}
  where
    mine :
        (b : Bool) (k : ℕ)
        → (if b then some i else none) ≡ some k
        → Owned (set locks i (taken b fd s)) fd k
    mine true k e =
        subst (Owned (set locks i (taken true fd s)) fd) (some-injective _ _ e)
          (taken-Owned_self locks fd i s at free true refl)
    mine false k e = cc

-- A table without a free slot refuses.
pub create-full :
    (ok : Bool) (fd : ℕ) (locks : List TxLock)
    → find_index? is_free locks ≡ none
    → create ok fd locks ≡ (locks, none)
unfolding create
create-full ok fd locks e = ground (arith, e)

pub create-free :
    (ok : Bool) (fd : ℕ) (locks : List TxLock) (i : ℕ) (s : TxLock)
    → find_index? is_free locks ≡ some i
    → get_elem? locks i ≡ some s
    → create ok fd locks ≡ (
      set locks i (taken (s.tx_mutex_initialized || ok) fd s),
      if s.tx_mutex_initialized || ok then some i else none,
    )
unfolding create
create-free ok fd locks i s e at = ground arith

pub create-Created :
    (ok : Bool) (fd : ℕ) (locks : List TxLock) → Created fd locks (create ok fd locks)
create-Created ok fd locks = elim (Option-cases (find_index? is_free locks)) [
  | inl full ↦ rw (create-full ok fd locks full) (refused-Created fd locks)
  | inr (i, e) ↦
      let (s, at, free, before) = find_index?-some is_free locks i e in
      rw (create-free ok fd locks i s e at)
        (taken-Created fd i locks s (s.tx_mutex_initialized || ok) at (ground arith))
]
