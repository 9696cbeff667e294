-- ===== src/Locks/Table.antt =====
-- The table of transaction locks: what a lock and an unlock do, and what a full table refuses.
use mathlib.Core.Path.{subst}
use mathlib.Core.Option.{some-injective}
use native.Mathlib.Decide.{ℕ_discrete}
use melsec_mc_net.Prelude.{
  ℕ, ◌<◌, if◌then◌else◌, ◌≡◌, ◌≢◌, refl, sym, ap, ◌∙◌, true, false, none, some, List, [], arith,
  length, get_elem?, set, find_index?, inl, inr, Option-cases, get_elem?-set_self, get_elem?-set_ne,
  get_elem?-lt,
}
use melsec_mc_net.Prelude.Find.{find_index?-some, find_index?-set}
use melsec_mc_net.Machine.{World, success, error_failed, TxLock, >>=-eq_some}
use melsec_mc_net.Socket.{is_positive}
use melsec_mc_net.Locks.Slots.{NoneHeld, HasRoom, get_or_create-Slot}
use melsec_mc_net.Locks.{
  owns, is_free, mc_get_or_create_fd_tx_mutex_locked, mc_lock_fd_transaction,
  mc_unlock_fd_transaction,
}
use melsec_mc_net.ThreadSafe.Laws.{mc_mutex_lock-eq, mc_mutex_unlock-eq}

owned_slot :
    (fd : ℕ) (locks : List TxLock) (i : ℕ) (s : TxLock)
    → find_index? (owns fd) locks ≡ some i
    → get_elem? locks i ≡ some s
    → owns fd s ≡ true
owned_slot fd locks i s owned there =
    let (t, at, passes, before) = find_index?-some (owns fd) locks i owned in
    subst (λ r. owns fd r ≡ true) (some-injective _ _ (sym at ∙ there)) passes

-- A write to the descriptor's slot that keeps it the descriptor's.
owned_set :
    (fd : ℕ) (locks : List TxLock) (i : ℕ) (s s' : TxLock)
    → find_index? (owns fd) locks ≡ some i
    → get_elem? locks i ≡ some s
    → (owns fd s ≡ true → owns fd s' ≡ true)
    → find_index? (owns fd) (set locks i s') ≡ some i
owned_set fd locks i s s' owned there keeps =
    let (t, at, passes, before) = find_index?-some (owns fd) locks i owned in
    find_index?-set (owns fd) locks i s' (keeps (owned_slot fd locks i s owned there))
      (get_elem?-lt locks i there) before

-- The table with the lock of the descriptor held, and no other.
pub record HeldBy (fd : ℕ) (locks : List TxLock) : Type 0 where
  pub index : ℕ
  pub slot : TxLock
  pub owned : find_index? (owns fd) locks ≡ some index
  pub there : get_elem? locks index ≡ some slot
  pub held : slot.held ≡ true
  pub others : (j : ℕ) (s : TxLock) → j ≢ index → get_elem? locks j ≡ some s → s.held ≡ false

module _ (fd : ℕ) (positive : is_positive fd ≡ true) where
  -- With the pthread calls successful, no lock held and a slot for the descriptor, which is positive,
  -- the lock succeeds and leaves the descriptor's lock held, and no other.
  pub mc_lock-HeldBy :
      (w : World)
      → w.pthreads ≡ []
      → NoneHeld w.tx_locks
      → HasRoom fd w.tx_locks
      → (locks : List TxLock) × (mc_lock_fd_transaction fd w
          ≡ some (success, record w { tx_locks = locks }))
        × HeldBy fd locks
  unfolding mc_lock_fd_transaction
  mc_lock-HeldBy w e idle room =
      let (locks, slot) = get_or_create-Slot fd w e idle room in
      let i = slot.index in
      let bound : i < length locks = get_elem?-lt locks i slot.there in
      (
        set locks i (record slot.slot { held = true }),
        rw (positive, if◌then◌else◌)
            (>>=-eq_some (mc_get_or_create_fd_tx_mutex_locked fd) _ slot.returns
              ∙ mc_mutex_lock-eq i slot.slot (record w { tx_locks = locks }) e slot.there
                  (slot.idle i slot.slot slot.there)),
        record {
          index = i;
          slot = record slot.slot { held = true };
          owned =
              owned_set fd locks i slot.slot (record slot.slot { held = true }) slot.owned
                slot.there (λ o. o);
          there = get_elem?-set_self locks i _ bound;
          held = refl;
          others = λ j s ne at.
              slot.idle j s (sym (get_elem?-set_ne locks i j _ (λ q. ne (sym q))) ∙ at);
        },
      )

  -- From a table in which the lock of the descriptor, which is positive, is held and no other, where the
  -- pthread calls succeed, the unlock succeeds, and no lock is held any more; the descriptor has room
  -- in the table.
  pub mc_unlock-NoneHeld :
      (w : World)
      → w.pthreads ≡ []
      → HeldBy fd w.tx_locks
      → (locks : List TxLock) × (mc_unlock_fd_transaction fd w
          ≡ some (success, record w { tx_locks = locks }))
        × NoneHeld locks
        × HasRoom fd locks
  unfolding mc_unlock_fd_transaction
  mc_unlock-NoneHeld w e h =
      let i = h.index in
      let s = h.slot in
      let bound : i < length w.tx_locks = get_elem?-lt w.tx_locks i h.there in
      (
        set w.tx_locks i (record s { held = false }),
        ground (arith, h.owned, mc_mutex_unlock-eq i s w e h.there),
        λ j u at_j. elim (ℕ_discrete i j) [
          | yes same ↦
              ap (λ (r : TxLock). r.held)
                (some-injective _ _ (
                  sym at_j
                  ∙ ap (get_elem? (set w.tx_locks i (record s { held = false }))) (sym same)
                  ∙ get_elem?-set_self w.tx_locks i _ bound))
          | no ne ↦
              h.others j u (λ q. ne (sym q)) (sym (get_elem?-set_ne w.tx_locks i j _ ne) ∙ at_j)
        ],
        (
          i,
          record s { held = false },
          get_elem?-set_self w.tx_locks i _ bound,
          ground (arith, owned_slot fd w.tx_locks i s h.owned h.there),
        ),
      )

-- A table in which every slot is taken by another descriptor refuses the lock of a positive
-- descriptor: the result is the general error, and nothing changes.
pub mc_lock_full :
    (fd : ℕ) (w : World)
    → is_positive fd ≡ true
    → ((j : ℕ) (s : TxLock) → get_elem? w.tx_locks j ≡ some s → (s.in_use ≡ true) × (s.fd ≢ fd))
    → mc_lock_fd_transaction fd w ≡ some (error_failed, w)
unfolding mc_lock_fd_transaction mc_get_or_create_fd_tx_mutex_locked
mc_lock_full fd w positive taken_by = ground (arith, positive, no_owner, no_free)
  where
    no_owner : find_index? (owns fd) w.tx_locks ≡ none
    no_owner = elim (Option-cases (find_index? (owns fd) w.tx_locks)) [
      | inl n ↦ n
      | inr (i, e) ↦
          let (s, at, passes, before) = find_index?-some (owns fd) w.tx_locks i e in
          absurd (ground (arith, taken_by i s at))
    ]

    no_free : find_index? is_free w.tx_locks ≡ none
    no_free = elim (Option-cases (find_index? is_free w.tx_locks)) [
      | inl n ↦ n
      | inr (i, e) ↦
          let (s, at, passes, before) = find_index?-some is_free w.tx_locks i e in
          absurd (ground (arith, taken_by i s at))
    ]
