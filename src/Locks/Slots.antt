-- ===== src/Locks/Slots.antt =====
-- The table of transaction locks: which slot a descriptor gets.
use melsec_mc_net.Prelude.{
  ℕ, ◌<◌, ◌||◌, ◌≡◌, ap, ◌∙◌, true, false, none, some, List, [], arith, length, get_elem?, set,
  find_index?, inl, inr, Option-cases, get_elem?-set_self, get_elem?-lt, get_elem?-set_cases,
}
use melsec_mc_net.Prelude.Find.{
  find_index?-some, find_index?-none, find_index?-eq_some, find_index?-set,
}
use melsec_mc_net.Machine.{World, TxLock, pthread}
use melsec_mc_net.Locks.{owns, is_free, claim, mc_get_or_create_fd_tx_mutex_locked}
use melsec_mc_net.ThreadSafe.{put_lock, mc_mutex_init}

-- No lock of the table is held.
abbrev pub NoneHeld : List TxLock → Type 0
NoneHeld locks = (j : ℕ) (s : TxLock) → get_elem? locks j ≡ some s → s.held ≡ false

-- The table has a slot of the descriptor, or a free one.
abbrev pub HasRoom : ℕ → List TxLock → Type 0
HasRoom fd locks =
    (j : ℕ) × (s : TxLock) × (get_elem? locks j ≡ some s) × ((owns fd s || is_free s) ≡ true)

-- The slot that a descriptor has once its lock has been asked for.
pub record Slot (fd : ℕ) (w : World) (v : World) : Type 0 where
  pub index : ℕ
  pub slot : TxLock
  pub returns : mc_get_or_create_fd_tx_mutex_locked fd w ≡ some (some index, v)
  pub owned : find_index? (owns fd) v.tx_locks ≡ some index
  pub there : get_elem? v.tx_locks index ≡ some slot
  pub idle : NoneHeld v.tx_locks

owns_claimed :
    (fd : ℕ) (s : TxLock)
    → owns fd (record s { fd = fd; in_use = true; tx_mutex_initialized = true }) ≡ true
owns_claimed fd s = ground arith

abbrev pub claimed : ℕ → TxLock → TxLock
claimed fd s = record s { fd = fd; in_use = true; tx_mutex_initialized = true }

pub claim-eq :
    (fd i : ℕ) (s : TxLock) (w : World)
    → w.pthreads ≡ []
    → claim fd i s w ≡ some (some i, put_lock i (claimed fd s) w)
unfolding claim mc_mutex_init pthread
claim-eq fd i s w e = ground arith

pub known :
    (fd : ℕ) (w : World) (i : ℕ)
    → find_index? (owns fd) w.tx_locks ≡ some i
    → mc_get_or_create_fd_tx_mutex_locked fd w ≡ some (some i, w)
unfolding mc_get_or_create_fd_tx_mutex_locked
known fd w i old = rw (old, mc_get_or_create_fd_tx_mutex_locked)

pub claims :
    (fd : ℕ) (w : World) (i : ℕ) (s : TxLock)
    → find_index? (owns fd) w.tx_locks ≡ none
    → find_index? is_free w.tx_locks ≡ some i
    → get_elem? w.tx_locks i ≡ some s
    → mc_get_or_create_fd_tx_mutex_locked fd w ≡ claim fd i s w
unfolding mc_get_or_create_fd_tx_mutex_locked
claims fd w i s new free there = ground (arith, new, free, there)

pub get_or_create-Slot :
    (fd : ℕ) (w : World)
    → w.pthreads ≡ []
    → NoneHeld w.tx_locks
    → HasRoom fd w.tx_locks
    → (locks : List TxLock) × Slot fd w (record w { tx_locks = locks })
unfolding mc_get_or_create_fd_tx_mutex_locked
get_or_create-Slot fd w e idle (j, s, at, room) =
    elim (Option-cases (find_index? (owns fd) w.tx_locks)) [
      | inl new ↦
          let (i, free) = find_index?-eq_some is_free w.tx_locks j s at (not_owned new) in
          let (t, there, unused, before) = find_index?-some is_free w.tx_locks i free in
          let bound : i < length w.tx_locks = get_elem?-lt w.tx_locks i there in
          (
            set w.tx_locks i (claimed fd t),
            record {
              index = i;
              slot = claimed fd t;
              returns = claims fd w i t new free there ∙ claim-eq fd i t w e;
              owned =
                  find_index?-set (owns fd) w.tx_locks i (claimed fd t) (owns_claimed fd t) bound
                    (λ k y lt e. find_index?-none (owns fd) w.tx_locks new k y e);
              there = get_elem?-set_self w.tx_locks i (claimed fd t) bound;
              idle = idle_set i t there;
            },
          )
      | inr (i, old) ↦
          let (t, there, used, before) = find_index?-some (owns fd) w.tx_locks i old in
          (
            w.tx_locks,
            record {
              index = i;
              slot = t;
              returns = known fd w i old;
              owned = old;
              there = there;
              idle = idle;
            },
          )
    ]
  where
    not_owned : find_index? (owns fd) w.tx_locks ≡ none → is_free s ≡ true
    not_owned new = ground (arith, find_index?-none (owns fd) w.tx_locks new j s at)

    idle_set :
        (i : ℕ) (t : TxLock)
        → get_elem? w.tx_locks i ≡ some t
        → NoneHeld (set w.tx_locks i (claimed fd t))
    idle_set i t there k u at_k = elim (get_elem?-set_cases w.tx_locks i k (claimed fd t) u at_k) [
      | inl same ↦ ap (λ (r : TxLock). r.held) same ∙ idle i t there
      | inr old ↦ idle k u old
    ]
