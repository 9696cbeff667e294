-- ===== src/Threads/Alone.antt =====
-- A thread that runs alone does what `Locks` says of the calls in sequence.
pub mod Unlock
use mathlib.Core.Path.{subst}
use mathlib.Core.Option.{some-injective, none-ne-some}
use melsec_mc_net.Prelude.{
  ℕ, ◌<◌, ◌≡◌, inl, inr, refl, sym, ap, ◌∙◌, Bool, true, false, not, Option, none, some, List, [],
  arith, Bool-cases, Option-cases, get_elem?, find_index?, zero, suc, set, ◌||◌, if◌then◌else◌,
}
use melsec_mc_net.Prelude.Find.{find_index?-some}
use melsec_mc_net.Machine.{World, TxLock, ErrorCode, success, error_failed, pthread, >>=-eq_some}
use melsec_mc_net.Socket.{is_positive}
use melsec_mc_net.Locks.{
  owns, is_free, mc_get_or_create_fd_tx_mutex_locked, mc_lock_fd_transaction,
  mc_unlock_fd_transaction,
}
use melsec_mc_net.ThreadSafe.Laws.{mc_mutex_lock-eq, mc_mutex_unlock-eq}
use melsec_mc_net.Locks.Slots.{known, claims, claim-eq, claimed}
use melsec_mc_net.Threads.Table.{create-full, create-free}
use melsec_mc_net.Threads.Advance.{
  advance-entering_free, advance-leaving_free, advance-looking_known, advance-looking_new,
  advance-seeking, advance-locking_free, advance-unlocking,
}
use melsec_mc_net.Threads.{
  Shared, Pc, idle, entering, looking, creating, returning, locking, inside, leaving, seeking,
  found, unlocking, Choice, advance,
}
use melsec_mc_net.ThreadSafe.{put_lock, mc_mutex_lock, mc_mutex_unlock}

-- The state after any number of steps of one thread, none of which waits.
pub data Alone (c : Choice) : Shared → Pc → Shared → Pc → Type 0 where
  done : {m : Shared} {p : Pc} → Alone c m p m p
  step :
      {m m' m'' : Shared} {p p' p'' : Pc}
      → advance c m p ≡ some (m', p')
      → Alone c m' p' m'' p''
      → Alone c m p m'' p''

-- Where a thread goes on after `mc_lock_fd_transaction`.
abbrev pub after_lock : ErrorCode → ℕ → Pc
after_lock success fd = inside fd
after_lock _ fd = idle

abbrev pub free : List TxLock → Shared
free locks = record { locks = locks; guarded = false }

abbrev pub guarded : List TxLock → Shared
guarded locks = record { locks = locks; guarded = true }

mc_mutex_lock-missing :
    (i : ℕ) (w : World) → get_elem? w.tx_locks i ≡ none → mc_mutex_lock (some i) w ≡ none
unfolding mc_mutex_lock
mc_mutex_lock-missing i w e = rw (e, mc_mutex_lock)

mc_mutex_lock-held :
    (i : ℕ) (s : TxLock) (w : World)
    → get_elem? w.tx_locks i ≡ some s
    → s.held ≡ true
    → mc_mutex_lock (some i) w ≡ none
unfolding mc_mutex_lock
mc_mutex_lock-held i s w at e = ground arith

mc_lock-of_slot :
    (fd i : ℕ) (w v : World)
    → is_positive fd ≡ true
    → mc_get_or_create_fd_tx_mutex_locked fd w ≡ some (some i, v)
    → mc_lock_fd_transaction fd w ≡ mc_mutex_lock (some i) v
unfolding mc_lock_fd_transaction
mc_lock-of_slot fd i w v pos e =
    rw (pos, mc_lock_fd_transaction, if◌then◌else◌, not)
      (>>=-eq_some (mc_get_or_create_fd_tx_mutex_locked fd) _ e)

mc_lock-of_null :
    (fd : ℕ) (w : World)
    → is_positive fd ≡ true
    → mc_get_or_create_fd_tx_mutex_locked fd w ≡ some (none, w)
    → mc_lock_fd_transaction fd w ≡ some (error_failed, w)
unfolding mc_lock_fd_transaction
mc_lock-of_null fd w pos e =
    rw (pos, mc_lock_fd_transaction, if◌then◌else◌, not)
      (>>=-eq_some (mc_get_or_create_fd_tx_mutex_locked fd) _ e)

full_table :
    (fd : ℕ) (w : World)
    → find_index? (owns fd) w.tx_locks ≡ none
    → find_index? is_free w.tx_locks ≡ none
    → mc_get_or_create_fd_tx_mutex_locked fd w ≡ some (none, w)
unfolding mc_get_or_create_fd_tx_mutex_locked
full_table fd w new full = ground (arith, new, full)

-- What the thread is to reach, for each result of the call.
abbrev Locks : Choice → ℕ → Shared → Pc → ErrorCode × World → Type 0
Locks c fd m p (code, v) = Alone c m p (free v.tx_locks) (after_lock code fd)

slot_entered :
    (c : Choice) (fd i : ℕ) (w : World) (t : ErrorCode × World)
    → w.pthreads ≡ []
    → mc_mutex_lock (some i) w ≡ some t
    → Locks c fd (free w.tx_locks) (locking fd i) t
slot_entered c fd i w t e h = elim (Option-cases (get_elem? w.tx_locks i)) [
  | inl missing ↦ absurd (none-ne-some _ (sym (mc_mutex_lock-missing i w missing) ∙ h))
  | inr (s, at) ↦ elim (Bool-cases s.held) [
    | inl held ↦ absurd (none-ne-some _ (sym (mc_mutex_lock-held i s w at held) ∙ h))
    | inr not_held ↦
        subst (Locks c fd (free w.tx_locks) (locking fd i))
          (some-injective _ _ (sym (mc_mutex_lock-eq i s w e at not_held) ∙ h))
          (step (advance-locking_free c (free w.tx_locks) fd i s at not_held) done)
  ]
]

returning_null :
    (c : Choice) (fd : ℕ) (locks : List TxLock)
    → advance c (guarded locks) (returning fd none) ≡ some (free locks, idle)
unfolding advance
returning_null c fd locks = refl

returning_slot :
    (c : Choice) (fd i : ℕ) (locks : List TxLock)
    → advance c (guarded locks) (returning fd (some i)) ≡ some (free locks, locking fd i)
unfolding advance
returning_slot c fd i locks = refl

module _ (c : Choice) (fd : ℕ) (w : World) (positive : is_positive fd ≡ true)
    (e : w.pthreads ≡ []) where
  -- A slot that is taken, its mutex initialised.
  created :
      c.initialises ≡ true
      → (i : ℕ) (s : TxLock) → find_index? is_free w.tx_locks ≡ some i
      → get_elem? w.tx_locks i ≡ some s
      → advance c (guarded w.tx_locks) (creating fd)
        ≡ some (guarded (put_lock i (claimed fd s) w).tx_locks, returning fd (some i))
  unfolding advance
  created ok i s free_slot at =
      ground (arith, create-free c.initialises fd w.tx_locks i s free_slot at)

  refused :
      find_index? is_free w.tx_locks ≡ none
      → advance c (guarded w.tx_locks) (creating fd) ≡ some (guarded w.tx_locks, returning fd none)
  unfolding advance
  refused full = ground (arith, create-full c.initialises fd w.tx_locks full)

  -- The first loop finds nothing, and the second one goes on.
  looked :
      find_index? (owns fd) w.tx_locks ≡ none
      → (t : ErrorCode × World) → Locks c fd (guarded w.tx_locks) (creating fd) t
      → Locks c fd (free w.tx_locks) (entering fd) t
  looked new t rest =
      step (advance-entering_free c (free w.tx_locks) fd refl)
        (step (advance-looking_new c (guarded w.tx_locks) fd new) rest)

  enters_full :
      find_index? (owns fd) w.tx_locks ≡ none
      → find_index? is_free w.tx_locks ≡ none
      → (t : ErrorCode × World) → mc_lock_fd_transaction fd w ≡ some t
      → Locks c fd (free w.tx_locks) (entering fd) t
  enters_full new full t h =
      subst (Locks c fd (free w.tx_locks) (entering fd))
        (some-injective _ _ (sym (mc_lock-of_null fd w positive (full_table fd w new full)) ∙ h))
        (looked new (error_failed, w)
          (step (refused full) (step (returning_null c fd w.tx_locks) done)))

  enters_known :
      (i : ℕ)
      → find_index? (owns fd) w.tx_locks ≡ some i
      → (t : ErrorCode × World) → mc_lock_fd_transaction fd w ≡ some t
      → Locks c fd (free w.tx_locks) (entering fd) t
  enters_known i old t h = step (advance-entering_free c (free w.tx_locks) fd refl) (
      step (advance-looking_known c (guarded w.tx_locks) fd i old) (
        step (returning_slot c fd i w.tx_locks) (
          slot_entered c fd i w t e
            (sym (mc_lock-of_slot fd i w w positive (known fd w i old)) ∙ h))))

  enters_new :
      c.initialises ≡ true
      → find_index? (owns fd) w.tx_locks ≡ none
      → (i : ℕ) (s : TxLock) → find_index? is_free w.tx_locks ≡ some i
      → get_elem? w.tx_locks i ≡ some s
      → (t : ErrorCode × World) → mc_lock_fd_transaction fd w ≡ some t
      → Locks c fd (free w.tx_locks) (entering fd) t
  enters_new ok new i s unused_slot at t h =
      let v : World = put_lock i (claimed fd s) w in
      looked new t (
        step (created ok i s unused_slot at) (
          step (returning_slot c fd i v.tx_locks) (
            slot_entered c fd i v t e (
              sym (
                mc_lock-of_slot fd i w v positive
                  (claims fd w i s new unused_slot at ∙ claim-eq fd i s w e))
              ∙ h))))

  -- Where the pthread functions succeed, and `mc_lock_fd_transaction`, called by the only thread on a
  -- positive descriptor, returns: a thread that runs alone makes its way through the steps of the call
  -- without waiting, to the transaction if the code is success and out of the call otherwise, and
  -- leaves the same table, with `g_connection_mutex` not held.
  pub mc_lock_alone :
      c.initialises ≡ true
      → (code : ErrorCode) (v : World) → mc_lock_fd_transaction fd w ≡ some (code, v)
      → Alone c (free w.tx_locks) (entering fd) (free v.tx_locks) (after_lock code fd)
  mc_lock_alone ok code v h = elim (Option-cases (find_index? (owns fd) w.tx_locks)) [
    | inr (i, old) ↦ enters_known i old (code, v) h
    | inl new ↦ elim (Option-cases (find_index? is_free w.tx_locks)) [
      | inl full ↦ enters_full new full (code, v) h
      | inr (i, unused_slot) ↦
          let (s, at, passes, before) = find_index?-some is_free w.tx_locks i unused_slot in
          enters_new ok new i s unused_slot at (code, v) h
    ]
  ]
