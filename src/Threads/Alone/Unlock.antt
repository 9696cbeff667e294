-- ===== src/Threads/Alone/Unlock.antt =====
-- The unlock of a thread that runs alone.
use mathlib.Core.Path.{subst}
use mathlib.Core.Option.{some-injective, none-ne-some}
use melsec_mc_net.Prelude.{
  ℕ, ◌≡◌, inl, inr, refl, sym, ap, ◌∙◌, true, Option, none, some, List, [], Option-cases, get_elem?,
  find_index?,
}
use melsec_mc_net.Machine.{World, TxLock, ErrorCode, error_failed}
use melsec_mc_net.Socket.{is_positive}
use melsec_mc_net.Locks.{owns, mc_unlock_fd_transaction}
use melsec_mc_net.ThreadSafe.Laws.{mc_mutex_unlock-eq}
use melsec_mc_net.Threads.Advance.{advance-leaving_free, advance-seeking, advance-unlocking}
use melsec_mc_net.Threads.{Shared, Pc, idle, leaving, found, unlocking, Choice, advance}
use melsec_mc_net.Threads.Alone.{Alone, done, step, free, guarded}
use melsec_mc_net.ThreadSafe.{mc_mutex_unlock}

mc_mutex_unlock-missing :
    (i : ℕ) (w : World) → get_elem? w.tx_locks i ≡ none → mc_mutex_unlock (some i) w ≡ none
unfolding mc_mutex_unlock
mc_mutex_unlock-missing i w e = rw (e, mc_mutex_unlock)

mc_unlock-of_slot :
    (fd i : ℕ) (w : World)
    → is_positive fd ≡ true
    → find_index? (owns fd) w.tx_locks ≡ some i
    → mc_unlock_fd_transaction fd w ≡ mc_mutex_unlock (some i) w
unfolding mc_unlock_fd_transaction
mc_unlock-of_slot fd i w pos e = rw (pos, mc_unlock_fd_transaction, e) refl

mc_unlock-of_null :
    (fd : ℕ) (w : World)
    → is_positive fd ≡ true
    → find_index? (owns fd) w.tx_locks ≡ none
    → mc_unlock_fd_transaction fd w ≡ some (error_failed, w)
unfolding mc_unlock_fd_transaction
mc_unlock-of_null fd w pos e = rw (pos, mc_unlock_fd_transaction, e) refl

abbrev Unlocks : Choice → Shared → Pc → ErrorCode × World → Type 0
Unlocks c m p (code, v) = Alone c m p (free v.tx_locks) idle

slot_left :
    (c : Choice) (fd i : ℕ) (w : World) (t : ErrorCode × World)
    → w.pthreads ≡ []
    → mc_mutex_unlock (some i) w ≡ some t
    → Unlocks c (free w.tx_locks) (unlocking fd i) t
slot_left c fd i w t e h = elim (Option-cases (get_elem? w.tx_locks i)) [
  | inl missing ↦ absurd (none-ne-some _ (sym (mc_mutex_unlock-missing i w missing) ∙ h))
  | inr (s, at) ↦
      subst (Unlocks c (free w.tx_locks) (unlocking fd i))
        (some-injective _ _ (sym (mc_mutex_unlock-eq i s w e at) ∙ h))
        (step (advance-unlocking c (free w.tx_locks) fd i s at) done)
]

found_null :
    (c : Choice) (fd : ℕ) (locks : List TxLock)
    → advance c (guarded locks) (found fd none) ≡ some (free locks, idle)
unfolding advance
found_null c fd locks = refl

found_slot :
    (c : Choice) (fd i : ℕ) (locks : List TxLock)
    → advance c (guarded locks) (found fd (some i)) ≡ some (free locks, unlocking fd i)
unfolding advance
found_slot c fd i locks = refl

module _ (c : Choice) (fd : ℕ) (w : World) (positive : is_positive fd ≡ true)
    (e : w.pthreads ≡ []) where
  sought :
      (o : Option ℕ)
      → find_index? (owns fd) w.tx_locks ≡ o
      → (t : ErrorCode × World) → Unlocks c (guarded w.tx_locks) (found fd o) t
      → Unlocks c (free w.tx_locks) (leaving fd) t
  sought o same t rest = step (advance-leaving_free c (free w.tx_locks) fd refl) (
      step
        (advance-seeking c (guarded w.tx_locks) fd
          ∙ ap (λ r. some (guarded w.tx_locks, found fd r)) same)
        rest)

  -- Where the pthread functions succeed, and `mc_unlock_fd_transaction`, called by the only thread on a
  -- positive descriptor, returns: a thread that runs alone makes its way through the steps of the call
  -- without waiting, out of it, and leaves the same table, with `g_connection_mutex` not held.
  pub mc_unlock_alone :
      (code : ErrorCode) (v : World)
      → mc_unlock_fd_transaction fd w ≡ some (code, v)
      → Alone c (free w.tx_locks) (leaving fd) (free v.tx_locks) idle
  mc_unlock_alone code v h = elim (Option-cases (find_index? (owns fd) w.tx_locks)) [
    | inr (i, old) ↦
        sought (some i) old (code, v)
          (step (found_slot c fd i w.tx_locks)
            (slot_left c fd i w (code, v) e (sym (mc_unlock-of_slot fd i w positive old) ∙ h)))
    | inl new ↦
        subst (Unlocks c (free w.tx_locks) (leaving fd))
          (some-injective _ _ (sym (mc_unlock-of_null fd w positive new) ∙ h))
          (sought none new (error_failed, w) (step (found_null c fd w.tx_locks) done))
  ]
