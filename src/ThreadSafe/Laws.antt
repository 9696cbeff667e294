-- ===== src/ThreadSafe/Laws.antt =====
-- What the functions on mutexes do where the pthread functions succeed.
use melsec_mc_net.Prelude.{
  ℕ, ◌≡◌, true, false, some, [], arith, get_elem?, if◌then◌else◌, inl, inr, Bool-cases,
}
use melsec_mc_net.Machine.{
  World, success, error_failed, TxLock, pthread, pthread-returns, >>=-eq_some,
}
use melsec_mc_net.ThreadSafe.{
  put_lock, mc_mutex_init, mc_mutex_lock, mc_mutex_trylock, mc_mutex_unlock, mc_thread_safe_init,
}

pub mc_thread_safe_init-returns :
    (w : World) → w.pthreads ≡ [] → mc_thread_safe_init w ≡ some (success, w)
unfolding mc_thread_safe_init mc_mutex_init
mc_thread_safe_init-returns w e = >>=-eq_some pthread _ (pthread-returns w e)

module _ (i : ℕ) (s : TxLock) (w : World) (e : w.pthreads ≡ [])
    (at : get_elem? w.tx_locks i ≡ some s) where
  pub mc_mutex_lock-eq :
      s.held ≡ false
      → mc_mutex_lock (some i) w ≡ some (success, put_lock i (record s { held = true }) w)
  unfolding mc_mutex_lock pthread
  mc_mutex_lock-eq idle = ground arith

  pub mc_mutex_unlock-eq :
      mc_mutex_unlock (some i) w ≡ some (success, put_lock i (record s { held = false }) w)
  unfolding mc_mutex_unlock pthread
  mc_mutex_unlock-eq = ground arith

  -- Where the pthread functions succeed, `mc_mutex_trylock` always returns: it fails and changes nothing
  -- if the mutex is held, and does what `mc_mutex_lock` does if it is not.
  pub mc_mutex_trylock-eq :
      mc_mutex_trylock (some i) w
      ≡ (if s.held then some (error_failed, w) else mc_mutex_lock (some i) w)
  unfolding mc_mutex_trylock mc_mutex_lock
  mc_mutex_trylock-eq = elim (Bool-cases s.held) [
    | inl held ↦ ground arith
    | inr idle ↦ ground arith
  ]
