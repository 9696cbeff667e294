-- ===== src/ThreadSafe.antt =====
-- melsec_mc_net/thread_safe.c: the functions on mutexes. The mutexes of the table of transaction locks
-- are given by their index, with `none` for NULL; whether one is held is kept in the table. Of a mutex
-- that is initialised or destroyed, only whether it is given plays a part.
pub mod Laws
use melsec_mc_net.Prelude.{ℕ, if◌then◌else◌, Bool, true, false, Option, none, some, get_elem?, set}
use melsec_mc_net.Machine.{
  World, M, ◌>>=◌, ◌>>◌, pure, ErrorCode, success, error_failed, invalid_parameter, TxLock, pthread,
}

abbrev pub put_lock : ℕ → TxLock → World → World
put_lock i s w = record w { tx_locks = set w.tx_locks i s }

abbrev code_of_result : Bool → ErrorCode
code_of_result ok = if ok then success else error_failed

unfoldable pub mc_mutex_init : Bool → M ErrorCode
mc_mutex_init given =
    if given then (do ok ← pthread; pure (code_of_result ok)) else pure invalid_parameter

unfoldable pub mc_mutex_destroy : Bool → M ErrorCode
mc_mutex_destroy given =
    if given then (do ok ← pthread; pure (code_of_result ok)) else pure invalid_parameter

-- `pthread_mutex_lock` on a mutex that its only thread holds never returns.
unfoldable pub mc_mutex_lock : Option ℕ → M ErrorCode
mc_mutex_lock none w = some (invalid_parameter, w)
mc_mutex_lock (some i) w = elim (get_elem? w.tx_locks i) [
  | none ↦ none
  | some s ↦
      if s.held
      then none
      else (do
        ok ← pthread
        if ok
            then (λ v. some (success, put_lock i (record s { held = true }) v))
            else pure error_failed)
          w
]

-- `pthread_mutex_trylock` on a mutex that is held fails.
unfoldable pub mc_mutex_trylock : Option ℕ → M ErrorCode
mc_mutex_trylock none w = some (invalid_parameter, w)
mc_mutex_trylock (some i) w = elim (get_elem? w.tx_locks i) [
  | none ↦ none
  | some s ↦
      if s.held
      then some (error_failed, w)
      else (do
        ok ← pthread
        if ok
            then (λ v. some (success, put_lock i (record s { held = true }) v))
            else pure error_failed)
          w
]

unfoldable pub mc_mutex_unlock : Option ℕ → M ErrorCode
mc_mutex_unlock none w = some (invalid_parameter, w)
mc_mutex_unlock (some i) w = elim (get_elem? w.tx_locks i) [
  | none ↦ none
  | some s ↦
      (do
        ok ← pthread
        if ok
            then (λ v. some (success, put_lock i (record s { held = false }) v))
            else pure error_failed)
        w
]

unfoldable pub mc_thread_safe_init : M ErrorCode
mc_thread_safe_init = mc_mutex_init true

unfoldable pub mc_thread_safe_cleanup : M ErrorCode
mc_thread_safe_cleanup = mc_mutex_destroy true

abbrev pub succeeded : ErrorCode → Bool
succeeded success = true
succeeded _ = false
