-- ===== src/Locks.antt =====
-- melsec_mc_net/melsec_mc_bin.c: the table of transaction locks, one for each descriptor.
-- The lock on `g_connection_mutex` around each search is not part of this sequential reading.
pub mod Slots
pub mod Table
use melsec_mc_net.Prelude.{
  ℕ, ◌==◌, ◌&&◌, not, if◌then◌else◌, Bool, true, false, Option, none, some, List, [], ◌∷◌,
  get_elem?, set, find_index?,
}
use melsec_mc_net.Machine.{
  World, M, ◌>>=◌, ◌>>◌, pure, undefined, ErrorCode, success, error_failed, invalid_parameter,
  TxLock, pthread,
}
use melsec_mc_net.ThreadSafe.{put_lock, mc_mutex_init, mc_mutex_lock, mc_mutex_unlock, succeeded}
use melsec_mc_net.Socket.{is_positive}

abbrev pub max_tx_connections : ℕ
max_tx_connections = 64

abbrev pub owns : ℕ → TxLock → Bool
owns fd s = s.in_use && s.fd == fd

abbrev pub is_free : TxLock → Bool
is_free s = not s.in_use

-- A free slot is taken; its mutex is initialised the first time, and where that fails the slot stays
-- free.
unfoldable pub claim : ℕ → ℕ → TxLock → M (Option ℕ)
claim fd i s w =
    if s.tx_mutex_initialized
    then some (some i, put_lock i (record s { fd = fd; in_use = true }) w)
    else (do
      code ← mc_mutex_init true
      λ v.
          let ok = succeeded code in
          some (
            if ok then some i else none,
            put_lock i (record s { fd = fd; in_use = ok; tx_mutex_initialized = ok }) v,
          ))
        w

-- The index of the lock, or `none` for NULL.
unfoldable pub mc_get_or_create_fd_tx_mutex_locked : ℕ → M (Option ℕ)
mc_get_or_create_fd_tx_mutex_locked fd w = elim (find_index? (owns fd) w.tx_locks) [
  | some i ↦ some (some i, w)
  | none ↦ elim (find_index? is_free w.tx_locks) [
    | none ↦ some (none, w)
    | some i ↦ elim (get_elem? w.tx_locks i) [ none ↦ some (none, w) | some s ↦ claim fd i s w ]
  ]
]

unfoldable pub mc_lock_fd_transaction : ℕ → M ErrorCode
mc_lock_fd_transaction fd = if not (is_positive fd) then pure invalid_parameter else do
  tx_mutex ← mc_get_or_create_fd_tx_mutex_locked fd
  elim tx_mutex [ none ↦ pure error_failed | some i ↦ mc_mutex_lock (some i) ]

unfoldable pub mc_unlock_fd_transaction : ℕ → M ErrorCode
mc_unlock_fd_transaction fd w =
    if not (is_positive fd)
    then some (invalid_parameter, w)
    else elim (find_index? (owns fd) w.tx_locks) [
      | none ↦ some (error_failed, w)
      | some i ↦ mc_mutex_unlock (some i) w
    ]
