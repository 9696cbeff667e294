-- ===== src/Threads/Advance.antt =====
-- The steps of a thread that branch, one equation for each branch.
use melsec_mc_net.Prelude.{ℕ, ◌≡◌, refl, true, false, none, some, arith, get_elem?, find_index?}
use melsec_mc_net.Machine.{TxLock}
use melsec_mc_net.Locks.{owns}
use melsec_mc_net.Threads.Table.{marked}
use melsec_mc_net.Threads.{
  waiting, working, sending, writing, Shared, idle, entering, looking, creating, returning, locking,
  inside, leaving, seeking, unlocking, found, Choice, advance,
}

module _ (c : Choice) (m : Shared) where
  pub advance-waiting_free :
      m.guarded ≡ false → advance c m waiting ≡ some (record m { guarded = true }, working)
  unfolding advance
  advance-waiting_free e = ground (arith, e)

  pub advance-waiting_held : m.guarded ≡ true → advance c m waiting ≡ none
  unfolding advance
  advance-waiting_held e = ground (arith, e)

module _ (c : Choice) (m : Shared) (fd : ℕ) where
  pub advance-sending_free :
      m.guarded ≡ false → advance c m (sending fd) ≡ some (record m { guarded = true }, writing fd)
  unfolding advance
  advance-sending_free e = ground (arith, e)

  pub advance-sending_held : m.guarded ≡ true → advance c m (sending fd) ≡ none
  unfolding advance
  advance-sending_held e = ground (arith, e)

  pub advance-entering_free :
      m.guarded ≡ false → advance c m (entering fd) ≡ some (record m { guarded = true }, looking fd)
  unfolding advance
  advance-entering_free e = ground (arith, e)

  pub advance-entering_held : m.guarded ≡ true → advance c m (entering fd) ≡ none
  unfolding advance
  advance-entering_held e = ground (arith, e)

  pub advance-leaving_free :
      m.guarded ≡ false → advance c m (leaving fd) ≡ some (record m { guarded = true }, seeking fd)
  unfolding advance
  advance-leaving_free e = ground (arith, e)

  pub advance-leaving_held : m.guarded ≡ true → advance c m (leaving fd) ≡ none
  unfolding advance
  advance-leaving_held e = ground (arith, e)

  pub advance-looking_known :
      (i : ℕ)
      → find_index? (owns fd) m.locks ≡ some i
      → advance c m (looking fd) ≡ some (m, returning fd (some i))
  unfolding advance
  advance-looking_known i e = ground (arith, e)

  pub advance-looking_new :
      find_index? (owns fd) m.locks ≡ none → advance c m (looking fd) ≡ some (m, creating fd)
  unfolding advance
  advance-looking_new e = ground (arith, e)

  pub advance-seeking :
      advance c m (seeking fd) ≡ some (m, found fd (find_index? (owns fd) m.locks))
  unfolding advance
  advance-seeking = refl

  pub advance-locking_free :
      (i : ℕ) (s : TxLock)
      → get_elem? m.locks i ≡ some s
      → s.held ≡ false
      → advance c m (locking fd i) ≡ some (record m { locks = marked m.locks i s true }, inside fd)
  unfolding advance
  advance-locking_free i s at e = ground arith

  pub advance-locking_held :
      (i : ℕ) (s : TxLock)
      → get_elem? m.locks i ≡ some s
      → s.held ≡ true
      → advance c m (locking fd i) ≡ none
  unfolding advance
  advance-locking_held i s at e = ground arith

  pub advance-unlocking :
      (i : ℕ) (s : TxLock)
      → get_elem? m.locks i ≡ some s
      → advance c m (unlocking fd i) ≡ some (record m { locks = marked m.locks i s false }, idle)
  unfolding advance
  advance-unlocking i s at = ground arith
