-- ===== src/Connection/Steps.antt =====
-- The steps of connecting and disconnecting.
use melsec_mc_net.Prelude.{
  ℕ, ◌==◌, if◌then◌else◌, ◌≡◌, ◌≢◌, refl, ap, ◌∙◌, Bool, true, false, some, List, [], ◌∷◌, arith,
  Bool-cases, Option-cases, inl, inr, All,
}
use melsec_mc_net.Machine.{
  World, >>=-eq_some, setsockopt, setsockopt-returns, ◌>>=◌, M, ConfigSlot, CommConfig, ErrorCode,
  success, error_failed,
}
use melsec_mc_net.Socket.{is_positive}
use melsec_mc_net.ThreadSafe.{mc_thread_safe_init, succeeded}
use melsec_mc_net.ThreadSafe.Laws.{mc_thread_safe_init-returns}
use melsec_mc_net.Settings.{add_connection_config, mc_set_comm_config, mc_remove_connection_config}
use melsec_mc_net.Connection.{
  without, mc_close_tcp_socket, configure, ensure_thread_safe, mc_disconnect, mc_ascii_disconnect,
}

pub without-absent : (fd : ℕ) (fds : List ℕ) → All (λ n. n ≢ fd) fds → without fd fds ≡ fds
unfolding without
without-absent fd [] absent = refl
without-absent fd (n ∷ fds) (differs, absent) =
    let other : (n == fd) ≡ false = ground (arith, differs) in
    rw (other, if◌then◌else◌) (ap (λ (ns : List ℕ). n ∷ ns) (without-absent fd fds absent))

pub without-first : (fd : ℕ) (fds : List ℕ) → All (λ n. n ≢ fd) fds → without fd (fd ∷ fds) ≡ fds
unfolding without
without-first fd fds absent =
    let same : (fd == fd) ≡ true = ground arith in
    rw (same, if◌then◌else◌) (without-absent fd fds absent)

-- The state once the mutex is made and the network address set.
abbrev pub addressed : ℕ → ℕ → World → World
addressed net station w = record w {
  thread_safe_initialized = true;
  network_address = record { network_number = net; station_number = station };
}

pub ensured :
    (w : World)
    → w.pthreads ≡ []
    → ensure_thread_safe w ≡ some (true, record w { thread_safe_initialized = true })
unfolding ensure_thread_safe
ensured w threads =
    let make : M Bool = mc_thread_safe_init >>= λ code v.
    some (succeeded code, record v { thread_safe_initialized = succeeded code }) in
    elim (Bool-cases w.thread_safe_initialized) [
      | inl made ↦ rw (made, if◌then◌else◌) refl
      | inr new ↦
          ap (λ (b : Bool). if b then some (true, w) else make w) new
          ∙ >>=-eq_some mc_thread_safe_init _ (mc_thread_safe_init-returns w threads)
    ]

-- The settings of a descriptor are kept, if there is room for them, and nothing else changes.
set_config :
    (fd : ℕ) (config : CommConfig) (w : World)
    → is_positive fd ≡ true
    → w.sockopts ≡ []
    → (code : ErrorCode) × (slots : List ConfigSlot) × (mc_set_comm_config fd config w
        ≡ some (code, record w { configs = slots }))
unfolding mc_set_comm_config
set_config fd config w positive options =
    elim (Option-cases (add_connection_config fd config w.configs)) [
      | inl full ↦ (error_failed, w.configs, rw (positive, if◌then◌else◌) (rw full refl))
      | inr ((i, slots), added) ↦
          let v : World = record w { configs = slots } in
          let set : setsockopt v ≡ some (true, v) = setsockopt-returns v options in
          (
            success,
            slots,
            rw (positive, if◌then◌else◌)
                (rw added (>>=-eq_some setsockopt _ set ∙ >>=-eq_some setsockopt _ set)),
          )
    ]

pub closed :
    (fd : ℕ) (w : World)
    → is_positive fd ≡ true
    → mc_close_tcp_socket fd w
      ≡ some (
        tt,
        record w {
          configs = mc_remove_connection_config fd w.configs;
          opened = without fd w.opened;
        },
      )
unfolding mc_close_tcp_socket
closed fd w positive = rw (positive, if◌then◌else◌) refl

pub disconnected :
    (fd : ℕ) (w : World)
    → is_positive fd ≡ true
    → mc_disconnect fd w
      ≡ some (
        true,
        record w {
          configs = mc_remove_connection_config fd w.configs;
          opened = without fd w.opened;
        },
      )
unfolding mc_disconnect
disconnected fd w positive =
    rw (positive, if◌then◌else◌) (>>=-eq_some (mc_close_tcp_socket fd) _ (closed fd w positive))

-- The two protocols end a connection in the same way.
pub mc_ascii_disconnect-eq : (fd : ℕ) (w : World) → mc_ascii_disconnect fd w ≡ mc_disconnect fd w
unfolding mc_ascii_disconnect mc_disconnect
mc_ascii_disconnect-eq fd w = refl

pub configured :
    (fd : ℕ) (config : CommConfig) (w : World)
    → is_positive fd ≡ true
    → w.sockopts ≡ []
    → (slots : List ConfigSlot) × (configure fd config w
        ≡ some (some fd, record w { configs = slots }))
unfolding configure
configured fd config w positive options =
    let (code, slots, returns) = set_config fd config w positive options in
    (
      slots,
      >>=-eq_some setsockopt _ (setsockopt-returns w options)
          ∙ >>=-eq_some setsockopt _ (setsockopt-returns w options)
          ∙ >>=-eq_some (mc_set_comm_config fd config) _ returns,
    )
