-- ===== src/Connection/Opening.antt =====
-- What connecting and disconnecting leave behind.
use melsec_mc_net.Prelude.{
  ℕ, ◌%◌, ◌^◌, ◌<◌, ◌≤◌, ltb, ◌&&◌, if◌then◌else◌, ◌≡◌, ◌≢◌, refl, ap, ◌∙◌, true, false, some, none,
  List, [], ◌∷◌, arith, inl, inr, ◌⊎◌, All,
}
use melsec_mc_net.Machine.{World, >>=-eq_some, ◌>>=◌, pure, NetworkAddress, Dial}
use melsec_mc_net.Socket.{is_positive}
use melsec_mc_net.Settings.{default_comm_config, mc_remove_connection_config}
use melsec_mc_net.Connection.{
  next_dial, open_descriptor, without, mc_close_tcp_socket, configure, dialled,
  mc_open_tcp_client_socket_with_config2, mc_open_tcp_client_socket, set_network_address,
  mc_ascii_connect, if_positive, mc_connect, mc_disconnect, mc_ascii_disconnect,
}
use melsec_mc_net.Connection.Steps.{
  addressed, without-first, ensured, disconnected, mc_ascii_disconnect-eq, configured,
}

module _ (ip : List ℕ) (port net station : ℕ) (w : World) (threads : w.pthreads ≡ [])
    (pos : is_positive port ≡ true) where
  -- Once the mutex is made and the address set, a socket is asked for.
  connect-open :
      mc_connect (some ip) port net station w
      ≡ (mc_open_tcp_client_socket (some ip) (port % 2 ^ 16) >>= λ opening.
            pure (if_positive opening))
          (addressed net station w)
  unfolding mc_connect mc_ascii_connect set_network_address
  connect-open = rw (pos, if◌then◌else◌) (rw (ensured w threads, ◌>>=◌) refl)

  -- A connection to a positive port whose low 16 bits are 0, or 2 ^ 15 or more, where the pthread functions
  -- succeed: no socket is asked for and the result is -1, but the network address of the library is the
  -- caller's from then on.
  pub mc_connect-port :
      (port % 2 ^ 16 ≡ 0) ⊎ (2 ^ 15 ≤ port % 2 ^ 16)
      → mc_connect (some ip) port net station w ≡ some (none, addressed net station w)
  unfolding mc_open_tcp_client_socket mc_open_tcp_client_socket_with_config2
  mc_connect-port out =
      let refused : (ltb 0 (port % 2 ^ 16) && ltb (port % 2 ^ 16) (2 ^ 15)) ≡ false =
        ground (arith, out) in
      connect-open ∙ rw (refused, if◌then◌else◌) refl

  module _ (dial : Dial) (later : List Dial) (next : w.dials ≡ dial ∷ later)
      (some_port : 0 < port % 2 ^ 16) (small_port : port % 2 ^ 16 < 2 ^ 15) where
    -- The state once the socket has been asked for.
    abbrev asked : World
    asked = record (addressed net station w) { dials = later }

    connect-dialled :
        mc_connect (some ip) port net station w
        ≡ (dialled default_comm_config dial >>= λ opening. pure (if_positive opening)) asked
    unfolding mc_open_tcp_client_socket mc_open_tcp_client_socket_with_config2 next_dial
    connect-dialled =
        let accepted : (ltb 0 (port % 2 ^ 16) && ltb (port % 2 ^ 16) (2 ^ 15)) ≡ true =
          ground (arith, some_port, small_port) in
        connect-open ∙ rw (accepted, if◌then◌else◌) (rw (next, ◌>>=◌) refl)

    -- A connection for which no socket is to be had: the result is -1 and no descriptor is open that was not,
    -- but the network address of the library is the new one.
    connect-no_socket :
        dial.descriptor ≡ none → mc_connect (some ip) port net station w ≡ some (none, asked)
    unfolding dialled
    connect-no_socket missing = connect-dialled ∙ rw missing refl

    -- The network address that the library has from then on.
    abbrev address : NetworkAddress
    address = record { network_number = net; station_number = station }

    module _ (fd : ℕ) (got : dial.descriptor ≡ some fd) (positive : is_positive fd ≡ true)
        (fresh : All (λ n. n ≢ fd) w.opened) where
      -- A connection that the peer does not answer: the result is -1.
      connect-unanswered :
          dial.answers ≡ false
          → mc_connect (some ip) port net station w
            ≡ some (none, record asked { configs = mc_remove_connection_config fd w.configs })
      unfolding dialled open_descriptor mc_close_tcp_socket
      connect-unanswered silent =
          connect-dialled
          ∙ rw (got, silent)
              (rw (positive, if◌then◌else◌)
                (ap
                  (λ (fds : List ℕ). some (
                    none,
                    record asked {
                      configs = mc_remove_connection_config fd w.configs;
                      opened = fds;
                    },
                  ))
                  (without-first fd w.opened fresh)))

      -- A connection to a positive port whose low 16 bits are positive and below 2 ^ 15, that is answered,
      -- and its end, where the pthread functions succeed, the socket's descriptor is positive and new and
      -- the options of sockets can be set: the result is the descriptor, it is open beside those that
      -- were, and the network address is the caller's; `mc_disconnect` then succeeds, as does
      -- `mc_ascii_disconnect`, and leaves exactly the descriptors open that were open before.
      pub mc_disconnect-mc_connect :
          dial.answers ≡ true
          → w.sockopts ≡ []
          → (v : World) × (u : World) × (mc_connect (some ip) port net station w
              ≡ some (some fd, v))
            × (v.opened ≡ fd ∷ w.opened)
            × (v.network_address ≡ address)
            × (mc_disconnect fd v ≡ some (true, u))
            × (mc_ascii_disconnect fd v ≡ some (true, u))
            × (u.opened ≡ w.opened)
      unfolding dialled open_descriptor
      mc_disconnect-mc_connect answered options =
          let start : World = record asked { opened = fd ∷ w.opened } in
          let (slots, returns) = configured fd default_comm_config start positive options in
          let v : World = record start { configs = slots } in
          (
            v,
            record v {
              configs = mc_remove_connection_config fd slots;
              opened = without fd (fd ∷ w.opened);
            },
            connect-dialled
                ∙ rw (got, answered)
                    (>>=-eq_some (configure fd default_comm_config) _ returns
                      ∙ rw (positive, if◌then◌else◌) refl),
            refl,
            refl,
            disconnected fd v positive,
            mc_ascii_disconnect-eq fd v ∙ disconnected fd v positive,
            without-first fd w.opened fresh,
          )

    -- A connection to a positive port whose low 16 bits are positive and below 2 ^ 15, where the pthread
    -- functions succeed, for which no socket is to be had, or whose peer does not answer on a positive
    -- and new descriptor: the result is -1 and exactly the descriptors are open that were, but the network
    -- address, which every connection sends, is the one of the failed call.
    pub mc_connect-fails :
        (dial.descriptor ≡ none)
          ⊎ ((fd : ℕ) × (dial.descriptor ≡ some fd)
              × (is_positive fd ≡ true)
              × All (λ n. n ≢ fd) w.opened
              × (dial.answers ≡ false))
        → (v : World) × (mc_connect (some ip) port net station w ≡ some (none, v))
          × (v.opened ≡ w.opened)
          × (v.network_address ≡ address)
    mc_connect-fails (inl missing) = (asked, connect-no_socket missing, refl, refl)
    mc_connect-fails (inr (fd, got, positive, fresh, silent)) =
        (_, connect-unanswered fd got positive fresh silent, refl, refl)
