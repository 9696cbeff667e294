-- ===== src/Socket.antt =====
-- melsec_mc_net/socket.c: `mc_write_msg` and `mc_read_msg`;
-- melsec_mc_net/melsec_helper.c: `mc_try_send_msg`; melsec_mc_net/melsec_mc_bin.c: `mc_recv_exact`.
-- The lock on `g_connection_mutex` around a send is not part of this sequential reading.
pub mod Receive
pub mod Send
pub mod Message
use melsec_mc_net.Prelude.{
  ℕ, zero, suc, ◌+◌, ◌-◌, ◌^◌, ltb, leb, ◌==◌, ◌&&◌, if◌then◌else◌, Bool, true, false, Option, none,
  some, List, [], ◌∷◌, ◌++◌, length, take, drop,
}
use melsec_mc_net.Machine.{
  World, M, ◌>>=◌, pure, Buffer, buffer_length, ErrorCode, success, socket_recv_failed,
  connection_closed, RecvEvent, arrive, shut, interrupted, failed, SendEvent, accept,
  send_interrupted, send_failed,
}

-- An `int` by its bit pattern.
abbrev pub is_positive : ℕ → Bool
is_positive n = ltb 0 n && ltb n (2 ^ 31)

abbrev pub is_negative : ℕ → Bool
is_negative n = leb (2 ^ 31) n

-- The loop of `mc_write_msg`: whether all was sent, the later events, and what the system took.
unfoldable pub write_loop : List ℕ → List SendEvent → List ℕ → Bool × List SendEvent × List ℕ
write_loop [] events sent = (true, events, sent)
write_loop (b ∷ bs) [] sent = (false, [], sent)
write_loop (b ∷ bs) (send_interrupted ∷ events) sent = write_loop (b ∷ bs) events sent
write_loop (b ∷ bs) (send_failed ∷ events) sent = (false, events, sent)
write_loop (b ∷ bs) (accept k ∷ events) sent = write_loop (drop k bs) events (sent ++ b ∷ take k bs)

-- `none` is the result -1.
unfoldable pub mc_write_msg : ℕ → Buffer → M (Option ℕ)
unfolding write_loop
mc_write_msg fd none w = some (none, w)
mc_write_msg fd (some buf) w =
    if is_positive fd && ltb 0 (length buf)
    then (let (all, later, out) = write_loop buf w.sends w.sent in
        some (if all then some (length buf) else none, record w { sends = later; sent = out }))
    else some (none, w)

abbrev pub max_retry_times : ℕ
max_retry_times = 3

-- The loop of `mc_try_send_msg`, with the tries that are left.
unfoldable pub try_loop : ℕ → ℕ → Buffer → M Bool
try_loop zero fd in_bytes = pure false
try_loop (suc tries) fd in_bytes = do
  real_sends ← mc_write_msg fd in_bytes
  elim real_sends [
    | none ↦ try_loop tries fd in_bytes
    | some n ↦ if n == buffer_length in_bytes then pure true else try_loop tries fd in_bytes
  ]

unfoldable pub mc_try_send_msg : ℕ → Buffer → M Bool
mc_try_send_msg fd in_bytes =
    if is_negative fd then pure false else try_loop max_retry_times fd in_bytes

-- What of a chunk was not asked for stays for the next call.
abbrev pub put_back : List ℕ → List RecvEvent → List RecvEvent
put_back [] events = events
put_back (c ∷ cs) events = arrive c cs ∷ events

-- The loop of `mc_recv_exact`, with the bytes that are still to be read: its result, the bytes that
-- it has stored, and the later events.
unfoldable pub recv_loop : ℕ → List RecvEvent → List ℕ → ErrorCode × List ℕ × List RecvEvent
recv_loop zero events got = (success, got, events)
recv_loop (suc n) [] got = (socket_recv_failed, got, [])
recv_loop (suc n) (shut ∷ events) got = (connection_closed, got, events)
recv_loop (suc n) (interrupted ∷ events) got = recv_loop (suc n) events got
recv_loop (suc n) (failed ∷ events) got = (socket_recv_failed, got, events)
recv_loop (suc n) (arrive b bs ∷ events) got =
    let rest = recv_loop (n - length bs) events (got ++ b ∷ bs) in
    if ltb n (length bs) then (success, got ++ b ∷ take n bs, put_back (drop n bs) events) else rest

unfoldable pub mc_recv_exact : ℕ → M (ErrorCode × List ℕ)
unfolding recv_loop
mc_recv_exact bytes_to_read w =
    let (code, got, later) = recv_loop bytes_to_read w.recvs [] in
    some ((code, got), record w { recvs = later })

-- The loop of `mc_read_msg`: whether it ended without a failure.
unfoldable pub read_loop : ℕ → List RecvEvent → List ℕ → Bool × List ℕ × List RecvEvent
read_loop zero events got = (true, got, events)
read_loop (suc n) [] got = (false, got, [])
read_loop (suc n) (shut ∷ events) got = (true, got, events)
read_loop (suc n) (interrupted ∷ events) got = read_loop (suc n) events got
read_loop (suc n) (failed ∷ events) got = (false, got, events)
read_loop (suc n) (arrive b bs ∷ events) got =
    let rest = read_loop (n - length bs) events (got ++ b ∷ bs) in
    if ltb n (length bs) then (true, got ++ b ∷ take n bs, put_back (drop n bs) events) else rest

-- The result, where `none` is -1, and what is stored in the buffer, which `given` says is not NULL.
unfoldable pub mc_read_msg : ℕ → Bool → ℕ → M (Option ℕ × List ℕ)
unfolding read_loop
mc_read_msg fd given nbytes w =
    if is_positive fd && given && is_positive nbytes
    then (let (ok, got, later) = read_loop nbytes w.recvs [] in
        some ((if ok then some (length got) else none, got), record w { recvs = later }))
    else some ((none, []), w)
