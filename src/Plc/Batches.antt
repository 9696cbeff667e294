-- ===== src/Plc/Batches.antt =====
-- The library and a PLC with a memory: a batch of numbers that is written is read again.
use melsec_mc_net.Prelude.{
  ℕ, ◌+◌, ◌*◌, ◌/◌, ◌%◌, ◌^◌, ◌<◌, ◌≤◌, ◌≡◌, refl, ap, ◌∙◌, some, List, [], ◌++◌, arith, length,
}
use mathlib.Core.Path.{subst}
use melsec_mc_net.Address.{AddressData, parsed, mc_analysis_address}
use melsec_mc_net.Address.Length.{length-parsed}
use melsec_mc_net.Words.Scalar.{Scalar, width, encode}
use melsec_mc_net.Machine.{World, success}
use melsec_mc_net.Socket.Receive.{incoming}
use melsec_mc_net.Socket.Send.{capacity}
use melsec_mc_net.Command.Request.{Request}
use melsec_mc_net.Response.Frame.{ResponseFrame, frame_of}
use melsec_mc_net.Transaction.Session.{IsReady}
use melsec_mc_net.Client.Exchanges.{Requested}
use melsec_mc_net.Batch.{read_batch, write_batch, write_values}
use melsec_mc_net.Batch.Transfer.{
  Fit, length-write_values, twice, read_batch-values, write_batch-Requested,
}
use melsec_mc_net.Plc.{Memory, answer, serve}
use melsec_mc_net.Plc.Stored.{
  answer-IsWellFormed, write_request, read_request, Others, later, written, answered,
}

module _ (s : Scalar) (words : ℕ) (per_value : width s ≡ 2 * words) (values : List ℕ)
    (some_values : 0 < length values) (few : length values * width s < 65524) (a : AddressData)
    (mem : Memory) where
  abbrev bytes : List ℕ
  bytes = write_values (encode s) values

  abbrev points : ℕ
  points = length bytes / 2

  size : length bytes ≡ 2 * (length values * words)
  size = length-write_values s values ∙ twice s (length values) words per_value

  count : 2 * (points % 2 ^ 16) ≡ length bytes
  count = omega (arith, size, few, length-write_values s values)

  module _ (fd : ℕ) (w u : World) (ready_w : IsReady fd w) (ready_u : IsReady fd u)
      (rest_w rest_u : List ℕ) (others : List Request) (spare : Others a points others)
      (comes_w : incoming w.recvs ≡ frame_of (serve (write_request a points bytes) mem).1 ++ rest_w)
      (comes_u : incoming u.recvs
        ≡ frame_of (serve (read_request a points) (later a points bytes others mem)).1 ++ rest_u)
      (address : List ℕ)
      (parses : mc_analysis_address (some address) (length values * words) ≡ parsed a) where
    -- A batch of at least one number, of any of the types that have whole words, of fewer than 65524
    -- bytes in all, each number fitting its type, is written at an address that is parsed, and then
    -- read, on a descriptor that is ready at both times, where the system takes the frames at once,
    -- and the responses that come are those that a PLC with a memory makes of the two requests, in
    -- which the device number is that of the address modulo 2 ^ 24. Between them the PLC may serve any
    -- requests, except those for the words of the batch. Then both calls return success, the values
    -- that are read are those that were written, in order, and each call sent the PLC its request,
    -- once.
    pub read_batch-write_batch :
        Fit s values
        → 21 + length values * width s ≤ capacity w.sends
        → 21 ≤ capacity u.sends
        → ((v : World) × (write_batch s words fd (some address) (length values) (some values) w
              ≡ some (success, v))
            × Requested (write_request a points bytes) rest_w fd w v)
          × ((v : World) × (read_batch s words fd (some address) (length values) u
                ≡ some ((success, some values), v))
              × Requested (read_request a points) rest_u fd u v)
    read_batch-write_batch fit fits_w fits_u =
        let (v, returns, asked) =
          read_batch-values fd u ready_u (answer 0 0 bytes)
            (answer-IsWellFormed bytes (omega (arith, few, length-write_values s values))) rest_u
            (comes_u
              ∙ ap (λ (f : ResponseFrame). frame_of f ++ rest_u)
                  (answered a points bytes count mem others spare))
            s address words values some_values few a parses per_value fits_u refl refl fit in
        let same : a.length ≡ points =
          omega (arith, length-parsed address (length values * words) a parses, size) in
        (
          write_batch-Requested fd w ready_w (answer 0 0 []) (answer-IsWellFormed [] (omega arith))
              rest_w
              (comes_w
                ∙ ap (λ (t : Memory × ResponseFrame). frame_of t.1 ++ rest_w)
                    (written a points bytes count mem))
              s address words values some_values few a parses per_value fits_w,
          (v, returns, subst (λ (n : ℕ). Requested (read_request a n) rest_u fd u v) same asked),
        )
