-- ===== src/Proxy/Handle.antt =====
-- handle_message of tools/tsk-proxy.c from the first byte of a message to the last.
use mathlib.Core.Path.{fun_ext}
use libtimeseries.Base.{
  ℕ, ◌+◌, ◌^◌, ◌≤◌, ◌<◌, ◌≡◌, ap, Bool, List, ◌++◌, Bytes, length, All, arith, Outcome, done, ◌>>=◌,
  Status, length-append,
}
use libtimeseries.Platform.{Platform}
use libtimeseries.KeyPackage.{KeyPackage}
use libtimeseries.Wire.{write_header}
use libtimeseries.Proxy.{Proxy, maybe_flush}
use libtimeseries.Proxy.Message.{
  Filter, batch, read_header, after_turn, handle_header, handle_message,
}
use libtimeseries.Proxy.RoundTrip.{
  Written, IsReadable, take_pairs, read_header-write_header, parse_loop-Written,
}

module _ ⦃P : Platform⦄ {S : Type 0} where
  -- What a batch of pairs for one time does to the proxy: the flush that is due, the statistics for
  -- a message of `len` bytes, and the pairs in order.
  unfoldable pub take_batch :
      Filter → ℕ → ℕ → List (Bytes × ℕ) → Proxy S → Outcome (Status × Proxy S)
  take_batch cfg len time kvs p =
      maybe_flush time p >>= after_turn (λ backends kp. take_pairs backends cfg.filters kp kvs) len

  handle_header-Written :
      (fuel : ℕ) (cfg : Filter) (len time : ℕ) (kvs : List (Bytes × ℕ)) (bytes : Bytes)
      (p : Proxy S)
      → Written kvs bytes
      → All IsReadable kvs
      → length kvs ≤ fuel
      → handle_header fuel cfg len (batch time bytes) p ≡ take_batch cfg len time kvs p
  unfolding handle_header take_batch
  handle_header-Written fuel cfg len time kvs bytes p w r enough =
      ap
        (λ (loop : Bool → KeyPackage → Outcome KeyPackage).
          maybe_flush time p >>= after_turn loop len)
        (fun_ext λ backends.
          fun_ext λ kp. parse_loop-Written kvs bytes fuel backends cfg.filters kp w r enough)

  -- A message that the producer writes for a time and the channel of the proxy, its header followed
  -- by the records of pairs that the proxy can read, is handled as the batch of exactly these pairs
  -- at this time.
  pub handle_message-Written :
      (fuel len time : ℕ) (cfg : Filter) (header : Bytes) (kvs : List (Bytes × ℕ)) (bytes : Bytes)
      (p : Proxy S)
      → time < 2 ^ 32
      → length cfg.kafka_channel < 2 ^ 16
      → 15 + length cfg.kafka_channel ≤ len
      → write_header len time cfg.kafka_channel (length cfg.kafka_channel) ≡ done header
      → Written kvs bytes
      → All IsReadable kvs
      → length kvs ≤ fuel
      → handle_message fuel cfg (header ++ bytes) p
        ≡ take_batch cfg (15 + length cfg.kafka_channel + length bytes) time kvs p
  unfolding handle_message
  handle_message-Written fuel len time cfg header kvs bytes p ht hc room made w r enough =
      let (header', made', size, back) =
        read_header-write_header len time cfg.kafka_channel bytes ht hc room in
      let same : header' ≡ header = cc (made, made') in
      let read : read_header cfg.kafka_channel (header ++ bytes) ≡ batch time bytes =
        rw same at back in
      let total : length (header ++ bytes) ≡ 15 + length cfg.kafka_channel + length bytes =
        omega (arith, length-append header bytes, size, ap (λ (b : Bytes). length b) same) in
      rw (read, total) (handle_header-Written fuel cfg _ time kvs bytes p w r enough)
