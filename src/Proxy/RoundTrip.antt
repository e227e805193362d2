-- ===== src/Proxy/RoundTrip.antt =====
-- What tools/tsk-proxy.c reads is what lib/backends/timeseries_backend_kafka.c writes.
use mathlib.Core.Path.{fun_ext}
use native.Mathlib.Nat.{mod-eq_of_lt}
use mathlib.Core.List.{append_assoc}
use libtimeseries.Base.{
  ℕ, zero, suc, ◌+◌, ◌^◌, ◌≤◌, ◌<◌, ◌≡◌, refl, ap, ◌∙◌, Bool, true, List, [], ◌∷◌, ◌++◌, Bytes,
  length, All, Outcome, done, ◌>>=◌, arith, be16, be32, be64, length-append, take-append,
  drop-append, le→ltb, of_be16-be16, of_be32-be32, of_be64-be64, length-be64, take-length,
}
use libtimeseries.Platform.{Platform}
use libtimeseries.KeyPackage.{KeyPackage}
use libtimeseries.Wire.{write_header, write_kv, header_magic}
use libtimeseries.Proxy.Message.{
  pair, batch, read_value, read_key, read_record, read_header, read_channel, channel_matches,
  take_pair, parse_key_value, parse_loop,
}

channel_matches_refl : (c : Bytes) → channel_matches c c ≡ true
unfolding channel_matches
channel_matches_refl [] = refl
channel_matches_refl (c ∷ cs) = ground (arith, channel_matches_refl cs)

read_channel-append :
    (channel rest : Bytes) (time : ℕ)
    → read_channel channel time (length channel) (channel ++ rest) ≡ batch time rest
unfolding read_channel
read_channel-append channel rest time = rw (
  take-append channel rest (length channel) refl,
  drop-append channel rest (length channel) refl,
  channel_matches_refl channel,
  le→ltb (length (channel ++ rest)) (length channel) (omega (arith, length-append channel rest)),
)

-- The header and the record that the writers lay out.
abbrev pub header_bytes : ℕ → Bytes → Bytes
header_bytes time channel = header_magic ++ (0 ∷ (be32 time ++ (be16 (length channel) ++ channel)))

abbrev pub kv_bytes : Bytes → ℕ → Bytes
kv_bytes key value = be16 (length key) ++ (key ++ be64 value)

pub write_header-eq :
    (len time : ℕ) (channel : Bytes)
    → length channel < 2 ^ 16
    → 15 + length channel ≤ len
    → write_header len time channel (length channel) ≡ done (header_bytes time channel)
unfolding write_header
write_header-eq len time channel hc room = rw (mod-eq_of_lt hc, take-length channel) (ground arith)

pub write_kv-eq :
    (len : ℕ) (key : Bytes) (value : ℕ)
    → length key < 65535
    → length key + 10 ≤ len
    → write_kv len key value ≡ done (kv_bytes key value)
unfolding write_kv
write_kv-eq len key value hk room = ground arith

read_value-append :
    (key : Bytes) (value : ℕ) (rest : Bytes)
    → value < 2 ^ 64
    → read_value key (be64 value ++ rest) ≡ pair key value rest
unfolding read_value be64
read_value-append key value rest h = ap (λ n. pair key n rest) (of_be64-be64 value h)

read_key-append :
    (key : Bytes) (value : ℕ) (rest : Bytes)
    → length key < 1024
    → value < 2 ^ 64
    → read_key (length key) (key ++ (be64 value ++ rest)) ≡ pair key value rest
unfolding read_key
read_key-append key value rest hk hv =
    let behind = be64 value ++ rest in
    ground (
      arith,
      length-append key behind,
      take-append key behind (length key) refl,
      drop-append key behind (length key) refl,
      read_value-append key value rest hv,
    )

-- A message header that write_header writes for a channel, with room for it in the buffer, has 15
-- bytes more than the channel name, and handle_message of a proxy for this channel reads from it
-- the time of the batch, with what follows the header left over.
pub read_header-write_header :
    (len time : ℕ) (channel rest : Bytes)
    → time < 2 ^ 32
    → length channel < 2 ^ 16
    → 15 + length channel ≤ len
    → (header : Bytes) × (write_header len time channel (length channel) ≡ done header)
      × (length header ≡ 15 + length channel)
      × (read_header channel (header ++ rest) ≡ batch time rest)
unfolding read_header be32 be16
read_header-write_header len time channel rest ht hc room = (
  header_bytes time channel,
  write_header-eq len time channel hc room,
  omega arith,
  rw (of_be32-be32 time ht, of_be16-be16 (length channel) hc)
      (read_channel-append channel rest time),
)

-- A record that write_kv writes has 10 bytes more than its key. If the key is shorter than the
-- buffer of parse_key_value and the value fits 64 bits, the proxy reads back the key, the value and
-- what follows the record.
pub read_record-write_kv :
    (len : ℕ) (key : Bytes) (value : ℕ) (rest : Bytes)
    → length key < 1024
    → value < 2 ^ 64
    → length key + 10 ≤ len
    → (bytes : Bytes) × (write_kv len key value ≡ done bytes)
      × (length bytes ≡ length key + 10)
      × (read_record (bytes ++ rest) ≡ pair key value rest)
unfolding read_record be16
read_record-write_kv len key value rest hk hv room = (
  kv_bytes key value,
  write_kv-eq len key value (omega arith) room,
  omega (arith, length-append key (be64 value), length-be64 value),
  rw (of_be16-be16 (length key) (omega arith), append_assoc) (read_key-append key value rest hk hv),
)

-- The bytes that a run of calls of write_kv leaves, each with its own room in the buffer.
pub data Written : List (Bytes × ℕ) → Bytes → Type 0 where
  nothing : Written [] []
  record_then :
      (len : ℕ) {key : Bytes} {value : ℕ} {bytes : Bytes} {kvs : List (Bytes × ℕ)} {more : Bytes}
      → write_kv len key value ≡ done bytes
      → Written kvs more
      → Written ((key, value) ∷ kvs) (bytes ++ more)

-- A pair that the proxy can read: the key fits its buffer, the value is a uint64_t.
abbrev pub IsReadable : Bytes × ℕ → Type 0
IsReadable (key, value) = (length key < 1024) × (value < 2 ^ 64)

write_kv-eq-done :
    (len : ℕ) (key : Bytes) (value : ℕ) {bytes : Bytes}
    → write_kv len key value ≡ done bytes
    → length key + 10 ≤ len
unfolding write_kv
write_kv-eq-done len key value h = ground arith

pub read_record_of_write_kv :
    (len : ℕ) (key : Bytes) (value : ℕ) (bytes rest : Bytes)
    → length key < 1024
    → value < 2 ^ 64
    → write_kv len key value ≡ done bytes
    → (read_record (bytes ++ rest) ≡ pair key value rest) × (0 < length bytes)
read_record_of_write_kv len key value bytes rest hk hv h =
    let (bytes', same, n, back) =
      read_record-write_kv len key value rest hk hv (write_kv-eq-done len key value h) in
    let e : bytes' ≡ bytes = cc (same, h) in
    (rw e at back, omega (arith, n, ap (λ (b : Bytes). length b) e))

module _ ⦃P : Platform⦄ where
  -- The pairs in order, each taken as parse_key_value takes a pair.
  unfoldable pub take_pairs : Bool → List Bytes → KeyPackage → List (Bytes × ℕ) → Outcome KeyPackage
  take_pairs backends filters kp [] = done kp
  take_pairs backends filters kp ((key, value) ∷ kvs) = do
    kp' ← take_pair backends filters kp key value
    take_pairs backends filters kp' kvs

  pub parse_loop_step :
      (fuel : ℕ) (backends : Bool) (filters : List Bytes) (bytes : Bytes) (kp : KeyPackage)
      (key : Bytes) (value : ℕ) (rest : Bytes)
      → 0 < length bytes
      → read_record bytes ≡ pair key value rest
      → parse_loop (suc fuel) backends filters bytes kp ≡ (
          take_pair backends filters kp key value >>= λ kp'.
          parse_loop fuel backends filters rest kp')
  unfolding parse_loop parse_key_value
  parse_loop_step fuel backends filters [] kp key value rest h e = absurd (omega arith)
  parse_loop_step fuel backends filters (b ∷ bs) kp key value rest h e = rw e (ground arith)

  -- The loop of handle_message over the bytes that the producer wrote for a list of readable pairs
  -- takes exactly these pairs in order and then ends; one unit of fuel for each pair is enough.
  pub parse_loop-Written :
      (kvs : List (Bytes × ℕ)) (bytes : Bytes) (fuel : ℕ) (backends : Bool) (filters : List Bytes)
      (kp : KeyPackage)
      → Written kvs bytes
      → All IsReadable kvs
      → length kvs ≤ fuel
      → parse_loop fuel backends filters bytes kp ≡ take_pairs backends filters kp kvs
  unfolding take_pairs
  parse_loop-Written _ _ fuel backends filters kp nothing r h = unfold parse_loop in refl
  parse_loop-Written _ _ zero backends filters kp (record_then len e w) r h = absurd (omega arith)
  parse_loop-Written _ _ (suc fuel) backends filters kp
        (record_then len {key} {value} {bytes} {kvs} {more} e w) (r, rs) h =
      let (back, size) = read_record_of_write_kv len key value bytes more r.0 r.1 e in
      parse_loop_step fuel backends filters (bytes ++ more) kp key value more
        (omega (arith, length-append bytes more)) back
      ∙ ap (λ (k : KeyPackage → Outcome KeyPackage). take_pair backends filters kp key value >>= k)
          (fun_ext λ kp'. parse_loop-Written kvs more fuel backends filters kp' w rs (omega arith))
