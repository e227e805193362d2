-- ===== src/Kafka/Batches.antt =====
-- lib/backends/timeseries_backend_kafka.c: how messages hold the pairs of a flush in the format
-- FORMAT_TSK or FORMAT_TSK_KEYPART.
use mathlib.Core.Path.{subst}
use mathlib.Core.List.{append_assoc, append-nil}
use libtimeseries.Base.{
  ℕ, ◌+◌, ◌<◌, ◌≡◌, sym, List, [], ◌∷◌, ◌++◌, Bytes, length, All, arith, done, length-append,
}
use libtimeseries.Wire.{write_kv}
use libtimeseries.Proxy.RoundTrip.{
  Written, nothing, record_then, header_bytes, kv_bytes, write_kv-eq,
}
use libtimeseries.Kafka.{Format, format_ascii, format_tsk, format_tsk_keypart, part_hash}
use libtimeseries.Kafka.Send.{base, length-header_bytes}

-- The message key under which a pair is to be sent.
unfoldable pub key_for : Format → ℕ → Bytes → ℕ
key_for format_ascii time key = time
key_for format_tsk time key = time
key_for format_tsk_keypart time key = part_hash key

abbrev pub KeyedBy : Format → ℕ → ℕ → Bytes × ℕ → Type 0
KeyedBy format time msgkey (key, value) = key_for format time key ≡ msgkey

-- The pairs were sent as these messages: each message is the header of the time and the channel with
-- the records of one or more of the pairs, and all of them belong under its message key.
pub data Batched (format : Format) (time : ℕ) (channel : Bytes)
    : List (Bytes × ℕ) → List (ℕ × Bytes) → Type 0 where
  no_message : Batched format time channel [] []
  message_then :
      {kvs pairs : List (Bytes × ℕ)} {msgs : List (ℕ × Bytes)} {bytes : Bytes} (msgkey : ℕ)
      → Batched format time channel kvs msgs
      → Written pairs bytes
      → 0 < length pairs
      → All (KeyedBy format time msgkey) pairs
      → Batched format time channel
          (kvs ++ pairs)
          (msgs ++ ((msgkey, header_bytes time channel ++ bytes) ∷ []))

-- The records of a list, and one more behind them.
Written-append :
    {kvs : List (Bytes × ℕ)} {bytes new : Bytes} (len : ℕ) (key : Bytes) (value : ℕ)
    → Written kvs bytes
    → write_kv len key value ≡ done new
    → Written (kvs ++ ((key, value) ∷ [])) (bytes ++ new)
Written-append {new = new} len key value nothing e =
    subst (Written ((key, value) ∷ [])) (append-nil new) (record_then len e nothing)
Written-append len key value (record_then len' {bytes = b} {more = more} e' w) e =
    subst (Written _) (sym (append_assoc b more _))
      (record_then len' e' (Written-append len key value w e))

All-append :
    (Q : Bytes × ℕ → Type 0) (kvs : List (Bytes × ℕ)) (kv : Bytes × ℕ)
    → All Q kvs
    → Q kv
    → All Q (kvs ++ (kv ∷ []))
All-append Q [] kv q h = (h, q)
All-append Q (x ∷ xs) kv (p, ps) h = (p, All-append Q xs kv ps h)

module _ (format : Format) (time : ℕ) (channel : Bytes) (before : List (ℕ × Bytes)) where
  -- What the buffer and the messages hold while pairs are being sent: the pairs of the messages, and
  -- in the buffer those of a message that is begun.
  pub data Holds (msgkey : ℕ) : List (Bytes × ℕ) → Bytes → List (ℕ × Bytes) → Type 0 where
    fresh :
        {kvs : List (Bytes × ℕ)} {msgs : List (ℕ × Bytes)}
        → Batched format time channel kvs msgs
        → Holds msgkey kvs [] (before ++ msgs)
    begun :
        {kvs pairs : List (Bytes × ℕ)} {msgs : List (ℕ × Bytes)} {bytes : Bytes}
        → Batched format time channel kvs msgs
        → Written pairs bytes
        → 0 < length pairs
        → All (KeyedBy format time msgkey) pairs
        → Holds msgkey (kvs ++ pairs) (header_bytes time channel ++ bytes) (before ++ msgs)

  pub Holds-Gone :
      {msgkey : ℕ} {kvs : List (Bytes × ℕ)} {buffer : Bytes} {sent : List (ℕ × Bytes)} (next : ℕ)
      → Holds msgkey kvs buffer sent
      → 0 < length buffer
      → Holds next kvs [] (sent ++ ((msgkey, buffer) ∷ []))
  Holds-Gone next (fresh b) h = absurd (omega arith)
  Holds-Gone {msgkey} next (begun {kvs} {pairs} {msgs} {bytes} b w n keyed) h =
      subst (Holds next (kvs ++ pairs) []) (sym (append_assoc before msgs _))
        (fresh (message_then msgkey b w n keyed))

  pub Holds-put :
      {msgkey : ℕ} {kvs : List (Bytes × ℕ)} {buffer : Bytes} {sent : List (ℕ × Bytes)} (next : ℕ)
      (key : Bytes) (value : ℕ)
      → Holds msgkey kvs buffer sent
      → (0 < length buffer → msgkey ≡ next)
      → key_for format time key ≡ next
      → length key < 65535
      → Holds next
          (kvs ++ ((key, value) ∷ []))
          (base (header_bytes time channel) buffer ++ kv_bytes key value)
          sent
  Holds-put next key value (fresh b) same keyed hk =
      let bytes =
        record_then (length key + 10) (write_kv-eq (length key + 10) key value hk (omega arith))
          nothing in
      begun b (subst (Written ((key, value) ∷ [])) (append-nil _) bytes) (omega arith) (keyed, tt)
  Holds-put {msgkey} next key value (begun {kvs} {pairs} {msgs} {bytes} b w n keyed) same key_keyed
        hk =
      let header : Bytes = header_bytes time channel in
      let new : Bytes = kv_bytes key value in
      let now : msgkey ≡ next =
        same (omega (arith, length-append header bytes, length-header_bytes time channel)) in
      subst (λ l. Holds next l ((header ++ bytes) ++ new) (before ++ msgs))
        (sym (append_assoc kvs pairs _))
        (subst (λ l. Holds next (kvs ++ (pairs ++ ((key, value) ∷ []))) l (before ++ msgs))
          (sym (append_assoc header bytes new))
          (begun b
            (Written-append (length key + 10) key value w
              (write_kv-eq (length key + 10) key value hk (omega arith)))
            (omega (arith, length-append pairs ((key, value) ∷ [])))
            (All-append (KeyedBy format time next) pairs (key, value)
              (subst (λ m. All (KeyedBy format time m) pairs) now keyed) key_keyed)))
