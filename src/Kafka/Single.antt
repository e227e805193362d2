-- ===== src/Kafka/Single.antt =====
-- timeseries_backend_kafka_set_single of lib/backends/timeseries_backend_kafka.c in the format FORMAT_TSK
-- or FORMAT_TSK_KEYPART.
use libtimeseries.Base.{
  ℕ, ◌^◌, ◌<◌, ◌≡◌, ap, ◌∙◌, ◌⊎◌, inl, inr, [], ◌∷◌, ◌++◌, Bytes, length, arith, done, success,
  length-append,
}
use libtimeseries.Kafka.{
  Librdkafka, Kafka, format_tsk, format_tsk_keypart, put_record, put_single, single_key, send_msg,
  kafka_set_single,
}
use libtimeseries.Kafka.Send.{Accepts, send_msg-Gone, base, put_record_lem, length-header_bytes}
use libtimeseries.Proxy.RoundTrip.{header_bytes, kv_bytes}

module _ {B : Type 0} where
  put_single-record :
      (k : Kafka B) (key : Bytes) (value time : ℕ)
      → (k.format ≡ format_tsk) ⊎ (k.format ≡ format_tsk_keypart)
      → put_single k.format key value time k ≡ put_record time key value k
  unfolding put_single
  put_single-record k key value time (inl tsk) = ap (λ f. put_single f key value time k) tsk
  put_single-record k key value time (inr part) = ap (λ f. put_single f key value time k) part

  put_record-empty :
      (k : Kafka B) (key : Bytes) (value time : ℕ)
      → k.channel_name_len ≡ length k.channel_name
      → length k.channel_name < 2 ^ 16
      → length key < 65535
      → k.buffer ≡ []
      → put_record time key value k
        ≡ done
            (success, record k { buffer = header_bytes time k.channel_name ++ kv_bytes key value })
  put_record-empty k key value time name_len hc hk empty =
      put_record_lem time key value k name_len hc hk
        (omega (arith, ap (λ (b : Bytes). length b) empty))
      ∙ ap
          (λ b. done (
            success,
            record k { buffer = base (header_bytes time k.channel_name) b ++ kv_bytes key value },
          ))
          empty

-- Where the library takes the message at the latest at the try that the fuel allows, setting a single
-- value in the format FORMAT_TSK or FORMAT_TSK_KEYPART succeeds, from an empty buffer and with a channel
-- name and a key that fit 16 bits: the library has one message more, the header of the time and the
-- channel with the record of the pair, and the buffer is empty again.
pub kafka_set_single_lem :
    {B : Type 0} (lib : Librdkafka B) (fuel : ℕ) (k : Kafka B) (key : Bytes) (value time : ℕ)
    → ((msgkey : ℕ) (payload : Bytes) (b : B) → Accepts lib msgkey payload fuel b)
    → (k.format ≡ format_tsk) ⊎ (k.format ≡ format_tsk_keypart)
    → k.channel_name_len ≡ length k.channel_name
    → length k.channel_name < 2 ^ 16
    → length key < 65535
    → k.buffer ≡ []
    → (k' : Kafka B) × (kafka_set_single lib fuel k key value time ≡ done (success, k'))
      × (k'.sent
          ≡ k.sent
            ++ ((
              single_key k.format key time,
              header_bytes time k.channel_name ++ kv_bytes key value,
            )
                ∷ []))
      × (k'.buffer ≡ [])
kafka_set_single_lem lib fuel k key value time willing batches name_len hc hk empty =
    let message : Bytes = header_bytes time k.channel_name ++ kv_bytes key value in
    let full = record k { buffer = message } in
    let put : put_single k.format key value time k ≡ done (success, full) =
      put_single-record k key value time batches
      ∙ put_record-empty k key value time name_len hc hk empty in
    let some_bytes : 0 < length message = omega (
      arith,
      length-append (header_bytes time k.channel_name) (kv_bytes key value),
      length-header_bytes time k.channel_name,
    ) in
    let msgkey = single_key k.format key time in
    let (k', e, g) =
      send_msg-Gone lib fuel msgkey full some_bytes (willing msgkey message k.broker) in
    (k', run (ap (λ (b : Bytes). length b) empty) put e, g.sent, g.buffer)
  where
    run :
        {full k' : Kafka _}
        → length k.buffer ≡ 0
        → put_single k.format key value time k ≡ done (success, full)
        → send_msg lib fuel (single_key k.format key time) full ≡ done (success, k')
        → kafka_set_single lib fuel k key value time ≡ done (success, k')
    run zero_written put e = unfold kafka_set_single in (rw zero_written (rw put e))
