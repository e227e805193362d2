-- ===== src/Kafka.antt =====
-- lib/backends/timeseries_backend_kafka.c: the backend that sends batches of values to a Kafka
-- broker. `B` is all the state behind the handles of librdkafka (a library), which is a parameter.
pub mod Send
pub mod Batches
pub mod Loop
pub mod Flush
pub mod Single
pub mod Setup
pub mod Life
pub mod Connect
pub mod Backoff
pub mod Opened
pub mod Ready
pub mod Ends
pub mod Arguments
pub mod Started
pub mod First
pub mod Drained
use libtimeseries.Base.{
  ℕ, zero, suc, ◌+◌, ◌-◌, ◌*◌, ◌/◌, ◌%◌, ◌^◌, Bool, true, false, not, ◌&&◌, Option, none, some,
  List, [], ◌∷◌, ◌++◌, Bytes, codes, length, take, ltb, leb, ◌==◌, if◌then◌else◌, Outcome, done,
  fault, undefined, unfinished, assertion, ◌>>=◌, ◌>>◌, assert, Status, success, failure,
}
use libtimeseries.Platform.{Platform}
use libtimeseries.KeyPackage.{
  KeyInfo, KeyPackage, key_info, kp_size, ki_enabled, ki_get_key, ki_get_value,
}
use libtimeseries.Getopt.{decimal}
use libtimeseries.Wire.{write_header, write_kv, keyhash, strip_last_term}

-- BUFFER_LEN
abbrev pub buffer_len : ℕ
buffer_len = 1024 * 512 * 2

-- format_t
pub data Format : Type 0 where
  format_ascii format_tsk format_tsk_keypart : Format

-- What rd_kafka_produce answers: it takes the message, or it returns -1 with the queue full or with
-- another error.
pub data Produced : Type 0 where
  accepted queue_full failed : Produced

-- The error codes that kafka_error_callback tells apart.
pub data KafkaError : Type 0 where
  bad_compression resolve destroy fail transport all_brokers_down other : KafkaError

-- librdkafka: rd_kafka_produce of a payload under a message key, and rd_kafka_poll, with the errors
-- that it hands to the error callback.
pub record Librdkafka (B : Type 0) : Type 0 where
  pub produce : B → ℕ → Bytes → Produced × B
  pub poll : B → ℕ → List KafkaError × B

-- The state of the backend: what timeseries_backend_kafka_state_t holds while it is connected, with
-- the part of `buffer` that is written, and the messages that the library has taken, in order, each
-- the message key and the payload.
pub record Kafka (B : Type 0) : Type 0 where
  pub channel_name : Bytes
  pub channel_name_len : ℕ
  pub format : Format
  pub buffer : Bytes
  pub connected : Bool
  pub fatal_error : Bool
  pub broker : B
  pub sent : List (ℕ × Bytes)

-- The backend in the loop of timeseries_backend_kafka_kp_flush, with its variables.
pub record Sending (B : Type 0) : Type 0 where
  pub lasthash : ℕ
  pub msgkey : ℕ
  pub kafka : Kafka B

-- kafka_error_callback, on the flags `connected` and `fatal_error`.
unfoldable pub error_callback : KafkaError → Bool × Bool → Bool × Bool
error_callback bad_compression (connected, fatal_error) = (false, true)
error_callback resolve (connected, fatal_error) = (false, true)
error_callback destroy (connected, fatal_error) = (false, fatal_error)
error_callback fail (connected, fatal_error) = (false, fatal_error)
error_callback transport (connected, fatal_error) = (false, fatal_error)
error_callback all_brokers_down (connected, fatal_error) = (false, fatal_error)
error_callback other flags = flags

unfoldable pub error_callbacks : List KafkaError → Bool × Bool → Bool × Bool
unfolding error_callback
error_callbacks [] flags = flags
error_callbacks (err ∷ errs) flags = error_callbacks errs (error_callback err flags)

-- write_ascii: snprintf into `len` bytes. It returns the length of the whole text; if that is `len`,
-- the last byte is the NUL, and with a longer text the caller leaves the buffer.
unfoldable pub write_ascii : ℕ → Bytes → ℕ → ℕ → Outcome Bytes
write_ascii len key value time =
    let text : Bytes = key ++ (32 ∷ (decimal value ++ (32 ∷ (decimal time ++ (10 ∷ []))))) in
    if ltb (length text) len
    then done text
    else if length text == len
    then done (take (len - 1) text ++ (0 ∷ []))
    else fault undefined

-- The hash of a key for FORMAT_TSK_KEYPART, without its last term.
abbrev pub part_hash : Bytes → ℕ
part_hash key = keyhash (strip_last_term key)

-- `goto err` on a failure, else what follows.
abbrev pub or_err :
    {A C : Type 0} → (A → Outcome (Status × C)) → (A → C) → Status × A → Outcome (Status × C)
or_err next left (failure, a) = done (failure, left a)
or_err next left (success, a) = next a

module _ {B : Type 0} where
  -- `buffer_written += s` for the bytes that a writer has left, and its test that s is positive.
  abbrev pub put : Bytes → Kafka B → Status × Kafka B
  put [] k = (failure, k)
  put (b ∷ bs) k = (success, record k { buffer = k.buffer ++ (b ∷ bs) })

  -- The header at the start of a message.
  unfoldable pub put_header : ℕ → Kafka B → Outcome (Status × Kafka B)
  put_header time k =
      if length k.buffer == 0
      then (do
        header ← write_header (buffer_len - length k.buffer) time k.channel_name k.channel_name_len
        done (put header k))
      else done (success, k)

  unfoldable pub put_kv : Bytes → ℕ → Kafka B → Outcome (Status × Kafka B)
  put_kv key value k = do
    bytes ← write_kv (buffer_len - length k.buffer) key value
    done (put bytes k)

  unfoldable pub put_ascii : ℕ → Bytes → ℕ → Kafka B → Outcome (Status × Kafka B)
  put_ascii time key value k = do
    text ← write_ascii (buffer_len - length k.buffer) key value time
    done (put text k)

  -- The header where it is due, then the pair.
  unfoldable pub put_record : ℕ → Bytes → ℕ → Kafka B → Outcome (Status × Kafka B)
  put_record time key value k = put_header time k >>= or_err (put_kv key value) (λ k. k)

  -- The switch of timeseries_backend_kafka_set_single. FORMAT_TSK_KEYPART writes a NUL
  -- over the last dot of the key and restores it.
  unfoldable pub put_single : Format → Bytes → ℕ → ℕ → Kafka B → Outcome (Status × Kafka B)
  put_single format_ascii key value time k = put_ascii time key value k
  put_single format_tsk key value time k = put_record time key value k
  put_single format_tsk_keypart key value time k = put_record time key value k

-- `lasthash` and `msgkey` after a key.
unfoldable pub lasthash_after : Format → KeyInfo → ℕ → ℕ
lasthash_after format_ascii ki lasthash = lasthash
lasthash_after format_tsk ki lasthash = lasthash
lasthash_after format_tsk_keypart ki lasthash = part_hash (ki_get_key ki)

unfoldable pub msgkey_after : Format → ℕ → KeyInfo → ℕ
msgkey_after format_ascii time ki = time
msgkey_after format_tsk time ki = time
msgkey_after format_tsk_keypart time ki = part_hash (ki_get_key ki)

-- The message key of timeseries_backend_kafka_set_single.
unfoldable pub single_key : Format → Bytes → ℕ → ℕ
single_key format_ascii key time = time
single_key format_tsk key time = time
single_key format_tsk_keypart key time = part_hash key

module _ {B : Type 0} (lib : Librdkafka B) where
  -- rd_kafka_poll
  unfoldable pub poll : ℕ → Kafka B → Kafka B
  unfolding error_callbacks
  poll ms k =
      let polled = lib.poll k.broker ms in
      let flags = error_callbacks polled.0 (k.connected, k.fatal_error) in
      record k { broker = polled.1; connected = flags.0; fatal_error = flags.1 }

  -- rd_kafka_poll and RESET_BUF at the end of SEND_MSG
  abbrev pub reset_buf : Kafka B → Kafka B
  reset_buf k = record (poll 0 k) { buffer = [] }

  -- The loop of SEND_MSG, with fuel for the rounds in which the queue is full.
  unfoldable pub send_loop : ℕ → ℕ → Kafka B → Outcome (Status × Kafka B)
  send_loop zero msgkey k = fault unfinished
  send_loop (suc fuel) msgkey k =
      let answer = lib.produce k.broker msgkey k.buffer in
      let again = send_loop fuel msgkey (poll 1000 (record k { broker = answer.1 })) in
      elim answer.0 [
        | accepted ↦ done (
          success,
          reset_buf (record k { broker = answer.1; sent = k.sent ++ ((msgkey, k.buffer) ∷ []) }),
        )
        | queue_full ↦ again
        | failed ↦ done (failure, reset_buf (record k { broker = answer.1 }))
      ]

  -- SEND_MSG
  unfoldable pub send_msg : ℕ → ℕ → Kafka B → Outcome (Status × Kafka B)
  send_msg fuel msgkey k =
      if ltb 0 (length k.buffer) then send_loop fuel msgkey k else done (success, reset_buf k)

  -- SEND_IF_FULL
  unfoldable pub send_if_full : ℕ → ℕ → Kafka B → Outcome (Status × Kafka B)
  send_if_full fuel msgkey k =
      if ltb (buffer_len / 2) (length k.buffer) then send_msg fuel msgkey k else done (success, k)

  -- The switch of timeseries_backend_kafka_kp_flush for an enabled key, with the `lasthash` so far.
  unfoldable pub put_ki : Format → ℕ → ℕ → ℕ → KeyInfo → Kafka B → Outcome (Status × Kafka B)
  unfolding ki_get_key ki_get_value
  put_ki format_ascii fuel time lasthash ki k = put_ascii time (ki_get_key ki) (ki_get_value ki) k
  put_ki format_tsk fuel time lasthash ki k = put_record time (ki_get_key ki) (ki_get_value ki) k
  put_ki format_tsk_keypart fuel time lasthash ki k =
      (if not (part_hash (ki_get_key ki) == lasthash) && ltb 0 (length k.buffer)
        then send_msg fuel lasthash k
        else done (success, k))
      >>= or_err (put_record time (ki_get_key ki) (ki_get_value ki)) (λ k. k)

  -- The body of the loop for an enabled key.
  unfoldable pub send_ki : ℕ → ℕ → KeyInfo → Sending B → Outcome (Status × Sending B)
  send_ki fuel time ki s =
      let lasthash = lasthash_after s.kafka.format ki s.lasthash in
      let msgkey = msgkey_after s.kafka.format time ki in
      let left : Kafka B → Sending B =
        λ k. record { lasthash = lasthash; msgkey = msgkey; kafka = k } in
      put_ki s.kafka.format fuel time s.lasthash ki s.kafka
      >>= or_err (λ k. send_if_full fuel msgkey k >>= λ (rc, k'). done (rc, left k')) left

module _ ⦃P : Platform⦄ {B : Type 0} (lib : Librdkafka B) where
  -- The loop of timeseries_backend_kafka_kp_flush from id `id` on, with `n` rounds left.
  unfoldable pub send_enabled :
      ℕ → ℕ → ℕ → KeyPackage → ℕ → Sending B → Outcome (Status × Sending B)
  send_enabled zero id fuel kp time s = done (success, s)
  send_enabled (suc n) id fuel kp time s = do
    ki ← key_info kp id
    sent ← if ki_enabled ki then send_ki lib fuel time ki s else done (success, s)
    or_err (send_enabled n (id + 1) fuel kp time) (λ left. left) sent

  -- timeseries_backend_kafka_kp_flush
  unfoldable pub kafka_kp_flush : ℕ → Kafka B → KeyPackage → ℕ → Outcome (Status × Kafka B)
  kafka_kp_flush fuel k kp time = do
    assert (length k.buffer == 0)
    sent ← send_enabled (kp_size kp) 0 fuel kp time (record { lasthash = 0; msgkey = 0; kafka = k })
    or_err (λ (s : Sending B). send_msg lib fuel s.msgkey s.kafka) (λ (s : Sending B). s.kafka) sent

module _ {B : Type 0} (lib : Librdkafka B) where
  -- timeseries_backend_kafka_set_single
  unfoldable pub kafka_set_single : ℕ → Kafka B → Bytes → ℕ → ℕ → Outcome (Status × Kafka B)
  kafka_set_single fuel k key value time = do
    assert (length k.buffer == 0)
    written ← put_single k.format key value time k
    or_err (send_msg lib fuel (single_key k.format key time)) (λ k'. k') written
