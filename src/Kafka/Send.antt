-- ===== src/Kafka/Send.antt =====
-- lib/backends/timeseries_backend_kafka.c: what SEND_MSG and the writers do to the buffer.
use libtimeseries.Base.{
  ℕ, suc, ◌+◌, ◌-◌, ◌/◌, ◌^◌, ◌≤◌, ◌<◌, ◌≡◌, refl, ap, ◌∙◌, false, [], ◌∷◌, ◌++◌, Bytes, length,
  ◌==◌, arith, done, success, lt→ltb, length-append, be16, be32, be64, length-be64,
}
use libtimeseries.Wire.{write_header}
use libtimeseries.Proxy.RoundTrip.{header_bytes, kv_bytes, write_header-eq, write_kv-eq}
use libtimeseries.Kafka.{
  Librdkafka, Kafka, accepted, queue_full, buffer_len, put_header, put_kv, put_record, poll,
  send_loop, send_msg, reset_buf,
}

module _ {B : Type 0} (lib : Librdkafka B) where
  -- The library takes this message within `n` tries, its queue being full before that.
  pub data Accepts (msgkey : ℕ) (payload : Bytes) : ℕ → B → Type 0 where
    now :
        (n : ℕ) (b : B)
        → (lib.produce b msgkey payload).0 ≡ accepted
        → Accepts msgkey payload (suc n) b
    later :
        (n : ℕ) (b : B)
        → (lib.produce b msgkey payload).0 ≡ queue_full
        → Accepts msgkey payload n (lib.poll (lib.produce b msgkey payload).1 1000).1
        → Accepts msgkey payload (suc n) b

module _ {B : Type 0} where
  -- What stays while the backend is connected: its configuration.
  pub record SameConfig (k k' : Kafka B) : Type 0 where
    pub name : k'.channel_name ≡ k.channel_name
    pub name_len : k'.channel_name_len ≡ k.channel_name_len
    pub format : k'.format ≡ k.format

  -- The buffer went out as a message.
  pub record Gone (msgkey : ℕ) (k k' : Kafka B) : Type 0 where
    pub config : SameConfig k k'
    pub buffer : k'.buffer ≡ []
    pub sent : k'.sent ≡ k.sent ++ ((msgkey, k.buffer) ∷ [])

module _ {B : Type 0} (lib : Librdkafka B) where
  send_loop-Gone :
      (msgkey : ℕ) (payload : Bytes) (fuel : ℕ) (b : B) (k : Kafka B)
      → Accepts lib msgkey payload fuel b
      → k.broker ≡ b
      → k.buffer ≡ payload
      → (k' : Kafka B) × (send_loop lib fuel msgkey k ≡ done (success, k')) × Gone msgkey k k'
  unfolding send_loop poll
  send_loop-Gone msgkey payload _ _ k (now n b e) at same =
      let taken : (lib.produce k.broker msgkey k.buffer).0 ≡ accepted = rw (at, same) e in
      let left : Kafka B = reset_buf lib (record k {
        broker = (lib.produce k.broker msgkey k.buffer).1;
        sent = k.sent ++ ((msgkey, k.buffer) ∷ []);
      }) in
      (
        left,
        rw (taken, send_loop) refl,
        record {
          config = record { name = refl; name_len = refl; format = refl };
          buffer = refl;
          sent = refl;
        },
      )
  send_loop-Gone msgkey payload _ _ k (later n b e rest) at same =
      let full : (lib.produce k.broker msgkey k.buffer).0 ≡ queue_full = rw (at, same) e in
      let waited = record k { broker = (lib.produce k.broker msgkey k.buffer).1 } in
      let (k', run, g) =
        send_loop-Gone msgkey payload n _ (poll lib 1000 waited) rest (rw (at, same) refl) same in
      (
        k',
        rw (full, send_loop) run,
        record {
          config = record {
            name = g.config.name;
            name_len = g.config.name_len;
            format = g.config.format;
          };
          buffer = g.buffer;
          sent = g.sent;
        },
      )

  -- Where the library takes the message at the latest at the try that the fuel allows, SEND_MSG of a
  -- buffer that is not empty succeeds: the library has one message more, the whole buffer under the
  -- message key, the buffer is empty, and the configuration is as before.
  pub send_msg-Gone :
      (fuel msgkey : ℕ) (k : Kafka B)
      → 0 < length k.buffer
      → Accepts lib msgkey k.buffer fuel k.broker
      → (k' : Kafka B) × (send_msg lib fuel msgkey k ≡ done (success, k')) × Gone msgkey k k'
  unfolding send_msg
  send_msg-Gone fuel msgkey k some_bytes a =
      let (k', run, g) = send_loop-Gone msgkey k.buffer fuel k.broker k a refl refl in
      (k', rw (lt→ltb 0 (length k.buffer) some_bytes) run, g)

-- What stands in front of a record: the buffer, or the header of a new message.
abbrev pub base : Bytes → Bytes → Bytes
base header [] = header
base header (b ∷ bs) = b ∷ bs

pub length-header_bytes :
    (time : ℕ) (channel : Bytes) → length (header_bytes time channel) ≡ 15 + length channel
unfolding be16 be32
length-header_bytes time channel = omega arith

pub length-kv_bytes : (key : Bytes) (value : ℕ) → length (kv_bytes key value) ≡ length key + 10
unfolding be16
length-kv_bytes key value = omega (arith, length-append key (be64 value), length-be64 value)

module _ {B : Type 0} where
  put_kv-eq :
      (key : Bytes) (value : ℕ) (k : Kafka B)
      → length key < 65535
      → length k.buffer + length key + 10 ≤ buffer_len
      → put_kv key value k ≡ done (success, record k { buffer = k.buffer ++ kv_bytes key value })
  unfolding put_kv be16
  put_kv-eq key value k hk room =
      rw (write_kv-eq (buffer_len - length k.buffer) key value hk (omega arith)) refl

  put_record-buffer :
      (b : Bytes) (time : ℕ) (key : Bytes) (value : ℕ) (k : Kafka B)
      → k.channel_name_len ≡ length k.channel_name
      → length k.channel_name < 2 ^ 16
      → length key < 65535
      → length b ≤ buffer_len / 2
      → put_record time key value (record k { buffer = b })
        ≡ done (
          success,
          record k { buffer = base (header_bytes time k.channel_name) b ++ kv_bytes key value },
        )
  unfolding put_record put_header
  put_record-buffer [] time key value k name_len hc hk half =
      let header : Bytes = header_bytes time k.channel_name in
      let made : write_header (buffer_len - 0) time k.channel_name k.channel_name_len
          ≡ done header =
        ap (write_header (buffer_len - 0) time k.channel_name) name_len
        ∙ write_header-eq (buffer_len - 0) time k.channel_name hc (omega arith) in
      let size : length header ≡ 15 + length k.channel_name =
        omega (arith, length-header_bytes time k.channel_name) in
      rw made (put_kv-eq key value (record k { buffer = header }) hk (omega (arith, size)))
  put_record-buffer (b ∷ bs) time key value k name_len hc hk half =
      let begun : (suc (length bs) == 0) ≡ false = ground arith in
      rw begun (put_kv-eq key value (record k { buffer = b ∷ bs }) hk (omega arith))

  -- With the buffer at most half full and a channel name and a key that fit 16 bits, no assertion of
  -- write_header or write_kv fails, and nothing is written past the buffer: it is left with the
  -- header of a message where it was empty, and with the pair at its end.
  pub put_record_lem :
      (time : ℕ) (key : Bytes) (value : ℕ) (k : Kafka B)
      → k.channel_name_len ≡ length k.channel_name
      → length k.channel_name < 2 ^ 16
      → length key < 65535
      → length k.buffer ≤ buffer_len / 2
      → put_record time key value k
        ≡ done (
          success,
          record k {
            buffer = base (header_bytes time k.channel_name) k.buffer ++ kv_bytes key value;
          },
        )
  put_record_lem time key value k name_len hc hk half =
      put_record-buffer k.buffer time key value k name_len hc hk half
