-- ===== src/Kafka/Loop.antt =====
-- lib/backends/timeseries_backend_kafka.c: the loop of timeseries_backend_kafka_kp_flush in the format
-- FORMAT_TSK or FORMAT_TSK_KEYPART, a key at a time.
use mathlib.Core.Path.{subst}
use libtimeseries.Base.{
  ℕ, ◌/◌, ◌^◌, ◌≤◌, ◌<◌, ◌≡◌, refl, sym, ap, ◌∙◌, inl, inr, not, ◌&&◌, List, [], ◌∷◌, ◌++◌, Bytes,
  length, ltb, ◌==◌, arith, if◌then◌else◌, done, success, Bool-cases, length-append,
}
use libtimeseries.Proxy.RoundTrip.{header_bytes, kv_bytes}
use libtimeseries.Kafka.{
  Librdkafka, Kafka, Format, format_tsk, format_tsk_keypart, buffer_len, put_record, send_msg,
  send_if_full,
}
use libtimeseries.Kafka.Batches.{key_for, Holds, Holds-Gone, Holds-put}
use libtimeseries.Kafka.Send.{
  Accepts, Gone, send_msg-Gone, base, put_record_lem, length-header_bytes, length-kv_bytes,
}

module _ {B : Type 0} (format : Format) (time : ℕ) (channel : Bytes)
    (before : List (ℕ × Bytes)) where
  -- The loop has sent or holds these pairs, with at most `bound` bytes in the buffer.
  pub record Loop (bound : ℕ) (kvs : List (Bytes × ℕ)) (lasthash msgkey : ℕ) (k : Kafka B)
      : Type 0 where
    pub name : k.channel_name ≡ channel
    pub name_len : k.channel_name_len ≡ length channel
    pub format_kept : k.format ≡ format
    pub last : format ≡ format_tsk_keypart → 0 < length k.buffer → lasthash ≡ msgkey
    pub current : format ≡ format_tsk → 0 < length k.buffer → msgkey ≡ time
    pub half : length k.buffer ≤ bound
    pub holds : Holds format time channel before msgkey kvs k.buffer k.sent

  pub Gone-Loop :
      {kvs : List (Bytes × ℕ)} {lasthash msgkey : ℕ} {k k' : Kafka B} (bound last next : ℕ)
      → Loop bound kvs lasthash msgkey k
      → 0 < length k.buffer
      → Gone msgkey k k'
      → Loop (buffer_len / 2) kvs last next k'
  Gone-Loop {kvs} {lasthash} {msgkey} {k} {k'} bound last next l some_bytes g =
      let empty : length k'.buffer ≡ 0 = ap (λ (b : Bytes). length b) g.buffer in
      record {
        name = g.config.name ∙ l.name;
        name_len = g.config.name_len ∙ l.name_len;
        format_kept = g.config.format ∙ l.format_kept;
        last = λ _ h. absurd (omega (arith, empty));
        current = λ _ h. absurd (omega (arith, empty));
        half = omega (arith, empty);
        holds =
            subst (λ s. Holds format time channel before next kvs k'.buffer s) (sym g.sent)
              (subst
                (λ b.
                  Holds format time channel before next kvs b (k.sent ++ ((msgkey, k.buffer) ∷ [])))
                (sym g.buffer) (Holds-Gone format time channel before next l.holds some_bytes));
      }

  pub put_record-Loop :
      {kvs : List (Bytes × ℕ)} {lasthash msgkey : ℕ} {k : Kafka B} (last next : ℕ) (key : Bytes)
      (value : ℕ)
      → Loop (buffer_len / 2) kvs lasthash msgkey k
      → (0 < length k.buffer → msgkey ≡ next)
      → key_for format time key ≡ next
      → (format ≡ format_tsk_keypart → last ≡ next)
      → (format ≡ format_tsk → next ≡ time)
      → length key < 65535
      → length channel < 2 ^ 16
      → (k' : Kafka B) × (put_record time key value k ≡ done (success, k'))
        × Loop buffer_len (kvs ++ ((key, value) ∷ [])) last next k'
  put_record-Loop {kvs} {lasthash} {msgkey} {k} last next key value l same keyed last_next next_time
        hk hc =
      let size : length (k.channel_name) ≡ length channel = ap (λ (b : Bytes). length b) l.name in
      (
        _,
        put_record_lem time key value k (l.name_len ∙ sym size) (omega (arith, size)) hk l.half,
        record {
          name = l.name;
          name_len = l.name_len;
          format_kept = l.format_kept;
          last = λ e _. last_next e;
          current = λ e _. next_time e;
          half = room k.buffer (omega (arith, size)) l.half;
          holds =
              subst
                (λ c.
                  Holds format time channel before next (kvs ++ ((key, value) ∷ []))
                    (base (header_bytes time c) k.buffer ++ kv_bytes key value) k.sent)
                (sym l.name)
                (Holds-put format time channel before next key value l.holds same keyed hk);
        },
      )
    where
      room :
          (b : Bytes)
          → length k.channel_name < 2 ^ 16
          → length b ≤ buffer_len / 2
          → length (base (header_bytes time k.channel_name) b ++ kv_bytes key value) ≤ buffer_len
      room [] h half = omega (
        arith,
        length-append (header_bytes time k.channel_name) (kv_bytes key value),
        length-header_bytes time k.channel_name,
        length-kv_bytes key value,
      )
      room (b ∷ bs) h half =
          omega (arith, length-append (b ∷ bs) (kv_bytes key value), length-kv_bytes key value)

module _ {B : Type 0} (lib : Librdkafka B) (fuel : ℕ) (format : Format) (time : ℕ) (channel : Bytes)
    (before : List (ℕ × Bytes))
    (willing : (msgkey : ℕ) (payload : Bytes) (b : B) → Accepts lib msgkey payload fuel b) where
  abbrev LoopOf : ℕ → List (Bytes × ℕ) → ℕ → ℕ → Kafka B → Type 0
  LoopOf bound kvs lasthash msgkey k = Loop format time channel before bound kvs lasthash msgkey k

  pub send_if_full-Loop :
      {kvs : List (Bytes × ℕ)} {lasthash msgkey : ℕ} {k : Kafka B}
      → LoopOf buffer_len kvs lasthash msgkey k
      → (k' : Kafka B) × (send_if_full lib fuel msgkey k ≡ done (success, k'))
        × LoopOf (buffer_len / 2) kvs lasthash msgkey k'
  unfolding send_if_full
  send_if_full-Loop {kvs} {lasthash} {msgkey} {k} l =
      elim (Bool-cases (ltb (buffer_len / 2) (length k.buffer))) [
        | inl full ↦
            let some_bytes : 0 < length k.buffer = ground arith in
            let (k', e, g) =
              send_msg-Gone lib fuel msgkey k some_bytes (willing msgkey k.buffer k.broker) in
            (
              k',
              rw full e,
              Gone-Loop format time channel before buffer_len lasthash msgkey l some_bytes g,
            )
        | inr room ↦ (
          k,
          rw room refl,
          record {
            name = l.name;
            name_len = l.name_len;
            format_kept = l.format_kept;
            last = l.last;
            current = l.current;
            half = ground arith;
            holds = l.holds;
          },
        )
      ]

  -- The message that ends because the hash of the next key differs.
  pub part-Loop :
      {kvs : List (Bytes × ℕ)} {lasthash msgkey : ℕ} {k : Kafka B} (hash : ℕ)
      → format ≡ format_tsk_keypart
      → LoopOf (buffer_len / 2) kvs lasthash msgkey k
      → (k' : Kafka B) × ((if not (hash == lasthash) && ltb 0 (length k.buffer)
            then send_msg lib fuel lasthash k
            else done (success, k))
          ≡ done (success, k'))
        × (m : ℕ) × LoopOf (buffer_len / 2) kvs lasthash m k'
        × (0 < length k'.buffer → m ≡ hash)
  part-Loop {kvs} {lasthash} {msgkey} {k} hash keypart l =
      elim (Bool-cases (not (hash == lasthash) && ltb 0 (length k.buffer))) [
        | inl new ↦
            let some_bytes : 0 < length k.buffer = ground arith in
            let same : lasthash ≡ msgkey = l.last keypart some_bytes in
            let (k', e, g) =
              send_msg-Gone lib fuel lasthash k some_bytes (willing lasthash k.buffer k.broker) in
            (
              k',
              rw new e,
              hash,
              Gone-Loop format time channel before (buffer_len / 2) lasthash hash l some_bytes
                  (subst (λ m. Gone m k k') same g),
              λ _. refl,
            )
        | inr old ↦ (
          k,
          rw old refl,
          msgkey,
          l,
          λ h. let same : lasthash ≡ msgkey = l.last keypart h in ground arith,
        )
      ]
