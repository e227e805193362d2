-- ===== src/Kafka/First.antt =====
-- lib/backends/timeseries_backend_kafka.c: the topic of timeseries_backend_kafka_init without a
-- prefix, and the first value that is set after it.
use mathlib.Core.Path.{subst, ap₂}
use libtimeseries.Base.{
  ℕ, ◌^◌, ◌<◌, ◌≡◌, ◌⊎◌, refl, sym, ap, ◌∙◌, true, Option, none, some, List, [], ◌∷◌, ◌++◌, Bytes,
  length, length-append, arith, Outcome, done, fault, undefined, ◌>>=◌, Status, success,
}
use libtimeseries.Platform.{Platform}
use libtimeseries.Kafka.{format_tsk, format_tsk_keypart, Kafka, single_key, kafka_set_single}
use libtimeseries.Kafka.Send.{Accepts}
use libtimeseries.Kafka.Single.{kafka_set_single_lem}
use libtimeseries.Proxy.RoundTrip.{header_bytes, kv_bytes}
use libtimeseries.Kafka.Setup.{Client, KafkaState, printed_text}
use libtimeseries.Kafka.Life.{KafkaBackend, name_of, sender, after_sending, with_sender, kafka_ops}
use libtimeseries.Kafka.Ready.{IsReady, kafka_init-Initialised}

abbrev HasNoPrefix : KafkaState → Type 0
HasNoPrefix state = state.topic_prefix ≡ none

with_sender-done :
    {B : Type 0} (send : Kafka B → Outcome (Status × Kafka B)) (k : KafkaBackend B)
    (state : KafkaState) (s : Kafka B)
    → k.state ≡ some state
    → send (sender k state) ≡ done (success, s)
    → with_sender send k ≡ done (success, after_sending k state s)
with_sender-done {B} send k state s at h =
    unfold with_sender in
    (ap
      (λ (o : Option KafkaState). elim o [
        | none ↦ fault undefined
        | some st ↦ send (sender k st) >>= finish st
      ])
      at)
    ∙ ap (λ (o : Outcome (Status × Kafka B)). o >>= finish state) h
  where
    finish : KafkaState → Status × Kafka B → Outcome (Status × KafkaBackend B)
    finish st (rc, x) = done (rc, after_sending k st x)

module _ ⦃P : Platform⦄ {B : Type 0} (client : Client B) where
  -- After timeseries_backend_kafka_init has returned 0 for a format of batches, where the library takes
  -- the message at the latest at the try that the fuel allows, setting a value of a key that fits 16
  -- bits through the backend's operations succeeds: the library has that one message, the header of the
  -- time and of the channel with the record of the pair.
  pub set_single-kafka_init :
      (fuel : ℕ) (k k' : KafkaBackend B) (argv : List Bytes) (state : KafkaState) (key : Bytes)
      (value time : ℕ)
      → k.state ≡ none
      → (kafka_ops client fuel).init k argv ≡ done (success, k')
      → k'.state ≡ some state
      → (state.format ≡ format_tsk) ⊎ (state.format ≡ format_tsk_keypart)
      → ((msgkey : ℕ) (payload : Bytes) (b : B) → Accepts client.messages msgkey payload fuel b)
      → length key < 65535
      → (channel_name : Bytes) × (k'' : KafkaBackend B) × (state.channel_name ≡ some channel_name)
        × ((kafka_ops client fuel).set_single k' key value time ≡ done (success, k''))
        × (k''.sent
            ≡ k.sent
              ++ ((
                single_key state.format key time,
                header_bytes time channel_name ++ kv_bytes key value,
              )
                  ∷ []))
  set_single-kafka_init fuel k k' argv state key value time e ran at batches willing hk =
      let inited =
        kafka_init-Initialised client k argv true (success, k') (unfold kafka_ops in ran) in
      let (state', at', _, ready') = inited.ready refl in
      let ready : IsReady state = subst IsReady (some_inj (sym at' ∙ at)) ready' in
      let named = ap name_of ready.channel_given in
      let (s, sent_one, sent, _) =
        kafka_set_single_lem client.messages fuel (sender k' state) key value time willing batches
          (ready.name_len ∙ sym (ap (λ (b : Bytes). length b) named))
          (short_name ready (ap (λ (b : Bytes). length b) named)) hk ready.buffer in
      (
        ready.channel_name,
        after_sending k' state s,
        ready.channel_given,
        unfold kafka_ops in
            (with_sender-done
              (λ (x : Kafka B). kafka_set_single client.messages fuel x key value time) k' state s
              at sent_one),
        sent ∙ ap₂ (message state) inited.sent named,
      )
    where
      some_inj : {a b : KafkaState} → some a ≡ some b → a ≡ b
      some_inj h = cc

      message : KafkaState → List (ℕ × Bytes) → Bytes → List (ℕ × Bytes)
      message state before name =
          before
          ++ ((single_key state.format key time, header_bytes time name ++ kv_bytes key value) ∷ [])

      short_name : {n : ℕ} → (r : IsReady state) → n ≡ length r.channel_name → n < 2 ^ 16
      short_name r h =
          omega (
            arith,
            length-append (printed_text state.topic_prefix) (46 ∷ r.channel_name),
            r.short,
            h,
          )
