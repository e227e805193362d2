-- ===== src/Kafka/Started.antt =====
-- lib/backends/timeseries_backend_kafka.c: timeseries_backend_kafka_init returns, and the handles
-- that it leaves.
use libtimeseries.Base.{
  ℕ, suc, ◌+◌, ◌-◌, ◌≤◌, ◌≡◌, Bool, [], ◌∷◌, ◌++◌, take, Outcome, done, Status, success, failure,
}
use libtimeseries.Kafka.Setup.{Client}
use libtimeseries.Kafka.Life.{KafkaBackend}
use libtimeseries.Kafka.Connect.{one_if}

module _ {B : Type 0} where
  -- The handles behind kafka_init with this number of sleeps: before each sleep a producer was made that
  -- nothing destroys. On success there are one more producer and one topic; on a failure there is no topic,
  -- and the producer of the handle has been destroyed.
  abbrev pub Left : KafkaBackend B → ℕ → Status → KafkaBackend B → Type 0
  Left k n success k' = (k'.producers ≡ suc (k.producers + n)) × (k'.topics ≡ suc k.topics)
  Left k n failure k' =
      (k.producers + n ≤ suc k'.producers)
      × (k'.producers ≤ k.producers + n)
      × (k'.topics ≡ k.topics)

module _ {B : Type 0} (client : Client B) where
  -- What the release of a backend without a topic changes.
  abbrev Freed : Bool → KafkaBackend B → KafkaBackend B → Type 0
  Freed rdk_conn k k' =
      (k'.producers ≡ k.producers - one_if rdk_conn) × (k'.topics ≡ k.topics) × (k'.slept ≡ k.slept)

  -- A call that returns, after the first of the sleeps, with these handles.
  abbrev ReturnsFrom : KafkaBackend B → Outcome (Status × KafkaBackend B) → Type 0
  ReturnsFrom k ran =
      (rc : Status) × (k' : KafkaBackend B) × (ran ≡ done (rc, k'))
      × ((n : ℕ) × (k'.slept ≡ k.slept ++ take n (10 ∷ 20 ∷ 40 ∷ 80 ∷ 160 ∷ 180 ∷ 180 ∷ []))
          × Left k n rc k')
