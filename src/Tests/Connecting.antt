-- ===== src/Tests/Connecting.antt =====
-- A broker that is not there at first, and the theorems on the Kafka backend's life at its arguments.
use libtimeseries.Base.{
  ℕ, zero, suc, ◌≤◌, ◌<◌, ◌≡◌, ◌⊎◌, inl, refl, true, none, some, List, [], ◌∷◌, ◌++◌, Bytes, codes,
  arith, done, success,
}
use libtimeseries.Kafka.{KafkaError, transport, accepted, format_tsk, single_key}
use libtimeseries.Kafka.Send.{now}
use libtimeseries.Kafka.Setup.{Client, KafkaState, fresh_state}
use libtimeseries.Kafka.Life.{KafkaBackend, kafka_free, kafka_init, kafka_ops}
use libtimeseries.Kafka.First.{set_single-kafka_init}
use libtimeseries.Kafka.Drained.{after_polls, kafka_free_lem}
use libtimeseries.Proxy.RoundTrip.{header_bytes, kv_bytes}
use libtimeseries.Tests.Fixtures.{platform, key_a}

-- The number of polls that report a transport error before the broker is there.
abbrev poll_broker : ℕ → List KafkaError × ℕ
poll_broker zero = ([], zero)
poll_broker (suc n) = (transport ∷ [], n)

abbrev client : Client ℕ
client = record {
  messages = record { produce = λ b msgkey payload. (accepted, b); poll = λ b ms. poll_broker b };
  topic_conf_new = λ b. (true, b);
  conf_new = λ b. b;
  conf_set = λ b name text. (true, b);
  producer_new = λ b. (true, b);
  brokers_add = λ b uri. (1, b);
  topic_new = λ b name partitioner. (true, b);
  outq_len = λ b. b;
  topic_destroy = λ b. b;
  destroy = λ b. b;
}

abbrev unset : KafkaBackend ℕ
unset = record { state = none; broker = 2; sent = []; slept = []; producers = 0; topics = 0 }

abbrev words : List Bytes
words = codes "-b" ∷ codes "host" ∷ codes "-c" ∷ codes "ch" ∷ codes "-p" ∷ codes "tsk" ∷ []

abbrev ready_state : KafkaState
ready_state = record fresh_state {
  broker_uri = some (codes "host");
  channel_name = some (codes "ch");
  channel_name_len = 2;
  topic_prefix = some (codes "tsk");
  connected = true;
  rdk_conn = true;
  topic_name = codes "tsk.ch";
  rkt = true;
}

-- Two tries fail, so that it has slept for ten seconds and for twenty, and has made three producers.
abbrev ready : KafkaBackend ℕ
ready = record {
  state = some ready_state;
  broker = 0;
  sent = [];
  slept = 10 ∷ 20 ∷ [];
  producers = 3;
  topics = 1;
}

ready-initialised : kafka_init client true unset (codes "kafka" ∷ words) ≡ done (success, ready)
unfolding kafka_init
ready-initialised = refl

-- The required arguments without a prefix.
abbrev no_prefix_words : List Bytes
no_prefix_words = codes "-b" ∷ codes "host" ∷ codes "-c" ∷ codes "ch" ∷ []

abbrev null_prefix : KafkaBackend ℕ
null_prefix = record ready {
  state = some (record ready_state { topic_prefix = none; topic_name = codes "(null).ch" });
}

set_single-kafka_init_example :
    (channel_name : Bytes) × (k'' : KafkaBackend ℕ) × (ready_state.channel_name ≡ some channel_name)
    × ((kafka_ops client 1).set_single ready key_a 3 60 ≡ done (success, k''))
    × (k''.sent
        ≡ (single_key format_tsk key_a 60, header_bytes 60 channel_name ++ kv_bytes key_a 3) ∷ [])
set_single-kafka_init_example =
    set_single-kafka_init client 1 unset ready (codes "kafka" ∷ words) ready_state key_a 3 60 refl
      (unfold kafka_ops in ready-initialised) refl (inl refl) (λ m p b. now 0 b refl) (omega arith)

kafka_free_lem_example :
    (b : ℕ) × (kafka_free client (record ready { broker = 14 })
      ≡ done (record ready { state = none; broker = b; producers = 2; topics = 0 }))
    × ((n : ℕ) × (b ≡ after_polls client n 13)
        × (n ≤ 12)
        × ((b ≡ 0) ⊎ (n ≡ 12))
        × ((m : ℕ) → m < n → 0 < after_polls client m 13))
kafka_free_lem_example =
    kafka_free_lem client (record ready { broker = 14 }) ready_state refl refl refl
