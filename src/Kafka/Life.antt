-- ===== src/Kafka/Life.antt =====
-- lib/backends/timeseries_backend_kafka.c: timeseries_backend_kafka_init and
-- timeseries_backend_kafka_free, the functions of a key package, and the backend as a record of
-- operations.
use libtimeseries.Base.{
  ℕ, zero, suc, ◌-◌, Bool, true, false, Option, none, some, List, [], ◌∷◌, Bytes, ltb, ◌==◌,
  if◌then◌else◌, Outcome, done, fault, assertion, undefined, ◌>>=◌, Status, success, failure,
}
use libtimeseries.Platform.{Platform}
use libtimeseries.Backend.{Ops}
use libtimeseries.Kafka.{Kafka, kafka_kp_flush, kafka_set_single}
use libtimeseries.Kafka.Setup.{Client, KafkaState, Link, fresh_state, parse_args, kafka_connect}

-- The state of the backend, NULL before its init, what is behind the handles, the messages that
-- the library has taken, the seconds of each sleep, and the numbers of producers and of topics that
-- have been made and not destroyed.
pub record KafkaBackend (B : Type 0) : Type 0 where
  pub state : Option KafkaState
  pub broker : B
  pub sent : List (ℕ × Bytes)
  pub slept : List ℕ
  pub producers : ℕ
  pub topics : ℕ

-- The name of the channel; where it is NULL its length is 0.
abbrev pub name_of : Option Bytes → Bytes
name_of none = []
name_of (some name) = name

module _ {B : Type 0} where
  abbrev pub linked : KafkaBackend B → KafkaState → Link B
  linked k state = record {
    state = state;
    broker = k.broker;
    slept = k.slept;
    producers = k.producers;
    topics = k.topics;
  }

  abbrev pub after_link : KafkaBackend B → Link B → KafkaBackend B
  after_link k l = record k {
    state = some l.state;
    broker = l.broker;
    slept = l.slept;
    producers = l.producers;
    topics = l.topics;
  }

  -- The backend as the code that sends messages uses it.
  abbrev pub sender : KafkaBackend B → KafkaState → Kafka B
  sender k state = record {
    channel_name = name_of state.channel_name;
    channel_name_len = state.channel_name_len;
    format = state.format;
    buffer = state.buffer;
    connected = state.connected;
    fatal_error = state.fatal_error;
    broker = k.broker;
    sent = k.sent;
  }

  abbrev pub after_sending : KafkaBackend B → KafkaState → Kafka B → KafkaBackend B
  after_sending k state s = record k {
    state =
        some (record state {
          buffer = s.buffer;
          connected = s.connected;
          fatal_error = s.fatal_error;
        });
    broker = s.broker;
    sent = s.sent;
  }

  -- An operation on STATE(backend).
  unfoldable pub with_sender :
      (Kafka B → Outcome (Status × Kafka B)) → KafkaBackend B → Outcome (Status × KafkaBackend B)
  with_sender send k = elim k.state [
    | none ↦ fault undefined
    | some state ↦ do (rc, s) ← send (sender k state); done (rc, after_sending k state s)
  ]

module _ {B : Type 0} (client : Client B) where
  -- The loop of timeseries_backend_kafka_free, with the polls left.
  unfoldable pub drain : ℕ → B → B
  drain zero b = b
  drain (suc drain_wait_cnt) b =
      let rest = drain drain_wait_cnt (client.messages.poll b 5000).1 in
      if ltb 0 (client.outq_len b) then rest else b

  unfoldable pub drained_queue : KafkaBackend B → KafkaBackend B
  unfolding drain
  drained_queue k = record k { broker = drain 12 (client.messages.poll k.broker 0).1 }

  abbrev pub without_one_topic : KafkaBackend B → KafkaBackend B
  without_one_topic k = record k { broker = client.topic_destroy k.broker; topics = k.topics - 1 }

  abbrev pub without_one_producer : KafkaBackend B → KafkaBackend B
  without_one_producer k = record k {
    broker = client.destroy k.broker;
    producers = k.producers - 1;
  }

  -- What timeseries_backend_kafka_free does with the handles.
  unfoldable pub release : KafkaState → KafkaBackend B → KafkaBackend B
  unfolding drained_queue
  release state k =
      let drained = if state.rdk_conn then drained_queue k else k in
      let without_topic = if state.rkt then without_one_topic drained else drained in
      if state.rdk_conn then without_one_producer without_topic else without_topic

  -- timeseries_backend_kafka_free
  unfoldable pub kafka_free : KafkaBackend B → Outcome (KafkaBackend B)
  unfolding release
  kafka_free k = elim k.state [
    | none ↦ done k
    | some state ↦ done (release state (record k { state = none }))
  ]

  -- timeseries_backend_kafka_init behind kafka_connect, with `goto err` on a failure.
  unfoldable pub or_free : KafkaBackend B → Status × Link B → Outcome (Status × KafkaBackend B)
  unfolding kafka_free
  or_free k (success, l) = done (success, after_link k l)
  or_free k (failure, l) = do freed ← kafka_free (after_link k l); done (failure, freed)

  abbrev pub if_parsed : KafkaBackend B → Status × KafkaState → Outcome (Status × KafkaBackend B)
  if_parsed k (failure, state) = done (failure, record k { state = some state })
  if_parsed k (success, state) = kafka_connect client (linked k state) >>= or_free k

  -- timeseries_backend_kafka_init; `memory` is the answer of malloc_zero.
  unfoldable pub kafka_init : Bool → KafkaBackend B → List Bytes → Outcome (Status × KafkaBackend B)
  unfolding parse_args kafka_connect or_free
  kafka_init false k argv = done (failure, k)
  kafka_init true k argv = parse_args argv fresh_state >>= if_parsed k

-- timeseries_backend_kafka_resolve_key: the length 0 and a NULL id.
abbrev pub kafka_resolve_key :
    {B : Type 0} → KafkaBackend B → Bytes → Outcome (ℕ × Option Bytes × KafkaBackend B)
kafka_resolve_key k key = done (0, none, k)

-- timeseries_backend_kafka_resolve_key_bulk
unfoldable pub kafka_resolve_key_bulk :
    {B : Type 0} → KafkaBackend B → List Bytes → Outcome (Status × KafkaBackend B)
kafka_resolve_key_bulk k [] = done (success, k)
kafka_resolve_key_bulk k (key ∷ keys) = do
  (len, id, k') ← kafka_resolve_key k key
  let rest = kafka_resolve_key_bulk k' keys
  if len == 0 then done (failure, k') else rest

module _ ⦃P : Platform⦄ {B : Type 0} (client : Client B) where
  -- The functions that TIMESERIES_BACKEND_GENERATE_PTRS(kafka) names; three are not implemented.
  unfoldable pub kafka_ops : ℕ → Ops (KafkaBackend B)
  unfolding kafka_init kafka_free kafka_kp_flush kafka_set_single with_sender
  kafka_ops fuel = record {
    init = kafka_init client true;
    free = kafka_free client;
    kp_init = λ k kp. done (success, none, k);
    kp_free = λ k kp kp_state. elim kp_state [ none ↦ done k | some p ↦ fault assertion ];
    kp_ki_update = λ k kp. done (success, kp, k);
    kp_ki_free = λ k ki ki_state. elim ki_state [ none ↦ done k | some p ↦ fault assertion ];
    kp_flush = λ k kp time. with_sender (λ s. kafka_kp_flush client.messages fuel s kp time) k;
    set_single = λ k key value time.
        with_sender (λ s. kafka_set_single client.messages fuel s key value time) k;
    set_single_by_id = λ k id value time len. fault assertion;
    set_bulk_init = λ k key_cnt time. fault assertion;
    set_bulk_by_id = λ k id len value. fault assertion;
    resolve_key = kafka_resolve_key;
  }
