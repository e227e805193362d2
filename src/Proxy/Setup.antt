-- ===== src/Proxy/Setup.antt =====
-- tools/tsk-proxy.c: init_kafka, init_timeseries and init_stats_timeseries.
pub mod Prepared
pub mod Begun
use libtimeseries.Base.{
  ℕ, ◌-◌, Bool, true, false, not, Option, none, some, List, [], ◌∷◌, ◌++◌, Bytes, codes, set, ◌==◌,
  if◌then◌else◌, Outcome, done, ◌>>=◌, Status, success, failure,
}
use libtimeseries.Platform.{Platform}
use libtimeseries.KeyPackage.{KeyPackage, flag_reset, flag_disable}
use libtimeseries.Backend.{Backend}
use libtimeseries.Timeseries.{Timeseries, timeseries_init, get_backend_by_name, enable_backend}
use libtimeseries.Flush.{kp_init}
use libtimeseries.Kafka.Setup.{text_at}
use libtimeseries.Proxy.{stats_interval_now}
use libtimeseries.Proxy.Config.{TskConfig}

-- librdkafka as the consumer uses it: a configuration, a handle, and the topic that it subscribes to.
pub record Consumer (E : Type 0) : Type 0 where
  pub conf_new : E → E
  -- whether the answer is RD_KAFKA_CONF_OK; a value may be NULL
  pub conf_set : E → Bytes → Option Bytes → Bool × E
  pub consumer_new : E → Bool × E
  pub brokers_add : E → Bytes → ℕ × E
  pub subscribe : E → Bytes → Bool × E

-- The name of the topic, and of the group.
abbrev pub dotted : Bytes → Bytes → Bytes
dotted a b = a ++ (46 ∷ b)

module _ {E : Type 0} (consumer : Consumer E) where
  -- init_kafka from rd_kafka_new on.
  unfoldable pub new_consumer : Bytes → Option Bytes → E → Outcome (Bool × E)
  new_consumer topic_name brokers e =
      let made = consumer.consumer_new e in
      if not made.0 then done (false, made.1) else do
        uri ← text_at brokers
        let added : ℕ × E = consumer.brokers_add made.1 uri
        done (if added.0 == 0 then (false, added.1) else consumer.subscribe added.1 topic_name)

  -- The two settings of init_kafka.
  unfoldable pub configure_consumer : Option Bytes → Bytes → E → Bool × E
  configure_consumer offset group_id e =
      let reset = consumer.conf_set (consumer.conf_new e) (codes "auto.offset.reset") offset in
      let group = consumer.conf_set reset.1 (codes "group.id") (some group_id) in
      if not reset.0 then reset else group

  -- init_kafka: whether there is a handle; asprintf has memory.
  unfoldable pub init_kafka : TskConfig → E → Outcome (Bool × E)
  unfolding configure_consumer new_consumer
  init_kafka cfg e = do
    topic_prefix ← text_at cfg.kafka_topic_prefix
    channel ← text_at cfg.kafka_channel
    consumer_group ← text_at cfg.kafka_consumer_group
    let topic_name : Bytes = dotted topic_prefix channel
    let configured : Bool × E =
        configure_consumer cfg.kafka_offset (dotted consumer_group topic_name) e
    if configured.0 then new_consumer topic_name cfg.kafka_brokers configured.1 else done configured

module _ ⦃P : Platform⦄ {S : Type 0} where
  -- The backend that was changed through its pointer, in its slot.
  abbrev pub put_backend : Timeseries S → Backend S → Timeseries S
  put_backend timeseries backend = record {
    backends = set timeseries.backends (backend.id - 1) (some backend);
  }

  -- The key package of init_timeseries and of init_stats_timeseries.
  unfoldable pub start_package : ℕ → Timeseries S → Outcome (Option (Timeseries S × KeyPackage))
  start_package flags timeseries = do
    (kp, ts) ← kp_init timeseries flags
    done (elim kp [ none ↦ none | some new ↦ some (ts, new) ])

  abbrev pub if_enabled :
      ℕ → Timeseries S → Status × Backend S → Outcome (Option (Timeseries S × KeyPackage))
  if_enabled flags timeseries (failure, backend) = done none
  if_enabled flags timeseries (success, backend) =
      start_package flags (put_backend timeseries backend)

  abbrev pub if_found :
      (Bytes → Bytes → List Bytes)
      → ℕ
      → Option Bytes
      → Timeseries S
      → Option (Backend S)
      → Outcome (Option (Timeseries S × KeyPackage))
  if_found parse_cmd flags opts timeseries none = done none
  if_found parse_cmd flags opts timeseries (some backend) =
      enable_backend parse_cmd backend opts >>= if_enabled flags timeseries

  abbrev pub if_initialised :
      (Bytes → Bytes → List Bytes)
      → ℕ
      → Option Bytes
      → Option Bytes
      → Option (Timeseries S)
      → Outcome (Option (Timeseries S × KeyPackage))
  if_initialised parse_cmd flags name opts none = done none
  if_initialised parse_cmd flags name opts (some timeseries) = do
    backend_name ← text_at name
    if_found parse_cmd flags opts timeseries (get_backend_by_name timeseries backend_name)

  -- What init_timeseries and init_stats_timeseries have in common; `none` is the result 1.
  -- `functions` and `memory` are those of timeseries_init.
  unfoldable pub start_timeseries :
      List (Option (Backend S))
      → (ℕ → Bool)
      → (Bytes → Bytes → List Bytes)
      → ℕ
      → Option Bytes
      → Option Bytes
      → Outcome (Option (Timeseries S × KeyPackage))
  unfolding start_package
  start_timeseries functions memory parse_cmd flags name opts =
      timeseries_init functions memory >>= if_initialised parse_cmd flags name opts

  -- init_timeseries
  abbrev pub init_timeseries :
      List (Option (Backend S))
      → (ℕ → Bool)
      → (Bytes → Bytes → List Bytes)
      → TskConfig
      → Outcome (Option (Timeseries S × KeyPackage))
  init_timeseries functions memory parse_cmd cfg =
      start_timeseries functions memory parse_cmd flag_disable cfg.timeseries_backend
        cfg.timeseries_dbats_opts

  abbrev pub with_time :
      ℕ → ℕ → Option (Timeseries S × KeyPackage) → Outcome (Option (Timeseries S × KeyPackage × ℕ))
  with_time t stats_interval none = done none
  with_time t stats_interval (some (ts, kp)) =
      stats_interval_now t stats_interval >>= λ now. done (some (ts, kp, now))

  -- init_stats_timeseries at the time `t` of the clock, with stats_time.
  abbrev pub init_stats_timeseries :
      List (Option (Backend S))
      → (ℕ → Bool)
      → (Bytes → Bytes → List Bytes)
      → TskConfig
      → ℕ
      → ℕ
      → Outcome (Option (Timeseries S × KeyPackage × ℕ))
  init_stats_timeseries functions memory parse_cmd cfg stats_interval t =
      start_timeseries functions memory parse_cmd flag_reset cfg.stats_ts_backend cfg.stats_ts_opts
      >>= with_time t stats_interval
