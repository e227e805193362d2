-- ===== src/Proxy/Config/Keys.antt =====
-- What a key of the file does in parse_config_file of tools/tsk-proxy.c, told apart by its name.
use mathlib.Core.Path.{subst}
use libtimeseries.Base.{
  ℕ, ◌<◌, ◌≡◌, refl, sym, true, false, ◌||◌, Option, some, List, [], ◌∷◌, ◌++◌, Bytes, codes,
  length, lt→ltb, Bool-cases, if◌then◌else◌, done, fault, inl, inr, str_eq, eq_of_str_eq,
}
use libtimeseries.Getopt.{atoi}
use libtimeseries.Proxy.Config.{Settings, setting_of, store_text, store_int}
use libtimeseries.Proxy.Config.Pairs.{configure}

-- The last value that the pairs give to a key, as `read` reads it; `old` where there is none.
unfoldable pub last_of : {A : Type 0} → (Bytes → A) → Bytes → List (Bytes × Bytes) → A → A
last_of read key [] old = old
last_of read key ((k, value) ∷ pairs) old =
    last_of read key pairs (if str_eq k key then read value else old)

-- All values that the pairs give to a key.
unfoldable pub values_of : Bytes → List (Bytes × Bytes) → List Bytes
values_of key [] = []
values_of key ((k, value) ∷ pairs) =
    let rest = values_of key pairs in if str_eq k key then value ∷ rest else rest

-- The number that atoi gives.
unfoldable pub number : Bytes → ℕ
number text = elim (atoi text) [ done n ↦ n | fault e ↦ 0 ]

-- The value of a key that stands for a number is one that atoi converts.
abbrev pub IsNumber : Bytes × Bytes → Type 0
IsNumber (key, value) =
    (str_eq key (codes "log-level") || str_eq key (codes "stats-interval")) ≡ true
    → atoi value ≡ done (number value)

-- Filters that are given.
unfoldable pub all_given : List Bytes → List (Option Bytes)
all_given [] = []
all_given (text ∷ texts) = some text ∷ all_given texts

-- The settings behind the pairs, each under the name of its key.
abbrev pub described : List (Bytes × Bytes) → Settings → Settings
described pairs s = record {
  cfg = record s.cfg {
    timeseries_backend = last_of some (codes "timeseries-backend") pairs s.cfg.timeseries_backend;
    timeseries_dbats_opts =
        last_of some (codes "timeseries-dbats-opts") pairs s.cfg.timeseries_dbats_opts;
    kafka_brokers = last_of some (codes "kafka-brokers") pairs s.cfg.kafka_brokers;
    kafka_topic_prefix = last_of some (codes "kafka-topic-prefix") pairs s.cfg.kafka_topic_prefix;
    kafka_channel = last_of some (codes "kafka-channel") pairs s.cfg.kafka_channel;
    kafka_consumer_group =
        last_of some (codes "kafka-consumer-group") pairs s.cfg.kafka_consumer_group;
    kafka_offset = last_of some (codes "kafka-offset") pairs s.cfg.kafka_offset;
    stats_ts_backend = last_of some (codes "stats-ts-backend") pairs s.cfg.stats_ts_backend;
    stats_ts_opts = last_of some (codes "stats-ts-opts") pairs s.cfg.stats_ts_opts;
    filters = s.cfg.filters ++ all_given (values_of (codes "filter-prefix") pairs);
  };
  log_level = last_of number (codes "log-level") pairs s.log_level;
  stats_interval = last_of number (codes "stats-interval") pairs s.stats_interval;
}

-- The settings behind one pair.
abbrev pub after_pair : Bytes × Bytes → Settings → Settings
after_pair (k, value) s = record {
  cfg = record s.cfg {
    timeseries_backend =
        if str_eq k (codes "timeseries-backend") then some value else s.cfg.timeseries_backend;
    timeseries_dbats_opts =
        if str_eq k (codes "timeseries-dbats-opts")
        then some value
        else s.cfg.timeseries_dbats_opts;
    kafka_brokers = if str_eq k (codes "kafka-brokers") then some value else s.cfg.kafka_brokers;
    kafka_topic_prefix =
        if str_eq k (codes "kafka-topic-prefix") then some value else s.cfg.kafka_topic_prefix;
    kafka_channel = if str_eq k (codes "kafka-channel") then some value else s.cfg.kafka_channel;
    kafka_consumer_group =
        if str_eq k (codes "kafka-consumer-group") then some value else s.cfg.kafka_consumer_group;
    kafka_offset = if str_eq k (codes "kafka-offset") then some value else s.cfg.kafka_offset;
    stats_ts_backend =
        if str_eq k (codes "stats-ts-backend") then some value else s.cfg.stats_ts_backend;
    stats_ts_opts = if str_eq k (codes "stats-ts-opts") then some value else s.cfg.stats_ts_opts;
    filters =
        if str_eq k (codes "filter-prefix")
        then s.cfg.filters ++ (some value ∷ [])
        else s.cfg.filters;
  };
  log_level = if str_eq k (codes "log-level") then number value else s.log_level;
  stats_interval = if str_eq k (codes "stats-interval") then number value else s.stats_interval;
}

-- A key that is none of the supported ones.
abbrev IsOther : Bytes → Type 0
IsOther k =
    (str_eq k (codes "log-level") ≡ false)
    × (str_eq k (codes "filter-prefix") ≡ false)
    × (str_eq k (codes "timeseries-backend") ≡ false)
    × (str_eq k (codes "timeseries-dbats-opts") ≡ false)
    × (str_eq k (codes "kafka-brokers") ≡ false)
    × (str_eq k (codes "kafka-topic-prefix") ≡ false)
    × (str_eq k (codes "kafka-channel") ≡ false)
    × (str_eq k (codes "kafka-consumer-group") ≡ false)
    × (str_eq k (codes "kafka-offset") ≡ false)
    × (str_eq k (codes "stats-interval") ≡ false)
    × (str_eq k (codes "stats-ts-backend") ≡ false)
    × (str_eq k (codes "stats-ts-opts") ≡ false)

-- A key is a supported one, or another.
by_key :
    (P : Bytes → Type 0) (k : Bytes)
    → P (codes "log-level")
    → P (codes "filter-prefix")
    → P (codes "timeseries-backend")
    → P (codes "timeseries-dbats-opts")
    → P (codes "kafka-brokers")
    → P (codes "kafka-topic-prefix")
    → P (codes "kafka-channel")
    → P (codes "kafka-consumer-group")
    → P (codes "kafka-offset")
    → P (codes "stats-interval")
    → P (codes "stats-ts-backend")
    → P (codes "stats-ts-opts")
    → (IsOther k → P k)
    → P k
by_key P k p0 p1 p2 p3 p4 p5 p6 p7 p8 p9 p10 p11 other =
    elim (Bool-cases (str_eq k (codes "log-level"))) [
      | inl e ↦ subst P (sym (eq_of_str_eq k (codes "log-level") e)) p0
      | inr n0 ↦ elim (Bool-cases (str_eq k (codes "filter-prefix"))) [
        | inl e ↦ subst P (sym (eq_of_str_eq k (codes "filter-prefix") e)) p1
        | inr n1 ↦ elim (Bool-cases (str_eq k (codes "timeseries-backend"))) [
          | inl e ↦ subst P (sym (eq_of_str_eq k (codes "timeseries-backend") e)) p2
          | inr n2 ↦ elim (Bool-cases (str_eq k (codes "timeseries-dbats-opts"))) [
            | inl e ↦ subst P (sym (eq_of_str_eq k (codes "timeseries-dbats-opts") e)) p3
            | inr n3 ↦ elim (Bool-cases (str_eq k (codes "kafka-brokers"))) [
              | inl e ↦ subst P (sym (eq_of_str_eq k (codes "kafka-brokers") e)) p4
              | inr n4 ↦ elim (Bool-cases (str_eq k (codes "kafka-topic-prefix"))) [
                | inl e ↦ subst P (sym (eq_of_str_eq k (codes "kafka-topic-prefix") e)) p5
                | inr n5 ↦ elim (Bool-cases (str_eq k (codes "kafka-channel"))) [
                  | inl e ↦ subst P (sym (eq_of_str_eq k (codes "kafka-channel") e)) p6
                  | inr n6 ↦ elim (Bool-cases (str_eq k (codes "kafka-consumer-group"))) [
                    | inl e ↦ subst P (sym (eq_of_str_eq k (codes "kafka-consumer-group") e)) p7
                    | inr n7 ↦ elim (Bool-cases (str_eq k (codes "kafka-offset"))) [
                      | inl e ↦ subst P (sym (eq_of_str_eq k (codes "kafka-offset") e)) p8
                      | inr n8 ↦ elim (Bool-cases (str_eq k (codes "stats-interval"))) [
                        | inl e ↦ subst P (sym (eq_of_str_eq k (codes "stats-interval") e)) p9
                        | inr n9 ↦ elim (Bool-cases (str_eq k (codes "stats-ts-backend"))) [
                          | inl e ↦ subst P (sym (eq_of_str_eq k (codes "stats-ts-backend") e)) p10
                          | inr n10 ↦ elim (Bool-cases (str_eq k (codes "stats-ts-opts"))) [
                            | inl e ↦ subst P (sym (eq_of_str_eq k (codes "stats-ts-opts") e)) p11
                            | inr n11 ↦ other (n0, n1, n2, n3, n4, n5, n6, n7, n8, n9, n10, n11)
                          ]
                        ]
                      ]
                    ]
                  ]
                ]
              ]
            ]
          ]
        ]
      ]
    ]

pub configure-after_pair :
    (k value : Bytes) (s : Settings)
    → IsNumber (k, value)
    → (str_eq k (codes "filter-prefix") ≡ true → length s.cfg.filters < 1024)
    → configure (setting_of k) value s ≡ done (after_pair (k, value) s)
unfolding configure setting_of str_eq store_text store_int
configure-after_pair k value s =
    by_key
      (λ k.
        IsNumber (k, value)
        → (str_eq k (codes "filter-prefix") ≡ true → length s.cfg.filters < 1024)
        → configure (setting_of k) value s ≡ done (after_pair (k, value) s))
      k (λ is_number room. rw (is_number refl) refl)
      (λ is_number room. rw (lt→ltb (length s.cfg.filters) 1024 (room refl)) refl)
      (λ is_number room. refl) (λ is_number room. refl) (λ is_number room. refl)
      (λ is_number room. refl) (λ is_number room. refl) (λ is_number room. refl)
      (λ is_number room. refl) (λ is_number room. rw (is_number refl) refl) (λ is_number room. refl)
      (λ is_number room. refl)
      (λ (other : IsOther k) is_number room.
        rw
          (
            other.0, other.1, other.2, other.3, other.4, other.5, other.6, other.7, other.8,
            other.9, other.10, other.11,
          )
          refl)
