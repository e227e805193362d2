-- ===== src/Proxy/Config/Described.antt =====
-- What parse_config_file of tools/tsk-proxy.c reads from a file, key by key.
use libtimeseries.Base.{
  ℕ, ◌%◌, ◌^◌, ◌+◌, ◌≤◌, ◌<◌, ◌≡◌, refl, sym, ap, ◌∙◌, Bool, true, false, Option, none, some, List,
  [], ◌∷◌, ◌++◌, append_assoc, Bytes, codes, All, length, if◌then◌else◌, arith, Outcome, done,
  ◌>>=◌, str_eq, length-append, append-nil,
}
use libtimeseries.Proxy.Config.{Settings, lens_of, finish_config, empty_config, parse_config_file}
use libtimeseries.Proxy.Config.Pairs.{tokens_of, configure_all, parse_config_file-configure_all}
use libtimeseries.Proxy.Config.Keys.{
  last_of, values_of, number, IsNumber, all_given, described, after_pair, configure-after_pair,
}

-- The pairs one after the other.
described-after_pair :
    (k value : Bytes) (pairs : List (Bytes × Bytes)) (s : Settings)
    → described pairs (after_pair (k, value) s) ≡ described ((k, value) ∷ pairs) s
unfolding last_of values_of all_given
described-after_pair k value pairs s =
    ap (λ (fs : List (Option Bytes)). with_filters fs)
      (by_prefix (str_eq k (codes "filter-prefix")))
  where
    rest : List Bytes
    rest = values_of (codes "filter-prefix") pairs

    with_filters : List (Option Bytes) → Settings
    with_filters fs =
        let all = described pairs (after_pair (k, value) s) in
        record all { cfg = record all.cfg { filters = fs } }

    by_prefix :
        (b : Bool)
        → (if b then s.cfg.filters ++ (some value ∷ []) else s.cfg.filters) ++ all_given rest
          ≡ s.cfg.filters ++ all_given (if b then value ∷ rest else rest)
    by_prefix true = append_assoc s.cfg.filters (some value ∷ []) (all_given rest)
    by_prefix false = refl

configure_all-described :
    (pairs : List (Bytes × Bytes)) (s : Settings)
    → All IsNumber pairs
    → length s.cfg.filters + length (values_of (codes "filter-prefix") pairs) ≤ 1024
    → configure_all pairs s ≡ done (described pairs s)
unfolding configure_all last_of values_of all_given
configure_all-described [] s numbers room =
    ap (λ (fs : List (Option Bytes)). done (record s { cfg = record s.cfg { filters = fs } }))
      (sym (append-nil s.cfg.filters))
configure_all-described ((k, value) ∷ pairs) s (is_number, numbers) room =
    let rest = values_of (codes "filter-prefix") pairs in
    ap (λ m. m >>= λ s'. configure_all pairs s')
      (configure-after_pair k value s is_number
        (λ e. first (str_eq k (codes "filter-prefix")) rest e room))
    ∙ configure_all-described pairs (after_pair (k, value) s) numbers
        (later (str_eq k (codes "filter-prefix")) rest room)
    ∙ ap done (described-after_pair k value pairs s)
  where
    first :
        (b : Bool) (rest : List Bytes)
        → b ≡ true
        → length s.cfg.filters + length (if b then value ∷ rest else rest) ≤ 1024
        → length s.cfg.filters < 1024
    first true rest e h = omega (arith, h)
    first false rest e h = cc

    later :
        (b : Bool) (rest : List Bytes)
        → length s.cfg.filters + length (if b then value ∷ rest else rest) ≤ 1024
        → length (if b then s.cfg.filters ++ (some value ∷ []) else s.cfg.filters) + length rest
          ≤ 1024
    later true rest h = omega (arith, h, length-append s.cfg.filters (some value ∷ []))
    later false rest h = h

unfoldable pub lengths : List Bytes → List ℕ
lengths [] = []
lengths (text ∷ texts) = length text % 2 ^ 32 ∷ lengths texts

lens_of-all_given : (texts : List Bytes) → lens_of (all_given texts) ≡ done (lengths texts)
unfolding lens_of all_given lengths
lens_of-all_given [] = refl
lens_of-all_given (text ∷ texts) =
    ap (λ m. m >>= λ lens. done (length text % 2 ^ 32 ∷ lens)) (lens_of-all_given texts)

-- The result for a file of these pairs, with the values of the two static variables before it.
abbrev pub read_config : List (Bytes × Bytes) → ℕ → ℕ → Settings
read_config pairs log_level stats_interval =
    let filters = values_of (codes "filter-prefix") pairs in
    record {
      cfg = record {
        timeseries_backend = last_of some (codes "timeseries-backend") pairs none;
        timeseries_dbats_opts = last_of some (codes "timeseries-dbats-opts") pairs none;
        kafka_brokers = last_of some (codes "kafka-brokers") pairs none;
        kafka_topic_prefix = last_of some (codes "kafka-topic-prefix") pairs none;
        kafka_channel = last_of some (codes "kafka-channel") pairs none;
        kafka_consumer_group = last_of some (codes "kafka-consumer-group") pairs none;
        kafka_offset = last_of some (codes "kafka-offset") pairs none;
        stats_ts_backend = last_of some (codes "stats-ts-backend") pairs none;
        stats_ts_opts = last_of some (codes "stats-ts-opts") pairs none;
        filters = all_given filters;
        filter_lens = lengths filters;
        kafka_chanlen = elim (last_of some (codes "kafka-channel") pairs none) [
          | none ↦ 0
          | some channel ↦ length channel
        ];
      };
      log_level = last_of number (codes "log-level") pairs log_level;
      stats_interval = last_of number (codes "stats-interval") pairs stats_interval;
    }

abbrev start : ℕ → ℕ → Settings
start log_level stats_interval = record {
  cfg = empty_config;
  log_level = log_level;
  stats_interval = stats_interval;
}

finish_config-described :
    (pairs : List (Bytes × Bytes)) (log_level stats_interval : ℕ)
    → finish_config (described pairs (start log_level stats_interval))
      ≡ done (read_config pairs log_level stats_interval)
unfolding finish_config
finish_config-described pairs log_level stats_interval =
    ap (λ m. m >>= with_lens) (lens_of-all_given (values_of (codes "filter-prefix") pairs))
  where
    with_lens : List ℕ → Outcome Settings
    with_lens lens =
        let s = described pairs (start log_level stats_interval) in
        let chanlen : ℕ = elim s.cfg.kafka_channel [
          | none ↦ s.cfg.kafka_chanlen
          | some c ↦ length c
        ] in
        done (record s { cfg = record s.cfg { filter_lens = lens; kafka_chanlen = chanlen } })

-- On the tokens of a file that maps keys to scalars, with at most 1024 filters and with numbers that atoi
-- converts, where the three calls in front of the loop succeed, parse_config_file returns the
-- configuration in which each text is the last value of the key of its name, and NULL where there is none,
-- and the filters are all values of "filter-prefix" in their order, with their lengths and the length of
-- the channel. The last "log-level" and "stats-interval" set the two static variables.
pub parse_config_file_lem :
    (pairs : List (Bytes × Bytes)) (log_level stats_interval : ℕ)
    → All IsNumber pairs
    → length (values_of (codes "filter-prefix") pairs) ≤ 1024
    → parse_config_file true true true (tokens_of pairs) log_level stats_interval
      ≡ done (some (read_config pairs log_level stats_interval))
parse_config_file_lem pairs log_level stats_interval numbers room =
    parse_config_file-configure_all pairs log_level stats_interval
    ∙ ap (λ m. m >>= λ s. finish_config s >>= λ settings. done (some settings))
        (configure_all-described pairs (start log_level stats_interval) numbers
          (omega (arith, room)))
    ∙ ap (λ m. m >>= λ settings. done (some settings))
        (finish_config-described pairs log_level stats_interval)
