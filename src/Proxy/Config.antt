-- ===== src/Proxy/Config.antt =====
-- tools/tsk-proxy.c: tsk_config_t, parse_config_file and is_valid_config, over the tokens that libyaml
-- scans.
pub mod Pairs
pub mod Keys
pub mod Described
use libtimeseries.Base.{
  ℕ, zero, suc, ◌%◌, ◌^◌, Bool, true, false, ◌&&◌, Option, none, some, List, [], ◌∷◌, ◌++◌, Bytes,
  codes, length, ltb, if◌then◌else◌, Outcome, done, fault, undefined, ◌>>=◌, ◌>>◌, assert, str_eq,
}
use libtimeseries.Getopt.{atoi}

-- tsk_config_t, without the list of partitions, which other code fills. A `char *` that is NULL is
-- `none`; of the array of filters, and of their lengths, the elements that are in use.
pub record TskConfig : Type 0 where
  pub timeseries_backend : Option Bytes
  pub timeseries_dbats_opts : Option Bytes
  pub filters : List (Option Bytes)
  pub filter_lens : List ℕ
  pub kafka_brokers : Option Bytes
  pub kafka_topic_prefix : Option Bytes
  pub kafka_channel : Option Bytes
  pub kafka_consumer_group : Option Bytes
  pub kafka_offset : Option Bytes
  pub kafka_chanlen : ℕ
  pub stats_ts_backend : Option Bytes
  pub stats_ts_opts : Option Bytes

-- MAX_FILTERS
abbrev pub max_filters : ℕ
max_filters = 1024

-- The tokens of libyaml that parse_config_file tells apart, in front of the end of the stream.
pub data Token : Type 0 where
  key_token value_token other_token : Token
  scalar_token : Bytes → Token

-- What `textp` points to, where it is not NULL: a field, or the filter at an index.
pub data TextSlot : Type 0 where
  timeseries_backend_slot timeseries_dbats_opts_slot kafka_brokers_slot kafka_topic_prefix_slot
        kafka_channel_slot kafka_consumer_group_slot kafka_offset_slot stats_ts_backend_slot
        stats_ts_opts_slot :
      TextSlot
  filter_slot : ℕ → TextSlot

-- What `intp` points to, where it is not NULL.
pub data IntSlot : Type 0 where
  log_level_slot stats_interval_slot : IntSlot

-- What the file sets: the new object, and two static variables, each as the 32 bits of an int.
pub record Settings : Type 0 where
  pub cfg : TskConfig
  pub log_level : ℕ
  pub stats_interval : ℕ

-- The local variables of the loop of parse_config_file; `state` is true for 1.
pub record Scan : Type 0 where
  pub state : Bool
  pub textp : Option TextSlot
  pub intp : Option IntSlot
  pub settings : Settings

-- The branches on a key.
pub data Setting : Type 0 where
  int_setting : IntSlot → Setting
  text_setting : TextSlot → Setting
  filter_setting unsupported : Setting

unfoldable pub setting_of : Bytes → Setting
setting_of tk =
    if str_eq tk (codes "log-level")
    then int_setting log_level_slot
    else if str_eq tk (codes "filter-prefix")
    then filter_setting
    else if str_eq tk (codes "timeseries-backend")
    then text_setting timeseries_backend_slot
    else if str_eq tk (codes "timeseries-dbats-opts")
    then text_setting timeseries_dbats_opts_slot
    else if str_eq tk (codes "kafka-brokers")
    then text_setting kafka_brokers_slot
    else if str_eq tk (codes "kafka-topic-prefix")
    then text_setting kafka_topic_prefix_slot
    else if str_eq tk (codes "kafka-channel")
    then text_setting kafka_channel_slot
    else if str_eq tk (codes "kafka-consumer-group")
    then text_setting kafka_consumer_group_slot
    else if str_eq tk (codes "kafka-offset")
    then text_setting kafka_offset_slot
    else if str_eq tk (codes "stats-interval")
    then int_setting stats_interval_slot
    else if str_eq tk (codes "stats-ts-backend")
    then text_setting stats_ts_backend_slot
    else if str_eq tk (codes "stats-ts-opts")
    then text_setting stats_ts_opts_slot
    else unsupported

-- What the branch of a key does.
unfoldable pub scan_setting : Setting → Scan → Outcome Scan
scan_setting (int_setting slot) s = done (record s { intp = some slot })
scan_setting (text_setting slot) s = done (record s { textp = some slot })
scan_setting filter_setting s = do
  let filters : List (Option Bytes) = s.settings.cfg.filters
  let more : TskConfig = record s.settings.cfg { filters = filters ++ (none ∷ []) }
  assert (ltb (length filters) max_filters)
  done (record s {
    textp = some (filter_slot (length filters));
    settings = record s.settings { cfg = more };
  })
scan_setting unsupported s = done s

unfoldable pub set_filter : ℕ → Bytes → List (Option Bytes) → List (Option Bytes)
set_filter i text [] = []
set_filter zero text (f ∷ fs) = some text ∷ fs
set_filter (suc i) text (f ∷ fs) = f ∷ set_filter i text fs

-- *textp = strdup(tk), where there is memory.
unfoldable pub store_text : TextSlot → Bytes → TskConfig → TskConfig
unfolding set_filter
store_text timeseries_backend_slot tk cfg = record cfg { timeseries_backend = some tk }
store_text timeseries_dbats_opts_slot tk cfg = record cfg { timeseries_dbats_opts = some tk }
store_text kafka_brokers_slot tk cfg = record cfg { kafka_brokers = some tk }
store_text kafka_topic_prefix_slot tk cfg = record cfg { kafka_topic_prefix = some tk }
store_text kafka_channel_slot tk cfg = record cfg { kafka_channel = some tk }
store_text kafka_consumer_group_slot tk cfg = record cfg { kafka_consumer_group = some tk }
store_text kafka_offset_slot tk cfg = record cfg { kafka_offset = some tk }
store_text stats_ts_backend_slot tk cfg = record cfg { stats_ts_backend = some tk }
store_text stats_ts_opts_slot tk cfg = record cfg { stats_ts_opts = some tk }
store_text (filter_slot i) tk cfg = record cfg { filters = set_filter i tk cfg.filters }

-- *intp = n
unfoldable pub store_int : IntSlot → ℕ → Settings → Settings
store_int log_level_slot n s = record s { log_level = n }
store_int stats_interval_slot n s = record s { stats_interval = n }

-- What a scalar in the place of a value does, with `textp` and `intp` apart.
unfoldable pub scan_value : Option TextSlot → Option IntSlot → Bytes → Scan → Outcome Scan
scan_value (some slot) intp tk s = done (record s {
  textp = none;
  settings = record s.settings { cfg = store_text slot tk s.settings.cfg };
})
scan_value none (some slot) tk s =
    atoi tk >>= λ n. done (record s { intp = none; settings = store_int slot n s.settings })
scan_value none none tk s = done s

-- One turn of the loop.
unfoldable pub scan_token : Token → Scan → Outcome Scan
scan_token key_token s = done (record s { state = false })
scan_token value_token s = done (record s { state = true })
scan_token other_token s = done s
scan_token (scalar_token tk) s =
    if s.state then scan_value s.textp s.intp tk s else scan_setting (setting_of tk) s

-- The loop.
unfoldable pub scan_tokens : List Token → Scan → Outcome Scan
scan_tokens [] s = done s
scan_tokens (t ∷ ts) s = scan_token t s >>= λ s'. scan_tokens ts s'

-- The strlen of each filter, as the 32 bits of an int; strlen of NULL is undefined.
unfoldable pub lens_of : List (Option Bytes) → Outcome (List ℕ)
lens_of [] = done []
lens_of (none ∷ fs) = fault undefined
lens_of (some f ∷ fs) = lens_of fs >>= λ lens. done (length f % 2 ^ 32 ∷ lens)

-- What comes behind the loop.
unfoldable pub finish_config : Settings → Outcome Settings
finish_config s = do
  lens ← lens_of s.cfg.filters
  let chanlen : ℕ = elim s.cfg.kafka_channel [ none ↦ s.cfg.kafka_chanlen | some c ↦ length c ]
  done (record s { cfg = record s.cfg { filter_lens = lens; kafka_chanlen = chanlen } })

-- The object that calloc returns.
abbrev pub empty_config : TskConfig
empty_config = record {
  timeseries_backend = none;
  timeseries_dbats_opts = none;
  filters = [];
  filter_lens = [];
  kafka_brokers = none;
  kafka_topic_prefix = none;
  kafka_channel = none;
  kafka_consumer_group = none;
  kafka_offset = none;
  kafka_chanlen = 0;
  stats_ts_backend = none;
  stats_ts_opts = none;
}

-- parse_config_file, whether calloc, yaml_parser_initialize and fopen succeed, on the tokens of the
-- file, where the scanner finds no error and strdup has memory. `none` is NULL.
unfoldable pub parse_config_file :
    Bool → Bool → Bool → List Token → ℕ → ℕ → Outcome (Option Settings)
parse_config_file allocated initialized opened tokens log_level stats_interval =
    if allocated && (initialized && opened)
    then (do
      let start : Settings = record {
        cfg = empty_config;
        log_level = log_level;
        stats_interval = stats_interval;
      }
      s ← scan_tokens tokens (record { state = false; textp = none; intp = none; settings = start })
      settings ← finish_config s.settings
      done (some settings))
    else done none

-- Whether an option is given.
abbrev pub given : Option Bytes → Bool
given none = false
given (some text) = true

-- is_valid_config, which returns 0 on a valid configuration.
unfoldable pub is_valid_config : TskConfig → ℕ
is_valid_config c =
    if given c.timeseries_backend
      && (given c.timeseries_dbats_opts
          && (given c.kafka_brokers
              && (given c.kafka_topic_prefix
                  && (given c.kafka_channel
                      && (given c.kafka_consumer_group
                          && (given c.kafka_offset
                              && (given c.stats_ts_backend && given c.stats_ts_opts)))))))
    then 0
    else 1
