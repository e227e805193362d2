-- ===== src/Tests/Config.antt =====
-- The theorems on the configuration of tools/tsk-proxy.c at a concrete file.
use libtimeseries.Base.{◌≡◌, refl, true, some, List, [], ◌∷◌, Bytes, codes, arith, done, str_eq}
use libtimeseries.Getopt.{atoi, digits_from}
use libtimeseries.Proxy.Config.{parse_config_file, empty_config}
use libtimeseries.Proxy.Config.Pairs.{tokens_of}
use libtimeseries.Proxy.Config.Keys.{last_of, values_of, all_given, number}
use libtimeseries.Proxy.Config.Described.{parse_config_file_lem, lengths}

abbrev pairs : List (Bytes × Bytes)
pairs =
    (codes "filter-prefix", codes "a.")
    ∷ (codes "stats-interval", codes "60")
    ∷ (codes "log-file", codes "x")
    ∷ (codes "kafka-channel", codes "active")
    ∷ []

parse_config_file_lem_example :
    parse_config_file true true true (tokens_of pairs) 1 0
    ≡ done (
        some (record {
          cfg = record empty_config {
            filters = some (codes "a.") ∷ [];
            filter_lens = 2 ∷ [];
            kafka_channel = some (codes "active");
            kafka_chanlen = 6;
          };
          log_level = 1;
          stats_interval = 60;
        }))
unfolding last_of values_of all_given lengths number str_eq atoi digits_from
parse_config_file_lem_example =
    parse_config_file_lem pairs 1 0 ((λ e. refl), ((λ e. refl), ((λ e. refl), ((λ e. refl), tt))))
      (omega arith)
