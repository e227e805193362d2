-- ===== src/Tests/Running.antt =====
-- From init_timeseries to the end of `run`, at a concrete batch.
use libtimeseries.Base.{
  ℕ, ◌≡◌, refl, ap, Bool, true, false, Option, none, some, codes, List, [], ◌∷◌, ◌++◌, Bytes, arith,
  str_eq, be16, be32, be64, Outcome, done, fault, Status, success, failure,
}
use libtimeseries.KeyPackage.{
  kp_alloc, kp_get_key, kp_get, kp_add_key, kp_enable_key, kp_set, set_value, kp_ki_set, kp_ki_get,
  kp_ki_init, kp_enabled_size, kp_reset_disable, ki_enabled, ki_get_key, ki_get_value, kp_size,
  reset_disable_from, reset_disable_at, kp_disable_key,
}
use libtimeseries.Timeseries.{
  any_enabled, for_each_enabled, timeseries_init, get_backend_by_name, find_by_name,
  get_backend_by_id, lower, enable_backend,
}
use libtimeseries.Getopt.{getopt, decimal, decimal_onto}
use libtimeseries.Ascii.{
  Ascii, ascii_init, ascii_ops, ascii_kp_flush, dump_enabled, time_buffer, metric_line, dump,
}
use libtimeseries.Ascii.Lines.{ascii_ops-KeepsView}
use libtimeseries.Flush.{
  kp_init, kp_init_at, kp_flush, flush_finish, flush_at, update_if, flush_updated,
}
use libtimeseries.Proxy.{
  maybe_flush_stats, Proxy, maybe_flush, flush_enabled, count_flush, after_flush, bump, inc_stat,
  get_or_add, add_stat,
}
use libtimeseries.Proxy.Message.{
  Header, skip, unknown_channel, batch, read_header, parse_loop, handle_message, store,
  handle_header, read_channel, channel_matches, after_turn, parse_key_value, parse_record,
  read_record, read_key, read_value, take_pair, passes, c_string, enable_or_add,
}
use libtimeseries.Proxy.RoundTrip.{header_bytes, kv_bytes}
use libtimeseries.Proxy.Timing.{IsReady}
use libtimeseries.Proxy.Run.{message, other_error, Poll, run}
use libtimeseries.Proxy.Setup.{init_timeseries, start_timeseries}
use libtimeseries.Proxy.Setup.Begun.{run-init_timeseries}
use libtimeseries.Proxy.Config.{TskConfig, empty_config}
use libtimeseries.Backend.{Backend, backend_alloc, backend_init}
use libtimeseries.Tests.Fixtures.{
  platform, kp_empty, ascii, ascii_backend, key_a, key_b, proxy, config, channel,
}

-- The proxy that a call leaves, and whether it returned 0.
abbrev left : Outcome (Status × Proxy Ascii) → Proxy Ascii
left (done (rc, p)) = p
left (fault e) = proxy

abbrev returned : Outcome (Status × Proxy Ascii) → Bool
returned (done (success, p)) = true
returned (done (failure, p)) = false
returned (fault e) = false

done-left : (o : Outcome (Status × Proxy Ascii)) → returned o ≡ true → o ≡ done (success, left o)
done-left (done (success, p)) h = refl
done-left (done (failure, p)) h = cc
done-left (fault e) h = cc

-- The ASCII backend is the only one that is built in.
abbrev functions : List (Option (Backend Ascii))
functions =
    some (record ascii_backend { enabled = false; state = record ascii { state = none } })
    ∷ none
    ∷ none
    ∷ []

abbrev no_words : Bytes → Bytes → List Bytes
no_words opts name = name ∷ []

abbrev ascii_config : TskConfig
ascii_config = record empty_config { timeseries_backend = some (codes "ascii") }

-- The proxy after init_timeseries.
abbrev begun : Proxy Ascii
begun = record proxy { kp = record kp_empty { reset = false }; current_time = 0 }

begun-initialised :
    init_timeseries functions (λ n. true) no_words ascii_config
    ≡ done (some (begun.timeseries, begun.kp))
unfolding start_timeseries timeseries_init backend_alloc get_backend_by_name find_by_name
    get_backend_by_id lower str_eq enable_backend backend_init ascii_init ascii_ops getopt kp_init
    kp_alloc kp_init_at for_each_enabled
begun-initialised = refl

abbrev batch_bytes : Bytes
batch_bytes = header_bytes 60 channel ++ (kv_bytes key_a 3 ++ kv_bytes key_b 4)

-- A batch of two pairs, and a signal before the next poll.
abbrev polls : List Poll
polls =
    record { shutdown = false; clock = 30; polled = message batch_bytes; shutdown_at_eof = false }
    ∷ record { shutdown = true; clock = 30; polled = other_error; shutdown_at_eof = false }
    ∷ []

abbrev ran : Outcome (Status × Proxy Ascii)
ran = run 2 config polls begun

ran-returned : returned ran ≡ true
unfolding run maybe_flush_stats handle_message handle_header read_header read_channel
    channel_matches be16 be32 be64 after_turn parse_loop parse_key_value parse_record read_record
    read_key read_value take_pair passes c_string store enable_or_add kp_enable_key maybe_flush
    flush_enabled count_flush after_flush kp_enabled_size bump inc_stat get_or_add kp_get kp_ki_get
    add_stat any_enabled kp_get_key kp_add_key kp_set kp_ki_init str_eq kp_flush ascii_ops
    kp_reset_disable for_each_enabled flush_finish flush_at update_if flush_updated ascii_kp_flush
    dump_enabled time_buffer decimal decimal_onto metric_line dump ki_enabled ki_get_key
    ki_get_value kp_size reset_disable_from reset_disable_at set_value kp_disable_key kp_ki_set
ran-returned = refl

abbrev batch_time : Header → ℕ
batch_time skip = 1
batch_time unknown_channel = 1
batch_time (batch time rest) = time

run-init_timeseries_example :
    IsReady (left ran) × (success ≡ success → kp_enabled_size (left ran).kp ≡ 0)
unfolding read_header read_channel channel_matches be16 be32 be64
run-init_timeseries_example =
    run-init_timeseries functions (λ n. true) no_words ascii_config 2 config polls begun (left ran)
      success (ascii_ops-KeepsView (λ file level. true) true, tt) begun-initialised refl
      ((λ rest e. (let same : 60 ≡ 0 = ap batch_time e in omega (arith, same))), (tt, tt))
      (omega arith) (done-left ran ran-returned)
