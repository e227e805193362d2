-- ===== src/Tests/Messages.antt =====
-- The theorems on the proxy at concrete messages.
use libtimeseries.Base.{
  ℕ, ◌+◌, ◌<◌, ◌≤◌, ◌≡◌, ◌≢◌, ◌⊎◌, inl, inr, unfinished, sym, refl, Bool, true, false, some, List,
  [], ◌∷◌, ◌++◌, Bytes, All, length, arith, str_eq, be16, be32, be64, Outcome, done, fault, ◌>>=◌,
  Status, success, failure,
}
use libtimeseries.KeyPackage.{
  KeyPackage, kp_get_key, kp_get, kp_add_key, kp_enable_key, kp_set, set_value, kp_ki_set,
  kp_ki_get, kp_ki_init, kp_enabled_size, kp_reset_disable, ki_enabled, ki_get_key, ki_get_value,
  kp_size, reset_disable_from, reset_disable_at, kp_disable_key,
}
use libtimeseries.KeyPackage.Invariant.{IsValid}
use libtimeseries.KeyPackage.Marks.{key_enabled}
use libtimeseries.Timeseries.{any_enabled, for_each_enabled}
use libtimeseries.Getopt.{decimal, decimal_onto}
use libtimeseries.Ascii.{
  Ascii, ascii_ops, ascii_kp_flush, dump_enabled, time_buffer, metric_line, dump,
}
use libtimeseries.Ascii.Lines.{ascii_ops-KeepsView}
use libtimeseries.Flush.{kp_flush, flush_finish, flush_at, update_if, flush_updated}
use libtimeseries.Wire.{write_header}
use libtimeseries.Proxy.{
  maybe_flush_stats, Proxy, maybe_flush, flush_enabled, count_flush, after_flush, bump, inc_stat,
  get_or_add, add_stat,
}
use libtimeseries.Proxy.Message.{
  read_header, parse_loop, handle_message, store, handle_header, read_channel, channel_matches,
  after_turn, parse_key_value, parse_record, read_record, read_key, read_value, take_pair, passes,
  c_string, enable_or_add, Record, short, truncated, overrun, pair,
}
use libtimeseries.Proxy.RoundTrip.{
  Written, record_then, nothing, IsReadable, header_bytes, kv_bytes, write_header-eq, write_kv-eq,
  take_pairs, parse_loop-Written,
}
use libtimeseries.Proxy.Termination.{parse_loop_stray_byte}
use mathlib.Core.Path.{subst}
use libtimeseries.Proxy.Ends.{
  EndsInByte, one_byte, behind_pair, behind_short, parse_loop-ne-unfinished,
}
use libtimeseries.Proxy.Store.{store_lem}
use libtimeseries.Proxy.Timing.{IsReady, flush_enabled_assertion, after_flush_unchecked}
use libtimeseries.Proxy.StatsFlush.{HasStats, StatsTurned, maybe_flush_stats_lem}
use libtimeseries.Proxy.Turn.{Turned, maybe_flush_lem}
use libtimeseries.Proxy.Handle.{take_batch, handle_message-Written}
use libtimeseries.Kafka.{format_tsk}
use libtimeseries.Kafka.Batches.{Batched, message_then, no_message, key_for}
use libtimeseries.Proxy.Deliver.{pairs_of, handle_all, take_all, handle_all-Batched}
use libtimeseries.Proxy.Keeps.{handle_message-IsReady}
use libtimeseries.Tests.Fixtures.{
  platform, kp_one, kp_two, kp_one-IsValid, kp_empty-IsValid, key_a, key_b, info, proxy, config,
  channel,
}

ready : IsReady proxy
ready = record {
  valid = kp_one-IsValid;
  disables = refl;
  lawful = (ascii_ops-KeepsView (λ file level. true) true, tt);
}

-- The proxy that a call leaves, and whether it returned 0.
abbrev left : Outcome (Status × Proxy Ascii) → Proxy Ascii
left (done (rc, p)) = p
left (fault e) = proxy

abbrev returned : Outcome (Status × Proxy Ascii) → Bool
returned (done (success, p)) = true
returned (done (failure, p)) = false
returned (fault e) = false

returned-eq : (o : Outcome (Status × Proxy Ascii)) → returned o ≡ true → o ≡ done (success, left o)
returned-eq (done (success, p)) h = refl
returned-eq (done (failure, p)) h = cc
returned-eq (fault e) h = cc

abbrev header : Bytes
header = header_bytes 60 channel

abbrev kvs : List (Bytes × ℕ)
kvs = (key_a, 3) ∷ (key_b, 4) ∷ []

abbrev records : Bytes
records = kv_bytes key_a 3 ++ (kv_bytes key_b 4 ++ [])

header-written : write_header 64 60 channel 2 ≡ done header
header-written = write_header-eq 64 60 channel (omega arith) (omega arith)

records-Written : Written kvs records
records-Written =
    record_then 64 (write_kv-eq 64 key_a 3 (omega arith) (omega arith))
      (record_then 64 (write_kv-eq 64 key_b 4 (omega arith) (omega arith)) nothing)

kvs-IsReadable : All IsReadable kvs
kvs-IsReadable = ((omega arith, omega arith), ((omega arith, omega arith), tt))

handle_message-Written_example :
    handle_message 2 config (header ++ records) proxy
    ≡ take_batch config (15 + 2 + length records) 60 kvs proxy
handle_message-Written_example =
    handle_message-Written 2 64 60 config header kvs records proxy (omega arith) (omega arith)
      (omega arith) header-written records-Written kvs-IsReadable (omega arith)

abbrev handled : Outcome (Status × Proxy Ascii)
handled = handle_message 2 config (header ++ records) proxy

handled-returned : returned handled ≡ true
unfolding handle_message handle_header read_header read_channel channel_matches be16 be32 be64
    maybe_flush after_turn parse_loop parse_key_value parse_record read_record read_key read_value
    take_pair passes c_string store enable_or_add kp_get_key kp_add_key kp_enable_key kp_set
    set_value kp_ki_set kp_ki_init str_eq bump inc_stat get_or_add kp_get kp_ki_get add_stat
    any_enabled
handled-returned = refl

handle_message-IsReady_example :
    IsReady (left handled) × ((left handled).kp.key_infos_cnt ≤ 1 + length (header ++ records))
unfolding be16 be32 be64
handle_message-IsReady_example =
    handle_message-IsReady 2 config (header ++ records) proxy (left handled) success ready
      (omega arith) (returned-eq handled handled-returned)

abbrev turned : Outcome (Status × Proxy Ascii)
turned = maybe_flush 120 proxy

turned-returned : returned turned ≡ true
unfolding maybe_flush flush_enabled count_flush after_flush kp_enabled_size bump inc_stat get_or_add
    kp_get kp_ki_get add_stat any_enabled kp_get_key kp_add_key kp_set kp_ki_init str_eq kp_flush
    ascii_ops kp_reset_disable for_each_enabled flush_finish flush_at update_if flush_updated
    ascii_kp_flush dump_enabled time_buffer decimal decimal_onto metric_line dump ki_enabled
    ki_get_key ki_get_value kp_size reset_disable_from reset_disable_at set_value kp_disable_key
    kp_ki_set
turned-returned = refl

maybe_flush_lem_example : Turned 120 proxy success (left turned)
maybe_flush_lem_example =
    maybe_flush_lem 120 proxy (left turned) success ready (returned-eq turned turned-returned)

flush_enabled_assertion_example : flush_enabled proxy ≡ (do
  p' ← count_flush proxy
  flushed ← kp_flush p'.timeseries p'.kp p'.current_time
  after_flush_unchecked p' flushed)
flush_enabled_assertion_example = flush_enabled_assertion proxy ready

parse_loop-Written_example : parse_loop 2 true [] records kp_one ≡ take_pairs true [] kp_one kvs
parse_loop-Written_example =
    parse_loop-Written kvs records 2 true [] kp_one records-Written kvs-IsReadable (omega arith)

-- What the record that is read leaves where all of it ends in a byte.
abbrev Leaves : Bytes → Record → Type 0
Leaves buf (short rest) = (length buf ≡ 1) ⊎ EndsInByte rest
Leaves buf (truncated rest) = Unit {0}
Leaves buf overrun = Unit {0}
Leaves buf (pair key value rest) = EndsInByte rest

EndsInByte-Leaves : {buf : Bytes} → EndsInByte buf → Leaves buf (read_record buf)
unfolding read_record
EndsInByte-Leaves (one_byte b) = inl refl
EndsInByte-Leaves (behind_pair {buf} e h) = subst (Leaves buf) (sym e) h
EndsInByte-Leaves (behind_short {buf} e shorter h) = subst (Leaves buf) (sym e) (inr h)

EndsInByte-length : {buf : Bytes} → EndsInByte buf → 0 < length buf
unfolding read_record
EndsInByte-length (one_byte b) = omega arith
EndsInByte-length (behind_pair {buf} e h) = by_buf buf e
  where
    by_buf :
        (buf : Bytes) {key rest : Bytes} {value : ℕ}
        → read_record buf ≡ pair key value rest
        → 0 < length buf
    by_buf [] e = cc
    by_buf (b ∷ bs) e = omega arith
EndsInByte-length (behind_short e shorter h) = omega (arith, shorter)

-- The two pairs leave nothing.
no_byte_left : ¬ EndsInByte records
unfolding read_record read_key read_value be16 be64
no_byte_left h = absurd (omega (arith, EndsInByte-length (EndsInByte-Leaves (EndsInByte-Leaves h))))

parse_loop-ne-unfinished_example : parse_loop 40 true [] records kp_one ≢ fault unfinished
unfolding be16 be64
parse_loop-ne-unfinished_example =
    parse_loop-ne-unfinished true [] 40 records kp_one (omega arith) no_byte_left

parse_loop_stray_byte_example : parse_loop 40 true [] (records ++ (7 ∷ [])) kp_one ≢ done kp_two
parse_loop_stray_byte_example =
    parse_loop_stray_byte true [] kvs records 7 40 kp_one kp_two records-Written kvs-IsReadable

-- The package with the second key at 9.
abbrev kp_nine : KeyPackage
kp_nine = record kp_two { key_infos = info key_a 0 false ∷ info key_b 9 false ∷ [] }

stored : store true kp_one key_b 9 ≡ done kp_nine
unfolding store enable_or_add kp_get_key kp_add_key kp_enable_key kp_set set_value kp_ki_set
    kp_ki_init str_eq
stored = refl

store_lem_example :
    (id : ℕ) × IsValid kp_nine
    × (kp_get_key kp_nine key_b ≡ some id)
    × (kp_get kp_nine id ≡ done 9)
    × (key_enabled kp_nine id ≡ done true)
    × ((j : Bytes) → str_eq key_b j ≡ false → kp_get_key kp_nine j ≡ kp_get_key kp_one j)
    × ((j : ℕ)
        → j < 1
        → id ≢ j
        → (kp_get kp_nine j ≡ kp_get kp_one j) × (key_enabled kp_nine j ≡ key_enabled kp_one j))
store_lem_example = store_lem true kp_one kp_nine key_b 9 kp_one-IsValid (omega arith) stored

-- The pairs as one message of a flush.
kvs-Batched : Batched format_tsk 60 channel kvs ((60, header ++ records) ∷ [])
unfolding key_for
kvs-Batched = message_then 60 no_message records-Written (omega arith) (refl, (refl, tt))

handle_all-Batched_example :
    (batches : List (ℕ × List (Bytes × ℕ))) × (pairs_of batches ≡ kvs)
    × ((p : Proxy Ascii)
        → handle_all 2 config ((60, header ++ records) ∷ []) p ≡ take_all config 60 batches p)
handle_all-Batched_example =
    handle_all-Batched 2 config format_tsk 60 kvs ((60, header ++ records) ∷ []) (omega arith)
      (omega arith) kvs-Batched kvs-IsReadable (omega arith)

stats-HasStats : HasStats proxy
stats-HasStats = record { valid = kp_empty-IsValid; lawful = ready.lawful }

stats_run : maybe_flush_stats 130 proxy ≡ done (record proxy { stats_time = 120 })
unfolding maybe_flush_stats kp_flush ascii_ops kp_reset_disable for_each_enabled flush_finish
    flush_at update_if flush_updated ascii_kp_flush dump_enabled kp_size reset_disable_from
stats_run = refl

maybe_flush_stats_lem_example :
    (◌≢◌ {A = ℕ} 60 0) × StatsTurned 130 proxy (record proxy { stats_time = 120 })
maybe_flush_stats_lem_example =
    maybe_flush_stats_lem 130 proxy (record proxy { stats_time = 120 }) stats-HasStats (omega arith)
      stats_run
