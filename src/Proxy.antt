-- ===== src/Proxy.antt =====
-- tools/tsk-proxy.c: the consumer of the Kafka messages. State that the program keeps in static
-- variables is a record that each function takes and returns.
pub mod StatsFlush
pub mod Message
pub mod RoundTrip
pub mod Termination
pub mod Ends
pub mod Store
pub mod Timing
pub mod Turn
pub mod Handle
pub mod Deliver
pub mod Keeps
pub mod Config
pub mod Run
pub mod Setup
use libtimeseries.Base.{
  ℕ, suc, ◌+◌, ◌-◌, ◌*◌, ◌/◌, ◌%◌, ◌^◌, Bool, true, false, not, ◌&&◌, ◌||◌, Option, none, some,
  List, [], ◌∷◌, ◌++◌, Bytes, codes, length, take, drop, ltb, leb, ◌==◌, if◌then◌else◌, Outcome,
  done, fault, undefined, ◌>>=◌, ◌>>◌, assert, Status, success, failure, str_eq,
}
use libtimeseries.Platform.{Platform}
use libtimeseries.KeyPackage.{
  KeyPackage, kp_get_key, kp_add_key, kp_get, kp_set, kp_enable_key, kp_enabled_size,
}
use libtimeseries.Timeseries.{Timeseries, any_enabled}
use libtimeseries.Flush.{kp_flush}

-- graphite_safe_node
unfoldable pub graphite_safe_node : Bytes → Bytes
graphite_safe_node [] = []
graphite_safe_node (c ∷ str) = (if c == b'.' then b'-' else c) ∷ graphite_safe_node str

-- STATS_METRIC_PREFIX
abbrev pub stats_metric_prefix : Bytes
stats_metric_prefix = codes "systems.services.tsk"

-- create_stats_prefix, where asprintf has memory.
unfoldable pub create_stats_prefix : Bytes → Bytes → Bytes → Bytes
unfolding graphite_safe_node
create_stats_prefix consumer_group topic_prefix channel =
    stats_metric_prefix
    ++ (b'.'
        ∷ (graphite_safe_node consumer_group
            ++ (b'.' ∷ (graphite_safe_node topic_prefix ++ (b'.' ∷ graphite_safe_node channel)))))

-- The uint64 that `inc_stat` stores: both operands are ints, the old value cut to 32 bits, and the
-- sum is sign-extended. A sum above INT_MAX is undefined.
unfoldable pub add_stat : ℕ → ℕ → Outcome ℕ
add_stat value stored =
    let low : ℕ = stored % 2 ^ 32 in
    if ltb low (2 ^ 31)
    then (if ltb (value + low) (2 ^ 31) then done (value + low) else fault undefined)
    else if leb (2 ^ 32) (value + low)
    then done (value + low - 2 ^ 32)
    else done (2 ^ 64 - (2 ^ 32 - (value + low)))

-- The static variables of tsk-proxy.c, with the one inside maybe_flush.
pub record Proxy ⦃P : Platform⦄ (S : Type 0) : Type 0 where
  pub timeseries : Timeseries S
  pub stats_timeseries : Timeseries S
  pub kp : KeyPackage
  pub stats_kp : KeyPackage
  pub stats_key_prefix : Bytes
  pub stats_interval : ℕ
  pub stats_time : ℕ
  pub current_time : ℕ

-- FORCE_FLUSH
abbrev pub force_flush : ℕ
force_flush = 0

-- The absolute value of an int of 32 bits.
abbrev pub int_abs : ℕ → ℕ
int_abs n = if ltb n (2 ^ 31) then n else 2 ^ 32 - n

-- STATS_INTERVAL_NOW at the time `t` of the clock, as the 32 bits of an int: the sign of the interval
-- cancels.
abbrev pub stats_interval_now : ℕ → ℕ → Outcome ℕ
stats_interval_now t stats_interval =
    if stats_interval == 0
    then fault undefined
    else done (t / int_abs stats_interval * int_abs stats_interval % 2 ^ 32)

module _ ⦃P : Platform⦄ where
  -- The id -1 as the uint32_t that timeseries_kp_get and timeseries_kp_set take.
  abbrev pub id_or_minus_one : Option ℕ → ℕ
  id_or_minus_one none = 2 ^ 32 - 1
  id_or_minus_one (some id) = id

  -- The look-up that inc_stat starts with, and the key that it adds where there is none.
  unfoldable pub get_or_add : Bool → KeyPackage → Bytes → Outcome (Option ℕ × KeyPackage)
  get_or_add backends kp key = elim (kp_get_key kp key) [
    | some id ↦ done (some id, kp)
    | none ↦ kp_add_key backends kp key
  ]

  -- inc_stat on the package `stats_kp`; `backends` says whether a stats backend is enabled.
  -- `value` is cut to an int. asprintf has memory.
  unfoldable pub inc_stat : Bool → Bytes → KeyPackage → Bytes → ℕ → Outcome KeyPackage
  inc_stat backends prefix stats_kp suffix value = do
    let int_value : ℕ = value % 2 ^ 32
    assert (ltb 0 int_value && ltb int_value (2 ^ 31))
    (id, kp) ← get_or_add backends stats_kp (prefix ++ (b'.' ∷ suffix))
    old ← kp_get kp (id_or_minus_one id)
    new ← add_stat int_value old
    kp_set kp (id_or_minus_one id) new

module _ ⦃P : Platform⦄ {S : Type 0} where
  unfoldable pub bump : Proxy S → Bytes → ℕ → Outcome (Proxy S)
  bump p suffix value =
      inc_stat (any_enabled p.stats_timeseries) p.stats_key_prefix p.stats_kp suffix value >>= λ kp.
      done (record p { stats_kp = kp })

  -- What maybe_flush does with the outcome of timeseries_kp_flush.
  unfoldable pub after_flush :
      Proxy S → Status × KeyPackage × Timeseries S → Outcome (Status × Proxy S)
  unfolding kp_enabled_size
  after_flush p (failure, kp, timeseries) =
      done (failure, record p { kp = kp; timeseries = timeseries })
  after_flush p (success, kp, timeseries) = do
    assert (kp_enabled_size kp == 0)
    done (success, record p { kp = kp; timeseries = timeseries })

  -- The two statistics of a flush.
  unfoldable pub count_flush : Proxy S → Outcome (Proxy S)
  count_flush p = do
    p' ← bump p (codes "flush_cnt") 1
    bump p' (codes "flushed_key_cnt") (kp_enabled_size p'.kp)

  -- The flush inside maybe_flush; the status is -1 if the package could not be flushed.
  unfoldable pub flush_enabled : Proxy S → Outcome (Status × Proxy S)
  flush_enabled p = do
    p' ← count_flush p
    flushed ← kp_flush p'.timeseries p'.kp p'.current_time
    after_flush p' flushed

  -- The end of maybe_flush, after the flush that it made or not.
  abbrev pub take_time : ℕ → Status × Proxy S → Status × Proxy S
  take_time flush_time (failure, p) = (failure, p)
  take_time flush_time (success, p) = (success, record p { current_time = flush_time })

  -- maybe_flush. The `int` times are kept as the 32-bit values that they are converted from.
  unfoldable pub maybe_flush : ℕ → Proxy S → Outcome (Status × Proxy S)
  maybe_flush flush_time p =
      if p.current_time == 0
      then done (success, record p { current_time = flush_time })
      else if flush_time == 0 || not (flush_time == p.current_time)
      then (do
        assert (not (flush_time == force_flush && p.current_time == 0))
        flushed ← if ltb 0 (kp_enabled_size p.kp) then flush_enabled p else done (success, p)
        done (take_time flush_time flushed))
      else done (success, p)

  -- `now >= (stats_time + stats_interval)` of ints, where stats_time is not negative.
  abbrev pub stats_due : ℕ → Proxy S → Outcome Bool
  stats_due now p =
      if leb (2 ^ 31) p.stats_interval
      then done (
          if ltb now (2 ^ 31)
          then leb p.stats_time (now + int_abs p.stats_interval)
          else leb (2 ^ 32 + p.stats_time) (now + int_abs p.stats_interval))
      else if leb (2 ^ 31) (p.stats_time + p.stats_interval)
      then fault undefined
      else done (ltb now (2 ^ 31) && leb (p.stats_time + p.stats_interval) now)

  -- What maybe_flush_stats does with the outcome of timeseries_kp_flush.
  abbrev pub after_stats_flush :
      ℕ → Proxy S → Status × KeyPackage × Timeseries S → Outcome (Proxy S)
  after_stats_flush now p (failure, kp, timeseries) =
      done (record p { stats_kp = kp; stats_timeseries = timeseries })
  after_stats_flush now p (success, kp, timeseries) =
      done (record p { stats_kp = kp; stats_timeseries = timeseries; stats_time = now })

  -- maybe_flush_stats at the time `t` of the clock.
  unfoldable pub maybe_flush_stats : ℕ → Proxy S → Outcome (Proxy S)
  maybe_flush_stats t p = do
    now ← stats_interval_now t p.stats_interval
    due ← stats_due now p
    if due
        then (kp_flush p.stats_timeseries p.stats_kp p.stats_time >>= after_stats_flush now p)
        else done p
