-- ===== src/Proxy/Run.antt =====
-- tools/tsk-proxy.c: run, over the list of what its polls of the Kafka consumer return.
pub mod Settled
pub mod Ended
use libtimeseries.Base.{
  ℕ, suc, ◌+◌, Bool, true, false, ◌||◌, List, [], ◌∷◌, Bytes, leb, if◌then◌else◌, Outcome, done,
  fault, unfinished, ◌>>=◌, Status, success, failure,
}
use libtimeseries.Platform.{Platform}
use libtimeseries.Kafka.{or_err}
use libtimeseries.Proxy.{Proxy, maybe_flush, maybe_flush_stats, force_flush}
use libtimeseries.Proxy.Message.{Filter, handle_message}

-- What rd_kafka_consumer_poll returns: NULL, a message, the end of a partition, or another error.
pub data Polled : Type 0 where
  nothing : Polled
  message : Bytes → Polled
  partition_eof other_error : Polled

-- A poll, with `shutdown_proxy` as it is read before it, the clock of the call of maybe_flush_stats
-- next to it, and `shutdown_proxy` as it is read at the end of a partition.
pub record Poll : Type 0 where
  pub shutdown : Bool
  pub clock : ℕ
  pub polled : Polled
  pub shutdown_at_eof : Bool

-- The place in `run`: the start of the outer loop, or the test of `shutdown_proxy` at the end of a
-- round of the inner one, with eof_since_data.
pub data Place : Type 0 where
  outer : Place
  inner : ℕ → Place

module _ ⦃P : Platform⦄ {S : Type 0} where
  -- A round of the inner loop on what a poll returned, where `rest` goes on with the polls after it.
  unfoldable pub on_polled :
      ℕ
      → Filter
      → (Place → Proxy S → Outcome (Status × Proxy S))
      → Bool
      → ℕ
      → Polled
      → Proxy S
      → Outcome (Status × Proxy S)
  on_polled fuel cfg rest shutdown eof_since_data nothing p = rest outer p
  on_polled fuel cfg rest shutdown eof_since_data (message payload) p =
      handle_message fuel cfg payload p >>= or_err (rest (inner 0)) (λ left. left)
  on_polled fuel cfg rest shutdown eof_since_data partition_eof p =
      if shutdown || leb 10 (eof_since_data + 1)
      then rest outer p
      else rest (inner (eof_since_data + 1)) p
  on_polled fuel cfg rest shutdown eof_since_data other_error p = rest (inner eof_since_data) p

  -- The start of the outer loop up to its poll.
  unfoldable pub outer_round :
      Bool → ℕ → (Proxy S → Outcome (Status × Proxy S)) → Proxy S → Outcome (Status × Proxy S)
  outer_round shutdown clock next p =
      maybe_flush force_flush p
      >>= or_err
          (λ (flushed : Proxy S).
            maybe_flush_stats clock flushed >>= λ q. if shutdown then done (success, q) else next q)
          (λ left. left)

  -- The loops of `run`. After the last poll of the list the program still runs.
  unfoldable pub run_from : ℕ → Filter → List Poll → Place → Proxy S → Outcome (Status × Proxy S)
  unfolding on_polled outer_round
  run_from fuel cfg [] place p = fault unfinished
  run_from fuel cfg (e ∷ es) outer p =
      outer_round e.shutdown e.clock
        (on_polled fuel cfg (run_from fuel cfg es) e.shutdown_at_eof 0 e.polled) p
  run_from fuel cfg (e ∷ es) (inner eof_since_data) p =
      if e.shutdown
      then outer_round e.shutdown e.clock
          (on_polled fuel cfg (run_from fuel cfg es) e.shutdown_at_eof 0 e.polled) p
      else (maybe_flush_stats e.clock p
          >>= on_polled fuel cfg (run_from fuel cfg es) e.shutdown_at_eof eof_since_data e.polled)

  -- `cleanup` of run, whose flush may fail.
  abbrev pub cleanup : Status × Proxy S → Outcome (Status × Proxy S)
  cleanup (rc, p) = maybe_flush force_flush p >>= λ flushed. done (rc, flushed.1)

  -- run
  unfoldable pub run : ℕ → Filter → List Poll → Proxy S → Outcome (Status × Proxy S)
  unfolding run_from
  run fuel cfg polls p = run_from fuel cfg polls outer p >>= cleanup
