-- ===== src/Tests/Flushing.antt =====
-- The theorems on timeseries_kp_flush at concrete packages and backends.
use libtimeseries.Base.{
  ◌≤◌, ◌<◌, str_eq, ℕ, ◌≡◌, refl, true, false, none, some, [], ◌∷◌, ◌++◌, codes, done, success,
  failure,
}
use libtimeseries.KeyPackage.{
  KeyPackage, kp_reset_disable, kp_size, ki_enabled, ki_get_key, ki_get_value, reset_disable_from,
  reset_disable_at, set_value, kp_disable_key, kp_ki_set,
}
use libtimeseries.KeyPackage.Invariant.{IsValid}
use libtimeseries.KeyPackage.Values.{reset_all}
use libtimeseries.Backend.{Backend}
use libtimeseries.Timeseries.Backends.{AllSet, get_backend_by_name_lem, set_single_lem}
use libtimeseries.Timeseries.{
  get_backend_by_id, get_backend_by_name, find_by_name, lower, strcaseeq, set_single, set_single_at,
  Timeseries, for_each_enabled,
}
use libtimeseries.Getopt.{decimal, decimal_onto}
use libtimeseries.Flush.{flush_finish, update_if, kp_flush, flush_at, flush_updated}
use libtimeseries.Flush.View.{view}
use libtimeseries.Flush.Results.{
  Lawful, kp_flush_success, kp_flush_failure, flush_failure_loses_dirty,
}
use libtimeseries.Ascii.{
  ascii_set_single, Ascii, ascii_ops, ascii_kp_flush, dump_enabled, time_buffer, metric_line, dump,
}
use libtimeseries.Ascii.Lines.{ascii_ops-KeepsView}
use libtimeseries.Tests.Fixtures.{
  platform, kp_two, kp_two-IsValid, ascii, ascii_backend, failing_backend, one_backend, failing,
  info, key_a, key_b,
}

ascii-Lawful : Lawful ascii_backend
ascii-Lawful = ascii_ops-KeepsView (λ file level. true) true

failing-Lawful : Lawful failing_backend
failing-Lawful = record { update_view = ascii-Lawful.update_view }

-- What the flush leaves: the keys disabled, and the text written.
abbrev kp_flushed : KeyPackage
kp_flushed = record kp_two {
  key_infos = info key_a 0 true ∷ info key_b 0 true ∷ [];
  key_infos_enabled_cnt = 0;
  dirty = false;
}

abbrev flushed : Timeseries Ascii
flushed = record {
  backends =
      some (record ascii_backend {
        state = record ascii { stdout = codes "a.x 0 60" ++ (10 ∷ (codes "b 0 60" ++ (10 ∷ []))) };
      })
      ∷ none
      ∷ none
      ∷ [];
}

flush_run : kp_flush one_backend kp_two 60 ≡ done (success, kp_flushed, flushed)
unfolding kp_flush ascii_ops kp_reset_disable for_each_enabled flush_finish flush_at update_if
    flush_updated ascii_kp_flush dump_enabled time_buffer decimal decimal_onto metric_line dump
    ki_enabled ki_get_key ki_get_value kp_size reset_disable_from reset_disable_at set_value
    kp_disable_key kp_ki_set
flush_run = refl

kp_flush_success_example :
    IsValid kp_flushed
    × (view kp_flushed
        ≡ view (record kp_two {
          key_infos = reset_all true true kp_two.key_infos;
          key_infos_enabled_cnt = 0;
          dirty = false;
        }))
kp_flush_success_example =
    kp_flush_success one_backend flushed kp_two kp_flushed 60 (ascii-Lawful, tt) kp_two-IsValid
      flush_run

failed_run : kp_flush failing kp_two 60 ≡ done (failure, record kp_two { dirty = false }, failing)
unfolding kp_flush ascii_ops
failed_run = refl

kp_flush_failure_example : IsValid (record kp_two { dirty = false }) × (view kp_two ≡ view kp_two)
kp_flush_failure_example =
    kp_flush_failure failing failing kp_two (record kp_two { dirty = false }) 60
      (failing-Lawful, (ascii-Lawful, tt)) kp_two-IsValid failed_run

flush_failure_loses_dirty_example :
    (kp_flush failing kp_two 60 ≡ done (failure, record kp_two { dirty = false }, failing))
    × ((time' id : ℕ) (later : Backend Ascii) (k : KeyPackage)
        → flush_at false time' id later k ≡ flush_updated time' later (success, k, later.state))
unfolding ascii_ops
flush_failure_loses_dirty_example =
    flush_failure_loses_dirty failing_backend (some ascii_backend ∷ none ∷ []) kp_two
      (record kp_two { dirty = false }) ascii ascii 60 failing-Lawful refl refl refl refl

get_backend_by_name_lem_example :
    (strcaseeq ascii_backend.name (codes "ASCII") ≡ true)
    × (i : ℕ) × (1 ≤ i)
    × (i < 4)
    × (get_backend_by_id one_backend i ≡ some ascii_backend)
    × ((j : ℕ) (c : Backend Ascii)
        → 1 ≤ j
        → j < i
        → get_backend_by_id one_backend j ≡ some c
        → strcaseeq c.name (codes "ASCII") ≡ false)
unfolding get_backend_by_name find_by_name lower str_eq
get_backend_by_name_lem_example =
    get_backend_by_name_lem one_backend (codes "ASCII") ascii_backend refl

-- What setting one value leaves.
abbrev with_line : Timeseries Ascii
with_line = record {
  backends =
      some (record ascii_backend { state = record ascii { stdout = codes "b 7 60" ++ (10 ∷ []) } })
      ∷ none
      ∷ none
      ∷ [];
}

set_single_run : set_single one_backend key_b 7 60 ≡ done (success, with_line)
unfolding set_single for_each_enabled set_single_at ascii_ops ascii_set_single dump metric_line
    time_buffer decimal decimal_onto
set_single_run = refl

set_single_lem_example : AllSet key_b 7 60 one_backend.backends with_line.backends
set_single_lem_example = set_single_lem one_backend with_line key_b 7 60 set_single_run
