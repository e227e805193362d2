-- ===== src/Ascii.antt =====
-- lib/backends/timeseries_backend_ascii.c: the backend that writes a line of text for each value.
pub mod Lines
pub mod Bulk
use libtimeseries.Base.{
  ℕ, zero, suc, ◌+◌, ◌%◌, ◌^◌, Bool, true, false, not, ◌&&◌, Option, none, some, List, [], ◌∷◌,
  ◌++◌, Bytes, codes, length, take, ltb, ◌==◌, if◌then◌else◌, Outcome, done, fault, undefined,
  ◌>>=◌, ◌>>◌, assert, Status, success, failure, assertion,
}
use libtimeseries.Platform.{Platform}
use libtimeseries.KeyPackage.{
  KeyInfo, KeyPackage, key_info, kp_size, ki_enabled, ki_get_key, ki_get_value,
}
use libtimeseries.Backend.{Ops}
use libtimeseries.Getopt.{Opt, getopt, atoi, decimal}

abbrev pub default_compress_level : ℕ
default_compress_level = 6

-- timeseries_backend_ascii_state_t. `outfile` holds what was written to the file since it was opened.
pub record AsciiState : Type 0 where
  pub ascii_file : Option Bytes
  pub outfile : Option Bytes
  pub compress_level : ℕ
  pub bulk_cnt : ℕ
  pub bulk_time : ℕ
  pub bulk_expect : ℕ

-- The state of the backend, NULL before its init, with what it wrote to stdout and to the files
-- that it has closed.
pub record Ascii : Type 0 where
  pub state : Option AsciiState
  pub stdout : Bytes
  pub closed : List (Bytes × Bytes)

-- The state as malloc_zero leaves it, with the default level.
abbrev pub fresh_state : AsciiState
fresh_state = record {
  ascii_file = none;
  outfile = none;
  compress_level = default_compress_level;
  bulk_cnt = 0;
  bulk_time = 0;
  bulk_expect = 0;
}

-- The option string ":c:f:?" of parse_args
abbrev pub optstring : ℕ → Option Bool
optstring c =
    if c == b'c'
    then some true
    else if c == b'f'
    then some true
    else if c == b'?'
    then some false
    else none

-- The loop of parse_args; strdup has memory.
unfoldable pub parse_opts : List Opt → AsciiState → Outcome (Status × AsciiState)
unfolding atoi
parse_opts [] state = done (success, state)
parse_opts ((opt, optarg) ∷ opts) state =
    let with_file = parse_opts opts (record state { ascii_file = some optarg }) in
    if opt == b'c'
    then (do level ← atoi optarg; parse_opts opts (record state { compress_level = level }))
    else if opt == b'f'
    then with_file
    else done (failure, state)

unfoldable pub parse_args : List Bytes → AsciiState → Outcome (Status × AsciiState)
unfolding parse_opts getopt
parse_args [] state = fault assertion
parse_args (name ∷ argv) state = parse_opts (getopt optstring none argv) state

-- The end of timeseries_backend_ascii_init: `wandio_wcreate` (of a library) says whether it can open
-- the file at the compression level.
unfoldable pub open_file :
    (Bytes → ℕ → Bool) → Ascii → Status × AsciiState → Outcome (Status × Ascii)
open_file wandio_wcreate a (failure, state) = done (failure, record a { state = some state })
open_file wandio_wcreate a (success, state) = elim state.ascii_file [
  | none ↦ done (success, record a { state = some state })
  | some file ↦
      if wandio_wcreate file state.compress_level
      then done (success, record a { state = some (record state { outfile = some [] }) })
      else done (failure, record a { state = some state })
]

-- timeseries_backend_ascii_init; `memory` is the answer of malloc_zero.
unfoldable pub ascii_init :
    (Bytes → ℕ → Bool) → Bool → Ascii → List Bytes → Outcome (Status × Ascii)
unfolding parse_args open_file
ascii_init wandio_wcreate false a argv = done (failure, a)
ascii_init wandio_wcreate true a argv = do
  parsed ← parse_args argv fresh_state
  open_file wandio_wcreate a parsed

-- The file that wandio_wdestroy closes.
abbrev pub close_file : Option Bytes → Option Bytes → List (Bytes × Bytes)
close_file (some file) (some text) = (file, text) ∷ []
close_file file none = []
close_file none (some text) = []

-- timeseries_backend_ascii_free
unfoldable pub ascii_free : Ascii → Outcome Ascii
ascii_free a = elim a.state [
  | none ↦ done a
  | some state ↦
      done
        (record a { state = none; closed = close_file state.ascii_file state.outfile ++ a.closed })
]

-- STATE(backend), a NULL pointer that is read from being undefined
abbrev pub ascii_state : Ascii → Outcome AsciiState
ascii_state a = elim a.state [ none ↦ fault undefined | some state ↦ done state ]

-- PRINT_METRIC
unfoldable pub metric_line : Bytes → ℕ → Bytes → Bytes
metric_line key value time = key ++ (32 ∷ (decimal value ++ (32 ∷ (time ++ (10 ∷ [])))))

-- DUMP_METRIC of a line: to the file if there is one, else to stdout.
unfoldable pub dump : Ascii → Bytes → Outcome Ascii
dump a line = do
  state ← ascii_state a
  done (elim state.outfile [
    | none ↦ record a { stdout = a.stdout ++ line }
    | some text ↦ record a { state = some (record state { outfile = some (text ++ line) }) }
  ])

-- snprintf of the time into the buffer of 11 bytes
unfoldable pub time_buffer : ℕ → Bytes
time_buffer time = take 10 (decimal time)

-- timeseries_backend_ascii_set_single
unfoldable pub ascii_set_single : Ascii → Bytes → ℕ → ℕ → Outcome (Status × Ascii)
unfolding metric_line dump
ascii_set_single a key value time = do
  a' ← dump a (metric_line key value (time_buffer time))
  done (success, a')

-- The C string at the start of a buffer; there has to be a NUL in it.
unfoldable pub string_at : Bytes → Outcome Bytes
string_at [] = fault undefined
string_at (c ∷ cs) = if c == 0 then done [] else (string_at cs >>= λ s. done (c ∷ s))

-- timeseries_backend_ascii_set_single_by_id
unfoldable pub ascii_set_single_by_id : Ascii → Bytes → ℕ → ℕ → ℕ → Outcome (Status × Ascii)
unfolding string_at ascii_set_single
ascii_set_single_by_id a id id_len value time = do
  key ← string_at id
  ascii_set_single a key value time

-- timeseries_backend_ascii_set_bulk_init
unfoldable pub ascii_set_bulk_init : Ascii → ℕ → ℕ → Outcome (Status × Ascii)
ascii_set_bulk_init a key_cnt time = do
  state ← ascii_state a
  assert (state.bulk_expect == 0 && state.bulk_cnt == 0)
  done (
    success,
    record a { state = some (record state { bulk_expect = key_cnt; bulk_time = time }) },
  )

-- The count of timeseries_backend_ascii_set_bulk_by_id, after the value is written.
unfoldable pub count_bulk : AsciiState → AsciiState
count_bulk state =
    let cnt : ℕ = (state.bulk_cnt + 1) % 2 ^ 32 in
    if cnt == state.bulk_expect
    then record state { bulk_cnt = 0; bulk_time = 0; bulk_expect = 0 }
    else record state { bulk_cnt = cnt }

-- timeseries_backend_ascii_set_bulk_by_id. The call that writes the value returns 0 always.
unfoldable pub ascii_set_bulk_by_id : Ascii → Bytes → ℕ → ℕ → Outcome (Status × Ascii)
unfolding ascii_set_single_by_id count_bulk
ascii_set_bulk_by_id a id id_len value = do
  state ← ascii_state a
  assert (ltb 0 state.bulk_expect)
  (rc, written) ← ascii_set_single_by_id a id id_len value state.bulk_time
  state' ← ascii_state written
  elim rc [
    | failure ↦ done (failure, written)
    | success ↦ done (success, record written { state = some (count_bulk state') })
  ]

module _ ⦃P : Platform⦄ where
  -- The loop of timeseries_backend_ascii_kp_flush from id `id` on, with `n` rounds left.
  unfoldable pub dump_enabled : ℕ → ℕ → KeyPackage → Bytes → Ascii → Outcome Ascii
  unfolding ki_enabled ki_get_key ki_get_value metric_line dump
  dump_enabled zero id kp time a = done a
  dump_enabled (suc n) id kp time a = do
    ki ← key_info kp id
    a' ←
        if ki_enabled ki
        then dump a (metric_line (ki_get_key ki) (ki_get_value ki) time)
        else done a
    dump_enabled n (id + 1) kp time a'

  -- timeseries_backend_ascii_kp_flush
  unfoldable pub ascii_kp_flush : Ascii → KeyPackage → ℕ → Outcome (Status × Ascii)
  unfolding dump_enabled kp_size
  ascii_kp_flush a kp time = do
    a' ← dump_enabled (kp_size kp) 0 kp (time_buffer time) a
    done (success, a')

  -- timeseries_backend_ascii_resolve_key: the length that it returns, 0 on an error, and the copy.
  unfoldable pub ascii_resolve_key : Ascii → Bytes → Outcome (ℕ × Option Bytes × Ascii)
  ascii_resolve_key a key =
      if P.strdup key then done (length key + 1, some (key ++ (0 ∷ [])), a) else done (0, none, a)

  -- timeseries_backend_ascii_resolve_key_bulk: the keys that it has resolved.
  unfoldable pub ascii_resolve_key_bulk :
      List Bytes → Ascii → Outcome (Status × List (ℕ × Bytes) × Ascii)
  unfolding ascii_resolve_key
  ascii_resolve_key_bulk [] a = done (success, [], a)
  ascii_resolve_key_bulk (key ∷ keys) a =
      if P.strdup key
      then (ascii_resolve_key_bulk keys a >>= λ (rc, ids, a').
          done (rc, (length key + 1, key ++ (0 ∷ [])) ∷ ids, a'))
      else done (failure, [], a)

  -- The interface, with the functions that only return.
  unfoldable pub ascii_ops : (Bytes → ℕ → Bool) → Bool → Ops Ascii
  unfolding ascii_init ascii_free ascii_kp_flush ascii_set_single ascii_set_single_by_id
      ascii_set_bulk_init ascii_set_bulk_by_id ascii_resolve_key
  ascii_ops wandio_wcreate memory = record {
    init = ascii_init wandio_wcreate memory;
    free = ascii_free;
    kp_init = λ a kp. done (success, none, a);
    kp_free = λ a kp kp_state. elim kp_state [ none ↦ done a | some p ↦ fault assertion ];
    kp_ki_update = λ a kp. done (success, kp, a);
    kp_ki_free = λ a ki ki_state. elim ki_state [ none ↦ done a | some p ↦ fault assertion ];
    kp_flush = ascii_kp_flush;
    set_single = ascii_set_single;
    set_single_by_id = ascii_set_single_by_id;
    set_bulk_init = ascii_set_bulk_init;
    set_bulk_by_id = ascii_set_bulk_by_id;
    resolve_key = ascii_resolve_key;
  }
