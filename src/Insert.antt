-- ===== src/Insert.antt =====
-- tools/timeseries-insert.c: the tool that reads lines `key value time` and writes them through the
-- enabled backends, one by one or by a key package that is flushed whenever the time changes.
pub mod Lines
pub mod Replay
pub mod Package
pub mod Pending
pub mod Copied
pub mod Refused
use libtimeseries.Base.{
  ℕ, ◌+◌, ◌-◌, ◌%◌, ◌^◌, Bool, true, false, not, ◌&&◌, ◌||◌, Option, none, some, List, [], ◌∷◌,
  Bytes, ltb, ◌==◌, if◌then◌else◌, Outcome, done, fault, undefined, ◌>>=◌, ◌>>◌, assert, Status,
  success, failure,
}
use libtimeseries.Platform.{Platform}
use libtimeseries.KeyPackage.{KeyPackage, kp_get_key, kp_add_key, kp_set}
use libtimeseries.Backend.{Backend}
use libtimeseries.Timeseries.{
  Timeseries, any_enabled, set_single, get_backend_by_name, enable_backend,
}
use libtimeseries.Flush.{kp_flush}
use libtimeseries.Strtoull.{Number, strtoull}

-- BUFFER_LEN
abbrev pub buffer_len : ℕ
buffer_len = 1024

-- wandio_fgets (of a library): what its calls with a buffer of this length give out of a file, one after
-- the other, without the newlines.
abbrev pub Reader : Type 0
Reader = ℕ → Bytes → List Bytes

-- A line that `insert` has taken apart.
pub record Metric : Type 0 where
  pub key : Bytes
  pub value : ℕ
  pub time : ℕ

-- The static variables of timeseries-insert.c. `gtime` is the 32 bits of an int. Whether errno is
-- ERANGE is passed beside them; nothing but the reading of numbers changes it here.
pub record Insert ⦃P : Platform⦄ (S : Type 0) : Type 0 where
  pub timeseries : Timeseries S
  pub kp : Option KeyPackage
  pub points_pending : ℕ
  pub batch_mode : Bool
  pub gtime : ℕ

-- strsep(&line, " "): the text before the first space, and the text behind it, NULL if there is none.
unfoldable pub strsep : Bytes → Bytes × Option Bytes
strsep [] = ([], none)
strsep (c ∷ cs) = let rest = strsep cs in if c == 32 then ([], some cs) else (c ∷ rest.0, rest.1)

-- A number that is the whole of a field, and whether errno is ERANGE after it was read, where `erange`
-- says it of before.
abbrev pub whole : Bool → Option Number → Option ℕ × Bool
whole erange none = (none, erange)
whole erange (some n) = elim n.rest [
  | [] ↦ (if erange || n.erange then none else some n.value, erange || n.erange)
  | c ∷ cs ↦ (none, erange || n.erange)
]

unfoldable pub read_number : Bool → Bytes → Option ℕ × Bool
read_number erange field = whole erange (strtoull field)

abbrev pub timed : Bytes → ℕ → Option ℕ × Bool → Option Metric × Bool
timed key value (none, erange) = (none, erange)
timed key value (some time, erange) =
    (some (record { key = key; value = value; time = time % 2 ^ 32 }), erange)

-- The end of the line, from its time on; what stands behind a third space is not looked at.
unfoldable pub read_time : Bytes → Option Bytes → Option ℕ × Bool → Option Metric × Bool
unfolding read_number strsep
read_time key rest (none, erange) = (none, erange)
read_time key none (some value, erange) = (none, erange)
read_time key (some rest) (some value, erange) =
    timed key value (read_number erange (strsep rest).0)

abbrev pub read_value : Bool → Bytes → Option Bytes → Option Metric × Bool
read_value erange key none = (none, erange)
read_value erange key (some rest) =
    read_time key (strsep rest).1 (read_number erange (strsep rest).0)

-- The first part of insert: the metric of a line, `none` for a line that is reported and passed over, and
-- whether errno is ERANGE afterwards.
unfoldable pub read_metric : Bool → Bytes → Option Metric × Bool
unfolding strsep read_number read_time
read_metric erange line = read_value erange (strsep line).0 (strsep line).1

-- points_pending++ of an int
abbrev pub inc_int : ℕ → Outcome ℕ
inc_int n = if ltb n (2 ^ 31 - 1) then done (n + 1) else fault undefined

-- The test of a line for a comment and for an empty line.
abbrev pub is_skipped : Bytes → Bool
is_skipped [] = true
is_skipped (c ∷ cs) = c == b'#'

module _ ⦃P : Platform⦄ where
  -- The key package, which is read where it may be NULL.
  abbrev pub package_of : Option KeyPackage → Outcome KeyPackage
  package_of none = fault undefined
  package_of (some kp) = done kp

  -- The id of a key, which is added if the package does not know it.
  unfoldable pub find_or_add : Bool → KeyPackage → Bytes → Outcome (Option ℕ × KeyPackage)
  find_or_add backends kp key = elim (kp_get_key kp key) [
    | some id ↦ done (some id, kp)
    | none ↦ kp_add_key backends kp key
  ]

module _ ⦃P : Platform⦄ {S : Type 0} where
  -- Where a metric has a new time: the flush of the package at the time before it.
  unfoldable pub flush_old : ℕ → Insert S → Outcome (Status × Insert S)
  flush_old time s =
      let gtime = if s.gtime == 0 then time else s.gtime in
      if gtime == time then done (success, record s { gtime = gtime }) else do
        kp ← package_of s.kp
        (rc, kp', timeseries) ← kp_flush s.timeseries kp gtime
        let left : Insert S = record s { timeseries = timeseries; kp = some kp'; gtime = gtime }
        done (elim rc [
          | failure ↦ (failure, left)
          | success ↦ (success, record left { gtime = time; points_pending = 0 })
        ])

  abbrev pub set_pending : Insert S → ℕ → Option ℕ × KeyPackage → Outcome (Status × Insert S)
  set_pending s value (none, kp) = done (failure, record s { kp = some kp })
  set_pending s value (some id, kp) = do
    assert (ltb id (2 ^ 31))
    kp' ← kp_set kp id value
    pending ← inc_int s.points_pending
    done (success, record s { kp = some kp'; points_pending = pending })

  -- The value goes into the package.
  unfoldable pub put_pending : Metric → Insert S → Outcome (Status × Insert S)
  unfolding find_or_add
  put_pending m s = do
    kp ← package_of s.kp
    found ← find_or_add (any_enabled s.timeseries) kp m.key
    set_pending s m.value found

  abbrev pub if_ok :
      (Insert S → Outcome (Status × Insert S)) → Status × Insert S → Outcome (Status × Insert S)
  if_ok next (failure, s) = done (failure, s)
  if_ok next (success, s) = next s

  -- The second part of insert.
  unfoldable pub store_metric : Metric → Insert S → Outcome (Status × Insert S)
  unfolding flush_old put_pending
  store_metric m s =
      if not s.batch_mode
      then (do
        (rc, timeseries) ← set_single s.timeseries m.key m.value m.time
        done (rc, record s { timeseries = timeseries }))
      else (flush_old m.time s >>= if_ok (put_pending m))

  abbrev pub store_read : Insert S → Option Metric × Bool → Outcome (Status × Bool × Insert S)
  store_read s (none, erange) = done (success, erange, s)
  store_read s (some m, erange) = do (rc, s') ← store_metric m s; done (rc, erange, s')

  -- insert
  unfoldable pub insert : Bytes → Bool → Insert S → Outcome (Status × Bool × Insert S)
  unfolding read_metric store_metric
  insert line erange s = store_read s (read_metric erange line)

  abbrev pub if_read :
      (Bool → Insert S → Outcome (Status × Bool × Insert S))
      → Status × Bool × Insert S
      → Outcome (Status × Bool × Insert S)
  if_read next (failure, erange, s) = done (failure, erange, s)
  if_read next (success, erange, s) = next erange s

  -- The loop of main over what the calls of wandio_fgets give out.
  unfoldable pub insert_lines : List Bytes → Bool → Insert S → Outcome (Status × Bool × Insert S)
  unfolding insert
  insert_lines [] erange s = done (success, erange, s)
  insert_lines (line ∷ lines) erange s =
      (if is_skipped line then done (success, erange, s) else insert line erange s)
      >>= if_read (insert_lines lines)

  -- The flush behind the loop.
  unfoldable pub flush_last : Insert S → Outcome (Status × Insert S)
  flush_last s =
      if s.batch_mode && ltb 0 s.points_pending
      then (do
        kp ← package_of s.kp
        (rc, kp', timeseries) ← kp_flush s.timeseries kp s.gtime
        done (rc, record s { timeseries = timeseries; kp = some kp' }))
      else done (success, s)

  abbrev pub then_flush : Status × Bool × Insert S → Outcome (Status × Insert S)
  then_flush (failure, erange, s) = done (failure, s)
  then_flush (success, erange, s) = flush_last s

  -- main from its loop on, to the point where it releases the package.
  unfoldable pub insert_all : List Bytes → Bool → Insert S → Outcome (Status × Insert S)
  unfolding insert_lines flush_last
  insert_all lines erange s = insert_lines lines erange s >>= then_flush

  -- The same on a file.
  unfoldable pub insert_file : Reader → Bytes → Bool → Insert S → Outcome (Status × Insert S)
  unfolding insert_all
  insert_file wandio_fgets text erange s = insert_all (wandio_fgets buffer_len text) erange s

  -- init_timeseries: the name and the options behind the first space, where strdup has memory. The
  -- backend that is left takes its place in the object.
  unfoldable pub init_timeseries :
      (Bytes → Bytes → List Bytes) → Timeseries S → Bytes → Outcome (Status × Option (Backend S))
  unfolding strsep
  init_timeseries parse_cmd timeseries ts_backend =
      elim (get_backend_by_name timeseries (strsep ts_backend).0) [
        | none ↦ done (failure, none)
        | some backend ↦ do
          (rc, backend') ← enable_backend parse_cmd backend (strsep ts_backend).1
          done (rc, some backend')
      ]
