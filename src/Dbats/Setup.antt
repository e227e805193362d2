-- ===== src/Dbats/Setup.antt =====
-- lib/backends/timeseries_backend_dbats.c: parse_args, timeseries_backend_dbats_init and
-- timeseries_backend_dbats_free.
use Prim.Native.Nat.{bit_or}
use libtimeseries.Base.{
  ℕ, Bool, true, false, not, Option, none, some, List, [], ◌∷◌, Bytes, codes, length, take, ◌==◌,
  if◌then◌else◌, str_eq, Outcome, done, fault, assertion, ◌>>=◌, Status, success, failure,
}
use libtimeseries.Getopt.{Opt, getopt}
use libtimeseries.Dbats.{Libdbats, DbatsState, Dbats}

-- The flags of dbats.h (a library's header), as numbers.
pub record Flags : Type 0 where
  pub uncompressed : ℕ
  pub exclusive : ℕ
  pub no_txn : ℕ
  pub updatable : ℕ

-- strncmp(optarg, flag, strlen(flag)) == 0
abbrev pub starts_with : Bytes → Bytes → Bool
starts_with flag optarg = str_eq (take (length flag) optarg) flag

-- The branches on the argument of -f.
unfoldable pub flag_of : Flags → Bytes → Option ℕ
flag_of flags optarg =
    if starts_with (codes "uncompressed") optarg
    then some flags.uncompressed
    else if starts_with (codes "exclusive") optarg
    then some flags.exclusive
    else if starts_with (codes "no-txn") optarg
    then some flags.no_txn
    else if starts_with (codes "updatable") optarg
    then some flags.updatable
    else none

-- The option string ":f:p:?"
abbrev pub optstring : ℕ → Option Bool
optstring c =
    if c == b'f'
    then some true
    else if c == b'p'
    then some true
    else if c == b'?'
    then some false
    else none

module _ {Snapshot : Type 0} where
  -- The state as malloc_zero leaves it.
  abbrev pub fresh_state : DbatsState Snapshot
  fresh_state = record {
    dbats_path = none;
    dbats_handler = false;
    dbats_flags = 0;
    bulk_cnt = 0;
    bulk_time = 0;
    bulk_expect = 0;
    bulk_snap = none;
  }

  -- `dbats_flags |= flag`
  abbrev pub add_flag : Option ℕ → DbatsState Snapshot → Status × DbatsState Snapshot
  add_flag none state = (failure, state)
  add_flag (some flag) state =
      (success, record state { dbats_flags = bit_or state.dbats_flags flag })

  -- One round of the loop of parse_args; strdup has memory.
  unfoldable pub parse_opt : Flags → Opt → DbatsState Snapshot → Status × DbatsState Snapshot
  unfolding flag_of
  parse_opt flags (opt, optarg) state =
      if opt == b'f'
      then add_flag (flag_of flags optarg) state
      else if opt == b'p'
      then (success, record state { dbats_path = some optarg })
      else (failure, state)

  abbrev pub after_opt :
      (DbatsState Snapshot → Status × DbatsState Snapshot)
      → Status × DbatsState Snapshot
      → Status × DbatsState Snapshot
  after_opt next (failure, state) = (failure, state)
  after_opt next (success, state) = next state

  unfoldable pub parse_opts : Flags → List Opt → DbatsState Snapshot → Status × DbatsState Snapshot
  unfolding parse_opt
  parse_opts flags [] state = elim state.dbats_path [
    | none ↦ (failure, state)
    | some path ↦ (success, state)
  ]
  parse_opts flags (opt ∷ opts) state =
      after_opt (parse_opts flags opts) (parse_opt flags opt state)

  -- parse_args
  unfoldable pub parse_args :
      Flags → List Bytes → DbatsState Snapshot → Outcome (Status × DbatsState Snapshot)
  unfolding parse_opts getopt
  parse_args flags [] state = fault assertion
  parse_args flags (name ∷ argv) state = done (parse_opts flags (getopt optstring none argv) state)

module _ {D Snapshot : Type 0} (lib : Libdbats D Snapshot) where
  -- timeseries_backend_dbats_init behind parse_args: dbats_open sets the handler where it returns 0.
  unfoldable pub finish_init :
      D → Status × DbatsState Snapshot → Outcome (Status × Dbats D Snapshot)
  finish_init db (failure, state) = done (failure, record { state = some state; db = db })
  finish_init db (success, state) = elim state.dbats_path [
    | none ↦ fault assertion
    | some path ↦
        let opened = lib.open_db db path state.dbats_flags in
        let committed = lib.commit_open opened.1 in
        if not opened.0
        then done (failure, record { state = some state; db = opened.1 })
        else done (
          if committed.0 then success else failure,
          record { state = some (record state { dbats_handler = true }); db = committed.1 },
        )
  ]

  -- timeseries_backend_dbats_init; `memory` is the answer of malloc_zero.
  unfoldable pub dbats_init :
      Flags → Bool → Dbats D Snapshot → List Bytes → Outcome (Status × Dbats D Snapshot)
  unfolding parse_args finish_init
  dbats_init flags false b argv = done (failure, b)
  dbats_init flags true b argv =
      parse_args flags argv fresh_state >>= λ parsed. finish_init b.db parsed

  -- dbats_abort_snap of the snapshot of a bulk set, and dbats_close, where they are due.
  abbrev pub abort_bulk : Option Snapshot → D → D
  abort_bulk none db = db
  abort_bulk (some snapshot) db = lib.abort_snap db snapshot

  abbrev pub close_db : Bool → D → D
  close_db false db = db
  close_db true db = lib.close db

  -- timeseries_backend_dbats_free
  unfoldable pub dbats_free : Dbats D Snapshot → Outcome (Dbats D Snapshot)
  dbats_free b = elim b.state [
    | none ↦ done b
    | some state ↦ done (record {
      state = none;
      db = close_db state.dbats_handler (abort_bulk state.bulk_snap b.db);
    })
  ]
