-- ===== src/Dbats/Bulk.antt =====
-- lib/backends/timeseries_backend_dbats.c: setting many values in one snapshot by several calls.
use libtimeseries.Base.{
  ℕ, ◌+◌, ◌%◌, ◌^◌, ◌&&◌, Bool, true, false, Option, none, some, Bytes, ltb, ◌==◌, if◌then◌else◌,
  Outcome, done, fault, undefined, assertion, ◌>>=◌, ◌>>◌, assert, Status, success, failure,
}
use libtimeseries.Platform.{Platform}
use libtimeseries.Backend.{Ops}
use libtimeseries.Dbats.{
  Answer, accepted, deadlock, failed, Libdbats, DbatsState, Dbats, dbats_state, handler, uint32_at,
}
use libtimeseries.Dbats.Setup.{Flags, dbats_init, dbats_free}
use libtimeseries.Dbats.Snapshots.{
  or_abort, dbats_kp_flush, dbats_set_single, dbats_set_single_by_id,
}
use libtimeseries.Dbats.Keys.{dbats_resolve_key, dbats_kp_ki_update}

module _ {Snapshot : Type 0} where
  abbrev pub is_null : Option Snapshot → Bool
  is_null none = true
  is_null (some snapshot) = false

  -- The snapshot that the calls set values in; NULL is handed to the library, which follows it.
  abbrev pub snapshot_of : DbatsState Snapshot → Outcome Snapshot
  snapshot_of state = elim state.bulk_snap [ none ↦ fault undefined | some s ↦ done s ]

module _ {D Snapshot : Type 0} (lib : Libdbats D Snapshot) where
  -- timeseries_backend_dbats_set_bulk_init. dbats_select_snap writes the snapshot where it returns 0.
  unfoldable pub dbats_set_bulk_init :
      Dbats D Snapshot → ℕ → ℕ → Outcome (Status × Dbats D Snapshot)
  dbats_set_bulk_init b key_cnt time = do
    state ← dbats_state b
    assert (state.bulk_expect == 0 && (state.bulk_cnt == 0 && is_null state.bulk_snap))
    db ← handler b
    let selected : Option Snapshot × D = lib.select_snap db time
    let begun : DbatsState Snapshot = record state {
      bulk_expect = key_cnt;
      bulk_time = time;
      bulk_snap = selected.0;
    }
    done (
      if is_null selected.0 then failure else success,
      record { state = some begun; db = selected.1 },
    )

  -- The last value of a bulk set: the commit, and the state that is reset where it returns 0.
  abbrev pub after_commit : DbatsState Snapshot → Answer × D → Status × Dbats D Snapshot
  after_commit state (accepted, db) = (
    success,
    record {
      state =
          some (record state { bulk_cnt = 0; bulk_time = 0; bulk_expect = 0; bulk_snap = none });
      db = db;
    },
  )
  after_commit state (deadlock, db) = (failure, record { state = some state; db = db })
  after_commit state (failed, db) = (failure, record { state = some state; db = db })

  -- timeseries_backend_dbats_set_bulk_by_id behind its dbats_set.
  unfoldable pub count_bulk :
      DbatsState Snapshot → Snapshot → Answer × D → Status × Dbats D Snapshot
  count_bulk state snapshot (deadlock, db) = (failure, record { state = some state; db = db })
  count_bulk state snapshot (failed, db) = (failure, record { state = some state; db = db })
  count_bulk state snapshot (accepted, db) =
      let cnt : ℕ = (state.bulk_cnt + 1) % 2 ^ 32 in
      let counted : DbatsState Snapshot = record state { bulk_cnt = cnt } in
      if cnt == state.bulk_expect
      then after_commit counted (lib.commit_snap db snapshot)
      else (success, record { state = some counted; db = db })

  -- timeseries_backend_dbats_set_bulk_by_id
  unfoldable pub dbats_set_bulk_by_id :
      Dbats D Snapshot → Bytes → ℕ → ℕ → Outcome (Status × Dbats D Snapshot)
  unfolding uint32_at count_bulk
  dbats_set_bulk_by_id b id id_len value = do
    state ← dbats_state b
    assert (ltb 0 state.bulk_expect)
    assert (id_len == 4)
    dbats_id ← uint32_at id
    snapshot ← snapshot_of state
    done (
        count_bulk state snapshot (or_abort lib snapshot (lib.set_id b.db snapshot dbats_id value)))

module _ ⦃P : Platform⦄ {D Snapshot : Type 0} (lib : Libdbats D Snapshot) where
  -- The interface, with the functions that only return. `fuel` bounds the tries of one call, `val` is
  -- what the stack holds.
  unfoldable pub dbats_ops : Flags → (Bytes → Bool) → ℕ → ℕ → Ops (Dbats D Snapshot)
  unfolding dbats_init dbats_free dbats_kp_ki_update dbats_kp_flush dbats_set_single
      dbats_set_single_by_id dbats_set_bulk_init dbats_set_bulk_by_id dbats_resolve_key
  dbats_ops flags memory fuel val = record {
    init = dbats_init lib flags true;
    free = dbats_free lib;
    kp_init = λ b kp. done (success, none, b);
    kp_free = λ b kp kp_state. elim kp_state [ none ↦ done b | some p ↦ fault assertion ];
    kp_ki_update = dbats_kp_ki_update lib memory;
    kp_ki_free = λ b ki ki_state. done b;
    kp_flush = dbats_kp_flush lib fuel;
    set_single = dbats_set_single lib fuel val;
    set_single_by_id = dbats_set_single_by_id lib fuel;
    set_bulk_init = dbats_set_bulk_init lib;
    set_bulk_by_id = dbats_set_bulk_by_id lib;
    resolve_key = λ b key. dbats_resolve_key lib (memory key) b key;
  }
