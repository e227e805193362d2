-- ===== src/Dbats/Snapshots.antt =====
-- lib/backends/timeseries_backend_dbats.c: the operations that set values in a snapshot of their own
-- and try again when the library reports a deadlock.
use libtimeseries.Base.{
  ℕ, zero, suc, ◌+◌, Option, none, some, Bytes, ◌==◌, if◌then◌else◌, Outcome, done, fault,
  undefined, unfinished, ◌>>=◌, ◌>>◌, assert, Status, success, failure,
}
use libtimeseries.Platform.{Platform}
use libtimeseries.KeyPackage.{
  KeyInfo, KeyPackage, key_info, kp_size, ki_enabled, ki_get_value, ki_get_backend_state,
}
use libtimeseries.Dbats.{
  Answer, accepted, deadlock, failed, Libdbats, Dbats, id_dbats, handler, left_db, uint32_at,
}

-- A read through a pointer to a uint32_t.
abbrev pub deref : Option ℕ → Outcome ℕ
deref none = fault undefined
deref (some n) = done n

module _ {D : Type 0} where
  -- `goto retry` after a deadlock, -1 after another error, with fuel for the tries.
  unfoldable pub retry : ℕ → (D → Outcome (Answer × D)) → D → Outcome (Status × D)
  retry zero attempt db = fault unfinished
  retry (suc fuel) attempt db = attempt db >>= λ (answer, db'). elim answer [
    | accepted ↦ done (success, db')
    | deadlock ↦ retry fuel attempt db'
    | failed ↦ done (failure, db')
  ]

  -- What follows a call that has returned 0.
  abbrev pub if_accepted : (D → Outcome (Answer × D)) → Answer × D → Outcome (Answer × D)
  if_accepted next (accepted, db) = next db
  if_accepted next (deadlock, db) = done (deadlock, db)
  if_accepted next (failed, db) = done (failed, db)

module _ {D Snapshot : Type 0} (lib : Libdbats D Snapshot) where
  -- dbats_abort_snap, where a value could not be set.
  abbrev pub or_abort : Snapshot → Answer × D → Answer × D
  or_abort snapshot (accepted, db) = (accepted, db)
  or_abort snapshot (deadlock, db) = (deadlock, lib.abort_snap db snapshot)
  or_abort snapshot (failed, db) = (failed, lib.abort_snap db snapshot)

  -- One try: the snapshot for a time, what is set in it, and its commit.
  unfoldable pub in_snapshot : ℕ → (Snapshot → D → Outcome (Answer × D)) → D → Outcome (Answer × D)
  in_snapshot time sets db =
      let selected = lib.select_snap db time in
      elim selected.0 [
        | none ↦ done (failed, selected.1)
        | some snapshot ↦
            sets snapshot selected.1 >>= if_accepted (λ db'. done (lib.commit_snap db' snapshot))
      ]

  -- dbats_set of one value, which timeseries_backend_dbats_set_single_by_id has in its snapshot.
  abbrev pub set_one : ℕ → ℕ → Snapshot → D → Outcome (Answer × D)
  set_one dbats_id value snapshot db =
      done (or_abort snapshot (lib.set_id db snapshot dbats_id value))

  -- timeseries_backend_dbats_set_single. Its variable `val` is never written, so that `val` is what
  -- the stack holds, and `value` is not used.
  unfoldable pub dbats_set_single :
      ℕ → ℕ → Dbats D Snapshot → Bytes → ℕ → ℕ → Outcome (Status × Dbats D Snapshot)
  unfolding retry in_snapshot
  dbats_set_single fuel val b key value time = do
    db ← handler b
    set ←
        retry fuel
          (in_snapshot time
            (λ snapshot db'. done (or_abort snapshot (lib.set_by_key db' snapshot key val))))
          db
    done (left_db b set)

  -- timeseries_backend_dbats_set_single_by_id. The id is read and checked in the first try.
  unfoldable pub dbats_set_single_by_id :
      ℕ → Dbats D Snapshot → Bytes → ℕ → ℕ → ℕ → Outcome (Status × Dbats D Snapshot)
  unfolding retry in_snapshot uint32_at
  dbats_set_single_by_id fuel b id id_len value time = do
    db ← handler b
    set ←
        retry fuel
          (in_snapshot time (λ snapshot db'. do
            assert (id_len == 4)
            dbats_id ← uint32_at id
            set_one dbats_id value snapshot db'))
          db
    done (left_db b set)

  -- The body of the loop of timeseries_backend_dbats_kp_flush for an enabled key.
  unfoldable pub set_ki : Snapshot → KeyInfo → D → Outcome (Answer × D)
  unfolding ki_get_value ki_get_backend_state
  set_ki snapshot ki db = do
    ki_state ← ki_get_backend_state ki id_dbats
    dbats_id ← deref ki_state
    set_one dbats_id (ki_get_value ki) snapshot db

module _ ⦃P : Platform⦄ {D Snapshot : Type 0} (lib : Libdbats D Snapshot) where
  -- The loop of timeseries_backend_dbats_kp_flush from id `id` on, with `n` rounds left.
  unfoldable pub set_enabled : ℕ → ℕ → KeyPackage → Snapshot → D → Outcome (Answer × D)
  unfolding ki_enabled set_ki
  set_enabled zero id kp snapshot db = done (accepted, db)
  set_enabled (suc n) id kp snapshot db = do
    ki ← key_info kp id
    set ← if ki_enabled ki then set_ki lib snapshot ki db else done (accepted, db)
    if_accepted (set_enabled n (id + 1) kp snapshot) set

  -- timeseries_backend_dbats_kp_flush
  unfoldable pub dbats_kp_flush :
      ℕ → Dbats D Snapshot → KeyPackage → ℕ → Outcome (Status × Dbats D Snapshot)
  unfolding retry in_snapshot set_enabled kp_size
  dbats_kp_flush fuel b kp time = do
    db ← handler b
    set ← retry fuel (in_snapshot lib time (set_enabled (kp_size kp) 0 kp)) db
    done (left_db b set)
