-- ===== src/Dbats/Keys.antt =====
-- lib/backends/timeseries_backend_dbats.c: the ids that the database gives to keys, and the interface
-- of the backend.
use libtimeseries.Base.{
  ℕ, zero, suc, ◌+◌, ◌-◌, ◌^◌, Bool, true, false, not, ◌||◌, Option, none, some, List, [], ◌∷◌,
  Bytes, length, set, ◌==◌, if◌then◌else◌, Outcome, done, ◌>>=◌, ◌>>◌, assert, Status, success,
  failure,
}
use libtimeseries.Platform.{Platform}
use libtimeseries.KeyPackage.{
  KeyInfo, KeyPackage, key_info, kp_size, ki_enabled, ki_get_key, ki_get_backend_state,
  ki_set_backend_state,
}
use libtimeseries.Dbats.{Libdbats, Dbats, id_dbats, handler, le32}

abbrev pub given : Option ℕ → Bool
given none = false
given (some n) = true

module _ {D Snapshot : Type 0} (lib : Libdbats D Snapshot) where
  -- malloc of a uint32_t, which `memory` answers, and dbats_get_key_id into it.
  unfoldable pub get_key_id : Bool → Bytes → D → Option ℕ × D
  get_key_id memory key db = if memory then lib.get_key_id db key else (none, db)

  -- timeseries_backend_dbats_resolve_key: the length that it returns, (size_t)-1 on an error, and the
  -- id.
  unfoldable pub dbats_resolve_key :
      Bool → Dbats D Snapshot → Bytes → Outcome (ℕ × Option Bytes × Dbats D Snapshot)
  unfolding get_key_id
  dbats_resolve_key memory b key = do
    db ← handler b
    let found : Option ℕ × D = get_key_id memory key db
    let left : Dbats D Snapshot = record b { db = found.1 }
    elim found.0 [
      | none ↦ done (2 ^ 64 - 1, none, left)
      | some dbats_id ↦ done (4, some (le32 dbats_id), left)
    ]

  -- The loop of timeseries_backend_dbats_resolve_key_bulk, with `retries` left; zero is never seen.
  unfoldable pub bulk_key_ids : ℕ → List Bytes → D → Option (List ℕ) × D
  bulk_key_ids zero keys db = (none, db)
  bulk_key_ids (suc retries) keys db =
      let answer = lib.bulk_get_key_id db keys in
      let again = bulk_key_ids retries keys answer.1 in
      elim answer.0 [
        | some ids ↦ (some ids, answer.1)
        | none ↦ if retries == 0 then (none, answer.1) else again
      ]

  -- The length and the id of each key.
  abbrev pub keyed : List ℕ → List (ℕ × Bytes)
  keyed [] = []
  keyed (dbats_id ∷ ids) = (4, le32 dbats_id) ∷ keyed ids

  -- timeseries_backend_dbats_resolve_key_bulk: the keys that it has resolved; `memory` is the answer
  -- of malloc.
  unfoldable pub dbats_resolve_key_bulk :
      Bool → List Bytes → Dbats D Snapshot → Outcome (Status × List (ℕ × Bytes) × Dbats D Snapshot)
  unfolding bulk_key_ids
  dbats_resolve_key_bulk memory keys b = if not memory then done (failure, [], b) else do
    db ← handler b
    let found : Option (List ℕ) × D = bulk_key_ids 60 keys db
    let left : Dbats D Snapshot = record b { db = found.1 }
    elim found.0 [
      | none ↦ done (failure, [], left)
      | some ids ↦ assert (length ids == length keys) >> done (success, keyed ids, left)
    ]

module _ ⦃P : Platform⦄ {D Snapshot : Type 0} (lib : Libdbats D Snapshot) where
  abbrev pub with_id : KeyPackage → ℕ → KeyInfo → Option ℕ × D → Status × KeyPackage × D
  with_id kp id ki (none, db) = (failure, kp, db)
  with_id kp id ki (some dbats_id, db) = (
    success,
    record kp {
      key_infos = set kp.key_infos id (ki_set_backend_state ki id_dbats (some dbats_id));
    },
    db,
  )

  -- The body of the loop of timeseries_backend_dbats_kp_ki_update.
  unfoldable pub update_ki : (Bytes → Bool) → ℕ → KeyPackage → D → Outcome (Status × KeyPackage × D)
  unfolding ki_enabled ki_get_key ki_get_backend_state ki_set_backend_state get_key_id
  update_ki memory id kp db = do
    ki ← key_info kp id
    ki_state ← ki_get_backend_state ki id_dbats
    done (
        if not (ki_enabled ki) || given ki_state
        then (success, kp, db)
        else with_id kp id ki (get_key_id lib (memory (ki_get_key ki)) (ki_get_key ki) db))

  abbrev pub if_updated :
      (KeyPackage → D → Outcome (Status × KeyPackage × D))
      → Status × KeyPackage × D
      → Outcome (Status × KeyPackage × D)
  if_updated next (failure, kp, db) = done (failure, kp, db)
  if_updated next (success, kp, db) = next kp db

  -- The loop, from id `id` on, with `n` rounds left.
  unfoldable pub update_from :
      ℕ → ℕ → (Bytes → Bool) → KeyPackage → D → Outcome (Status × KeyPackage × D)
  unfolding update_ki
  update_from zero id memory kp db = done (success, kp, db)
  update_from (suc n) id memory kp db =
      update_ki memory id kp db >>= if_updated (update_from n (id + 1) memory)

  -- timeseries_backend_dbats_kp_ki_update; `memory` says whether malloc has memory for the id of a
  -- key.
  unfoldable pub dbats_kp_ki_update :
      (Bytes → Bool)
      → Dbats D Snapshot
      → KeyPackage
      → Outcome (Status × KeyPackage × Dbats D Snapshot)
  unfolding update_from kp_size
  dbats_kp_ki_update memory b kp = do
    db ← handler b
    (rc, kp', db') ← update_from (kp_size kp) 0 memory kp db
    done (rc, kp', record b { db = db' })
