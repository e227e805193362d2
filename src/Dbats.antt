-- ===== src/Dbats.antt =====
-- lib/backends/timeseries_backend_dbats.c: the backend that stores values in a DBATS database. `D`
-- is all the state behind the handler of libdbats (a library), which is a parameter; a snapshot is
-- what the library gives out for a time, to set values in and to commit or abort.
pub mod Setup
pub mod Snapshots
pub mod Keys
pub mod Bulk
pub mod Database
pub mod Flush
pub mod Resolved
pub mod Dirty
pub mod Batch
pub mod Missing
use libtimeseries.Base.{
  ◌≡◌, arith, ℕ, zero, suc, ◌+◌, ◌*◌, ◌/◌, ◌%◌, ◌^◌, Bool, true, false, not, ◌&&◌, ◌||◌, Option,
  none, some, List, [], ◌∷◌, ◌++◌, Bytes, codes, length, set, take, ltb, ◌==◌, if◌then◌else◌,
  str_eq, Outcome, done, fault, undefined, unfinished, assertion, ◌>>=◌, ◌>>◌, assert, Status,
  success, failure,
}
use Prim.Native.Nat.{bit_or}
use libtimeseries.Platform.{Platform}
use libtimeseries.KeyPackage.{
  KeyInfo, KeyPackage, key_info, kp_size, ki_enabled, ki_get_key, ki_get_value,
  ki_get_backend_state, ki_set_backend_state,
}
use libtimeseries.Backend.{Ops}
use libtimeseries.Getopt.{Opt, getopt}

-- TIMESERIES_BACKEND_ID_DBATS
abbrev pub id_dbats : ℕ
id_dbats = 2

-- The results 0, DB_LOCK_DEADLOCK, and any other.
pub data Answer : Type 0 where
  accepted deadlock failed : Answer

-- What the backend calls of libdbats. A pointer that is not set on an error is `none`.
pub record Libdbats (D Snapshot : Type 0) : Type 0 where
  -- dbats_open(path, flags) and dbats_commit_open: whether they return 0
  pub open_db : D → Bytes → ℕ → Bool × D
  pub commit_open : D → Bool × D
  pub close : D → D
  -- dbats_get_key_id and dbats_bulk_get_key_id with DBATS_CREATE
  pub get_key_id : D → Bytes → Option ℕ × D
  pub bulk_get_key_id : D → List Bytes → Option (List ℕ) × D
  pub select_snap : D → ℕ → Option Snapshot × D
  -- dbats_set, and dbats_set_by_key with DBATS_CREATE
  pub set_id : D → Snapshot → ℕ → ℕ → Answer × D
  pub set_by_key : D → Snapshot → Bytes → ℕ → Answer × D
  pub abort_snap : D → Snapshot → D
  pub commit_snap : D → Snapshot → Answer × D

-- timeseries_backend_dbats_state_t. `dbats_handler` says whether the pointer is set.
pub record DbatsState (Snapshot : Type 0) : Type 0 where
  pub dbats_path : Option Bytes
  pub dbats_handler : Bool
  pub dbats_flags : ℕ
  pub bulk_cnt : ℕ
  pub bulk_time : ℕ
  pub bulk_expect : ℕ
  pub bulk_snap : Option Snapshot

-- The state of the backend, NULL before its init, with the state of the library.
pub record Dbats (D Snapshot : Type 0) : Type 0 where
  pub state : Option (DbatsState Snapshot)
  pub db : D

-- The uint32_t at the start of a buffer, and such a number in memory, on a machine whose first byte
-- is the lowest.
abbrev pub of_le32 : ℕ → ℕ → ℕ → ℕ → ℕ
of_le32 a b c d = a + b * 256 + c * 256 ^ 2 + d * 256 ^ 3

unfoldable pub le32 : ℕ → Bytes
le32 n = (n % 256) ∷ (n / 256 % 256) ∷ (n / 256 ^ 2 % 256) ∷ (n / 256 ^ 3 % 256) ∷ []

unfoldable pub uint32_at : Bytes → Outcome ℕ
uint32_at (a ∷ b ∷ c ∷ d ∷ rest) = done (of_le32 a b c d)
uint32_at short = fault undefined

module _ {D Snapshot : Type 0} where
  -- STATE(backend), a NULL pointer that is read from being undefined
  abbrev pub dbats_state : Dbats D Snapshot → Outcome (DbatsState Snapshot)
  dbats_state b = elim b.state [ none ↦ fault undefined | some state ↦ done state ]

  -- `state->dbats_handler`, which the library follows.
  abbrev pub handler_of : Option (DbatsState Snapshot) → D → Outcome D
  handler_of none db = fault undefined
  handler_of (some state) db = if state.dbats_handler then done db else fault undefined

  abbrev pub handler : Dbats D Snapshot → Outcome D
  handler b = handler_of b.state b.db

  -- The backend after a call of the library.
  abbrev pub left_db : Dbats D Snapshot → Status × D → Status × Dbats D Snapshot
  left_db b (rc, db) = (rc, record b { db = db })

  -- The handler stays while the library works.
  pub handler_of-db :
      (state : Option (DbatsState Snapshot)) (db db' : D)
      → handler_of state db ≡ done db
      → handler_of state db' ≡ done db'
  handler_of-db none db db' h = cc
  handler_of-db (some state) db db' h = ground arith
