-- ===== src/Tests/Database.antt =====
-- A database in memory, and the theorems on the DBATS backend at concrete packages.
use libtimeseries.Base.{
  ℕ, zero, suc, ◌+◌, ◌≤◌, ◌<◌, ◌≡◌, ◌≢◌, refl, true, false, none, some, List, [], ◌∷◌, ◌++◌, Bytes,
  codes, arith, done, ◌>>=◌, Status, success, Bool,
}
use libtimeseries.KeyPackage.{KeyInfo, KeyPackage, set_value}
use libtimeseries.KeyPackage.Invariant.{IsValid, set_value-IsValid}
use libtimeseries.Flush.View.{IsValid-of_view}
use libtimeseries.Backend.{Backend}
use libtimeseries.Flush.{flush_at}
use libtimeseries.Dbats.{Answer, accepted, deadlock, Libdbats, DbatsState, Dbats}
use libtimeseries.Dbats.Setup.{Flags, fresh_state}
use libtimeseries.Dbats.Snapshots.{dbats_kp_flush}
use libtimeseries.Dbats.Bulk.{dbats_set_bulk_init, dbats_ops}
use libtimeseries.Dbats.Database.{Database, Batch, AllOrNothing}
use libtimeseries.Dbats.Flush.{dbats_kp_flush-AllOrNothing, stored}
use libtimeseries.Dbats.Dirty.{flush_at-Committed, Committed}
use libtimeseries.Dbats.Batch.{dbats_set_bulk, if_set, dbats_set_bulk_lem, Bulk}
use libtimeseries.Dbats.Missing.{dbats_kp_flush-ne-success}
use libtimeseries.Tests.Fixtures.{platform, kp_two, kp_two-IsValid, info, key_a, key_b}

-- The batches, the snapshot that is open, the next id, and how many deadlocks are to come.
record Store : Type 0 where
  batches : List Batch
  open_batch : Batch
  next_id : ℕ
  deadlocks : ℕ

abbrev set_in : ℕ → Store → ℕ → ℕ → Answer × Store
set_in zero d i v =
    (accepted, record d { open_batch = (d.open_batch.0, d.open_batch.1 ++ ((i, v) ∷ [])) })
set_in (suc n) d i v = (deadlock, record d { deadlocks = n })

abbrev library : Libdbats Store (Unit {0})
library = record {
  open_db = λ d path flags. (true, d);
  commit_open = λ d. (true, d);
  close = λ d. d;
  get_key_id = λ d key. (some d.next_id, record d { next_id = d.next_id + 1 });
  bulk_get_key_id = λ d keys. (none, d);
  select_snap = λ d t. (some tt, record d { open_batch = (t, []) });
  set_id = λ d s i v. set_in d.deadlocks d i v;
  set_by_key = λ d s key v. set_in d.deadlocks d 0 v;
  abort_snap = λ d s. d;
  commit_snap = λ d s. (accepted, record d { batches = d.batches ++ (d.open_batch ∷ []) });
}

set_in-batches : (n : ℕ) (d : Store) (i v : ℕ) → (set_in n d i v).1.batches ≡ d.batches
set_in-batches zero d i v = refl
set_in-batches (suc n) d i v = refl

set_in-le :
    (n : ℕ) (d : Store) (i v : ℕ) → n ≡ d.deadlocks → (set_in n d i v).1.deadlocks ≤ d.deadlocks
set_in-le zero d i v e = omega arith
set_in-le (suc n) d i v e = omega arith

set_in-lt :
    (n : ℕ) (d : Store) (i v : ℕ)
    → n ≡ d.deadlocks
    → (set_in n d i v).0 ≡ deadlock
    → (set_in n d i v).1.deadlocks < d.deadlocks
set_in-lt zero d i v e h = cc
set_in-lt (suc n) d i v e h = omega arith

set_in-pending :
    (n : ℕ) (d : Store) (i v : ℕ)
    → (set_in n d i v).0 ≡ accepted
    → (set_in n d i v).1.open_batch ≡ (d.open_batch.0, d.open_batch.1 ++ ((i, v) ∷ []))
set_in-pending zero d i v h = refl
set_in-pending (suc n) d i v h = cc

-- It is such a database as the backend relies on.
database : Database library
database = record {
  committed = λ d. d.batches;
  pending = λ d s. d.open_batch;
  contention = λ d. d.deadlocks;
  select_committed = λ d t. refl;
  select_contention = λ d t. omega arith;
  select_pending = λ d t s h. refl;
  key_committed = λ d key. refl;
  key_contention = λ d key. omega arith;
  set_committed = λ d s i v. set_in-batches d.deadlocks d i v;
  set_contention = λ d s i v. set_in-le d.deadlocks d i v refl;
  set_deadlock = λ d s i v h. set_in-lt d.deadlocks d i v refl h;
  set_pending = λ d s i v h. set_in-pending d.deadlocks d i v h;
  abort_committed = λ d s. refl;
  abort_contention = λ d s. omega arith;
  commit_accepted = λ d s h. refl;
  commit_refused = λ d s h. absurd (h refl);
  commit_deadlock = λ d s h. cc;
}

abbrev empty_store : Store
empty_store = record { batches = []; open_batch = (0, []); next_id = 7; deadlocks = 2 }

abbrev open_state : DbatsState (Unit {0})
open_state = record fresh_state { dbats_handler = true }

abbrev dbats : Dbats Store (Unit {0})
dbats = record { state = some open_state; db = empty_store }

-- A key with its id.
abbrev known : KeyInfo → ℕ → KeyInfo
known ki dbats_id = record ki { backend_state = none ∷ some dbats_id ∷ none ∷ [] }

-- The package of two keys, of which the database knows both, or the first.
abbrev kp_known : KeyPackage
kp_known = record kp_two {
  key_infos = known (info key_a 5 false) 7 ∷ known (info key_b 6 false) 8 ∷ [];
}

abbrev kp_half : KeyPackage
kp_half = record kp_two { key_infos = known (info key_a 0 false) 7 ∷ info key_b 0 false ∷ [] }

kp_known-IsValid : IsValid kp_known
unfolding set_value
kp_known-IsValid =
    let first : IsValid
        (record kp_two { key_infos = info key_a 5 false ∷ info key_b 0 false ∷ [] }) =
      set_value-IsValid {kp = kp_two} 0 5 kp_two-IsValid refl in
    let both : IsValid
        (record kp_two { key_infos = info key_a 5 false ∷ info key_b 6 false ∷ [] }) =
      set_value-IsValid
        {kp = record kp_two { key_infos = info key_a 5 false ∷ info key_b 0 false ∷ [] }} 1 6 first
        refl in
    IsValid-of_view (record kp_two { key_infos = info key_a 5 false ∷ info key_b 6 false ∷ [] })
      kp_known refl both

kp_half-IsValid : IsValid kp_half
kp_half-IsValid = IsValid-of_view kp_two kp_half refl kp_two-IsValid

-- Two deadlocks, and then both values.
dbats_kp_flush-AllOrNothing_example :
    (r : Status × Store) × (dbats_kp_flush library 3 dbats kp_known 60
      ≡ done (r.0, record dbats { db = r.1 }))
    × AllOrNothing database (60, (7, 5) ∷ (8, 6) ∷ []) empty_store r
unfolding stored database
dbats_kp_flush-AllOrNothing_example =
    dbats_kp_flush-AllOrNothing database 3 dbats kp_known 60 kp_known-IsValid
      ((λ e. (7, refl)), ((λ e. (8, refl)), tt)) refl (omega arith)

abbrev flags : Flags
flags = record { uncompressed = 1; exclusive = 2; no_txn = 4; updatable = 8 }

abbrev memory : Bytes → Bool
memory key = true

abbrev backend : Backend (Dbats Store (Unit {0}))
backend = record {
  id = 2;
  name = codes "dbats";
  ops = dbats_ops library flags memory 3 0;
  enabled = true;
  state = dbats;
}

flush_at-Committed_example :
    (rc : Status) × (kp' : KeyPackage) × (db : Store) × (flush_at true 60 2 backend kp_two
      ≡ done (rc, kp', record dbats { db = db }))
    × Committed database 60 kp_two.key_infos kp'.key_infos empty_store rc db
unfolding database
flush_at-Committed_example =
    flush_at-Committed database flags memory 3 0 60 2 backend kp_two kp_two-IsValid
      ((none, refl), ((none, refl), tt)) refl (omega arith)

dbats_set_bulk_lem_example :
    (r : Status × Dbats Store (Unit {0})) × ((dbats_set_bulk_init library
          (record { state = some open_state; db = empty_store })
          2
          60
        >>= if_set library (dbats_set_bulk library ((7, 5) ∷ (8, 6) ∷ [])))
      ≡ done r)
    × Bulk database (60, (7, 5) ∷ (8, 6) ∷ []) open_state empty_store r
dbats_set_bulk_lem_example =
    dbats_set_bulk_lem database open_state empty_store (7, 5) ((8, 6) ∷ []) 60 refl (omega arith)
      (omega arith)

dbats_kp_flush-ne-success_example :
    dbats_kp_flush library 3 dbats kp_half 60 ≢ done (success, dbats)
dbats_kp_flush-ne-success_example =
    dbats_kp_flush-ne-success library 3 dbats dbats kp_half 60 1 (info key_b 0 false)
      kp_half-IsValid refl refl refl
