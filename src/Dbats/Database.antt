-- ===== src/Dbats/Database.antt =====
-- What the backend relies on of libdbats: a snapshot is a transaction, and a deadlock does not come
-- back for ever. And what follows for lib/backends/timeseries_backend_dbats.c where it tries again.
use mathlib.Core.Path.{subst, ap₂}
use libtimeseries.Base.{
  ℕ, zero, suc, ◌≤◌, ◌<◌, ◌≡◌, ◌≢◌, refl, sym, ap, ◌∙◌, some, List, [], ◌∷◌, ◌++◌, Bytes, arith,
  Outcome, done, Status, success, failure, Option-cases, inl, inr,
}
use libtimeseries.Dbats.{Answer, accepted, deadlock, failed, Libdbats}
use libtimeseries.Dbats.Snapshots.{retry, in_snapshot, if_accepted, or_abort, set_one}

-- A time with the values that are set for it, each with the id of its key.
abbrev pub Batch : Type 0
Batch = ℕ × List (ℕ × ℕ)

-- The batches that are committed, what is set so far in a snapshot that is open, and a number of
-- deadlocks that may still come.
pub record Database {D Snapshot : Type 0} (lib : Libdbats D Snapshot) : Type 0 where
  pub committed : D → List Batch
  pub pending : D → Snapshot → Batch
  pub contention : D → ℕ
  pub select_committed : (d : D) (t : ℕ) → committed (lib.select_snap d t).1 ≡ committed d
  pub select_contention : (d : D) (t : ℕ) → contention (lib.select_snap d t).1 ≤ contention d
  pub select_pending :
      (d : D) (t : ℕ) (s : Snapshot)
      → (lib.select_snap d t).0 ≡ some s
      → pending (lib.select_snap d t).1 s ≡ (t, [])
  pub key_committed : (d : D) (key : Bytes) → committed (lib.get_key_id d key).1 ≡ committed d
  pub key_contention : (d : D) (key : Bytes) → contention (lib.get_key_id d key).1 ≤ contention d
  pub set_committed :
      (d : D) (s : Snapshot) (i v : ℕ) → committed (lib.set_id d s i v).1 ≡ committed d
  pub set_contention :
      (d : D) (s : Snapshot) (i v : ℕ) → contention (lib.set_id d s i v).1 ≤ contention d
  pub set_deadlock :
      (d : D) (s : Snapshot) (i v : ℕ)
      → (lib.set_id d s i v).0 ≡ deadlock
      → contention (lib.set_id d s i v).1 < contention d
  pub set_pending :
      (d : D) (s : Snapshot) (i v : ℕ)
      → (lib.set_id d s i v).0 ≡ accepted
      → pending (lib.set_id d s i v).1 s ≡ ((pending d s).0, (pending d s).1 ++ ((i, v) ∷ []))
  pub abort_committed : (d : D) (s : Snapshot) → committed (lib.abort_snap d s) ≡ committed d
  pub abort_contention : (d : D) (s : Snapshot) → contention (lib.abort_snap d s) ≤ contention d
  pub commit_accepted :
      (d : D) (s : Snapshot)
      → (lib.commit_snap d s).0 ≡ accepted
      → committed (lib.commit_snap d s).1 ≡ committed d ++ (pending d s ∷ [])
  pub commit_refused :
      (d : D) (s : Snapshot)
      → (lib.commit_snap d s).0 ≢ accepted
      → committed (lib.commit_snap d s).1 ≡ committed d
  pub commit_deadlock :
      (d : D) (s : Snapshot)
      → (lib.commit_snap d s).0 ≡ deadlock
      → contention (lib.commit_snap d s).1 < contention d

module _ {D Snapshot : Type 0} {lib : Libdbats D Snapshot} (base : Database lib) where
  open base use {
    committed, pending, contention, select_committed, select_contention, select_pending,
    set_committed, set_contention, set_deadlock, set_pending, abort_committed, abort_contention,
    commit_accepted, commit_refused, commit_deadlock,
  }

  -- What an operation that returns 0 or -1 has done: all of the batch, or nothing.
  abbrev pub AllOrNothing : Batch → D → Status × D → Type 0
  AllOrNothing batch db (success, db') = committed db' ≡ committed db ++ (batch ∷ [])
  AllOrNothing batch db (failure, db') = committed db' ≡ committed db

  -- The same of one try.
  abbrev pub Tried : Batch → D → Answer × D → Type 0
  Tried batch db (accepted, db') = committed db' ≡ committed db ++ (batch ∷ [])
  Tried batch db (deadlock, db') = (committed db' ≡ committed db) × (contention db' < contention db)
  Tried batch db (failed, db') = committed db' ≡ committed db

  -- What setting values in a snapshot has done.
  abbrev pub Sets : List (ℕ × ℕ) → Snapshot → D → Answer × D → Type 0
  Sets values s db (accepted, db') =
      (pending db' s ≡ ((pending db s).0, (pending db s).1 ++ values))
      × (committed db' ≡ committed db)
      × (contention db' ≤ contention db)
  Sets values s db (deadlock, db') =
      (committed db' ≡ committed db) × (contention db' < contention db)
  Sets values s db (failed, db') = committed db' ≡ committed db

  AllOrNothing-moved :
      (batch : Batch) (db db' : D) (r : Status × D)
      → committed db' ≡ committed db
      → AllOrNothing batch db' r
      → AllOrNothing batch db r
  AllOrNothing-moved batch db db' (success, left) same h = h ∙ ap (λ l. l ++ (batch ∷ [])) same
  AllOrNothing-moved batch db db' (failure, left) same h = h ∙ same

  -- Where each try commits the whole batch or nothing, so does the loop, and enough fuel for the
  -- deadlocks to come ends it.
  pub retry-AllOrNothing :
      (attempt : D → Outcome (Answer × D)) (batch : Batch)
      → ((db : D) → (r : Answer × D) × (attempt db ≡ done r) × Tried batch db r)
      → (fuel : ℕ) (db : D) → contention db < fuel
      → (r : Status × D) × (retry fuel attempt db ≡ done r) × AllOrNothing batch db r
  unfolding retry
  retry-AllOrNothing attempt batch tries zero db h = elim h [ ]
  retry-AllOrNothing attempt batch tries (suc fuel) db h =
      let ((answer, db'), e, tried) = tries db in
      rw e (after answer db' tried (retry-AllOrNothing attempt batch tries fuel db'))
    where
      after :
          (answer : Answer) (db' : D)
          → Tried batch db (answer, db')
          → (contention db' < fuel
              → (r : Status × D) × (retry fuel attempt db' ≡ done r) × AllOrNothing batch db' r)
          → (r : Status × D) × ((elim answer [
            | accepted ↦ done (success, db')
            | deadlock ↦ retry fuel attempt db'
            | failed ↦ done (failure, db')
          ])
              ≡ done r)
            × AllOrNothing batch db r
      after accepted db' tried rec = ((success, db'), refl, tried)
      after deadlock db' (same, fewer) rec =
          let (r, e, all) = rec (omega (arith, h, fewer)) in
          (r, e, AllOrNothing-moved batch db db' r same all)
      after failed db' tried rec = ((failure, db'), refl, tried)

  -- dbats_abort_snap makes no difference to what is committed.
  pub set_one-Sets :
      (i v : ℕ) (s : Snapshot) (db : D)
      → (r : Answer × D) × (set_one lib i v s db ≡ done r) × Sets ((i, v) ∷ []) s db r
  set_one-Sets i v s db = (_, refl, by_answer (lib.set_id db s i v).0 refl)
    where
      by_answer :
          (a : Answer)
          → (lib.set_id db s i v).0 ≡ a
          → Sets ((i, v) ∷ []) s db (or_abort lib s (lib.set_id db s i v))
      by_answer accepted e =
          rw (e, or_abort) (set_pending db s i v e, set_committed db s i v, set_contention db s i v)
      by_answer deadlock e =
          rw (e, or_abort)
            (
              abort_committed _ s ∙ set_committed db s i v,
              omega (arith, set_deadlock db s i v e, abort_contention (lib.set_id db s i v).1 s),
            )
      by_answer failed e = rw (e, or_abort) (abort_committed _ s ∙ set_committed db s i v)

  commit-Tried :
      (batch : Batch) (db db' : D) (s : Snapshot)
      → pending db' s ≡ batch
      → committed db' ≡ committed db
      → contention db' ≤ contention db
      → Tried batch db (lib.commit_snap db' s)
  commit-Tried batch db db' s whole same fewer = by_answer (lib.commit_snap db' s).0 refl
    where
      by_answer :
          (a : Answer) → (lib.commit_snap db' s).0 ≡ a → Tried batch db (lib.commit_snap db' s)
      by_answer accepted e =
          subst (λ a. Tried batch db (a, (lib.commit_snap db' s).1)) (sym e)
            (commit_accepted db' s e ∙ ap₂ (λ l b. l ++ (b ∷ [])) same whole)
      by_answer deadlock e =
          subst (λ a. Tried batch db (a, (lib.commit_snap db' s).1)) (sym e)
            (commit_refused db' s (λ h. cc) ∙ same, omega (arith, commit_deadlock db' s e, fewer))
      by_answer failed e =
          subst (λ a. Tried batch db (a, (lib.commit_snap db' s).1)) (sym e)
            (commit_refused db' s (λ h. cc) ∙ same)

  -- One try, with what sets the values in its snapshot.
  pub in_snapshot-Tried :
      (time : ℕ) (values : List (ℕ × ℕ)) (sets : Snapshot → D → Outcome (Answer × D))
      → ((s : Snapshot) (db : D) → (r : Answer × D) × (sets s db ≡ done r) × Sets values s db r)
      → (db : D)
      → (r : Answer × D) × (in_snapshot lib time sets db ≡ done r) × Tried (time, values) db r
  unfolding in_snapshot
  in_snapshot-Tried time values sets does db = elim (Option-cases (lib.select_snap db time).0) [
    | inl e ↦
        ((failed, (lib.select_snap db time).1), rw (e, in_snapshot) refl, select_committed db time)
    | inr (s, e) ↦
        let ((answer, db'), es, set) = does s (lib.select_snap db time).1 in
        rw (e, in_snapshot) (rw es (commits answer db' s e set))
  ]
    where
      commits :
          (answer : Answer) (db' : D) (s : Snapshot)
          → (lib.select_snap db time).0 ≡ some s
          → Sets values s (lib.select_snap db time).1 (answer, db')
          → (r : Answer × D) × (if_accepted (λ d. done (lib.commit_snap d s)) (answer, db')
              ≡ done r)
            × Tried (time, values) db r
      commits accepted db' s e (whole, same, fewer) = (
        lib.commit_snap db' s,
        refl,
        commit-Tried (time, values) db db' s
            (whole ∙ ap (λ (b : Batch). (b.0, b.1 ++ values)) (select_pending db time s e))
            (same ∙ select_committed db time) (omega (arith, fewer, select_contention db time)),
      )
      commits deadlock db' s e (same, fewer) = (
        (deadlock, db'),
        refl,
        (same ∙ select_committed db time, omega (arith, fewer, select_contention db time)),
      )
      commits failed db' s e same = ((failed, db'), refl, same ∙ select_committed db time)
