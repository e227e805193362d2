-- ===== src/Dbats/Batch.antt =====
-- lib/backends/timeseries_backend_dbats.c: a bulk set, from its start to the last of its values.
use mathlib.Core.Path.{ap₂, subst}
use mathlib.Core.List.{append_assoc}
use libtimeseries.Base.{
  ℕ, suc, ◌+◌, ◌%◌, ◌^◌, ◌<◌, ◌≡◌, refl, ap, ◌∙◌, true, false, Option, none, some, List, [], ◌∷◌,
  ◌++◌, length, ltb, ◌==◌, All, arith, Outcome, done, fault, assertion, ◌>>=◌, Status, success,
  failure, Option-cases, inl, inr,
}
use libtimeseries.Dbats.{
  Answer, accepted, deadlock, failed, Libdbats, DbatsState, Dbats, handler_of, le32, uint32_at,
}
use libtimeseries.Dbats.Snapshots.{or_abort}
use libtimeseries.Dbats.Bulk.{count_bulk, after_commit, dbats_set_bulk_init, dbats_set_bulk_by_id}
use libtimeseries.Dbats.Database.{Database, Batch}

-- The id that the backend hands out stands for the database's id.
pub uint32_at-le32 : (n : ℕ) → n < 2 ^ 32 → uint32_at (le32 n) ≡ done n
unfolding uint32_at le32
uint32_at-le32 n h = ap done (omega arith)

module _ {D Snapshot : Type 0} (lib : Libdbats D Snapshot) where
  abbrev pub if_set :
      (Dbats D Snapshot → Outcome (Status × Dbats D Snapshot))
      → Status × Dbats D Snapshot
      → Outcome (Status × Dbats D Snapshot)
  if_set next (failure, b) = done (failure, b)
  if_set next (success, b) = next b

  -- Calls of set_bulk_by_id for values with the ids of their keys, up to the first that fails.
  unfoldable pub dbats_set_bulk :
      List (ℕ × ℕ) → Dbats D Snapshot → Outcome (Status × Dbats D Snapshot)
  dbats_set_bulk [] b = done (success, b)
  dbats_set_bulk ((dbats_id, value) ∷ values) b =
      dbats_set_bulk_by_id lib b (le32 dbats_id) 4 value >>= if_set (dbats_set_bulk values)

module _ {D Snapshot : Type 0} {lib : Libdbats D Snapshot} (base : Database lib) where
  -- What a bulk set leaves: all of its values in one batch and the state that it began with, or nothing
  -- committed and a count that still expects values.
  abbrev Ended : Batch → DbatsState Snapshot → D → Status × Dbats D Snapshot → Type 0
  Ended batch st db (success, b) =
      (base.committed b.db ≡ base.committed db ++ (batch ∷ []))
      × (b.state
          ≡ some (record st { bulk_cnt = 0; bulk_time = 0; bulk_expect = 0; bulk_snap = none }))
  Ended batch st db (failure, b) =
      (base.committed b.db ≡ base.committed db)
      × (st' : DbatsState Snapshot) × (b.state ≡ some st')
      × (0 < st'.bulk_expect)

  -- The state in the middle of a bulk set.
  abbrev pub bulk_state : DbatsState Snapshot → Snapshot → ℕ → ℕ → DbatsState Snapshot
  bulk_state st s cnt total = record st { bulk_cnt = cnt; bulk_expect = total; bulk_snap = some s }

  -- One call, with the answer to its dbats_set.
  set_one_of_bulk :
      (st : DbatsState Snapshot) (s : Snapshot) (cnt total dbats_id value : ℕ) (db : D)
      → dbats_id < 2 ^ 32
      → 0 < total
      → dbats_set_bulk_by_id lib
          (record { state = some (bulk_state st s cnt total); db = db })
          (le32 dbats_id)
          4
          value
        ≡ done (
            count_bulk lib
              (bulk_state st s cnt total)
              s
              (or_abort lib s (lib.set_id db s dbats_id value)))
  unfolding dbats_set_bulk_by_id
  set_one_of_bulk st s cnt total dbats_id value db small some_left =
      let test : ltb 0 total ≡ true = ground arith in
      rw test (rw (uint32_at-le32 dbats_id small) refl)

  -- The last call.
  last_of_bulk :
      (before : List (ℕ × ℕ)) (time dbats_id value cnt total : ℕ) (st : DbatsState Snapshot)
      (s : Snapshot) (db₀ db : D)
      → cnt + 1 ≡ total
      → total < 2 ^ 32
      → base.pending db s ≡ (time, before)
      → base.committed db ≡ base.committed db₀
      → Ended
          (time, before ++ ((dbats_id, value) ∷ []))
          st
          db₀
          (count_bulk lib
            (bulk_state st s cnt total)
            s
            (or_abort lib s (lib.set_id db s dbats_id value)))
  unfolding count_bulk
  last_of_bulk before time dbats_id value cnt total st s db₀ db all few pend kept =
      by_answer (lib.set_id db s dbats_id value).0 refl
    where
      db₁ : D
      db₁ = (lib.set_id db s dbats_id value).1

      still : base.committed db₁ ≡ base.committed db₀
      still = base.set_committed db s dbats_id value ∙ kept

      aborted : base.committed (lib.abort_snap db₁ s) ≡ base.committed db₀
      aborted = base.abort_committed db₁ s ∙ still

      counted : DbatsState Snapshot
      counted = bulk_state st s ((cnt + 1) % 2 ^ 32) total

      by_commit :
          (lib.set_id db s dbats_id value).0 ≡ accepted
          → (c : Answer) → (lib.commit_snap db₁ s).0 ≡ c
          → Ended
              (time, before ++ ((dbats_id, value) ∷ []))
              st
              db₀
              (after_commit lib counted (lib.commit_snap db₁ s))
      by_commit set accepted e =
          rw (e, after_commit)
            (
              base.commit_accepted db₁ s e
                  ∙ ap₂ (λ l b. l ++ (b ∷ [])) still
                      (base.set_pending db s dbats_id value set
                        ∙ ap (λ (b : Batch). (b.0, b.1 ++ ((dbats_id, value) ∷ []))) pend),
              refl,
            )
      by_commit set deadlock e =
          rw (e, after_commit)
            (base.commit_refused db₁ s (λ h. cc) ∙ still, counted, refl, omega arith)
      by_commit set failed e =
          rw (e, after_commit)
            (base.commit_refused db₁ s (λ h. cc) ∙ still, counted, refl, omega arith)

      by_answer :
          (a : Answer)
          → (lib.set_id db s dbats_id value).0 ≡ a
          → Ended
              (time, before ++ ((dbats_id, value) ∷ []))
              st
              db₀
              (count_bulk lib
                (bulk_state st s cnt total)
                s
                (or_abort lib s (lib.set_id db s dbats_id value)))
      by_answer accepted e =
          let test : ((cnt + 1) % 2 ^ 32 == total) ≡ true = ground arith in
          rw (e, or_abort) (rw test (by_commit e (lib.commit_snap db₁ s).0 refl))
      by_answer deadlock e =
          rw (e, or_abort) (aborted, bulk_state st s cnt total, refl, omega arith)
      by_answer failed e = rw (e, or_abort) (aborted, bulk_state st s cnt total, refl, omega arith)

  if_set-done : (r : Status × Dbats D Snapshot) → if_set lib (dbats_set_bulk lib []) r ≡ done r
  unfolding dbats_set_bulk
  if_set-done (success, b) = refl
  if_set-done (failure, b) = refl

  dbats_set_bulk-Ended :
      (before : List (ℕ × ℕ)) (first : ℕ × ℕ) (values : List (ℕ × ℕ)) (time cnt total : ℕ)
      (st : DbatsState Snapshot) (s : Snapshot) (db₀ db : D)
      → All (λ (p : ℕ × ℕ). p.0 < 2 ^ 32) (first ∷ values)
      → cnt + suc (length values) ≡ total
      → total < 2 ^ 32
      → base.pending db s ≡ (time, before)
      → base.committed db ≡ base.committed db₀
      → (r : Status × Dbats D Snapshot) × (dbats_set_bulk lib
            (first ∷ values)
            (record { state = some (bulk_state st s cnt total); db = db })
          ≡ done r)
        × Ended (time, before ++ (first ∷ values)) st db₀ r
  unfolding dbats_set_bulk count_bulk
  dbats_set_bulk-Ended before (dbats_id, value) [] time cnt total st s db₀ db (small, _) all few
        pend kept =
      (
        _,
        rw (set_one_of_bulk st s cnt total dbats_id value db small (omega arith)) (if_set-done _),
        last_of_bulk before time dbats_id value cnt total st s db₀ db (omega arith) few pend kept,
      )
  dbats_set_bulk-Ended before (dbats_id, value) (next ∷ values) time cnt total st s db₀ db
        (small, others) all few pend kept =
      rw (set_one_of_bulk st s cnt total dbats_id value db small (omega arith)) (
        by_answer (lib.set_id db s dbats_id value).0 refl (λ e.
          dbats_set_bulk-Ended (before ++ ((dbats_id, value) ∷ [])) next values time (cnt + 1) total
            st s db₀ (lib.set_id db s dbats_id value).1 others (omega arith) few
            (base.set_pending db s dbats_id value e
              ∙ ap (λ (b : Batch). (b.0, b.1 ++ ((dbats_id, value) ∷ []))) pend)
            (base.set_committed db s dbats_id value ∙ kept)))
    where
      by_answer :
          (a : Answer)
          → (lib.set_id db s dbats_id value).0 ≡ a
          → ((lib.set_id db s dbats_id value).0 ≡ accepted
              → (r : Status × Dbats D Snapshot) × (dbats_set_bulk lib (next ∷ values) (record {
                state = some (bulk_state st s (cnt + 1) total);
                db = (lib.set_id db s dbats_id value).1;
              })
                  ≡ done r)
                × Ended (time, (before ++ ((dbats_id, value) ∷ [])) ++ (next ∷ values)) st db₀ r)
          → (r : Status × Dbats D Snapshot) × (if_set lib (dbats_set_bulk lib (next ∷ values)) (
                count_bulk lib
                  (bulk_state st s cnt total)
                  s
                  (or_abort lib s (lib.set_id db s dbats_id value)))
              ≡ done r)
            × Ended (time, before ++ ((dbats_id, value) ∷ next ∷ values)) st db₀ r
      by_answer accepted e rest =
          let test : ((cnt + 1) % 2 ^ 32 == total) ≡ false = ground arith in
          let same : (cnt + 1) % 2 ^ 32 ≡ cnt + 1 = omega arith in
          let (r, es, ended) = rest e in
          (
            r,
            rw (e, or_abort) (rw test (rw same es)),
            subst (λ l. Ended (time, l) st db₀ r)
                (append_assoc before ((dbats_id, value) ∷ []) (next ∷ values)) ended,
          )
      by_answer deadlock e rest = (
        (
          failure,
          record {
            state = some (bulk_state st s cnt total);
            db = lib.abort_snap (lib.set_id db s dbats_id value).1 s;
          },
        ),
        rw (e, or_abort) refl,
        (
          base.abort_committed (lib.set_id db s dbats_id value).1 s
              ∙ base.set_committed db s dbats_id value
              ∙ kept,
          bulk_state st s cnt total,
          refl,
          omega arith,
        ),
      )
      by_answer failed e rest = (
        (
          failure,
          record {
            state = some (bulk_state st s cnt total);
            db = lib.abort_snap (lib.set_id db s dbats_id value).1 s;
          },
        ),
        rw (e, or_abort) refl,
        (
          base.abort_committed (lib.set_id db s dbats_id value).1 s
              ∙ base.set_committed db s dbats_id value
              ∙ kept,
          bulk_state st s cnt total,
          refl,
          omega arith,
        ),
      )

  -- No bulk set is under way.
  abbrev pub idle : DbatsState Snapshot → DbatsState Snapshot
  idle st = record st { bulk_cnt = 0; bulk_time = 0; bulk_expect = 0; bulk_snap = none }

  -- What a whole bulk set does.
  abbrev pub Bulk : Batch → DbatsState Snapshot → D → Status × Dbats D Snapshot → Type 0
  Bulk batch st db (success, b) =
      (base.committed b.db ≡ base.committed db ++ (batch ∷ [])) × (b.state ≡ some (idle st))
  Bulk batch st db (failure, b) =
      (base.committed b.db ≡ base.committed db)
      × ((cnt time : ℕ) → dbats_set_bulk_init lib b cnt time ≡ fault assertion)

  stuck :
      (state : Option (DbatsState Snapshot)) (db : D) (st : DbatsState Snapshot) (cnt time : ℕ)
      → state ≡ some st
      → 0 < st.bulk_expect
      → dbats_set_bulk_init lib (record { state = state; db = db }) cnt time ≡ fault assertion
  unfolding dbats_set_bulk_init
  stuck state db st cnt time e some_left =
      let test : (st.bulk_expect == 0) ≡ false = ground arith in rw e (rw test refl)

  Ended-Bulk :
      (batch : Batch) (st : DbatsState Snapshot) (time : ℕ) (db : D) (r : Status × Dbats D Snapshot)
      → Ended batch (record st { bulk_time = time }) db r
      → Bulk batch st db r
  Ended-Bulk batch st time db (success, b) h = h
  Ended-Bulk batch st time db (failure, b) (same, st', e, some_left) =
      (same, λ cnt time'. stuck b.state b.db st' cnt time' e some_left)

  -- A bulk set of one value or more by a DBATS backend that is initialised and has no other bulk set
  -- under way: a call of set_bulk_init with the number of values, then one of set_bulk_by_id for each
  -- of them, up to a call that fails. If all return 0, one batch is committed, with the time and all values in
  -- their order, and the backend is ready for the next one. If one returns -1, nothing is committed, and each
  -- later call of set_bulk_init fails its assertion.
  pub dbats_set_bulk_lem :
      (st : DbatsState Snapshot) (db : D) (first : ℕ × ℕ) (values : List (ℕ × ℕ)) (time : ℕ)
      → st.dbats_handler ≡ true
      → All (λ (p : ℕ × ℕ). p.0 < 2 ^ 32) (first ∷ values)
      → length (first ∷ values) < 2 ^ 32
      → (r : Status × Dbats D Snapshot) × ((dbats_set_bulk_init lib
              (record { state = some (idle st); db = db })
              (length (first ∷ values))
              time
            >>= if_set lib (dbats_set_bulk lib (first ∷ values)))
          ≡ done r)
        × Bulk (time, first ∷ values) st db r
  dbats_set_bulk_lem st db first values time ready small few =
      elim (Option-cases (lib.select_snap db time).0) [
        | inl e ↦
            let left : DbatsState Snapshot = record (idle st) {
              bulk_time = time;
              bulk_expect = suc (length values);
            } in
            (
              (failure, record { state = some left; db = (lib.select_snap db time).1 }),
              unfold dbats_set_bulk_init in rw opened (rw e refl),
              (
                base.select_committed db time,
                λ cnt time'.
                    stuck (some left) (lib.select_snap db time).1 left cnt time' refl (omega arith),
              ),
            )
        | inr (s, e) ↦
            let (r, es, ended) =
              dbats_set_bulk-Ended [] first values time 0 (suc (length values))
                (record st { bulk_time = time }) s db (lib.select_snap db time).1 small
                (omega arith) few (base.select_pending db time s e)
                (base.select_committed db time) in
            (
              r,
              unfold dbats_set_bulk_init in rw opened (rw e es),
              Ended-Bulk (time, first ∷ values) st time db r ended,
            )
      ]
    where
      opened : handler_of (some (idle st)) db ≡ done db
      opened = ground arith
