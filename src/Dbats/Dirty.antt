-- ===== src/Dbats/Dirty.antt =====
-- lib/backends/timeseries_backend_dbats.c with timeseries_kp_flush of lib/timeseries_kp.c: a round of
-- the flush for a DBATS backend, where the package has new keys.
use mathlib.Core.List.{map}
use libtimeseries.Base.{
  ℕ, ◌<◌, ◌≤◌, ◌≡◌, refl, sym, ap, ◌∙◌, Bool, true, false, List, [], ◌∷◌, ◌++◌, Bytes, All, arith,
  done, Status, success, failure,
}
use libtimeseries.Platform.{Platform}
use libtimeseries.KeyPackage.{KeyInfo, KeyPackage}
use libtimeseries.KeyPackage.Invariant.{IsValid}
use libtimeseries.Backend.{Backend}
use libtimeseries.Flush.{flush_at}
use libtimeseries.Flush.View.{erase, IsValid-of_view}
use libtimeseries.Dbats.{Libdbats, Dbats, handler, handler_of-db}
use libtimeseries.Dbats.Setup.{Flags}
use libtimeseries.Dbats.Bulk.{dbats_ops}
use libtimeseries.Dbats.Keys.{dbats_kp_ki_update}
use libtimeseries.Dbats.Database.{Database, AllOrNothing}
use libtimeseries.Dbats.Flush.{
  IsResolved, stored, stored_one, dbats_id_of, dbats_kp_flush-AllOrNothing,
}
use libtimeseries.Dbats.Resolved.{HasState, with_infos, ResolvesAll, dbats_kp_ki_update_lem}

abbrev pub add_value : Bool → ℕ → List ℕ → List ℕ
add_value true value values = values
add_value false value values = value ∷ values

-- The values of the enabled keys, in the order of the ids.
unfoldable pub enabled_values : List KeyInfo → List ℕ
enabled_values [] = []
enabled_values (ki ∷ kis) = add_value ki.disabled ki.value (enabled_values kis)

-- They depend on the view of the keys alone.
enabled_values-erase : (kis : List KeyInfo) → enabled_values (map erase kis) ≡ enabled_values kis
unfolding enabled_values
enabled_values-erase [] = refl
enabled_values-erase (ki ∷ kis) =
    ap (λ l. add_value ki.disabled ki.value l) (enabled_values-erase kis)

map-stored :
    (kis : List KeyInfo)
    → All IsResolved kis
    → map (λ (p : ℕ × ℕ). p.1) (stored kis) ≡ enabled_values kis
unfolding stored enabled_values
map-stored [] h = refl
map-stored (ki ∷ kis) (resolved, others) = by_mark ki.disabled refl (map-stored kis others)
  where
    by_mark :
        (off : Bool)
        → ki.disabled ≡ off
        → map (λ (p : ℕ × ℕ). p.1) (stored kis) ≡ enabled_values kis
        → map (λ (p : ℕ × ℕ). p.1) (stored_one off (dbats_id_of ki) ki.value ++ stored kis)
          ≡ add_value off ki.value (enabled_values kis)
    by_mark true e rest = rest
    by_mark false on rest =
        let (n, e) = resolved on in rw (e, dbats_id_of) (ap (λ l. ki.value ∷ l) rest)

module _ ⦃P : Platform⦄ {D Snapshot : Type 0} {lib : Libdbats D Snapshot}
    (base : Database lib) where
  -- What a round has committed: on success one batch, the values of the enabled keys under their ids,
  -- which they had or which the database was asked for; on a failure nothing.
  abbrev pub Committed : ℕ → List KeyInfo → List KeyInfo → D → Status → D → Type 0
  Committed time kis kis' db success db' =
      (db₁ : D) × ResolvesAll lib kis db kis' db₁
      × (base.committed db' ≡ base.committed db ++ ((time, stored kis') ∷ []))
      × (map (λ (p : ℕ × ℕ). p.1) (stored kis') ≡ enabled_values kis)
  Committed time kis kis' db failure db' = base.committed db' ≡ base.committed db

  of_batch :
      (time : ℕ) (kis kis' : List KeyInfo) (db db₁ db' : D) (rc : Status)
      → map erase kis' ≡ map erase kis
      → All IsResolved kis' × ResolvesAll lib kis db kis' db₁
      → base.committed db₁ ≡ base.committed db
      → AllOrNothing base (time, stored kis') db₁ (rc, db')
      → Committed time kis kis' db rc db'
  of_batch time kis kis' db db₁ db' success same all kept h = (
    db₁,
    all.1,
    h ∙ ap (λ l. l ++ ((time, stored kis') ∷ [])) kept,
    map-stored kis' all.0
        ∙ sym (enabled_values-erase kis')
        ∙ ap enabled_values same
        ∙ enabled_values-erase kis,
  )
  of_batch time kis kis' db db₁ db' failure same all kept h = h ∙ kept

  -- The flush of a package that has new keys, by a DBATS backend that is initialised: it
  -- commits the values of all enabled keys of the package at the time, in their order, or nothing. If it
  -- commits them, each is under the database's id of its key: the one that the key had, or, where an enabled
  -- key had none, the one that the database answered when it was asked for that key, in the order of
  -- the keys.
  pub flush_at-Committed :
      (flags : Flags) (memory : Bytes → Bool) (fuel val time id : ℕ)
      (backend : Backend (Dbats D Snapshot)) (kp : KeyPackage)
      → IsValid kp
      → All HasState kp.key_infos
      → handler backend.state ≡ done backend.state.db
      → base.contention backend.state.db < fuel
      → (rc : Status) × (kp' : KeyPackage) × (db : D) × (flush_at true time id
            (record backend { ops = dbats_ops lib flags memory fuel val })
            kp
          ≡ done (rc, kp', record backend.state { db = db }))
        × Committed time kp.key_infos kp'.key_infos backend.state.db rc db
  unfolding flush_at dbats_ops
  flush_at-Committed flags memory fuel val time id backend kp v has ready enough =
      let (rc, kis, db, e, same, all, (kept, fewer)) =
        dbats_kp_ki_update_lem base memory backend.state kp v has ready in
      by_status rc kis db e same all kept fewer
    where
      by_status :
          (rc : Status) (kis : List KeyInfo) (db : D)
          → dbats_kp_ki_update lib memory backend.state kp
            ≡ done (rc, with_infos kp kis, record backend.state { db = db })
          → map erase kis ≡ map erase kp.key_infos
          → (rc ≡ success
              → All IsResolved kis × ResolvesAll lib kp.key_infos backend.state.db kis db)
          → base.committed db ≡ base.committed backend.state.db
          → base.contention db ≤ base.contention backend.state.db
          → (rc : Status) × (kp' : KeyPackage) × (db : D) × (flush_at true time id
                (record backend { ops = dbats_ops lib flags memory fuel val })
                kp
              ≡ done (rc, kp', record backend.state { db = db }))
            × Committed time kp.key_infos kp'.key_infos backend.state.db rc db
      by_status failure kis db e same all kept fewer =
          (failure, record kp { key_infos = kis; dirty = true }, db, rw e refl, kept)
      by_status success kis db e same all kept fewer =
          let valid : IsValid (with_infos kp kis) =
            IsValid-of_view kp (with_infos kp kis) (ap (λ l. with_infos kp l) same) v in
          let ((rc, db'), ef, stores) =
            dbats_kp_flush-AllOrNothing base fuel (record backend.state { db = db })
              (with_infos kp kis) time valid (all refl).0
              (handler_of-db backend.state.state backend.state.db db ready)
              (omega (arith, fewer, enough)) in
          (
            rc,
            with_infos kp kis,
            db',
            rw e (rw ef refl),
            of_batch time kp.key_infos kis backend.state.db db db' rc same (all refl) kept stores,
          )
