-- ===== src/Dbats/Flush.antt =====
-- lib/backends/timeseries_backend_dbats.c: what a flush, and setting a value by its id, stores.
use mathlib.Core.List.{append_assoc, append-nil}
use mathlib.Core.Path.{subst}
use libtimeseries.Base.{
  ℕ, ◌+◌, ◌<◌, ◌≡◌, refl, sym, ap, ◌∙◌, Bool, true, false, not, Option, none, some, List, [], ◌∷◌,
  ◌++◌, length, get_elem?, All, arith, if◌then◌else◌, Outcome, done, Status, get_elem?-append,
  length-append,
}
use libtimeseries.Platform.{Platform}
use libtimeseries.KeyPackage.{
  KeyInfo, KeyPackage, key_info, kp_size, ki_enabled, ki_get_value, ki_get_backend_state,
}
use libtimeseries.KeyPackage.Invariant.{IsValid}
use libtimeseries.Dbats.{Answer, accepted, deadlock, failed, Libdbats, Dbats, handler}
use libtimeseries.Dbats.Snapshots.{set_ki, set_enabled, if_accepted, dbats_kp_flush}
use libtimeseries.Dbats.Database.{
  Database, Batch, AllOrNothing, Sets, set_one-Sets, in_snapshot-Tried, retry-AllOrNothing,
}

-- The id that the database has given to a key, if the backend has asked for one.
abbrev pub dbats_id_of : KeyInfo → Option ℕ
dbats_id_of ki = elim (get_elem? ki.backend_state 1) [ none ↦ none | some p ↦ p ]

-- An enabled key has its id.
abbrev pub IsResolved : KeyInfo → Type 0
IsResolved ki = ki.disabled ≡ false → (n : ℕ) × (get_elem? ki.backend_state 1 ≡ some (some n))

-- What a key adds, by its mark `disabled` and its id.
abbrev pub stored_one : Bool → Option ℕ → ℕ → List (ℕ × ℕ)
stored_one true o value = []
stored_one false none value = []
stored_one false (some n) value = (n, value) ∷ []

-- The values of the enabled keys, each with the id of its key.
unfoldable pub stored : List KeyInfo → List (ℕ × ℕ)
stored [] = []
stored (ki ∷ kis) = stored_one ki.disabled (dbats_id_of ki) ki.value ++ stored kis

module _ {D Snapshot : Type 0} {lib : Libdbats D Snapshot} (base : Database lib) where
  -- Values that are set, and then more of them.
  Sets-append :
      (xs ys : List (ℕ × ℕ)) (s : Snapshot) (db db' : D) (r : Answer × D)
      → Sets base xs s db (accepted, db')
      → Sets base ys s db' r
      → Sets base (xs ++ ys) s db r
  Sets-append xs ys s db db' (accepted, left) (whole, same, fewer) (whole', same', fewer') = (
    whole'
        ∙ ap (λ (b : Batch). (b.0, b.1 ++ ys)) whole
        ∙ ap (λ l. ((base.pending db s).0, l)) (append_assoc (base.pending db s).1 xs ys),
    same' ∙ same,
    omega (arith, fewer, fewer'),
  )
  Sets-append xs ys s db db' (deadlock, left) (whole, same, fewer) (same', fewer') =
      (same' ∙ same, omega (arith, fewer, fewer'))
  Sets-append xs ys s db db' (failed, left) (whole, same, fewer) same' = same' ∙ same

  Sets-nil : (s : Snapshot) (db : D) → Sets base [] s db (accepted, db)
  Sets-nil s db = (
    ap (λ l. ((base.pending db s).0, l)) (sym (append-nil (base.pending db s).1)),
    refl,
    omega arith,
  )

  -- The next round of a loop, where the last has set `xs`.
  if_accepted-Sets :
      (xs ys : List (ℕ × ℕ)) (s : Snapshot) (db : D) (next : D → Outcome (Answer × D))
      (first : Answer × D)
      → Sets base xs s db first
      → ((db' : D) → (r : Answer × D) × (next db' ≡ done r) × Sets base ys s db' r)
      → (r : Answer × D) × (if_accepted next first ≡ done r) × Sets base (xs ++ ys) s db r
  if_accepted-Sets xs ys s db next (accepted, db') set rest =
      let (r, e, more) = rest db' in (r, e, Sets-append xs ys s db db' r set more)
  if_accepted-Sets xs ys s db next (deadlock, db') set rest = ((deadlock, db'), refl, set)
  if_accepted-Sets xs ys s db next (failed, db') set rest = ((failed, db'), refl, set)

  set_one_ki :
      (ki : KeyInfo) (s : Snapshot) (db : D)
      → IsResolved ki
      → (r : Answer × D) × ((if ki_enabled ki then set_ki lib s ki db else done (accepted, db))
          ≡ done r)
        × Sets base (stored_one ki.disabled (dbats_id_of ki) ki.value) s db r
  unfolding ki_enabled set_ki ki_get_value ki_get_backend_state
  set_one_ki ki s db resolved = by_mark ki.disabled refl
    where
      by_mark :
          (off : Bool)
          → ki.disabled ≡ off
          → (r : Answer × D) × ((if not off then set_ki lib s ki db else done (accepted, db))
              ≡ done r)
            × Sets base (stored_one off (dbats_id_of ki) ki.value) s db r
      by_mark true e = ((accepted, db), refl, Sets-nil s db)
      by_mark false on =
          let (n, e) = resolved on in
          let (r, es, set) = set_one-Sets base n ki.value s db in
          (r, rw (e, ki_get_backend_state) es, rw (e, stored_one, dbats_id_of) set)

module _ ⦃P : Platform⦄ {D Snapshot : Type 0} {lib : Libdbats D Snapshot}
    (base : Database lib) where
  set_enabled-Sets :
      (front kis : List KeyInfo) (id : ℕ) (kp : KeyPackage) (s : Snapshot) (db : D)
      → kp.key_infos ≡ front ++ kis
      → id ≡ length front
      → All IsResolved kis
      → (r : Answer × D) × (set_enabled lib (length kis) id kp s db ≡ done r)
        × Sets base (stored kis) s db r
  unfolding set_enabled stored
  set_enabled-Sets front [] id kp s db at n resolved = ((accepted, db), refl, Sets-nil base s db)
  set_enabled-Sets front (ki ∷ kis) id kp s db at n (resolved, others) =
      let found : get_elem? kp.key_infos id ≡ some ki =
        rw at (get_elem?-append front kis ki id n) in
      let info : key_info kp id ≡ done ki = rw (found, key_info) refl in
      let (first, e₁, set) = set_one_ki base ki s db resolved in
      let (r, e, all) =
        if_accepted-Sets base _ (stored kis) s db (set_enabled lib (length kis) (id + 1) kp s) first
          set
          (λ db'.
            set_enabled-Sets (front ++ (ki ∷ [])) kis (id + 1) kp s db'
              (at ∙ sym (append_assoc front (ki ∷ []) kis))
              (omega (arith, n, length-append front (ki ∷ []))) others) in
      (r, rw info (rw e₁ e), all)

  -- A flush by the backend, once it is initialised, of a valid package whose enabled keys all have an
  -- id commits all of them or nothing: if it returns 0, one batch is added to what is committed, with the
  -- time and, in the order of the ids, the value of each enabled key under the id that the database
  -- has for it; if it returns -1, what is committed is as before. It ends if there is more fuel than
  -- deadlocks that may come.
  pub dbats_kp_flush-AllOrNothing :
      (fuel : ℕ) (b : Dbats D Snapshot) (kp : KeyPackage) (time : ℕ)
      → IsValid kp
      → All IsResolved kp.key_infos
      → handler b ≡ done b.db
      → base.contention b.db < fuel
      → (r : Status × D) × (dbats_kp_flush lib fuel b kp time ≡ done (r.0, record b { db = r.1 }))
        × AllOrNothing base (time, stored kp.key_infos) b.db r
  unfolding dbats_kp_flush kp_size
  dbats_kp_flush-AllOrNothing fuel b kp time v resolved ready enough =
      let n : length kp.key_infos ≡ kp.key_infos_cnt = sym v.counted in
      let (r, e, all) =
        retry-AllOrNothing base _ (time, stored kp.key_infos)
          (in_snapshot-Tried base time (stored kp.key_infos) (set_enabled lib kp.key_infos_cnt 0 kp)
            (λ s db.
              subst
                (λ n.
                  (r : Answer × D) × (set_enabled lib n 0 kp s db ≡ done r)
                  × Sets base (stored kp.key_infos) s db r)
                n (set_enabled-Sets [] kp.key_infos 0 kp s db refl refl resolved)))
          fuel b.db enough in
      (r, rw ready (rw e refl), all)
