-- ===== src/Dbats/Resolved.antt =====
-- lib/backends/timeseries_backend_dbats.c: what timeseries_backend_dbats_kp_ki_update makes of a
-- package.
use mathlib.Core.Path.{ap₂}
use mathlib.Core.List.{append_assoc, map}
use libtimeseries.Base.{
  ℕ, ◌+◌, ◌≤◌, ◌≡◌, refl, ap, ◌∙◌, Bool, true, false, not, ◌||◌, Option, none, some, List, [], ◌∷◌,
  ◌++◌, Bytes, length, get_elem?, All, arith, done, Status, success, failure, Option-cases, inl,
  inr, get_elem?-append, length-append, set-append, get_elem?-set_self, lt_of_get_elem?,
}
use libtimeseries.Platform.{Platform}
use libtimeseries.KeyPackage.{
  KeyInfo, KeyPackage, key_info, kp_size, ki_enabled, ki_get_key, ki_get_backend_state,
  ki_set_backend_state,
}
use libtimeseries.KeyPackage.Invariant.{IsValid}
use libtimeseries.Flush.View.{erase}
use libtimeseries.Dbats.{Libdbats, Dbats, handler}
use libtimeseries.Dbats.Keys.{
  given, get_key_id, with_id, update_ki, update_from, dbats_kp_ki_update,
}
use libtimeseries.Dbats.Database.{Database}
use libtimeseries.Dbats.Flush.{IsResolved}

-- The element for the DBATS backend in the array of a key's backend states.
abbrev pub HasState : KeyInfo → Type 0
HasState ki = (o : Option ℕ) × (get_elem? ki.backend_state 1 ≡ some o)

given_of :
    (d : Bool) (o : Option ℕ) → (not (not d) || given o) ≡ true → d ≡ false → (n : ℕ) × (o ≡ some n)
given_of true o h e = cc
given_of false none h e = cc
given_of false (some n) h e = (n, refl)

asked_of : (d : Bool) (o : Option ℕ) → (not (not d) || given o) ≡ false → (d ≡ false) × (o ≡ none)
asked_of true o h = cc
asked_of false none h = (refl, refl)
asked_of false (some n) h = cc

module _ {D Snapshot : Type 0} (lib : Libdbats D Snapshot) where
  -- The update of a key: it is disabled or has an id, and stays; or the database is asked for its id.
  pub data Resolves : KeyInfo → D → KeyInfo → D → Type 0 where
    stays : (ki : KeyInfo) (db : D) → IsResolved ki → Resolves ki db ki db
    asks :
        (ki : KeyInfo) (db db' : D) (n : ℕ)
        → ki.disabled ≡ false
        → get_elem? ki.backend_state 1 ≡ some none
        → lib.get_key_id db ki.key ≡ (some n, db')
        → Resolves ki db (ki_set_backend_state ki 2 (some n)) db'

  -- The update of the keys, one after the other.
  pub data ResolvesAll : List KeyInfo → D → List KeyInfo → D → Type 0 where
    no_more : (db : D) → ResolvesAll [] db [] db
    then_more :
        (ki ki' : KeyInfo) (kis kis' : List KeyInfo) (db db₁ db' : D)
        → Resolves ki db ki' db₁
        → ResolvesAll kis db₁ kis' db'
        → ResolvesAll (ki ∷ kis) db (ki' ∷ kis') db'

  get_key_id-asked :
      (m : Bool) (key : Bytes) (db : D) (n : ℕ)
      → (get_key_id lib m key db).0 ≡ some n
      → lib.get_key_id db key ≡ (some n, (get_key_id lib m key db).1)
  unfolding get_key_id
  get_key_id-asked false key db n h = cc
  get_key_id-asked true key db n h = ap (λ o. (o, (lib.get_key_id db key).1)) h

module _ {D Snapshot : Type 0} {lib : Libdbats D Snapshot} (base : Database lib) where
  -- What is committed is as before, and no more deadlocks are to come.
  abbrev pub Kept : D → D → Type 0
  Kept db db' =
      (base.committed db' ≡ base.committed db) × (base.contention db' ≤ base.contention db)

  get_key_id-Kept :
      (memory : Bool) (key : Bytes) (db : D) → Kept db (get_key_id lib memory key db).1
  unfolding get_key_id
  get_key_id-Kept false key db = (refl, omega arith)
  get_key_id-Kept true key db = (base.key_committed db key, base.key_contention db key)

abbrev pub with_infos : ⦃P : Platform⦄ → KeyPackage → List KeyInfo → KeyPackage
with_infos kp kis = record kp { key_infos = kis }

module _ ⦃P : Platform⦄ {D Snapshot : Type 0} {lib : Libdbats D Snapshot}
    (base : Database lib) where
  -- A round of the update, which only gives the key an id.
  abbrev UpdatedOne :
      (Bytes → Bool) → List KeyInfo → KeyInfo → List KeyInfo → ℕ → KeyPackage → D → Type 0
  UpdatedOne memory front ki kis id kp db =
      (rc : Status) × (ki' : KeyInfo) × (db' : D) × (update_ki lib memory id
          (with_infos kp (front ++ (ki ∷ kis))) db
        ≡ done (rc, with_infos kp (front ++ (ki' ∷ kis)), db'))
      × (erase ki' ≡ erase ki)
      × (rc ≡ success → IsResolved ki' × Resolves lib ki db ki' db')
      × Kept base db db'

  update_ki_total :
      (memory : Bytes → Bool) (front : List KeyInfo) (ki : KeyInfo) (kis : List KeyInfo) (id : ℕ)
      (kp : KeyPackage) (db : D)
      → id ≡ length front
      → HasState ki
      → UpdatedOne memory front ki kis id kp db
  unfolding update_ki ki_set_backend_state ki_get_backend_state ki_enabled ki_get_key
  update_ki_total memory front ki kis id kp db n (o, e) =
      by_test (not (not ki.disabled) || given o) refl
    where
      found : get_elem? (front ++ (ki ∷ kis)) id ≡ some ki
      found = get_elem?-append front kis ki id n

      by_test :
          (b : Bool)
          → (not (not ki.disabled) || given o) ≡ b
          → UpdatedOne memory front ki kis id kp db
      by_test true skip = (
        success,
        ki,
        db,
        rw (found, key_info) (rw (e, ki_get_backend_state) (rw skip refl)),
        refl,
        λ _.
            let resolved : IsResolved ki =
              λ on. let (n, known) = given_of ki.disabled o skip on in (n, e ∙ ap some known) in
            (resolved, stays ki db resolved),
        (refl, omega arith),
      )
      by_test false ask = elim (Option-cases (get_key_id lib (memory ki.key) ki.key db).0) [
        | inl none_found ↦ (
          failure,
          ki,
          (get_key_id lib (memory ki.key) ki.key db).1,
          rw (found, key_info)
              (rw (e, ki_get_backend_state) (rw ask (rw (none_found, with_id) refl))),
          refl,
          (λ h. cc),
          get_key_id-Kept base (memory ki.key) ki.key db,
        )
        | inr (dbats_id, known) ↦ (
          success,
          ki_set_backend_state ki 2 (some dbats_id),
          (get_key_id lib (memory ki.key) ki.key db).1,
          rw (found, key_info)
              (rw (e, ki_get_backend_state)
                (rw ask (
                  rw (known, with_id)
                    (ap
                      (λ l.
                        done
                          (success, with_infos kp l, (get_key_id lib (memory ki.key) ki.key db).1))
                      (set-append front kis ki _ id n))))),
          refl,
          (λ _. (
            λ on. (
              dbats_id,
              get_elem?-set_self ki.backend_state 1 (some dbats_id)
                  (lt_of_get_elem? ki.backend_state 1 e),
            ),
            let (on, unknown) = asked_of ki.disabled o ask in
                asks ki db _ dbats_id on (e ∙ ap some unknown)
                  (get_key_id-asked lib (memory ki.key) ki.key db dbats_id known),
          )),
          get_key_id-Kept base (memory ki.key) ki.key db,
        )
      ]

  -- The rounds that are left.
  abbrev UpdatedAll : (Bytes → Bool) → List KeyInfo → List KeyInfo → ℕ → KeyPackage → D → Type 0
  UpdatedAll memory front kis id kp db =
      (rc : Status) × (kis' : List KeyInfo) × (db' : D) × (update_from lib (length kis) id memory
          (with_infos kp (front ++ kis)) db
        ≡ done (rc, with_infos kp (front ++ kis'), db'))
      × (map erase kis' ≡ map erase kis)
      × (rc ≡ success → All IsResolved kis' × ResolvesAll lib kis db kis' db')
      × Kept base db db'

  update_from_total :
      (memory : Bytes → Bool) (front kis : List KeyInfo) (id : ℕ) (kp : KeyPackage) (db : D)
      → id ≡ length front
      → All HasState kis
      → UpdatedAll memory front kis id kp db
  unfolding update_from
  update_from_total memory front [] id kp db n has =
      (success, [], db, refl, refl, (λ h. (tt, no_more db)), (refl, omega arith))
  update_from_total memory front (ki ∷ kis) id kp db n (has, others) =
      let (rc, ki', db₁, e, same, resolved, kept) =
        update_ki_total memory front ki kis id kp db n has in
      by_status rc ki' db₁ e same resolved kept (
        update_from_total memory (front ++ (ki' ∷ [])) kis (id + 1) kp db₁
          (omega (arith, n, length-append front (ki' ∷ []))) others)
    where
      by_status :
          (rc : Status) (ki' : KeyInfo) (db₁ : D)
          → update_ki lib memory id (with_infos kp (front ++ (ki ∷ kis))) db
            ≡ done (rc, with_infos kp (front ++ (ki' ∷ kis)), db₁)
          → erase ki' ≡ erase ki
          → (rc ≡ success → IsResolved ki' × Resolves lib ki db ki' db₁)
          → Kept base db db₁
          → UpdatedAll memory (front ++ (ki' ∷ [])) kis (id + 1) kp db₁
          → UpdatedAll memory front (ki ∷ kis) id kp db
      by_status failure ki' db₁ e same resolved kept rest =
          (failure, ki' ∷ kis, db₁, rw e refl, ap (λ k. k ∷ map erase kis) same, (λ h. cc), kept)
      by_status success ki' db₁ e same resolved (kept, fewer)
            (rc, kis', db', e', same', all, (kept', fewer')) =
          (
            rc,
            ki' ∷ kis',
            db',
            rw e (
                rw (← append_assoc front (ki' ∷ []) kis) (
                  e'
                  ∙ ap (λ l. done (rc, with_infos kp l, db'))
                      (append_assoc front (ki' ∷ []) kis'))),
            ap₂ (λ k l. k ∷ l) same same',
            (λ h. (
              ((resolved refl).0, (all h).0),
              then_more ki ki' kis kis' db db₁ db' (resolved refl).1 (all h).1,
            )),
            (kept' ∙ kept, omega (arith, fewer, fewer')),
          )

  -- Updating the key infos of a valid package, by a backend that is initialised, ends. It changes
  -- nothing of the package but the pointers that the backends keep there, and nothing of what is
  -- committed; if it returns 0, each enabled key has the id that it had, or the one that the database gave it.
  pub dbats_kp_ki_update_lem :
      (memory : Bytes → Bool) (b : Dbats D Snapshot) (kp : KeyPackage)
      → IsValid kp
      → All HasState kp.key_infos
      → handler b ≡ done b.db
      → (rc : Status) × (kis : List KeyInfo) × (db : D) × (dbats_kp_ki_update lib memory b kp
          ≡ done (rc, with_infos kp kis, record b { db = db }))
        × (map erase kis ≡ map erase kp.key_infos)
        × (rc ≡ success → All IsResolved kis × ResolvesAll lib kp.key_infos b.db kis db)
        × Kept base b.db db
  unfolding dbats_kp_ki_update kp_size
  dbats_kp_ki_update_lem memory b kp v has ready =
      let (rc, kis, db, e, same, all, kept) =
        update_from_total memory [] kp.key_infos 0 kp b.db refl has in
      let counted : update_from lib kp.key_infos_cnt 0 memory kp b.db
          ≡ done (rc, with_infos kp kis, db) =
        ap (λ n. update_from lib n 0 memory kp b.db) v.counted ∙ e in
      (rc, kis, db, rw ready (rw counted refl), same, all, kept)
