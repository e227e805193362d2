-- ===== src/Dbats/Missing.antt =====
-- lib/backends/timeseries_backend_dbats.c: a flush of a package that has an enabled key with no id, as
-- a key has that was disabled when the key infos were updated.
use libtimeseries.Base.{
  ℕ, zero, suc, ◌+◌, ◌≤◌, ◌<◌, ◌≡◌, ◌≢◌, refl, sym, ap, ◌∙◌, Bool, true, false, not, none, some,
  get_elem?, arith, if◌then◌else◌, Outcome, done, fault, undefined, Status, success, failure,
  bind-eq-done, Option-cases, inl, inr, lt_of_get_elem?,
}
use mathlib.Core.Path.{subst}
use native.Mathlib.Decide.{ℕ_discrete}
use libtimeseries.Platform.{Platform}
use libtimeseries.KeyPackage.{
  KeyInfo, KeyPackage, key_info, kp_size, ki_enabled, ki_get_backend_state,
}
use libtimeseries.KeyPackage.Invariant.{IsValid}
use libtimeseries.Dbats.{Answer, accepted, deadlock, failed, Libdbats, Dbats, handler}
use libtimeseries.Dbats.Snapshots.{
  retry, in_snapshot, if_accepted, set_ki, set_enabled, dbats_kp_flush,
}

module _ {D : Type 0} where
  -- A loop that ends well had a try that did.
  retry-eq-success :
      (fuel : ℕ) (attempt : D → Outcome (Answer × D)) (db db' : D)
      → retry fuel attempt db ≡ done (success, db')
      → (d : D) × (attempt d ≡ done (accepted, db'))
  unfolding retry
  retry-eq-success zero attempt db db' h = cc
  retry-eq-success (suc fuel) attempt db db' h =
      let ((answer, d), e, later) =
        bind-eq-done (attempt db)
          (λ (r : Answer × D). elim r.0 [
            | accepted ↦ done (success, r.1)
            | deadlock ↦ retry fuel attempt r.1
            | failed ↦ done (failure, r.1)
          ])
          h in
      by_answer answer d e later (retry-eq-success fuel attempt d db')
    where
      by_answer :
          (answer : Answer) (d : D)
          → attempt db ≡ done (answer, d)
          → ◌≡◌ {A = Outcome (Status × D)}
              (elim answer [
                | accepted ↦ done (success, d)
                | deadlock ↦ retry fuel attempt d
                | failed ↦ done (failure, d)
              ])
              (done (success, db'))
          → (retry fuel attempt d ≡ done (success, db')
              → (d : D) × (attempt d ≡ done (accepted, db')))
          → (d : D) × (attempt d ≡ done (accepted, db'))
      by_answer accepted d e later rec = (db, e ∙ ap (λ x. done (accepted, x)) (ground arith))
      by_answer deadlock d e later rec = rec later
      by_answer failed d e later rec = cc

  if_accepted-eq-accepted :
      (next : D → Outcome (Answer × D)) (r : Answer × D) (db' : D)
      → if_accepted next r ≡ done (accepted, db')
      → (d : D) × (r ≡ (accepted, d)) × (next d ≡ done (accepted, db'))
  if_accepted-eq-accepted next (accepted, d) db' h = (d, refl, h)
  if_accepted-eq-accepted next (deadlock, d) db' h = cc
  if_accepted-eq-accepted next (failed, d) db' h = cc

module _ {D Snapshot : Type 0} (lib : Libdbats D Snapshot) where
  in_snapshot-eq-accepted :
      (time : ℕ) (sets : Snapshot → D → Outcome (Answer × D)) (db db' : D)
      → in_snapshot lib time sets db ≡ done (accepted, db')
      → (s : Snapshot) × (d : D) × (d' : D) × (sets s d ≡ done (accepted, d'))
  unfolding in_snapshot
  in_snapshot-eq-accepted time sets db db' h = elim (Option-cases (lib.select_snap db time).0) [
    | inl e ↦
        let wrong : ◌≡◌ {A = Outcome (Answer × D)} (done (failed, (lib.select_snap db time).1))
            (done (accepted, db')) =
          rw (e, in_snapshot) at h in
        cc
    | inr (s, e) ↦
        let (r, es, later) =
          bind-eq-done (sets s (lib.select_snap db time).1) _ (rw (e, in_snapshot) at h) in
        let (d', er, _) = if_accepted-eq-accepted _ r db' later in
        (s, (lib.select_snap db time).1, d', es ∙ ap done er)
  ]

  -- The id of a key is read through its pointer.
  set_missing :
      (ki : KeyInfo) (s : Snapshot) (db : D)
      → ki.disabled ≡ false
      → get_elem? ki.backend_state 1 ≡ some none
      → (if ki_enabled ki then set_ki lib s ki db else done (accepted, db)) ≡ fault undefined
  unfolding ki_enabled set_ki
  set_missing ki s db on missing = by_mark ki.disabled on
    where
      by_mark :
          (off : Bool)
          → off ≡ false
          → (if not off then set_ki lib s ki db else done (accepted, db)) ≡ fault undefined
      by_mark true e = cc
      by_mark false e = rw (missing, ki_get_backend_state) refl

module _ ⦃P : Platform⦄ {D Snapshot : Type 0} (lib : Libdbats D Snapshot) where
  set_enabled-ne-accepted :
      (n id i : ℕ) (kp : KeyPackage) (s : Snapshot) (db db' : D) (ki : KeyInfo)
      → id ≤ i
      → i < id + n
      → get_elem? kp.key_infos i ≡ some ki
      → ki.disabled ≡ false
      → get_elem? ki.backend_state 1 ≡ some none
      → set_enabled lib n id kp s db ≢ done (accepted, db')
  unfolding set_enabled
  set_enabled-ne-accepted zero id i kp s db db' ki low high found on missing h =
      absurd (omega arith)
  set_enabled-ne-accepted (suc n) id i kp s db db' ki low high found on missing h =
      let (k, ek, h₁) = bind-eq-done (key_info kp id) _ h in
      let (first, e₁, h₂) =
        bind-eq-done (if ki_enabled k then set_ki lib s k db else done (accepted, db)) _ h₁ in
      let (d, e₂, h₃) = if_accepted-eq-accepted (set_enabled lib n (id + 1) kp s) first db' h₂ in
      elim (ℕ_discrete id i) [
        | yes same ↦
            let named : key_info kp id ≡ done ki = rw (same ∙ refl) (rw (found, key_info) refl) in
            let known : k ≡ ki = ground arith in
            let stopped : fault undefined ≡ done first =
              sym (set_missing lib ki s db on missing)
              ∙ subst
                  (λ k.
                    (if ki_enabled k then set_ki lib s k db else done (accepted, db)) ≡ done first)
                  known e₁ in
            cc
        | no other ↦
            set_enabled-ne-accepted n (id + 1) i kp s d db' ki (omega arith) (omega arith) found on
              missing h₃
      ]

  -- A flush by the backend of a valid package that has an enabled key with no id of the database never
  -- returns 0, whatever the library answers.
  pub dbats_kp_flush-ne-success :
      (fuel : ℕ) (b b' : Dbats D Snapshot) (kp : KeyPackage) (time i : ℕ) (ki : KeyInfo)
      → IsValid kp
      → get_elem? kp.key_infos i ≡ some ki
      → ki.disabled ≡ false
      → get_elem? ki.backend_state 1 ≡ some none
      → dbats_kp_flush lib fuel b kp time ≢ done (success, b')
  unfolding dbats_kp_flush kp_size
  dbats_kp_flush-ne-success fuel b b' kp time i ki v found on missing h =
      let (db, _, h₁) = bind-eq-done (handler b) _ h in
      let ((rc, db'), h₂, h₃) =
        bind-eq-done (retry fuel (in_snapshot lib time (set_enabled lib kp.key_infos_cnt 0 kp)) db)
          _ h₁ in
      let good : rc ≡ success = ground arith in
      let (d, tried) = retry-eq-success fuel _ db db' (h₂ ∙ ap (λ rc. done (rc, db')) good) in
      let (s, d₁, d₂, sets) =
        in_snapshot-eq-accepted lib time (set_enabled lib kp.key_infos_cnt 0 kp) d db' tried in
      set_enabled-ne-accepted kp.key_infos_cnt 0 i kp s d₁ d₂ ki (omega arith)
        (omega (arith, v.counted, lt_of_get_elem? kp.key_infos i found)) found on missing sets
