-- ===== src/Flush/Results.antt =====
-- What timeseries_kp_flush does to the key package, when it succeeds and when it fails.
use mathlib.Core.Path.{subst}
use libtimeseries.Base.{
  ℕ, ◌≡◌, refl, sym, ap, ◌∙◌, Bool, true, false, Option, some, List, ◌∷◌, arith, if◌then◌else◌,
  done, bind-eq-done, Status, success, failure,
}
use libtimeseries.Platform.{Platform}
use libtimeseries.KeyPackage.{KeyInfo, KeyPackage, kp_reset_disable}
use libtimeseries.KeyPackage.Invariant.{IsValid}
use libtimeseries.KeyPackage.Values.{reset_all, kp_reset_disable_lem, kp_reset_disable-IsValid}
use libtimeseries.Backend.{Backend, id_first}
use libtimeseries.Timeseries.{Timeseries, for_each_enabled}
use libtimeseries.Flush.{kp_flush, flush_at, flush_updated, flush_finish, update_if}
use libtimeseries.Flush.Loop.{AllBackends, for_each_enabled-keeps, for_each_enabled-AllBackends}
use libtimeseries.Flush.View.{view, KeepsView, map-reset_all, IsValid-of_view}

module _ ⦃P : Platform⦄ where
  abbrev clean : KeyPackage → KeyPackage
  clean kp = record kp { dirty = false }

  -- What the loop of timeseries_kp_flush keeps: the view but for `dirty`, and `dirty` at 0 as long
  -- as no backend has failed.
  record Flushing (kp : KeyPackage) (rc : Status) (kp' : KeyPackage) : Type 0 where
    same : view (clean kp') ≡ view (clean kp)
    marked : rc ≡ success → kp'.dirty ≡ false

  -- The key package as `kp_reset_disable` leaves it.
  abbrev after_reset : KeyPackage → KeyPackage
  after_reset kp = record kp {
    key_infos = reset_all kp.reset kp.disable kp.key_infos;
    key_infos_enabled_cnt = if kp.disable then 0 else kp.key_infos_enabled_cnt;
  }

  clean-IsValid : {kp : KeyPackage} → IsValid kp → IsValid (clean kp)
  clean-IsValid v = record {
    counted = v.counted;
    enabled = v.enabled;
    small = v.small;
    sound = v.sound;
    complete = v.complete;
  }

  flushed_view :
      (kp kp' kp'' : KeyPackage)
      → IsValid kp
      → Flushing kp success kp'
      → kp_reset_disable kp' ≡ done kp''
      → IsValid kp'' × (view kp'' ≡ view (after_reset (clean kp)))
  flushed_view kp kp' kp'' v f h = (kp_reset_disable-IsValid kp' kp'' valid h, same'')
    where
      same' : view kp' ≡ view (clean kp)
      same' = ap (λ (d : Bool). record (view kp') { dirty = d }) (f.marked refl) ∙ f.same

      valid : IsValid kp'
      valid = IsValid-of_view (clean kp) kp' same' (clean-IsValid v)

      view-after_reset : (k : KeyPackage) → view (after_reset k) ≡ after_reset (view k)
      view-after_reset k =
          ap (λ (kis : List KeyInfo). record (after_reset (view k)) { key_infos = kis })
            (map-reset_all k.reset k.disable k.key_infos)

      reset : after_reset kp' ≡ kp''
      reset = cc (kp_reset_disable_lem kp' valid)

      same'' : view kp'' ≡ view (after_reset (clean kp))
      same'' =
          ap (λ (k : KeyPackage). view k) (sym reset)
          ∙ view-after_reset kp'
          ∙ ap (λ (k : KeyPackage). after_reset k) same'
          ∙ sym (view-after_reset (clean kp))

module _ ⦃P : Platform⦄ {S : Type 0} where
  abbrev pub Lawful : Backend S → Type 0
  Lawful backend = KeepsView backend.ops

  update_if-view :
      (dirty : Bool) (b : Backend S) (kp kp' : KeyPackage) (rc : Status) (s : S)
      → Lawful b
      → update_if dirty b kp ≡ done (rc, kp', s)
      → view kp' ≡ view kp
  unfolding update_if
  update_if-view true b kp kp' rc s l h = l.update_view b.state s kp kp' rc h
  update_if-view false b kp kp' rc s l h = ground arith

  flush_updated-Flushing :
      (kp : KeyPackage) (time : ℕ) (b : Backend S) (rc₁ : Status) (a : KeyPackage) (s₁ : S)
      (rc : Status) (a' : KeyPackage) (s : S)
      → view (clean a) ≡ view (clean kp)
      → a.dirty ≡ false
      → flush_updated time b (rc₁, a, s₁) ≡ done (rc, a', s)
      → Flushing kp rc a'
  unfolding flush_updated
  flush_updated-Flushing kp time b failure a s₁ rc a' s w d h = record {
    same =
        let marked : record a { dirty = true } ≡ a' = ground arith in
        ap (λ (k : KeyPackage). view (clean k)) (sym marked) ∙ w;
    marked = λ e. cc;
  }
  flush_updated-Flushing kp time b success a s₁ rc a' s w d h =
      let ((rc₂, s₂), e, later) = bind-eq-done (b.ops.kp_flush s₁ a time) _ h in
      let unchanged : a ≡ a' = ground arith in
      record {
        same = ap (λ (k : KeyPackage). view (clean k)) (sym unchanged) ∙ w;
        marked = λ _. ap (λ (k : KeyPackage). k.dirty) (sym unchanged) ∙ d;
      }

  flush_at-Flushing :
      (kp : KeyPackage) (dirty : Bool) (time id : ℕ) (b : Backend S) (a : KeyPackage) (rc : Status)
      (a' : KeyPackage) (s : S)
      → Lawful b
      → Flushing kp success a
      → flush_at dirty time id b a ≡ done (rc, a', s)
      → Flushing kp rc a'
  unfolding flush_at
  flush_at-Flushing kp dirty time id b a rc a' s l f h =
      let ((rc₁, a₁, s₁), e, later) = bind-eq-done (update_if dirty b a) _ h in
      let w = update_if-view dirty b a a₁ rc₁ s₁ l e in
      flush_updated-Flushing kp time b rc₁ a₁ s₁ rc a' s
        (ap (λ (k : KeyPackage). record k { dirty = false }) w ∙ f.same)
        (ap (λ (k : KeyPackage). k.dirty) w ∙ f.marked refl) later

  flush_loop-Flushing :
      (slots slots' : List (Option (Backend S))) (kp kp' : KeyPackage) (time : ℕ) (rc : Status)
      → AllBackends Lawful slots
      → for_each_enabled (flush_at kp.dirty time) id_first slots (clean kp) ≡ done (rc, kp', slots')
      → Flushing kp rc kp'
  flush_loop-Flushing slots slots' kp kp' time rc l h =
      for_each_enabled-keeps (flush_at kp.dirty time) Lawful (Flushing kp)
        (flush_at-Flushing kp kp.dirty time) slots id_first (clean kp) rc kp' slots' l
        (record { same = refl; marked = λ _. refl }) h

  finish-success :
      (rc : Status) (kp kp' : KeyPackage) (slots : List (Option (Backend S))) (ts' : Timeseries S)
      → flush_finish (rc, kp, slots) ≡ done (success, kp', ts')
      → (rc ≡ success) × (kp_reset_disable kp ≡ done kp')
  unfolding flush_finish
  finish-success failure kp kp' slots ts' h = cc
  finish-success success kp kp' slots ts' h =
      let (k, e, later) = bind-eq-done (kp_reset_disable kp) _ h in (refl, ground arith)

  finish-failure :
      (rc : Status) (kp kp' : KeyPackage) (slots : List (Option (Backend S))) (ts' : Timeseries S)
      → flush_finish (rc, kp, slots) ≡ done (failure, kp', ts')
      → kp ≡ kp'
  unfolding flush_finish
  finish-failure failure kp kp' slots ts' h = ground arith
  finish-failure success kp kp' slots ts' h =
      let (k, e, later) = bind-eq-done (kp_reset_disable kp) _ h in cc

  -- With lawful backends, a flush of a valid key package that returns 0 leaves a valid package that
  -- is not dirty. Its values are 0 if it has the reset flag, all its keys are disabled and none is
  -- counted as enabled if it has the disable flag, and the rest is as before the flush.
  pub kp_flush_success :
      (timeseries timeseries' : Timeseries S) (kp kp' : KeyPackage) (time : ℕ)
      → AllBackends Lawful timeseries.backends
      → IsValid kp
      → kp_flush timeseries kp time ≡ done (success, kp', timeseries')
      → IsValid kp'
        × (view kp'
            ≡ view (record kp {
              key_infos = reset_all kp.reset kp.disable kp.key_infos;
              key_infos_enabled_cnt = if kp.disable then 0 else kp.key_infos_enabled_cnt;
              dirty = false;
            }))
  unfolding kp_flush
  kp_flush_success ts ts' kp kp' time l v h =
      let ((rc, k, slots), e, later) =
        bind-eq-done (for_each_enabled (flush_at kp.dirty time) id_first ts.backends (clean kp))
          flush_finish h in
      let (won, reset) = finish-success rc k kp' slots ts' later in
      let f = flush_loop-Flushing ts.backends slots kp k time rc l e in
      flushed_view kp k kp' v (subst (λ r. Flushing kp r k) won f) reset

  -- With lawful backends, a flush that returns -1 keeps names, values, marks, counters and flags of
  -- the key package; only `dirty` and the backends' own pointers may differ.
  pub kp_flush_failure :
      (timeseries timeseries' : Timeseries S) (kp kp' : KeyPackage) (time : ℕ)
      → AllBackends Lawful timeseries.backends
      → IsValid kp
      → kp_flush timeseries kp time ≡ done (failure, kp', timeseries')
      → IsValid kp' × (view (record kp' { dirty = kp.dirty }) ≡ view kp)
  unfolding kp_flush
  kp_flush_failure ts ts' kp kp' time l v h =
      let ((rc, k, slots), e, later) =
        bind-eq-done (for_each_enabled (flush_at kp.dirty time) id_first ts.backends (clean kp))
          flush_finish h in
      let f = flush_loop-Flushing ts.backends slots kp k time rc l e in
      let same =
        ap (λ (x : KeyPackage). view (clean x)) (sym (finish-failure rc k kp' slots ts' later))
        ∙ f.same in
      let valid = IsValid-of_view (clean kp) (clean kp') same (clean-IsValid v) in
      (
        record {
          counted = valid.counted;
          enabled = valid.enabled;
          small = valid.small;
          sound = valid.sound;
          complete = valid.complete;
        },
        ap (λ (x : KeyPackage). record x { dirty = kp.dirty }) same,
      )

  -- If the first backend resolves the keys of a dirty package and then fails to flush, the flush
  -- returns -1 with the package no longer dirty and the later backends untouched: a later round of
  -- a flush of this package runs no `kp_ki_update`, for whatever backend.
  pub flush_failure_loses_dirty :
      (first : Backend S) (slots : List (Option (Backend S))) (kp resolved : KeyPackage) (s s' : S)
      (time : ℕ)
      → Lawful first
      → first.enabled ≡ true
      → kp.dirty ≡ true
      → first.ops.kp_ki_update first.state (record kp { dirty = false })
        ≡ done (success, resolved, s)
      → first.ops.kp_flush s resolved time ≡ done (failure, s')
      → (kp_flush (record { backends = some first ∷ slots }) kp time
          ≡ done
              (failure, resolved, record { backends = some (record first { state = s' }) ∷ slots }))
        × ((time' id : ℕ) (later : Backend S) (k : KeyPackage)
            → flush_at resolved.dirty time' id later k
              ≡ flush_updated time' later (success, k, later.state))
  unfolding kp_flush
  flush_failure_loses_dirty first slots kp resolved s s' time l on dirty updated failed = (
    rw (on, dirty, for_each_enabled, flush_at, update_if) (rw updated (rw failed (rw on))),
    λ time' id later k. rw (unmarked, flush_at, update_if) refl,
  )
    where
      unmarked : resolved.dirty ≡ false
      unmarked =
          ap (λ (k : KeyPackage). k.dirty)
            (l.update_view first.state s (record kp { dirty = false }) resolved success updated)

  -- A flush leaves lawful backends lawful, whether it succeeds or fails.
  pub kp_flush-Lawful :
      (timeseries timeseries' : Timeseries S) (kp kp' : KeyPackage) (time : ℕ) (rc : Status)
      → AllBackends Lawful timeseries.backends
      → kp_flush timeseries kp time ≡ done (rc, kp', timeseries')
      → AllBackends Lawful timeseries'.backends
  unfolding kp_flush
  kp_flush-Lawful ts ts' kp kp' time rc l h =
      let ((rc₁, k, slots), e, later) =
        bind-eq-done (for_each_enabled (flush_at kp.dirty time) id_first ts.backends (clean kp))
          flush_finish h in
      subst (AllBackends Lawful) {x = slots} {y = ts'.backends} (finish-backends rc₁ k slots later)
        (for_each_enabled-AllBackends (flush_at kp.dirty time) Lawful (λ b s law. law) ts.backends
          id_first (clean kp) rc₁ k slots l e)
    where
      finish-backends :
          (rc₁ : Status) (k : KeyPackage) (slots : List (Option (Backend S)))
          → flush_finish (rc₁, k, slots) ≡ done (rc, kp', ts')
          → slots ≡ ts'.backends
      finish-backends failure k slots e = unfold flush_finish in (ground arith)
      finish-backends success k slots e =
          let (k', _, e') = bind-eq-done (kp_reset_disable k) _ (unfold flush_finish in e) in
          ground arith
