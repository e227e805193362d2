-- ===== src/Insert/Pending.antt =====
-- tools/timeseries-insert.c: what a run of metrics at one time makes of the package in batch mode.
use mathlib.Core.Path.{subst₂}
use libtimeseries.Base.{
  lt→ltb, Bool-cases, str_eq_iff, ℕ, ◌+◌, ◌-◌, ◌^◌, ◌≤◌, ◌<◌, ◌≡◌, ◌⊎◌, inl, inr, refl, ap, ◌∙◌,
  true, false, Option, some, List, [], ◌∷◌, Bytes, length, ltb, ◌==◌, All, arith, str_eq,
  if◌then◌else◌, done, success,
}
use libtimeseries.Platform.{Platform}
use libtimeseries.KeyPackage.{KeyPackage}
use libtimeseries.KeyPackage.Invariant.{IsValid}
use libtimeseries.Timeseries.{Timeseries, any_enabled}
use libtimeseries.Insert.{Metric, Insert, flush_old, put_pending, store_metric}
use libtimeseries.Insert.Package.{HasMemory, Reads, put_total}
use libtimeseries.Insert.Replay.{store_all}

-- The last value for a key.
unfoldable pub last_value : Bytes → List Metric → Option ℕ → Option ℕ
last_value key [] before = before
last_value key (m ∷ ms) before =
    last_value key ms (if str_eq m.key key then some m.value else before)

-- The metric has this time.
abbrev pub IsAt : ℕ → Metric → Type 0
IsAt time m = m.time ≡ time

module _ ⦃P : Platform⦄ where
  -- The names read what the metrics say last of them, or what they read before.
  abbrev pub Latest : KeyPackage → List Metric → KeyPackage → Type 0
  Latest kp ms kp' =
      (key : Bytes) (before : Option ℕ) (value : ℕ)
      → ((w : ℕ) → before ≡ some w → Reads kp key w)
      → last_value key ms before ≡ some value
      → Reads kp' key value

  Latest-cons :
      (kp kp₁ kp' : KeyPackage) (m : Metric) (ms : List Metric)
      → Reads kp₁ m.key m.value
      → ((j : Bytes) (w : ℕ) → str_eq m.key j ≡ false → Reads kp j w → Reads kp₁ j w)
      → Latest kp₁ ms kp'
      → Latest kp (m ∷ ms) kp'
  unfolding last_value
  Latest-cons kp kp₁ kp' m ms reads others rest key before value old last =
      rest key (if str_eq m.key key then some m.value else before) value
        (λ w e. elim (Bool-cases (str_eq m.key key)) [
          | inl same ↦
              let name : m.key ≡ key = (str_eq_iff m.key key).0 same in
              let here : some m.value ≡ some w = rw same at e in
              let there : m.value ≡ w = ground arith in
              subst₂ (λ k v. Reads kp₁ k v) name there reads
          | inr other ↦ others key w other (old w (rw other at e))
        ])
        last

module _ ⦃P : Platform⦄ {S : Type 0} where
  -- A tool in batch mode, with a package and with points of one time, or none.
  abbrev pub pending : Timeseries S → KeyPackage → ℕ → ℕ → Insert S
  pending timeseries kp points gtime = record {
    timeseries = timeseries;
    kp = some kp;
    points_pending = points;
    batch_mode = true;
    gtime = gtime;
  }

  store_metric_total :
      (timeseries : Timeseries S) (kp : KeyPackage) (points gtime : ℕ) (m : Metric)
      → HasMemory
      → IsValid kp
      → kp.key_infos_cnt + 1 < 2 ^ 31
      → points + 1 < 2 ^ 31
      → (gtime ≡ 0) ⊎ (gtime ≡ m.time)
      → (kp' : KeyPackage) × (store_metric m (pending timeseries kp points gtime)
          ≡ done (success, pending timeseries kp' (points + 1) m.time))
        × IsValid kp'
        × (kp'.key_infos_cnt ≤ kp.key_infos_cnt + 1)
        × Reads kp' m.key m.value
        × ((j : Bytes) (w : ℕ) → str_eq m.key j ≡ false → Reads kp j w → Reads kp' j w)
  unfolding store_metric flush_old put_pending
  store_metric_total timeseries kp points gtime m memory v room few at =
      let (id, kp₁, kp', found, small, set, v', cnt, reads, others) =
        put_total (any_enabled timeseries) kp m.key m.value memory v room in
      let time : (if gtime == 0 then m.time else gtime) ≡ m.time = ground arith in
      let same : (m.time == m.time) ≡ true = ground arith in
      let fits : ltb id (2 ^ 31) ≡ true = lt→ltb id (2 ^ 31) small in
      let more : ltb points (2 ^ 31 - 1) ≡ true = ground arith in
      (kp', rw time (rw same (rw found (rw fits (rw set (rw more refl))))), v', cnt, reads, others)

  pub store_all_total :
      (timeseries : Timeseries S) (ms : List Metric) (kp : KeyPackage) (points gtime time : ℕ)
      → HasMemory
      → IsValid kp
      → kp.key_infos_cnt + length ms < 2 ^ 31
      → points + length ms < 2 ^ 31
      → All (IsAt time) ms
      → (gtime ≡ 0) ⊎ (gtime ≡ time)
      → (kp' : KeyPackage) × (g : ℕ) × (store_all ms (pending timeseries kp points gtime)
          ≡ done (success, pending timeseries kp' (points + length ms) g))
        × IsValid kp'
        × (gtime ≡ time → g ≡ time)
        × (0 < length ms → g ≡ time)
        × Latest kp ms kp'
  unfolding store_all last_value
  store_all_total timeseries [] kp points gtime time memory v room few at start = (
    kp,
    gtime,
    ap (λ n. done (success, pending timeseries kp n gtime)) (omega arith),
    v,
    (λ h. h),
    (λ h. absurd (omega arith)),
    λ key before value old last. old value last,
  )
  store_all_total timeseries (m ∷ ms) kp points gtime time memory v room few (here, at) start =
      let now : (gtime ≡ 0) ⊎ (gtime ≡ m.time) = ground arith in
      let (kp₁, e, v₁, cnt, reads, others) =
        store_metric_total timeseries kp points gtime m memory v (omega arith) (omega arith) now in
      let (kp', g, e', v', left, _, latest) =
        store_all_total timeseries ms kp₁ (points + 1) m.time time memory v₁ (omega (arith, cnt))
          (omega arith) at (inr here) in
      (
        kp',
        g,
        rw e (e' ∙ ap (λ n. done (success, pending timeseries kp' n g)) (omega arith)),
        v',
        (λ _. left here),
        (λ _. left here),
        Latest-cons kp kp₁ kp' m ms reads others latest,
      )
