-- ===== src/Proxy/StatsFlush.antt =====
-- maybe_flush_stats of tools/tsk-proxy.c.
use mathlib.Core.Path.{subst}
use native.Mathlib.Nat.{div-mul-le_self, mod-le}
use libtimeseries.Base.{
  ℕ, ◌+◌, ◌*◌, ◌/◌, ◌%◌, ◌^◌, ◌≤◌, ◌<◌, ◌≡◌, ◌≢◌, refl, ◌⊎◌, inl, inr, Bool, true, false, arith,
  leb, ◌==◌, if◌then◌else◌, done, ◌>>=◌, bind-eq-done, Bool-cases, Status, success, failure,
}
use libtimeseries.Platform.{Platform}
use libtimeseries.KeyPackage.{KeyPackage}
use libtimeseries.KeyPackage.Invariant.{IsValid}
use libtimeseries.Timeseries.{Timeseries}
use libtimeseries.Flush.{kp_flush}
use libtimeseries.Flush.Loop.{AllBackends}
use libtimeseries.Flush.Results.{Lawful, kp_flush_success, kp_flush_failure, kp_flush-Lawful}
use libtimeseries.Proxy.{
  Proxy, maybe_flush_stats, stats_interval_now, stats_due, after_stats_flush, int_abs,
}

interval-now :
    (t interval now : ℕ) → stats_interval_now t interval ≡ done now → (interval ≢ 0) × (now ≤ t)
interval-now t interval now e = elim (Bool-cases (interval == 0)) [
  | inl zero_interval ↦ absurd (ground arith)
  | inr other ↦
      let same : t / int_abs interval * int_abs interval % 2 ^ 32 ≡ now = ground arith in
      (
        ground arith,
        omega (
          arith,
          mod-le (t / int_abs interval * int_abs interval) (2 ^ 32),
          div-mul-le_self t (int_abs interval),
          same,
        ),
      )
]

module _ ⦃P : Platform⦄ {S : Type 0} where
  -- The statistics: a valid package over backends that keep to their interface.
  pub record HasStats (p : Proxy S) : Type 0 where
    pub valid : IsValid p.stats_kp
    pub lawful : AllBackends Lawful p.stats_timeseries.backends

  -- What maybe_flush_stats at time `t` may change.
  pub record StatsTurned (t : ℕ) (p p' : Proxy S) : Type 0 where
    pub stats : HasStats p'
    pub kp : p'.kp ≡ p.kp
    pub timeseries : p'.timeseries ≡ p.timeseries
    pub current_time : p'.current_time ≡ p.current_time
    pub time :
        (p'.stats_time ≡ p.stats_time)
        ⊎ ((p.stats_time + p.stats_interval ≤ p'.stats_time) × (p'.stats_time ≤ t))

  after_stats_flush-Turned :
      (t now : ℕ) (p : Proxy S) (rc : Status) (kp : KeyPackage) (ts : Timeseries S) (p' : Proxy S)
      → HasStats p
      → p.stats_time + p.stats_interval ≤ now
      → now ≤ t
      → kp_flush p.stats_timeseries p.stats_kp p.stats_time ≡ done (rc, kp, ts)
      → after_stats_flush now p (rc, kp, ts) ≡ done p'
      → StatsTurned t p p'
  after_stats_flush-Turned t now p failure kp ts p' s due past e h =
      let (valid, _) =
        kp_flush_failure p.stats_timeseries ts p.stats_kp kp p.stats_time s.lawful s.valid e in
      subst (StatsTurned t p) {x = record p { stats_kp = kp; stats_timeseries = ts }} (ground arith)
        (record {
          stats = record {
            valid = valid;
            lawful =
                kp_flush-Lawful p.stats_timeseries ts p.stats_kp kp p.stats_time failure s.lawful e;
          };
          kp = refl;
          timeseries = refl;
          current_time = refl;
          time = inl refl;
        })
  after_stats_flush-Turned t now p success kp ts p' s due past e h =
      let (valid, _) =
        kp_flush_success p.stats_timeseries ts p.stats_kp kp p.stats_time s.lawful s.valid e in
      subst (StatsTurned t p)
        {x = record p { stats_kp = kp; stats_timeseries = ts; stats_time = now }} (ground arith)
        (record {
          stats = record {
            valid = valid;
            lawful =
                kp_flush-Lawful p.stats_timeseries ts p.stats_kp kp p.stats_time success s.lawful e;
          };
          kp = refl;
          timeseries = refl;
          current_time = refl;
          time = inr (due, past);
        })

  stats_due-true :
      (now : ℕ) (p : Proxy S) (due : Bool)
      → p.stats_interval < 2 ^ 31
      → stats_due now p ≡ done due
      → due ≡ true
      → p.stats_time + p.stats_interval ≤ now
  stats_due-true now p due signed e on =
      let positive : leb (2 ^ 31) p.stats_interval ≡ false = ground arith in
      elim (Bool-cases (leb (2 ^ 31) (p.stats_time + p.stats_interval))) [
        | inl large ↦ absurd (ground arith)
        | inr small ↦ ground arith
      ]

  -- maybe_flush_stats with an interval that is not negative, where it returns, has an interval other than 0. It keeps the package of the
  -- statistics valid and its backends lawful, changes neither the package of the data nor its
  -- backends nor its time, and the time of the statistics stays or moves on by at least the interval
  -- and not past the clock.
  pub maybe_flush_stats_lem :
      (t : ℕ) (p p' : Proxy S)
      → HasStats p
      → p.stats_interval < 2 ^ 31
      → maybe_flush_stats t p ≡ done p'
      → (p.stats_interval ≢ 0) × StatsTurned t p p'
  unfolding maybe_flush_stats
  maybe_flush_stats_lem t p p' s signed h =
      let (now, e, h₁) = bind-eq-done (stats_interval_now t p.stats_interval) _ h in
      let (due, e₁, h₂) = bind-eq-done (stats_due now p) _ h₁ in
      let (interval, early) = interval-now t p.stats_interval now e in
      (interval, by_due due now early (stats_due-true now p due signed e₁) h₂)
    where
      by_due :
          (due : Bool) (now : ℕ)
          → now ≤ t
          → (due ≡ true → p.stats_time + p.stats_interval ≤ now)
          → (if due
              then (kp_flush p.stats_timeseries p.stats_kp p.stats_time >>= after_stats_flush now p)
              else done p)
            ≡ done p'
          → StatsTurned t p p'
      by_due true now past due run =
          let ((rc, kp, ts), flushed, end) =
            bind-eq-done (kp_flush p.stats_timeseries p.stats_kp p.stats_time)
              (after_stats_flush now p) run in
          after_stats_flush-Turned t now p rc kp ts p' s (due refl) past flushed end
      by_due false now past due run =
          subst (StatsTurned t p) {x = p} (ground arith) (record {
            stats = s;
            kp = refl;
            timeseries = refl;
            current_time = refl;
            time = inl refl;
          })
