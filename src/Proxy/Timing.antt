-- ===== src/Proxy/Timing.antt =====
-- tools/tsk-proxy.c: the flush inside maybe_flush, and what its assertion rests on.
use mathlib.Core.Path.{subst}
use libtimeseries.Base.{
  ℕ, ◌≡◌, refl, sym, ap, ◌∙◌, true, Bytes, codes, arith, Outcome, done, fault, ◌>>=◌, bind-eq-done,
  Status, success, failure,
}
use libtimeseries.Platform.{Platform}
use libtimeseries.KeyPackage.{KeyPackage, kp_enabled_size}
use libtimeseries.KeyPackage.Invariant.{IsValid}
use libtimeseries.Timeseries.{Timeseries}
use libtimeseries.Flush.{kp_flush}
use libtimeseries.Flush.Loop.{AllBackends}
use libtimeseries.Flush.Results.{Lawful, kp_flush_success, kp_flush_failure, kp_flush-Lawful}
use libtimeseries.Proxy.{Proxy, bump, count_flush, after_flush, flush_enabled}

module _ ⦃P : Platform⦄ {S : Type 0} where
  -- What init_timeseries sets up and the program keeps: the package has the disable flag, and its
  -- backends keep to their interface.
  pub record IsReady (p : Proxy S) : Type 0 where
    pub valid : IsValid p.kp
    pub disables : p.kp.disable ≡ true
    pub lawful : AllBackends Lawful p.timeseries.backends

  -- The statistics change the stats package alone.
  pub record SameButStats (p p' : Proxy S) : Type 0 where
    pub kp : p'.kp ≡ p.kp
    pub timeseries : p'.timeseries ≡ p.timeseries
    pub current_time : p'.current_time ≡ p.current_time

  pub bump-SameButStats :
      (p p' : Proxy S) (suffix : Bytes) (value : ℕ)
      → bump p suffix value ≡ done p'
      → SameButStats p p'
  unfolding bump
  bump-SameButStats p p' suffix value h =
      let (k, _, e) = bind-eq-done _ (λ (kp : KeyPackage). done (record p { stats_kp = kp })) h in
      subst (SameButStats p) {x = record p { stats_kp = k }} (ground arith)
        (record { kp = refl; timeseries = refl; current_time = refl })

  count_flush-SameButStats : (p p' : Proxy S) → count_flush p ≡ done p' → SameButStats p p'
  unfolding count_flush
  count_flush-SameButStats p p' h =
      let (p₁, e, later) = bind-eq-done (bump p (codes "flush_cnt") 1) _ h in
      let a = bump-SameButStats p p₁ (codes "flush_cnt") 1 e in
      let b = bump-SameButStats p₁ p' (codes "flushed_key_cnt") (kp_enabled_size p₁.kp) later in
      record {
        kp = b.kp ∙ a.kp;
        timeseries = b.timeseries ∙ a.timeseries;
        current_time = b.current_time ∙ a.current_time;
      }

  pub SameButStats-IsReady : (p p' : Proxy S) → SameButStats p p' → IsReady p → IsReady p'
  SameButStats-IsReady p p' s r = record {
    valid = subst IsValid (sym s.kp) r.valid;
    disables = ap (λ (k : KeyPackage). k.disable) s.kp ∙ r.disables;
    lawful =
        subst (λ (t : Timeseries S). AllBackends Lawful t.backends) (sym s.timeseries) r.lawful;
  }

  -- What a flush of a ready proxy leaves behind.
  pub record Flushed (p : Proxy S) (rc : Status) (p' : Proxy S) : Type 0 where
    pub ready : IsReady p'
    pub time : p'.current_time ≡ p.current_time
    pub sized : p'.kp.key_infos_cnt ≡ p.kp.key_infos_cnt
    pub emptied : rc ≡ success → kp_enabled_size p'.kp ≡ 0

  kp_flush-IsReady :
      (p : Proxy S) (rc : Status) (kp : KeyPackage) (ts : Timeseries S)
      → IsReady p
      → kp_flush p.timeseries p.kp p.current_time ≡ done (rc, kp, ts)
      → Flushed p rc (record p { kp = kp; timeseries = ts })
  unfolding kp_enabled_size
  kp_flush-IsReady p success kp ts r h =
      let (valid, same) =
        kp_flush_success p.timeseries ts p.kp kp p.current_time r.lawful r.valid h in
      record {
        ready = record {
          valid = valid;
          disables = ap (λ (k : KeyPackage). k.disable) same ∙ r.disables;
          lawful = kp_flush-Lawful p.timeseries ts p.kp kp p.current_time success r.lawful h;
        };
        time = refl;
        sized = ap (λ (k : KeyPackage). k.key_infos_cnt) same;
        emptied = λ _. ap (λ (k : KeyPackage). k.key_infos_enabled_cnt) same ∙ rw r.disables;
      }
  kp_flush-IsReady p failure kp ts r h =
      let (valid, same) =
        kp_flush_failure p.timeseries ts p.kp kp p.current_time r.lawful r.valid h in
      record {
        ready = record {
          valid = valid;
          disables = ap (λ (k : KeyPackage). k.disable) same ∙ r.disables;
          lawful = kp_flush-Lawful p.timeseries ts p.kp kp p.current_time failure r.lawful h;
        };
        time = refl;
        sized = ap (λ (k : KeyPackage). k.key_infos_cnt) same;
        emptied = λ e. cc;
      }

  -- after_flush without its assertion.
  abbrev pub after_flush_unchecked :
      Proxy S → Status × KeyPackage × Timeseries S → Outcome (Status × Proxy S)
  after_flush_unchecked p (rc, kp, timeseries) =
      done (rc, record p { kp = kp; timeseries = timeseries })

  after_flush-unchecked :
      (p : Proxy S) (rc : Status) (kp : KeyPackage) (ts : Timeseries S)
      → Flushed p rc (record p { kp = kp; timeseries = ts })
      → after_flush p (rc, kp, ts) ≡ after_flush_unchecked p (rc, kp, ts)
  unfolding after_flush
  after_flush-unchecked p failure kp ts f = refl
  after_flush-unchecked p success kp ts f = rw (f.emptied refl)

  -- In a ready proxy the assertion that maybe_flush makes after a flush, that no key is left enabled,
  -- never fails: the flush comes out as it would without the assertion.
  pub flush_enabled_assertion :
      (p : Proxy S)
      → IsReady p
      → flush_enabled p ≡ (do
        p' ← count_flush p
        flushed ← kp_flush p'.timeseries p'.kp p'.current_time
        after_flush_unchecked p' flushed)
  unfolding flush_enabled
  flush_enabled_assertion p r = counted (count_flush p) refl
    where
      flushed :
          (p' : Proxy S)
          → IsReady p'
          → (o : Outcome (Status × KeyPackage × Timeseries S))
          → kp_flush p'.timeseries p'.kp p'.current_time ≡ o
          → (o >>= after_flush p') ≡ (o >>= after_flush_unchecked p')
      flushed p' r' (fault e) h = refl
      flushed p' r' (done (rc, kp, ts)) h =
          after_flush-unchecked p' rc kp ts (kp_flush-IsReady p' rc kp ts r' h)

      counted :
          (o : Outcome (Proxy S))
          → count_flush p ≡ o
          → (o >>= λ p'. kp_flush p'.timeseries p'.kp p'.current_time >>= after_flush p') ≡ (
              o >>= λ p'. kp_flush p'.timeseries p'.kp p'.current_time >>= after_flush_unchecked p')
      counted (fault e) h = refl
      counted (done p') h =
          flushed p' (SameButStats-IsReady p p' (count_flush-SameButStats p p' h) r)
            (kp_flush p'.timeseries p'.kp p'.current_time) refl

  pub flush_enabled-Flushed :
      (p p' : Proxy S) (rc : Status) → IsReady p → flush_enabled p ≡ done (rc, p') → Flushed p rc p'
  flush_enabled-Flushed p p' rc r h =
      let (p₁, counted, later) =
        bind-eq-done (count_flush p) _ (sym (flush_enabled_assertion p r) ∙ h) in
      let s = count_flush-SameButStats p p₁ counted in
      let ((rc₁, kp, ts), e, end) =
        bind-eq-done (kp_flush p₁.timeseries p₁.kp p₁.current_time) (after_flush_unchecked p₁)
          later in
      moved p₁ p' rc₁ rc kp ts s (kp_flush-IsReady p₁ rc₁ kp ts (SameButStats-IsReady p p₁ s r) e)
        end
    where
      moved :
          (p₁ p' : Proxy S) (rc₁ rc : Status) (kp : KeyPackage) (ts : Timeseries S)
          → SameButStats p p₁
          → Flushed p₁ rc₁ (record p₁ { kp = kp; timeseries = ts })
          → after_flush_unchecked p₁ (rc₁, kp, ts) ≡ done (rc, p')
          → Flushed p rc p'
      moved p₁ p' rc₁ rc kp ts s f end =
          let flushed : Flushed p rc₁ (record p₁ { kp = kp; timeseries = ts }) = record {
            ready = f.ready;
            time = s.current_time;
            sized = f.sized ∙ ap (λ (k : KeyPackage). k.key_infos_cnt) s.kp;
            emptied = f.emptied;
          } in
          let same_rc : rc₁ ≡ rc = ground arith in
          let same_p : record p₁ { kp = kp; timeseries = ts } ≡ p' = ground arith in
          subst (λ c. Flushed p c p') same_rc (subst (Flushed p rc₁) same_p flushed)
