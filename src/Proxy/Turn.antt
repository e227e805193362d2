-- ===== src/Proxy/Turn.antt =====
-- maybe_flush of tools/tsk-proxy.c: when the key package is flushed.
use mathlib.Core.Path.{subst}
use libtimeseries.Base.{
  ℕ, ◌≡◌, ◌≢◌, refl, sym, ap, ◌∙◌, Bool, false, not, ◌&&◌, ◌||◌, arith, ltb, ◌==◌, if◌then◌else◌,
  Outcome, done, ◌>>=◌, ◌>>◌, assert, bind-eq-done, Bool-cases, inl, inr, ◌⊎◌, Status, success,
  failure,
}
use libtimeseries.Platform.{Platform}
use libtimeseries.KeyPackage.{kp_enabled_size}
use libtimeseries.Proxy.Timing.{IsReady, Flushed, flush_enabled-Flushed}
use libtimeseries.Proxy.{Proxy, flush_enabled, maybe_flush, take_time, force_flush}

module _ ⦃P : Platform⦄ {S : Type 0} where
  -- What a call of maybe_flush with the time `t` makes of a ready proxy.
  pub record Turned (t : ℕ) (p : Proxy S) (rc : Status) (p' : Proxy S) : Type 0 where
    pub ready : IsReady p'
    pub advanced : rc ≡ success → p'.current_time ≡ t
    pub delayed : rc ≡ failure → p'.current_time ≡ p.current_time
    pub sized : p'.kp.key_infos_cnt ≡ p.kp.key_infos_cnt
    pub emptied : rc ≡ success → p.current_time ≢ 0 → p.current_time ≢ t → kp_enabled_size p'.kp ≡ 0
    pub unflushed : (p.current_time ≡ 0) ⊎ (p.current_time ≡ t) → (rc ≡ success) × (p'.kp ≡ p.kp)

  abbrev at_time : Proxy S → ℕ → Outcome (Status × Proxy S)
  at_time p t = done (success, record p { current_time = t })

  abbrev as_is : Proxy S → Outcome (Status × Proxy S)
  as_is p = done (success, p)

  at_time-Turned :
      (t : ℕ) (p p' : Proxy S) (rc : Status)
      → IsReady p
      → (p.current_time ≡ 0) ⊎ (p.current_time ≡ t)
      → at_time p t ≡ done (rc, p')
      → Turned t p rc p'
  at_time-Turned t p p' rc r now h =
      let same_rc : success ≡ rc = ground arith in
      let same_p : record p { current_time = t } ≡ p' = ground arith in
      let turned : Turned t p success (record p { current_time = t }) = record {
        ready = record { valid = r.valid; disables = r.disables; lawful = r.lawful };
        advanced = λ _. refl;
        delayed = λ e. cc;
        sized = refl;
        emptied =
            λ _ started moved. elim now [ inl e ↦ absurd (started e) | inr e ↦ absurd (moved e) ];
        unflushed = λ _. (refl, refl);
      } in
      subst (λ c. Turned t p c p') same_rc (subst (Turned t p success) same_p turned)

  take_time-Turned :
      (t : ℕ) (p p₁ p' : Proxy S) (rc₁ rc : Status)
      → p.current_time ≢ 0
      → p.current_time ≢ t
      → Flushed p rc₁ p₁
      → done (take_time t (rc₁, p₁)) ≡ done (rc, p')
      → Turned t p rc p'
  take_time-Turned t p p₁ p' success rc started moved f h =
      let same_rc : success ≡ rc = ground arith in
      let same_p : record p₁ { current_time = t } ≡ p' = ground arith in
      let turned : Turned t p success (record p₁ { current_time = t }) = record {
        ready = record {
          valid = f.ready.valid;
          disables = f.ready.disables;
          lawful = f.ready.lawful;
        };
        advanced = λ _. refl;
        delayed = λ e. cc;
        sized = f.sized;
        emptied = λ _ _ _. f.emptied refl;
        unflushed = λ now. elim now [ inl e ↦ absurd (started e) | inr e ↦ absurd (moved e) ];
      } in
      subst (λ c. Turned t p c p') same_rc (subst (Turned t p success) same_p turned)
  take_time-Turned t p p₁ p' failure rc started moved f h =
      let same_rc : failure ≡ rc = ground arith in
      let same_p : p₁ ≡ p' = ground arith in
      let turned : Turned t p failure p₁ = record {
        ready = f.ready;
        advanced = λ e. cc;
        delayed = λ _. f.time;
        sized = f.sized;
        emptied = λ e. cc;
        unflushed = λ now. elim now [ inl e ↦ absurd (started e) | inr e ↦ absurd (moved e) ];
      } in
      subst (λ c. Turned t p c p') same_rc (subst (Turned t p failure) same_p turned)

  flush_if_any-Flushed :
      (p p₁ : Proxy S) (rc₁ : Status)
      → IsReady p
      → (if ltb 0 (kp_enabled_size p.kp) then flush_enabled p else done (success, p))
        ≡ done (rc₁, p₁)
      → Flushed p rc₁ p₁
  flush_if_any-Flushed p p₁ rc₁ r h = elim (Bool-cases (ltb 0 (kp_enabled_size p.kp))) [
    | inl some_on ↦ flush_enabled-Flushed p p₁ rc₁ r (rw some_on at h)
    | inr none_on ↦
        let left : as_is p ≡ done (rc₁, p₁) = rw none_on at h in
        let same_rc : success ≡ rc₁ = ground arith in
        let same_p : p ≡ p₁ = ground arith in
        let none : kp_enabled_size p.kp ≡ 0 = ground arith in
        let flushed : Flushed p success p = record {
          ready = r;
          time = refl;
          sized = refl;
          emptied = λ _. none;
        } in
        subst (λ c. Flushed p c p₁) same_rc (subst (Flushed p success) same_p flushed)
  ]

  turn :
      (unset : Bool) (t : ℕ) (p p' : Proxy S) (rc : Status)
      → IsReady p
      → p.current_time ≢ 0
      → p.current_time ≢ t
      → (do
        assert (not (t == force_flush && unset))
        flushed ← if ltb 0 (kp_enabled_size p.kp) then flush_enabled p else done (success, p)
        done (take_time t flushed))
        ≡ done (rc, p')
      → Turned t p rc p'
  turn unset t p p' rc r started moved h =
      let (_, _, checked) = bind-eq-done (assert (not (t == force_flush && unset))) _ h in
      let ((rc₁, p₁), e, end) =
        bind-eq-done (if ltb 0 (kp_enabled_size p.kp) then flush_enabled p else done (success, p))
          (λ flushed. done (take_time t flushed)) checked in
      take_time-Turned t p p₁ p' rc₁ rc started moved (flush_if_any-Flushed p p₁ rc₁ r e) end

  -- maybe_flush, where it returns on a ready proxy, leaves a ready proxy. If it returns 0, the proxy
  -- is at the new time, and if it was at another time before, no key is left enabled; if it returns
  -- -1, the proxy stays at its time. In a proxy without a time, or at this time, it returns 0 and
  -- leaves the package as it was. The number of keys stays.
  pub maybe_flush_lem :
      (t : ℕ) (p p' : Proxy S) (rc : Status)
      → IsReady p
      → maybe_flush t p ≡ done (rc, p')
      → Turned t p rc p'
  unfolding maybe_flush
  maybe_flush_lem t p p' rc r h = elim (Bool-cases (p.current_time == 0)) [
    | inl fresh ↦ at_time-Turned t p p' rc r (inl (ground arith)) (rw fresh at h)
    | inr started ↦ elim (Bool-cases (t == 0 || not (t == p.current_time))) [
      | inl moved ↦ turn false t p p' rc r (ground arith) (ground arith) (rw (started, moved) at h)
      | inr same ↦
          let now : p.current_time ≡ t = ground arith in
          at_time-Turned t p p' rc r (inr now) (ap (at_time p) (sym now) ∙ rw (started, same) at h)
    ]
  ]
