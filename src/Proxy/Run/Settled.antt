-- ===== src/Proxy/Run/Settled.antt =====
-- tools/tsk-proxy.c: what is left in the key package when `run` returns.
use mathlib.Core.Path.{subst}
use libtimeseries.Base.{
  ℕ, ◌+◌, ◌^◌, ◌<◌, ◌≡◌, ◌≢◌, inl, inr, refl, sym, ap, ◌∙◌, Bool, true, false, Bytes, length, ◌==◌,
  if◌then◌else◌, arith, Outcome, done, ◌>>=◌, Status, success, failure, bind-eq-done, Bool-cases,
  codes, done_inj,
}
use libtimeseries.Platform.{Platform}
use libtimeseries.KeyPackage.{KeyPackage, kp_enabled_size}
use libtimeseries.Timeseries.{Timeseries, any_enabled}
use libtimeseries.Flush.{kp_flush}
use libtimeseries.Proxy.{
  Proxy, bump, maybe_flush, maybe_flush_stats, stats_interval_now, stats_due, after_stats_flush,
}
use libtimeseries.Proxy.Message.{
  Filter, Header, skip, unknown_channel, batch, read_header, handle_message, handle_header,
  after_turn, parse_loop,
}
use libtimeseries.Proxy.Timing.{IsReady, SameButStats, bump-SameButStats, SameButStats-IsReady}
use libtimeseries.Proxy.Turn.{Turned, maybe_flush_lem}
use libtimeseries.Proxy.Keeps.{handle_message-IsReady}
use libtimeseries.Proxy.Run.{run}

-- The message is not of the time 0.
abbrev pub IsDated : Filter → Bytes → Type 0
IsDated cfg payload = (rest : Bytes) → read_header cfg.kafka_channel payload ≢ batch 0 rest

not_fresh : {n : ℕ} → n ≡ 0 → (n == 0) ≡ false → ⊥
not_fresh e h = ground arith

module _ ⦃P : Platform⦄ {S : Type 0} where
  after_stats_flush-SameButStats :
      (now : ℕ) (p p' : Proxy S) (a : Status × KeyPackage × Timeseries S)
      → after_stats_flush now p a ≡ done p'
      → SameButStats p p'
  after_stats_flush-SameButStats now p p' (failure, kp, ts) h =
      subst (SameButStats p) (done_inj h)
        (record { kp = refl; timeseries = refl; current_time = refl })
  after_stats_flush-SameButStats now p p' (success, kp, ts) h =
      subst (SameButStats p) (done_inj h)
        (record { kp = refl; timeseries = refl; current_time = refl })

  pub maybe_flush_stats-SameButStats :
      (t : ℕ) (p p' : Proxy S) → maybe_flush_stats t p ≡ done p' → SameButStats p p'
  unfolding maybe_flush_stats
  maybe_flush_stats-SameButStats t p p' h =
      let (now, e, h₁) = bind-eq-done (stats_interval_now t p.stats_interval) _ h in
      let (due, e₁, h₂) = bind-eq-done (stats_due now p) _ h₁ in by_due now due h₂
    where
      by_due :
          (now : ℕ) (due : Bool)
          → (if due
              then (kp_flush p.stats_timeseries p.stats_kp p.stats_time >>= after_stats_flush now p)
              else done p)
            ≡ done p'
          → SameButStats p p'
      by_due now true run =
          let (a, _, end) =
            bind-eq-done (kp_flush p.stats_timeseries p.stats_kp p.stats_time)
              (after_stats_flush now p) run in
          after_stats_flush-SameButStats now p p' a end
      by_due now false run =
          subst (SameButStats p) (done_inj run)
            (record { kp = refl; timeseries = refl; current_time = refl })

  -- A ready proxy with room for `n` more keys, where no value waits while there is no time.
  pub record IsSettled (n : ℕ) (p : Proxy S) : Type 0 where
    pub ready : IsReady p
    pub room : p.kp.key_infos_cnt + n < 2 ^ 31
    pub settled : p.current_time ≡ 0 → kp_enabled_size p.kp ≡ 0

  pub SameButStats-IsSettled :
      (n : ℕ) (p p' : Proxy S) → SameButStats p p' → IsSettled n p → IsSettled n p'
  SameButStats-IsSettled n p p' same h = record {
    ready = SameButStats-IsReady p p' same h.ready;
    room = omega (arith, h.room, ap (λ (k : KeyPackage). k.key_infos_cnt) same.kp);
    settled = λ e.
        ap (λ (k : KeyPackage). kp_enabled_size k) same.kp ∙ h.settled (sym same.current_time ∙ e);
  }

  pub maybe_flush-IsSettled :
      (n t : ℕ) (p p' : Proxy S) (rc : Status)
      → IsSettled n p
      → maybe_flush t p ≡ done (rc, p')
      → IsSettled n p'
  maybe_flush-IsSettled n t p p' rc h run =
      let turned = maybe_flush_lem t p p' rc h.ready run in
      record {
        ready = turned.ready;
        room = omega (arith, h.room, turned.sized);
        settled = by_status rc turned;
      }
    where
      by_status : (c : Status) → Turned t p c p' → p'.current_time ≡ 0 → kp_enabled_size p'.kp ≡ 0
      by_status success turned e = elim (Bool-cases (p.current_time == 0)) [
        | inl fresh ↦
            let fresh_time : p.current_time ≡ 0 = ground arith in
            ap (λ (k : KeyPackage). kp_enabled_size k) (turned.unflushed (inl fresh_time)).1
            ∙ h.settled fresh_time
        | inr started ↦ turned.emptied refl (ground arith) (λ (same : p.current_time ≡ t).
            not_fresh (same ∙ sym (turned.advanced refl) ∙ e) started)
      ]
      by_status failure turned e =
          let never = (turned.unflushed (inl (sym (turned.delayed refl) ∙ e))).0 in cc

  after_turn-time :
      (loop : Bool → KeyPackage → Outcome KeyPackage) (len : ℕ) (p p' : Proxy S) (rc : Status)
      → after_turn loop len (success, p) ≡ done (rc, p')
      → p'.current_time ≡ p.current_time
  unfolding after_turn
  after_turn-time loop len p p' rc h =
      let (p₁, e₁, h₁) = bind-eq-done (bump p (codes "messages_cnt") 1) _ h in
      let (p₂, e₂, h₂) = bind-eq-done (bump p₁ (codes "messages_bytes") len) _ h₁ in
      let (kp, e₃, h₃) = bind-eq-done (loop (any_enabled p₂.timeseries) p₂.kp) _ h₂ in
      ap (λ (a : Status × Proxy S). a.1.current_time) (sym (done_inj h₃))
      ∙ (bump-SameButStats p₁ p₂ (codes "messages_bytes") len e₂).current_time
      ∙ (bump-SameButStats p p₁ (codes "messages_cnt") 1 e₁).current_time

  -- What the time does in handle_message.
  handle_header-settled :
      (fuel n len : ℕ) (cfg : Filter) (o : Header) (p p' : Proxy S) (rc : Status)
      → IsSettled n p
      → ((rest : Bytes) → o ≢ batch 0 rest)
      → handle_header fuel cfg len o p ≡ done (rc, p')
      → p'.current_time ≡ 0
      → kp_enabled_size p'.kp ≡ 0
  unfolding handle_header
  handle_header-settled fuel n len cfg skip p p' rc h dated run =
      let same = ap (λ (a : Status × Proxy S). a.1) (done_inj run) in
      subst (λ (q : Proxy S). q.current_time ≡ 0 → kp_enabled_size q.kp ≡ 0) same h.settled
  handle_header-settled fuel n len cfg unknown_channel p p' rc h dated run = cc
  handle_header-settled fuel n len cfg (batch time rest) p p' rc h dated run =
      let (a, turned, end) =
        bind-eq-done (maybe_flush time p)
          (after_turn (λ backends kp. parse_loop fuel backends cfg.filters rest kp) len) run in
      by_status a turned end
    where
      by_status :
          (a : Status × Proxy S)
          → maybe_flush time p ≡ done a
          → after_turn (λ backends kp. parse_loop fuel backends cfg.filters rest kp) len a
            ≡ done (rc, p')
          → p'.current_time ≡ 0
          → kp_enabled_size p'.kp ≡ 0
      by_status (failure, p₁) turned end =
          let same = ap (λ (a : Status × Proxy S). a.1) (done_inj end) in
          subst (λ (q : Proxy S). q.current_time ≡ 0 → kp_enabled_size q.kp ≡ 0) same
            (maybe_flush-IsSettled n time p p₁ failure h turned).settled
      by_status (success, p₁) turned end = λ e. absurd (
          dated rest (
            ap (λ t. batch t rest)
              (sym ((maybe_flush_lem time p p₁ success h.ready turned).advanced refl)
                ∙ sym (after_turn-time (λ b. parse_loop fuel b cfg.filters rest) len p₁ p' rc end)
                ∙ e)))

  pub handle_message-IsSettled :
      (fuel n : ℕ) (cfg : Filter) (payload : Bytes) (p p' : Proxy S) (rc : Status)
      → IsSettled (n + length payload) p
      → IsDated cfg payload
      → handle_message fuel cfg payload p ≡ done (rc, p')
      → IsSettled n p'
  handle_message-IsSettled fuel n cfg payload p p' rc h dated run =
      let (ready, sized) =
        handle_message-IsReady fuel cfg payload p p' rc h.ready (omega (arith, h.room)) run in
      record {
        ready = ready;
        room = omega (arith, h.room, sized);
        settled =
            handle_header-settled fuel (n + length payload) (length payload) cfg
              (read_header cfg.kafka_channel payload) p p' rc h dated
              (unfold handle_message in run);
      }
