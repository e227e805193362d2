-- ===== src/Proxy/Run/Ended.antt =====
-- tools/tsk-proxy.c: the loops of `run` to their end.
use mathlib.Core.Path.{subst}
use libtimeseries.Base.{
  ℕ, ◌+◌, ◌^◌, ◌≤◌, ◌<◌, ◌≡◌, inl, inr, refl, ap, ◌∙◌, Bool, true, false, ◌||◌, List, [], ◌∷◌, All,
  length, leb, if◌then◌else◌, arith, Outcome, done, ◌>>=◌, Status, success, failure, bind-eq-done,
  Bool-cases, done_inj,
}
use libtimeseries.Platform.{Platform}
use libtimeseries.KeyPackage.{KeyPackage, kp_enabled_size}
use libtimeseries.Kafka.{or_err}
use libtimeseries.Proxy.{Proxy, maybe_flush, maybe_flush_stats, force_flush}
use libtimeseries.Proxy.Message.{Filter, handle_message}
use libtimeseries.Proxy.Timing.{IsReady}
use libtimeseries.Proxy.Turn.{maybe_flush_lem}
use libtimeseries.Proxy.Run.{
  Polled, nothing, message, partition_eof, other_error, Poll, Place, outer, inner, on_polled,
  outer_round, run_from, cleanup, run,
}
use libtimeseries.Proxy.Run.Settled.{
  IsDated, IsSettled, maybe_flush_stats-SameButStats, SameButStats-IsSettled, maybe_flush-IsSettled,
  handle_message-IsSettled,
}

-- A message that is polled is not of the time 0.
abbrev pub HasDate : Filter → Polled → Type 0
HasDate cfg nothing = Unit {0}
HasDate cfg (message payload) = IsDated cfg payload
HasDate cfg partition_eof = Unit {0}
HasDate cfg other_error = Unit {0}

-- The bytes of the messages.
abbrev pub polled_bytes : Polled → ℕ
polled_bytes nothing = 0
polled_bytes (message payload) = length payload
polled_bytes partition_eof = 0
polled_bytes other_error = 0

abbrev pub total_bytes : List Poll → ℕ
total_bytes [] = 0
total_bytes (e ∷ es) = total_bytes es + polled_bytes e.polled

module _ ⦃P : Platform⦄ {S : Type 0} where
  if-eq-done :
      {C : Type 0} (b : Bool) (m n : Outcome (Status × Proxy S)) {a : Status × Proxy S}
      → (m ≡ done a → C)
      → (n ≡ done a → C)
      → (if b then m else n) ≡ done a
      → C
  if-eq-done true m n h k = h
  if-eq-done false m n h k = k

  -- Where the loops end: with no room to spare, and with 0 only while there is no time.
  pub record IsEnded (rc : Status) (p : Proxy S) : Type 0 where
    pub settled : IsSettled 0 p
    pub timeless : rc ≡ success → p.current_time ≡ 0

  IsSettled-mono : (m n : ℕ) (p : Proxy S) → n ≤ m → IsSettled m p → IsSettled n p
  IsSettled-mono m n p le h = record {
    ready = h.ready;
    room = omega (arith, h.room, le);
    settled = h.settled;
  }

  ended : {a b : Status × Proxy S} → done a ≡ done b → IsEnded a.0 a.1 → IsEnded b.0 b.1
  ended e h = subst (λ (a : Status × Proxy S). IsEnded a.0 a.1) (done_inj e) h

  on_polled-IsEnded :
      (fuel n : ℕ) (cfg : Filter) (rest : Place → Proxy S → Outcome (Status × Proxy S))
      (shutdown : Bool) (eof : ℕ) (polled : Polled) (p p' : Proxy S) (rc : Status)
      → ((place : Place) (q : Proxy S)
          → IsSettled n q
          → rest place q ≡ done (rc, p')
          → IsEnded rc p')
      → HasDate cfg polled
      → IsSettled (n + polled_bytes polled) p
      → on_polled fuel cfg rest shutdown eof polled p ≡ done (rc, p')
      → IsEnded rc p'
  unfolding on_polled
  on_polled-IsEnded fuel n cfg rest shutdown eof nothing p p' rc later dated h run =
      later outer p (IsSettled-mono _ n p (omega arith) h) run
  on_polled-IsEnded fuel n cfg rest shutdown eof other_error p p' rc later dated h run =
      later (inner eof) p (IsSettled-mono _ n p (omega arith) h) run
  on_polled-IsEnded fuel n cfg rest shutdown eof partition_eof p p' rc later dated h run =
      let room = IsSettled-mono _ n p (omega arith) h in
      elim (Bool-cases (shutdown || leb 10 (eof + 1))) [
        | inl stop ↦ later outer p room (rw stop at run)
        | inr on ↦ later (inner (eof + 1)) p room (rw on at run)
      ]
  on_polled-IsEnded fuel n cfg rest shutdown eof (message payload) p p' rc later dated h run =
      let (a, handled, end) = bind-eq-done (handle_message fuel cfg payload p) _ run in
      by_status a handled end
    where
      by_status :
          (a : Status × Proxy S)
          → handle_message fuel cfg payload p ≡ done a
          → or_err (rest (inner 0)) (λ (left : Proxy S). left) a ≡ done (rc, p')
          → IsEnded rc p'
      by_status (failure, p₁) handled end =
          let settled = handle_message-IsSettled fuel n cfg payload p p₁ failure h dated handled in
          ended end
            (record { settled = IsSettled-mono n 0 p₁ (omega arith) settled; timeless = λ e. cc })
      by_status (success, p₁) handled end =
          later (inner 0) p₁
            (handle_message-IsSettled fuel n cfg payload p p₁ success h dated handled) end

  outer_round-IsEnded :
      (n : ℕ) (shutdown : Bool) (clock : ℕ) (next : Proxy S → Outcome (Status × Proxy S))
      (p p' : Proxy S) (rc : Status)
      → ((q : Proxy S) → IsSettled n q → next q ≡ done (rc, p') → IsEnded rc p')
      → IsSettled n p
      → outer_round shutdown clock next p ≡ done (rc, p')
      → IsEnded rc p'
  unfolding outer_round
  outer_round-IsEnded n shutdown clock next p p' rc later h run =
      let (a, flushed, end) = bind-eq-done (maybe_flush force_flush p) _ run in
      by_status a flushed end
    where
      by_shutdown :
          (b : Bool) (q : Proxy S)
          → IsSettled n q
          → q.current_time ≡ 0
          → (if b then done (success, q) else next q) ≡ done (rc, p')
          → IsEnded rc p'
      by_shutdown true q settled timeless end = ended end (record {
        settled = IsSettled-mono n 0 q (omega arith) settled;
        timeless = λ e. timeless;
      })
      by_shutdown false q settled timeless end = later q settled end

      by_status :
          (a : Status × Proxy S)
          → maybe_flush force_flush p ≡ done a
          → or_err
              (λ (flushed : Proxy S). maybe_flush_stats clock flushed >>= λ q.
                if shutdown then done (success, q) else next q)
              (λ (left : Proxy S). left)
              a
            ≡ done (rc, p')
          → IsEnded rc p'
      by_status (failure, p₁) flushed end = ended end (record {
        settled =
            IsSettled-mono n 0 p₁ (omega arith)
              (maybe_flush-IsSettled n force_flush p p₁ failure h flushed);
        timeless = λ e. cc;
      })
      by_status (success, p₁) flushed end =
          let (q, counted, end') = bind-eq-done (maybe_flush_stats clock p₁) _ end in
          let same = maybe_flush_stats-SameButStats clock p₁ q counted in
          by_shutdown shutdown q
            (SameButStats-IsSettled n p₁ q same
              (maybe_flush-IsSettled n force_flush p p₁ success h flushed))
            (same.current_time
              ∙ (maybe_flush_lem force_flush p p₁ success h.ready flushed).advanced refl)
            end'

  run_from-IsEnded :
      (fuel : ℕ) (cfg : Filter) (polls : List Poll) (place : Place) (p p' : Proxy S) (rc : Status)
      → All (λ (e : Poll). HasDate cfg e.polled) polls
      → IsSettled (total_bytes polls) p
      → run_from fuel cfg polls place p ≡ done (rc, p')
      → IsEnded rc p'
  unfolding run_from
  run_from-IsEnded fuel cfg [] place p p' rc dated h end = cc
  run_from-IsEnded fuel cfg (e ∷ es) outer p p' rc (dated, later) h end =
      outer_round-IsEnded (total_bytes es + polled_bytes e.polled) e.shutdown e.clock
        (on_polled fuel cfg (run_from fuel cfg es) e.shutdown_at_eof 0 e.polled) p p' rc
        (λ q settled.
          on_polled-IsEnded fuel (total_bytes es) cfg (run_from fuel cfg es) e.shutdown_at_eof 0
            e.polled q p' rc (λ place q'. run_from-IsEnded fuel cfg es place q' p' rc later) dated
            settled)
        h end
  run_from-IsEnded fuel cfg (e ∷ es) (inner eof) p p' rc (dated, later) h end =
      let next = on_polled fuel cfg (run_from fuel cfg es) e.shutdown_at_eof in
      let goes_on = λ (eof' : ℕ) (q : Proxy S) (settled : IsSettled _ q).
        on_polled-IsEnded fuel (total_bytes es) cfg (run_from fuel cfg es) e.shutdown_at_eof eof'
          e.polled q p' rc (λ place q'. run_from-IsEnded fuel cfg es place q' p' rc later) dated
          settled in
      if-eq-done e.shutdown (outer_round e.shutdown e.clock (next 0 e.polled) p)
        (maybe_flush_stats e.clock p >>= next eof e.polled)
        (outer_round-IsEnded _ e.shutdown e.clock (next 0 e.polled) p p' rc (goes_on 0) h)
        (λ stats.
          let (q, counted, end') = bind-eq-done (maybe_flush_stats e.clock p) _ stats in
          goes_on eof q
            (SameButStats-IsSettled _ p q (maybe_flush_stats-SameButStats e.clock p q counted) h)
            end')
        end

  -- Where no message that it polls is of the time 0 and there is room for their keys, `run` of a ready
  -- proxy in which no value waits without a time leaves a ready proxy, if it returns. If it returns 0, no
  -- value waits: the enabled keys have all been flushed.
  pub run_lem :
      (fuel : ℕ) (cfg : Filter) (polls : List Poll) (p p' : Proxy S) (rc : Status)
      → All (λ (e : Poll). HasDate cfg e.polled) polls
      → IsReady p
      → p.kp.key_infos_cnt + total_bytes polls < 2 ^ 31
      → (p.current_time ≡ 0 → kp_enabled_size p.kp ≡ 0)
      → run fuel cfg polls p ≡ done (rc, p')
      → IsReady p' × (rc ≡ success → kp_enabled_size p'.kp ≡ 0)
  unfolding run
  run_lem fuel cfg polls p p' rc dated ready room settled h =
      let ((rc₁, p₁), ran, cleaned) = bind-eq-done (run_from fuel cfg polls outer p) cleanup h in
      let end =
        run_from-IsEnded fuel cfg polls outer p p₁ rc₁ dated
          (record { ready = ready; room = room; settled = settled }) ran in
      let ((rc₂, p₂), flushed, same) = bind-eq-done (maybe_flush force_flush p₁) _ cleaned in
      let turned = maybe_flush_lem force_flush p₁ p₂ rc₂ end.settled.ready flushed in
      subst (λ (a : Status × Proxy S). IsReady a.1 × (a.0 ≡ success → kp_enabled_size a.1.kp ≡ 0))
        (done_inj same)
        (
          turned.ready,
          λ e.
              ap (λ (k : KeyPackage). kp_enabled_size k) (turned.unflushed (inl (end.timeless e))).1
              ∙ end.settled.settled (end.timeless e),
        )
