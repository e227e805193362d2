-- ===== src/Kafka/Backoff.antt =====
-- lib/backends/timeseries_backend_kafka.c: the loop of kafka_connect, and how long it sleeps.
use libtimeseries.Base.{
  ℕ, zero, suc, ◌+◌, ◌≤◌, ◌≡◌, refl, sym, ap, ◌∙◌, Bool, true, false, not, ◌&&◌, some, List, [],
  ◌∷◌, ◌++◌, append_assoc, append-nil, Bytes, take, ltb, lt→ltb, if◌then◌else◌, arith, Outcome,
  done, ◌>>=◌, Status, success, failure,
}
use libtimeseries.Kafka.{or_err}
use libtimeseries.Kafka.Setup.{
  Client, KafkaState, Link, next_wait, pause, producer_connect, connect_loop,
}
use libtimeseries.Kafka.Connect.{Kept, Kept-trans, IsOpen, one_if, Tried, producer_connect-Tried}

-- The seconds of the sleeps of kafka_connect with this many tries left, where none connects.
unfoldable pub waits : ℕ → ℕ → List ℕ
waits zero wait = []
waits (suc zero) wait = []
waits (suc (suc retries)) wait = wait ∷ waits (suc retries) (next_wait wait)

module _ {B : Type 0} where
  -- The loop of kafka_connect has slept for the first of `ws`. It has made a producer before each sleep,
  -- and at most one more, that of the handle; it has destroyed none, and made no topic.
  pub record Looped (l : Link B) (ws : List ℕ) (rc : Status) (l' : Link B) : Type 0 where
    pub kept : Kept l l'
    pub n : ℕ
    pub slept : l'.slept ≡ l.slept ++ take n ws
    pub least : l.producers + n ≤ l'.producers
    pub most : l'.producers ≤ l.producers + n + one_if l'.state.rdk_conn
    pub made : rc ≡ success → l'.producers ≡ suc (l.producers + n)
    pub topics : l'.topics ≡ l.topics
    pub opened : rc ≡ success → l'.state.connected ≡ true → IsOpen l'

  -- Two tries one after the other, with a sleep between them.
  Looped-later :
      {l m l' : Link B} {rc : Status} {ws : List ℕ} (wait : ℕ)
      → Kept l m
      → m.slept ≡ l.slept
      → m.producers ≡ suc l.producers
      → m.topics ≡ l.topics
      → Looped (record m { slept = m.slept ++ (wait ∷ []) }) ws rc l'
      → Looped l (wait ∷ ws) rc l'
  Looped-later {l} {m} {l'} {rc} {ws} wait kept same one topics h = record {
    kept = Kept-trans kept (record {
      connected = h.kept.connected;
      fatal_error = h.kept.fatal_error;
      rdk_conn = h.kept.rdk_conn;
      same = h.kept.same;
    });
    n = suc h.n;
    slept = h.slept ∙ onto (take h.n ws);
    least = omega (arith, h.least, one);
    most = omega (arith, h.most, one);
    made = λ e. omega (arith, h.made e, one);
    topics = h.topics ∙ topics;
    opened = h.opened;
  }
    where
      onto : (xs : List ℕ) → (m.slept ++ (wait ∷ [])) ++ xs ≡ l.slept ++ (wait ∷ xs)
      onto xs = append_assoc m.slept (wait ∷ []) xs ∙ ap (λ ys. ys ++ (wait ∷ xs)) same

  -- The first try was the last.
  Looped-Tried : {l m : Link B} {rc : Status} (ws : List ℕ) → Tried l rc m → Looped l ws rc m
  Looped-Tried {l} ws h = record {
    kept = h.kept;
    n = 0;
    slept = h.slept ∙ sym (append-nil l.slept);
    least = omega (arith, h.least);
    most = omega (arith, h.most);
    made = λ e. omega (arith, h.made e);
    topics = h.topics;
    opened = λ e c. h.opened e;
  }

module _ {B : Type 0} where
  abbrev pause_if : ℕ → ℕ → Link B → Bool → ℕ × Link B
  pause_if retries wait m connected =
      if not connected && ltb 0 retries
      then (next_wait wait, record m { slept = m.slept ++ (wait ∷ []) })
      else (wait, m)

  pause-connected :
      (retries wait : ℕ) (m : Link B) → m.state.connected ≡ true → pause retries wait m ≡ (wait, m)
  pause-connected retries wait m on = unfold pause in (ap (pause_if retries wait m) on)

  pause-not_connected :
      (retries wait : ℕ) (m : Link B)
      → m.state.connected ≡ false
      → pause (suc retries) wait m ≡ (next_wait wait, record m { slept = m.slept ++ (wait ∷ []) })
  pause-not_connected retries wait m off =
      unfold pause in
      (ap (pause_if (suc retries) wait m) off)
      ∙ ap
          (λ (b : Bool).
            if b then (next_wait wait, record m { slept = m.slept ++ (wait ∷ []) }) else (wait, m))
          (lt→ltb 0 (suc retries) (omega arith))

  pause-last : (wait : ℕ) (m : Link B) → m.state.connected ≡ false → pause zero wait m ≡ (wait, m)
  pause-last wait m off = unfold pause in (ap (pause_if zero wait m) off)

module _ {B : Type 0} (client : Client B) where
  -- What the loop of kafka_connect does behind an attempt.
  abbrev next_round : ℕ → ℕ → Status × Link B → Outcome (Status × Link B)
  next_round retries wait =
      or_err
        (λ (made : Link B).
          connect_loop client retries (pause retries wait made).0 (pause retries wait made).1)
        (λ (left : Link B). left)

  connect_loop-try :
      (retries wait : ℕ) (l : Link B) {a : Status × Link B}
      → l.state.connected ≡ false
      → producer_connect client l ≡ done a
      → connect_loop client (suc retries) wait l ≡ next_round retries wait a
  connect_loop-try retries wait l off ran =
      unfold connect_loop in
      (ap
        (λ (b : Bool).
          if b then done (success, l) else (producer_connect client l >>= next_round retries wait))
        off)
      ∙ ap (λ (o : Outcome (Status × Link B)). o >>= next_round retries wait) ran

  connect_loop-connected :
      (retries wait : ℕ) (l : Link B)
      → l.state.connected ≡ true
      → connect_loop client retries wait l ≡ done (success, l)
  unfolding connect_loop
  connect_loop-connected zero wait l on = refl
  connect_loop-connected (suc retries) wait l on = rw on refl

  next_round-connected :
      (retries wait : ℕ) (m : Link B)
      → m.state.connected ≡ true
      → next_round retries wait (success, m) ≡ done (success, m)
  next_round-connected retries wait m on =
      ap (λ (p : ℕ × Link B). connect_loop client retries p.0 p.1)
        (pause-connected retries wait m on)
      ∙ connect_loop-connected retries wait m on

  next_round-not_connected :
      (retries wait : ℕ) (m : Link B)
      → m.state.connected ≡ false
      → next_round (suc retries) wait (success, m)
        ≡ connect_loop client
            (suc retries)
            (next_wait wait)
            (record m { slept = m.slept ++ (wait ∷ []) })
  next_round-not_connected retries wait m off =
      ap (λ (p : ℕ × Link B). connect_loop client (suc retries) p.0 p.1)
        (pause-not_connected retries wait m off)

  next_round-last : (wait : ℕ) (a : Status × Link B) → next_round zero wait a ≡ done a
  next_round-last wait (failure, m) = refl
  next_round-last wait (success, m) = by_connected m.state.connected refl
    where
      by_connected :
          (b : Bool) → m.state.connected ≡ b → next_round zero wait (success, m) ≡ done (success, m)
      by_connected true e = next_round-connected zero wait m e
      by_connected false e =
          unfold connect_loop in
          (ap (λ (p : ℕ × Link B). ◌>>=◌ {B = Status × Link B} (done (success, p.1)) done)
            (pause-last wait m e))

  -- The loop ends.
  abbrev Ends : ℕ → ℕ → Link B → Type 0
  Ends retries wait l =
      (a : Status × Link B) × (connect_loop client retries wait l ≡ done a)
      × Looped l (waits retries wait) a.0 a.1

  pub connect_loop-Looped :
      (retries wait : ℕ) (l : Link B) (uri : Bytes)
      → l.state.broker_uri ≡ some uri
      → l.state.connected ≡ false
      → Ends (suc retries) wait l
  connect_loop-Looped zero wait l uri e off =
      let (a, ran, tried) = producer_connect-Tried client l uri e in
      (a, connect_loop-try zero wait l off ran ∙ next_round-last wait a, Looped-Tried _ tried)
  connect_loop-Looped (suc retries) wait l uri e off =
      let (a, ran, tried) = producer_connect-Tried client l uri e in
      by_try a (connect_loop-try (suc retries) wait l off ran) tried
        (λ m same. connect_loop-Looped retries (next_wait wait) m uri same)
    where
      by_connected :
          (m : Link B)
          → connect_loop client (suc (suc retries)) wait l
            ≡ next_round (suc retries) wait (success, m)
          → Tried l success m
          → ((m' : Link B)
              → m'.state.broker_uri ≡ some uri
              → m'.state.connected ≡ false
              → Ends (suc retries) (next_wait wait) m')
          → (b : Bool) → m.state.connected ≡ b
          → Ends (suc (suc retries)) wait l
      by_connected m run tried later true on =
          ((success, m), run ∙ next_round-connected (suc retries) wait m on, Looped-Tried _ tried)
      by_connected m run tried later false off' =
          let (a, ran, looped) =
            later (record m { slept = m.slept ++ (wait ∷ []) })
              (ap (λ (s : KafkaState). s.broker_uri) tried.kept.same ∙ e) off' in
          (
            a,
            run ∙ next_round-not_connected retries wait m off' ∙ ran,
            unfold waits in
                (Looped-later wait tried.kept tried.slept (tried.made refl) tried.topics looped),
          )

      by_try :
          (a : Status × Link B)
          → connect_loop client (suc (suc retries)) wait l ≡ next_round (suc retries) wait a
          → Tried l a.0 a.1
          → ((m' : Link B)
              → m'.state.broker_uri ≡ some uri
              → m'.state.connected ≡ false
              → Ends (suc retries) (next_wait wait) m')
          → Ends (suc (suc retries)) wait l
      by_try (failure, m) run tried later = ((failure, m), run, Looped-Tried _ tried)
      by_try (success, m) run tried later = by_connected m run tried later m.state.connected refl
