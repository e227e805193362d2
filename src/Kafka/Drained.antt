-- ===== src/Kafka/Drained.antt =====
-- lib/backends/timeseries_backend_kafka.c: how timeseries_backend_kafka_free waits for the queue.
use libtimeseries.Base.{
  ℕ, zero, suc, ◌-◌, ◌≤◌, ◌≡◌, ◌⊎◌, inl, inr, refl, ap, ◌∙◌, Bool, true, false, Option, none, some,
  ltb, ltb→le, ltb→lt, ◌<◌, if◌then◌else◌, arith, Outcome, done,
}
use libtimeseries.Kafka.Setup.{Client, KafkaState}
use libtimeseries.Kafka.Life.{
  KafkaBackend, drain, drained_queue, without_one_topic, without_one_producer, release, kafka_free,
}

module _ {B : Type 0} (client : Client B) where
  -- What this many polls of five seconds leave.
  abbrev pub after_polls : ℕ → B → B
  after_polls zero b = b
  after_polls (suc n) b = after_polls n (client.messages.poll b 5000).1

  -- After some polls the queue is empty, or all polls are used up; before each poll it was not empty.
  abbrev pub Drained : ℕ → B → B → Type 0
  Drained most b b' =
      (n : ℕ) × (b' ≡ after_polls n b)
      × (n ≤ most)
      × ((client.outq_len b' ≡ 0) ⊎ (n ≡ most))
      × ((m : ℕ) → m < n → 0 < client.outq_len (after_polls m b))

  drain-Drained : (most : ℕ) (b : B) → Drained most b (drain client most b)
  unfolding drain
  drain-Drained zero b = (0, refl, omega arith, inr refl, λ m h. absurd (omega (arith, h)))
  drain-Drained (suc most) b =
      by_queue (ltb 0 (client.outq_len b)) refl (drain-Drained most (client.messages.poll b 5000).1)
    where
      by_queue :
          (waiting : Bool)
          → ltb 0 (client.outq_len b) ≡ waiting
          → Drained most
              (client.messages.poll b 5000).1
              (drain client most (client.messages.poll b 5000).1)
          → Drained
              (suc most)
              b
              (if waiting then drain client most (client.messages.poll b 5000).1 else b)
      by_queue true e (n, at, le, end, full) =
          (suc n, at, omega arith, later end, full_before (ltb→lt 0 (client.outq_len b) e) full)
        where
          full_before :
              0 < client.outq_len b
              → ((m : ℕ)
                  → m < n
                  → 0 < client.outq_len (after_polls m (client.messages.poll b 5000).1))
              → (m : ℕ) → m < suc n
              → 0 < client.outq_len (after_polls m b)
          full_before now rest zero h = now
          full_before now rest (suc m) h = rest m (omega (arith, h))

          later :
              {b' : B}
              → (client.outq_len b' ≡ 0) ⊎ (n ≡ most)
              → (client.outq_len b' ≡ 0) ⊎ (suc n ≡ suc most)
          later (inl h) = inl h
          later (inr h) = inr (omega arith)
      by_queue false e rest = (
        0,
        refl,
        omega arith,
        inl (omega (arith, ltb→le 0 (client.outq_len b) e)),
        λ m h. absurd (omega (arith, h)),
      )

  -- timeseries_backend_kafka_free of a backend with its two handles returns with the state gone: it has
  -- polled once without waiting and then at most 12 times for five seconds, each time while messages waited,
  -- until none waited or the 12 polls were used up, and has destroyed the topic and then the producer of
  -- its handles.
  pub kafka_free_lem :
      (k : KafkaBackend B) (state : KafkaState)
      → k.state ≡ some state
      → state.rdk_conn ≡ true
      → state.rkt ≡ true
      → (b : B) × (kafka_free client k
          ≡ done (record k {
            state = none;
            broker = client.destroy (client.topic_destroy b);
            producers = k.producers - 1;
            topics = k.topics - 1;
          }))
        × ((n : ℕ) × (b ≡ after_polls n (client.messages.poll k.broker 0).1)
            × (n ≤ 12)
            × ((client.outq_len b ≡ 0) ⊎ (n ≡ 12))
            × ((m : ℕ)
                → m < n
                → 0 < client.outq_len (after_polls m (client.messages.poll k.broker 0).1)))
  kafka_free_lem k state at conn topic =
      let polled = (client.messages.poll k.broker 0).1 in
      (
        drain client 12 polled,
        unfold kafka_free in
            (ap freed at)
            ∙ ap done (
                unfold release in
                (unfold drained_queue in
                  (ap (λ c. without_handles c state.rkt) conn)
                  ∙ ap (λ t. without_handles true t) topic)),
        drain-Drained 12 polled,
      )
    where
      freed : Option KafkaState → Outcome (KafkaBackend B)
      freed o = elim o [
        | none ↦ done k
        | some s ↦ done (release client s (record k { state = none }))
      ]

      without_handles : Bool → Bool → KafkaBackend B
      without_handles rdk_conn rkt =
          let left = record k { state = none } in
          let drained = if rdk_conn then drained_queue client left else left in
          let without_topic = if rkt then without_one_topic client drained else drained in
          if rdk_conn then without_one_producer client without_topic else without_topic
