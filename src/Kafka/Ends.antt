-- ===== src/Kafka/Ends.antt =====
-- lib/backends/timeseries_backend_kafka.c: kafka_connect returns.
use libtimeseries.Base.{
  ℕ, suc, ◌+◌, ◌≤◌, arith, ◌≡◌, refl, ap, ◌∙◌, Bool, true, false, some, [], ◌∷◌, ◌++◌, Bytes,
  length, take, ltb, if◌then◌else◌, Outcome, done, ◌>>=◌, ◌>>◌, Status, success, failure, assert,
}
use libtimeseries.Kafka.{or_err}
use libtimeseries.Kafka.Setup.{
  Client, KafkaState, Link, has_partitioner, new_topic, topic_connect, if_connected, kafka_connect,
}
use libtimeseries.Kafka.Connect.{one_if}
use libtimeseries.Kafka.Backoff.{waits, Looped, connect_loop-Looped}
use libtimeseries.Kafka.Opened.{
  IsConnected, topic_text, printed, at_topic, kafka_connect-IsConnected,
}

pub to_success :
    {B : Type 0} (rc : Status) (l : Link B)
    → rc ≡ success
    → ◌≡◌ {A = Outcome (Status × Link B)} (done (rc, l)) (done (success, l))
to_success rc l h = cc

module _ {B : Type 0} where
  -- The topics behind a call that has made one where it is a success.
  abbrev pub Topics : Status → Link B → Link B → Type 0
  Topics success l l' = l'.topics ≡ suc l.topics
  Topics failure l l' = (l'.topics ≡ l.topics) × (l'.state.rkt ≡ false)

  -- A call that has not slept and leaves the producers; where there was no topic, it has made one if it
  -- is a success.
  record Topped (l : Link B) (rc : Status) (l' : Link B) : Type 0 where
    slept : l'.slept ≡ l.slept
    producers : l'.producers ≡ l.producers
    rdk_conn : l'.state.rdk_conn ≡ l.state.rdk_conn
    topics : l.state.rkt ≡ false → Topics rc l l'

  -- The handles behind kafka_connect with this number of sleeps: a producer has been made before each
  -- sleep and at most one more, that of the handle, and on success there is one more topic.
  pub record Handles (l : Link B) (n : ℕ) (rc : Status) (l' : Link B) : Type 0 where
    pub least : l.producers + n ≤ l'.producers
    pub most : l'.producers ≤ l.producers + n + one_if l'.state.rdk_conn
    pub made : rc ≡ success → l'.producers ≡ suc (l.producers + n)
    pub topics : l.state.rkt ≡ false → Topics rc l l'

  Topped-if :
      {l : Link B} (b : Bool) {x y : Status × Link B}
      → (b ≡ true → Topped l x.0 x.1)
      → (b ≡ false → Topped l y.0 y.1)
      → Topped l (if b then x else y).0 (if b then x else y).1
  Topped-if true h k = h refl
  Topped-if false h k = k refl

  Topped-same :
      (l l' : Link B)
      → l'.slept ≡ l.slept
      → l'.producers ≡ l.producers
      → l'.topics ≡ l.topics
      → l'.state.rdk_conn ≡ l.state.rdk_conn
      → l'.state.rkt ≡ l.state.rkt
      → Topped l failure l'
  Topped-same l l' s p t c r = record {
    slept = s;
    producers = p;
    rdk_conn = c;
    topics = λ e. (t, r ∙ e);
  }

module _ {B : Type 0} (client : Client B) where
  -- A call that returns, with a topic where it is a success.
  abbrev Returns : Link B → Outcome (Status × Link B) → Type 0
  Returns l ran = (a : Status × Link B) × (ran ≡ done a) × Topped l a.0 a.1

  new_topic-Topped :
      (l : Link B) (text : Bytes)
      → Topped l
          (new_topic client (printed client l text)).0
          (new_topic client (printed client l text)).1
  unfolding new_topic
  new_topic-Topped l text =
      Topped-if l.state.rkt
        (λ e. record { slept = refl; producers = refl; rdk_conn = refl; topics = λ f. cc })
        (λ e. record {
          slept = refl;
          producers = refl;
          rdk_conn = refl;
          topics = λ f. made (
              client.topic_new (printed client l text).broker
                (printed client l text).state.topic_name (has_partitioner l.state.format));
        })
    where
      made :
          (topic : Bool × B)
          → Topics (if topic.0 then success else failure) l (record (printed client l text) {
            broker = topic.1;
            state = record (printed client l text).state { rkt = topic.0 };
            topics = if topic.0 then suc l.topics else l.topics;
          })
      made (true, b) = refl
      made (false, b) = (refl, refl)

  topic_connect-Returns :
      (l : Link B) → (client.topic_conf_new l.broker).0 ≡ true → Returns l (topic_connect client l)
  topic_connect-Returns l made = (
    at_topic client l (topic_text l),
    unfold topic_connect in
        (ap (λ (b : Bool). assert b >> done (at_topic client l (topic_text l))) made),
    Topped-if (ltb (length (topic_text l)) 1024) (λ e. new_topic-Topped l (topic_text l))
        (λ e. Topped-same l (printed client l (topic_text l)) refl refl refl refl refl),
  )

  if_connected-Returns :
      (l : Link B) → Returns l (topic_connect client l) → Returns l (if_connected client l)
  if_connected-Returns l topic = unfold if_connected in (by_connected l.state.connected)
    where
      by_connected :
          (b : Bool) → Returns l (if b then topic_connect client l else done (failure, l))
      by_connected true = topic
      by_connected false = ((failure, l), refl, Topped-same l l refl refl refl refl refl)

  -- kafka_connect returns, after the first of the sleeps, with these handles.
  abbrev Connects : Link B → Status → Link B → Type 0
  Connects l rc l' =
      (n : ℕ) × (l'.slept ≡ l.slept ++ take n (10 ∷ 20 ∷ 40 ∷ 80 ∷ 160 ∷ 180 ∷ 180 ∷ []))
      × Handles l n rc l'

  Connects-Topped :
      {l m : Link B} {rc : Status} {l' : Link B}
      → Looped l (waits 8 10) success m
      → Topped m rc l'
      → Connects l rc l'
  Connects-Topped {l} {m} {rc} {l'} looped t = (
    looped.n,
    t.slept ∙ (unfold waits in looped.slept),
    record {
      least = omega (arith, looped.least, t.producers);
      most = omega (arith, looped.most, t.producers, ap one_if t.rdk_conn);
      made = λ e. t.producers ∙ looped.made refl;
      topics = λ e.
          same_topics rc (t.topics (ap (λ (s : KafkaState). s.rkt) looped.kept.same ∙ e))
            looped.topics;
    },
  )
    where
      same_topics : (rc : Status) → Topics rc m l' → m.topics ≡ l.topics → Topics rc l l'
      same_topics success h e = h ∙ ap (λ n. suc n) e
      same_topics failure h e = (h.0 ∙ e, h.1)

  -- Where rd_kafka_topic_conf_new always gives a configuration, and the brokers are given, kafka_connect
  -- of a backend that is not connected returns, after a run of the sleeps 10, 20, 40, 80, 160, 180 and
  -- 180 seconds from the first on. It has made a producer before each sleep and at most one more, that of
  -- the handle. If it returns 0, the backend is connected without a fatal error and its topic, of a name
  -- that fits, has been made.
  pub kafka_connect_total :
      (l : Link B) (uri : Bytes)
      → ((b : B) → (client.topic_conf_new b).0 ≡ true)
      → l.state.broker_uri ≡ some uri
      → l.state.connected ≡ false
      → (rc : Status) × (l' : Link B) × (kafka_connect client l ≡ done (rc, l'))
        × ((n : ℕ) × (l'.slept ≡ l.slept ++ take n (10 ∷ 20 ∷ 40 ∷ 80 ∷ 160 ∷ 180 ∷ 180 ∷ []))
            × Handles l n rc l')
        × (rc ≡ success → IsConnected l l')
  kafka_connect_total l uri conf e off =
      let (a, ran, looped) = connect_loop-Looped client 7 10 l uri e off in
      by_loop a looped (
        unfold kafka_connect in
        (ap (λ o. o >>= or_err (if_connected client) (λ (left : Link B). left)) ran))
    where
      Result : Type 0
      Result =
          (rc : Status) × (l' : Link B) × (kafka_connect client l ≡ done (rc, l'))
          × Connects l rc l'
          × (rc ≡ success → IsConnected l l')

      finish : (a : Status × Link B) → kafka_connect client l ≡ done a → Connects l a.0 a.1 → Result
      finish (rc, l') run connects = (
        rc,
        l',
        run,
        connects,
        λ h. kafka_connect-IsConnected client l l' uri e off (run ∙ to_success rc l' h),
      )

      by_loop :
          (a : Status × Link B)
          → Looped l (waits 8 10) a.0 a.1
          → kafka_connect client l ≡ or_err (if_connected client) (λ (left : Link B). left) a
          → Result
      by_loop (failure, m) looped run =
          finish (failure, m) run
            (
              looped.n,
              unfold waits in looped.slept,
              record {
                least = looped.least;
                most = looped.most;
                made = λ h. cc;
                topics = λ f. (looped.topics, ap (λ (s : KafkaState). s.rkt) looped.kept.same ∙ f);
              },
            )
      by_loop (success, m) looped run =
          let (a, ended, topped) =
            if_connected-Returns m (topic_connect-Returns m (conf m.broker)) in
          finish a (run ∙ ended) (Connects-Topped looped topped)
