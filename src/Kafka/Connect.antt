-- ===== src/Kafka/Connect.antt =====
-- lib/backends/timeseries_backend_kafka.c: what producer_connect changes.
use libtimeseries.Base.{
  ℕ, suc, ◌+◌, ◌≤◌, ◌≡◌, refl, ap, arith, ◌∙◌, Bool, true, false, not, Option, some, Bytes, ◌==◌,
  if◌then◌else◌, done, ◌>>=◌, Status, success, failure,
}
use libtimeseries.Kafka.{error_callbacks}
use libtimeseries.Kafka.Setup.{
  Client, KafkaState, Link, set_confs, poll_errors, new_producer, if_configured, producer_connect,
  text_at,
}

-- The handle as a number of producers.
abbrev pub one_if : Bool → ℕ
one_if true = 1
one_if false = 0

module _ {B : Type 0} where
  -- The state apart from `connected`, `fatal_error` and `rdk_conn` is the same.
  pub record Kept (l l' : Link B) : Type 0 where
    pub connected : Bool
    pub fatal_error : Bool
    pub rdk_conn : Bool
    pub same :
        l'.state
        ≡ record l.state { connected = connected; fatal_error = fatal_error; rdk_conn = rdk_conn }

  Kept-broker : (l : Link B) (b : B) → Kept l (record l { broker = b })
  Kept-broker l b = record {
    connected = l.state.connected;
    fatal_error = l.state.fatal_error;
    rdk_conn = l.state.rdk_conn;
    same = refl;
  }

  pub Kept-trans : {l m n : Link B} → Kept l m → Kept m n → Kept l n
  Kept-trans h k = record {
    connected = k.connected;
    fatal_error = k.fatal_error;
    rdk_conn = k.rdk_conn;
    same =
        k.same
        ∙ ap
            (λ (s : KafkaState). record s {
              connected = k.connected;
              fatal_error = k.fatal_error;
              rdk_conn = k.rdk_conn;
            })
            h.same;
  }

  -- There is a producer, and no fatal error.
  pub record IsOpen (l : Link B) : Type 0 where
    pub handle : l.state.rdk_conn ≡ true
    pub no_error : l.state.fatal_error ≡ false

  -- An attempt to connect has not slept, and has opened a producer where it is a success. It has made no
  -- topic, and at most the producer of the handle.
  pub record Tried (l : Link B) (rc : Status) (l' : Link B) : Type 0 where
    pub kept : Kept l l'
    pub slept : l'.slept ≡ l.slept
    pub opened : rc ≡ success → IsOpen l'
    pub least : l.producers ≤ l'.producers
    pub most : l'.producers ≤ l.producers + one_if l'.state.rdk_conn
    pub made : rc ≡ success → l'.producers ≡ suc l.producers
    pub topics : l'.topics ≡ l.topics

  Tried-if :
      {l : Link B} (b : Bool) {x y : Status × Link B}
      → (b ≡ true → Tried l x.0 x.1)
      → (b ≡ false → Tried l y.0 y.1)
      → Tried l (if b then x else y).0 (if b then x else y).1
  Tried-if true h k = h refl
  Tried-if false h k = k refl

module _ {B : Type 0} (client : Client B) where
  poll_errors-Tried :
      (l m : Link B)
      → Kept l m
      → m.slept ≡ l.slept
      → m.state.rdk_conn ≡ true
      → m.producers ≡ suc l.producers
      → m.topics ≡ l.topics
      → Tried l (poll_errors client m).0 (poll_errors client m).1
  unfolding poll_errors
  poll_errors-Tried l m kept slept made one topics = record {
    kept =
        let polled = client.messages.poll m.broker 5000 in
        let flags = error_callbacks polled.0 (true, m.state.fatal_error) in
        Kept-trans kept (record {
          connected = flags.0;
          fatal_error = flags.1;
          rdk_conn = m.state.rdk_conn;
          same = refl;
        });
    slept = slept;
    opened = λ h. record { handle = made; no_error = not_fatal _ h };
    least = omega (arith, one);
    most = omega (arith, one, ap one_if made);
    made = λ h. one;
    topics = topics;
  }
    where
      not_fatal : (b : Bool) → (if b then failure else success) ≡ success → b ≡ false
      not_fatal true h = cc
      not_fatal false h = refl

  new_producer-Tried :
      (uri : Bytes) (l m : Link B)
      → Kept l m
      → m.slept ≡ l.slept
      → m.producers ≡ l.producers
      → m.topics ≡ l.topics
      → Tried l (new_producer client uri m).0 (new_producer client uri m).1
  unfolding new_producer
  new_producer-Tried uri l m kept slept same topics =
      let made = client.producer_new m.broker in
      let handled : KafkaState = record m.state { rdk_conn = made.0 } in
      let count : ℕ = if made.0 then suc m.producers else m.producers in
      let kept_handle : (b : B)
          → Kept l (record m { broker = b; state = handled; producers = count }) =
        λ b. Kept-trans kept (record {
          connected = m.state.connected;
          fatal_error = m.state.fatal_error;
          rdk_conn = made.0;
          same = refl;
        }) in
      let left : (b : B)
          → Tried l failure (record m { broker = b; state = handled; producers = count }) =
        λ b. record {
          kept = kept_handle b;
          slept = slept;
          opened = λ f. cc;
          least = at_least made.0;
          most = at_most made.0;
          made = λ f. cc;
          topics = topics;
        } in
      Tried-if (not made.0) (λ h. left _)
        (λ h.
          Tried-if ((client.brokers_add made.1 uri).0 == 0) (λ h'. left _)
            (λ h'.
              poll_errors-Tried l _ (kept_handle _) slept (is_made _ h) (one_more made.0 h) topics))
    where
      is_made : (b : Bool) → not b ≡ false → b ≡ true
      is_made true h = refl
      is_made false h = cc

      one_more :
          (b : Bool)
          → not b ≡ false
          → (if b then suc m.producers else m.producers) ≡ suc l.producers
      one_more true h = ap (λ n. suc n) same
      one_more false h = cc

      at_least : (b : Bool) → l.producers ≤ (if b then suc m.producers else m.producers)
      at_least true = omega (arith, same)
      at_least false = omega (arith, same)

      at_most : (b : Bool) → (if b then suc m.producers else m.producers) ≤ l.producers + one_if b
      at_most true = omega (arith, same)
      at_most false = omega (arith, same)

  if_configured-Tried :
      (uri : Bytes) (l : Link B) (conf : Status × B)
      → Tried l (if_configured client uri l conf).0 (if_configured client uri l conf).1
  if_configured-Tried uri l (failure, b) = record {
    kept = Kept-broker l b;
    slept = refl;
    opened = λ h. cc;
    least = omega arith;
    most = omega arith;
    made = λ h. cc;
    topics = refl;
  }
  if_configured-Tried uri l (success, b) =
      new_producer-Tried uri l (record l { broker = b }) (Kept-broker l b) refl refl refl

  pub producer_connect-Tried :
      (l : Link B) (uri : Bytes)
      → l.state.broker_uri ≡ some uri
      → (a : Status × Link B) × (producer_connect client l ≡ done a) × Tried l a.0 a.1
  unfolding producer_connect
  producer_connect-Tried l uri e = (
    if_configured client uri l (set_confs client l.state.compression_codec l.broker),
    ap
        (λ (o : Option Bytes). text_at o >>= λ u.
          done (if_configured client u l (set_confs client l.state.compression_codec l.broker)))
        e,
    if_configured-Tried uri l _,
  )
