-- ===== src/Kafka/Opened.antt =====
-- lib/backends/timeseries_backend_kafka.c: what kafka_connect and timeseries_backend_kafka_init leave.
use libtimeseries.Base.{
  ◌-◌, ◌<◌, ◌≡◌, refl, sym, ap, ◌∙◌, Bool, true, false, some, ◌∷◌, ◌++◌, Bytes, length, take, ltb,
  ltb→lt, if◌then◌else◌, arith, done, ◌>>=◌, Status, success, failure, assert, bind-eq-done,
  done_inj, take-all,
}
use libtimeseries.Kafka.{or_err}
use libtimeseries.Kafka.Setup.{
  Client, Link, identity_max_len, printed_text, new_topic, topic_connect, if_connected,
  kafka_connect,
}
use libtimeseries.Kafka.Connect.{Kept, IsOpen}
use libtimeseries.Kafka.Backoff.{waits, Looped, connect_loop-Looped}

module _ {B : Type 0} where
  -- What topic_connect prints of the prefix and the channel.
  abbrev pub topic_text : Link B → Bytes
  topic_text l = printed_text l.state.topic_prefix ++ (46 ∷ printed_text l.state.channel_name)

  -- The topic of the prefix and the channel, which has been made for the connection `l`.
  pub record HasTopic (l l' : Link B) : Type 0 where
    pub short : length (topic_text l) < identity_max_len
    pub same : l'.state ≡ record l.state { topic_name = topic_text l; rkt = true }

  -- What holds on success of either branch.
  pub if-success :
      (P : Link B → Type 0) (b : Bool) {x y : Status × Link B}
      → (b ≡ true → x.0 ≡ success → P x.1)
      → (b ≡ false → y.0 ≡ success → P y.1)
      → (if b then x else y).0 ≡ success
      → P (if b then x else y).1
  if-success P true h k = h refl
  if-success P false h k = k refl

  -- The backend is connected and has its topic; of the rest only the handle has changed since `l`.
  pub record IsConnected (l l' : Link B) : Type 0 where
    pub producer : Link B
    pub kept : Kept l producer
    pub opened : IsOpen producer
    pub connected : producer.state.connected ≡ true
    pub topic : HasTopic producer l'

module _ {B : Type 0} (client : Client B) where
  abbrev pub printed : Link B → Bytes → Link B
  printed l text = record l {
    broker = (client.topic_conf_new l.broker).1;
    state = record l.state { topic_name = take (identity_max_len - 1) text };
  }

  -- topic_connect from snprintf on
  abbrev pub at_topic : Link B → Bytes → Status × Link B
  at_topic l text =
      if ltb (length text) identity_max_len
      then new_topic client (printed l text)
      else (failure, printed l text)

  new_topic-success :
      (l : Link B)
      → (new_topic client l).0 ≡ success
      → (new_topic client l).1.state ≡ record l.state { rkt = true }
  unfolding new_topic
  new_topic-success l =
      if-success (λ (l' : Link B). l'.state ≡ record l.state { rkt = true }) l.state.rkt
        (λ e h. ap (λ b. record l.state { rkt = b }) e)
        (λ e h. ap (λ b. record l.state { rkt = b }) (made _ h))
    where
      made : (b : Bool) → (if b then success else failure) ≡ success → b ≡ true
      made true h = refl
      made false h = cc

  at_topic-success :
      (l : Link B) (text : Bytes)
      → (at_topic l text).0 ≡ success
      → (length text < identity_max_len)
        × ((at_topic l text).1.state ≡ record l.state { topic_name = text; rkt = true })
  at_topic-success l text =
      if-success
        (λ (l' : Link B).
          (length text < identity_max_len)
          × (l'.state ≡ record l.state { topic_name = text; rkt = true }))
        (ltb (length text) identity_max_len)
        (λ e h.
          let short = ltb→lt (length text) identity_max_len e in
          (
            short,
            new_topic-success (printed l text) h
                ∙ ap (λ (name : Bytes). record l.state { topic_name = name; rkt = true })
                    (take-all text (identity_max_len - 1) (omega arith)),
          ))
        (λ e h. cc)

  topic_connect-success :
      (l l' : Link B) → topic_connect client l ≡ done (success, l') → HasTopic l l'
  unfolding topic_connect
  topic_connect-success l l' h =
      let (u, _, h1) = bind-eq-done (assert (client.topic_conf_new l.broker).0) _ h in
      let ended : at_topic l (topic_text l) ≡ (success, l') = done_inj h1 in
      let (short, same) =
        at_topic-success l (topic_text l) (ap (λ (a : Status × Link B). a.0) ended) in
      record { short = short; same = sym (ap (λ (a : Status × Link B). a.1.state) ended) ∙ same }

  if_connected-success :
      (l l' : Link B)
      → if_connected client l ≡ done (success, l')
      → (l.state.connected ≡ true) × HasTopic l l'
  unfolding if_connected
  if_connected-success l l' = by_connected l.state.connected refl
    where
      by_connected :
          (b : Bool)
          → l.state.connected ≡ b
          → (if b then topic_connect client l else done (failure, l)) ≡ done (success, l')
          → (l.state.connected ≡ true) × HasTopic l l'
      by_connected true e h = (e, topic_connect-success l l' h)
      by_connected false e h = cc

  -- Where kafka_connect succeeds, the backend is connected, with a topic.
  pub kafka_connect-IsConnected :
      (l l' : Link B) (uri : Bytes)
      → l.state.broker_uri ≡ some uri
      → l.state.connected ≡ false
      → kafka_connect client l ≡ done (success, l')
      → IsConnected l l'
  unfolding kafka_connect
  kafka_connect-IsConnected l l' uri e off h =
      let (a, ran, looped) = connect_loop-Looped client 7 10 l uri e off in
      by_loop a looped (sym (ap (λ o. o >>= or_err (if_connected client) (λ left. left)) ran) ∙ h)
    where
      by_loop :
          (a : Status × Link B)
          → Looped l (waits 8 10) a.0 a.1
          → or_err (if_connected client) (λ (left : Link B). left) a ≡ done (success, l')
          → IsConnected l l'
      by_loop (failure, m) looped h = cc
      by_loop (success, m) looped h =
          let (on, topic) = if_connected-success m l' h in
          record {
            producer = m;
            kept = looped.kept;
            opened = looped.opened refl on;
            connected = on;
            topic = topic;
          }
