-- ===== src/Kafka/Ready.antt =====
-- lib/backends/timeseries_backend_kafka.c: what holds where timeseries_backend_kafka_init returns.
use mathlib.Core.Path.{subst}
use libtimeseries.Base.{
  ◌<◌, if◌then◌else◌, ◌≡◌, refl, sym, ap, ◌∙◌, Bool, true, false, Option, none, some, List, [], ◌∷◌,
  ◌++◌, Bytes, length, done, Status, success, failure, bind-eq-done, done_inj,
}
use libtimeseries.Getopt.{getopt}
use libtimeseries.Kafka.Setup.{
  Client, KafkaState, Link, printed_text, fresh_state, parse_opts, parse_args, optstring,
  kafka_connect,
}
use libtimeseries.Kafka.Life.{
  KafkaBackend, name_of, linked, after_link, kafka_free, drained_queue, without_one_topic,
  without_one_producer, release, or_free, if_parsed, kafka_init,
}
use libtimeseries.Kafka.Opened.{IsConnected, kafka_connect-IsConnected}
use libtimeseries.Kafka.Ends.{to_success}
use libtimeseries.Kafka.Arguments.{IsFresh, HasArgs, parse_opts-IsFresh, parse_opts-HasArgs}

-- The state of a backend that is connected, with what kafka_init has read from its arguments.
pub record IsReady (state : KafkaState) : Type 0 where
  pub channel_name : Bytes
  pub channel_given : state.channel_name ≡ some channel_name
  pub name_len : state.channel_name_len ≡ length channel_name
  pub topic_name : state.topic_name ≡ printed_text state.topic_prefix ++ (46 ∷ channel_name)
  pub short : length (printed_text state.topic_prefix ++ (46 ∷ channel_name)) < 1024
  pub connected : state.connected ≡ true
  pub no_error : state.fatal_error ≡ false
  pub rdk_conn : state.rdk_conn ≡ true
  pub rkt : state.rkt ≡ true
  pub buffer : state.buffer ≡ []

-- The topic prefix that the arguments give.
abbrev pub prefix_of : List Bytes → Option Bytes
prefix_of [] = none
prefix_of (name ∷ argv) = (parse_opts (getopt optstring none argv) fresh_state).1.topic_prefix

module _ {B : Type 0} where
  -- What kafka_init returns.
  pub record Initialised (topic_prefix : Option Bytes) (k : KafkaBackend B) (rc : Status)
      (k' : KafkaBackend B) : Type 0 where
    pub sent : k'.sent ≡ k.sent
    pub ready :
        rc ≡ success
        → (state : KafkaState) × (k'.state ≡ some state)
          × (state.topic_prefix ≡ topic_prefix)
          × IsReady state

module _ {B : Type 0} (client : Client B) where
  connected-IsReady :
      (l l' : Link B)
      → IsFresh l.state
      → HasArgs l.state
      → IsConnected l l'
      → (l'.state.topic_prefix ≡ l.state.topic_prefix) × IsReady l'.state
  connected-IsReady l l' fresh args h =
      let t = h.topic in
      let named : h.producer.state.channel_name ≡ some args.channel_name =
        ap (λ (s : KafkaState). s.channel_name) h.kept.same ∙ args.channel_given in
      let text : (p : Option Bytes)
          → printed_text p ++ (46 ∷ printed_text h.producer.state.channel_name)
            ≡ printed_text p ++ (46 ∷ args.channel_name) =
        λ p. ap (λ (o : Option Bytes). printed_text p ++ (46 ∷ printed_text o)) named in
      let prefix = ap (λ (s : KafkaState). s.topic_prefix) t.same in
      (
        prefix ∙ ap (λ (s : KafkaState). s.topic_prefix) h.kept.same,
        record {
          channel_name = args.channel_name;
          channel_given = ap (λ (s : KafkaState). s.channel_name) t.same ∙ named;
          name_len =
              ap (λ (s : KafkaState). s.channel_name_len) t.same
              ∙ ap (λ (s : KafkaState). s.channel_name_len) h.kept.same
              ∙ fresh.name_len
              ∙ ap (λ (o : Option Bytes). length (name_of o)) args.channel_given;
          topic_name =
              ap (λ (s : KafkaState). s.topic_name) t.same
              ∙ text h.producer.state.topic_prefix
              ∙ ap (λ (p : Option Bytes). printed_text p ++ (46 ∷ args.channel_name)) (sym prefix);
          short =
              subst (λ n. n < 1024)
                (ap (λ (b : Bytes). length b)
                  (text h.producer.state.topic_prefix
                    ∙ ap (λ (p : Option Bytes). printed_text p ++ (46 ∷ args.channel_name))
                        (sym prefix)))
                t.short;
          connected = ap (λ (s : KafkaState). s.connected) t.same ∙ h.connected;
          no_error = ap (λ (s : KafkaState). s.fatal_error) t.same ∙ h.opened.no_error;
          rdk_conn = ap (λ (s : KafkaState). s.rdk_conn) t.same ∙ h.opened.handle;
          rkt = ap (λ (s : KafkaState). s.rkt) t.same;
          buffer =
              ap (λ (s : KafkaState). s.buffer) t.same
              ∙ ap (λ (s : KafkaState). s.buffer) h.kept.same
              ∙ fresh.buffer;
        },
      )

  -- timeseries_backend_kafka_free, with whether the handles are there.
  abbrev pub released : Bool → Bool → KafkaBackend B → KafkaBackend B
  released rdk_conn rkt k =
      let drained = if rdk_conn then drained_queue client k else k in
      let without_topic = if rkt then without_one_topic client drained else drained in
      if rdk_conn then without_one_producer client without_topic else without_topic

  released-sent :
      (rdk_conn rkt : Bool) (k : KafkaBackend B) → (released rdk_conn rkt k).sent ≡ k.sent
  unfolding drained_queue
  released-sent true true k = refl
  released-sent true false k = refl
  released-sent false true k = refl
  released-sent false false k = refl

  abbrev pub freed : KafkaBackend B → Link B → KafkaBackend B
  freed k l = release client l.state (record (after_link k l) { state = none })

  pub or_free-failure :
      (k : KafkaBackend B) (l : Link B) → or_free client k (failure, l) ≡ done (failure, freed k l)
  unfolding or_free kafka_free
  or_free-failure k l = refl

  or_free-Initialised :
      (p : Option Bytes) (k : KafkaBackend B) (a : Status × Link B)
      → (a.0 ≡ success → (a.1.state.topic_prefix ≡ p) × IsReady a.1.state)
      → (b : Status × KafkaBackend B) → or_free client k a ≡ done b
      → Initialised p k b.0 b.1
  unfolding or_free
  or_free-Initialised p k (success, l) ready b h =
      subst (λ (b : Status × KafkaBackend B). Initialised p k b.0 b.1) (done_inj h)
        (record {
          sent = refl;
          ready = λ e. let (p_same, is_ready) = ready refl in (l.state, refl, p_same, is_ready);
        })
  or_free-Initialised p k (failure, l) ready b h =
      subst (λ (b : Status × KafkaBackend B). Initialised p k b.0 b.1)
        (done_inj (sym (or_free-failure k l) ∙ h))
        (record {
          sent =
              unfold release in
              (released-sent l.state.rdk_conn l.state.rkt
                (record (after_link k l) { state = none }));
          ready = λ e. cc;
        })

  if_parsed-Initialised :
      (k : KafkaBackend B) (parsed : Status × KafkaState)
      → IsFresh parsed.1
      → (parsed.0 ≡ success → HasArgs parsed.1)
      → (b : Status × KafkaBackend B) → if_parsed client k parsed ≡ done b
      → Initialised parsed.1.topic_prefix k b.0 b.1
  if_parsed-Initialised k (failure, state) fresh args b h =
      subst (λ (b : Status × KafkaBackend B). Initialised state.topic_prefix k b.0 b.1) (done_inj h)
        (record { sent = refl; ready = λ e. cc })
  if_parsed-Initialised k (success, state) fresh args b h =
      let given = args refl in
      let ((rc, l), ran, after) =
        bind-eq-done (kafka_connect client (linked k state)) (or_free client k) h in
      or_free-Initialised state.topic_prefix k (rc, l)
        (λ e. connected-IsReady (linked k state) l fresh given (
          kafka_connect-IsConnected client (linked k state) l given.uri given.uri_given
            fresh.connected (ran ∙ to_success rc l e)))
        b after

  -- Where timeseries_backend_kafka_init returns, no message has been sent. If it returns 0, the backend is
  -- connected, to the topic of the prefix and the channel that it was given, and ready to send.
  pub kafka_init-Initialised :
      (k : KafkaBackend B) (argv : List Bytes) (memory : Bool) (b : Status × KafkaBackend B)
      → kafka_init client memory k argv ≡ done b
      → Initialised (prefix_of argv) k b.0 b.1
  unfolding kafka_init parse_args
  kafka_init-Initialised k argv false b h =
      subst (λ (b : Status × KafkaBackend B). Initialised (prefix_of argv) k b.0 b.1) (done_inj h)
        (record { sent = refl; ready = λ f. cc })
  kafka_init-Initialised k [] true b h = cc
  kafka_init-Initialised k (name ∷ argv) true b h =
      let opts = getopt optstring none argv in
      if_parsed-Initialised k (parse_opts opts fresh_state) (parse_opts-IsFresh opts)
        (parse_opts-HasArgs opts fresh_state) b h
