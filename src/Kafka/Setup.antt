-- ===== src/Kafka/Setup.antt =====
-- lib/backends/timeseries_backend_kafka.c: the arguments of the backend, its connection to the
-- brokers and to the topic, and its release. All that librdkafka does with a handle is a parameter.
use libtimeseries.Base.{
  ℕ, zero, suc, ◌-◌, ◌*◌, Bool, true, false, not, ◌&&◌, ◌||◌, Option, none, some, List, [], ◌∷◌,
  ◌++◌, Bytes, codes, length, take, ltb, ◌==◌, if◌then◌else◌, str_eq, Outcome, done, fault,
  assertion, undefined, ◌>>=◌, ◌>>◌, assert, Status, success, failure,
}
use libtimeseries.Getopt.{Opt, getopt}
use libtimeseries.Kafka.{
  Format, format_ascii, format_tsk, format_tsk_keypart, Librdkafka, error_callbacks, or_err,
}

-- librdkafka: its configuration objects, a producer and a topic, whether each is made, and the number
-- of messages that wait to be sent.
pub record Client (B : Type 0) : Type 0 where
  pub messages : Librdkafka B
  pub topic_conf_new : B → Bool × B
  pub conf_new : B → B
  -- whether the answer is RD_KAFKA_CONF_OK
  pub conf_set : B → Bytes → Bytes → Bool × B
  pub producer_new : B → Bool × B
  -- the number of brokers that the text names
  pub brokers_add : B → Bytes → ℕ × B
  -- a topic of this name, with the partitioner of the source or with that of the library
  pub topic_new : B → Bytes → Bool → Bool × B
  pub outq_len : B → ℕ
  pub topic_destroy : B → B
  pub destroy : B → B

-- CONNECT_MAX_RETRIES and IDENTITY_MAX_LEN
abbrev pub connect_max_retries : ℕ
connect_max_retries = 8

abbrev pub identity_max_len : ℕ
identity_max_len = 1024

-- timeseries_backend_kafka_state_t, with the part of `buffer` that is written; `rdk_conn` and `rkt`
-- say whether the handles are there.
pub record KafkaState : Type 0 where
  pub broker_uri : Option Bytes
  pub compression_codec : Bytes
  pub channel_name : Option Bytes
  pub channel_name_len : ℕ
  pub format : Format
  pub topic_prefix : Option Bytes
  pub buffer : Bytes
  pub connected : Bool
  pub fatal_error : Bool
  pub rdk_conn : Bool
  pub topic_name : Bytes
  pub rkt : Bool

-- The state, what is behind the handles, the seconds of each sleep so far, and the numbers of
-- producers and of topics that have been made and not destroyed.
pub record Link (B : Type 0) : Type 0 where
  pub state : KafkaState
  pub broker : B
  pub slept : List ℕ
  pub producers : ℕ
  pub topics : ℕ

-- The state as timeseries_backend_kafka_init leaves it for parse_args.
abbrev pub fresh_state : KafkaState
fresh_state = record {
  broker_uri = none;
  compression_codec = codes "snappy";
  channel_name = none;
  channel_name_len = 0;
  format = format_tsk;
  topic_prefix = none;
  buffer = [];
  connected = false;
  fatal_error = false;
  rdk_conn = false;
  topic_name = [];
  rkt = false;
}

-- The option string ":b:c:C:f:p:?"
abbrev pub optstring : ℕ → Option Bool
optstring c =
    if c == b'b' || c == b'c' || c == b'C' || c == b'f' || c == b'p'
    then some true
    else if c == b'?'
    then some false
    else none

-- The branches on the argument of -f.
unfoldable pub format_of : Bytes → Option Format
format_of optarg =
    if str_eq optarg (codes "ascii")
    then some format_ascii
    else if str_eq optarg (codes "tsk")
    then some format_tsk
    else if str_eq optarg (codes "tskkey")
    then some format_tsk_keypart
    else none

abbrev pub set_format : Option Format → KafkaState → Status × KafkaState
set_format none state = (failure, state)
set_format (some format) state = (success, record state { format = format })

-- One round of the loop of parse_args; strdup has memory.
unfoldable pub parse_opt : Opt → KafkaState → Status × KafkaState
unfolding format_of
parse_opt (opt, optarg) state =
    if opt == b'b'
    then (success, record state { broker_uri = some optarg })
    else if opt == b'c'
    then (success, record state { channel_name = some optarg; channel_name_len = length optarg })
    else if opt == b'C'
    then (success, record state { compression_codec = optarg })
    else if opt == b'f'
    then set_format (format_of optarg) state
    else if opt == b'p'
    then (success, record state { topic_prefix = some optarg })
    else (failure, state)

abbrev pub after_opt :
    (KafkaState → Status × KafkaState) → Status × KafkaState → Status × KafkaState
after_opt next (failure, state) = (failure, state)
after_opt next (success, state) = next state

abbrev pub is_given : Option Bytes → Bool
is_given none = false
is_given (some text) = true

unfoldable pub parse_opts : List Opt → KafkaState → Status × KafkaState
unfolding parse_opt
parse_opts [] state =
    if not (is_given state.broker_uri)
    then (failure, state)
    else if not (is_given state.channel_name)
    then (failure, state)
    else (success, state)
parse_opts (opt ∷ opts) state = after_opt (parse_opts opts) (parse_opt opt state)

-- parse_args
unfoldable pub parse_args : List Bytes → KafkaState → Outcome (Status × KafkaState)
unfolding parse_opts getopt
parse_args [] state = fault assertion
parse_args (name ∷ argv) state = done (parse_opts (getopt optstring none argv) state)

-- What %s prints of a string: glibc prints "(null)" of a NULL pointer.
abbrev pub printed_text : Option Bytes → Bytes
printed_text none = codes "(null)"
printed_text (some text) = text

-- A string that the code reads, where a NULL pointer is undefined.
abbrev pub text_at : Option Bytes → Outcome Bytes
text_at none = fault undefined
text_at (some text) = done text

-- `wait *= 2`, and no more than 180
abbrev pub next_wait : ℕ → ℕ
next_wait wait = if ltb 180 (wait * 2) then 180 else wait * 2

module _ {B : Type 0} where
  -- The end of a round of the loop of kafka_connect, with `retries` left: the next `wait`, and the
  -- sleep where it is due.
  unfoldable pub pause : ℕ → ℕ → Link B → ℕ × Link B
  pause retries wait l =
      if not l.state.connected && ltb 0 retries
      then (next_wait wait, record l { slept = l.slept ++ (wait ∷ []) })
      else (wait, l)

-- Whether topic_connect sets time_partitioner.
abbrev pub has_partitioner : Format → Bool
has_partitioner format_ascii = false
has_partitioner format_tsk = true
has_partitioner format_tsk_keypart = true

module _ {B : Type 0} (client : Client B) where
  -- rd_kafka_poll, with kafka_error_callback for the errors that it reports.
  abbrev pub poll_link : ℕ → Link B → Link B
  poll_link ms l =
      let polled = client.messages.poll l.broker ms in
      let flags = error_callbacks polled.0 (l.state.connected, l.state.fatal_error) in
      record l {
        broker = polled.1;
        state = record l.state { connected = flags.0; fatal_error = flags.1 };
      }

  -- The three settings of producer_connect.
  unfoldable pub set_confs : Bytes → B → Status × B
  set_confs codec b =
      let compression = client.conf_set (client.conf_new b) (codes "compression.codec") codec in
      let log = client.conf_set compression.1 (codes "log.connection.close") (codes "false") in
      let keepalive = client.conf_set log.1 (codes "socket.keepalive.enable") (codes "true") in
      if not compression.0
      then (failure, compression.1)
      else if not log.0
      then (failure, log.1)
      else if not keepalive.0
      then (failure, keepalive.1)
      else (success, keepalive.1)

  -- The end of producer_connect: `connected = 1`, a poll for errors, and `return fatal_error`.
  unfoldable pub poll_errors : Link B → Status × Link B
  unfolding error_callbacks
  poll_errors l =
      let polled = poll_link 5000 (record l { state = record l.state { connected = true } }) in
      (if polled.state.fatal_error then failure else success, polled)

  -- producer_connect from rd_kafka_new on; a producer of an earlier try is not destroyed.
  unfoldable pub new_producer : Bytes → Link B → Status × Link B
  unfolding poll_errors
  new_producer uri l =
      let made = client.producer_new l.broker in
      let added = client.brokers_add made.1 uri in
      let kept = record l {
        broker = made.1;
        state = record l.state { rdk_conn = made.0 };
        producers = if made.0 then suc l.producers else l.producers;
      } in
      let with_brokers = record kept { broker = added.1 } in
      if not made.0
      then (failure, kept)
      else if added.0 == 0
      then (failure, with_brokers)
      else poll_errors with_brokers

  abbrev pub if_configured : Bytes → Link B → Status × B → Status × Link B
  if_configured uri l (failure, b) = (failure, record l { broker = b })
  if_configured uri l (success, b) = new_producer uri (record l { broker = b })

  -- producer_connect; `success` is the result 0.
  unfoldable pub producer_connect : Link B → Outcome (Status × Link B)
  unfolding set_confs new_producer
  producer_connect l = do
    uri ← text_at l.state.broker_uri
    done (if_configured uri l (set_confs l.state.compression_codec l.broker))

  -- rd_kafka_topic_new, where there is no topic yet.
  unfoldable pub new_topic : Link B → Status × Link B
  new_topic l =
      let topic = client.topic_new l.broker l.state.topic_name (has_partitioner l.state.format) in
      if l.state.rkt then (success, l) else (
        if topic.0 then success else failure,
        record l {
          broker = topic.1;
          state = record l.state { rkt = topic.0 };
          topics = if topic.0 then suc l.topics else l.topics;
        },
      )

  -- topic_connect
  unfoldable pub topic_connect : Link B → Outcome (Status × Link B)
  unfolding new_topic
  topic_connect l = do
    let conf : Bool × B = client.topic_conf_new l.broker
    assert conf.0
    let text : Bytes = printed_text l.state.topic_prefix ++ (46 ∷ printed_text l.state.channel_name)
    let printed : Link B = record l {
      broker = conf.1;
      state = record l.state { topic_name = take (identity_max_len - 1) text };
    }
    done (if ltb (length text) identity_max_len then new_topic printed else (failure, printed))

  -- The loop of kafka_connect, with the retries left and the next wait.
  unfoldable pub connect_loop : ℕ → ℕ → Link B → Outcome (Status × Link B)
  unfolding producer_connect pause
  connect_loop zero wait l = done (success, l)
  connect_loop (suc retries) wait l = if l.state.connected then done (success, l) else do
    tried ← producer_connect l
    or_err
        (λ (made : Link B).
          connect_loop retries (pause retries wait made).0 (pause retries wait made).1)
        (λ left. left) tried

  -- kafka_connect behind its loop
  unfoldable pub if_connected : Link B → Outcome (Status × Link B)
  unfolding topic_connect
  if_connected l = if l.state.connected then topic_connect l else done (failure, l)

  -- kafka_connect
  unfoldable pub kafka_connect : Link B → Outcome (Status × Link B)
  unfolding connect_loop if_connected
  kafka_connect l = do
    looped ← connect_loop connect_max_retries 10 l
    or_err if_connected (λ left. left) looped
