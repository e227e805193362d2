-- ===== src/Kafka/Arguments.antt =====
-- lib/backends/timeseries_backend_kafka.c: what parse_args leaves.
use libtimeseries.Base.{
  ℕ, ◌≡◌, refl, ◌∙◌, Bool, true, false, not, Option, none, some, List, [], ◌∷◌, Bytes, All, length,
  ◌==◌, if◌then◌else◌, Status, success, failure,
}
use libtimeseries.Getopt.{Opt}
use libtimeseries.Kafka.{Format}
use libtimeseries.Kafka.Setup.{
  KafkaState, fresh_state, is_given, format_of, set_format, parse_opt, after_opt, parse_opts,
}
use libtimeseries.Kafka.Life.{name_of}

-- No handle is there, nothing is written, and the length is that of the channel's name.
pub record IsFresh (state : KafkaState) : Type 0 where
  pub connected : state.connected ≡ false
  pub rdk_conn : state.rdk_conn ≡ false
  pub rkt : state.rkt ≡ false
  pub buffer : state.buffer ≡ []
  pub name_len : state.channel_name_len ≡ length (name_of state.channel_name)

fresh_state-IsFresh : IsFresh fresh_state
fresh_state-IsFresh = record {
  connected = refl;
  rdk_conn = refl;
  rkt = refl;
  buffer = refl;
  name_len = refl;
}

IsFresh-if :
    (b : Bool) (x y : Status × KafkaState)
    → IsFresh x.1
    → IsFresh y.1
    → IsFresh (if b then x else y).1
IsFresh-if true x y h k = h
IsFresh-if false x y h k = k

-- A state that differs in the strings alone, the channel with its length.
IsFresh-same :
    (s s' : KafkaState)
    → IsFresh s
    → s'.connected ≡ s.connected
    → s'.rdk_conn ≡ s.rdk_conn
    → s'.rkt ≡ s.rkt
    → s'.buffer ≡ s.buffer
    → s'.channel_name_len ≡ length (name_of s'.channel_name)
    → IsFresh s'
IsFresh-same s s' h a b c d e = record {
  connected = a ∙ h.connected;
  rdk_conn = b ∙ h.rdk_conn;
  rkt = c ∙ h.rkt;
  buffer = d ∙ h.buffer;
  name_len = e;
}

set_format-IsFresh : (o : Option Format) (s : KafkaState) → IsFresh s → IsFresh (set_format o s).1
set_format-IsFresh none s h = h
set_format-IsFresh (some format) s h =
    IsFresh-same s (record s { format = format }) h refl refl refl refl h.name_len

parse_opt-IsFresh :
    (c : ℕ) (optarg : Bytes) (s : KafkaState) → IsFresh s → IsFresh (parse_opt (c, optarg) s).1
unfolding parse_opt
parse_opt-IsFresh c optarg s h =
    IsFresh-if (c == b'b') _ _ (IsFresh-same s _ h refl refl refl refl h.name_len) (
      IsFresh-if (c == b'c') _ _ (IsFresh-same s _ h refl refl refl refl refl) (
        IsFresh-if (c == b'C') _ _ (IsFresh-same s _ h refl refl refl refl h.name_len) (
          IsFresh-if (c == b'f') _ _ (set_format-IsFresh (format_of optarg) s h)
            (IsFresh-if (c == b'p') _ _ (IsFresh-same s _ h refl refl refl refl h.name_len) h))))

-- The tests at the end of parse_args, of whether -b and -c were given.
abbrev tested : KafkaState → Bool → Bool → Status × KafkaState
tested s uri channel =
    if not uri then (failure, s) else if not channel then (failure, s) else (success, s)

-- A property that each round of parse_args keeps.
pub parse_opts-keeps :
    (P : KafkaState → Type 0) (opts : List Opt)
    → All (λ (o : Opt). (s : KafkaState) → P s → P (parse_opt o s).1) opts
    → (s : KafkaState) → P s
    → P (parse_opts opts s).1
unfolding parse_opts
parse_opts-keeps P [] rounds s h = either (is_given s.broker_uri) (is_given s.channel_name)
  where
    either : (b c : Bool) → P (tested s b c).1
    either false c = h
    either true false = h
    either true true = h
parse_opts-keeps P (o ∷ opts) (round, rounds) s h =
    behind (parse_opt o s) (round s h) (λ s' h'. parse_opts-keeps P opts rounds s' h')
  where
    behind :
        (a : Status × KafkaState)
        → P a.1
        → ((s' : KafkaState) → P s' → P (parse_opts opts s').1)
        → P (after_opt (parse_opts opts) a).1
    behind (failure, s') h' rest = h'
    behind (success, s') h' rest = rest s' h'

pub parse_opts-IsFresh : (opts : List Opt) → IsFresh (parse_opts opts fresh_state).1
parse_opts-IsFresh opts = parse_opts-keeps IsFresh opts (all opts) fresh_state fresh_state-IsFresh
  where
    all :
        (os : List Opt)
        → All (λ (o : Opt). (s : KafkaState) → IsFresh s → IsFresh (parse_opt o s).1) os
    all [] = tt
    all ((c, optarg) ∷ os) = (parse_opt-IsFresh c optarg, all os)

-- The arguments that are required.
pub record HasArgs (state : KafkaState) : Type 0 where
  pub uri : Bytes
  pub channel_name : Bytes
  pub uri_given : state.broker_uri ≡ some uri
  pub channel_given : state.channel_name ≡ some channel_name

given-some : (o : Option Bytes) → is_given o ≡ true → (text : Bytes) × (o ≡ some text)
given-some none h = cc
given-some (some text) h = (text, refl)

given-HasArgs :
    (s : KafkaState) → is_given s.broker_uri ≡ true → is_given s.channel_name ≡ true → HasArgs s
given-HasArgs s b c =
    let (uri, uri_given) = given-some s.broker_uri b in
    let (channel_name, channel_given) = given-some s.channel_name c in
    record {
      uri = uri;
      channel_name = channel_name;
      uri_given = uri_given;
      channel_given = channel_given;
    }

-- Where parse_args succeeds, -b and -c were given.
pub parse_opts-HasArgs :
    (opts : List Opt) (s : KafkaState)
    → (parse_opts opts s).0 ≡ success
    → HasArgs (parse_opts opts s).1
unfolding parse_opts
parse_opts-HasArgs [] s = at_end (is_given s.broker_uri) (is_given s.channel_name) (given-HasArgs s)
  where
    at_end :
        (b c : Bool)
        → (b ≡ true → c ≡ true → HasArgs s)
        → (tested s b c).0 ≡ success
        → HasArgs (tested s b c).1
    at_end false c given h = cc
    at_end true false given h = cc
    at_end true true given h = given refl refl
parse_opts-HasArgs (o ∷ opts) s = behind (parse_opt o s) (λ s'. parse_opts-HasArgs opts s')
  where
    behind :
        (a : Status × KafkaState)
        → ((s' : KafkaState) → (parse_opts opts s').0 ≡ success → HasArgs (parse_opts opts s').1)
        → (after_opt (parse_opts opts) a).0 ≡ success
        → HasArgs (after_opt (parse_opts opts) a).1
    behind (failure, s') rest h = cc
    behind (success, s') rest h = rest s' h

-- No option -p
abbrev pub NoPrefix : List Opt → Type 0
NoPrefix = All (λ (o : Opt). (o.0 == b'p') ≡ false)
