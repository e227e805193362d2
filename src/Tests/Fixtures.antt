-- ===== src/Tests/Fixtures.antt =====
-- Inputs: a platform whose maps are association lists, a package with two keys, a backend that
-- writes to stdout and one that fails, a proxy over it, a broker with a queue, and a batch.
use libtimeseries.Base.{
  ℕ, ◌≡◌, refl, Bool, true, false, Option, none, some, List, [], ◌∷◌, Bytes, codes, str_eq,
  if◌then◌else◌, done, failure, arith,
}
use libtimeseries.Platform.{Platform}
use libtimeseries.KeyPackage.{
  KeyInfo, KeyPackage, with_table, kp_add_key, kp_ki_init, null_states, kp_alloc,
}
use libtimeseries.KeyPackage.Invariant.{IsValid, kp_alloc-IsValid, add_key-IsValid}
use libtimeseries.Backend.{Backend}
use libtimeseries.Timeseries.{Timeseries}
use libtimeseries.Ascii.{Ascii, fresh_state, ascii_ops}
use libtimeseries.Kafka.{Librdkafka, Kafka, format_tsk, accepted, queue_full}
use libtimeseries.Proxy.{Proxy}
use libtimeseries.Proxy.Message.{Filter}

abbrev pub Table : Type 0
Table = List (Bytes × ℕ)

abbrev pub find : Bytes → Table → Option ℕ
find key [] = none
find key ((k, v) ∷ t) = if str_eq k key then some v else find key t

-- A put that has memory.
abbrev pub add : Bytes → ℕ → Table → Option Table
add key value t = some ((key, value) ∷ t)

pub find-init : (t : Table) (k : Bytes) → some [] ≡ some t → find k t ≡ none
find-init [] k h = refl
find-init (x ∷ t) k h = cc

pub find-add :
    (k j : Bytes) (v : ℕ) (t u : Table)
    → add k v t ≡ some u
    → find j u ≡ (if str_eq k j then some v else find j t)
find-add k j v t [] h = cc
find-add k j v t (x ∷ u) h = ground arith

instance abbrev pub platform : Platform
platform = record {
  Table = Table;
  kh_init = some [];
  kh_get = find;
  kh_put = add;
  malloc_zero = true;
  realloc = λ n. true;
  strdup = λ s. true;
  kh_get-kh_init = find-init;
  kh_get-kh_put = find-add;
}

abbrev pub key_a : Bytes
key_a = codes "a.x"

abbrev pub key_b : Bytes
key_b = codes "b"

-- timeseries_kp_init with both flags
abbrev pub kp_empty : KeyPackage
kp_empty = with_table 3 []

abbrev pub info : Bytes → ℕ → Bool → KeyInfo
info key value disabled = record {
  key = key;
  value = value;
  backend_state = null_states;
  disabled = disabled;
}

abbrev pub kp_one : KeyPackage
kp_one = record kp_empty {
  key_infos = info key_a 0 false ∷ [];
  key_id_hash = (key_a, 0) ∷ [];
  key_infos_cnt = 1;
  key_infos_enabled_cnt = 1;
  dirty = true;
}

abbrev pub kp_two : KeyPackage
kp_two = record kp_empty {
  key_infos = info key_a 0 false ∷ info key_b 0 false ∷ [];
  key_id_hash = (key_b, 1) ∷ (key_a, 0) ∷ [];
  key_infos_cnt = 2;
  key_infos_enabled_cnt = 2;
  dirty = true;
}

pub kp_empty-IsValid : IsValid kp_empty
kp_empty-IsValid = kp_alloc-IsValid 3 kp_empty (unfold kp_alloc in refl)

pub kp_one-IsValid : IsValid kp_one
unfolding kp_add_key kp_ki_init
kp_one-IsValid = add_key-IsValid true key_a 0 kp_empty-IsValid (omega arith) refl

pub kp_two-IsValid : IsValid kp_two
unfolding kp_add_key kp_ki_init
kp_two-IsValid = add_key-IsValid true key_b 1 kp_one-IsValid (omega arith) refl

abbrev pub ascii : Ascii
ascii = record { state = some fresh_state; stdout = []; closed = [] }

-- The ASCII backend, enabled, and with a flush that fails.
abbrev pub ascii_backend : Backend Ascii
ascii_backend = record {
  id = 1;
  name = codes "ascii";
  ops = ascii_ops (λ file level. true) true;
  enabled = true;
  state = ascii;
}

abbrev pub failing_backend : Backend Ascii
failing_backend = record ascii_backend {
  ops = record (ascii_ops (λ file level. true) true) { kp_flush = λ a kp time. done (failure, a) };
}

abbrev pub one_backend : Timeseries Ascii
one_backend = record { backends = some ascii_backend ∷ none ∷ none ∷ [] }

abbrev pub failing : Timeseries Ascii
failing = record { backends = some failing_backend ∷ some ascii_backend ∷ none ∷ [] }

abbrev pub proxy : Proxy Ascii
proxy = record {
  timeseries = one_backend;
  stats_timeseries = one_backend;
  kp = kp_one;
  stats_kp = kp_empty;
  stats_key_prefix = codes "s";
  stats_interval = 60;
  stats_time = 0;
  current_time = 60;
}

-- A broker whose queue is full every other time.
abbrev pub broker : Librdkafka Bool
broker = record {
  produce = λ b msgkey payload. elim b [ true ↦ (queue_full, false) | false ↦ (accepted, true) ];
  poll = λ b ms. ([], b);
}

abbrev pub channel : Bytes
channel = codes "ch"

abbrev pub kafka : Kafka Bool
kafka = record {
  channel_name = channel;
  channel_name_len = 2;
  format = format_tsk;
  buffer = [];
  connected = true;
  fatal_error = false;
  broker = true;
  sent = [];
}

abbrev pub config : Filter
config = record { filters = []; kafka_channel = channel }
