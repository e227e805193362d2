-- ===== src/Proxy/Message.antt =====
-- tools/tsk-proxy.c: parse_key_value and handle_message. A pointer into the payload with the number
-- of bytes that remain is the list of the bytes that remain.
use libtimeseries.Base.{
  ℕ, zero, suc, ◌+◌, Bool, true, false, ◌&&◌, ◌||◌, Option, none, some, List, [], ◌∷◌, Bytes, codes,
  length, take, drop, ltb, leb, ◌==◌, if◌then◌else◌, Outcome, done, fault, undefined, unfinished,
  ◌>>=◌, Status, success, failure, str_eq, of_be16, of_be32, of_be64,
}
use libtimeseries.Platform.{Platform}
use libtimeseries.KeyPackage.{KeyPackage, kp_get_key, kp_add_key, kp_set, kp_enable_key}
use libtimeseries.Timeseries.{any_enabled}
use libtimeseries.Proxy.{Proxy, id_or_minus_one, bump, maybe_flush}

-- The part of tsk_config_t that the messages are held to. Each filter and the channel have their
-- cached length, which is that of the string.
pub record Filter : Type 0 where
  pub filters : List Bytes
  pub kafka_channel : Bytes

abbrev pub tskbatch_version : ℕ
tskbatch_version = 0

abbrev pub header_magic_len : ℕ
header_magic_len = 8

-- HEADER_LEN
abbrev pub header_len : ℕ
header_len = header_magic_len + 1 + 4 + 2

abbrev pub key_buf_len : ℕ
key_buf_len = 1024

-- The C string that starts a byte array: up to its first NUL.
unfoldable pub c_string : Bytes → Bytes
c_string [] = []
c_string (c ∷ cs) = if c == 0 then [] else c ∷ c_string cs

-- What parse_key_value reads: the bytes that remain, and a pair or the value that it returns.
pub data Record : Type 0 where
  -- one of the two DESERIALIZE_VAL finds too few bytes: return 0
  short : Bytes → Record
  -- the key is longer than what remains: return 1
  truncated : Bytes → Record
  -- the key does not fit the buffer on the stack
  overrun : Record
  pair : Bytes → ℕ → Bytes → Record

-- DESERIALIZE_VAL of the value behind the key.
unfoldable pub read_value : Bytes → Bytes → Record
read_value key (a ∷ b ∷ c ∷ d ∷ e ∷ f ∷ g ∷ h ∷ rest) = pair key (of_be64 a b c d e f g h) rest
read_value key rest = short rest

-- The key of length `keylen` and what follows it.
unfoldable pub read_key : ℕ → Bytes → Record
unfolding read_value
read_key keylen rest =
    if ltb (length rest) keylen
    then truncated rest
    else if leb key_buf_len keylen
    then overrun
    else read_value (take keylen rest) (drop keylen rest)

unfoldable pub read_record : Bytes → Record
unfolding read_key
read_record (a ∷ b ∷ rest) = read_key (of_be16 a b) rest
read_record rest = short rest

-- `keylen >= filter_len && strncmp(filter, key, filter_len) == 0` for one of the filters.
unfoldable pub matches_one : List Bytes → Bytes → Bool
matches_one [] key = false
matches_one (f ∷ fs) key =
    (leb (length f) (length key) && str_eq f (take (length f) key)) || matches_one fs key

-- A package with no filters takes every key.
unfoldable pub passes : List Bytes → Bytes → Bool
unfolding matches_one
passes [] key = true
passes (f ∷ fs) key = matches_one (f ∷ fs) key

module _ ⦃P : Platform⦄ where
  -- The id under which parse_key_value stores: that of the key, which it enables, or a new one.
  unfoldable pub enable_or_add : Bool → KeyPackage → Bytes → Outcome (Option ℕ × KeyPackage)
  enable_or_add backends kp key = elim (kp_get_key kp key) [
    | none ↦ kp_add_key backends kp key
    | some id ↦ do kp' ← kp_enable_key kp id; done (some id, kp')
  ]

  -- `Write key:val pair to key package.`
  unfoldable pub store : Bool → KeyPackage → Bytes → ℕ → Outcome KeyPackage
  store backends kp key value = do
    (id, kp') ← enable_or_add backends kp key
    kp_set kp' (id_or_minus_one id) value

  -- What parse_key_value does with a pair.
  unfoldable pub take_pair : Bool → List Bytes → KeyPackage → Bytes → ℕ → Outcome KeyPackage
  take_pair backends filters kp key value =
      if passes filters key then store backends kp (c_string key) value else done kp

  -- What parse_key_value does with what it has read; `failure` is a non-zero return value.
  unfoldable pub parse_record :
      Bool → List Bytes → KeyPackage → Record → Outcome (Status × Bytes × KeyPackage)
  parse_record backends filters kp (short rest) = done (success, rest, kp)
  parse_record backends filters kp (truncated rest) = done (failure, rest, kp)
  parse_record backends filters kp overrun = fault undefined
  parse_record backends filters kp (pair key value rest) = do
    kp' ← take_pair backends filters kp key value
    done (success, rest, kp')

  -- parse_key_value
  unfoldable pub parse_key_value :
      Bool → List Bytes → Bytes → KeyPackage → Outcome (Status × Bytes × KeyPackage)
  unfolding parse_record
  parse_key_value backends filters buf kp = parse_record backends filters kp (read_record buf)

  -- The end of a round of the loop, `next` for the rounds that follow.
  abbrev pub after_record :
      (Bytes → KeyPackage → Outcome KeyPackage) → Status × Bytes × KeyPackage → Outcome KeyPackage
  after_record next (failure, rest, kp) = done kp
  after_record next (success, rest, kp) = next rest kp

  -- `while (remain > 0)` of handle_message, with fuel. It leaves the loop also on an error.
  unfoldable pub parse_loop : ℕ → Bool → List Bytes → Bytes → KeyPackage → Outcome KeyPackage
  parse_loop fuel backends filters [] kp = done kp
  parse_loop zero backends filters (b ∷ bs) kp = fault unfinished
  parse_loop (suc fuel) backends filters (b ∷ bs) kp =
      parse_key_value backends filters (b ∷ bs) kp
      >>= after_record (parse_loop fuel backends filters)

-- bcmp over the shorter of the two lengths
unfoldable pub channel_matches : Bytes → Bytes → Bool
channel_matches [] expected = true
channel_matches (c ∷ cs) [] = true
channel_matches (c ∷ cs) (e ∷ es) = c == e && channel_matches cs es

-- What handle_message makes of the header: it skips the message, it meets another channel, or it goes
-- on with the time of the batch and the bytes behind the channel name.
pub data Header : Type 0 where
  skip : Header
  unknown_channel : Header
  batch : ℕ → Bytes → Header

-- The channel name, of length `chanlen`, and what follows it.
unfoldable pub read_channel : Bytes → ℕ → ℕ → Bytes → Header
unfolding channel_matches
read_channel channel time chanlen rest =
    if ltb (length rest) chanlen
    then skip
    else if channel_matches (take chanlen rest) channel
    then batch time (drop chanlen rest)
    else unknown_channel

-- The eight bytes of the magic are not looked at.
unfoldable pub read_header : Bytes → Bytes → Header
unfolding read_channel
read_header channel (_ ∷ _ ∷ _ ∷ _ ∷ _ ∷ _ ∷ _ ∷ _ ∷ version ∷ a ∷ b ∷ c ∷ d ∷ e ∷ f ∷ rest) =
    if version == tskbatch_version
    then read_channel channel (of_be32 a b c d) (of_be16 e f) rest
    else skip
read_header channel short_message = skip

module _ ⦃P : Platform⦄ {S : Type 0} where
  -- The end of handle_message for a message of `len` bytes, where `loop` is its loop over the pairs.
  unfoldable pub after_turn :
      (Bool → KeyPackage → Outcome KeyPackage) → ℕ → Status × Proxy S → Outcome (Status × Proxy S)
  after_turn loop len (failure, p) = done (failure, p)
  after_turn loop len (success, p) = do
    p₁ ← bump p (codes "messages_cnt") 1
    p₂ ← bump p₁ (codes "messages_bytes") len
    kp ← loop (any_enabled p₂.timeseries) p₂.kp
    done (success, record p₂ { kp = kp })

  -- handle_message behind the header, for a message of `len` bytes. The log call for another channel
  -- passes the size_t kafka_chanlen for a %s, which is undefined; log_level is not below LOG_LEVEL_ERROR.
  unfoldable pub handle_header : ℕ → Filter → ℕ → Header → Proxy S → Outcome (Status × Proxy S)
  unfolding after_turn
  handle_header fuel cfg len skip p = done (success, p)
  handle_header fuel cfg len unknown_channel p = fault undefined
  handle_header fuel cfg len (batch time rest) p =
      maybe_flush time p
      >>= after_turn (λ backends kp. parse_loop fuel backends cfg.filters rest kp) len

  -- handle_message
  unfoldable pub handle_message : ℕ → Filter → Bytes → Proxy S → Outcome (Status × Proxy S)
  unfolding handle_header
  handle_message fuel cfg payload p =
      handle_header fuel cfg (length payload) (read_header cfg.kafka_channel payload) p
