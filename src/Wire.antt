-- ===== src/Wire.antt =====
-- lib/backends/timeseries_backend_kafka.c: the functions that write into the message buffer, the
-- hash of a key and the partitioner. A function that fills the buffer gives the bytes that it
-- writes at `buf`, whose number is its result.
use libtimeseries.Base.{
  ℕ, ◌+◌, ◌-◌, ◌*◌, ◌/◌, ◌%◌, ◌^◌, Option, none, some, [], ◌∷◌, ◌++◌, Bytes, codes, length, take,
  ltb, leb, ◌==◌, if◌then◌else◌, Outcome, done, fault, undefined, ◌>>=◌, ◌>>◌, assert, be16, be32,
  be64,
}

abbrev pub header_magic : Bytes
header_magic = codes "TSKBATCH"

abbrev pub header_magic_len : ℕ
header_magic_len = 8

abbrev pub message_version : ℕ
message_version = 0

-- UINT16_MAX
abbrev pub uint16_max : ℕ
uint16_max = 65535

-- SERIALIZE_VAL of a value whose bytes in memory are `from`, with `written` bytes of `len` in use.
unfoldable pub serialize_val : ℕ → ℕ → Bytes → Outcome Bytes
serialize_val len written from = do assert (leb (length from) (len - written)); done from

-- write_header. `channel_len` is a `uint16_t` parameter, and nothing checks that the copy of the
-- channel name stays inside the buffer.
unfoldable pub write_header : ℕ → ℕ → Bytes → ℕ → Outcome Bytes
unfolding serialize_val be16 be32
write_header len time channel channel_len = do
  let n : ℕ = channel_len % 2 ^ 16
  assert (ltb header_magic_len len)
  version ← serialize_val len header_magic_len (message_version ∷ [])
  time_bytes ← serialize_val len (header_magic_len + 1) (be32 time)
  len_bytes ← serialize_val len (header_magic_len + 1 + 4) (be16 n)
  if ltb len (header_magic_len + 1 + 4 + 2 + n)
      then fault undefined
      else done (header_magic ++ (version ++ (time_bytes ++ (len_bytes ++ take n channel))))

-- write_kv
unfoldable pub write_kv : ℕ → Bytes → ℕ → Outcome Bytes
unfolding serialize_val be16 be64
write_kv len key value = do
  let key_len : ℕ = length key
  assert (ltb key_len uint16_max)
  assert (leb (key_len + 2 + 8) len)
  len_bytes ← serialize_val len 0 (be16 key_len)
  value_bytes ← serialize_val len (2 + key_len) (be64 value)
  done (len_bytes ++ (key ++ value_bytes))

-- A `char` as an `int`, on a platform whose `char` is signed, cut to 32 bits.
abbrev pub signed_char : ℕ → ℕ
signed_char c = if ltb c 128 then c else 2 ^ 32 + c - 256

-- The loop of keyhash.
unfoldable pub keyhash_from : ℕ → Bytes → ℕ
keyhash_from hash [] = hash
keyhash_from hash (c ∷ key) =
    keyhash_from (((hash * 2 ^ 5) % 2 ^ 32 + hash + signed_char c) % 2 ^ 32) key

unfoldable pub keyhash : Bytes → ℕ
unfolding keyhash_from
keyhash key = keyhash_from 5381 key

-- strrchr(key, '.') and the cut there: the key without its last term, or the key where it has no dot.
unfoldable pub before_last_dot : Bytes → Option Bytes
before_last_dot [] = none
before_last_dot (c ∷ cs) = elim (before_last_dot cs) [
  | some front ↦ some (c ∷ front)
  | none ↦ if c == b'.' then some [] else none
]

unfoldable pub strip_last_term : Bytes → Bytes
unfolding before_last_dot
strip_last_term key = elim (before_last_dot key) [ none ↦ key | some front ↦ front ]

-- time_partitioner, once the key is read back to host order; the partition count is positive.
unfoldable pub time_partitioner : ℕ → ℕ → ℕ
time_partitioner time partition_cnt = (time / 60) % partition_cnt
