-- ===== src/Tests/Backends.antt =====
-- The theorems on the backends at concrete states.
use libtimeseries.Base.{
  ℕ, ◌≡◌, refl, Bool, true, false, some, List, [], ◌∷◌, ◌++◌, Bytes, length, inl, arith, done,
  ◌>>=◌, success, All, IsChar,
}
use libtimeseries.Ascii.{
  Ascii, ascii_kp_flush, ascii_set_bulk_init, ascii_set_single, ascii_set_single_by_id,
  ascii_resolve_key,
}
use libtimeseries.Ascii.Lines.{
  written, enabled_lines, ascii_kp_flush_lem, set_single_by_id-resolve_key,
}
use libtimeseries.Ascii.Bulk.{set_bulk, ids_of, bulk_lines, Counters, set_bulk_lem}
use libtimeseries.Kafka.{kafka_set_single, single_key, Kafka, kafka_kp_flush, put_record}
use libtimeseries.Kafka.Send.{Accepts, now, later, put_record_lem}
use libtimeseries.Kafka.Batches.{Batched}
use libtimeseries.Kafka.Single.{kafka_set_single_lem}
use libtimeseries.Kafka.Flush.{enabled_pairs, kafka_kp_flush_lem}
use libtimeseries.Proxy.RoundTrip.{header_bytes, kv_bytes}
use libtimeseries.Kafka.{format_tsk}
use libtimeseries.Tests.Fixtures.{
  platform, kp_two, kp_two-IsValid, key_a, key_b, ascii, kafka, broker, channel,
}

ascii_kp_flush_lem_example :
    (a' : Ascii) × (ascii_kp_flush ascii kp_two 60 ≡ done (success, a'))
    × (written a' ≡ some (enabled_lines kp_two.key_infos 60))
ascii_kp_flush_lem_example =
    ascii_kp_flush_lem ascii kp_two 60 [] kp_two-IsValid (omega arith) (unfold written in refl)

key_a_chars : All IsChar key_a
key_a_chars =
    ((omega arith, omega arith), ((omega arith, omega arith), ((omega arith, omega arith), tt)))

key_b_chars : All IsChar key_b
key_b_chars = ((omega arith, omega arith), tt)

abbrev pairs : List (Bytes × ℕ)
pairs = (key_a, 3) ∷ (key_b, 4) ∷ []

set_bulk_lem_example :
    (a' : Ascii) × ((ascii_set_bulk_init ascii 2 60 >>= λ (rc, begun).
    set_bulk (ids_of pairs) begun)
      ≡ done (success, a'))
    × (written a' ≡ some (bulk_lines pairs 60))
    × Counters a' 0 0 0
set_bulk_lem_example =
    set_bulk_lem ascii pairs 60 0 [] (unfold written in refl) (_, refl, refl, refl, refl)
      (omega arith) (omega arith) (omega arith) (key_a_chars, (key_b_chars, tt))

set_single_by_id-resolve_key_example :
    (id : Bytes) × (ascii_resolve_key ascii key_a ≡ done (length id, some id, ascii))
    × (ascii_set_single_by_id ascii id (length id) 3 60 ≡ ascii_set_single ascii key_a 3 60)
set_single_by_id-resolve_key_example =
    set_single_by_id-resolve_key ascii key_a 3 60 key_a_chars refl

-- The broker of the tests takes a message at the second try at the latest.
takes : (msgkey : ℕ) (payload : Bytes) (b : Bool) → Accepts broker msgkey payload 2 b
takes msgkey payload true = later 1 true refl (now 0 false refl)
takes msgkey payload false = now 1 false refl

put_record_lem_example :
    put_record 60 key_a 3 kafka
    ≡ done (success, record kafka { buffer = header_bytes 60 channel ++ kv_bytes key_a 3 })
put_record_lem_example =
    put_record_lem 60 key_a 3 kafka refl (omega arith) (omega arith) (omega arith)

kafka_kp_flush_lem_example :
    (k' : Kafka Bool) × (msgs : List (ℕ × Bytes)) × (kafka_kp_flush broker 2 kafka kp_two 60
      ≡ done (success, k'))
    × (k'.sent ≡ msgs)
    × Batched format_tsk 60 channel (enabled_pairs kp_two.key_infos) msgs
    × (k'.buffer ≡ [])
kafka_kp_flush_lem_example =
    kafka_kp_flush_lem broker 2 kafka kp_two 60 takes (inl refl) refl (omega arith) refl
      kp_two-IsValid (omega arith, (omega arith, tt))

kafka_set_single_lem_example :
    (k' : Kafka Bool) × (kafka_set_single broker 2 kafka key_a 3 60 ≡ done (success, k'))
    × (k'.sent ≡ (single_key format_tsk key_a 60, header_bytes 60 channel ++ kv_bytes key_a 3) ∷ [])
    × (k'.buffer ≡ [])
kafka_set_single_lem_example =
    kafka_set_single_lem broker 2 kafka key_a 3 60 takes (inl refl) refl (omega arith) (omega arith)
      refl
