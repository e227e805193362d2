-- ===== src/Insert/Lines.antt =====
-- tools/timeseries-insert.c with lib/backends/timeseries_backend_ascii.c: the lines that the ASCII
-- backend writes, as the tool reads them.
use mathlib.Core.List.{append-nil}
use libtimeseries.Base.{
  ℕ, zero, suc, ◌+◌, ◌/◌, ◌%◌, ◌^◌, ◌<◌, ◌≡◌, refl, sym, ap, ◌∙◌, false, none, some, [], ◌∷◌, ◌++◌,
  Bytes, ltb, ◌==◌, All, arith, Bool-cases, inl, inr,
}
use libtimeseries.Getopt.{decimal_onto, decimal}
use libtimeseries.Strtoull.{strtoull}
use libtimeseries.Strtoull.Decimal.{strtoull-decimal}
use libtimeseries.Insert.{Metric, strsep, read_number, read_time, read_metric}

-- A character that is no space and no newline.
abbrev pub IsPlain : ℕ → Type 0
IsPlain c = ((c == 32) ≡ false) × ((c == 10) ≡ false)

All-decimal_onto :
    (fuel n : ℕ) (behind : Bytes) → All IsPlain behind → All IsPlain (decimal_onto fuel n behind)
unfolding decimal_onto
All-decimal_onto zero n behind h = (ground arith, h)
All-decimal_onto (suc fuel) n behind h =
    let digit : IsPlain (b'0' + n % 10) = ground arith in
    elim (Bool-cases (ltb n 10)) [
      | inl small ↦ rw small (digit, h)
      | inr large ↦ rw large (All-decimal_onto fuel (n / 10) ((b'0' + n % 10) ∷ behind) (digit, h))
    ]

pub decimal-IsPlain : (n : ℕ) → All IsPlain (decimal n)
unfolding decimal
decimal-IsPlain n = All-decimal_onto 19 n [] tt

pub strsep-append : (a b : Bytes) → All IsPlain a → strsep (a ++ (32 ∷ b)) ≡ (a, some b)
unfolding strsep
strsep-append [] b h = refl
strsep-append (c ∷ cs) b (h, hs) = rw (h.0, strsep-append cs b hs) refl

strsep_last : (a : Bytes) → All IsPlain a → strsep a ≡ (a, none)
unfolding strsep
strsep_last [] h = refl
strsep_last (c ∷ cs) (h, hs) = rw (h.0, strsep_last cs hs) refl

read_number-decimal : (n : ℕ) → n < 2 ^ 64 → read_number false (decimal n) ≡ (some n, false)
unfolding read_number
read_number-decimal n h =
    let read : strtoull (decimal n) ≡ some (record { value = n; rest = []; erange = false }) =
      ap strtoull (sym (append-nil (decimal n))) ∙ strtoull-decimal n [] h tt in
    rw read refl

read_time-decimal :
    (key : Bytes) (value time : ℕ)
    → time < 2 ^ 32
    → read_time key (some (decimal time)) (some value, false)
      ≡ (some (record { key = key; value = value; time = time }), false)
unfolding read_time
read_time-decimal key value time h =
    let small : time % 2 ^ 32 ≡ time = omega arith in
    rw (strsep_last (decimal time) (decimal-IsPlain time))
      (rw (read_number-decimal time (omega arith)) (rw small refl))

-- A line without its newline.
abbrev pub text_of : Metric → Bytes
text_of m = m.key ++ (32 ∷ (decimal m.value ++ (32 ∷ decimal m.time)))

-- A line that the ASCII backend writes for a key with no space reads back as the key, the value and the time,
-- if errno was not ERANGE before, and errno is then as it was.
pub read_metric-text_of :
    (m : Metric)
    → All IsPlain m.key
    → m.value < 2 ^ 64
    → m.time < 2 ^ 32
    → read_metric false (text_of m) ≡ (some m, false)
unfolding read_metric
read_metric-text_of m plain hv ht =
    rw (strsep-append m.key (decimal m.value ++ (32 ∷ decimal m.time)) plain) (
      rw (strsep-append (decimal m.value) (decimal m.time) (decimal-IsPlain m.value))
        (rw (read_number-decimal m.value hv) (read_time-decimal m.key m.value m.time ht)))
