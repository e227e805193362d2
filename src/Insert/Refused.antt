-- ===== src/Insert/Refused.antt =====
-- tools/timeseries-insert.c: errno, which is compared with ERANGE and never set to 0.
use libtimeseries.Base.{
  ℕ, ◌^◌, ◌≤◌, ◌<◌, ◌≡◌, ◌-◌, append-nil, sym, refl, ap, ◌∙◌, true, false, Option, none, some, List,
  [], ◌∷◌, ◌++◌, Bytes, All, arith, done, ◌>>=◌, success, Bool-cases, inl, inr,
}
use libtimeseries.Platform.{Platform}
use libtimeseries.Getopt.{decimal}
use libtimeseries.Strtoull.{Number, strtoull}
use libtimeseries.Strtoull.Decimal.{strtoull-decimal_large}
use libtimeseries.Insert.{
  Insert, strsep, whole, read_number, read_value, read_metric, insert, is_skipped, insert_lines,
  then_flush, flush_last, insert_all,
}
use libtimeseries.Insert.Lines.{IsPlain, decimal-IsPlain, strsep-append}

whole_refused : (n : Option Number) → whole true n ≡ (none, true)
whole_refused none = refl
whole_refused (some n) = ground arith

read_metric_refused : (line : Bytes) → read_metric true line ≡ (none, true)
unfolding read_metric read_number
read_metric_refused line = by_rest (strsep line).1
  where
    by_rest : (rest : Option Bytes) → read_value true (strsep line).0 rest ≡ (none, true)
    by_rest none = refl
    by_rest (some rest) = rw (whole_refused (strtoull (strsep rest).0)) refl

read_metric_large :
    (key rest : Bytes) (value : ℕ)
    → All IsPlain key
    → 2 ^ 64 ≤ value
    → value < 10 ^ 20
    → read_metric false (key ++ (32 ∷ (decimal value ++ (32 ∷ rest)))) ≡ (none, true)
unfolding read_metric read_number
read_metric_large key rest value plain large small =
    let read : strtoull (decimal value)
        ≡ some (record { value = 2 ^ 64 - 1; rest = []; erange = true }) =
      ap strtoull (sym (append-nil (decimal value)))
      ∙ strtoull-decimal_large value [] large small tt in
    rw (strsep-append key (decimal value ++ (32 ∷ rest)) plain)
      (rw (strsep-append (decimal value) rest (decimal-IsPlain value)) (rw read refl))

module _ ⦃P : Platform⦄ {S : Type 0} where
  insert_lines_refused :
      (lines : List Bytes) (s : Insert S) → insert_lines lines true s ≡ done (success, true, s)
  unfolding insert_lines insert
  insert_lines_refused [] s = refl
  insert_lines_refused (line ∷ lines) s = elim (Bool-cases (is_skipped line)) [
    | inl skip ↦ rw skip (insert_lines_refused lines s)
    | inr no_skip ↦ rw no_skip (rw (read_metric_refused line) (insert_lines_refused lines s))
  ]

  -- A line whose value needs more than 64 bits, and has at most 20 digits, is the last line that timeseries-insert
  -- takes in: whatever lines follow, none of them is stored, no error is returned for them, and only what is
  -- pending is flushed at the end.
  pub insert_all_refused :
      (key rest : Bytes) (value : ℕ) (lines : List Bytes) (s : Insert S)
      → All IsPlain key
      → is_skipped (key ++ (32 ∷ (decimal value ++ (32 ∷ rest)))) ≡ false
      → 2 ^ 64 ≤ value
      → value < 10 ^ 20
      → insert_all ((key ++ (32 ∷ (decimal value ++ (32 ∷ rest)))) ∷ lines) false s ≡ flush_last s
  unfolding insert_all insert_lines insert
  insert_all_refused key rest value lines s plain starts large small = rw starts (
      rw (read_metric_large key rest value plain large small)
        (ap (λ o. o >>= then_flush) (insert_lines_refused lines s)))
