-- ===== src/Insert/Copied.antt =====
-- tools/timeseries-insert.c in batch mode, on a file that the ASCII backend of
-- lib/backends/timeseries_backend_ascii.c has written.
use mathlib.Core.Path.{ap₂}
use libtimeseries.Base.{
  ℕ, ◌+◌, ◌^◌, ◌<◌, ◌≡◌, refl, sym, ap, ◌∙◌, Bool, true, false, List, [], ◌∷◌, Bytes, length, ltb,
  All, arith, if◌then◌else◌, inl, done, ◌>>=◌,
}
use libtimeseries.Platform.{Platform}
use libtimeseries.KeyPackage.{KeyInfo, KeyPackage}
use libtimeseries.KeyPackage.Invariant.{IsValid, count_enabled}
use libtimeseries.Timeseries.{Timeseries}
use libtimeseries.Flush.{kp_flush}
use libtimeseries.Ascii.Lines.{enabled_lines}
use libtimeseries.Insert.{if_ok, flush_last, insert_all, insert_file, buffer_len, Reader}
use libtimeseries.Insert.Lines.{text_of}
use mathlib.Core.List.{map}
use libtimeseries.Insert.Package.{HasMemory}
use libtimeseries.Insert.Replay.{
  add_metric, metrics_of, IsWritable, IsShort, ReadsLines, metrics_of-Fits,
  insert_all-enabled_lines,
}
use libtimeseries.Insert.Pending.{IsAt, Latest, pending, store_all_total}

length-metrics_of :
    (kis : List KeyInfo) (time : ℕ) → length (metrics_of kis time) ≡ count_enabled kis
unfolding metrics_of
length-metrics_of [] time = refl
length-metrics_of (ki ∷ kis) time = by_mark ki.disabled (length-metrics_of kis time)
  where
    by_mark :
        (off : Bool)
        → length (metrics_of kis time) ≡ count_enabled kis
        → length (
            add_metric off
              (record { key = ki.key; value = ki.value; time = time })
              (metrics_of kis time))
          ≡ (if off then 0 else 1) + count_enabled kis
    by_mark true rest = omega (arith, rest)
    by_mark false rest = omega (arith, rest)

metrics_of-IsAt : (kis : List KeyInfo) (time : ℕ) → All (IsAt time) (metrics_of kis time)
unfolding metrics_of
metrics_of-IsAt [] time = tt
metrics_of-IsAt (ki ∷ kis) time = by_mark ki.disabled (metrics_of-IsAt kis time)
  where
    by_mark :
        (off : Bool)
        → All (IsAt time) (metrics_of kis time)
        → All (IsAt time) (
            add_metric off
              (record { key = ki.key; value = ki.value; time = time })
              (metrics_of kis time))
    by_mark true rest = rest
    by_mark false rest = (refl, rest)

module _ ⦃P : Platform⦄ {S : Type 0} where
  flush_last-pending :
      (timeseries : Timeseries S) (kp : KeyPackage) (points time : ℕ)
      → 0 < points
      → flush_last (pending timeseries kp points time) ≡ (
          kp_flush timeseries kp time >>= λ (rc, left, timeseries').
          done (rc, pending timeseries' left points time))
  unfolding flush_last
  flush_last-pending timeseries kp points time h =
      let test : ltb 0 points ≡ true = ground arith in rw test refl

  -- Given the text that the ASCII backend writes of a flush with at least one enabled key, for keys and
  -- values that a line can hold and lines that fit its buffer, in batch mode, with a valid package that
  -- has room, with memory and with errno other than ERANGE, and reading the lines of a file as wandio_fgets
  -- does, timeseries-insert flushes once, at the time of that flush: a valid package, in which each enabled
  -- key of the flush has the last value that the flush has for its name, and each other name has what
  -- it had.
  pub insert_file_copied :
      (wandio_fgets : Reader) (kis : List KeyInfo) (time : ℕ) (timeseries : Timeseries S)
      (kp : KeyPackage)
      → ReadsLines wandio_fgets
      → time < 2 ^ 32
      → All IsWritable kis
      → All (IsShort time) kis
      → 0 < count_enabled kis
      → HasMemory
      → IsValid kp
      → kp.key_infos_cnt + count_enabled kis < 2 ^ 31
      → (kp' : KeyPackage) × IsValid kp'
        × Latest kp (metrics_of kis time) kp'
        × (insert_file wandio_fgets (enabled_lines kis time) false (pending timeseries kp 0 0) ≡ (
            kp_flush timeseries kp' time >>= λ (rc, left, timeseries').
            done (rc, pending timeseries' left (count_enabled kis) time)))
  unfolding insert_file
  insert_file_copied wandio_fgets kis time timeseries kp reads ht writable short some_on memory v
        room =
      let n = length-metrics_of kis time in
      let points : 0 + length (metrics_of kis time) ≡ count_enabled kis = omega (arith, n) in
      let (text, same) =
        insert_all-enabled_lines kis time (pending timeseries kp 0 0) ht writable in
      let lines : List Bytes = map text_of (metrics_of kis time) in
      let read : wandio_fgets buffer_len (enabled_lines kis time) ≡ lines =
        ap (wandio_fgets buffer_len) (sym text)
        ∙ reads buffer_len lines (metrics_of-Fits kis time writable short) in
      let (kp', g, e, v', _, at, latest) =
        store_all_total timeseries (metrics_of kis time) kp 0 0 time memory v (omega (arith, n))
          (omega (arith, n)) (metrics_of-IsAt kis time) (inl refl) in
      (
        kp',
        v',
        latest,
        ap (λ l. insert_all l false (pending timeseries kp 0 0)) read
            ∙ same
            ∙ ap (λ o. o >>= if_ok flush_last) e
            ∙ ap₂ (λ (n g : ℕ). flush_last (pending timeseries kp' n g)) points
                (at (omega (arith, n, some_on)))
            ∙ flush_last-pending timeseries kp' (count_enabled kis) time some_on,
      )
