-- ===== src/Insert/Replay.antt =====
-- tools/timeseries-insert.c with lib/backends/timeseries_backend_ascii.c: a file that the ASCII backend
-- has written, as the tool takes it in.
use mathlib.Core.Path.{ap₂}
use mathlib.Core.List.{append_assoc, map}
use libtimeseries.Base.{
  length, ◌+◌, ◌==◌, ℕ, ◌^◌, ◌<◌, ◌≡◌, refl, ap, ◌∙◌, Bool, true, false, List, [], ◌∷◌, ◌++◌, Bytes,
  All, if◌then◌else◌, Outcome, done, fault, ◌>>=◌, Status, success, failure,
}
use libtimeseries.Platform.{Platform}
use libtimeseries.KeyPackage.{KeyInfo}
use libtimeseries.Getopt.{decimal}
use libtimeseries.Ascii.Lines.{line, enabled_lines}
use libtimeseries.Insert.{
  Metric, Insert, store_metric, if_ok, if_read, then_flush, flush_last, insert, is_skipped,
  insert_lines, insert_all, buffer_len, Reader,
}
use libtimeseries.Insert.Lines.{IsPlain, decimal-IsPlain, text_of, read_metric-text_of}

abbrev pub add_metric : Bool → Metric → List Metric → List Metric
add_metric true m ms = ms
add_metric false m ms = m ∷ ms

-- The values of the enabled keys, in the order of the ids.
unfoldable pub metrics_of : List KeyInfo → ℕ → List Metric
metrics_of [] time = []
metrics_of (ki ∷ kis) time =
    add_metric ki.disabled (record { key = ki.key; value = ki.value; time = time })
      (metrics_of kis time)

-- The lines, each with its newline.
unfoldable pub join_lines : List Bytes → Bytes
join_lines [] = []
join_lines (l ∷ ls) = (l ++ (10 ∷ [])) ++ join_lines ls

-- A line that fits a buffer of this length, with its newline and the NUL.
abbrev pub Fits : ℕ → Bytes → Type 0
Fits len l = All (λ c. (c == 10) ≡ false) l × (length l + 1 < len)

-- Of a file of lines that fit its buffer, wandio_fgets gives out the lines.
abbrev pub ReadsLines : Reader → Type 0
ReadsLines wandio_fgets =
    (len : ℕ) (lines : List Bytes)
    → All (Fits len) lines
    → wandio_fgets len (join_lines lines) ≡ lines

-- A key that a line can hold: its characters are plain, its value has 64 bits, and it starts no comment.
abbrev pub IsWritable : KeyInfo → Type 0
IsWritable ki =
    All IsPlain ki.key × (ki.value < 2 ^ 64) × (is_skipped (ki.key ++ (32 ∷ [])) ≡ false)

-- The line of the key at this time fits the buffer of timeseries-insert.
abbrev pub IsShort : ℕ → KeyInfo → Type 0
IsShort time ki =
    length (text_of (record { key = ki.key; value = ki.value; time = time })) + 1 < buffer_len

All-append : (P : ℕ → Type 0) (a b : Bytes) → All P a → All P b → All P (a ++ b)
All-append P [] b h k = k
All-append P (c ∷ cs) b (h, hs) k = (h, All-append P cs b hs k)

no_newline : (a : Bytes) → All IsPlain a → All (λ c. (c == 10) ≡ false) a
no_newline [] h = tt
no_newline (c ∷ cs) (h, hs) = (h.1, no_newline cs hs)

text_of-Fits :
    (m : Metric)
    → All IsPlain m.key
    → length (text_of m) + 1 < buffer_len
    → Fits buffer_len (text_of m)
text_of-Fits m plain short = (
  All-append _ m.key _ (no_newline m.key plain) (
    refl,
    All-append _ (decimal m.value) _ (no_newline _ (decimal-IsPlain m.value))
        (refl, no_newline _ (decimal-IsPlain m.time)),
  ),
  short,
)

pub metrics_of-Fits :
    (kis : List KeyInfo) (time : ℕ)
    → All IsWritable kis
    → All (IsShort time) kis
    → All (Fits buffer_len) (map text_of (metrics_of kis time))
unfolding metrics_of
metrics_of-Fits [] time h k = tt
metrics_of-Fits (ki ∷ kis) time ((plain, _, _), others) (short, shorts) =
    by_mark ki.disabled (metrics_of-Fits kis time others shorts)
  where
    by_mark :
        (off : Bool)
        → All (Fits buffer_len) (map text_of (metrics_of kis time))
        → All (Fits buffer_len) (
            map text_of (
              add_metric off
                (record { key = ki.key; value = ki.value; time = time })
                (metrics_of kis time)))
    by_mark true rest = rest
    by_mark false rest = (text_of-Fits _ plain short, rest)

abbrev pub IsReadable : Metric → Type 0
IsReadable m =
    All IsPlain m.key × (m.value < 2 ^ 64) × (m.time < 2 ^ 32) × (is_skipped (text_of m) ≡ false)

is_skipped-append :
    (key more : Bytes)
    → is_skipped (key ++ (32 ∷ [])) ≡ false
    → is_skipped (key ++ (32 ∷ more)) ≡ false
is_skipped-append [] more h = refl
is_skipped-append (c ∷ cs) more h = h

metrics_of-IsReadable :
    (kis : List KeyInfo) (time : ℕ)
    → time < 2 ^ 32
    → All IsWritable kis
    → All IsReadable (metrics_of kis time)
unfolding metrics_of
metrics_of-IsReadable [] time ht h = tt
metrics_of-IsReadable (ki ∷ kis) time ht ((plain, small, starts), others) =
    by_mark ki.disabled (metrics_of-IsReadable kis time ht others)
  where
    by_mark :
        (off : Bool)
        → All IsReadable (metrics_of kis time)
        → All IsReadable (
            add_metric off
              (record { key = ki.key; value = ki.value; time = time })
              (metrics_of kis time))
    by_mark true rest = rest
    by_mark false rest = ((plain, small, ht, is_skipped-append ki.key _ starts), rest)

join_lines-metrics_of :
    (kis : List KeyInfo) (time : ℕ)
    → join_lines (map text_of (metrics_of kis time)) ≡ enabled_lines kis time
unfolding join_lines metrics_of enabled_lines
join_lines-metrics_of [] time = refl
join_lines-metrics_of (ki ∷ kis) time = by_mark ki.disabled (join_lines-metrics_of kis time)
  where
    m : Metric
    m = record { key = ki.key; value = ki.value; time = time }

    by_mark :
        (off : Bool)
        → join_lines (map text_of (metrics_of kis time)) ≡ enabled_lines kis time
        → join_lines (map text_of (add_metric off m (metrics_of kis time)))
          ≡ (if off then [] else line ki.key ki.value time) ++ enabled_lines kis time
    by_mark true rest = rest
    by_mark false rest =
        ap₂ (λ (a b : Bytes). a ++ b)
          (append_assoc ki.key (32 ∷ (decimal ki.value ++ (32 ∷ decimal time))) (10 ∷ [])
            ∙ ap (λ t. ki.key ++ (32 ∷ t))
                (append_assoc (decimal ki.value) (32 ∷ decimal time) (10 ∷ [])))
          rest

module _ ⦃P : Platform⦄ {S : Type 0} where
  -- The metrics, one after the other.
  unfoldable pub store_all : List Metric → Insert S → Outcome (Status × Insert S)
  store_all [] s = done (success, s)
  store_all (m ∷ ms) s = store_metric m s >>= if_ok (store_all ms)

  -- The result of store_all with errno beside it.
  abbrev beside : Status × Insert S → Outcome (Status × Bool × Insert S)
  beside (rc, s) = done (rc, false, s)

  insert_lines-texts :
      (ms : List Metric) (s : Insert S)
      → All IsReadable ms
      → insert_lines (map text_of ms) false s ≡ (store_all ms s >>= beside)
  unfolding insert_lines insert store_all
  insert_lines-texts [] s h = refl
  insert_lines-texts (m ∷ ms) s ((plain, hv, ht, starts), others) = rw starts (
      rw (read_metric-text_of m plain hv ht)
        (by_outcome (store_metric m s) (λ s'. insert_lines-texts ms s' others)))
    where
      by_outcome :
          (o : Outcome (Status × Insert S))
          → ((s' : Insert S)
              → insert_lines (map text_of ms) false s' ≡ (store_all ms s' >>= beside))
          → ((o >>= beside) >>= if_read (insert_lines (map text_of ms)))
            ≡ ((o >>= if_ok (store_all ms)) >>= beside)
      by_outcome (fault e) rest = refl
      by_outcome (done (failure, s')) rest = refl
      by_outcome (done (success, s')) rest = rest s'

  -- The text that the ASCII backend writes of a flush is made of lines, for keys and values that a line
  -- can hold. On these lines, if errno was not ERANGE before, timeseries-insert stores the values of the
  -- enabled keys at the time of the flush, one after the other in the order of the ids, as if it were given
  -- them as values; then it flushes what is pending.
  pub insert_all-enabled_lines :
      (kis : List KeyInfo) (time : ℕ) (s : Insert S)
      → time < 2 ^ 32
      → All IsWritable kis
      → (join_lines (map text_of (metrics_of kis time)) ≡ enabled_lines kis time)
        × (insert_all (map text_of (metrics_of kis time)) false s
            ≡ (store_all (metrics_of kis time) s >>= if_ok flush_last))
  unfolding insert_all
  insert_all-enabled_lines kis time s ht writable = (
    join_lines-metrics_of kis time,
    ap (λ o. o >>= then_flush)
          (insert_lines-texts (metrics_of kis time) s (metrics_of-IsReadable kis time ht writable))
        ∙ by_outcome (store_all (metrics_of kis time) s),
  )
    where
      by_outcome :
          (o : Outcome (Status × Insert S))
          → ((o >>= beside) >>= then_flush) ≡ (o >>= if_ok flush_last)
      by_outcome (fault e) = refl
      by_outcome (done (failure, s')) = refl
      by_outcome (done (success, s')) = refl
