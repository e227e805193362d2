-- ===== src/Tests/Insert.antt =====
-- The theorems on tools/timeseries-insert.c at a concrete package and concrete lines.
use libtimeseries.Base.{
  ◌==◌, if◌then◌else◌, ℕ, ap, ◌∙◌, All, ◌^◌, ◌≡◌, refl, false, some, List, [], ◌∷◌, ◌++◌, Bytes,
  codes, arith, done, ◌>>=◌,
}
use libtimeseries.KeyPackage.{KeyPackage}
use libtimeseries.KeyPackage.Invariant.{IsValid}
use libtimeseries.Flush.{kp_flush}
use libtimeseries.Getopt.{decimal, decimal_onto}
use libtimeseries.Ascii.Lines.{enabled_lines}
use libtimeseries.Insert.{Metric, read_metric, insert_all, insert_file, flush_last}
use libtimeseries.Insert.Lines.{IsPlain, text_of, read_metric-text_of}
use libtimeseries.Insert.Package.{HasMemory}
use libtimeseries.Insert.Replay.{join_lines, metrics_of, IsWritable, IsShort, Fits}
use libtimeseries.Insert.Pending.{pending, Latest}
use libtimeseries.Insert.Copied.{insert_file_copied}
use libtimeseries.Insert.Refused.{insert_all_refused}
use libtimeseries.Tests.Fixtures.{platform, kp_empty, kp_empty-IsValid, kp_two, key_a, one_backend}

memory : HasMemory
memory = record {
  realloc = λ n. refl;
  strdup = λ key. refl;
  kh_put = λ key v t. ((key, v) ∷ t, refl);
}

abbrev metric : Metric
metric = record { key = key_a; value = 17; time = 60 }

key_a-IsPlain : All IsPlain key_a
key_a-IsPlain = ((refl, refl), ((refl, refl), ((refl, refl), tt)))

read_metric-text_of_example : read_metric false (text_of metric) ≡ (some metric, false)
read_metric-text_of_example = read_metric-text_of metric key_a-IsPlain (omega arith) (omega arith)

kp_two-IsWritable : All IsWritable kp_two.key_infos
kp_two-IsWritable =
    ((key_a-IsPlain, omega arith, refl), ((((refl, refl), tt), omega arith, refl), tt))

kp_two-IsShort : All (IsShort 60) kp_two.key_infos
unfolding decimal decimal_onto
kp_two-IsShort = (omega arith, (omega arith, tt))

-- A reader with room for every line.
abbrev add_char : ℕ → List Bytes → List Bytes
add_char c [] = (c ∷ []) ∷ []
add_char c (l ∷ ls) = (c ∷ l) ∷ ls

abbrev lines_of : Bytes → List Bytes
lines_of [] = []
lines_of (c ∷ cs) = if c == 10 then [] ∷ lines_of cs else add_char c (lines_of cs)

lines_of-append :
    (l more : Bytes)
    → All (λ c. (c == 10) ≡ false) l
    → lines_of ((l ++ (10 ∷ [])) ++ more) ≡ l ∷ lines_of more
lines_of-append [] more h = refl
lines_of-append (c ∷ cs) more (h, hs) = rw (h, lines_of-append cs more hs) refl

lines_of-join_lines :
    (len : ℕ) (lines : List Bytes) → All (Fits len) lines → lines_of (join_lines lines) ≡ lines
unfolding join_lines
lines_of-join_lines len [] h = refl
lines_of-join_lines len (l ∷ ls) ((h, _), hs) =
    lines_of-append l (join_lines ls) h ∙ ap (λ t. l ∷ t) (lines_of-join_lines len ls hs)

-- The package of two keys, copied into an empty one.
insert_file_copied_example :
    (kp' : KeyPackage) × IsValid kp'
    × Latest kp_empty (metrics_of kp_two.key_infos 60) kp'
    × (insert_file
          (λ len text. lines_of text)
          (enabled_lines kp_two.key_infos 60)
          false
          (pending one_backend kp_empty 0 0)
        ≡ (kp_flush one_backend kp' 60 >>= λ (rc, left, timeseries').
            done (rc, pending timeseries' left 2 60)))
insert_file_copied_example =
    insert_file_copied (λ len text. lines_of text) kp_two.key_infos 60 one_backend kp_empty
      lines_of-join_lines (omega arith) kp_two-IsWritable kp_two-IsShort (omega arith) memory
      kp_empty-IsValid (omega arith)

insert_all_refused_example :
    insert_all
      ((key_a ++ (32 ∷ (decimal (2 ^ 64) ++ (32 ∷ codes "60")))) ∷ codes "b 1 60" ∷ [])
      false
      (pending one_backend kp_empty 0 0)
    ≡ flush_last (pending one_backend kp_empty 0 0)
insert_all_refused_example =
    insert_all_refused key_a (codes "60") (2 ^ 64) (codes "b 1 60" ∷ [])
      (pending one_backend kp_empty 0 0) key_a-IsPlain refl (omega arith) (omega arith)
