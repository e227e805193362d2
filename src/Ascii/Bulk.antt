-- ===== src/Ascii/Bulk.antt =====
-- lib/backends/timeseries_backend_ascii.c: the protocol of the bulk calls.
use mathlib.Core.Path.{subst}
use mathlib.Core.List.{append_assoc, append-nil}
use libtimeseries.Base.{
  ℕ, ◌+◌, ◌%◌, ◌^◌, ◌<◌, ◌≡◌, refl, sym, ap, ◌∙◌, true, Option, none, some, List, [], ◌∷◌, ◌++◌,
  Bytes, length, ltb, ◌==◌, arith, Outcome, done, ◌>>=◌, Status, success, failure, Bool-cases, inl,
  inr, IsChar, All,
}
use libtimeseries.Ascii.{
  Ascii, AsciiState, ascii_set_bulk_init, ascii_set_bulk_by_id, ascii_set_single,
  ascii_set_single_by_id, count_bulk, dump, metric_line,
}
use libtimeseries.Ascii.Lines.{written, line, time_buffer-decimal, string_at-append}

-- A run of timeseries_backend_ascii_set_bulk_by_id, a call for each id and value, as the callers
-- make it after timeseries_backend_ascii_set_bulk_init.
unfoldable pub set_bulk : List (Bytes × ℕ) → Ascii → Outcome (Status × Ascii)
set_bulk [] a = done (success, a)
set_bulk ((id, value) ∷ kvs) a = do
  (rc, a') ← ascii_set_bulk_by_id a id (length id) value
  elim rc [ failure ↦ done (failure, a') | success ↦ set_bulk kvs a' ]

-- The id of a key, and the lines of the keys.
abbrev pub id_of : Bytes × ℕ → Bytes × ℕ
id_of (key, value) = (key ++ (0 ∷ []), value)

unfoldable pub ids_of : List (Bytes × ℕ) → List (Bytes × ℕ)
ids_of [] = []
ids_of (kv ∷ kvs) = id_of kv ∷ ids_of kvs

unfoldable pub bulk_lines : List (Bytes × ℕ) → ℕ → Bytes
bulk_lines [] time = []
bulk_lines ((key, value) ∷ kvs) time = line key value time ++ bulk_lines kvs time

abbrev pub IsKey : Bytes × ℕ → Type 0
IsKey (key, value) = All IsChar key

-- The counters of the bulk protocol.
abbrev pub Counters : Ascii → ℕ → ℕ → ℕ → Type 0
Counters a cnt expect time =
    (state : AsciiState) × (a.state ≡ some state)
    × (state.bulk_cnt ≡ cnt)
    × (state.bulk_expect ≡ expect)
    × (state.bulk_time ≡ time)

-- What a call for a key of a bulk set leaves.
abbrev Counted : Ascii → Bytes → ℕ → ℕ → ℕ → ℕ → Bytes → Type 0
Counted a key value cnt expect time text =
    (a' : Ascii) × (ascii_set_bulk_by_id a (key ++ (0 ∷ [])) (length (key ++ (0 ∷ []))) value
      ≡ done (success, a'))
    × (written a' ≡ some (text ++ line key value time))
    × (cnt + 1 ≡ expect → Counters a' 0 0 0)
    × (cnt + 1 < expect → Counters a' (cnt + 1) expect time)

abbrev holding : AsciiState → Option Bytes → Bytes → List (Bytes × Bytes) → Ascii
holding s outfile out closed = record {
  state = some (record s { outfile = outfile });
  stdout = out;
  closed = closed;
}

counted :
    (o o' : Option Bytes) (s : AsciiState) (out out' : Bytes) (closed : List (Bytes × Bytes))
    (text key : Bytes) (value : ℕ)
    → ascii_set_single_by_id
        (holding s o out closed)
        (key ++ (0 ∷ []))
        (length (key ++ (0 ∷ [])))
        value
        s.bulk_time
      ≡ done (success, holding s o' out' closed)
    → written (holding s o' out' closed) ≡ some (text ++ line key value s.bulk_time)
    → s.bulk_cnt < s.bulk_expect
    → s.bulk_expect < 2 ^ 32
    → Counted (holding s o out closed) key value s.bulk_cnt s.bulk_expect s.bulk_time text
unfolding ascii_set_bulk_by_id written count_bulk
counted o o' s out out' closed text key value single w inside few =
    let waits : ltb 0 s.bulk_expect ≡ true = ground arith in
    let cnt : (s.bulk_cnt + 1) % 2 ^ 32 ≡ s.bulk_cnt + 1 = omega arith in
    elim (Bool-cases (s.bulk_cnt + 1 == s.bulk_expect)) [
      | inl full ↦ (
        holding (record s { bulk_cnt = 0; bulk_time = 0; bulk_expect = 0 }) o' out' closed,
        rw waits (rw single (rw (cnt, full) refl)),
        w,
        λ _. (_, refl, refl, refl, refl),
        λ less. absurd (ground arith),
      )
      | inr more ↦ (
        holding (record s { bulk_cnt = s.bulk_cnt + 1 }) o' out' closed,
        rw waits (rw single (rw (cnt, more) refl)),
        w,
        λ same. absurd (ground arith),
        λ _. (_, refl, refl, refl, refl),
      )
    ]

append_some :
    {out text : Bytes} (more : Bytes)
    → some out ≡ some text
    → some (out ++ more) ≡ some (text ++ more)
append_some {out} {text} more h =
    let same : out ≡ text = ground arith in ap (λ (t : Bytes). some (t ++ more)) same

by_id-outfile :
    (outfile : Option Bytes) (s : AsciiState) (out : Bytes) (closed : List (Bytes × Bytes))
    (text key : Bytes) (value : ℕ)
    → written (holding s outfile out closed) ≡ some text
    → All IsChar key
    → s.bulk_cnt < s.bulk_expect
    → s.bulk_expect < 2 ^ 32
    → s.bulk_time < 2 ^ 32
    → Counted (holding s outfile out closed) key value s.bulk_cnt s.bulk_expect s.bulk_time text
unfolding ascii_set_single_by_id ascii_set_single dump metric_line written
by_id-outfile none s out closed text key value w chars inside few ht =
    counted none none s out (out ++ line key value s.bulk_time) closed text key value
      (rw (string_at-append key chars) (rw (time_buffer-decimal s.bulk_time ht) refl))
      (append_some (line key value s.bulk_time) w) inside few
by_id-outfile (some old) s out closed text key value w chars inside few ht =
    counted (some old) (some (old ++ line key value s.bulk_time)) s out out closed text key value
      (rw (string_at-append key chars) (rw (time_buffer-decimal s.bulk_time ht) refl))
      (append_some (line key value s.bulk_time) w) inside few

by_id-Counted :
    (a : Ascii) (text key : Bytes) (value cnt expect time : ℕ)
    → written a ≡ some text
    → All IsChar key
    → Counters a cnt expect time
    → cnt < expect
    → expect < 2 ^ 32
    → time < 2 ^ 32
    → Counted a key value cnt expect time text
by_id-Counted a text key value cnt expect time w chars (s, e, e₁, e₂, e₃) inside few ht =
    subst (λ t. Counted a key value cnt expect t text) e₃
      (subst (λ n. Counted a key value cnt n s.bulk_time text) e₂
        (subst (λ c. Counted a key value c s.bulk_expect s.bulk_time text) e₁
          (subst (λ b. Counted b key value s.bulk_cnt s.bulk_expect s.bulk_time text)
            {x = holding s s.outfile a.stdout a.closed} {y = a} same
            (by_id-outfile s.outfile s a.stdout a.closed text key value
              (ap (λ (b : Ascii). written b) same ∙ w) chars (omega (arith, e₁, e₂))
              (omega (arith, e₂)) (omega (arith, e₃))))))
  where
    same : holding s s.outfile a.stdout a.closed ≡ a
    same = ap (λ (st : Option AsciiState). record a { state = st }) (sym e)

set_bulk-Counters :
    (a : Ascii) (kv : Bytes × ℕ) (kvs : List (Bytes × ℕ)) (cnt expect time : ℕ) (text : Bytes)
    → written a ≡ some text
    → Counters a cnt expect time
    → cnt + length (kv ∷ kvs) ≡ expect
    → expect < 2 ^ 32
    → time < 2 ^ 32
    → All IsKey (kv ∷ kvs)
    → (a' : Ascii) × (set_bulk (ids_of (kv ∷ kvs)) a ≡ done (success, a'))
      × (written a' ≡ some (text ++ bulk_lines (kv ∷ kvs) time))
      × Counters a' 0 0 0
unfolding set_bulk ids_of bulk_lines
set_bulk-Counters a (key, value) [] cnt expect time text w c n few ht (h, hs) =
    let (a', e, w', full, _) =
      by_id-Counted a text key value cnt expect time w h c (omega arith) few ht in
    (
      a',
      rw e refl,
      w' ∙ ap (λ (l : Bytes). some (text ++ l)) (sym (append-nil _)),
      full (omega arith),
    )
set_bulk-Counters a (key, value) (kv ∷ kvs) cnt expect time text w c n few ht (h, hs) =
    let (a₁, e₁, w₁, _, more) =
      by_id-Counted a text key value cnt expect time w h c (omega arith) few ht in
    let (a', e, w', c') =
      set_bulk-Counters a₁ kv kvs (cnt + 1) expect time (text ++ line key value time) w₁
        (more (omega arith)) (omega arith) few ht hs in
    (
      a',
      rw e₁ e,
      w' ∙ ap some (append_assoc text (line key value time) (bulk_lines (kv ∷ kvs) time)),
      c',
    )

-- From a backend that waits for no bulk values, a set of `n` > 0 keys that are set by their ids
-- after set_bulk_init succeeds, writes a line for each in order, and leaves a backend that waits for
-- no bulk values.
pub set_bulk_lem :
    (a : Ascii) (kvs : List (Bytes × ℕ)) (time time' : ℕ) (text : Bytes)
    → written a ≡ some text
    → Counters a 0 0 time'
    → 0 < length kvs
    → length kvs < 2 ^ 32
    → time < 2 ^ 32
    → All IsKey kvs
    → (a' : Ascii) × ((ascii_set_bulk_init a (length kvs) time >>= λ (rc, begun).
          set_bulk (ids_of kvs) begun)
        ≡ done (success, a'))
      × (written a' ≡ some (text ++ bulk_lines kvs time))
      × Counters a' 0 0 0
unfolding ascii_set_bulk_init written
set_bulk_lem a [] time time' text w c some_kvs few ht keys = absurd (omega arith)
set_bulk_lem a (kv ∷ kvs) time time' text w (s, e, e₁, e₂, e₃) some_kvs few ht keys =
    let begun : Ascii = record a {
      state = some (record s { bulk_expect = length (kv ∷ kvs); bulk_time = time });
    } in
    let init : ascii_set_bulk_init a (length (kv ∷ kvs)) time ≡ done (success, begun) =
      rw (e, ascii_set_bulk_init, e₁, e₂) refl in
    let (a', run, w', c') =
      set_bulk-Counters begun kv kvs 0 (length (kv ∷ kvs)) time text (rw (e, written) at w)
        (_, refl, e₁, refl, refl) (omega arith) few ht keys in
    (a', rw init run, w', c')
