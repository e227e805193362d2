-- ===== src/Ascii/Lines.antt =====
-- lib/backends/timeseries_backend_ascii.c: the text that the backend writes.
use mathlib.Core.List.{append_assoc, append-nil}
use libtimeseries.Base.{
  ℕ, suc, ◌+◌, ◌^◌, ◌<◌, ◌≡◌, refl, sym, ap, ◌∙◌, Bool, true, false, Option, none, some, List, [],
  ◌∷◌, ◌++◌, Bytes, length, ◌==◌, arith, if◌then◌else◌, done, success, get_elem?, Bool-cases, inl,
  inr, IsChar, All, take-all, get_elem?-append, length-append,
}
use libtimeseries.Platform.{Platform}
use libtimeseries.KeyPackage.{
  KeyInfo, KeyPackage, key_info, kp_size, ki_enabled, ki_get_key, ki_get_value,
}
use libtimeseries.KeyPackage.Invariant.{IsValid}
use libtimeseries.Flush.View.{KeepsView, view}
use libtimeseries.Getopt.{decimal}
use libtimeseries.Getopt.Decimal.{length-decimal32}
use libtimeseries.Ascii.{
  Ascii, AsciiState, metric_line, time_buffer, dump, dump_enabled, ascii_kp_flush, ascii_set_single,
  ascii_set_single_by_id, ascii_resolve_key, ascii_ops, string_at,
}

-- What the backend has written where it now writes: to its file, or to stdout.
unfoldable pub written : Ascii → Option Bytes
written a = elim a.state [
  | none ↦ none
  | some state ↦ elim state.outfile [ none ↦ some a.stdout | some text ↦ some text ]
]

-- One line, `key value time`.
abbrev pub line : Bytes → ℕ → ℕ → Bytes
line key value time = key ++ (32 ∷ (decimal value ++ (32 ∷ (decimal time ++ (10 ∷ [])))))

-- The lines of the enabled keys in the order of their ids.
unfoldable pub enabled_lines : List KeyInfo → ℕ → Bytes
enabled_lines [] time = []
enabled_lines (ki ∷ kis) time =
    (if ki.disabled then [] else line ki.key ki.value time) ++ enabled_lines kis time

-- For a time of 32 bits, the text that snprintf leaves in the buffer of 11 bytes is all of the
-- decimal digits of the time.
pub time_buffer-decimal : (time : ℕ) → time < 2 ^ 32 → time_buffer time ≡ decimal time
unfolding time_buffer
time_buffer-decimal time h = take-all (decimal time) 10 (length-decimal32 time h)

pub string_at-append : (key : Bytes) → All IsChar key → string_at (key ++ (0 ∷ [])) ≡ done key
unfolding string_at
string_at-append [] chars = refl
string_at-append (c ∷ cs) (h, hs) =
    let other : (c == 0) ≡ false = ground arith in rw (other, string_at-append cs hs) refl

-- What a dump of `more` makes of the text that was written.
abbrev Dumped : Ascii → Bytes → Bytes → Type 0
Dumped a text more = (a' : Ascii) × (dump a more ≡ done a') × (written a' ≡ some (text ++ more))

dump-outfile :
    (outfile : Option Bytes) (s : AsciiState) (out : Bytes) (closed : List (Bytes × Bytes))
    (text more : Bytes)
    → written
        (record { state = some (record s { outfile = outfile }); stdout = out; closed = closed })
      ≡ some text
    → Dumped
        (record { state = some (record s { outfile = outfile }); stdout = out; closed = closed })
        text
        more
unfolding written dump
dump-outfile none s out closed text more h =
    let same : out ≡ text = ground arith in (_, refl, ap (λ (t : Bytes). some (t ++ more)) same)
dump-outfile (some old) s out closed text more h =
    let same : old ≡ text = ground arith in (_, refl, ap (λ (t : Bytes). some (t ++ more)) same)

dump-state :
    (state : Option AsciiState) (out : Bytes) (closed : List (Bytes × Bytes)) (text more : Bytes)
    → written (record { state = state; stdout = out; closed = closed }) ≡ some text
    → Dumped (record { state = state; stdout = out; closed = closed }) text more
dump-state none out closed text more h = unfold written in cc
dump-state (some s) out closed text more h = dump-outfile s.outfile s out closed text more h

pub dump-written :
    (a : Ascii) (text more : Bytes)
    → written a ≡ some text
    → (a' : Ascii) × (dump a more ≡ done a') × (written a' ≡ some (text ++ more))
dump-written a text more h = dump-state a.state a.stdout a.closed text more h

abbrev line_of : KeyInfo → ℕ → Bytes
line_of ki time = if ki.disabled then [] else line ki.key ki.value time

dump_one-written :
    (ki : KeyInfo) (time : ℕ) (a : Ascii) (text : Bytes)
    → time < 2 ^ 32
    → written a ≡ some text
    → (a' : Ascii) × ((if ki_enabled ki
          then dump a (metric_line (ki_get_key ki) (ki_get_value ki) (time_buffer time))
          else done a)
        ≡ done a')
      × (written a' ≡ some (text ++ line_of ki time))
unfolding ki_enabled ki_get_key ki_get_value metric_line
dump_one-written ki time a text ht h = elim (Bool-cases ki.disabled) [
  | inl off ↦ (a, rw off refl, rw off (h ∙ ap some (sym (append-nil text))))
  | inr on ↦
      let (a', e, w) = dump-written a text (line ki.key ki.value time) h in
      (a', rw (on, time_buffer-decimal time ht) e, rw on w)
]

module _ ⦃P : Platform⦄ where
  dump_enabled-step :
      (n id : ℕ) (kp : KeyPackage) (time : Bytes) (a a' : Ascii) (ki : KeyInfo)
      → get_elem? kp.key_infos id ≡ some ki
      → (if ki_enabled ki
          then dump a (metric_line (ki_get_key ki) (ki_get_value ki) time)
          else done a)
        ≡ done a'
      → dump_enabled (suc n) id kp time a ≡ dump_enabled n (id + 1) kp time a'
  unfolding dump_enabled
  dump_enabled-step n id kp time a a' ki found e =
      let info : key_info kp id ≡ done ki = rw (found, key_info) refl in rw info (rw e refl)

  dump_enabled-written :
      (front kis : List KeyInfo) (id : ℕ) (kp : KeyPackage) (time : ℕ) (a : Ascii) (text : Bytes)
      → time < 2 ^ 32
      → kp.key_infos ≡ front ++ kis
      → id ≡ length front
      → written a ≡ some text
      → (a' : Ascii) × (dump_enabled (length kis) id kp (time_buffer time) a ≡ done a')
        × (written a' ≡ some (text ++ enabled_lines kis time))
  unfolding enabled_lines
  dump_enabled-written front [] id kp time a text ht at n h =
      (a, unfold dump_enabled in refl, h ∙ ap some (sym (append-nil text)))
  dump_enabled-written front (ki ∷ kis) id kp time a text ht at n h =
      let found : get_elem? kp.key_infos id ≡ some ki =
        rw at (get_elem?-append front kis ki id n) in
      let (a₁, e₁, w₁) = dump_one-written ki time a text ht h in
      let (a', e, w) =
        dump_enabled-written (front ++ (ki ∷ [])) kis (id + 1) kp time a₁ (text ++ line_of ki time)
          ht (at ∙ sym (append_assoc front (ki ∷ []) kis))
          (omega (arith, n, length-append front (ki ∷ []))) w₁ in
      (
        a',
        dump_enabled-step (length kis) id kp (time_buffer time) a a₁ ki found e₁ ∙ e,
        w ∙ ap some (append_assoc text (line_of ki time) (enabled_lines kis time)),
      )

  -- A flush of a valid package by an ASCII backend that is initialised succeeds. It appends to what
  -- the backend has written one line for each enabled key, with its name, its value and the time,
  -- in the order of the ids.
  pub ascii_kp_flush_lem :
      (a : Ascii) (kp : KeyPackage) (time : ℕ) (text : Bytes)
      → IsValid kp
      → time < 2 ^ 32
      → written a ≡ some text
      → (a' : Ascii) × (ascii_kp_flush a kp time ≡ done (success, a'))
        × (written a' ≡ some (text ++ enabled_lines kp.key_infos time))
  unfolding ascii_kp_flush kp_size
  ascii_kp_flush_lem a kp time text v ht h =
      let (a', e, w) = dump_enabled-written [] kp.key_infos 0 kp time a text ht refl refl h in
      let same : dump_enabled kp.key_infos_cnt 0 kp (time_buffer time) a ≡ done a' =
        ap (λ n. dump_enabled n 0 kp (time_buffer time) a) v.counted ∙ e in
      (a', rw same refl, w)

  -- The backend keeps to the interface: updating key infos changes nothing of a package.
  pub ascii_ops-KeepsView :
      (wandio_wcreate : Bytes → ℕ → Bool) (memory : Bool)
      → KeepsView (ascii_ops wandio_wcreate memory)
  unfolding ascii_ops
  ascii_ops-KeepsView wandio_wcreate memory = record {
    update_view = λ s s' kp kp' rc h. ap view (ground arith);
  }

  -- A key that the backend resolves has an id that stands for it: the id is the key with its NUL, its
  -- length is that of the id, and setting a value by the id writes what setting it by the key writes.
  pub set_single_by_id-resolve_key :
      (a : Ascii) (key : Bytes) (value time : ℕ)
      → All IsChar key
      → P.strdup key ≡ true
      → (id : Bytes) × (ascii_resolve_key a key ≡ done (length id, some id, a))
        × (ascii_set_single_by_id a id (length id) value time ≡ ascii_set_single a key value time)
  unfolding ascii_resolve_key ascii_set_single_by_id
  set_single_by_id-resolve_key a key value time chars memory =
      let size : length key + 1 ≡ length (key ++ (0 ∷ [])) =
        omega (arith, length-append key (0 ∷ [])) in
      (key ++ (0 ∷ []), rw memory (ground (arith, size)), rw (string_at-append key chars) refl)
