-- ===== src/Proxy/Termination.antt =====
-- When the loop `while (remain > 0)` of handle_message in tools/tsk-proxy.c ends.
use libtimeseries.Base.{
  ℕ, zero, suc, ◌<◌, ◌≡◌, ◌≢◌, refl, sym, ◌∙◌, ◌⊎◌, inl, inr, Bool, List, [], ◌∷◌, ◌++◌, Bytes,
  length, take, drop, ltb, leb, All, Bool-cases, done, fault, unfinished, bind-eq-done, arith,
  length-append, length-drop, append_assoc, of_be16,
}
use libtimeseries.Platform.{Platform}
use libtimeseries.KeyPackage.{KeyPackage}
use libtimeseries.Proxy.Message.{
  Record, key_buf_len, short, truncated, overrun, pair, read_value, read_key, read_record,
  take_pair, parse_key_value, parse_loop,
}
use libtimeseries.Proxy.RoundTrip.{
  Written, nothing, record_then, IsReadable, read_record_of_write_kv, parse_loop_step,
}

-- What is left after reading from `buf`: less than before, or the one byte that is all of `buf`.
abbrev pub Progress : Bytes → Record → Type 0
Progress buf (short rest) = (length rest < length buf) ⊎ ((rest ≡ buf) × (length buf ≡ 1))
Progress buf (truncated rest) = Unit
Progress buf overrun = Unit
Progress buf (pair key value rest) = length rest < length buf

read_value-Progress :
    (key rest buf : Bytes) → length rest < length buf → Progress buf (read_value key rest)
unfolding read_value
read_value-Progress key (a ∷ b ∷ c ∷ d ∷ e ∷ f ∷ g ∷ h ∷ rest) buf shorter = omega arith
read_value-Progress key _ buf shorter = inl shorter

read_key-Progress :
    (keylen : ℕ) (rest buf : Bytes) → length rest < length buf → Progress buf (read_key keylen rest)
unfolding read_key
read_key-Progress keylen rest buf shorter = elim (Bool-cases (ltb (length rest) keylen)) [
  | inl few ↦ rw few tt
  | inr enough ↦ elim (Bool-cases (leb key_buf_len keylen)) [
    | inl long ↦ rw (enough, long) tt
    | inr fits ↦
        rw (enough, fits)
          (read_value-Progress (take keylen rest) (drop keylen rest) buf
            (omega (arith, length-drop keylen rest)))
  ]
]

pub read_record-Progress : (b : ℕ) (bs : Bytes) → Progress (b ∷ bs) (read_record (b ∷ bs))
unfolding read_record
read_record-Progress b [] = inr (refl, refl)
read_record-Progress b (c ∷ rest) =
    read_key-Progress (of_be16 b c) rest (b ∷ c ∷ rest) (omega arith)

module _ ⦃P : Platform⦄ (backends : Bool) (filters : List Bytes) where
  -- One byte that remains is never read: the loop goes round for ever.
  parse_loop_one_byte :
      (fuel b : ℕ) (kp : KeyPackage)
      → parse_loop fuel backends filters (b ∷ []) kp ≡ fault unfinished
  unfolding parse_loop parse_key_value read_record
  parse_loop_one_byte zero b kp = refl
  parse_loop_one_byte (suc fuel) b kp = parse_loop_one_byte fuel b kp

  parse_loop-length_one :
      (fuel : ℕ) (rest : Bytes) (kp : KeyPackage)
      → length rest ≡ 1
      → parse_loop fuel backends filters rest kp ≡ fault unfinished
  parse_loop-length_one fuel [] kp h = absurd (omega arith)
  parse_loop-length_one fuel (b ∷ []) kp h = parse_loop_one_byte fuel b kp
  parse_loop-length_one fuel (b ∷ c ∷ rest) kp h = absurd (omega arith)

  parse_loop_no_fuel :
      (buf : Bytes) (kp kp' : KeyPackage)
      → 0 < length buf
      → parse_loop zero backends filters buf kp ≢ done kp'
  unfolding parse_loop
  parse_loop_no_fuel [] kp kp' h e = absurd (omega arith)
  parse_loop_no_fuel (b ∷ bs) kp kp' h e = cc

  -- A batch whose pairs are followed by a single stray byte never gets through the loop of
  -- handle_message, however many rounds it is given: the byte is too little for a key length, and
  -- parse_key_value returns 0 without consuming it.
  pub parse_loop_stray_byte :
      (kvs : List (Bytes × ℕ)) (bytes : Bytes) (b fuel : ℕ) (kp kp' : KeyPackage)
      → Written kvs bytes
      → All IsReadable kvs
      → parse_loop fuel backends filters (bytes ++ (b ∷ [])) kp ≢ done kp'
  parse_loop_stray_byte _ _ b fuel kp kp' nothing r h = cc (parse_loop_one_byte fuel b kp)
  parse_loop_stray_byte _ _ b zero kp kp' (record_then len {key} {value} {bytes} {kvs} {more} e w)
        (r, rs) h =
      let (_, size) = read_record_of_write_kv len key value bytes more r.0 r.1 e in
      parse_loop_no_fuel ((bytes ++ more) ++ (b ∷ [])) kp kp'
        (omega (arith, length-append bytes more, length-append (bytes ++ more) (b ∷ []))) h
  parse_loop_stray_byte _ _ b (suc fuel) kp kp'
        (record_then len {key} {value} {bytes} {kvs} {more} e w) (r, rs) h =
      let behind : Bytes = more ++ (b ∷ []) in
      let (back, size) = read_record_of_write_kv len key value bytes behind r.0 r.1 e in
      let step =
        parse_loop_step fuel backends filters (bytes ++ behind) kp key value behind
          (omega (arith, length-append bytes behind)) back in
      let (kp₁, _, later) =
        bind-eq-done (take_pair backends filters kp key value) _
          (sym step ∙ (rw append_assoc at h)) in
      parse_loop_stray_byte kvs more b fuel kp₁ kp' w rs later
