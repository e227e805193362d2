-- ===== src/Proxy/Ends.antt =====
-- Where the loop `while (remain > 0)` of handle_message in tools/tsk-proxy.c ends.
use libtimeseries.Base.{
  ℕ, zero, suc, get_elem?, ◌+◌, bind_assoc, ◌<◌, ◌≤◌, ◌≡◌, ◌≢◌, inl, inr, refl, sym, ◌∙◌, Bool,
  true, false, not, Option, none, some, List, [], ◌∷◌, Bytes, length, ltb, Outcome, done, fault,
  undefined, assertion, unfinished, ◌>>=◌, assert, if◌then◌else◌, arith,
}
use libtimeseries.Platform.{Platform}
use libtimeseries.KeyPackage.{
  KeyPackage, KeyInfo, key_info, kp_get_key, kp_add_key, kp_enable_key, kp_set, set_value,
}
use libtimeseries.Proxy.{id_or_minus_one}
use libtimeseries.Proxy.Message.{
  Record, after_record, short, truncated, overrun, pair, read_record, passes, enable_or_add, store,
  c_string, take_pair, parse_record, parse_key_value, parse_loop,
}
use libtimeseries.Proxy.Termination.{Progress, read_record-Progress}

-- Reading records from these bytes, where each takes some of them, comes to a single byte.
pub data EndsInByte : Bytes → Type 0 where
  one_byte : (b : ℕ) → EndsInByte (b ∷ [])
  behind_pair :
      {buf key rest : Bytes} {value : ℕ}
      → read_record buf ≡ pair key value rest
      → EndsInByte rest
      → EndsInByte buf
  behind_short :
      {buf rest : Bytes}
      → read_record buf ≡ short rest
      → length rest < length buf
      → EndsInByte rest
      → EndsInByte buf

-- A run that ends, with a result or with a fault of the program.
abbrev Stops : {A : Type 0} → Outcome A → Type 0
Stops o = o ≢ fault unfinished

Stops-bind :
    {A B : Type 0} (o : Outcome A) (k : A → Outcome B)
    → Stops o
    → ((a : A) → Stops (k a))
    → Stops (o >>= k)
Stops-bind (done a) k h h' = h' a
Stops-bind (fault undefined) k h h' = λ e. cc
Stops-bind (fault assertion) k h h' = λ e. cc
Stops-bind (fault unfinished) k h h' = λ e. absurd (h refl)

Stops-done : {A : Type 0} (a : A) → Stops (done a)
Stops-done a e = cc

Stops-if :
    {A : Type 0} (b : Bool) {x y : Outcome A} → Stops x → Stops y → Stops (if b then x else y)
Stops-if true h k = h
Stops-if false h k = k

Stops-assert : (b : Bool) → Stops (assert b)
Stops-assert true e = cc
Stops-assert false e = cc

module _ ⦃P : Platform⦄ where
  key_info-Stops : (kp : KeyPackage) (id : ℕ) → Stops (key_info kp id)
  key_info-Stops kp id = by_element (get_elem? kp.key_infos id)
    where
      by_element :
          (o : Option KeyInfo) → Stops (elim o [ none ↦ fault undefined | some ki ↦ done ki ])
      by_element none e = cc
      by_element (some ki) e = cc

  enable_key-Stops : (kp : KeyPackage) (id : ℕ) → Stops (kp_enable_key kp id)
  unfolding kp_enable_key
  enable_key-Stops kp id = Stops-bind (key_info kp id) _ (key_info-Stops kp id) (λ ki e. cc)

  kp_set-Stops : (kp : KeyPackage) (id value : ℕ) → Stops (kp_set kp id value)
  unfolding kp_set set_value
  kp_set-Stops kp id value =
      Stops-bind (assert (ltb id kp.key_infos_cnt)) _ (Stops-assert _)
        (λ u. Stops-bind (key_info kp id) _ (key_info-Stops kp id) (λ ki e. cc))

  add_key-Stops :
      (backends : Bool) (kp : KeyPackage) (key : Bytes) → Stops (kp_add_key backends kp key)
  unfolding kp_add_key
  add_key-Stops backends kp key =
      Stops-if (not (P.realloc (kp.key_infos_cnt + 1))) (λ e. cc)
        (Stops-if (not (P.strdup key)) (Stops-if backends (λ e. cc) (λ e. cc)) (λ e. cc))

  enable_or_add-Stops :
      (backends : Bool) (kp : KeyPackage) (key : Bytes) → Stops (enable_or_add backends kp key)
  enable_or_add-Stops backends kp key = unfold enable_or_add in (by_id (kp_get_key kp key))
    where
      by_id :
          (o : Option ℕ)
          → Stops (elim o [
            | none ↦ kp_add_key backends kp key
            | some id ↦ kp_enable_key kp id >>= λ kp'. done (some id, kp')
          ])
      by_id none = add_key-Stops backends kp key
      by_id (some id) = Stops-bind (kp_enable_key kp id) _ (enable_key-Stops kp id) (λ kp' e. cc)

  take_pair-Stops :
      (backends : Bool) (filters : List Bytes) (kp : KeyPackage) (key : Bytes) (value : ℕ)
      → Stops (take_pair backends filters kp key value)
  unfolding take_pair store
  take_pair-Stops backends filters kp key value =
      Stops-if (passes filters key)
        (Stops-bind (enable_or_add backends kp (c_string key)) _
          (enable_or_add-Stops backends kp (c_string key))
          (λ a. kp_set-Stops a.1 (id_or_minus_one a.0) value))
        (λ e. cc)

module _ ⦃P : Platform⦄ (backends : Bool) (filters : List Bytes) where
  round-Stops :
      (fuel : ℕ) (buf : Bytes) (kp : KeyPackage) (r : Record)
      → read_record buf ≡ r
      → Progress buf r
      → ¬ EndsInByte buf
      → ((rest : Bytes) (kp' : KeyPackage)
          → length rest < length buf
          → ¬ EndsInByte rest
          → Stops (parse_loop fuel backends filters rest kp'))
      → Stops
          (parse_record backends filters kp r >>= after_record (parse_loop fuel backends filters))
  unfolding parse_record
  round-Stops fuel buf kp (short rest) e (inl shorter) none_left ih =
      ih rest kp shorter (λ h. none_left (behind_short e shorter h))
  round-Stops fuel buf kp (short rest) e (inr (same, one)) none_left ih =
      absurd (none_left (single buf one))
    where
      single : (b : Bytes) → length b ≡ 1 → EndsInByte b
      single [] h = absurd (omega (arith, h))
      single (b ∷ []) h = one_byte b
      single (b ∷ c ∷ bs) h = absurd (omega (arith, h))
  round-Stops fuel buf kp (truncated rest) e p none_left ih = λ f. cc
  round-Stops fuel buf kp overrun e p none_left ih = λ f. cc
  round-Stops fuel buf kp (pair key value rest) e shorter none_left ih =
      let taken = take_pair backends filters kp key value in
      λ f.
        Stops-bind taken (λ kp'. parse_loop fuel backends filters rest kp')
          (take_pair-Stops backends filters kp key value)
          (λ kp'. ih rest kp' shorter (λ h. none_left (behind_pair e h)))
          (sym (bind_assoc taken _ _) ∙ f)

  -- Where reading its records does not come to a single byte, a batch gets through the loop of
  -- handle_message in at most as many rounds as it has bytes: the loop stops with the package or at a
  -- fault of the program.
  pub parse_loop-ne-unfinished :
      (fuel : ℕ) (buf : Bytes) (kp : KeyPackage)
      → length buf ≤ fuel
      → ¬ EndsInByte buf
      → parse_loop fuel backends filters buf kp ≢ fault unfinished
  unfolding parse_loop parse_key_value
  parse_loop-ne-unfinished fuel [] kp enough none_left = λ e. cc
  parse_loop-ne-unfinished zero (b ∷ bs) kp enough none_left = absurd (omega (arith, enough))
  parse_loop-ne-unfinished (suc fuel) (b ∷ bs) kp enough none_left =
      round-Stops fuel (b ∷ bs) kp (read_record (b ∷ bs)) refl (read_record-Progress b bs) none_left
        (λ rest kp' shorter left.
          parse_loop-ne-unfinished fuel rest kp' (omega (arith, shorter, enough)) left)
