-- ===== src/Proxy/Store.antt =====
-- What parse_key_value of tools/tsk-proxy.c leaves in the key package for a pair that it stores.
use libtimeseries.Base.{
  ℕ, ◌+◌, ◌-◌, ◌^◌, ◌<◌, ◌≡◌, ◌≢◌, sym, ap, ◌∙◌, Bool, true, false, Option, none, some, Bytes,
  arith, str_eq, str_eq_refl, if◌then◌else◌, Outcome, done, fault, ◌>>=◌, bind-eq-done,
  Option-cases, inl, inr, Bool-cases, str_eq_iff, not, [], undefined,
}
use libtimeseries.Platform.{Platform}
use libtimeseries.KeyPackage.{
  KeyPackage, kp_get_key, kp_add_key, kp_get, kp_set, kp_enable_key, append_key,
}
use libtimeseries.KeyPackage.Invariant.{
  IsValid, add_key-IsValid, enable_key-IsValid, kp_set-IsValid,
}
use libtimeseries.KeyPackage.Lookup.{get_key-add_key}
use libtimeseries.KeyPackage.Marks.{key_enabled, enable_key_lem, kp_set-eq-done, add_key-eq-enabled}
use libtimeseries.Proxy.{id_or_minus_one}
use libtimeseries.Proxy.Message.{enable_or_add, store}

module _ ⦃P : Platform⦄ where
  -- The key has an id under which it is enabled; the other keys are as they were.
  record Opened (kp : KeyPackage) (key : Bytes) (id : ℕ) (kp' : KeyPackage) : Type 0 where
    valid : IsValid kp'
    names : (j : Bytes) → kp_get_key kp' j ≡ (if str_eq key j then some id else kp_get_key kp j)
    on : key_enabled kp' id ≡ done true
    values : (j : ℕ) → j < kp.key_infos_cnt → kp_get kp' j ≡ kp_get kp j
    marks : (j : ℕ) → j < kp.key_infos_cnt → id ≢ j → key_enabled kp' j ≡ key_enabled kp j

  abbrev with_id : ℕ → KeyPackage → Outcome (Option ℕ × KeyPackage)
  with_id id kp = done (some id, kp)

  enabled_old :
      (kp kp' : KeyPackage) (old id : ℕ)
      → (kp_enable_key kp old >>= with_id old) ≡ done (some id, kp')
      → (old ≡ id) × (kp_enable_key kp id ≡ done kp')
  enabled_old kp kp' old id h =
      let (k, enabled, e) = bind-eq-done (kp_enable_key kp old) (with_id old) h in
      let same : old ≡ id = ground arith in
      let left : k ≡ kp' = ground arith in
      (same, ap (kp_enable_key kp) (sym same) ∙ enabled ∙ ap done left)

  get_key_of_hash :
      (kp kp' : KeyPackage) (j : Bytes)
      → kp'.key_id_hash ≡ kp.key_id_hash
      → kp_get_key kp' j ≡ kp_get_key kp j
  unfolding kp_get_key
  get_key_of_hash kp kp' j h = ap (P.kh_get j) h

  reopened :
      {kp kp' : KeyPackage} {key : Bytes} {id : ℕ}
      → IsValid kp
      → kp_get_key kp key ≡ some id
      → kp_enable_key kp id ≡ done kp'
      → Opened kp key id kp'
  reopened {kp} {kp'} {key} {id} v known on = record {
    valid = enable_key-IsValid id v on;
    names = λ j. elim (Bool-cases (str_eq key j)) [
      | inl same ↦ rw same (kept j ∙ ap (kp_get_key kp) (sym ((str_eq_iff key j).0 same)) ∙ known)
      | inr other ↦ rw other (kept j)
    ];
    on = ground (arith, (enable_key_lem kp kp' id id v on).2);
    values = λ j _. (enable_key_lem kp kp' id j v on).4.values j;
    marks = λ j _ ne. ground (arith, (enable_key_lem kp kp' id j v on).2);
  }
    where
      kept : (j : Bytes) → kp_get_key kp' j ≡ kp_get_key kp j
      kept j = get_key_of_hash kp kp' j (enable_key_lem kp kp' id id v on).4.hash

  enable_or_add-Opened :
      (backends : Bool) (kp kp' : KeyPackage) (key : Bytes) (id : ℕ)
      → IsValid kp
      → kp.key_infos_cnt + 1 < 2 ^ 31
      → enable_or_add backends kp key ≡ done (some id, kp')
      → Opened kp key id kp'
  unfolding enable_or_add
  enable_or_add-Opened backends kp kp' key id v room h = elim (Option-cases (kp_get_key kp key)) [
    | inl fresh ↦
        let added : kp_add_key backends kp key ≡ done (some id, kp') =
          rw (fresh, enable_or_add) at h in
        record {
          valid = add_key-IsValid backends key id v room added;
          names = λ j. (get_key-add_key kp kp' backends key j id v added).1;
          on = (add_key-eq-enabled kp kp' backends key id id v added).0;
          values = λ j p. ((add_key-eq-enabled kp kp' backends key id j v added).1 p).0;
          marks = λ j p _. ((add_key-eq-enabled kp kp' backends key id j v added).1 p).1;
        }
    | inr (old, known) ↦
        let (same, on) = enabled_old kp kp' old id (rw (known, enable_or_add) at h) in
        reopened v (known ∙ ap some same) on
  ]

  add_key-cnt :
      (backends : Bool) (kp kp' : KeyPackage) (key : Bytes)
      → kp_add_key backends kp key ≡ done (none, kp')
      → kp'.key_infos_cnt ≡ kp.key_infos_cnt
  unfolding kp_add_key
  add_key-cnt backends kp kp' key h = after_put (P.kh_put key kp.key_infos_cnt kp.key_id_hash) h
    where
      after_put :
          (o : Option P.Table)
          → (if not (P.realloc (kp.key_infos_cnt + 1))
              then done (none, record kp { key_infos = [] })
              else if not (P.strdup key)
              then (if backends then fault undefined else done (none, kp))
              else done (append_key kp key o))
            ≡ done (none, kp')
          → kp'.key_infos_cnt ≡ kp.key_infos_cnt
      after_put none e = ground arith
      after_put (some t) e = ground arith

  no_id :
      (backends : Bool) (kp kp' : KeyPackage) (key : Bytes)
      → enable_or_add backends kp key ≡ done (none, kp')
      → kp'.key_infos_cnt ≡ kp.key_infos_cnt
  unfolding enable_or_add
  no_id backends kp kp' key h = elim (Option-cases (kp_get_key kp key)) [
    | inl fresh ↦ add_key-cnt backends kp kp' key (rw (fresh, enable_or_add) at h)
    | inr (old, known) ↦
        let (k, _, e) =
          bind-eq-done (kp_enable_key kp old) (with_id old) (rw (known, enable_or_add) at h) in
        cc e
  ]

  -- Storing a pair in a valid package with room, where it returns, leaves a valid package in which
  -- the key has an id, is enabled and has the value; every other name has the id that it had, and
  -- every other id in use has the value and the mark that it had.
  pub store_lem :
      (backends : Bool) (kp kp' : KeyPackage) (key : Bytes) (value : ℕ)
      → IsValid kp
      → kp.key_infos_cnt + 1 < 2 ^ 31
      → store backends kp key value ≡ done kp'
      → (id : ℕ) × IsValid kp'
        × (kp_get_key kp' key ≡ some id)
        × (kp_get kp' id ≡ done value)
        × (key_enabled kp' id ≡ done true)
        × ((j : Bytes) → str_eq key j ≡ false → kp_get_key kp' j ≡ kp_get_key kp j)
        × ((j : ℕ)
            → j < kp.key_infos_cnt
            → id ≢ j
            → (kp_get kp' j ≡ kp_get kp j) × (key_enabled kp' j ≡ key_enabled kp j))
  unfolding store
  store_lem backends kp kp' key value v room h =
      let ((found, k), e, later) = bind-eq-done (enable_or_add backends kp key) _ h in
      stored found k e later
    where
      stored :
          (found : Option ℕ) (k : KeyPackage)
          → enable_or_add backends kp key ≡ done (found, k)
          → kp_set k (id_or_minus_one found) value ≡ done kp'
          → (id : ℕ) × IsValid kp'
            × (kp_get_key kp' key ≡ some id)
            × (kp_get kp' id ≡ done value)
            × (key_enabled kp' id ≡ done true)
            × ((j : Bytes) → str_eq key j ≡ false → kp_get_key kp' j ≡ kp_get_key kp j)
            × ((j : ℕ)
                → j < kp.key_infos_cnt
                → id ≢ j
                → (kp_get kp' j ≡ kp_get kp j) × (key_enabled kp' j ≡ key_enabled kp j))
      stored none k e later =
          let (_, _, inside, _, _) = kp_set-eq-done k kp' (2 ^ 32 - 1) value later in
          absurd (omega (arith, v.small, no_id backends kp k key e))
      stored (some id) k e later =
          let o = enable_or_add-Opened backends kp k key id v room e in
          let (hash, cnt, inside, values, marks) = kp_set-eq-done k kp' id value later in
          (
            id,
            kp_set-IsValid id value o.valid later,
            get_key_of_hash k kp' key hash ∙ o.names key ∙ rw (str_eq_refl key),
            ground (arith, values id),
            marks id ∙ o.on,
            λ j other. get_key_of_hash k kp' j hash ∙ o.names j ∙ rw other,
            λ j p ne. (ground (arith, values j, o.values j p), marks j ∙ o.marks j p ne),
          )
