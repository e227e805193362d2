-- ===== src/Insert/Package.antt =====
-- tools/timeseries-insert.c: what a metric makes of the key package in batch mode, where the allocator
-- and the map have memory.
use libtimeseries.Base.{
  ℕ, ◌+◌, ◌%◌, ◌^◌, ◌≤◌, ◌<◌, ◌≡◌, ◌≢◌, refl, sym, ap, ◌∙◌, Bool, true, false, some, Bytes,
  get_elem?, set, ltb, arith, str_eq, str_eq_refl, done, Option-cases, inl, inr, get_elem?-total,
}
use libtimeseries.Platform.{Platform}
use libtimeseries.KeyPackage.{
  KeyPackage, kp_get_key, kp_add_key, kp_get, kp_set, append_key, key_info, kp_ki_set,
}
use libtimeseries.KeyPackage.Invariant.{IsValid, add_key-IsValid, kp_set-IsValid}
use libtimeseries.KeyPackage.Lookup.{get_key-add_key, get_key_name-get_key}
use libtimeseries.KeyPackage.Marks.{kp_set-eq-done, add_key-eq-enabled}
use libtimeseries.Insert.{find_or_add}

module _ ⦃P : Platform⦄ where
  -- Each request for memory is granted.
  pub record HasMemory : Type 0 where
    pub realloc : (n : ℕ) → P.realloc n ≡ true
    pub strdup : (key : Bytes) → P.strdup key ≡ true
    pub kh_put : (key : Bytes) (v : ℕ) (t : P.Table) → (u : P.Table) × (P.kh_put key v t ≡ some u)

  -- The package has the value under the name.
  abbrev pub Reads : KeyPackage → Bytes → ℕ → Type 0
  Reads kp key value = (id : ℕ) × (kp_get_key kp key ≡ some id) × (kp_get kp id ≡ done value)

  ids_differ :
      (kp : KeyPackage) (key j : Bytes) (i i' : ℕ)
      → IsValid kp
      → kp_get_key kp key ≡ some i
      → kp_get_key kp j ≡ some i'
      → str_eq key j ≡ false
      → i ≢ i'
  unfolding kp_get_key
  ids_differ kp key j i i' v known known' other same =
      let (ki, at, named) = v.sound key i known in
      let (ki', at', named') = v.sound j i' known' in
      let one : some ki ≡ some ki' = sym at ∙ ap (get_elem? kp.key_infos) same ∙ at' in
      let keys : key ≡ j = ground arith in
      let both : str_eq key j ≡ true = ap (λ k. str_eq key k) (sym keys) ∙ str_eq_refl key in cc

  kp_set-total :
      (kp : KeyPackage) (i value : ℕ)
      → IsValid kp
      → i < kp.key_infos_cnt
      → (kp' : KeyPackage) × (kp_set kp i value ≡ done kp')
  unfolding kp_set
  kp_set-total kp i value v h =
      let (ki, at) = get_elem?-total kp.key_infos i (omega (arith, v.counted)) in
      let test : ltb i kp.key_infos_cnt ≡ true = ground arith in
      (
        record kp { key_infos = set kp.key_infos i (kp_ki_set ki value) },
        rw test (rw (at, key_info) refl),
      )

  -- The package after the value is set under an id.
  set_found :
      (kp : KeyPackage) (key : Bytes) (id value : ℕ)
      → IsValid kp
      → id < kp.key_infos_cnt
      → kp_get_key kp key ≡ some id
      → (kp' : KeyPackage) × (kp_set kp id value ≡ done kp')
        × IsValid kp'
        × (kp'.key_infos_cnt ≡ kp.key_infos_cnt)
        × Reads kp' key value
        × ((j : Bytes) (w : ℕ) → str_eq key j ≡ false → Reads kp j w → Reads kp' j w)
  unfolding kp_get_key
  set_found kp key id value v h known =
      let (kp', e) = kp_set-total kp id value v h in
      let (hash, cnt, _, values, _) = kp_set-eq-done kp kp' id value e in
      (
        kp',
        e,
        kp_set-IsValid id value v e,
        cnt,
        (id, ap (P.kh_get key) hash ∙ known, ground (arith, values id)),
        λ j w other (i, known', has). (
          i,
          ap (P.kh_get j) hash ∙ known',
          ground (arith, values i, ids_differ kp key j id i v known known' other),
        ),
      )

  -- The package with the key in it.
  abbrev Found : Bool → KeyPackage → Bytes → Type 0
  Found backends kp key =
      (id : ℕ) × (kp' : KeyPackage) × (find_or_add backends kp key ≡ done (some id, kp'))
      × IsValid kp'
      × (id < kp'.key_infos_cnt)
      × (kp'.key_infos_cnt ≤ kp.key_infos_cnt + 1)
      × (kp_get_key kp' key ≡ some id)
      × ((j : Bytes) (w : ℕ) → str_eq key j ≡ false → Reads kp j w → Reads kp' j w)

  add_key-total :
      (backends : Bool) (kp : KeyPackage) (key : Bytes)
      → HasMemory
      → (kp' : KeyPackage) × (kp_add_key backends kp key ≡ done (some kp.key_infos_cnt, kp'))
        × (kp'.key_infos_cnt ≡ (kp.key_infos_cnt + 1) % 2 ^ 32)
  unfolding kp_add_key
  add_key-total backends kp key memory =
      let (u, put) = memory.kh_put key kp.key_infos_cnt kp.key_id_hash in
      (
        (append_key kp key (some u)).1,
        rw (memory.realloc (kp.key_infos_cnt + 1))
            (rw (memory.strdup key) (rw (put, append_key) refl)),
        refl,
      )

  find_or_add-Found :
      (backends : Bool) (kp : KeyPackage) (key : Bytes)
      → HasMemory
      → IsValid kp
      → kp.key_infos_cnt + 1 < 2 ^ 31
      → Found backends kp key
  unfolding find_or_add
  find_or_add-Found backends kp key memory v room = elim (Option-cases (kp_get_key kp key)) [
    | inl fresh ↦
        let (kp', e, cnt) = add_key-total backends kp key memory in
        (
          kp.key_infos_cnt,
          kp',
          rw (fresh, find_or_add) e,
          add_key-IsValid backends key kp.key_infos_cnt v room e,
          omega (arith, cnt),
          omega (arith, cnt),
          (get_key-add_key kp kp' backends key key kp.key_infos_cnt v e).1
              ∙ rw (str_eq_refl key) refl,
          λ j w other (i, known, has). (
            i,
            (get_key-add_key kp kp' backends key j kp.key_infos_cnt v e).1 ∙ rw other known,
            ((add_key-eq-enabled kp kp' backends key kp.key_infos_cnt i v e).1
                  (get_key_name-get_key kp j i v known).0).0
                ∙ has,
          ),
        )
    | inr (id, known) ↦ (
      id,
      kp,
      rw (known, find_or_add) refl,
      v,
      (get_key_name-get_key kp key id v known).0,
      omega arith,
      known,
      λ j w other reads. reads,
    )
  ]

  -- The value of a metric goes into a valid package with room for a key, and the values under other
  -- names stay.
  pub put_total :
      (backends : Bool) (kp : KeyPackage) (key : Bytes) (value : ℕ)
      → HasMemory
      → IsValid kp
      → kp.key_infos_cnt + 1 < 2 ^ 31
      → (id : ℕ) × (kp₁ : KeyPackage) × (kp' : KeyPackage) × (find_or_add backends kp key
          ≡ done (some id, kp₁))
        × (id < 2 ^ 31)
        × (kp_set kp₁ id value ≡ done kp')
        × IsValid kp'
        × (kp'.key_infos_cnt ≤ kp.key_infos_cnt + 1)
        × Reads kp' key value
        × ((j : Bytes) (w : ℕ) → str_eq key j ≡ false → Reads kp j w → Reads kp' j w)
  put_total backends kp key value memory v room =
      let (id, kp₁, e, v₁, inside, cnt, known, others) =
        find_or_add-Found backends kp key memory v room in
      let (kp', e', v', cnt', reads, others') = set_found kp₁ key id value v₁ inside known in
      (
        id,
        kp₁,
        kp',
        e,
        omega (arith, inside, cnt, room),
        e',
        v',
        omega (arith, cnt, cnt'),
        reads,
        λ j w other has. others' j w other (others j w other has),
      )
