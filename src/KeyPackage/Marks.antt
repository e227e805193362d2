-- ===== src/KeyPackage/Marks.antt =====
-- The enabled marks: timeseries_kp_enable_key and timeseries_kp_disable_key.
use native.Mathlib.Decide.{ℕ_discrete}
use mathlib.Core.Path.{subst}
use mathlib.Core.List.{map}
use libtimeseries.Base.{
  ℕ, zero, suc, List, sym, ◌+◌, ◌<◌, ◌≡◌, refl, ap, ◌∙◌, Bool, true, false, not, some, [], ◌∷◌,
  Bytes, arith, get_elem?, set, ltb, ◌==◌, if◌then◌else◌, Outcome, done, ◌>>=◌, Bool-cases, inl,
  inr, get_elem?-set_self, get_elem?-set_ne, lt_of_get_elem?, bind-eq-done, assert,
  get_elem?-append_last, get_elem?-append_lt,
}
use libtimeseries.Platform.{Platform}
use libtimeseries.KeyPackage.{
  KeyInfo, KeyPackage, kp_get, key_info, kp_enable_key, kp_disable_key, inc32, dec32,
  kp_enabled_size, kp_set, kp_ki_set, kp_add_key, kp_ki_init,
}
use libtimeseries.KeyPackage.Invariant.{
  IsValid, key_info-bind, count_enabled-le-length, count_enabled-set, add_key-eq-done,
}

map-set :
    (kis : List KeyInfo) (i : ℕ) (ki new : KeyInfo)
    → get_elem? kis i ≡ some ki
    → new.key ≡ ki.key
    → map (λ (k : KeyInfo). k.key) (set kis i new) ≡ map (λ (k : KeyInfo). k.key) kis
map-set [] i ki new at e = cc
map-set (k ∷ kis) zero ki new at e =
    ap (λ n. n ∷ map (λ (k : KeyInfo). k.key) kis) (e ∙ sym (ap name (some_inj at)))
  where
    name : KeyInfo → Bytes
    name x = x.key

    some_inj : {x y : KeyInfo} → some x ≡ some y → x ≡ y
    some_inj h = cc
map-set (k ∷ kis) (suc i) ki new at e = ap (λ l. k.key ∷ l) (map-set kis i ki new at e)

module _ ⦃P : Platform⦄ where
  -- Whether the key with this id is enabled, as a backend sees it.
  abbrev pub key_enabled : KeyPackage → ℕ → Outcome Bool
  key_enabled kp i = do ki ← key_info kp i; done (not ki.disabled)

  -- What two packages share if only marks differ.
  pub record SameValues (kp kp' : KeyPackage) : Type 0 where
    pub hash : kp'.key_id_hash ≡ kp.key_id_hash
    pub cnt : kp'.key_infos_cnt ≡ kp.key_infos_cnt
    pub names :
        map (λ (ki : KeyInfo). ki.key) kp'.key_infos ≡ map (λ (ki : KeyInfo). ki.key) kp.key_infos
    pub values : (j : ℕ) → kp_get kp' j ≡ kp_get kp j
    pub dirty : kp'.dirty ≡ kp.dirty

  same_but :
      (kp : KeyPackage) (i n : ℕ) (ki new : KeyInfo)
      → get_elem? kp.key_infos i ≡ some ki
      → new.key ≡ ki.key
      → new.value ≡ ki.value
      → SameValues kp (record kp { key_infos = set kp.key_infos i new; key_infos_enabled_cnt = n })
  unfolding kp_get
  same_but kp i n ki new at name value = record {
    hash = refl;
    cnt = refl;
    names = map-set kp.key_infos i ki new at name;
    values = λ j. elim (ℕ_discrete i j) [
      | yes p ↦
          ground (arith, get_elem?-set_self kp.key_infos i new, lt_of_get_elem? kp.key_infos i at)
      | no p ↦ ground (arith, get_elem?-set_ne kp.key_infos i j new p)
    ];
    dirty = refl;
  }

  key_enabled-set :
      (kp : KeyPackage) (i j n : ℕ) (ki new : KeyInfo)
      → get_elem? kp.key_infos i ≡ some ki
      → key_enabled (record kp { key_infos = set kp.key_infos i new; key_infos_enabled_cnt = n }) j
        ≡ (if i == j then done (not new.disabled) else key_enabled kp j)
  key_enabled-set kp i j n ki new at = elim (ℕ_discrete i j) [
    | yes p ↦
        ground (arith, get_elem?-set_self kp.key_infos i new, lt_of_get_elem? kp.key_infos i at)
    | no p ↦ ground (arith, get_elem?-set_ne kp.key_infos i j new p)
  ]

  key_enabled_self :
      (kp : KeyPackage) (i j : ℕ) (ki : KeyInfo)
      → get_elem? kp.key_infos i ≡ some ki
      → key_enabled kp j ≡ (if i == j then done (not ki.disabled) else key_enabled kp j)
  key_enabled_self kp i j ki at = elim (ℕ_discrete i j) [
    | yes p ↦ ground (arith, ap (get_elem? kp.key_infos) p)
    | no p ↦ ground arith
  ]

  SameValues-refl : (kp : KeyPackage) → SameValues kp kp
  SameValues-refl kp = record {
    hash = refl;
    cnt = refl;
    names = refl;
    values = λ j. refl;
    dirty = refl;
  }

  -- timeseries_kp_enable_key, where it returns, leaves the key enabled, counts it if it was disabled,
  -- and changes no name, no value and no other mark.
  pub enable_key_lem :
      (kp kp' : KeyPackage) (i j : ℕ)
      → IsValid kp
      → kp_enable_key kp i ≡ done kp'
      → (was : Bool) × (key_enabled kp i ≡ done was)
        × (key_enabled kp' j ≡ (if i == j then done true else key_enabled kp j))
        × (kp_enabled_size kp' ≡ kp_enabled_size kp + (if was then 0 else 1))
        × SameValues kp kp'
  unfolding kp_enable_key kp_enabled_size
  enable_key_lem kp kp' i j v h =
      let (ki, at, e) = key_info-bind kp i h in
      elim (Bool-cases ki.disabled) [
        | inl off ↦
            subst Spec
              {x = record kp {
                key_infos = set kp.key_infos i (record ki { disabled = false });
                key_infos_enabled_cnt = inc32 kp.key_infos_enabled_cnt;
              }}
              (ground arith)
              (
                false,
                ground arith,
                key_enabled-set kp i j (inc32 kp.key_infos_enabled_cnt) ki
                    (record ki { disabled = false }) at,
                ground (arith, v.enabled, v.counted, v.small, count_enabled-le-length kp.key_infos),
                same_but kp i (inc32 kp.key_infos_enabled_cnt) ki (record ki { disabled = false })
                    at refl refl,
              )
        | inr on ↦ subst Spec {x = kp} (ground arith) (
          true,
          ground arith,
          ground (arith, key_enabled_self kp i j ki at),
          omega arith,
          SameValues-refl kp,
        )
      ]
    where
      Spec : KeyPackage → Type 0
      Spec k =
          (was : Bool) × (key_enabled kp i ≡ done was)
          × (key_enabled k j ≡ (if i == j then done true else key_enabled kp j))
          × (k.key_infos_enabled_cnt ≡ kp.key_infos_enabled_cnt + (if was then 0 else 1))
          × SameValues kp k

  -- timeseries_kp_disable_key, where it returns, leaves the key disabled, counts it off if it was
  -- enabled, and changes no name, no value and no other mark.
  pub disable_key_lem :
      (kp kp' : KeyPackage) (i j : ℕ)
      → IsValid kp
      → kp_disable_key kp i ≡ done kp'
      → (was : Bool) × (key_enabled kp i ≡ done was)
        × (key_enabled kp' j ≡ (if i == j then done false else key_enabled kp j))
        × (kp_enabled_size kp' + (if was then 1 else 0) ≡ kp_enabled_size kp)
        × SameValues kp kp'
  unfolding kp_disable_key kp_enabled_size
  disable_key_lem kp kp' i j v h =
      let (ki, at, e) = key_info-bind kp i h in
      elim (Bool-cases ki.disabled) [
        | inl off ↦ subst Spec {x = kp} (ground arith) (
          false,
          ground arith,
          ground (arith, key_enabled_self kp i j ki at),
          omega arith,
          SameValues-refl kp,
        )
        | inr on ↦
            subst Spec
              {x = record kp {
                key_infos = set kp.key_infos i (record ki { disabled = true });
                key_infos_enabled_cnt = dec32 kp.key_infos_enabled_cnt;
              }}
              (ground arith)
              (
                true,
                ground arith,
                key_enabled-set kp i j (dec32 kp.key_infos_enabled_cnt) ki
                    (record ki { disabled = true }) at,
                ground (
                  arith,
                  v.enabled,
                  v.counted,
                  v.small,
                  count_enabled-le-length kp.key_infos,
                  count_enabled-set kp.key_infos i (record ki { disabled = true }) ki at,
                ),
                same_but kp i (dec32 kp.key_infos_enabled_cnt) ki (record ki { disabled = true }) at
                    refl refl,
              )
      ]
    where
      Spec : KeyPackage → Type 0
      Spec k =
          (was : Bool) × (key_enabled kp i ≡ done was)
          × (key_enabled k j ≡ (if i == j then done false else key_enabled kp j))
          × (k.key_infos_enabled_cnt + (if was then 1 else 0) ≡ kp.key_infos_enabled_cnt)
          × SameValues kp k

  -- What timeseries_kp_set has done where it returns.
  pub kp_set-eq-done :
      (kp kp' : KeyPackage) (i value : ℕ)
      → kp_set kp i value ≡ done kp'
      → (kp'.key_id_hash ≡ kp.key_id_hash)
        × (kp'.key_infos_cnt ≡ kp.key_infos_cnt)
        × (i < kp.key_infos_cnt)
        × ((j : ℕ) → kp_get kp' j ≡ (if i == j then done value else kp_get kp j))
        × ((j : ℕ) → key_enabled kp' j ≡ key_enabled kp j)
  unfolding kp_set
  kp_set-eq-done kp kp' i value h =
      let (_, inside, e) = bind-eq-done (assert (ltb i kp.key_infos_cnt)) _ h in
      let (ki, at, e') = key_info-bind kp i e in
      subst Spec {x = record kp { key_infos = set kp.key_infos i (kp_ki_set ki value) }}
        (ground arith)
        (
          refl,
          refl,
          ground arith,
          λ j. elim (ℕ_discrete i j) [
            | yes p ↦
                unfold kp_get in
                ground (
                  arith,
                  get_elem?-set_self kp.key_infos i (kp_ki_set ki value),
                  lt_of_get_elem? kp.key_infos i at,
                )
            | no p ↦
                unfold kp_get in
                ground (arith, get_elem?-set_ne kp.key_infos i j (kp_ki_set ki value) p)
          ],
          λ j. elim (ℕ_discrete i j) [
            | yes p ↦ ground (
              arith,
              ap (get_elem? kp.key_infos) p,
              get_elem?-set_self kp.key_infos i (kp_ki_set ki value),
              lt_of_get_elem? kp.key_infos i at,
            )
            | no p ↦ ground (arith, get_elem?-set_ne kp.key_infos i j (kp_ki_set ki value) p)
          ],
        )
    where
      Spec : KeyPackage → Type 0
      Spec k =
          (k.key_id_hash ≡ kp.key_id_hash)
          × (k.key_infos_cnt ≡ kp.key_infos_cnt)
          × (i < kp.key_infos_cnt)
          × ((j : ℕ) → kp_get k j ≡ (if i == j then done value else kp_get kp j))
          × ((j : ℕ) → key_enabled k j ≡ key_enabled kp j)

  -- What timeseries_kp_add_key does to the keys, the new one and the old ones.
  pub add_key-eq-enabled :
      (kp kp' : KeyPackage) (any_enabled : Bool) (key : Bytes) (i j : ℕ)
      → IsValid kp
      → kp_add_key any_enabled kp key ≡ done (some i, kp')
      → (key_enabled kp' i ≡ done true)
        × (j < kp.key_infos_cnt
            → (kp_get kp' j ≡ kp_get kp j) × (key_enabled kp' j ≡ key_enabled kp j))
  unfolding kp_get kp_ki_init
  add_key-eq-enabled kp kp' any_enabled key i j v h =
      let (t, _, e, same) = add_key-eq-done kp any_enabled key h in
      subst Spec same (
        ground (arith, get_elem?-append_last kp.key_infos (kp_ki_init key) i (e ∙ v.counted)),
        λ p.
            let old =
              get_elem?-append_lt kp.key_infos (kp_ki_init key ∷ []) j (omega (arith, v.counted)) in
            (ground (arith, old), ground (arith, old)),
      )
    where
      Spec : KeyPackage → Type 0
      Spec k =
          (key_enabled k i ≡ done true)
          × (j < kp.key_infos_cnt
              → (kp_get k j ≡ kp_get kp j) × (key_enabled k j ≡ key_enabled kp j))
