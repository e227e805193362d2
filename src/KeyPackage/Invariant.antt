-- ===== src/KeyPackage/Invariant.antt =====
-- The invariant of a key package: the counters of timeseries_kp.c count what the array holds, and
-- the map from names to ids agrees with the array.
use libtimeseries.Base.{
  ℕ, zero, suc, ◌+◌, ◌^◌, ◌≤◌, ◌<◌, ◌≡◌, refl, sym, ap, ◌∙◌, Bool, true, false, Option, none, some,
  List, [], ◌∷◌, ◌++◌, Bytes, length, get_elem?, set, arith, str_eq, str_eq_iff, if◌then◌else◌,
  length-append, length-set, get_elem?-append_lt, get_elem?-append_last, get_elem?-set_self,
  get_elem?-set_ne, lt_of_get_elem?, Outcome, done, fault, undefined, ◌>>=◌, guard-map-eq-some,
  bind-eq-done, assert, ltb, Bool-cases, inl, inr,
}
use mathlib.Core.Path.{subst}
use native.Mathlib.Decide.{ℕ_discrete, dec_lt}
use libtimeseries.Platform.{Platform}
use libtimeseries.KeyPackage.{
  KeyInfo, KeyPackage, kp_ki_init, kp_alloc, kp_add_key, append_key, with_table, key_info, inc32,
  dec32, kp_disable_key, kp_enable_key, kp_ki_set, kp_set, set_value,
}

-- The number of elements that are not disabled.
abbrev pub count_enabled : List KeyInfo → ℕ
count_enabled [] = 0
count_enabled (ki ∷ kis) = (if ki.disabled then 0 else 1) + count_enabled kis

pub count_enabled-append :
    (xs ys : List KeyInfo) → count_enabled (xs ++ ys) ≡ count_enabled xs + count_enabled ys
count_enabled-append [] ys = omega arith
count_enabled-append (x ∷ xs) ys = omega (arith, count_enabled-append xs ys)

pub count_enabled-le-length : (xs : List KeyInfo) → count_enabled xs ≤ length xs
count_enabled-le-length [] = omega arith
count_enabled-le-length (x ∷ xs) = ground (arith, count_enabled-le-length xs)

-- Replacing an element moves the count by that element alone.
pub count_enabled-set :
    (xs : List KeyInfo) (i : ℕ) (v old : KeyInfo)
    → get_elem? xs i ≡ some old
    → count_enabled (set xs i v) + (if old.disabled then 0 else 1)
      ≡ count_enabled xs + (if v.disabled then 0 else 1)
count_enabled-set [] i v old h = cc
count_enabled-set (x ∷ xs) zero v old h = ground arith
count_enabled-set (x ∷ xs) (suc i) v old h = omega (arith, count_enabled-set xs i v old h)

module _ ⦃P : Platform⦄ where
  pub record IsValid (kp : KeyPackage) : Type 0 where
    pub counted : kp.key_infos_cnt ≡ length kp.key_infos
    pub enabled : kp.key_infos_enabled_cnt ≡ count_enabled kp.key_infos
    -- ids are C ints
    pub small : kp.key_infos_cnt < 2 ^ 31
    -- An id that the map gives is that of an element with this name.
    pub sound :
        (k : Bytes) (i : ℕ)
        → P.kh_get k kp.key_id_hash ≡ some i
        → (ki : KeyInfo) × (get_elem? kp.key_infos i ≡ some ki) × (ki.key ≡ k)
    -- The map knows the name of each element.
    pub complete :
        (i : ℕ) (ki : KeyInfo)
        → get_elem? kp.key_infos i ≡ some ki
        → (j : ℕ) × (P.kh_get ki.key kp.key_id_hash ≡ some j)

  with_table-IsValid : (flags : ℕ) (t : P.Table) → P.kh_init ≡ some t → IsValid (with_table flags t)
  with_table-IsValid flags t e = record {
    counted = refl;
    enabled = refl;
    small = omega arith;
    sound = λ k i g. cc (P.kh_get-kh_init t k e);
    complete = λ i ki g. cc;
  }

  -- A key package that `timeseries_kp_init` has allocated is valid.
  pub kp_alloc-IsValid : (flags : ℕ) (kp : KeyPackage) → kp_alloc flags ≡ some kp → IsValid kp
  unfolding kp_alloc
  kp_alloc-IsValid flags kp h =
      let (t, _, e, same) = guard-map-eq-some P.malloc_zero (with_table flags) P.kh_init h in
      subst IsValid same (with_table-IsValid flags t e)

  pub set-IsValid :
      {kp : KeyPackage} (i : ℕ) (old new : KeyInfo) (n : ℕ)
      → IsValid kp
      → get_elem? kp.key_infos i ≡ some old
      → new.key ≡ old.key
      → n + (if old.disabled then 0 else 1)
        ≡ kp.key_infos_enabled_cnt + (if new.disabled then 0 else 1)
      → IsValid (record kp { key_infos = set kp.key_infos i new; key_infos_enabled_cnt = n })
  set-IsValid {kp} i old new n v at name count = record {
    counted = v.counted ∙ sym (length-set kp.key_infos i new);
    enabled = omega (arith, count_enabled-set kp.key_infos i new old at, v.enabled);
    small = v.small;
    sound = λ k j g.
        let (ki, e, named) = v.sound k j g in
        elim (ℕ_discrete i j) [
          | yes p ↦ (
            new,
            rw (← p) (get_elem?-set_self _ i new inside),
            cc (ap (get_elem? kp.key_infos) p),
          )
          | no p ↦ (ki, get_elem?-set_ne _ i j new p ∙ e, named)
        ];
    complete = λ j ki g. elim (ℕ_discrete i j) [
      | yes p ↦
          let (l, known) = v.complete i old at in
          let written : some new ≡ some ki =
            sym (get_elem?-set_self _ i new inside) ∙ (rw (← p) at g) in
          let same : old.key ≡ ki.key = cc in (l, rw (← same) known)
      | no p ↦ v.complete j ki (sym (get_elem?-set_ne _ i j new p) ∙ g)
    ];
  }
    where
      inside : i < length kp.key_infos
      inside = lt_of_get_elem? kp.key_infos i at

  -- What `timeseries_kp_add_key` has done when it returns an id.
  pub add_key-eq-done :
      (kp : KeyPackage) {kp' : KeyPackage} (any_enabled : Bool) (key : Bytes) {i : ℕ}
      → kp_add_key any_enabled kp key ≡ done (some i, kp')
      → (t : P.Table) × (P.kh_put key kp.key_infos_cnt kp.key_id_hash ≡ some t)
        × (i ≡ kp.key_infos_cnt)
        × ((append_key kp key (some t)).1 ≡ kp')
  unfolding kp_add_key
  add_key-eq-done kp {kp'} any_enabled key {i} h =
      go (P.kh_put key kp.key_infos_cnt kp.key_id_hash) (ground arith)
    where
      go :
          (o : Option P.Table)
          → append_key kp key o ≡ (some i, kp')
          → (t : P.Table) × (o ≡ some t)
            × (i ≡ kp.key_infos_cnt)
            × ((append_key kp key (some t)).1 ≡ kp')
      go none e = cc
      go (some t) e = (t, refl, ground arith, ap (λ (r : Option ℕ × KeyPackage). r.1) e)

  append_key-IsValid :
      {kp : KeyPackage} (key : Bytes) (t : P.Table)
      → IsValid kp
      → kp.key_infos_cnt + 1 < 2 ^ 31
      → P.kh_put key kp.key_infos_cnt kp.key_id_hash ≡ some t
      → IsValid (append_key kp key (some t)).1
  unfolding kp_ki_init
  append_key-IsValid {kp} key t v room put = record {
    counted = omega (arith, length-append kp.key_infos (kp_ki_init key ∷ []), v.counted);
    enabled = omega (
      arith,
      v.enabled,
      v.counted,
      count_enabled-append kp.key_infos (kp_ki_init key ∷ []),
      count_enabled-le-length kp.key_infos,
    );
    small = omega arith;
    sound = λ k j g. elim (Bool-cases (str_eq key k)) [
      | inl same ↦ (
        kp_ki_init key,
        newest j (ground (arith, P.kh_get-kh_put key k kp.key_infos_cnt kp.key_id_hash t put)),
        (str_eq_iff key k).0 same,
      )
      | inr other ↦
          let old : P.kh_get k kp.key_id_hash ≡ some j =
            ground (arith, P.kh_get-kh_put key k kp.key_infos_cnt kp.key_id_hash t put) in
          let (ki, e, named) = v.sound k j old in
          (ki, get_elem?-append_lt kp.key_infos _ j (lt_of_get_elem? kp.key_infos j e) ∙ e, named)
    ];
    complete = λ j ki g. elim (Bool-cases (str_eq key ki.key)) [
      | inl same ↦ (
        kp.key_infos_cnt,
        ground (arith, P.kh_get-kh_put key ki.key kp.key_infos_cnt kp.key_id_hash t put),
      )
      | inr other ↦
          let (l, known) = v.complete j ki (before j ki g other) in
          (l, ground (arith, P.kh_get-kh_put key ki.key kp.key_infos_cnt kp.key_id_hash t put))
    ];
  }
    where
      grown : List KeyInfo
      grown = kp.key_infos ++ (kp_ki_init key ∷ [])

      newest : (j : ℕ) → j ≡ kp.key_infos_cnt → get_elem? grown j ≡ some (kp_ki_init key)
      newest j e = get_elem?-append_last kp.key_infos (kp_ki_init key) j (e ∙ v.counted)

      before :
          (j : ℕ) (ki : KeyInfo)
          → get_elem? grown j ≡ some ki
          → str_eq key ki.key ≡ false
          → get_elem? kp.key_infos j ≡ some ki
      before j ki g other = elim (dec_lt j (length kp.key_infos)) [
        | yes p ↦ sym (get_elem?-append_lt kp.key_infos _ j p) ∙ g
        | no p ↦
            let top : j ≡ kp.key_infos_cnt = omega (
              arith,
              v.counted,
              lt_of_get_elem? grown j g,
              length-append kp.key_infos (kp_ki_init key ∷ []),
            ) in
            ground (arith, newest j top, (str_eq_iff key ki.key).1)
      ]

  -- timeseries_kp_add_key, where it returns an id for a valid package with room for one more key,
  -- leaves a valid package.
  pub add_key-IsValid :
      {kp kp' : KeyPackage} (any_enabled : Bool) (key : Bytes) (i : ℕ)
      → IsValid kp
      → kp.key_infos_cnt + 1 < 2 ^ 31
      → kp_add_key any_enabled kp key ≡ done (some i, kp')
      → IsValid kp'
  add_key-IsValid {kp} {kp'} any_enabled key i v room h =
      let (t, put, _, same) = add_key-eq-done kp any_enabled key h in
      subst IsValid same (append_key-IsValid key t v room put)

  -- An access to the key array that went well.
  pub key_info-bind {ℓ} :
      {B : Type ℓ} (kp : KeyPackage) (i : ℕ) {f : KeyInfo → Outcome B} {b : B}
      → (key_info kp i >>= f) ≡ done b
      → (ki : KeyInfo) × (get_elem? kp.key_infos i ≡ some ki) × (f ki ≡ done b)
  key_info-bind kp i {f} {b} h = go (get_elem? kp.key_infos i) h
    where
      go :
          (o : Option KeyInfo)
          → ((elim o [ none ↦ fault undefined | some ki ↦ done ki ]) >>= f) ≡ done b
          → (ki : KeyInfo) × (o ≡ some ki) × (f ki ≡ done b)
      go none e = cc
      go (some ki) e = (ki, refl, e)

  pub disable_key-IsValid :
      {kp kp' : KeyPackage} (i : ℕ) → IsValid kp → kp_disable_key kp i ≡ done kp' → IsValid kp'
  unfolding kp_disable_key
  disable_key-IsValid {kp} {kp'} i v h =
      let (ki, at, e) = key_info-bind kp i h in
      elim (Bool-cases ki.disabled) [
        | inl off ↦ subst IsValid (ground arith) v
        | inr on ↦ subst IsValid (ground arith) (
            set-IsValid i ki (record ki { disabled = true }) (dec32 kp.key_infos_enabled_cnt) v at
              refl
              (ground (
                arith,
                v.enabled,
                v.counted,
                count_enabled-set kp.key_infos i (record ki { disabled = true }) ki at,
                count_enabled-le-length kp.key_infos,
              )))
      ]

  pub enable_key-IsValid :
      {kp kp' : KeyPackage} (i : ℕ) → IsValid kp → kp_enable_key kp i ≡ done kp' → IsValid kp'
  unfolding kp_enable_key
  enable_key-IsValid {kp} {kp'} i v h =
      let (ki, at, e) = key_info-bind kp i h in
      elim (Bool-cases ki.disabled) [
        | inl off ↦ subst IsValid (ground arith) (
            set-IsValid i ki (record ki { disabled = false }) (inc32 kp.key_infos_enabled_cnt) v at
              refl (ground (arith, v.enabled, v.counted, count_enabled-le-length kp.key_infos)))
        | inr on ↦ subst IsValid (ground arith) v
      ]

  pub set_value-IsValid :
      {kp kp' : KeyPackage} (i value : ℕ)
      → IsValid kp
      → set_value kp i value ≡ done kp'
      → IsValid kp'
  unfolding set_value
  set_value-IsValid {kp} {kp'} i value v h =
      let (ki, at, e) = key_info-bind kp i h in
      subst IsValid (ground arith)
        (set-IsValid i ki (kp_ki_set ki value) kp.key_infos_enabled_cnt v at refl refl)

  -- The package that `timeseries_kp_set` leaves is valid.
  pub kp_set-IsValid :
      {kp kp' : KeyPackage} (i value : ℕ) → IsValid kp → kp_set kp i value ≡ done kp' → IsValid kp'
  unfolding kp_set
  kp_set-IsValid {kp} {kp'} i value v h =
      let (_, _, e) = bind-eq-done (assert (ltb i kp.key_infos_cnt)) _ h in
      set_value-IsValid i value v e
