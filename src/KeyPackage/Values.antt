-- ===== src/KeyPackage/Values.antt =====
-- Values and the enabled marks: timeseries_kp_get, timeseries_kp_set and kp_reset_disable.
use mathlib.Core.Path.{subst}
use mathlib.Core.Option
use mathlib.Core.List.{append_assoc}
use native.Mathlib.Decide.{ℕ_discrete}
use libtimeseries.Base.{
  ℕ, zero, suc, ◌+◌, ◌-◌, ◌^◌, ◌≤◌, ◌<◌, ◌≡◌, refl, sym, ap, ◌∙◌, Bool, true, false, not, ◌&&◌,
  Option, none, some, List, [], ◌∷◌, ◌++◌, arith, length, get_elem?, set, lt→ltb, le→ltb, ◌==◌,
  if◌then◌else◌, done, fault, assertion, get_elem?-set_self, get_elem?-set_ne, get_elem?-total,
  lt_of_get_elem?, get_elem?-append, set-append, length-append,
}
use libtimeseries.Platform.{Platform}
use libtimeseries.KeyPackage.{
  KeyInfo, KeyPackage, kp_ki_set, kp_get, kp_set, kp_reset_disable, reset_disable_from,
  reset_disable_at, dec32,
}
use libtimeseries.KeyPackage.Invariant.{IsValid, count_enabled, count_enabled-le-length}

-- What one round of `kp_reset_disable` makes of an element.
abbrev pub reset_ki : Bool → Bool → KeyInfo → KeyInfo
reset_ki reset disable ki = record ki {
  value = if reset then 0 else ki.value;
  disabled = if disable then true else ki.disabled;
}

abbrev pub reset_all : Bool → Bool → List KeyInfo → List KeyInfo
reset_all reset disable [] = []
reset_all reset disable (ki ∷ kis) = reset_ki reset disable ki ∷ reset_all reset disable kis

reset_all-false : (xs : List KeyInfo) → reset_all false false xs ≡ xs
reset_all-false [] = refl
reset_all-false (x ∷ xs) = ap (λ t. x ∷ t) (reset_all-false xs)

pub length-reset_all :
    (reset disable : Bool) (xs : List KeyInfo) → length (reset_all reset disable xs) ≡ length xs
length-reset_all reset disable [] = refl
length-reset_all reset disable (x ∷ xs) = ap suc (length-reset_all reset disable xs)

pub count_enabled-reset_all :
    (reset disable : Bool) (xs : List KeyInfo)
    → count_enabled (reset_all reset disable xs) ≡ (if disable then 0 else count_enabled xs)
count_enabled-reset_all reset disable [] = ground arith
count_enabled-reset_all reset disable (x ∷ xs) =
    ground (arith, count_enabled-reset_all reset disable xs)

pub get_elem?-reset_all :
    (reset disable : Bool) (xs : List KeyInfo) (i : ℕ)
    → get_elem? (reset_all reset disable xs) i
      ≡ Option.map (reset_ki reset disable) (get_elem? xs i)
get_elem?-reset_all reset disable [] i = refl
get_elem?-reset_all reset disable (x ∷ xs) zero = refl
get_elem?-reset_all reset disable (x ∷ xs) (suc i) = get_elem?-reset_all reset disable xs i

module _ ⦃P : Platform⦄ where
  -- In a valid package timeseries_kp_set stops at its assertion for an id out of range. For any
  -- other id it returns; then timeseries_kp_get gives the new value at this id and what it gave
  -- before at any other, and the names, the marks and the counters are the old ones.
  pub kp_get-kp_set :
      (kp : KeyPackage) (i j value : ℕ)
      → IsValid kp
      → (kp.key_infos_cnt ≤ i → kp_set kp i value ≡ fault assertion)
        × (i < kp.key_infos_cnt
            → (kp' : KeyPackage) × (kp_set kp i value ≡ done kp')
              × (kp_get kp' j ≡ (if i == j then done value else kp_get kp j))
              × (kp'.key_id_hash ≡ kp.key_id_hash)
              × (kp'.key_infos_cnt ≡ kp.key_infos_cnt)
              × (kp'.key_infos_enabled_cnt ≡ kp.key_infos_enabled_cnt))
  unfolding kp_get kp_set
  kp_get-kp_set kp i j value v = (λ h. rw (le→ltb _ _ h), inside)
    where
      inside :
          i < kp.key_infos_cnt
          → (kp' : KeyPackage) × (kp_set kp i value ≡ done kp')
            × (kp_get kp' j ≡ (if i == j then done value else kp_get kp j))
            × (kp'.key_id_hash ≡ kp.key_id_hash)
            × (kp'.key_infos_cnt ≡ kp.key_infos_cnt)
            × (kp'.key_infos_enabled_cnt ≡ kp.key_infos_enabled_cnt)
      inside h =
          let (ki, at) = get_elem?-total kp.key_infos i (omega (arith, v.counted)) in
          (
            record kp { key_infos = set kp.key_infos i (kp_ki_set ki value) },
            ground (arith, lt→ltb i kp.key_infos_cnt h),
            elim (ℕ_discrete i j) [
              | yes p ↦ ground (
                arith,
                get_elem?-set_self kp.key_infos i (kp_ki_set ki value),
                lt_of_get_elem? kp.key_infos i at,
              )
              | no p ↦ ground (arith, get_elem?-set_ne kp.key_infos i j (kp_ki_set ki value) p)
            ],
            refl,
            refl,
            refl,
          )

  reset_disable_step :
      (kp : KeyPackage) (xs ys : List KeyInfo) (ki : KeyInfo) (i : ℕ)
      → kp.key_infos ≡ xs ++ (ki ∷ ys)
      → i ≡ length xs
      → reset_disable_at kp i
        ≡ done (record kp {
          key_infos = xs ++ (reset_ki kp.reset kp.disable ki ∷ ys);
          key_infos_enabled_cnt =
              (if kp.disable && not ki.disabled
                then dec32 kp.key_infos_enabled_cnt
                else kp.key_infos_enabled_cnt);
        })
  unfolding reset_disable_at
  reset_disable_step kp xs ys ki i e at =
      let cleared : KeyInfo = record ki { value = 0 } in
      let read = λ (v : KeyInfo). get_elem?-append xs ys v i at in
      let write = λ (u v : KeyInfo). set-append xs ys u v i at in
      rw e (
        ground (
          arith,
          read ki,
          read cleared,
          write ki cleared,
          write ki (record ki { disabled = true }),
          write cleared (record cleared { disabled = true }),
        ))

  -- The loop of `kp_reset_disable` with `ys` still ahead and `xs` behind.
  reset_disable_from_lem :
      (kp : KeyPackage) (xs ys : List KeyInfo) (n i : ℕ)
      → kp.key_infos ≡ xs ++ ys
      → i ≡ length xs
      → n ≡ length ys
      → count_enabled ys ≤ kp.key_infos_enabled_cnt
      → kp.key_infos_enabled_cnt < 2 ^ 32
      → reset_disable_from n i kp
        ≡ done (record kp {
          key_infos = xs ++ reset_all kp.reset kp.disable ys;
          key_infos_enabled_cnt =
              kp.key_infos_enabled_cnt - (if kp.disable then count_enabled ys else 0);
        })
  unfolding reset_disable_from
  reset_disable_from_lem kp xs [] zero i e at rounds few small = ground arith
  reset_disable_from_lem kp xs [] (suc n) i e at rounds few small = absurd (omega arith)
  reset_disable_from_lem kp xs (ki ∷ ys) zero i e at rounds few small = absurd (omega arith)
  reset_disable_from_lem kp xs (ki ∷ ys) (suc n) i e at rounds few small =
      rw (reset_disable_step kp xs ys ki i e at) (
        reset_disable_from_lem
          (record kp { key_infos = xs ++ (ki' ∷ ys); key_infos_enabled_cnt = cnt })
          (xs ++ (ki' ∷ [])) ys n (i + 1) (sym (append_assoc xs (ki' ∷ []) ys))
          (omega (arith, length-append xs (ki' ∷ []))) (omega arith) (ground arith) (ground arith)
        ∙ ground (arith, append_assoc xs (ki' ∷ []) (reset_all kp.reset kp.disable ys)))
    where
      ki' : KeyInfo
      ki' = reset_ki kp.reset kp.disable ki

      cnt : ℕ
      cnt =
          if kp.disable && not ki.disabled
          then dec32 kp.key_infos_enabled_cnt
          else kp.key_infos_enabled_cnt

  -- On a valid package `kp_reset_disable` returns. It sets every value to 0 if the package has the
  -- reset flag and keeps the values otherwise; it disables every key and sets the number of enabled
  -- keys to 0 if the package has the disable flag and keeps both otherwise. Nothing else changes.
  pub kp_reset_disable_lem :
      (kp : KeyPackage)
      → IsValid kp
      → kp_reset_disable kp
        ≡ done (record kp {
          key_infos = reset_all kp.reset kp.disable kp.key_infos;
          key_infos_enabled_cnt = if kp.disable then 0 else kp.key_infos_enabled_cnt;
        })
  unfolding kp_reset_disable
  kp_reset_disable_lem kp v = ground (
    arith,
    v.counted,
    v.enabled,
    v.small,
    count_enabled-le-length kp.key_infos,
    reset_all-false kp.key_infos,
    reset_disable_from_lem kp [] kp.key_infos kp.key_infos_cnt 0 refl refl v.counted,
  )

  -- `kp_reset_disable` keeps the invariant.
  pub kp_reset_disable-IsValid :
      (kp kp' : KeyPackage) → IsValid kp → kp_reset_disable kp ≡ done kp' → IsValid kp'
  kp_reset_disable-IsValid kp kp' v h = subst IsValid same (record {
    counted = v.counted ∙ sym (length-reset_all kp.reset kp.disable kp.key_infos);
    enabled = ground (arith, v.enabled, count_enabled-reset_all kp.reset kp.disable kp.key_infos);
    small = v.small;
    sound = λ k i g.
        let (ki, at, named) = v.sound k i g in
        (
          reset_ki kp.reset kp.disable ki,
          get_elem?-reset_all kp.reset kp.disable kp.key_infos i
              ∙ ap (Option.map (reset_ki kp.reset kp.disable)) at,
          named,
        );
    complete = λ i ki g.
        complete i ki (get_elem? kp.key_infos i) refl
          (sym (get_elem?-reset_all kp.reset kp.disable kp.key_infos i) ∙ g);
  })
    where
      same :
          (record kp {
            key_infos = reset_all kp.reset kp.disable kp.key_infos;
            key_infos_enabled_cnt = if kp.disable then 0 else kp.key_infos_enabled_cnt;
          })
          ≡ kp'
      same = cc (kp_reset_disable_lem kp v)

      complete :
          (i : ℕ) (ki : KeyInfo) (o : Option KeyInfo)
          → get_elem? kp.key_infos i ≡ o
          → Option.map (reset_ki kp.reset kp.disable) o ≡ some ki
          → (j : ℕ) × (P.kh_get ki.key kp.key_id_hash ≡ some j)
      complete i ki none e n = cc
      complete i ki (some old) e n = let (j, known) = v.complete i old e in (j, ground arith)
