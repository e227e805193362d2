-- ===== src/KeyPackage/Lookup.antt =====
-- Names and ids: what timeseries_kp_add_key, timeseries_kp_get_key and timeseries_kp_get_key_name
-- say of one another.
use mathlib.Core.Option
use libtimeseries.Base.{
  ℕ, ◌<◌, ◌≡◌, refl, ◌∙◌, Bool, true, Option, none, some, Bytes, arith, get_elem?,
  get_elem?-append_last, lt_of_get_elem?, str_eq, if◌then◌else◌, done,
}
use libtimeseries.Platform.{Platform}
use libtimeseries.KeyPackage.{
  KeyInfo, KeyPackage, kp_ki_init, kp_add_key, kp_get_key, kp_get_key_name, kp_get,
}
use libtimeseries.KeyPackage.Invariant.{IsValid, add_key-eq-done}

module _ ⦃P : Platform⦄ where
  -- When timeseries_kp_add_key returns an id, it is the old number of keys, looking up a name gives
  -- this id for the added name and what it gave before for any other, the value stored under the
  -- new id is 0, and the package is marked dirty.
  pub get_key-add_key :
      (kp kp' : KeyPackage) (any_enabled : Bool) (key j : Bytes) (i : ℕ)
      → IsValid kp
      → kp_add_key any_enabled kp key ≡ done (some i, kp')
      → (i ≡ kp.key_infos_cnt)
        × (kp_get_key kp' j ≡ (if str_eq key j then some i else kp_get_key kp j))
        × (kp_get kp' i ≡ done 0)
        × (kp'.dirty ≡ true)
  unfolding kp_get_key kp_get kp_ki_init
  get_key-add_key kp kp' any_enabled key j i v h =
      let (t, put, e, same) = add_key-eq-done kp any_enabled key h in
      ground (
        arith,
        P.kh_get-kh_put key j kp.key_infos_cnt kp.key_id_hash t put,
        get_elem?-append_last kp.key_infos (kp_ki_init key) i (e ∙ v.counted),
      )

  -- In a valid package the id that timeseries_kp_get_key gives is below the number of keys, and
  -- timeseries_kp_get_key_name takes it back to the name.
  pub get_key_name-get_key :
      (kp : KeyPackage) (key : Bytes) (i : ℕ)
      → IsValid kp
      → kp_get_key kp key ≡ some i
      → (i < kp.key_infos_cnt) × (kp_get_key_name kp i ≡ done (some key))
  unfolding kp_get_key kp_get_key_name
  get_key_name-get_key kp key i v h =
      let (ki, at, named) = v.sound key i h in
      let inside = lt_of_get_elem? kp.key_infos i at in
      (omega (arith, v.counted), ground (arith, v.counted))

  -- In a valid package each element of the key array is found under its name.
  pub get_key_complete :
      (kp : KeyPackage) (i : ℕ) (key : Bytes)
      → IsValid kp
      → kp_get_key_name kp i ≡ done (some key)
      → (j : ℕ) × (kp_get_key kp key ≡ some j)
  unfolding kp_get_key kp_get_key_name
  get_key_complete kp i key v h = go (get_elem? kp.key_infos i) refl (ground arith)
    where
      go :
          (o : Option KeyInfo)
          → get_elem? kp.key_infos i ≡ o
          → Option.map (λ (ki : KeyInfo). ki.key) o ≡ some key
          → (j : ℕ) × (P.kh_get key kp.key_id_hash ≡ some j)
      go none e n = cc
      go (some ki) e n = let (j, known) = v.complete i ki e in (j, ground arith)
