-- ===== src/Tests/Package.antt =====
-- The theorems on key packages at concrete packages.
use libtimeseries.Base.{
  ℕ, ◌+◌, ◌<◌, ◌≡◌, refl, Bool, true, some, arith, str_eq, ◌==◌, if◌then◌else◌, done,
}
use libtimeseries.KeyPackage.{
  kp_add_key, kp_ki_init, kp_get_key, kp_get, kp_get_key_name, kp_enable_key, kp_reset_disable,
  kp_enabled_size,
}
use libtimeseries.KeyPackage.Invariant.{IsValid, add_key-IsValid}
use libtimeseries.KeyPackage.Lookup.{get_key-add_key, get_key_name-get_key}
use libtimeseries.KeyPackage.Values.{kp_reset_disable_lem, reset_all}
use libtimeseries.KeyPackage.Marks.{key_enabled, SameValues, enable_key_lem}
use libtimeseries.Tests.Fixtures.{
  platform, kp_one, kp_two, kp_one-IsValid, kp_two-IsValid, key_a, key_b,
}

add_key-IsValid_example : IsValid kp_two
unfolding kp_add_key kp_ki_init
add_key-IsValid_example = add_key-IsValid true key_b 1 kp_one-IsValid (omega arith) refl

get_key-add_key_example :
    (◌≡◌ {A = ℕ} 1 1)
    × (kp_get_key kp_two key_a ≡ (if str_eq key_b key_a then some 1 else kp_get_key kp_one key_a))
    × (kp_get kp_two 1 ≡ done 0)
    × (true ≡ true)
unfolding kp_add_key kp_ki_init
get_key-add_key_example = get_key-add_key kp_one kp_two true key_b key_a 1 kp_one-IsValid refl

get_key_name-get_key_example : (1 < 2) × (kp_get_key_name kp_two 1 ≡ done (some key_b))
unfolding kp_get_key str_eq
get_key_name-get_key_example = get_key_name-get_key kp_two key_b 1 kp_two-IsValid refl

enable_key_lem_example :
    (was : Bool) × (key_enabled kp_two 0 ≡ done was)
    × (key_enabled kp_two 1 ≡ (if 0 == 1 then done true else key_enabled kp_two 1))
    × (kp_enabled_size kp_two ≡ kp_enabled_size kp_two + (if was then 0 else 1))
    × SameValues kp_two kp_two
enable_key_lem_example =
    enable_key_lem kp_two kp_two 0 1 kp_two-IsValid (unfold kp_enable_key in refl)

kp_reset_disable_lem_example :
    kp_reset_disable kp_two
    ≡ done (record kp_two {
      key_infos = reset_all true true kp_two.key_infos;
      key_infos_enabled_cnt = 0;
    })
kp_reset_disable_lem_example = kp_reset_disable_lem kp_two kp_two-IsValid
