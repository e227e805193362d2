-- ===== src/KeyPackage.antt =====
-- lib/timeseries_kp.c: the key package and the operations on it that call no backend. The loops
-- over the backends are in Flush.
pub mod Invariant
pub mod Lookup
pub mod Values
pub mod Marks
use Prim.Native.Nat.{bit_and}
use mathlib.Core.Option
use libtimeseries.Base.{
  ℕ, zero, suc, ◌&&◌, ◌+◌, ◌-◌, ◌%◌, ◌^◌, Bool, true, false, not, Option, none, some, List, [], ◌∷◌,
  ◌++◌, Bytes, length, get_elem?, set, ltb, leb, ◌==◌, if◌then◌else◌, Outcome, done, fault,
  undefined, ◌>>=◌, ◌>>◌, assert,
}
use libtimeseries.Platform.{Platform}

-- struct timeseries_kp_ki. An element of `backend_state` is NULL or points to a `uint32_t`, which
-- is all that a backend stores there.
pub record KeyInfo : Type 0 where
  pub key : Bytes
  pub value : ℕ
  pub backend_state : List (Option ℕ)
  pub disabled : Bool

-- struct timeseries_kp, less its pointer to the timeseries object, which the callers pass. An
-- `int` that is used as a truth value is a `Bool`; a NULL `key_infos` is the empty list.
pub record KeyPackage ⦃P : Platform⦄ : Type 0 where
  pub key_infos : List KeyInfo
  pub key_id_hash : P.Table
  pub key_infos_cnt : ℕ
  pub key_infos_enabled_cnt : ℕ
  pub backend_state : List (Option ℕ)
  pub reset : Bool
  pub disable : Bool
  pub dirty : Bool

-- TIMESERIES_BACKEND_ID_LAST null pointers.
abbrev pub null_states : List (Option ℕ)
null_states = none ∷ none ∷ none ∷ []

-- uint32_t x++ and x--
abbrev pub inc32 : ℕ → ℕ
inc32 n = (n + 1) % 2 ^ 32

abbrev pub dec32 : ℕ → ℕ
dec32 n = (n + 2 ^ 32 - 1) % 2 ^ 32

-- TIMESERIES_KP_RESET and TIMESERIES_KP_DISABLE
abbrev pub flag_reset : ℕ
flag_reset = 0x1

abbrev pub flag_disable : ℕ
flag_disable = 0x2

unfoldable pub kp_ki_set : KeyInfo → ℕ → KeyInfo
kp_ki_set ki value = record ki { value = value }

unfoldable pub kp_ki_get : KeyInfo → ℕ
kp_ki_get ki = ki.value

unfoldable pub ki_get_key : KeyInfo → Bytes
ki_get_key ki = ki.key

unfoldable pub ki_get_value : KeyInfo → ℕ
ki_get_value ki = ki.value

unfoldable pub ki_enabled : KeyInfo → Bool
ki_enabled ki = not ki.disabled

-- The fields that `kp_ki_init` writes after a `strdup` that succeeded.
unfoldable pub kp_ki_init : Bytes → KeyInfo
kp_ki_init key = record { key = key; value = 0; backend_state = null_states; disabled = false }

-- timeseries_kp_ki_get_backend_state: a read of `backend_state[id - 1]`.
unfoldable pub ki_get_backend_state : KeyInfo → ℕ → Outcome (Option ℕ)
ki_get_backend_state ki id = elim (get_elem? ki.backend_state (id - 1)) [
  | none ↦ fault undefined
  | some p ↦ done p
]

unfoldable pub ki_set_backend_state : KeyInfo → ℕ → Option ℕ → KeyInfo
ki_set_backend_state ki id ki_state = record ki {
  backend_state = set ki.backend_state (id - 1) ki_state;
}

module _ ⦃P : Platform⦄ where
  unfoldable pub kp_size : KeyPackage → ℕ
  kp_size kp = kp.key_infos_cnt

  unfoldable pub kp_enabled_size : KeyPackage → ℕ
  kp_enabled_size kp = kp.key_infos_enabled_cnt

  -- An element of the key array; reading past its end is undefined.
  abbrev pub key_info : KeyPackage → ℕ → Outcome KeyInfo
  key_info kp i = elim (get_elem? kp.key_infos i) [ none ↦ fault undefined | some ki ↦ done ki ]

  -- `none` is NULL. A negative id is no argument that a caller of the library passes.
  unfoldable pub kp_get_ki : KeyPackage → ℕ → Outcome (Option KeyInfo)
  kp_get_ki kp id =
      if ltb id kp.key_infos_cnt then (do ki ← key_info kp id; done (some ki)) else done none

  -- A package with no keys, over the map `t`.
  abbrev pub with_table : ℕ → P.Table → KeyPackage
  with_table flags t = record {
    key_infos = [];
    key_id_hash = t;
    key_infos_cnt = 0;
    key_infos_enabled_cnt = 0;
    backend_state = null_states;
    reset = not (bit_and flags flag_reset == 0);
    disable = not (bit_and flags flag_disable == 0);
    dirty = false;
  }

  -- timeseries_kp_init up to its loop over the backends; `none` is NULL.
  unfoldable pub kp_alloc : ℕ → Option KeyPackage
  kp_alloc flags = if P.malloc_zero then Option.map (with_table flags) P.kh_init else none

  -- The last part of `timeseries_kp_add_key`, with the map that `kh_put` left.
  abbrev pub append_key : KeyPackage → Bytes → Option P.Table → Option ℕ × KeyPackage
  append_key kp key none = (none, kp)
  append_key kp key (some t) = (
    some kp.key_infos_cnt,
    record kp {
      key_infos = kp.key_infos ++ (kp_ki_init key ∷ []);
      key_id_hash = t;
      key_infos_cnt = inc32 kp.key_infos_cnt;
      key_infos_enabled_cnt = inc32 kp.key_infos_enabled_cnt;
      dirty = true;
    },
  )

  -- timeseries_kp_add_key; `none` is -1. `any_enabled` says whether a backend is enabled: then a
  -- failed `strdup` hands the backend an element that nothing has initialised. What `realloc`
  -- returns replaces the array also where it is NULL.
  unfoldable pub kp_add_key : Bool → KeyPackage → Bytes → Outcome (Option ℕ × KeyPackage)
  kp_add_key any_enabled kp key =
      if not (P.realloc (kp.key_infos_cnt + 1))
      then done (none, record kp { key_infos = [] })
      else if not (P.strdup key)
      then (if any_enabled then fault undefined else done (none, kp))
      else done (append_key kp key (P.kh_put key kp.key_infos_cnt kp.key_id_hash))

  -- timeseries_kp_get_key; `none` is -1.
  unfoldable pub kp_get_key : KeyPackage → Bytes → Option ℕ
  kp_get_key kp key = P.kh_get key kp.key_id_hash

  -- timeseries_kp_get_key_name; `none` is NULL.
  unfoldable pub kp_get_key_name : KeyPackage → ℕ → Outcome (Option Bytes)
  kp_get_key_name kp key =
      if leb kp.key_infos_cnt key then done none else (do ki ← key_info kp key; done (some ki.key))

  unfoldable pub kp_disable_key : KeyPackage → ℕ → Outcome KeyPackage
  kp_disable_key kp key = do
    ki ← key_info kp key
    done (
        if ki.disabled then kp else record kp {
          key_infos = set kp.key_infos key (record ki { disabled = true });
          key_infos_enabled_cnt = dec32 kp.key_infos_enabled_cnt;
        })

  unfoldable pub kp_enable_key : KeyPackage → ℕ → Outcome KeyPackage
  kp_enable_key kp key = do
    ki ← key_info kp key
    done (
        if ki.disabled
        then record kp {
          key_infos = set kp.key_infos key (record ki { disabled = false });
          key_infos_enabled_cnt = inc32 kp.key_infos_enabled_cnt;
        }
        else kp)

  unfoldable pub kp_get : KeyPackage → ℕ → Outcome ℕ
  unfolding kp_ki_get
  kp_get kp key = do ki ← key_info kp key; done (kp_ki_get ki)

  -- timeseries_kp_set after its assertion, and the write in the loop of `kp_reset_disable`.
  unfoldable pub set_value : KeyPackage → ℕ → ℕ → Outcome KeyPackage
  unfolding kp_ki_set
  set_value kp key value = do
    ki ← key_info kp key
    done (record kp { key_infos = set kp.key_infos key (kp_ki_set ki value) })

  unfoldable pub kp_set : KeyPackage → ℕ → ℕ → Outcome KeyPackage
  unfolding set_value
  kp_set kp key value = do assert (ltb key kp.key_infos_cnt); set_value kp key value

  -- The body of the loop of `kp_reset_disable`, and the loop with `n` rounds left.
  unfoldable pub reset_disable_at : KeyPackage → ℕ → Outcome KeyPackage
  unfolding set_value kp_disable_key
  reset_disable_at kp i = do
    cleared ← if kp.reset then set_value kp i 0 else done kp
    if kp.disable then kp_disable_key cleared i else done cleared

  unfoldable pub reset_disable_from : ℕ → ℕ → KeyPackage → Outcome KeyPackage
  reset_disable_from zero i kp = done kp
  reset_disable_from (suc n) i kp = do kp' ← reset_disable_at kp i; reset_disable_from n (i + 1) kp'

  unfoldable pub kp_reset_disable : KeyPackage → Outcome KeyPackage
  unfolding reset_disable_from reset_disable_at
  kp_reset_disable kp =
      if not kp.reset && not kp.disable then done kp else reset_disable_from kp.key_infos_cnt 0 kp
