-- ===== src/Backend.antt =====
-- lib/timeseries_backend_int.h and lib/timeseries_backend.c: the interface that a backend
-- implements, the backend object, and its life from allocation to release. `S` is all the state
-- behind a backend's `state` pointer, what it has written included.
use Prim.Native.Nat.{◌-◌}
use libtimeseries.Base.{
  ℕ, Bool, true, Option, none, some, List, Bytes, get_elem?, length, ◌==◌, if◌then◌else◌, Outcome,
  done, ◌>>=◌, ◌>>◌, assert, Status, success, failure,
}
use libtimeseries.Platform.{Platform}
use libtimeseries.KeyPackage.{KeyInfo, KeyPackage}

-- The function pointers of struct timeseries_backend.
pub record Ops ⦃P : Platform⦄ (S : Type 0) : Type 0 where
  pub init : S → List Bytes → Outcome (Status × S)
  pub free : S → Outcome S
  -- the option is what goes through `kp_state_p`
  pub kp_init : S → KeyPackage → Outcome (Status × Option ℕ × S)
  pub kp_free : S → KeyPackage → Option ℕ → Outcome S
  pub kp_ki_update : S → KeyPackage → Outcome (Status × KeyPackage × S)
  pub kp_ki_free : S → KeyInfo → Option ℕ → Outcome S
  pub kp_flush : S → KeyPackage → ℕ → Outcome (Status × S)
  pub set_single : S → Bytes → ℕ → ℕ → Outcome (Status × S)
  pub set_single_by_id : S → Bytes → ℕ → ℕ → ℕ → Outcome (Status × S)
  pub set_bulk_init : S → ℕ → ℕ → Outcome (Status × S)
  pub set_bulk_by_id : S → Bytes → ℕ → ℕ → Outcome (Status × S)
  -- the length, 0 on an error, and the bytes that go through `backend_key`
  pub resolve_key : S → Bytes → Outcome (ℕ × Option Bytes × S)

-- struct timeseries_backend
pub record Backend ⦃P : Platform⦄ (S : Type 0) : Type 0 where
  pub id : ℕ
  pub name : Bytes
  pub ops : Ops S
  pub enabled : Bool
  pub state : S

-- TIMESERIES_BACKEND_ID_FIRST and TIMESERIES_BACKEND_ID_LAST
abbrev pub id_first : ℕ
id_first = 1

abbrev pub id_last : ℕ
id_last = 3

module _ ⦃P : Platform⦄ {S : Type 0} where
  -- timeseries_backend_alloc. `backend_alloc_functions` holds what each allocation function returns,
  -- `none` for a backend that is not built in; `memory` is the answer of malloc_zero.
  unfoldable pub backend_alloc : List (Option (Backend S)) → Bool → ℕ → Outcome (Option (Backend S))
  backend_alloc backend_alloc_functions memory id = do
    assert (length backend_alloc_functions == id_last)
    done (elim (get_elem? backend_alloc_functions (id - 1)) [
      | none ↦ none
      | some slot ↦ if memory then slot else none
    ])

  -- timeseries_backend_init
  unfoldable pub backend_init : Backend S → List Bytes → Outcome (Status × Backend S)
  backend_init backend argv = if backend.enabled then done (success, backend) else do
    (rc, state) ← backend.ops.init backend.state argv
    done (elim rc [
      | failure ↦ (failure, record backend { state = state })
      | success ↦ (success, record backend { state = state; enabled = true })
    ])

  -- timeseries_backend_free. The slot is NULL afterwards; the result is the state that the
  -- backend left behind, `none` where there was no backend.
  unfoldable pub backend_free : Option (Backend S) → Outcome (Option S)
  backend_free none = done none
  backend_free (some backend) =
      if backend.enabled
      then (do state ← backend.ops.free backend.state; done (some state))
      else done (some backend.state)
