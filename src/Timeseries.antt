-- ===== src/Timeseries.antt =====
-- lib/timeseries.c: the timeseries object, which holds the backends, and what it hands on to each
-- enabled one of them.
pub mod Backends
use Prim.Native.Nat.{◌-◌}
use libtimeseries.Base.{
  ℕ, suc, ◌+◌, Bool, true, false, ◌&&◌, ◌||◌, Option, none, some, List, [], ◌∷◌, Bytes, get_elem?,
  ltb, leb, if◌then◌else◌, str_eq, Outcome, done, ◌>>=◌, Status, success, failure, zero,
}
use libtimeseries.Platform.{Platform}
use libtimeseries.Backend.{Backend, backend_alloc, backend_init, backend_free, id_first, id_last}

-- tolower of an ASCII byte, and strcasecmp(a, b) == 0
abbrev pub to_lower : ℕ → ℕ
to_lower c = if leb b'A' c && leb c b'Z' then c + 32 else c

unfoldable pub lower : Bytes → Bytes
lower [] = []
lower (c ∷ cs) = to_lower c ∷ lower cs

abbrev pub strcaseeq : Bytes → Bytes → Bool
strcaseeq a b = str_eq (lower a) (lower b)

-- struct timeseries
pub record Timeseries ⦃P : Platform⦄ (S : Type 0) : Type 0 where
  pub backends : List (Option (Backend S))

module _ ⦃P : Platform⦄ {S : Type 0} where
  -- timeseries_init; `none` is NULL. `memory` gives the answers of malloc_zero, first for the
  -- object, then for the backends.
  unfoldable pub timeseries_init :
      List (Option (Backend S)) → (ℕ → Bool) → Outcome (Option (Timeseries S))
  unfolding backend_alloc
  timeseries_init functions memory =
      if memory 0
      then (do
        ascii ← backend_alloc functions (memory 1) 1
        dbats ← backend_alloc functions (memory 2) 2
        kafka ← backend_alloc functions (memory 3) 3
        done (some (record { backends = ascii ∷ dbats ∷ kafka ∷ [] })))
      else done none

  -- timeseries_free: the loop over the slots, with what each backend left behind.
  unfoldable pub timeseries_free : List (Option (Backend S)) → Outcome (List (Option S))
  unfolding backend_free
  timeseries_free [] = done []
  timeseries_free (slot ∷ slots) = do
    left ← backend_free slot
    rest ← timeseries_free slots
    done (left ∷ rest)

  -- timeseries_get_backend_by_id; `none` is NULL.
  unfoldable pub get_backend_by_id : Timeseries S → ℕ → Option (Backend S)
  get_backend_by_id timeseries id =
      if ltb id id_first || ltb id_last id
      then none
      else elim (get_elem? timeseries.backends (id - 1)) [ none ↦ none | some slot ↦ slot ]

  -- timeseries_get_backend_by_name with the ids from `id` on still to be tried, `n` of them.
  unfoldable pub find_by_name : ℕ → ℕ → Timeseries S → Bytes → Option (Backend S)
  unfolding get_backend_by_id
  find_by_name zero id timeseries name = none
  find_by_name (suc n) id timeseries name =
      let rest = find_by_name n (id + 1) timeseries name in
      elim (get_backend_by_id timeseries id) [
        | none ↦ rest
        | some backend ↦ if strcaseeq backend.name name then some backend else rest
      ]

  unfoldable pub get_backend_by_name : Timeseries S → Bytes → Option (Backend S)
  unfolding find_by_name
  get_backend_by_name timeseries name = find_by_name 3 id_first timeseries name

  -- timeseries_enable_backend. `parse_cmd` (of a git submodule) splits the options into the
  -- argument vector, whose first element is the backend's name; `none` is a NULL string.
  unfoldable pub enable_backend :
      (Bytes → Bytes → List Bytes) → Backend S → Option Bytes → Outcome (Status × Backend S)
  unfolding backend_init
  enable_backend parse_cmd backend none = backend_init backend (backend.name ∷ [])
  enable_backend parse_cmd backend (some []) = backend_init backend (backend.name ∷ [])
  enable_backend parse_cmd backend (some (c ∷ cs)) =
      backend_init backend (parse_cmd (c ∷ cs) backend.name)

  abbrev pub prepend :
      {A : Type 0}
      → Option (Backend S)
      → Outcome (Status × A × List (Option (Backend S)))
      → Outcome (Status × A × List (Option (Backend S)))
  prepend slot m = do (rc, a, slots) ← m; done (rc, a, slot ∷ slots)

  -- The loop TIMESERIES_FOREACH_ENABLED_BACKEND from id `id` on. The body runs on each slot that
  -- holds an enabled backend; a body that fails ends the loop.
  unfoldable pub for_each_enabled :
      {A : Type 0} (body : ℕ → Backend S → A → Outcome (Status × A × S)) (id : ℕ)
      → List (Option (Backend S))
      → A
      → Outcome (Status × A × List (Option (Backend S)))
  for_each_enabled body id [] a = done (success, a, [])
  for_each_enabled body id (none ∷ slots) a = prepend none (for_each_enabled body (id + 1) slots a)
  for_each_enabled body id (some backend ∷ slots) a = elim backend.enabled [
    | false ↦ prepend (some backend) (for_each_enabled body (id + 1) slots a)
    | true ↦ do
      (rc, a', state) ← body id backend a
      elim rc [
        | failure ↦ done (failure, a', some (record backend { state = state }) ∷ slots)
        | success ↦
            prepend (some (record backend { state = state }))
              (for_each_enabled body (id + 1) slots a')
      ]
  ]

  abbrev pub some_enabled : List (Option (Backend S)) → Bool
  some_enabled [] = false
  some_enabled (none ∷ slots) = some_enabled slots
  some_enabled (some backend ∷ slots) = backend.enabled || some_enabled slots

  -- Whether a loop TIMESERIES_FOREACH_ENABLED_BACKEND has a round to run.
  unfoldable pub any_enabled : Timeseries S → Bool
  any_enabled timeseries = some_enabled timeseries.backends

  -- The body of the loop of timeseries_set_single.
  unfoldable pub set_single_at :
      Bytes → ℕ → ℕ → ℕ → Backend S → Unit {0} → Outcome (Status × Unit {0} × S)
  set_single_at key value time id backend u = do
    (rc, state) ← backend.ops.set_single backend.state key value time
    done (rc, tt, state)

  -- timeseries_set_single
  unfoldable pub set_single : Timeseries S → Bytes → ℕ → ℕ → Outcome (Status × Timeseries S)
  unfolding for_each_enabled set_single_at
  set_single timeseries key value time = do
    (rc, _, backends) ←
        for_each_enabled (set_single_at key value time) id_first timeseries.backends tt
    done (rc, record { backends = backends })
