-- ===== src/Flush.antt =====
-- lib/timeseries_kp.c: the operations on a key package that go through the enabled backends.
pub mod Loop
pub mod View
pub mod Results
use Prim.Native.Nat.{◌-◌}
use libtimeseries.Base.{
  ℕ, Bool, true, false, Option, none, some, List, [], ◌∷◌, set, Outcome, done, fault, undefined,
  ◌>>=◌, Status, success, failure, get_elem?,
}
use libtimeseries.Platform.{Platform}
use libtimeseries.KeyPackage.{
  KeyInfo, KeyPackage, kp_alloc, kp_reset_disable, ki_get_backend_state, ki_set_backend_state,
}
use libtimeseries.Backend.{Ops, Backend, id_first}
use libtimeseries.Timeseries.{Timeseries, for_each_enabled}

module _ ⦃P : Platform⦄ {S : Type 0} where
  -- The body of the loop of timeseries_kp_init.
  unfoldable pub kp_init_at : ℕ → Backend S → KeyPackage → Outcome (Status × KeyPackage × S)
  kp_init_at id backend kp = do
    (rc, kp_state, state) ← backend.ops.kp_init backend.state kp
    done (rc, record kp { backend_state = set kp.backend_state (id - 1) kp_state }, state)

  -- timeseries_kp_init; `none` is NULL.
  unfoldable pub kp_init : Timeseries S → ℕ → Outcome (Option KeyPackage × Timeseries S)
  unfolding kp_alloc for_each_enabled kp_init_at
  kp_init timeseries flags = elim (kp_alloc flags) [
    | none ↦ done (none, timeseries)
    | some kp ↦ do
      (rc, kp', backends) ← for_each_enabled kp_init_at id_first timeseries.backends kp
      let left : Timeseries S = record { backends = backends }
      elim rc [ failure ↦ done (none, left) | success ↦ done (some kp', left) ]
  ]

  -- The body of the loop of timeseries_kp_resolve.
  unfoldable pub resolve_at : ℕ → Backend S → KeyPackage → Outcome (Status × KeyPackage × S)
  resolve_at id backend kp = backend.ops.kp_ki_update backend.state kp

  -- timeseries_kp_resolve
  unfoldable pub kp_resolve :
      Timeseries S → KeyPackage → Outcome (Status × KeyPackage × Timeseries S)
  unfolding for_each_enabled resolve_at
  kp_resolve timeseries kp = do
    (rc, kp', backends) ←
        for_each_enabled resolve_at id_first timeseries.backends (record kp { dirty = false })
    done (rc, kp', record { backends = backends })

  -- `dirty != 0 && backend->kp_ki_update(backend, kp) != 0`
  unfoldable pub update_if : Bool → Backend S → KeyPackage → Outcome (Status × KeyPackage × S)
  update_if true backend kp = backend.ops.kp_ki_update backend.state kp
  update_if false backend kp = done (success, kp, backend.state)

  -- The round of timeseries_kp_flush for one backend, after its test of `kp_ki_update`.
  unfoldable pub flush_updated :
      ℕ → Backend S → Status × KeyPackage × S → Outcome (Status × KeyPackage × S)
  flush_updated time backend (failure, kp, state) =
      done (failure, record kp { dirty = true }, state)
  flush_updated time backend (success, kp, state) = do
    (rc, state') ← backend.ops.kp_flush state kp time
    done (rc, kp, state')

  -- The body of the loop of timeseries_kp_flush.
  unfoldable pub flush_at :
      Bool → ℕ → ℕ → Backend S → KeyPackage → Outcome (Status × KeyPackage × S)
  unfolding update_if flush_updated
  flush_at dirty time id backend kp = do
    updated ← update_if dirty backend kp
    flush_updated time backend updated

  -- What timeseries_kp_flush does after its loop.
  unfoldable pub flush_finish :
      Status × KeyPackage × List (Option (Backend S)) → Outcome (Status × KeyPackage × Timeseries S)
  unfolding kp_reset_disable
  flush_finish (failure, kp, backends) = done (failure, kp, record { backends = backends })
  flush_finish (success, kp, backends) = do
    kp' ← kp_reset_disable kp
    done (success, kp', record { backends = backends })

  -- timeseries_kp_flush
  unfoldable pub kp_flush :
      Timeseries S → KeyPackage → ℕ → Outcome (Status × KeyPackage × Timeseries S)
  unfolding for_each_enabled flush_at flush_finish
  kp_flush timeseries kp time = do
    flushed ←
        for_each_enabled (flush_at kp.dirty time) id_first timeseries.backends
          (record kp { dirty = false })
    flush_finish flushed

  -- `kp_ki_free`: the body of its loop over the backends, and the function.
  unfoldable pub ki_free_at : KeyInfo → ℕ → Backend S → Unit {0} → Outcome (Status × Unit {0} × S)
  unfolding ki_get_backend_state
  ki_free_at ki id backend u = do
    ki_state ← ki_get_backend_state ki id
    state ← backend.ops.kp_ki_free backend.state ki ki_state
    done (success, tt, state)

  unfoldable pub kp_ki_free : Timeseries S → KeyInfo → Outcome (Timeseries S)
  unfolding for_each_enabled ki_free_at
  kp_ki_free timeseries ki = do
    (_, _, backends) ← for_each_enabled (ki_free_at ki) id_first timeseries.backends tt
    done (record { backends = backends })

  -- The loop of timeseries_kp_free over the key array.
  unfoldable pub free_key_infos : Timeseries S → List KeyInfo → Outcome (Timeseries S)
  unfolding kp_ki_free
  free_key_infos timeseries [] = done timeseries
  free_key_infos timeseries (ki ∷ kis) = do
    timeseries' ← kp_ki_free timeseries ki
    free_key_infos timeseries' kis

  -- The body of the second loop of timeseries_kp_free.
  unfoldable pub kp_free_at :
      KeyPackage → ℕ → Backend S → Unit {0} → Outcome (Status × Unit {0} × S)
  kp_free_at kp id backend u = do
    kp_state ← elim (get_elem? kp.backend_state (id - 1)) [
      | none ↦ fault undefined
      | some p ↦ done p
    ]
    state ← backend.ops.kp_free backend.state kp kp_state
    done (success, tt, state)

  -- timeseries_kp_free, where the array holds as many elements as the package counts; `none` is a
  -- NULL package. The backends see a package whose array is gone.
  unfoldable pub kp_free : Timeseries S → Option KeyPackage → Outcome (Timeseries S)
  unfolding free_key_infos for_each_enabled kp_free_at
  kp_free timeseries none = done timeseries
  kp_free timeseries (some kp) = do
    freed ← free_key_infos timeseries kp.key_infos
    (_, _, backends) ←
        for_each_enabled (kp_free_at (record kp { key_infos = []; key_infos_cnt = 0 })) id_first
          freed.backends tt
    done (record { backends = backends })
