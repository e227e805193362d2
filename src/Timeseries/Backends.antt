-- ===== src/Timeseries/Backends.antt =====
-- lib/timeseries.c: which backend a look-up finds, and what timeseries_set_single does to the backends.
use mathlib.Core.Path.{subst}
use libtimeseries.Base.{
  ℕ, zero, suc, ◌+◌, ◌≤◌, ◌<◌, ◌≡◌, refl, sym, ap, ◌∙◌, ◌⊎◌, true, false, Option, none, some, List,
  [], ◌∷◌, Bytes, ◌==◌, arith, if◌then◌else◌, done, bind-eq-done, Bool-cases, inl, inr, Status,
  success, failure,
}
use libtimeseries.Platform.{Platform}
use libtimeseries.Backend.{Backend, id_first}
use libtimeseries.Timeseries.{
  Timeseries, get_backend_by_id, find_by_name, get_backend_by_name, strcaseeq, for_each_enabled,
  set_single_at, set_single, prepend,
}
use libtimeseries.Flush.Loop.{prepend-eq-done}

some_inj : {A : Type 0} {a b : A} → some a ≡ some b → a ≡ b
some_inj h = ground arith

module _ ⦃P : Platform⦄ {S : Type 0} where
  -- The backend has the name, and it has the lowest of the `n` ids from `id` on whose backend does.
  abbrev Found : ℕ → ℕ → Timeseries S → Bytes → Backend S → Type 0
  Found n id ts name b =
      (strcaseeq b.name name ≡ true)
      × (i : ℕ) × (id ≤ i)
      × (i < id + n)
      × (get_backend_by_id ts i ≡ some b)
      × ((j : ℕ) (c : Backend S)
          → id ≤ j
          → j < i
          → get_backend_by_id ts j ≡ some c
          → strcaseeq c.name name ≡ false)

  Found-later :
      (n id : ℕ) (ts : Timeseries S) (name : Bytes) (b : Backend S)
      → ((c : Backend S) → get_backend_by_id ts id ≡ some c → strcaseeq c.name name ≡ false)
      → Found n (id + 1) ts name b
      → Found (suc n) id ts name b
  Found-later n id ts name b other (named, i, low, high, at, first) = (
    named,
    i,
    omega (arith, low),
    omega (arith, high),
    at,
    λ j c jl jh e. elim (Bool-cases (j == id)) [
      | inl same ↦
          let here : j ≡ id = ground arith in
          other c (subst (λ x. get_backend_by_id ts x ≡ some c) here e)
      | inr above ↦ first j c (ground arith) jh e
    ],
  )

  find_by_name-Found :
      (n id : ℕ) (ts : Timeseries S) (name : Bytes) (b : Backend S)
      → find_by_name n id ts name ≡ some b
      → Found n id ts name b
  unfolding find_by_name
  find_by_name-Found zero id ts name b h = cc
  find_by_name-Found (suc n) id ts name b h =
      slot (get_backend_by_id ts id) refl (λ e. find_by_name-Found n (id + 1) ts name b e) h
    where
      slot :
          (o : Option (Backend S))
          → get_backend_by_id ts id ≡ o
          → (find_by_name n (id + 1) ts name ≡ some b → Found n (id + 1) ts name b)
          → elim o [
            | none ↦ find_by_name n (id + 1) ts name
            | some backend ↦
                if strcaseeq backend.name name
                then some backend
                else find_by_name n (id + 1) ts name
          ]
            ≡ some b
          → Found (suc n) id ts name b
      slot none e later run = Found-later n id ts name b (λ c e'. cc) (later run)
      slot (some c) e later run = elim (Bool-cases (strcaseeq c.name name)) [
        | inl named ↦
            let same : c ≡ b = ground (arith, rw named at run) in
            (
              ap (λ (x : Backend S). strcaseeq x.name name) (sym same) ∙ named,
              id,
              omega arith,
              omega arith,
              e ∙ ap some same,
              λ j x jl jh e'. absurd (omega (arith, jl, jh)),
            )
        | inr other ↦
            Found-later n id ts name b
              (λ x e'.
                let same : c ≡ x = some_inj (sym e ∙ e') in
                ap (λ (y : Backend S). strcaseeq y.name name) (sym same) ∙ other)
              (later (rw other at run))
      ]

  -- A backend that timeseries_get_backend_by_name finds has the name, up to the case of the letters,
  -- and is the one that timeseries_get_backend_by_id gives for the lowest id from 1 to 3 whose
  -- backend has the name.
  pub get_backend_by_name_lem :
      (ts : Timeseries S) (name : Bytes) (b : Backend S)
      → get_backend_by_name ts name ≡ some b
      → (strcaseeq b.name name ≡ true)
        × (i : ℕ) × (1 ≤ i)
        × (i < 4)
        × (get_backend_by_id ts i ≡ some b)
        × ((j : ℕ) (c : Backend S)
            → 1 ≤ j
            → j < i
            → get_backend_by_id ts j ≡ some c
            → strcaseeq c.name name ≡ false)
  unfolding get_backend_by_name
  get_backend_by_name_lem ts name b h = find_by_name-Found 3 id_first ts name b h

  -- Each enabled backend has set the value, and the other slots are as they were.
  abbrev pub AllSet : Bytes → ℕ → ℕ → List (Option (Backend S)) → List (Option (Backend S)) → Type 0
  AllSet key value time [] slots' = slots' ≡ []
  AllSet key value time (none ∷ slots) slots' =
      (rest : List (Option (Backend S))) × (slots' ≡ none ∷ rest) × AllSet key value time slots rest
  AllSet key value time (some b ∷ slots) slots' =
      (s : S) × (rest : List (Option (Backend S))) × (slots' ≡ some (record b { state = s }) ∷ rest)
      × ((b.enabled ≡ true) × (b.ops.set_single b.state key value time ≡ done (success, s))
          ⊎ (b.enabled ≡ false) × (s ≡ b.state))
      × AllSet key value time slots rest

  loop-AllSet :
      (key : Bytes) (value time id : ℕ) (slots slots' : List (Option (Backend S))) (u : Unit {0})
      → for_each_enabled (set_single_at key value time) id slots tt ≡ done (success, u, slots')
      → AllSet key value time slots slots'
  unfolding for_each_enabled set_single_at
  loop-AllSet key value time id [] slots' u h = ground arith
  loop-AllSet key value time id (none ∷ slots) slots' u h =
      let (rest, e, same) =
        prepend-eq-done none (for_each_enabled (set_single_at key value time) (id + 1) slots tt)
          h in
      (rest, same, loop-AllSet key value time (id + 1) slots rest u e)
  loop-AllSet key value time id (some b ∷ slots) slots' u h = elim (Bool-cases b.enabled) [
    | inl on ↦
        let ((rc, u₁, s₁), e, later) =
          bind-eq-done (set_single_at key value time id b tt) _ (rw (on, for_each_enabled) at h) in
        after_body rc s₁ on e later (λ rest e'. loop-AllSet key value time (id + 1) slots rest u e')
    | inr off ↦
        let (rest, e, same) =
          prepend-eq-done (some b)
            (for_each_enabled (set_single_at key value time) (id + 1) slots tt)
            (rw (off, for_each_enabled) at h) in
        (b.state, rest, same, inr (off, refl), loop-AllSet key value time (id + 1) slots rest u e)
  ]
    where
      set_eq :
          (rc : Status) (s₁ : S)
          → set_single_at key value time id b tt ≡ done (rc, tt, s₁)
          → b.ops.set_single b.state key value time ≡ done (rc, s₁)
      set_eq rc s₁ e =
          let ((rc', s'), e', end) = bind-eq-done (b.ops.set_single b.state key value time) _ e in
          e' ∙ ground arith

      after_body :
          (rc : Status) (s₁ : S)
          → b.enabled ≡ true
          → set_single_at key value time id b tt ≡ done (rc, tt, s₁)
          → (elim rc [
            | failure ↦ done (failure, tt, some (record b { state = s₁ }) ∷ slots)
            | success ↦
                prepend
                  (some (record b { state = s₁ }))
                  (for_each_enabled (set_single_at key value time) (id + 1) slots tt)
          ])
            ≡ done (success, u, slots')
          → ((rest : List (Option (Backend S)))
              → for_each_enabled (set_single_at key value time) (id + 1) slots tt
                ≡ done (success, u, rest)
              → AllSet key value time slots rest)
          → AllSet key value time (some b ∷ slots) slots'
      after_body failure s₁ on e later ih = cc
      after_body success s₁ on e later ih =
          let (rest, e', same) =
            prepend-eq-done (some (record b { state = s₁ }))
              (for_each_enabled (set_single_at key value time) (id + 1) slots tt) later in
          (s₁, rest, same, inl (on, set_eq success s₁ e), ih rest e')

  -- When timeseries_set_single returns 0, every enabled backend has been asked to set the value and
  -- returned 0, and each is left in the state that this call gave; the other slots are as they were.
  pub set_single_lem :
      (ts ts' : Timeseries S) (key : Bytes) (value time : ℕ)
      → set_single ts key value time ≡ done (success, ts')
      → AllSet key value time ts.backends ts'.backends
  unfolding set_single
  set_single_lem ts ts' key value time h =
      let ((rc, u, slots), e, end) =
        bind-eq-done (for_each_enabled (set_single_at key value time) id_first ts.backends tt) _
          h in
      let won : rc ≡ success = ground arith in
      let left : slots ≡ ts'.backends = ground arith in
      subst (AllSet key value time ts.backends) left (
        loop-AllSet key value time id_first ts.backends slots u
          (e ∙ ap (λ (c : Status). done (c, u, slots)) won))
