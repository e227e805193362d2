-- ===== src/Flush/Loop.antt =====
-- The rule for the loop TIMESERIES_FOREACH_ENABLED_BACKEND: what every round keeps, the loop keeps.
use mathlib.Core.Path.{subst₂, subst}
use libtimeseries.Base.{
  ℕ, ◌+◌, ◌≡◌, Option, none, some, List, [], ◌∷◌, Outcome, done, fault, bind-eq-done, Bool-cases,
  inl, inr, Status, success, failure, arith, sym,
}
use libtimeseries.Platform.{Platform}
use libtimeseries.Backend.{Backend}
use libtimeseries.Timeseries.{for_each_enabled, prepend}

module _ ⦃P : Platform⦄ {S : Type 0} where
  -- Each slot that is not NULL holds a backend with the property `L`.
  abbrev pub AllBackends : (Backend S → Type 0) → List (Option (Backend S)) → Type 0
  AllBackends L [] = Unit
  AllBackends L (none ∷ slots) = AllBackends L slots
  AllBackends L (some backend ∷ slots) = L backend × AllBackends L slots

  pub prepend-eq-done :
      {A : Type 0} (slot : Option (Backend S))
      (m : Outcome (Status × A × List (Option (Backend S)))) {rc : Status} {a : A}
      {slots : List (Option (Backend S))}
      → prepend slot m ≡ done (rc, a, slots)
      → (rest : List (Option (Backend S))) × (m ≡ done (rc, a, rest)) × (slots ≡ slot ∷ rest)
  prepend-eq-done slot (fault e) h = cc
  prepend-eq-done slot (done (rc', a', rest)) h = (rest, ground arith, ground arith)

  module _ {A : Type 0} (body : ℕ → Backend S → A → Outcome (Status × A × S))
      (L : Backend S → Type 0) (J : Status → A → Type 0)
      (keep : (id : ℕ) (backend : Backend S) (a : A) (rc : Status) (a' : A) (s : S)
        → L backend
        → J success a
        → body id backend a ≡ done (rc, a', s)
        → J rc a') where
    pub for_each_enabled-keeps :
        (slots : List (Option (Backend S))) (id : ℕ) (a : A) (rc : Status) (a' : A)
        (slots' : List (Option (Backend S)))
        → AllBackends L slots
        → J success a
        → for_each_enabled body id slots a ≡ done (rc, a', slots')
        → J rc a'
    unfolding for_each_enabled
    for_each_enabled-keeps [] id a rc a' slots' l j h = subst₂ J (ground arith) (ground arith) j
    for_each_enabled-keeps (none ∷ slots) id a rc a' slots' l j h =
        let (rest, e, _) = prepend-eq-done none _ h in
        for_each_enabled-keeps slots (id + 1) a rc a' rest l j e
    for_each_enabled-keeps (some b ∷ slots) id a rc a' slots' l j h = elim (Bool-cases b.enabled) [
      | inl on ↦
          let ((rc₁, a₁, s₁), e, later) =
            bind-eq-done (body id b a) _ (rw (on, for_each_enabled) at h) in
          after_body rc₁ a₁ s₁ e later (for_each_enabled-keeps slots (id + 1))
      | inr off ↦
          let (rest, e, _) = prepend-eq-done (some b) _ (rw (off, for_each_enabled) at h) in
          for_each_enabled-keeps slots (id + 1) a rc a' rest l.1 j e
    ]
      where
        after_body :
            (rc₁ : Status) (a₁ : A) (s₁ : S)
            → body id b a ≡ done (rc₁, a₁, s₁)
            → (elim rc₁ [
              | failure ↦ done (failure, a₁, some (record b { state = s₁ }) ∷ slots)
              | success ↦
                  prepend (some (record b { state = s₁ })) (for_each_enabled body (id + 1) slots a₁)
            ])
              ≡ done (rc, a', slots')
            → ((a : A) (rc : Status) (a' : A) (slots' : List (Option (Backend S)))
                → AllBackends L slots
                → J success a
                → for_each_enabled body (id + 1) slots a ≡ done (rc, a', slots')
                → J rc a')
            → J rc a'
        after_body failure a₁ s₁ e later ih =
            subst₂ J (ground arith) (ground arith) (keep id b a failure a₁ s₁ l.0 j e)
        after_body success a₁ s₁ e later ih =
            let (rest, e', _) = prepend-eq-done _ _ later in
            ih a₁ rc a' rest l.1 (keep id b a success a₁ s₁ l.0 j e) e'

  -- A property of backends that does not look at their state holds after the loop too.
  pub for_each_enabled-AllBackends :
      {A : Type 0} (body : ℕ → Backend S → A → Outcome (Status × A × S)) (L : Backend S → Type 0)
      (stateless : (b : Backend S) (s : S) → L b → L (record b { state = s }))
      (slots : List (Option (Backend S))) (id : ℕ) (a : A) (rc : Status) (a' : A)
      (slots' : List (Option (Backend S)))
      → AllBackends L slots
      → for_each_enabled body id slots a ≡ done (rc, a', slots')
      → AllBackends L slots'
  unfolding for_each_enabled
  for_each_enabled-AllBackends body L stateless [] id a rc a' slots' l h =
      subst (AllBackends L) {x = []} {y = slots'} (ground arith) tt
  for_each_enabled-AllBackends body L stateless (none ∷ slots) id a rc a' slots' l h =
      let (rest, e, same) = prepend-eq-done none _ h in
      subst (AllBackends L) (sym same)
        (for_each_enabled-AllBackends body L stateless slots (id + 1) a rc a' rest l e)
  for_each_enabled-AllBackends {A} body L stateless (some b ∷ slots) id a rc a' slots' l h =
      elim (Bool-cases b.enabled) [
        | inl on ↦
            let ((rc₁, a₁, s₁), e, later) =
              bind-eq-done (body id b a) _ (rw (on, for_each_enabled) at h) in
            after_body rc₁ a₁ s₁ later
              (for_each_enabled-AllBackends body L stateless slots (id + 1))
        | inr off ↦
            let (rest, e, same) = prepend-eq-done (some b) _ (rw (off, for_each_enabled) at h) in
            subst (AllBackends L) (sym same)
              (l.0, for_each_enabled-AllBackends body L stateless slots (id + 1) a rc a' rest l.1 e)
      ]
    where
      after_body :
          (rc₁ : Status) (a₁ : A) (s₁ : S)
          → (elim rc₁ [
            | failure ↦ done (failure, a₁, some (record b { state = s₁ }) ∷ slots)
            | success ↦
                prepend (some (record b { state = s₁ })) (for_each_enabled body (id + 1) slots a₁)
          ])
            ≡ done (rc, a', slots')
          → ((a : A) (rc : Status) (a' : A) (slots' : List (Option (Backend S)))
              → AllBackends L slots
              → for_each_enabled body (id + 1) slots a ≡ done (rc, a', slots')
              → AllBackends L slots')
          → AllBackends L slots'
      after_body failure a₁ s₁ later ih =
          subst (AllBackends L) {x = some (record b { state = s₁ }) ∷ slots} {y = slots'}
            (ground arith) (stateless b s₁ l.0, l.1)
      after_body success a₁ s₁ later ih =
          let (rest, e, same) = prepend-eq-done (some (record b { state = s₁ })) _ later in
          subst (AllBackends L) (sym same) (stateless b s₁ l.0, ih a₁ rc a' rest l.1 e)
