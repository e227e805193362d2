-- ===== src/Proxy/Setup/Prepared.antt =====
-- tools/tsk-proxy.c: what init_timeseries leaves.
use mathlib.Core.Path.{subst}
use libtimeseries.Base.{
  ℕ, zero, suc, ◌+◌, ◌-◌, ◌≡◌, refl, sym, ap, Bool, true, false, Option, none, some, List, [], ◌∷◌,
  Bytes, set, done, ◌>>=◌, Status, success, failure, bind-eq-done, done_inj, guard-map-eq-some,
  get_elem?, ltb, ◌||◌, ◌==◌, if◌then◌else◌, length, assert,
}
use libtimeseries.Platform.{Platform}
use libtimeseries.KeyPackage.{KeyPackage, kp_alloc, with_table}
use libtimeseries.KeyPackage.Invariant.{IsValid, kp_alloc-IsValid}
use libtimeseries.Backend.{Backend, backend_alloc, backend_init}
use libtimeseries.Timeseries.{
  Timeseries, get_backend_by_id, find_by_name, enable_backend, strcaseeq,
}
use libtimeseries.Flush.{kp_init_at}
use libtimeseries.Flush.Loop.{AllBackends}
use libtimeseries.Flush.Results.{Lawful}

module _ ⦃P : Platform⦄ where
  -- A package with no keys yet.
  pub record IsNew (disable : Bool) (kp : KeyPackage) : Type 0 where
    pub valid : IsValid kp
    pub disables : kp.disable ≡ disable
    pub no_key : kp.key_infos_cnt ≡ 0
    pub none_enabled : kp.key_infos_enabled_cnt ≡ 0

  IsNew-backend_state :
      (d : Bool) (kp : KeyPackage) (states : List (Option ℕ))
      → IsNew d kp
      → IsNew d (record kp { backend_state = states })
  IsNew-backend_state d kp states h = record {
    valid = record {
      counted = h.valid.counted;
      enabled = h.valid.enabled;
      small = h.valid.small;
      sound = h.valid.sound;
      complete = h.valid.complete;
    };
    disables = h.disables;
    no_key = h.no_key;
    none_enabled = h.none_enabled;
  }

  pub kp_alloc-IsNew : (kp : KeyPackage) → kp_alloc 2 ≡ some kp → IsNew true kp
  unfolding kp_alloc
  kp_alloc-IsNew kp h =
      let (t, _, e, same) = guard-map-eq-some P.malloc_zero (with_table 2) P.kh_init h in
      record {
        valid = kp_alloc-IsValid 2 kp h;
        disables = ap (λ (k : KeyPackage). k.disable) (sym same);
        no_key = ap (λ (k : KeyPackage). k.key_infos_cnt) (sym same);
        none_enabled = ap (λ (k : KeyPackage). k.key_infos_enabled_cnt) (sym same);
      }

module _ ⦃P : Platform⦄ {S : Type 0} where
  pub kp_init_at-IsNew :
      (d : Bool) (id : ℕ) (b : Backend S) (kp : KeyPackage) (rc : Status) (kp' : KeyPackage) (s : S)
      → IsNew d kp
      → kp_init_at id b kp ≡ done (rc, kp', s)
      → IsNew d kp'
  unfolding kp_init_at
  kp_init_at-IsNew d id b kp rc kp' s h run =
      let (a, _, end) = bind-eq-done (b.ops.kp_init b.state kp) _ run in
      subst (λ (x : Status × KeyPackage × S). IsNew d x.1) (done_inj end)
        (IsNew-backend_state d kp _ h)

  get_elem?-AllBackends :
      (L : Backend S → Type 0) (slots : List (Option (Backend S))) (i : ℕ) (b : Backend S)
      → AllBackends L slots
      → get_elem? slots i ≡ some (some b)
      → L b
  get_elem?-AllBackends L [] i b h e = cc
  get_elem?-AllBackends L (none ∷ slots) zero b h e = cc
  get_elem?-AllBackends L (some c ∷ slots) zero b h e = subst L (some_some_inj e) h.0
    where
      some_some_inj : {x y : Backend S} → some (some x) ≡ some (some y) → x ≡ y
      some_some_inj e = cc
  get_elem?-AllBackends L (none ∷ slots) (suc i) b h e = get_elem?-AllBackends L slots i b h e
  get_elem?-AllBackends L (some c ∷ slots) (suc i) b h e = get_elem?-AllBackends L slots i b h.1 e

  pub set-AllBackends :
      (L : Backend S → Type 0) (slots : List (Option (Backend S))) (i : ℕ) (b : Backend S)
      → AllBackends L slots
      → L b
      → AllBackends L (set slots i (some b))
  set-AllBackends L [] i b h l = tt
  set-AllBackends L (none ∷ slots) zero b h l = (l, h)
  set-AllBackends L (some c ∷ slots) zero b h l = (l, h.1)
  set-AllBackends L (none ∷ slots) (suc i) b h l = set-AllBackends L slots i b h l
  set-AllBackends L (some c ∷ slots) (suc i) b h l = (h.0, set-AllBackends L slots i b h.1 l)

  pub backend_alloc-AllBackends :
      (L : Backend S → Type 0) (functions : List (Option (Backend S))) (memory : Bool) (id : ℕ)
      (slot : Option (Backend S)) (slots : List (Option (Backend S)))
      → AllBackends L functions
      → backend_alloc functions memory id ≡ done slot
      → AllBackends L slots
      → AllBackends L (slot ∷ slots)
  unfolding backend_alloc
  backend_alloc-AllBackends L functions memory id slot slots h run rest =
      let (_, _, e) = bind-eq-done (assert (length functions == 3)) _ run in
      subst (λ s. AllBackends L (s ∷ slots)) (done_inj e)
        (by_slot (get_elem? functions (id - 1)) refl memory)
    where
      by_slot :
          (o : Option (Option (Backend S)))
          → get_elem? functions (id - 1) ≡ o
          → (m : Bool)
          → AllBackends L ((elim o [ none ↦ none | some s ↦ if m then s else none ]) ∷ slots)
      by_slot none e m = rest
      by_slot (some none) e true = rest
      by_slot (some none) e false = rest
      by_slot (some (some b)) e true = (get_elem?-AllBackends L functions (id - 1) b h e, rest)
      by_slot (some (some b)) e false = rest

  get_backend_by_id-AllBackends :
      (L : Backend S → Type 0) (ts : Timeseries S) (id : ℕ) (b : Backend S)
      → AllBackends L ts.backends
      → get_backend_by_id ts id ≡ some b
      → L b
  unfolding get_backend_by_id
  get_backend_by_id-AllBackends L ts id b h = by_id (ltb id 1 || ltb 3 id)
    where
      by_slot :
          (o : Option (Option (Backend S)))
          → get_elem? ts.backends (id - 1) ≡ o
          → (elim o [ none ↦ none | some slot ↦ slot ]) ≡ some b
          → L b
      by_slot none e h' = cc
      by_slot (some none) e h' = cc
      by_slot (some (some c)) e h' =
          subst L (some_inj h') (get_elem?-AllBackends L ts.backends (id - 1) c h e)
        where
          some_inj : {x y : Backend S} → some x ≡ some y → x ≡ y
          some_inj e = cc

      by_id :
          (c : Bool)
          → (if c
              then none
              else elim (get_elem? ts.backends (id - 1)) [ none ↦ none | some slot ↦ slot ])
            ≡ some b
          → L b
      by_id true e = cc
      by_id false e = by_slot (get_elem? ts.backends (id - 1)) refl e

  pub find_by_name-AllBackends :
      (L : Backend S → Type 0) (n id : ℕ) (ts : Timeseries S) (name : Bytes) (b : Backend S)
      → AllBackends L ts.backends
      → find_by_name n id ts name ≡ some b
      → L b
  unfolding find_by_name
  find_by_name-AllBackends L zero id ts name b h = λ e. cc
  find_by_name-AllBackends L (suc n) id ts name b h =
      by_backend (get_backend_by_id ts id) refl (find_by_name-AllBackends L n (id + 1) ts name b h)
    where
      some_inj : {x y : Backend S} → some x ≡ some y → x ≡ y
      some_inj e = cc

      by_name :
          (c : Bool) (found : Backend S)
          → get_backend_by_id ts id ≡ some found
          → (find_by_name n (id + 1) ts name ≡ some b → L b)
          → (if c then some found else find_by_name n (id + 1) ts name) ≡ some b
          → L b
      by_name true found e rest e' =
          subst L (some_inj e') (get_backend_by_id-AllBackends L ts id found h e)
      by_name false found e rest e' = rest e'

      by_backend :
          (o : Option (Backend S))
          → get_backend_by_id ts id ≡ o
          → (find_by_name n (id + 1) ts name ≡ some b → L b)
          → (elim o [
            | none ↦ find_by_name n (id + 1) ts name
            | some backend ↦
                if strcaseeq backend.name name
                then some backend
                else find_by_name n (id + 1) ts name
          ])
            ≡ some b
          → L b
      by_backend none e rest e' = rest e'
      by_backend (some found) e rest e' = by_name (strcaseeq found.name name) found e rest e'

  backend_init-Lawful :
      (b b' : Backend S) (argv : List Bytes) (rc : Status)
      → Lawful b
      → backend_init b argv ≡ done (rc, b')
      → Lawful b'
  unfolding backend_init
  backend_init-Lawful b b' argv rc l = by_enabled b.enabled
    where
      left : Status → S → Status × Backend S
      left c s = elim c [
        | failure ↦ (failure, record b { state = s })
        | success ↦ (success, record b { state = s; enabled = true })
      ]

      by_status : (c : Status) (s : S) → Lawful (left c s).1
      by_status failure s = l
      by_status success s = l

      by_enabled :
          (e : Bool)
          → (if e
              then done (success, b)
              else (b.ops.init b.state argv >>= λ (c, s). done (left c s)))
            ≡ done (rc, b')
          → Lawful b'
      by_enabled true h = subst (λ (a : Status × Backend S). Lawful a.1) (done_inj h) l
      by_enabled false h =
          let ((c, s), _, end) = bind-eq-done (b.ops.init b.state argv) _ h in
          subst (λ (a : Status × Backend S). Lawful a.1) (done_inj end) (by_status c s)

  pub enable_backend-Lawful :
      (parse_cmd : Bytes → Bytes → List Bytes) (b b' : Backend S) (opts : Option Bytes)
      (rc : Status)
      → Lawful b
      → enable_backend parse_cmd b opts ≡ done (rc, b')
      → Lawful b'
  unfolding enable_backend
  enable_backend-Lawful parse_cmd b b' none rc l h = backend_init-Lawful b b' _ rc l h
  enable_backend-Lawful parse_cmd b b' (some []) rc l h = backend_init-Lawful b b' _ rc l h
  enable_backend-Lawful parse_cmd b b' (some (c ∷ cs)) rc l h = backend_init-Lawful b b' _ rc l h
