-- ===== src/Proxy/Setup/Begun.antt =====
-- tools/tsk-proxy.c: from init_timeseries to the end of `run`.
use mathlib.Core.Path.{subst}
use libtimeseries.Base.{
  ℕ, ◌-◌, ◌^◌, ◌<◌, ◌≡◌, refl, ◌∙◌, Bool, true, false, Option, none, some, List, [], ◌∷◌, Bytes,
  All, arith, Outcome, done, ◌>>=◌, Status, success, failure, bind-eq-done, done_inj, if◌then◌else◌,
}
use libtimeseries.Platform.{Platform}
use libtimeseries.KeyPackage.{KeyPackage, kp_alloc, kp_enabled_size}
use libtimeseries.Backend.{Backend, backend_alloc}
use libtimeseries.Timeseries.{
  Timeseries, timeseries_init, get_backend_by_name, enable_backend, for_each_enabled,
}
use libtimeseries.Flush.{kp_init, kp_init_at}
use libtimeseries.Flush.Loop.{AllBackends, for_each_enabled-keeps, for_each_enabled-AllBackends}
use libtimeseries.Flush.Results.{Lawful}
use libtimeseries.Kafka.Setup.{text_at}
use libtimeseries.Proxy.{Proxy}
use libtimeseries.Proxy.Message.{Filter}
use libtimeseries.Proxy.Config.{TskConfig}
use libtimeseries.Proxy.Timing.{IsReady}
use libtimeseries.Proxy.Run.{Poll, run}
use libtimeseries.Proxy.Run.Ended.{HasDate, total_bytes, run_lem}
use libtimeseries.Proxy.Setup.{
  put_backend, start_package, if_enabled, if_found, if_initialised, start_timeseries,
  init_timeseries,
}
use libtimeseries.Proxy.Setup.Prepared.{
  IsNew, kp_alloc-IsNew, kp_init_at-IsNew, set-AllBackends, backend_alloc-AllBackends,
  find_by_name-AllBackends, enable_backend-Lawful,
}

module _ ⦃P : Platform⦄ {S : Type 0} where
  -- What init_timeseries leaves: lawful backends, and a package with no keys that disables its keys.
  pub record IsPrepared (a : Timeseries S × KeyPackage) : Type 0 where
    pub lawful : AllBackends Lawful a.0.backends
    pub new : IsNew true a.1

  -- The package is prepared where there is one.
  abbrev IfPrepared : Option (Timeseries S × KeyPackage) → Type 0
  IfPrepared none = Unit {0}
  IfPrepared (some a) = IsPrepared a

  kp_init-IfPrepared :
      (ts : Timeseries S) (a : Option KeyPackage × Timeseries S)
      → AllBackends Lawful ts.backends
      → kp_init ts 2 ≡ done a
      → IfPrepared (elim a.0 [ none ↦ none | some kp ↦ some (a.1, kp) ])
  unfolding kp_init
  kp_init-IfPrepared ts a l h = by_alloc (kp_alloc 2) refl h
    where
      Prepares : Option KeyPackage × Timeseries S → Type 0
      Prepares b = IfPrepared (elim b.0 [ none ↦ none | some kp ↦ some (b.1, kp) ])

      by_alloc :
          (o : Option KeyPackage)
          → kp_alloc 2 ≡ o
          → (elim o [
            | none ↦ done (none, ts)
            | some kp ↦ do
              (rc, kp', slots) ← for_each_enabled kp_init_at 1 ts.backends kp
              let left : Timeseries S = record { backends = slots }
              elim rc [ failure ↦ done (none, left) | success ↦ done (some kp', left) ]
          ])
            ≡ done a
          → Prepares a
      by_alloc none e run = subst Prepares (done_inj run) tt
      by_alloc (some kp) e run =
          let ((rc, kp', slots), looped, end) =
            bind-eq-done (for_each_enabled kp_init_at 1 ts.backends kp) _ run in
          after_loop rc kp' slots looped end
        where
          after_loop :
              (rc : Status) (kp' : KeyPackage) (slots : List (Option (Backend S)))
              → for_each_enabled kp_init_at 1 ts.backends kp ≡ done (rc, kp', slots)
              → (elim rc [
                | failure ↦ done (none, record { backends = slots })
                | success ↦ done (some kp', record { backends = slots })
              ])
                ≡ done a
              → Prepares a
          after_loop rc kp' slots looped end =
              let lawful =
                for_each_enabled-AllBackends kp_init_at Lawful (λ b s law. law) ts.backends 1 kp rc
                  kp' slots l looped in
              let new =
                for_each_enabled-keeps kp_init_at Lawful
                  (λ (c : Status) (k : KeyPackage). IsNew true k)
                  (λ id b k c k' s law j one. kp_init_at-IsNew true id b k c k' s j one) ts.backends
                  1 kp rc kp' slots l (kp_alloc-IsNew kp e) looped in
              by_end rc lawful new end
            where
              by_end :
                  (c : Status)
                  → AllBackends Lawful slots
                  → IsNew true kp'
                  → (elim c [
                    | failure ↦ done (none, record { backends = slots })
                    | success ↦ done (some kp', record { backends = slots })
                  ])
                    ≡ done a
                  → Prepares a
              by_end failure lawful new end = subst Prepares (done_inj end) tt
              by_end success lawful new end =
                  subst Prepares (done_inj end) (record { lawful = lawful; new = new })

  start_package-IfPrepared :
      (ts : Timeseries S) (o : Option (Timeseries S × KeyPackage))
      → AllBackends Lawful ts.backends
      → start_package 2 ts ≡ done o
      → IfPrepared o
  unfolding start_package
  start_package-IfPrepared ts o l h =
      let (a, ran, end) = bind-eq-done (kp_init ts 2) _ h in
      subst IfPrepared (done_inj end) (kp_init-IfPrepared ts a l ran)

  timeseries_init-Lawful :
      (functions : List (Option (Backend S))) (memory : ℕ → Bool) (ts : Timeseries S)
      → AllBackends Lawful functions
      → timeseries_init functions memory ≡ done (some ts)
      → AllBackends Lawful ts.backends
  unfolding timeseries_init
  timeseries_init-Lawful functions memory ts l = by_memory (memory 0)
    where
      by_memory :
          (m : Bool)
          → (if m
              then (do
                ascii ← backend_alloc functions (memory 1) 1
                dbats ← backend_alloc functions (memory 2) 2
                kafka ← backend_alloc functions (memory 3) 3
                done (some (record { backends = ascii ∷ dbats ∷ kafka ∷ [] })))
              else done none)
            ≡ done (some ts)
          → AllBackends Lawful ts.backends
      by_memory false h = cc
      by_memory true h =
          let (ascii, a, h₁) = bind-eq-done (backend_alloc functions (memory 1) 1) _ h in
          let (dbats, d, h₂) = bind-eq-done (backend_alloc functions (memory 2) 2) _ h₁ in
          let (kafka, k, h₃) = bind-eq-done (backend_alloc functions (memory 3) 3) _ h₂ in
          subst (λ (t : Timeseries S). AllBackends Lawful t.backends) (some_inj (done_inj h₃))
            (backend_alloc-AllBackends Lawful functions (memory 1) 1 ascii (dbats ∷ kafka ∷ []) l a
              (backend_alloc-AllBackends Lawful functions (memory 2) 2 dbats (kafka ∷ []) l d
                (backend_alloc-AllBackends Lawful functions (memory 3) 3 kafka [] l k tt)))
        where
          some_inj : {x y : Timeseries S} → some x ≡ some y → x ≡ y
          some_inj e = cc

  if_found-IfPrepared :
      (parse_cmd : Bytes → Bytes → List Bytes) (opts : Option Bytes) (ts : Timeseries S)
      (found : Option (Backend S)) (o : Option (Timeseries S × KeyPackage))
      → AllBackends Lawful ts.backends
      → ((b : Backend S) → found ≡ some b → Lawful b)
      → if_found parse_cmd 2 opts ts found ≡ done o
      → IfPrepared o
  if_found-IfPrepared parse_cmd opts ts none o l law h = subst IfPrepared (done_inj h) tt
  if_found-IfPrepared parse_cmd opts ts (some backend) o l law h =
      let (a, ran, end) =
        bind-eq-done (enable_backend parse_cmd backend opts) (if_enabled 2 ts) h in
      by_status a ran end
    where
      by_status :
          (a : Status × Backend S)
          → enable_backend parse_cmd backend opts ≡ done a
          → if_enabled 2 ts a ≡ done o
          → IfPrepared o
      by_status (failure, b) ran end = subst IfPrepared (done_inj end) tt
      by_status (success, b) ran end =
          start_package-IfPrepared (put_backend ts b) o
            (set-AllBackends Lawful ts.backends (b.id - 1) b l
              (enable_backend-Lawful parse_cmd backend b opts success (law backend refl) ran))
            end

  if_initialised-IfPrepared :
      (parse_cmd : Bytes → Bytes → List Bytes) (name opts : Option Bytes)
      (new : Option (Timeseries S)) (o : Option (Timeseries S × KeyPackage))
      → ((ts : Timeseries S) → new ≡ some ts → AllBackends Lawful ts.backends)
      → if_initialised parse_cmd 2 name opts new ≡ done o
      → IfPrepared o
  if_initialised-IfPrepared parse_cmd name opts none o l h = subst IfPrepared (done_inj h) tt
  if_initialised-IfPrepared parse_cmd name opts (some ts) o l h =
      let (backend_name, _, end) = bind-eq-done (text_at name) _ h in
      if_found-IfPrepared parse_cmd opts ts (get_backend_by_name ts backend_name) o (l ts refl)
        (λ b e.
          find_by_name-AllBackends Lawful 3 1 ts backend_name b (l ts refl)
            (unfold get_backend_by_name in e))
        end

  start_timeseries-IfPrepared :
      (functions : List (Option (Backend S))) (memory : ℕ → Bool)
      (parse_cmd : Bytes → Bytes → List Bytes) (name opts : Option Bytes)
      (o : Option (Timeseries S × KeyPackage))
      → AllBackends Lawful functions
      → start_timeseries functions memory parse_cmd 2 name opts ≡ done o
      → IfPrepared o
  unfolding start_timeseries
  start_timeseries-IfPrepared functions memory parse_cmd name opts o l h =
      let (new, ran, end) = bind-eq-done (timeseries_init functions memory) _ h in
      if_initialised-IfPrepared parse_cmd name opts new o
        (λ ts e. timeseries_init-Lawful functions memory ts l (ran ∙ to_done e)) end
    where
      to_done :
          {new : Option (Timeseries S)} {ts : Timeseries S}
          → new ≡ some ts
          → ◌≡◌ {A = Outcome (Option (Timeseries S))} (done new) (done (some ts))
      to_done e = cc

  -- Where init_timeseries has succeeded over backends that keep to their interface, and the proxy has not
  -- yet a time, a `run` that polls no message of the time 0 and fewer bytes than 2 ^ 31 leaves a ready
  -- proxy, if it returns. If it returns 0, no key is left enabled.
  pub run-init_timeseries :
      (functions : List (Option (Backend S))) (memory : ℕ → Bool)
      (parse_cmd : Bytes → Bytes → List Bytes) (config : TskConfig) (fuel : ℕ) (cfg : Filter)
      (polls : List Poll) (p p' : Proxy S) (rc : Status)
      → AllBackends Lawful functions
      → init_timeseries functions memory parse_cmd config ≡ done (some (p.timeseries, p.kp))
      → p.current_time ≡ 0
      → All (λ (e : Poll). HasDate cfg e.polled) polls
      → total_bytes polls < 2 ^ 31
      → run fuel cfg polls p ≡ done (rc, p')
      → IsReady p' × (rc ≡ success → kp_enabled_size p'.kp ≡ 0)
  run-init_timeseries functions memory parse_cmd config fuel cfg polls p p' rc l h fresh dated room
        ran =
      let prepared : IsPrepared (p.timeseries, p.kp) =
        start_timeseries-IfPrepared functions memory parse_cmd config.timeseries_backend
          config.timeseries_dbats_opts (some (p.timeseries, p.kp)) l h in
      run_lem fuel cfg polls p p' rc dated
        (record {
          valid = prepared.new.valid;
          disables = prepared.new.disables;
          lawful = prepared.lawful;
        })
        (omega (arith, room, prepared.new.no_key))
        (λ e. unfold kp_enabled_size in prepared.new.none_enabled) ran
