-- ===== src/Proxy/Keeps.antt =====
-- tools/tsk-proxy.c: what handle_message keeps of the proxy, whatever the message.
use mathlib.Core.Path.{subst}
use libtimeseries.Base.{
  ℕ, zero, suc, ◌+◌, ◌-◌, ◌^◌, ◌≤◌, ◌<◌, ◌≡◌, refl, sym, ap, ◌∙◌, Bool, false, Option, none, some,
  List, [], ◌∷◌, Bytes, codes, length, arith, Outcome, done, ◌>>=◌, bind-eq-done, Status, success,
  failure, ltb, assert, Option-cases, Bool-cases, inl, inr, length-drop, set, bind_assoc, take,
  drop, of_be32, of_be16, ◌==◌,
}
use libtimeseries.Platform.{Platform}
use libtimeseries.KeyPackage.{
  KeyPackage, kp_get_key, kp_add_key, kp_enable_key, kp_set, set_value, kp_ki_set, inc32,
}
use libtimeseries.KeyPackage.Invariant.{IsValid, key_info-bind, add_key-eq-done}
use libtimeseries.KeyPackage.Marks.{kp_set-eq-done, enable_key_lem}
use libtimeseries.Timeseries.{any_enabled}
use libtimeseries.Proxy.{Proxy, bump, maybe_flush, id_or_minus_one}
use libtimeseries.Proxy.Message.{
  Filter, Header, skip, unknown_channel, batch, Record, short, truncated, overrun, pair,
  read_header, read_channel, read_record, parse_loop, parse_record, parse_key_value, after_record,
  take_pair, passes, c_string, store, enable_or_add, after_turn, handle_header, handle_message,
  channel_matches, tskbatch_version,
}
use libtimeseries.Proxy.Store.{store_lem}
use libtimeseries.Proxy.Termination.{Progress, read_record-Progress}
use libtimeseries.Proxy.Timing.{IsReady, bump-SameButStats, SameButStats-IsReady}
use libtimeseries.Proxy.Turn.{maybe_flush_lem}

module _ ⦃P : Platform⦄ where
  -- The package is valid, has its disable flag, and at most `n` more keys.
  record Grown (n : ℕ) (kp kp' : KeyPackage) : Type 0 where
    valid : IsValid kp'
    disable : kp'.disable ≡ kp.disable
    cnt : kp'.key_infos_cnt ≤ kp.key_infos_cnt + n

  kp_set-disable :
      (kp kp' : KeyPackage) (i value : ℕ) → kp_set kp i value ≡ done kp' → kp'.disable ≡ kp.disable
  unfolding kp_set set_value
  kp_set-disable kp kp' i value h =
      let (_, _, e) = bind-eq-done (assert (ltb i kp.key_infos_cnt)) _ h in
      let (ki, _, e') = key_info-bind kp i e in
      let same : record kp { key_infos = set kp.key_infos i (kp_ki_set ki value) } ≡ kp' =
        ground arith in
      ap (λ (k : KeyPackage). k.disable) (sym same)

  enable_key-disable :
      (kp kp' : KeyPackage) (i : ℕ) → kp_enable_key kp i ≡ done kp' → kp'.disable ≡ kp.disable
  unfolding kp_enable_key
  enable_key-disable kp kp' i h =
      let (ki, _, e) = key_info-bind kp i h in
      elim (Bool-cases ki.disabled) [
        | inl off ↦
            let enabled : record kp {
              key_infos = set kp.key_infos i (record ki { disabled = false });
              key_infos_enabled_cnt = inc32 kp.key_infos_enabled_cnt;
            }
                ≡ kp' =
              ground arith in
            ap (λ (k : KeyPackage). k.disable) (sym enabled)
        | inr on ↦
            let same : kp ≡ kp' = ground arith in ap (λ (k : KeyPackage). k.disable) (sym same)
      ]

  enable_or_add-grows :
      (backends : Bool) (kp kp' : KeyPackage) (key : Bytes) (id : ℕ)
      → IsValid kp
      → kp.key_infos_cnt + 1 < 2 ^ 31
      → enable_or_add backends kp key ≡ done (some id, kp')
      → (kp'.disable ≡ kp.disable) × (kp'.key_infos_cnt ≤ kp.key_infos_cnt + 1)
  unfolding enable_or_add
  enable_or_add-grows backends kp kp' key id v room h = elim (Option-cases (kp_get_key kp key)) [
    | inl fresh ↦
        let added : kp_add_key backends kp key ≡ done (some id, kp') =
          rw (fresh, enable_or_add) at h in
        let (t, _, _, same) = add_key-eq-done kp backends key added in
        (
          ap (λ (k : KeyPackage). k.disable) (sym same),
          omega (arith, ap (λ (k : KeyPackage). k.key_infos_cnt) same),
        )
    | inr (old, known) ↦
        let (k, on, e) = bind-eq-done (kp_enable_key kp old) _ (rw (known, enable_or_add) at h) in
        let left : k ≡ kp' = ground arith in
        let (_, _, _, _, kept) = enable_key_lem kp k old old v on in
        (
          ap (λ (k : KeyPackage). k.disable) (sym left) ∙ enable_key-disable kp k old on,
          omega (arith, kept.cnt, ap (λ (k : KeyPackage). k.key_infos_cnt) left),
        )
  ]

  take_pair-Grown :
      (backends : Bool) (filters : List Bytes) (kp kp' : KeyPackage) (key : Bytes) (value : ℕ)
      → IsValid kp
      → kp.key_infos_cnt + 1 < 2 ^ 31
      → take_pair backends filters kp key value ≡ done kp'
      → Grown 1 kp kp'
  unfolding take_pair store
  take_pair-Grown backends filters kp kp' key value v room h =
      elim (Bool-cases (passes filters key)) [
        | inl taken ↦ stored (rw taken at h)
        | inr other ↦
            subst (Grown 1 kp) {x = kp} (ground arith)
              (record { valid = v; disable = refl; cnt = omega arith })
      ]
    where
      found_id :
          (found : Option ℕ) (k : KeyPackage)
          → IsValid kp'
          → enable_or_add backends kp (c_string key) ≡ done (found, k)
          → kp_set k (id_or_minus_one found) value ≡ done kp'
          → Grown 1 kp kp'
      found_id none k v' e later =
          let (_, cnt, inside, _, _) = kp_set-eq-done k kp' (2 ^ 32 - 1) value later in
          absurd (omega (arith, v'.small, cnt))
      found_id (some id) k v' e later =
          let (same, more) = enable_or_add-grows backends kp k (c_string key) id v room e in
          let (_, cnt, _, _, _) = kp_set-eq-done k kp' id value later in
          record {
            valid = v';
            disable = kp_set-disable k kp' id value later ∙ same;
            cnt = omega (arith, cnt, more);
          }

      stored : store backends kp (c_string key) value ≡ done kp' → Grown 1 kp kp'
      stored e =
          let (_, v', _, _, _, _, _) = store_lem backends kp kp' (c_string key) value v room e in
          let ((found, k), opened, later) =
            bind-eq-done (enable_or_add backends kp (c_string key)) _ e in
          found_id found k v' opened later

  Grown-trans :
      {a b c : KeyPackage} (m n k : ℕ) → Grown m a b → Grown n b c → m + n ≤ k → Grown k a c
  Grown-trans m n k f g h = record {
    valid = g.valid;
    disable = g.disable ∙ f.disable;
    cnt = omega (arith, f.cnt, g.cnt);
  }

  after_record-Grown :
      (loop : Bytes → KeyPackage → Outcome KeyPackage) (backends : Bool) (filters : List Bytes)
      (buf : Bytes) (kp kp' : KeyPackage) (r : Record)
      → ((rest : Bytes) (k k' : KeyPackage)
          → IsValid k
          → k.key_infos_cnt + length rest < 2 ^ 31
          → loop rest k ≡ done k'
          → Grown (length rest) k k')
      → IsValid kp
      → kp.key_infos_cnt + length buf < 2 ^ 31
      → Progress buf r
      → (parse_record backends filters kp r >>= after_record loop) ≡ done kp'
      → Grown (length buf) kp kp'
  unfolding parse_record
  after_record-Grown loop backends filters buf kp kp' (short rest) ih v room p h =
      let shorter : length rest ≤ length buf = elim p [
        | inl l ↦ omega (arith, l)
        | inr (same, one) ↦ omega (arith, ap (λ (x : Bytes). length x) same)
      ] in
      Grown-trans 0 (length rest) (length buf)
        (record { valid = v; disable = refl; cnt = omega arith }) (ih rest kp kp' v (omega arith) h)
        (omega (arith, shorter))
  after_record-Grown loop backends filters buf kp kp' (truncated rest) ih v room p h =
      subst (Grown (length buf) kp) {x = kp} (ground arith)
        (record { valid = v; disable = refl; cnt = omega arith })
  after_record-Grown loop backends filters buf kp kp' overrun ih v room p h = cc
  after_record-Grown loop backends filters buf kp kp' (pair key value rest) ih v room p h =
      let taken = take_pair backends filters kp key value in
      let (k, e, later) = bind-eq-done taken _ (sym (bind_assoc taken _ _) ∙ h) in
      let g = take_pair-Grown backends filters kp k key value v (omega arith) e in
      Grown-trans 1 (length rest) (length buf) g
        (ih rest k kp' g.valid (omega (arith, g.cnt)) later) (omega arith)

  -- The loop, whatever the bytes, keeps the package valid and adds at most a key for each byte.
  parse_loop-Grown :
      (fuel : ℕ) (backends : Bool) (filters : List Bytes) (buf : Bytes) (kp kp' : KeyPackage)
      → IsValid kp
      → kp.key_infos_cnt + length buf < 2 ^ 31
      → parse_loop fuel backends filters buf kp ≡ done kp'
      → Grown (length buf) kp kp'
  unfolding parse_loop parse_key_value
  parse_loop-Grown fuel backends filters [] kp kp' v room h =
      subst (Grown 0 kp) {x = kp} (ground arith)
        (record { valid = v; disable = refl; cnt = omega arith })
  parse_loop-Grown zero backends filters (b ∷ bs) kp kp' v room h = cc
  parse_loop-Grown (suc fuel) backends filters (b ∷ bs) kp kp' v room h =
      after_record-Grown (parse_loop fuel backends filters) backends filters (b ∷ bs) kp kp'
        (read_record (b ∷ bs))
        (λ rest k k' v' room' e. parse_loop-Grown fuel backends filters rest k k' v' room' e) v room
        (read_record-Progress b bs) h

read_channel-shorter :
    (channel : Bytes) (time chanlen : ℕ) (rest : Bytes) (t : ℕ) (left : Bytes)
    → read_channel channel time chanlen rest ≡ batch t left
    → length left ≤ length rest
unfolding read_channel
read_channel-shorter channel time chanlen rest t left h =
    elim (Bool-cases (ltb (length rest) chanlen)) [
      | inl few ↦ absurd (ground arith)
      | inr enough ↦ elim (Bool-cases (channel_matches (take chanlen rest) channel)) [
        | inl same ↦
            let behind : drop chanlen rest ≡ left = ground arith in
            omega (arith, length-drop chanlen rest, ap (λ (b : Bytes). length b) behind)
        | inr other ↦ absurd (ground arith)
      ]
    ]

read_header-shorter :
    (channel payload : Bytes) (t : ℕ) (left : Bytes)
    → read_header channel payload ≡ batch t left
    → length left ≤ length payload
unfolding read_header
read_header-shorter channel (_ ∷ _ ∷ _ ∷ _ ∷ _ ∷ _ ∷ _ ∷ _ ∷ version ∷ a ∷ b ∷ c ∷ d ∷ e ∷ f ∷ rest)
      t left h =
    elim (Bool-cases (version == tskbatch_version)) [
      | inl known ↦
          let shorter =
            read_channel-shorter channel (of_be32 a b c d) (of_be16 e f) rest t left
              (rw known at h) in
          omega (arith, shorter)
      | inr unknown ↦ absurd (ground arith)
    ]
read_header-shorter channel _ t left h = cc

module _ ⦃P : Platform⦄ {S : Type 0} where
  -- What is kept of a ready proxy, with at most `n` more keys.
  pub record Handled (n : ℕ) (p p' : Proxy S) : Type 0 where
    pub ready : IsReady p'
    pub cnt : p'.kp.key_infos_cnt ≤ p.kp.key_infos_cnt + n

  after_turn-Handled :
      (loop : Bool → KeyPackage → Outcome KeyPackage) (n len : ℕ) (p₀ p p' : Proxy S)
      (rc₁ rc : Status)
      → IsReady p
      → p.kp.key_infos_cnt ≡ p₀.kp.key_infos_cnt
      → ((backends : Bool) (kp : KeyPackage) → loop backends p.kp ≡ done kp → Grown n p.kp kp)
      → after_turn loop len (rc₁, p) ≡ done (rc, p')
      → Handled n p₀ p'
  unfolding after_turn
  after_turn-Handled loop n len p₀ p p' failure rc r same g h =
      subst (Handled n p₀) {x = p} (ground arith) (record { ready = r; cnt = omega (arith, same) })
  after_turn-Handled loop n len p₀ p p' success rc r same g h =
      let (p₁, e₁, h₁) = bind-eq-done (bump p (codes "messages_cnt") 1) _ h in
      let (p₂, e₂, h₂) = bind-eq-done (bump p₁ (codes "messages_bytes") len) _ h₁ in
      let (kp, e₃, h₃) = bind-eq-done (loop (any_enabled p₂.timeseries) p₂.kp) _ h₂ in
      let s₁ = bump-SameButStats p p₁ (codes "messages_cnt") 1 e₁ in
      let s₂ = bump-SameButStats p₁ p₂ (codes "messages_bytes") len e₂ in
      let kept : p₂.kp ≡ p.kp = s₂.kp ∙ s₁.kp in
      let grown = g (any_enabled p₂.timeseries) kp (rw kept at e₃) in
      let r₂ = SameButStats-IsReady p₁ p₂ s₂ (SameButStats-IsReady p p₁ s₁ r) in
      let left : record p₂ { kp = kp } ≡ p' = ground arith in
      subst (Handled n p₀) left (record {
        ready = record {
          valid = grown.valid;
          disables = grown.disable ∙ r.disables;
          lawful = r₂.lawful;
        };
        cnt = omega (arith, grown.cnt, same);
      })

  -- A ready proxy with room for the message stays ready over every call of handle_message that
  -- returns, whatever the bytes of the message, and has at most a key more for each byte.
  pub handle_message-IsReady :
      (fuel : ℕ) (cfg : Filter) (payload : Bytes) (p p' : Proxy S) (rc : Status)
      → IsReady p
      → p.kp.key_infos_cnt + length payload < 2 ^ 31
      → handle_message fuel cfg payload p ≡ done (rc, p')
      → IsReady p' × (p'.kp.key_infos_cnt ≤ p.kp.key_infos_cnt + length payload)
  unfolding handle_message handle_header
  handle_message-IsReady fuel cfg payload p p' rc r room h =
      header (read_header cfg.kafka_channel payload) refl h
    where
      header :
          (o : Header)
          → read_header cfg.kafka_channel payload ≡ o
          → handle_header fuel cfg (length payload) o p ≡ done (rc, p')
          → IsReady p' × (p'.kp.key_infos_cnt ≤ p.kp.key_infos_cnt + length payload)
      header skip e same =
          let kept : p ≡ p' = ground arith in
          (subst IsReady kept r, omega (arith, ap (λ (q : Proxy S). q.kp.key_infos_cnt) kept))
      header unknown_channel e never = cc
      header (batch time rest) e later =
          let shorter = read_header-shorter cfg.kafka_channel payload time rest e in
          let ((rc₁, p₁), turned, end) = bind-eq-done (maybe_flush time p) _ later in
          let t = maybe_flush_lem time p p₁ rc₁ r turned in
          let handled =
            after_turn-Handled (λ backends kp. parse_loop fuel backends cfg.filters rest kp)
              (length rest) (length payload) p p₁ p' rc₁ rc t.ready t.sized
              (λ backends kp looped.
                parse_loop-Grown fuel backends cfg.filters rest p₁.kp kp t.ready.valid
                  (omega (arith, shorter, t.sized)) looped)
              end in
          (handled.ready, omega (arith, handled.cnt, shorter))
