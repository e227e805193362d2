-- ===== src/Kafka/Flush.antt =====
-- timeseries_backend_kafka_kp_flush of lib/backends/timeseries_backend_kafka.c in the format FORMAT_TSK
-- or FORMAT_TSK_KEYPART, from the first key to the last message.
use mathlib.Core.Path.{subst}
use mathlib.Core.List.{append_assoc, append-nil}
use libtimeseries.Base.{
  ℕ, suc, ◌+◌, ◌/◌, ◌^◌, ◌<◌, ◌≡◌, refl, sym, ap, ◌∙◌, ◌⊎◌, inl, inr, Bool, true, false, not, List,
  [], ◌∷◌, ◌++◌, Bytes, length, ltb, All, arith, if◌then◌else◌, done, success, Bool-cases,
  length-append, get_elem?, some, get_elem?-append,
}
use libtimeseries.Platform.{Platform}
use libtimeseries.KeyPackage.{KeyInfo, KeyPackage, key_info, kp_size, ki_enabled, ki_get_key}
use libtimeseries.KeyPackage.Invariant.{IsValid}
use libtimeseries.Kafka.{
  Librdkafka, Kafka, Sending, Format, format_tsk, format_tsk_keypart, buffer_len, part_hash, put_ki,
  send_msg, send_ki, send_enabled, kafka_kp_flush, lasthash_after, msgkey_after, reset_buf, poll,
}
use libtimeseries.Kafka.Send.{Accepts, send_msg-Gone, length-header_bytes}
use libtimeseries.Proxy.RoundTrip.{header_bytes}
use libtimeseries.Kafka.Batches.{Batched, no_message, key_for, Holds, fresh, begun, Holds-Gone}
use libtimeseries.Kafka.Loop.{Loop, put_record-Loop, send_if_full-Loop, part-Loop}

-- The pairs of the enabled keys in the order of their ids.
unfoldable pub enabled_pairs : List KeyInfo → List (Bytes × ℕ)
enabled_pairs [] = []
enabled_pairs (ki ∷ kis) =
    (if ki.disabled then [] else (ki.key, ki.value) ∷ []) ++ enabled_pairs kis

abbrev pub HasShortKey : KeyInfo → Type 0
HasShortKey ki = length ki.key < 65535

module _ {B : Type 0} (lib : Librdkafka B) (fuel : ℕ) (format : Format) (time : ℕ) (channel : Bytes)
    (before : List (ℕ × Bytes))
    (willing : (msgkey : ℕ) (payload : Bytes) (b : B) → Accepts lib msgkey payload fuel b)
    (batches : (format ≡ format_tsk) ⊎ (format ≡ format_tsk_keypart))
    (hc : length channel < 2 ^ 16) where
  abbrev LoopIn : List (Bytes × ℕ) → Sending B → Type 0
  LoopIn kvs s = Loop format time channel before (buffer_len / 2) kvs s.lasthash s.msgkey s.kafka

  moved :
      {kvs : List (Bytes × ℕ)} {f : Format} {k : Kafka B} (ki : KeyInfo) (s : Sending B)
      → s.kafka.format ≡ f
      → Loop format time channel before buffer_len kvs
          (lasthash_after f ki s.lasthash)
          (msgkey_after f time ki)
          k
      → Loop format time channel before buffer_len kvs
          (lasthash_after s.kafka.format ki s.lasthash)
          (msgkey_after s.kafka.format time ki)
          k
  moved {kvs} {f} {k} ki s e l =
      subst
        (λ g.
          Loop format time channel before buffer_len kvs (lasthash_after g ki s.lasthash)
            (msgkey_after g time ki) k)
        (sym e) l

  put_ki-Loop :
      {kvs : List (Bytes × ℕ)} (ki : KeyInfo) (s : Sending B)
      → LoopIn kvs s
      → HasShortKey ki
      → (k : Kafka B) × (put_ki lib s.kafka.format fuel time s.lasthash ki s.kafka
          ≡ done (success, k))
        × Loop format time channel before buffer_len
            (kvs ++ ((ki.key, ki.value) ∷ []))
            (lasthash_after s.kafka.format ki s.lasthash)
            (msgkey_after s.kafka.format time ki)
            k
  unfolding put_ki lasthash_after msgkey_after key_for ki_get_key
  put_ki-Loop {kvs} ki s l hk = elim batches [
    | inl tsk ↦
        let f : s.kafka.format ≡ format_tsk = l.format_kept ∙ tsk in
        let (k, e, l') =
          put_record-Loop format time channel before s.lasthash time ki.key ki.value l
            (l.current tsk) (rw tsk refl) (λ keypart. cc) (λ _. refl) hk hc in
        (k, ap (λ g. put_ki lib g fuel time s.lasthash ki s.kafka) f ∙ e, moved ki s f l')
    | inr keypart ↦
        let f : s.kafka.format ≡ format_tsk_keypart = l.format_kept ∙ keypart in
        let hash = part_hash ki.key in
        let (k₁, e₁, m, l₁, same) =
          part-Loop lib fuel format time channel before willing hash keypart l in
        let (k, e, l') =
          put_record-Loop format time channel before hash hash ki.key ki.value l₁ same
            (rw keypart refl) (λ _. refl) (λ tsk. cc) hk hc in
        (k, ap (λ g. put_ki lib g fuel time s.lasthash ki s.kafka) f ∙ rw e₁ e, moved ki s f l')
  ]

  -- One round of the loop.
  send_ki-Loop :
      {kvs : List (Bytes × ℕ)} (ki : KeyInfo) (s : Sending B)
      → LoopIn kvs s
      → HasShortKey ki
      → (s' : Sending B) × (send_ki lib fuel time ki s ≡ done (success, s'))
        × LoopIn (kvs ++ ((ki.key, ki.value) ∷ [])) s'
  unfolding send_ki
  send_ki-Loop ki s l hk =
      let (k, e, l₁) = put_ki-Loop ki s l hk in
      let (k', e', l') = send_if_full-Loop lib fuel format time channel before willing l₁ in
      (
        record {
          lasthash = lasthash_after s.kafka.format ki s.lasthash;
          msgkey = msgkey_after s.kafka.format time ki;
          kafka = k';
        },
        rw e (rw e' refl),
        l',
      )

  send_one-Loop :
      {kvs : List (Bytes × ℕ)} (ki : KeyInfo) (s : Sending B)
      → LoopIn kvs s
      → HasShortKey ki
      → (s' : Sending B) × ((if ki_enabled ki
            then send_ki lib fuel time ki s
            else done (success, s))
          ≡ done (success, s'))
        × LoopIn (kvs ++ (if ki.disabled then [] else (ki.key, ki.value) ∷ [])) s'
  unfolding ki_enabled
  send_one-Loop {kvs} ki s l hk = by_mark ki.disabled refl
    where
      by_mark :
          (d : Bool)
          → ki.disabled ≡ d
          → (s' : Sending B) × ((if not ki.disabled
                then send_ki lib fuel time ki s
                else done (success, s))
              ≡ done (success, s'))
            × LoopIn (kvs ++ (if ki.disabled then [] else (ki.key, ki.value) ∷ [])) s'
      by_mark true off = (
        s,
        ap (λ d. if not d then send_ki lib fuel time ki s else done (success, s)) off,
        subst (λ d. LoopIn (kvs ++ (if d then [] else (ki.key, ki.value) ∷ [])) s) (sym off)
            (subst (λ x. LoopIn x s) (sym (append-nil kvs)) l),
      )
      by_mark false on =
          let (s', e, l') = send_ki-Loop ki s l hk in
          (
            s',
            ap (λ d. if not d then send_ki lib fuel time ki s else done (success, s)) on ∙ e,
            subst (λ d. LoopIn (kvs ++ (if d then [] else (ki.key, ki.value) ∷ [])) s') (sym on) l',
          )

  send_enabled-step :
      ⦃P : Platform⦄ (n id : ℕ) (kp : KeyPackage) (s s' : Sending B) (ki : KeyInfo)
      → get_elem? kp.key_infos id ≡ some ki
      → (if ki_enabled ki then send_ki lib fuel time ki s else done (success, s))
        ≡ done (success, s')
      → send_enabled lib (suc n) id fuel kp time s ≡ send_enabled lib n (id + 1) fuel kp time s'
  unfolding send_enabled
  send_enabled-step n id kp s s' ki found e =
      let info : key_info kp id ≡ done ki = rw (found, key_info) refl in rw info (rw e refl)

  send_enabled-Loop :
      ⦃P : Platform⦄ (front kis : List KeyInfo) (id : ℕ) (kp : KeyPackage) (s : Sending B)
      (kvs : List (Bytes × ℕ))
      → kp.key_infos ≡ front ++ kis
      → id ≡ length front
      → All HasShortKey kis
      → LoopIn kvs s
      → (s' : Sending B) × (send_enabled lib (length kis) id fuel kp time s ≡ done (success, s'))
        × LoopIn (kvs ++ enabled_pairs kis) s'
  unfolding enabled_pairs
  send_enabled-Loop front [] id kp s kvs at n short l =
      (s, unfold send_enabled in refl, subst (λ x. LoopIn x s) (sym (append-nil kvs)) l)
  send_enabled-Loop front (ki ∷ kis) id kp s kvs at n (hk, hks) l =
      let found : get_elem? kp.key_infos id ≡ some ki =
        rw at (get_elem?-append front kis ki id n) in
      let (s₁, e₁, l₁) = send_one-Loop ki s l hk in
      let (s', e, l') =
        send_enabled-Loop (front ++ (ki ∷ [])) kis (id + 1) kp s₁
          (kvs ++ (if ki.disabled then [] else (ki.key, ki.value) ∷ []))
          (at ∙ sym (append_assoc front (ki ∷ []) kis))
          (omega (arith, n, length-append front (ki ∷ []))) hks l₁ in
      (
        s',
        send_enabled-step (length kis) id kp s s₁ ki found e₁ ∙ e,
        subst (λ x. LoopIn x s') (append_assoc kvs _ (enabled_pairs kis)) l',
      )

Holds-empty :
    {format : Format} {time : ℕ} {channel : Bytes} {before : List (ℕ × Bytes)} {msgkey : ℕ}
    {kvs : List (Bytes × ℕ)} {buffer : Bytes} {sent : List (ℕ × Bytes)}
    → Holds format time channel before msgkey kvs buffer sent
    → length buffer ≡ 0
    → (msgs : List (ℕ × Bytes)) × (sent ≡ before ++ msgs) × Batched format time channel kvs msgs
Holds-empty (fresh {msgs = msgs} b) e = (msgs, refl, b)
Holds-empty {time = time} {channel = channel} (begun {bytes = bytes} b w n keyed) e = absurd (
    omega
      (arith, length-append (header_bytes time channel) bytes, length-header_bytes time channel))

-- The last SEND_MSG.
send_msg-last :
    {B : Type 0} (lib : Librdkafka B) (fuel : ℕ) (format : Format) (time : ℕ) (channel : Bytes)
    (before : List (ℕ × Bytes)) {kvs : List (Bytes × ℕ)} (lasthash msgkey : ℕ) (k : Kafka B)
    → ((msgkey : ℕ) (payload : Bytes) (b : B) → Accepts lib msgkey payload fuel b)
    → Loop format time channel before (buffer_len / 2) kvs lasthash msgkey k
    → (k' : Kafka B) × (msgs : List (ℕ × Bytes)) × (send_msg lib fuel msgkey k ≡ done (success, k'))
      × (k'.sent ≡ before ++ msgs)
      × Batched format time channel kvs msgs
      × (k'.buffer ≡ [])
send_msg-last lib fuel format time channel before lasthash msgkey k willing l =
    elim (Bool-cases (ltb 0 (length k.buffer))) [
      | inl more ↦
          let some_bytes : 0 < length k.buffer = ground arith in
          let (k', e, g) =
            send_msg-Gone lib fuel msgkey k some_bytes (willing msgkey k.buffer k.broker) in
          let (msgs, sent, b) =
            Holds-empty (Holds-Gone format time channel before 0 l.holds some_bytes) refl in
          (k', msgs, e, g.sent ∙ sent, b, g.buffer)
      | inr none ↦
          let nothing : length k.buffer ≡ 0 = ground arith in
          let (msgs, sent, b) = Holds-empty l.holds nothing in
          (reset_buf lib k, msgs, unfold send_msg in (rw none refl), unfold poll in sent, b, refl)
    ]

flush-run :
    ⦃P : Platform⦄ {B : Type 0} (lib : Librdkafka B) (fuel : ℕ) (k k' : Kafka B) (s : Sending B)
    (kp : KeyPackage) (time : ℕ)
    → length k.buffer ≡ 0
    → send_enabled lib kp.key_infos_cnt 0 fuel kp time
        (record { lasthash = 0; msgkey = 0; kafka = k })
      ≡ done (success, s)
    → send_msg lib fuel s.msgkey s.kafka ≡ done (success, k')
    → kafka_kp_flush lib fuel k kp time ≡ done (success, k')
unfolding kafka_kp_flush kp_size
flush-run lib fuel k k' s kp time empty e e' = rw empty (rw e e')

-- Where the library takes each message at the latest at the try that the fuel allows, a flush of a
-- valid package in the format FORMAT_TSK or FORMAT_TSK_KEYPART succeeds, from an empty buffer and with a
-- channel name and keys that fit 16 bits. The library then has, behind the messages from before, a
-- run of messages that hold exactly the enabled pairs in order: each the header of the time and the
-- channel with the records of one or more pairs, all of them for its message key. The buffer is
-- empty again.
pub kafka_kp_flush_lem :
    ⦃P : Platform⦄ {B : Type 0} (lib : Librdkafka B) (fuel : ℕ) (k : Kafka B) (kp : KeyPackage)
    (time : ℕ)
    → ((msgkey : ℕ) (payload : Bytes) (b : B) → Accepts lib msgkey payload fuel b)
    → (k.format ≡ format_tsk) ⊎ (k.format ≡ format_tsk_keypart)
    → k.channel_name_len ≡ length k.channel_name
    → length k.channel_name < 2 ^ 16
    → k.buffer ≡ []
    → IsValid kp
    → All HasShortKey kp.key_infos
    → (k' : Kafka B) × (msgs : List (ℕ × Bytes)) × (kafka_kp_flush lib fuel k kp time
        ≡ done (success, k'))
      × (k'.sent ≡ k.sent ++ msgs)
      × Batched k.format time k.channel_name (enabled_pairs kp.key_infos) msgs
      × (k'.buffer ≡ [])
kafka_kp_flush_lem lib fuel k kp time willing batches name_len hc empty v short =
    let start : Loop k.format time k.channel_name k.sent (buffer_len / 2) [] 0 0 k = record {
      name = refl;
      name_len = name_len;
      format_kept = refl;
      last = λ _ _. refl;
      current = λ _ h. absurd (omega (arith, ap (λ (b : Bytes). length b) empty));
      half = omega (arith, ap (λ (b : Bytes). length b) empty);
      holds =
          subst (λ b. Holds k.format time k.channel_name k.sent 0 [] b k.sent) (sym empty)
            (subst (λ s. Holds k.format time k.channel_name k.sent 0 [] [] s) (append-nil k.sent)
              (fresh no_message));
    } in
    let (s, e, l) =
      send_enabled-Loop lib fuel k.format time k.channel_name k.sent willing batches hc []
        kp.key_infos 0 kp (record { lasthash = 0; msgkey = 0; kafka = k }) [] refl refl short
        start in
    let (k', msgs, e', sent, b, left) =
      send_msg-last lib fuel k.format time k.channel_name k.sent s.lasthash s.msgkey s.kafka willing
        l in
    let counted =
      ap (λ n. send_enabled lib n 0 fuel kp time (record { lasthash = 0; msgkey = 0; kafka = k }))
        v.counted
      ∙ e in
    let run = flush-run lib fuel k k' s kp time (ap (λ (b : Bytes). length b) empty) counted e' in
    (k', msgs, run, sent, b, left)
