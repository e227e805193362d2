-- ===== src/Proxy/Deliver.antt =====
-- From lib/backends/timeseries_backend_kafka.c to tools/tsk-proxy.c: what the proxy makes of the messages
-- of a flush.
use mathlib.Core.Path.{fun_ext}
use mathlib.Core.List.{append_assoc, append-nil}
use libtimeseries.Base.{
  ℕ, ◌+◌, ◌^◌, ◌≤◌, ◌<◌, ◌≡◌, refl, sym, ap, ◌∙◌, List, [], ◌∷◌, ◌++◌, Bytes, length, All, arith,
  Outcome, done, fault, ◌>>=◌, Status, success, failure, length-append,
}
use libtimeseries.Platform.{Platform}
use libtimeseries.Kafka.{Format, or_err}
use libtimeseries.Kafka.Batches.{Batched, no_message, message_then}
use libtimeseries.Proxy.{Proxy}
use libtimeseries.Proxy.Message.{Filter, handle_message}
use libtimeseries.Proxy.RoundTrip.{IsReadable, header_bytes, write_header-eq}
use libtimeseries.Proxy.Handle.{take_batch, handle_message-Written}

-- One call after another, up to the first that fails.
unfoldable pub each :
    {A X : Type 0} → (A → X → Outcome (Status × X)) → List A → X → Outcome (Status × X)
each f [] x = done (success, x)
each f (a ∷ rest) x = f a x >>= or_err (each f rest) (λ y. y)

or_err-success :
    {X : Type 0} (m : Outcome (Status × X)) → (m >>= or_err (λ x. done (success, x)) (λ x. x)) ≡ m
or_err-success (fault e) = refl
or_err-success (done (success, x)) = refl
or_err-success (done (failure, x)) = refl

or_err_assoc :
    {X : Type 0} (m : Outcome (Status × X)) (g h : X → Outcome (Status × X))
    → (m >>= or_err (λ y. g y >>= or_err h (λ z. z)) (λ z. z))
      ≡ ((m >>= or_err g (λ z. z)) >>= or_err h (λ z. z))
or_err_assoc (fault e) g h = refl
or_err_assoc (done (success, x)) g h = refl
or_err_assoc (done (failure, x)) g h = refl

each-append :
    {A X : Type 0} (f : A → X → Outcome (Status × X)) (front : List A) (a : A) (x : X)
    → each f (front ++ (a ∷ [])) x ≡ (each f front x >>= or_err (f a) (λ y. y))
unfolding each
each-append f [] a x = or_err-success (f a x)
each-append {X = X} f (b ∷ rest) a x =
    ap (λ (g : X → Outcome (Status × X)). f b x >>= or_err g (λ y. y))
      (fun_ext λ y. each-append f rest a y)
    ∙ or_err_assoc (f b x) (each f rest) (f a)

-- The pairs of some batches, each with the length of its message.
unfoldable pub pairs_of : List (ℕ × List (Bytes × ℕ)) → List (Bytes × ℕ)
pairs_of [] = []
pairs_of ((len, kvs) ∷ batches) = kvs ++ pairs_of batches

pairs_of-append :
    (front : List (ℕ × List (Bytes × ℕ))) (len : ℕ) (kvs : List (Bytes × ℕ))
    → pairs_of (front ++ ((len, kvs) ∷ [])) ≡ pairs_of front ++ kvs
unfolding pairs_of
pairs_of-append [] len kvs = append-nil kvs
pairs_of-append ((n, xs) ∷ rest) len kvs =
    ap (λ t. xs ++ t) (pairs_of-append rest len kvs) ∙ sym (append_assoc xs (pairs_of rest) kvs)

All-split :
    (xs ys : List (Bytes × ℕ)) → All IsReadable (xs ++ ys) → All IsReadable xs × All IsReadable ys
All-split [] ys h = (tt, h)
All-split (x ∷ xs) ys (h, hs) = let (a, b) = All-split xs ys hs in ((h, a), b)

module _ ⦃P : Platform⦄ {S : Type 0} where
  abbrev pub handle_all : ℕ → Filter → List (ℕ × Bytes) → Proxy S → Outcome (Status × Proxy S)
  handle_all fuel cfg = each (λ (msgkey, payload) p. handle_message fuel cfg payload p)

  abbrev pub take_all :
      Filter → ℕ → List (ℕ × List (Bytes × ℕ)) → Proxy S → Outcome (Status × Proxy S)
  take_all cfg time = each (λ (len, kvs) p. take_batch cfg len time kvs p)

  -- A proxy for the channel that handles, in order and up to the first failure, the messages in
  -- which the Kafka backend has sent some pairs that the proxy can read, takes batches of these
  -- pairs at the time of the flush, in their order, none lost and none taken twice.
  pub handle_all-Batched :
      (fuel : ℕ) (cfg : Filter) (format : Format) (time : ℕ) (kvs : List (Bytes × ℕ))
      (msgs : List (ℕ × Bytes))
      → time < 2 ^ 32
      → length cfg.kafka_channel < 2 ^ 16
      → Batched format time cfg.kafka_channel kvs msgs
      → All IsReadable kvs
      → length kvs ≤ fuel
      → (batches : List (ℕ × List (Bytes × ℕ))) × (pairs_of batches ≡ kvs)
        × ((p : Proxy S) → handle_all fuel cfg msgs p ≡ take_all cfg time batches p)
  handle_all-Batched fuel cfg format time _ _ ht hc no_message r enough =
      ([], unfold pairs_of in refl, λ p. unfold each in refl)
  handle_all-Batched fuel cfg format time _ _ ht hc
        (message_then {kvs} {pairs} {msgs} {bytes} msgkey b w n keyed) r enough =
      let (r₁, r₂) = All-split kvs pairs r in
      let size = length-append kvs pairs in
      let (batches, same, run) =
        handle_all-Batched fuel cfg format time kvs msgs ht hc b r₁ (omega (arith, size, enough)) in
      let channel : Bytes = cfg.kafka_channel in
      let len : ℕ = 15 + length channel + length bytes in
      let made = write_header-eq (15 + length channel) time channel hc (omega arith) in
      let one : (p : Proxy S)
          → handle_message fuel cfg (header_bytes time channel ++ bytes) p
            ≡ take_batch cfg len time pairs p =
        λ p.
          handle_message-Written fuel (15 + length channel) time cfg (header_bytes time channel)
            pairs bytes p ht hc (omega arith) made w r₂ (omega (arith, size, enough)) in
      (
        batches ++ ((len, pairs) ∷ []),
        pairs_of-append batches len pairs ∙ ap (λ t. t ++ pairs) same,
        λ p.
            each-append _ msgs (msgkey, header_bytes time channel ++ bytes) p
            ∙ ap
                (λ (m : Outcome (Status × Proxy S)).
                  m
                  >>= or_err (handle_message fuel cfg (header_bytes time channel ++ bytes))
                      (λ y. y))
                (run p)
            ∙ ap
                (λ (f : Proxy S → Outcome (Status × Proxy S)).
                  take_all cfg time batches p >>= or_err f (λ y. y))
                (fun_ext one)
            ∙ sym (each-append _ batches (len, pairs) p),
      )
