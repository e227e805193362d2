-- ===== src/Flush/View.antt =====
-- What a backend may not change of a key package: all but the backends' own pointers in it.
use mathlib.Core.Path.{subst}
use mathlib.Core.List.{map}
use libtimeseries.Base.{
  ℕ, zero, suc, ◌≡◌, refl, sym, ap, ◌∙◌, Bool, Option, none, some, List, [], ◌∷◌, length, get_elem?,
  arith, done, Status, Bytes,
}
use mathlib.Core.Option
use libtimeseries.Platform.{Platform}
use libtimeseries.KeyPackage.{KeyInfo, KeyPackage}
use libtimeseries.KeyPackage.Invariant.{IsValid, count_enabled}
use libtimeseries.KeyPackage.Values.{reset_ki, reset_all}
use libtimeseries.Backend.{Ops}

abbrev pub erase : KeyInfo → KeyInfo
erase ki = record ki { backend_state = [] }

length-map : (xs : List KeyInfo) → length (map erase xs) ≡ length xs
length-map [] = refl
length-map (x ∷ xs) = ap suc (length-map xs)

count_enabled-map : (xs : List KeyInfo) → count_enabled (map erase xs) ≡ count_enabled xs
count_enabled-map [] = refl
count_enabled-map (x ∷ xs) = omega (arith, count_enabled-map xs)

get_elem?-map :
    (xs : List KeyInfo) (i : ℕ) → get_elem? (map erase xs) i ≡ Option.map erase (get_elem? xs i)
get_elem?-map [] i = refl
get_elem?-map (x ∷ xs) zero = refl
get_elem?-map (x ∷ xs) (suc i) = get_elem?-map xs i

pub map-reset_all :
    (reset disable : Bool) (xs : List KeyInfo)
    → map erase (reset_all reset disable xs) ≡ reset_all reset disable (map erase xs)
map-reset_all reset disable [] = refl
map-reset_all reset disable (x ∷ xs) =
    ap (λ t. erase (reset_ki reset disable x) ∷ t) (map-reset_all reset disable xs)

module _ ⦃P : Platform⦄ where
  abbrev pub view : KeyPackage → KeyPackage
  view kp = record kp { key_infos = map erase kp.key_infos }

  -- The law of the backend interface: updating the key infos leaves the view as it is.
  pub record KeepsView {S : Type 0} (ops : Ops S) : Type 0 where
    pub update_view :
        (s s' : S) (kp kp' : KeyPackage) (rc : Status)
        → ops.kp_ki_update s kp ≡ done (rc, kp', s')
        → view kp' ≡ view kp

  view-IsValid : {kp : KeyPackage} → IsValid kp → IsValid (view kp)
  view-IsValid {kp} v = record {
    counted = v.counted ∙ sym (length-map kp.key_infos);
    enabled = v.enabled ∙ sym (count_enabled-map kp.key_infos);
    small = v.small;
    sound = λ k i g.
        let (ki, at, named) = v.sound k i g in
        (erase ki, get_elem?-map kp.key_infos i ∙ ap (Option.map erase) at, named);
    complete = λ i ki g.
        complete i ki (get_elem? kp.key_infos i) refl (sym (get_elem?-map kp.key_infos i) ∙ g);
  }
    where
      complete :
          (i : ℕ) (ki : KeyInfo) (o : Option KeyInfo)
          → get_elem? kp.key_infos i ≡ o
          → Option.map erase o ≡ some ki
          → (j : ℕ) × (P.kh_get ki.key kp.key_id_hash ≡ some j)
      complete i ki none e n = cc
      complete i ki (some old) e n = let (j, known) = v.complete i old e in (j, ground arith)

  IsValid-view : (kp : KeyPackage) → IsValid (view kp) → IsValid kp
  IsValid-view kp v = record {
    counted = v.counted ∙ length-map kp.key_infos;
    enabled = v.enabled ∙ count_enabled-map kp.key_infos;
    small = v.small;
    sound = λ k i g.
        let (ki, at, named) = v.sound k i g in
        sound k i ki named (get_elem? kp.key_infos i) refl
          (sym (get_elem?-map kp.key_infos i) ∙ at);
    complete =
        λ i ki g. v.complete i (erase ki) (get_elem?-map kp.key_infos i ∙ ap (Option.map erase) g);
  }
    where
      sound :
          (k : Bytes) (i : ℕ) (erased : KeyInfo)
          → erased.key ≡ k
          → (o : Option KeyInfo) → get_elem? kp.key_infos i ≡ o
          → Option.map erase o ≡ some erased
          → (ki : KeyInfo) × (get_elem? kp.key_infos i ≡ some ki) × (ki.key ≡ k)
      sound k i erased named none e n = cc
      sound k i erased named (some ki) e n = (ki, e, ground arith)

  -- The invariant depends on the view alone.
  pub IsValid-of_view : (kp kp' : KeyPackage) → view kp' ≡ view kp → IsValid kp → IsValid kp'
  IsValid-of_view kp kp' same v = IsValid-view kp' (subst IsValid (sym same) (view-IsValid v))
