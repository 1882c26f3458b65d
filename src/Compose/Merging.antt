-- ===== src/Compose/Merging.antt =====
-- What a merged service has, and that it has no image besides a build.
use burmilla_os.Base.{
  ◌≡◌, ◌≢◌, ◌∙◌, ap, sym, refl, ◌⊎◌, inl, inr, Bool, true, false, ◌&&◌, ◌||◌, Option, none, some,
  Text, codes, text_eq, text_eq_refl, text_eq_iff, if◌then◌else◌, Bool-cases, arith,
}
use burmilla_os.Config.Value.{Value, Fields, end, field, lookup, IsMap, IsWellFormed}
use burmilla_os.Config.Value.Laws.{lookup-put, lookup-remove}
use burmilla_os.Compose.Service.{drop_rival, merge_existing, merge_round, merge_config}

abbrev image : Text
image = codes "image"

abbrev build : Text
build = codes "build"

-- The first key drops the second one from the base.
abbrev pub is_rival : Text → Text → Bool
is_rival j k = text_eq j image && text_eq build k || text_eq j build && text_eq image k

-- Some key of the map drops the given key.
abbrev pub is_dropped : Text → Fields → Bool
is_dropped k end = false
is_dropped k (field j v data') = is_rival j k || is_dropped k data'

image-ne-build : text_eq image build ≡ false
unfolding text_eq
image-ne-build = refl

build-ne-image : text_eq build image ≡ false
unfolding text_eq
build-ne-image = refl

lookup-drop_rival :
    (j k : Text) (base : Fields)
    → lookup k (drop_rival j base) ≡ (if is_rival j k then none else lookup k base)
unfolding drop_rival
lookup-drop_rival j k base = ground (
  arith,
  lookup-remove build k base,
  lookup-remove image k base,
  text_eq_iff j image,
  text_eq_iff j build,
  image-ne-build,
)

not_own_rival : (k : Text) → is_rival k k ≡ false
not_own_rival k = ground (
  arith,
  text_eq_iff k image,
  text_eq_iff k build,
  text_eq_iff build k,
  text_eq_iff image k,
  image-ne-build,
  build-ne-image,
)

lookup-merge_round :
    (j k : Text) (v : Value) (base : Fields)
    → lookup k (merge_round j v base) ≡ (
        if text_eq j k
        then some (merge_existing (lookup j base) v)
        else if is_rival j k
        then none
        else lookup k base)
unfolding merge_round
lookup-merge_round j k v base =
    lookup-put j k (merge_existing (lookup j (drop_rival j base)) v) (drop_rival j base)
    ∙ rw (lookup-drop_rival j j base, not_own_rival j, lookup-drop_rival j k base) refl

-- The value for a key, from what the data have, whether they drop the key, and what the base has.
abbrev pub combined : Option Value → Bool → Option Value → Option Value
combined (some v) dropped existing = some (merge_existing existing v)
combined none dropped existing = if dropped then none else existing

-- A key that the data have is not also dropped by them.
abbrev Agrees : Option Value → Bool → Type 0
Agrees found dropped = (found ≡ none) ⊎ (dropped ≡ false)

-- One round and the further ones: `found` and `dropped` are about the further data, `same` and
-- `rival` about the key of the round.
combine_rounds :
    (found existing : Option Value) (dropped same rival : Bool) (v : Value)
    → (same ≡ true → (found ≡ none) × (rival ≡ false))
    → Agrees (if same then some v else found) (rival || dropped)
    → combined found dropped
        (if same then some (merge_existing existing v) else if rival then none else existing)
      ≡ combined (if same then some v else found) (rival || dropped) existing
combine_rounds found existing dropped same rival v h c = ground (arith, h)

fresh_at :
    (j k : Text) (data' : Fields)
    → lookup j data' ≡ none
    → text_eq j k ≡ true
    → (lookup k data' ≡ none) × (is_rival j k ≡ false)
fresh_at j k data' fresh e =
    let p : j ≡ k = (text_eq_iff j k).0 e in
    (ap (λ t. lookup t data') (sym p) ∙ fresh, ap (λ t. is_rival t k) p ∙ not_own_rival k)

Agrees-later :
    (found : Option Value) (dropped same rival : Bool) (v : Value)
    → (same ≡ true → (found ≡ none) × (rival ≡ false))
    → Agrees (if same then some v else found) (rival || dropped)
    → Agrees found dropped
Agrees-later found dropped same rival v h c = ground (arith, h)

-- After merging, a service has for each key what the data have, merged into what the base has, or
-- what the base has where the data lack the key; image and build drop each other from the base. This
-- holds for every key but one of these two of which the data have both.
pub lookup-merge_config :
    (k : Text) (base data' : Fields)
    → IsMap data'
    → (lookup k data' ≡ none) ⊎ (is_dropped k data' ≡ false)
    → lookup k (merge_config base data')
      ≡ combined (lookup k data') (is_dropped k data') (lookup k base)
unfolding merge_config lookup IsWellFormed
lookup-merge_config k base end h c = refl
lookup-merge_config k base (field j v data') (fresh, hv, h) c =
    let at : text_eq j k ≡ true → (lookup k data' ≡ none) × (is_rival j k ≡ false) =
      fresh_at j k data' fresh in
    let same = text_eq j k in
    let rival = is_rival j k in
    lookup-merge_config k (merge_round j v base) data' h
      (Agrees-later (lookup k data') (is_dropped k data') same rival v at c)
    ∙ ap (combined (lookup k data') (is_dropped k data')) (shape (lookup-merge_round j k v base) at)
    ∙ combine_rounds (lookup k data') (lookup k base) (is_dropped k data') same rival v at c
  where
    shape :
        lookup k (merge_round j v base) ≡ (
          if text_eq j k
          then some (merge_existing (lookup j base) v)
          else if is_rival j k
          then none
          else lookup k base)
        → (text_eq j k ≡ true → (lookup k data' ≡ none) × (is_rival j k ≡ false))
        → lookup k (merge_round j v base) ≡ (
            if text_eq j k
            then some (merge_existing (lookup k base) v)
            else if is_rival j k
            then none
            else lookup k base)
    shape e at = elim (Bool-cases (text_eq j k)) [
      | inl q ↦
          e ∙ rw (q) (ap (λ t. some (merge_existing (lookup t base) v)) ((text_eq_iff j k).0 q))
      | inr q ↦ e ∙ rw q refl
    ]

-- A service does not have both an image and a build.
abbrev pub IsExclusive : Fields → Type 0
IsExclusive m = (lookup image m ≡ none) ⊎ (lookup build m ≡ none)

merge_round-IsExclusive :
    (k : Text) (v : Value) (base : Fields)
    → ((k ≡ image) ⊎ (k ≡ build)) ⊎ IsExclusive base
    → IsExclusive (merge_round k v base)
merge_round-IsExclusive k v base h = ground (
  arith,
  h,
  lookup-merge_round k image v base,
  lookup-merge_round k build v base,
  text_eq_iff k image,
  text_eq_iff k build,
  text_eq_refl image,
  text_eq_refl build,
  image-ne-build,
  build-ne-image,
)

kept-IsExclusive : (base data' : Fields) → IsExclusive base → IsExclusive (merge_config base data')
unfolding merge_config
kept-IsExclusive base end h = h
kept-IsExclusive base (field k v data') h =
    kept-IsExclusive (merge_round k v base) data' (merge_round-IsExclusive k v base (inr h))

-- Merging data that have an image or a build, or merging into a base that has only one of them, never
-- leaves a service with both.
pub merge_config-IsExclusive :
    (base data' : Fields)
    → IsExclusive base ⊎ ((lookup image data' ≢ none) ⊎ (lookup build data' ≢ none))
    → IsExclusive (merge_config base data')
unfolding merge_config lookup
merge_config-IsExclusive base data' (inl h) = kept-IsExclusive base data' h
merge_config-IsExclusive base end (inr h) = ground (arith, h)
merge_config-IsExclusive base (field k v data') (inr h) =
    go (Bool-cases (text_eq k image)) (Bool-cases (text_eq k build))
      (λ q. merge_config-IsExclusive (merge_round k v base) data' (inr q))
  where
    go :
        (text_eq k image ≡ true) ⊎ (text_eq k image ≡ false)
        → (text_eq k build ≡ true) ⊎ (text_eq k build ≡ false)
        → ((lookup image data' ≢ none) ⊎ (lookup build data' ≢ none)
            → IsExclusive (merge_config (merge_round k v base) data'))
        → IsExclusive (merge_config (merge_round k v base) data')
    go (inl e) f rest =
        kept-IsExclusive (merge_round k v base) data'
          (merge_round-IsExclusive k v base (inl (inl ((text_eq_iff k image).0 e))))
    go (inr e) (inl f) rest =
        kept-IsExclusive (merge_round k v base) data'
          (merge_round-IsExclusive k v base (inl (inr ((text_eq_iff k build).0 f))))
    go (inr e) (inr f) rest = rest (elim h [ inl q ↦ inl (rw e at q) | inr q ↦ inr (rw f at q) ])
