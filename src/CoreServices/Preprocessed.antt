-- ===== src/CoreServices/Preprocessed.antt =====
-- What `preprocessServiceMap` leaves and what it makes of the other values.
use mathlib.Core.Path.{subst}
use burmilla_os.Base.{
  Bool-cases, inl, inr, Bool, true, false, ◌||◌, Option, none, some, List, [], ◌∷◌, ◌++◌, Text,
  codes, text_eq, text_eq_iff, ◌≡◌, refl, ap,
}
use burmilla_os.Config.Value.{
  Value, text, scalar, items, object, Scalar, Items, nil, cons, Fields, end, field, lookup,
}
use burmilla_os.CoreServices.{preprocess, preprocess_map, preprocess_array, preprocess_service}

-- No scalar is left in the value.
unfoldable mutual
  pub IsTextual : Value → Type 0
  IsTextual (text s) = Unit
  IsTextual (scalar s) = ⊥
  IsTextual (items vs) = AreTextual vs
  IsTextual (object m) = IsTextualMap m

  pub AreTextual : Items → Type 0
  AreTextual nil = Unit
  AreTextual (cons v vs) = IsTextual v × AreTextual vs

  pub IsTextualMap : Fields → Type 0
  IsTextualMap end = Unit
  IsTextualMap (field k v m) = IsTextual v × IsTextualMap m

abbrev pub is_stringified : Text → Bool
is_stringified k = text_eq k (codes "environment") || text_eq k (codes "labels")

module _ (print : Scalar → Text) where
  -- What the leaves of a value are printed as, in their order.
  unfoldable mutual
    pub printed : Value → List Text
    printed (text s) = s ∷ []
    printed (scalar s) = print s ∷ []
    printed (items vs) = printed_items vs
    printed (object m) = printed_map m

    pub printed_items : Items → List Text
    printed_items nil = []
    printed_items (cons v vs) = printed v ++ printed_items vs

    pub printed_map : Fields → List Text
    printed_map end = []
    printed_map (field k v m) = k ∷ (printed v ++ printed_map m)

  -- What a key's value becomes.
  abbrev pub IsPreprocessed : Bool → Option Value → Option Value → Type 0
  IsPreprocessed replaces none none = Unit
  IsPreprocessed false (some v) (some w) = w ≡ v
  IsPreprocessed true (some v) (some w) = IsTextual w × (printed w ≡ printed v)
  IsPreprocessed replaces _ _ = ⊥

  mutual
    unfolding preprocess

    kept : (v : Value) → preprocess print v false ≡ v
    kept (text s) = refl
    kept (scalar s) = refl
    kept (items vs) = ap items (kept_items vs)
    kept (object m) = ap object (kept_map m)

    kept_items : (vs : Items) → preprocess_array print vs false ≡ vs
    kept_items nil = refl
    kept_items (cons v vs) = cc (kept v, kept_items vs)

    kept_map : (m : Fields) → preprocess_map print m false ≡ m
    kept_map end = refl
    kept_map (field k v m) = cc (kept v, kept_map m)

  mutual
    unfolding preprocess IsTextual

    textual : (v : Value) → IsTextual (preprocess print v true)
    textual (text s) = tt
    textual (scalar s) = tt
    textual (items vs) = textual_items vs
    textual (object m) = textual_map m

    textual_items : (vs : Items) → AreTextual (preprocess_array print vs true)
    textual_items nil = tt
    textual_items (cons v vs) = (textual v, textual_items vs)

    textual_map : (m : Fields) → IsTextualMap (preprocess_map print m true)
    textual_map end = tt
    textual_map (field k v m) = (textual v, textual_map m)

  mutual
    unfolding preprocess printed

    same : (v : Value) → printed (preprocess print v true) ≡ printed v
    same (text s) = refl
    same (scalar s) = refl
    same (items vs) = same_items vs
    same (object m) = same_map m

    same_items : (vs : Items) → printed_items (preprocess_array print vs true) ≡ printed_items vs
    same_items nil = refl
    same_items (cons v vs) = cc (same v, same_items vs)

    same_map : (m : Fields) → printed_map (preprocess_map print m true) ≡ printed_map m
    same_map end = refl
    same_map (field k v m) = cc (same v, same_map m)

  value-IsPreprocessed :
      (replaces : Bool) (v : Value)
      → IsPreprocessed replaces (some v) (some (preprocess print v replaces))
  value-IsPreprocessed false v = kept v
  value-IsPreprocessed true v = (textual v, same v)

-- Every key of a service keeps its value, but those of the keys environment and labels become values in
-- which every leaf is a text, namely what the old leaf is printed as.
pub lookup-preprocess_service :
    (print : Scalar → Text) (service : Fields) (k : Text)
    → IsPreprocessed print
        (is_stringified k)
        (lookup k service)
        (lookup k (preprocess_service print service))
unfolding preprocess_service lookup
lookup-preprocess_service print end k = tt
lookup-preprocess_service print (field j v service) k = elim (Bool-cases (text_eq j k)) [
  | inl q ↦
      rw (q, lookup, preprocess_service)
        (subst
          (λ i.
            IsPreprocessed print (is_stringified i) (some v)
              (some (preprocess print v (is_stringified j))))
          ((text_eq_iff j k).0 q) (value-IsPreprocessed print (is_stringified j) v))
  | inr q ↦ rw (q, lookup, preprocess_service) (lookup-preprocess_service print service k)
]
