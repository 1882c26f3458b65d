-- ===== src/CoreServices/Maps.antt =====
-- Go's maps from texts, as the list of their entries; `ServiceConfigs` of pkg/libcompose/config/types.go
-- is one under a lock.
use burmilla_os.Base.{
  Bool, true, false, Option, none, some, List, [], ◌∷◌, Text, text_eq, text_eq_iff, ◌≡◌, refl,
  arith, if◌then◌else◌,
}

abbrev pub Map {ℓ} : Type ℓ → Type ℓ
Map A = List (Text × A)

module _ {ℓ} {A : Type ℓ} where
  unfoldable pub get : Text → Map A → Option A
  get name [] = none
  get name ((key, value) ∷ m) = if text_eq key name then some value else get name m

  unfoldable pub has : Text → Map A → Bool
  unfolding get
  has name m = elim (get name m) [ none ↦ false | some value ↦ true ]

  unfoldable pub add : Text → A → Map A → Map A
  add name value [] = (name, value) ∷ []
  add name value ((key, old) ∷ m) =
      if text_eq key name then (name, value) ∷ m else (key, old) ∷ add name value m

  unfoldable pub delete : Text → Map A → Map A
  delete name [] = []
  delete name ((key, old) ∷ m) =
      let rest = delete name m in if text_eq key name then rest else (key, old) ∷ rest

  unfoldable pub keys : Map A → List Text
  keys [] = []
  keys ((key, value) ∷ m) = key ∷ keys m

  -- The keys of the map are distinct.
  abbrev pub IsDistinct : Map A → Type 0
  IsDistinct [] = Unit
  IsDistinct ((key, value) ∷ m) = (has key m ≡ false) × IsDistinct m

  pub get-add :
      (k j : Text) (v : A) (m : Map A)
      → get k (add j v m) ≡ (if text_eq j k then some v else get k m)
  unfolding get add
  get-add k j v [] = refl
  get-add k j v ((i, w) ∷ m) =
      ground (arith, get-add k j v m, text_eq_iff i j, text_eq_iff i k, text_eq_iff j k)

  pub get-delete :
      (k j : Text) (m : Map A) → get k (delete j m) ≡ (if text_eq j k then none else get k m)
  unfolding get delete
  get-delete k j [] = ground arith
  get-delete k j ((i, w) ∷ m) =
      ground (arith, get-delete k j m, text_eq_iff i j, text_eq_iff i k, text_eq_iff j k)
