-- ===== src/Config/Value.antt =====
-- The values of a YAML configuration, as Go's `interface{}`. A map is the list of its entries, with
-- distinct keys, in the order in which a loop over it meets them. Every key that the program writes
-- or looks up in such a map is a string, so keys are texts.
pub mod Laws
pub mod Paths
use burmilla_os.Base.{
  ℕ, Bool, true, false, Option, none, some, List, [], ◌∷◌, Text, text_eq, if◌then◌else◌, ◌≡◌,
}
use burmilla_os.Base.Int.{ℤ}

-- The other scalars. A float is its bit pattern.
pub data Scalar : Type 0 where
  null : Scalar
  boolean : Bool → Scalar
  integer : ℤ → Scalar
  float : ℕ → Scalar

mutual
  pub data Value : Type 0 where
    text : Text → Value
    scalar : Scalar → Value
    items : Items → Value
    object : Fields → Value

  pub data Items : Type 0 where
    nil : Items
    cons : Value → Items → Items

  pub data Fields : Type 0 where
    end : Fields
    field : Text → Value → Fields → Fields

-- m[k]
unfoldable pub lookup : Text → Fields → Option Value
lookup k end = none
lookup k (field j v m) = if text_eq j k then some v else lookup k m

-- m[k] = v
unfoldable pub put : Text → Value → Fields → Fields
put k v end = field k v end
put k v (field j w m) = if text_eq j k then field k v m else field j w (put k v m)

-- delete(m, k)
unfoldable pub remove : Text → Fields → Fields
remove k end = end
remove k (field j w m) = let rest = remove k m in if text_eq j k then rest else field j w rest

-- The value at a path of keys.
unfoldable pub get : List Text → Value → Option Value
get [] v = some v
get (k ∷ p) (object m) = elim (lookup k m) [ none ↦ none | some w ↦ get p w ]
get (k ∷ p) _ = none

-- The keys of all maps in the value are distinct.
unfoldable mutual
  pub IsWellFormed : Value → Type 0
  IsWellFormed (text s) = Unit
  IsWellFormed (scalar s) = Unit
  IsWellFormed (items vs) = AreWellFormed vs
  IsWellFormed (object m) = IsMap m

  pub AreWellFormed : Items → Type 0
  AreWellFormed nil = Unit
  AreWellFormed (cons v vs) = IsWellFormed v × AreWellFormed vs

  pub IsMap : Fields → Type 0
  IsMap end = Unit
  IsMap (field k v m) = (lookup k m ≡ none) × IsWellFormed v × IsMap m
