-- ===== src/Config/Merge/WellFormed.antt =====
-- `Merge` gives a map with distinct keys.
use burmilla_os.Base.{Option, none, some, ◌≡◌, refl, Text, arith}
use burmilla_os.Config.Value.{
  Value, text, scalar, items, object, Fields, end, field, lookup, put, IsMap, IsWellFormed,
}
use burmilla_os.Config.Value.Laws.{lookup-IsWellFormed, put-IsMap}
use burmilla_os.Config.Merge.{map_copy, merge, merge_into, merge_value}
use burmilla_os.Config.Merge.Copying.{copy_lem, map_copy_lem}

-- What a map has for a key is well-formed, if it has anything.
abbrev FoundWell : Option Value → Type 0
FoundWell none = Unit
FoundWell (some v) = IsWellFormed v

found_well : (k : Text) (m : Fields) → IsMap m → FoundWell (lookup k m)
found_well k m h = go (lookup k m) refl
  where
    go : (o : Option Value) → lookup k m ≡ o → FoundWell o
    go none e = tt
    go (some v) e = lookup-IsWellFormed k m h e

-- A value that is no map is copied, or wins as it is.
leaf_case :
    (r : Value) (o : Option Value)
    → IsWellFormed r
    → ((l : Value) → merge_value (some l) r ≡ r)
    → IsWellFormed (merge_value o r)
unfolding merge_into
leaf_case r none h e = rw (copy_lem r h) h
leaf_case r (some l) h e = rw (e l) h

mutual
  unfolding merge_into IsWellFormed

  merge_into-IsMap :
      (left right result : Fields)
      → IsMap left
      → IsMap right
      → IsMap result
      → IsMap (merge_into left right result)
  merge_into-IsMap left end result hl hr h = h
  merge_into-IsMap left (field k r rest) result hl (fresh, hr, hrest) h =
      merge_into-IsMap left rest (put k (merge_value (lookup k left) r) result) hl hrest (
        put-IsMap k (merge_value (lookup k left) r) result
          (merge_value-IsWellFormed r (lookup k left) (found_well k left hl) hr) h)

  merge_value-IsWellFormed :
      (r : Value) (o : Option Value) → FoundWell o → IsWellFormed r → IsWellFormed (merge_value o r)
  merge_value-IsWellFormed (object r) (some (object l)) ho hr =
      merge_into-IsMap l r (map_copy l) ho hr (rw (map_copy_lem l ho) ho)
  merge_value-IsWellFormed (object r) none ho hr = rw (copy_lem (object r) hr) hr
  merge_value-IsWellFormed (object r) (some (text s)) ho hr = hr
  merge_value-IsWellFormed (object r) (some (scalar s)) ho hr = hr
  merge_value-IsWellFormed (object r) (some (items vs)) ho hr = hr
  merge_value-IsWellFormed (text s) o ho hr = leaf_case (text s) o hr (λ l. ground arith)
  merge_value-IsWellFormed (scalar s) o ho hr = leaf_case (scalar s) o hr (λ l. ground arith)
  merge_value-IsWellFormed (items vs) o ho hr = leaf_case (items vs) o hr (λ l. ground arith)

-- Merging two maps with distinct keys, at every level of them, gives such a map.
pub merge-IsMap : (left right : Fields) → IsMap left → IsMap right → IsMap (merge left right)
unfolding merge
merge-IsMap left right hl hr =
    merge_into-IsMap left right (map_copy left) hl hr (rw (map_copy_lem left hl) hl)
