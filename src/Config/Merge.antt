-- ===== src/Config/Merge.antt =====
-- `Copy`, `MapCopy`, `SliceCopy` and `Merge` of pkg/util/util.go.
pub mod Copying
pub mod Lookup
pub mod Paths
pub mod WellFormed
use burmilla_os.Base.{Option, none, some}
use burmilla_os.Config.Value.{
  Value, text, scalar, items, object, Items, nil, cons, Fields, end, field, lookup, put,
}

-- The loop of `MapCopy` writes into its result.
unfoldable mutual
  pub copy : Value → Value
  copy (object d) = object (map_copy_into d end)
  copy (items d) = items (slice_copy d)
  copy (text s) = text s
  copy (scalar s) = scalar s

  pub slice_copy : Items → Items
  slice_copy nil = nil
  slice_copy (cons v data') = cons (copy v) (slice_copy data')

  pub map_copy_into : Fields → Fields → Fields
  map_copy_into end result = result
  map_copy_into (field k v rest) result = map_copy_into rest (put k (copy v) result)

unfoldable pub map_copy : Fields → Fields
unfolding copy
map_copy d = map_copy_into d end

-- The loop of `Merge` over `right` writes into its result; `merge_value` is one round, on what
-- `left` has for the key.
unfoldable mutual
  pub merge_into : Fields → Fields → Fields → Fields
  merge_into left end result = result
  merge_into left (field k r rest) result =
      merge_into left rest (put k (merge_value (lookup k left) r) result)

  pub merge_value : Option Value → Value → Value
  merge_value none r = copy r
  merge_value (some (object l)) (object r) = object (merge_into l r (map_copy l))
  merge_value (some l) r = r

unfoldable pub merge : Fields → Fields → Fields
unfolding merge_into
merge left right = merge_into left right (map_copy left)
