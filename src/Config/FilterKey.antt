-- ===== src/Config/FilterKey.antt =====
-- `filterKey` of config/data_funcs.go, which splits a map at a path of keys.
pub mod Partition
pub mod Frame
pub mod WellFormed
use burmilla_os.Base.{Option, none, some, List, [], ◌∷◌, Bool, true, false, Text, if◌then◌else◌}
use burmilla_os.Config.Value.{
  Value, text, scalar, items, object, Fields, end, field, lookup, put, remove,
}
use burmilla_os.Config.Merge.{map_copy}

-- len(m) == 0
pub is_empty : Fields → Bool
is_empty end = true
is_empty (field k v m) = false

-- What the case of a map under the key makes of the two halves of that map.
nest : Text → Fields × Fields → Fields → Fields × Fields
unfolding is_empty
nest k (f, r) rest = (
  if is_empty f then end else put k (object f) end,
  if is_empty r then remove k rest else put k (object r) rest,
)

-- The results are `filtered` and `rest`.
pub filter_key : Fields → List Text → Fields × Fields
unfolding nest
filter_key data' [] = (data', end)
filter_key data' (k ∷ key) = elim (lookup k data') [
  | none ↦ (end, map_copy data')
  | some (object d) ↦ nest k (filter_key d key) (map_copy data')
  | some d ↦ (put k d end, remove k (map_copy data'))
]
