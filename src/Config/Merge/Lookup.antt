-- ===== src/Config/Merge/Lookup.antt =====
-- What a merged map has for a key.
use burmilla_os.Base.{Option, none, some, Text, text_eq_iff, ◌≡◌, ap, refl, ◌∙◌, arith}
use burmilla_os.Config.Value.{Value, object, Fields, end, field, lookup, put, IsWellFormed, IsMap}
use burmilla_os.Config.Value.Laws.{lookup-put, lookup-IsWellFormed}
use burmilla_os.Config.Merge.{map_copy, merge_into, merge_value, merge}
use burmilla_os.Config.Merge.Copying.{copy_lem, map_copy_lem}

-- What the round for a key makes of the two values that the maps have for it.
abbrev pub combine : Option Value → Option Value → Option Value
combine l none = l
combine none (some r) = some r
combine (some (object l)) (some (object r)) = some (object (merge l r))
combine (some l) (some r) = some r

-- The same before copies are known to be equal to their originals.
abbrev round : Option Value → Option Value → Option Value → Option Value
round old l none = old
round old l (some r) = some (merge_value l r)

lookup-merge_into :
    (k : Text) (left right result : Fields)
    → IsMap right
    → lookup k (merge_into left right result)
      ≡ round (lookup k result) (lookup k left) (lookup k right)
unfolding merge_into lookup IsWellFormed
lookup-merge_into k left end result h = refl
lookup-merge_into k left (field j v m) result (fresh, hv, h) = ground (
  arith,
  lookup-merge_into k left m (put j (merge_value (lookup j left) v) result) h,
  lookup-put j k (merge_value (lookup j left) v) result,
  text_eq_iff j k,
)

round-combine :
    (l r : Option Value) → ((v : Value) → r ≡ some v → IsWellFormed v) → round l l r ≡ combine l r
unfolding merge_value merge
round-combine l none h = refl
round-combine none (some r) h = ap some (copy_lem r (h r refl))
round-combine (some (object l)) (some (object r)) h = refl
round-combine (some l) (some r) h = refl

-- A key of the merged map has the value of the right map, if that map has the key, and else that of
-- the left map; where both have maps for the key, it has the merge of the two.
pub lookup-merge :
    (k : Text) (left right : Fields)
    → IsMap left
    → IsMap right
    → lookup k (merge left right) ≡ combine (lookup k left) (lookup k right)
lookup-merge k left right hl hr =
    unfold merge in
    (lookup-merge_into k left right (map_copy left) hr
      ∙ ap (λ m. round (lookup k m) (lookup k left) (lookup k right)) (map_copy_lem left hl)
      ∙ round-combine (lookup k left) (lookup k right) (λ v e. lookup-IsWellFormed k right hr e))

-- The merge of two values, of which a map merges only with a map.
abbrev pub merge_values : Value → Value → Value
merge_values (object l) (object r) = object (merge l r)
merge_values l r = r

pub combine-some : (l r : Value) → combine (some l) (some r) ≡ some (merge_values l r)
combine-some (object l) (object r) = refl
combine-some _ r = refl
