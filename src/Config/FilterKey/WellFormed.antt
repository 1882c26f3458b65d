-- ===== src/Config/FilterKey/WellFormed.antt =====
-- Both results of `filterKey` have distinct keys again.
use burmilla_os.Base.{
  Option, none, some, List, [], ◌∷◌, true, false, Text, ◌≡◌, ◌⊎◌, if◌then◌else◌, refl, Bool-cases,
  inl, inr,
}
use burmilla_os.Config.Value.{
  Value, object, Fields, end, lookup, put, remove, IsMap, IsWellFormed, text, scalar, items,
}
use burmilla_os.Config.Value.Laws.{lookup-IsWellFormed, put-IsMap, remove-IsMap}
use burmilla_os.Config.Value.Paths.{open-IsMap}
use burmilla_os.Config.Merge.{map_copy}
use burmilla_os.Config.Merge.Copying.{map_copy_lem}
use burmilla_os.Config.FilterKey.{is_empty, nest, filter_key}

abbrev pub AreMaps : Fields × Fields → Type 0
AreMaps halves = IsMap halves.0 × IsMap halves.1

end-IsMap : IsMap end
unfolding IsWellFormed
end-IsMap = tt

object-IsWellFormed : (m : Fields) → IsMap m → IsWellFormed (object m)
unfolding IsWellFormed
object-IsWellFormed m h = h

nest-IsMap :
    (k : Text) (halves : Fields × Fields) (rest : Fields)
    → AreMaps halves
    → IsMap rest
    → AreMaps (nest k halves rest)
unfolding nest
nest-IsMap k (f, r) rest (hf, hr) h =
    (filtered (Bool-cases (is_empty f)), others (Bool-cases (is_empty r)))
  where
    filtered :
        (is_empty f ≡ true) ⊎ (is_empty f ≡ false)
        → IsMap (if is_empty f then end else put k (object f) end)
    filtered (inl e) = rw e end-IsMap
    filtered (inr e) = rw e (put-IsMap k (object f) end (object-IsWellFormed f hf) end-IsMap)

    others :
        (is_empty r ≡ true) ⊎ (is_empty r ≡ false)
        → IsMap (if is_empty r then remove k rest else put k (object r) rest)
    others (inl e) = rw e (remove-IsMap k rest h)
    others (inr e) = rw e (put-IsMap k (object r) rest (object-IsWellFormed r hr) h)

-- Both results have distinct keys if the map has.
pub filter_key-IsMap :
    (data' : Fields) (key : List Text) → IsMap data' → AreMaps (filter_key data' key)
unfolding filter_key
filter_key-IsMap data' [] h = (h, end-IsMap)
filter_key-IsMap data' (k ∷ key) h = go (lookup k data') refl (λ d. filter_key-IsMap d key)
  where
    copied : IsMap (map_copy data')
    copied = rw (map_copy_lem data' h) h

    leaf : (d : Value) → lookup k data' ≡ some d → AreMaps (put k d end, remove k (map_copy data'))
    leaf d e =
        (put-IsMap k d end (lookup-IsWellFormed k data' h e) end-IsMap, remove-IsMap k _ copied)

    go :
        (o : Option Value)
        → lookup k data' ≡ o
        → ((d : Fields) → IsMap d → AreMaps (filter_key d key))
        → AreMaps (filter_key data' (k ∷ key))
    go none e ih = rw (e, filter_key) (end-IsMap, copied)
    go (some (object d)) e ih =
        rw (e, filter_key)
          (nest-IsMap k (filter_key d key) (map_copy data')
            (ih d (open-IsMap d (lookup-IsWellFormed k data' h e))) copied)
    go (some (text s)) e ih = rw (e, filter_key) (leaf (text s) e)
    go (some (scalar s)) e ih = rw (e, filter_key) (leaf (scalar s) e)
    go (some (items s)) e ih = rw (e, filter_key) (leaf (items s) e)
