-- ===== src/CoreServices/Cache.antt =====
-- The cache of pkg/util/network (cache.go), as the map of its files. The name of a resource's file
-- is the hash of its location, which is a parameter.
use burmilla_os.Base.{
  Bool, Option, none, some, [], ◌∷◌, ◌++◌, Text, codes, ◌==◌, if◌then◌else◌, false, ℕ, ◌||◌,
}
use burmilla_os.Base.Result.{Result, ok, failed}
use burmilla_os.CoreServices.Maps.{Map, get, add, delete}

abbrev pub Cache : Type 0
Cache = Map Text

-- strings.TrimRight: all characters of the set go from the end.
abbrev pub in_set : Text → ℕ → Bool
in_set [] c = false
in_set (d ∷ cutset) c = d == c || in_set cutset c

unfoldable pub trim_set : Text → Text → Text
trim_set cutset [] = []
trim_set cutset (c ∷ s) = elim (trim_set cutset s) [
  | [] ↦ if in_set cutset c then [] else c ∷ []
  | d ∷ rest ↦ c ∷ d ∷ rest
]

module _ (location_hash : Text → Text) where
  unfoldable pub cache_lookup : Text → Cache → Option Text
  unfolding get
  cache_lookup location cache = get (location_hash location) cache

  -- `writable` tells whether the temporary file can be written and renamed.
  unfoldable pub cache_add : Bool → Text → Text → Cache → Cache
  unfolding add
  cache_add writable location bytes cache =
      if writable then add (location_hash location) bytes cache else cache

  -- The file of the location gets another name, which is returned.
  unfoldable pub cache_move : Text → Cache → Result (Text × Cache)
  unfolding get add delete
  cache_move location cache =
      let file = location_hash location in
      let temp = file ++ codes "_temp" in
      elim (get file cache) [
        | none ↦ failed (codes "rename")
        | some bytes ↦ ok (temp, add temp bytes (delete file cache))
      ]

unfoldable pub cache_move_back : Text → Cache → Result Cache
unfolding trim_set get add delete
cache_move_back name cache = elim (get name cache) [
  | none ↦ failed (codes "rename")
  | some bytes ↦ ok (add (trim_set (codes "_temp") name) bytes (delete name cache))
]
