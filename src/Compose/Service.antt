-- ===== src/Compose/Service.antt =====
-- The functions on one raw service of pkg/libcompose/config/utils.go, merge.go, merge_v1.go and
-- merge_v2.go. A raw service is a map of the configuration tree.
use burmilla_os.Base.{
  Bool, true, false, ◌||◌, ◌==◌, Option, none, some, List, [], ◌∷◌, ◌++◌, Text, codes, text_eq,
  if◌then◌else◌,
}
use burmilla_os.Base.Result.{Result, ok, failed, panicked, ◌>>=◌}
use burmilla_os.Strings.{has_prefix, trim_space}
use burmilla_os.Config.Value.{
  Value, text, items, object, Items, nil, cons, Fields, end, field, lookup, put, remove,
}

-- The packages path, bufio and docker/pkg/urlutil, and the resource lookup, `none` for nil. A lookup
-- gives the content of a file and its resolved name; a scan gives the lines and the scanner's error.
pub record Loader : Type 0 where
  pub lookup_file : Option (Text → Text → Result (Text × Text))
  pub scan_lines : Text → List Text × Option Text
  pub is_valid_remote : Text → Bool
  pub dir : Text → Text
  pub join : Text → Text → Text

unfoldable pub append_items : Items → Items → Items
append_items nil ws = ws
append_items (cons v vs) ws = cons v (append_items vs ws)

-- for k, v := range right { left[k] = v }
unfoldable pub put_all : Fields → Fields → Fields
put_all end left = left
put_all (field k v right) left = put_all right (put k v left)

unfoldable pub clone : Fields → Fields
unfolding put_all
clone d = put_all d end

-- `merge` of utils.go.
unfoldable pub merge : Value → Value → Value
unfolding append_items put_all
merge (items left) (items right) = items (append_items left right)
merge (object left) (object right) = object (put_all right (put_all left end))
merge existing value = value

unfoldable pub as_string : Option Value → Text
as_string (some (text s)) = s
as_string other = []

-- Image and build are mutually exclusive in merge.
unfoldable pub drop_rival : Text → Fields → Fields
drop_rival k base =
    if text_eq k (codes "image")
    then remove (codes "build") base
    else if text_eq k (codes "build")
    then remove (codes "image") base
    else base

unfoldable pub merge_existing : Option Value → Value → Value
unfolding merge
merge_existing none v = v
merge_existing (some existing) v = merge existing v

-- One round of the loop of `mergeConfig`.
unfoldable pub merge_round : Text → Value → Fields → Fields
unfolding drop_rival merge_existing
merge_round k v base = put k (merge_existing (lookup k (drop_rival k base)) v) (drop_rival k base)

unfoldable pub merge_config : Fields → Fields → Fields
unfolding merge_round
merge_config base end = base
merge_config base (field k v data') = merge_config (merge_round k v base) data'

-- strings.SplitAfter(line, "=")[0]
unfoldable pub key_of : Text → Text
key_of [] = []
key_of (c ∷ s) = let rest = key_of s in if c == b'=' then c ∷ [] else c ∷ rest

-- The inner loop of `readEnvFile`; an element that is no string panics.
unfoldable pub is_found : Text → Items → Result Bool
is_found key nil = ok false
is_found key (cons (text v) vars) =
    let rest = is_found key vars in if has_prefix v key then ok true else rest
is_found key (cons other vars) = panicked

unfoldable pub add_line : Text → Items → Result Items
unfolding is_found key_of
add_line line vars = is_found (key_of (trim_space line)) vars >>= λ found.
    ok (if found then vars else append_items vars (cons (text (trim_space line)) nil))

unfoldable pub add_lines : List Text → Items → Result Items
unfolding add_line
add_lines [] vars = ok vars
add_lines (line ∷ lines) vars = add_line line vars >>= λ vars'. add_lines lines vars'

-- A scan that ended with an error.
unfoldable pub scan_end : Option Text → Items → Result Items
scan_end none vars = ok vars
scan_end (some e) vars = failed e

-- The order of the loop over the files, which starts at the last one.
unfoldable pub reverse_items : Items → Items → Items
reverse_items nil out = out
reverse_items (cons v vs) out = reverse_items vs (cons v out)

-- `serviceData["environment"]`, nil if it is missing.
unfoldable pub environment_of : Option Value → Result Items
environment_of none = ok nil
environment_of (some (items vars)) = ok vars
environment_of (some other) = panicked

module _ (loader : Loader) where
  unfoldable pub read_env_content : Text → Items → Result Items
  unfolding add_lines scan_end
  read_env_content content vars = add_lines (loader.scan_lines content).0 vars >>= λ vars'.
      scan_end (loader.scan_lines content).1 vars'

  -- The loop over the files, in the order of the list.
  unfoldable pub read_env_files :
      (Text → Text → Result (Text × Text)) → Text → Items → Items → Result Items
  unfolding read_env_content
  read_env_files find_file in_file nil vars = ok vars
  read_env_files find_file in_file (cons (text env_file) files) vars =
      find_file env_file in_file >>= (λ found. read_env_content found.0 vars) >>= λ vars'.
      read_env_files find_file in_file files vars'
  read_env_files find_file in_file (cons other files) vars = panicked

  -- The service with its new environment.
  unfoldable pub with_environment : Fields → Items → Fields
  with_environment data' vars =
      remove (codes "env_file") (put (codes "environment") (items vars) data')

  unfoldable pub load_env_files :
      Option (Text → Text → Result (Text × Text)) → Text → Items → Fields → Result Fields
  unfolding read_env_files with_environment environment_of reverse_items
  load_env_files lookup_file in_file nil data' = ok data'
  load_env_files none in_file (cons v files) data' = failed (
      codes "Can not use env_file in file "
      ++ (in_file ++ codes " no mechanism provided to load files"))
  load_env_files (some find_file) in_file (cons v files) data' =
      environment_of (lookup (codes "environment") data')
      >>= (λ vars. read_env_files find_file in_file (reverse_items (cons v files) nil) vars)
      >>= λ vars'. ok (with_environment data' vars')

  unfoldable pub read_env_file : Text → Fields → Result Fields
  unfolding load_env_files
  read_env_file in_file data' = elim (lookup (codes "env_file") data') [
    | none ↦ ok data'
    | some (items files) ↦ load_env_files loader.lookup_file in_file files data'
    | some other ↦ panicked
  ]

  -- The directory of a build; `none` leaves the service as it is.
  unfoldable pub build_context : Text → Text → Option Text
  build_context in_file context =
      if text_eq context [] || loader.is_valid_remote context
      then none
      else some (
          if text_eq context (codes ".")
          then loader.dir in_file
          else loader.join (loader.dir in_file) context)

  unfoldable pub resolve_context_v1 : Text → Fields → Result Fields
  unfolding build_context as_string
  resolve_context_v1 in_file data' =
      elim (build_context in_file (as_string (lookup (codes "build") data'))) [
        | none ↦ ok data'
        | some current ↦ ok (put (codes "build") (text current) data')
      ]

  -- In the second version the context is an entry of the map `build`, which is changed in place.
  unfoldable pub resolve_build : Text → Fields → Fields → Result Fields
  unfolding build_context as_string
  resolve_build in_file build data' =
      elim (build_context in_file (as_string (lookup (codes "context") build))) [
        | none ↦ ok data'
        | some current ↦
            ok (put (codes "build") (object (put (codes "context") (text current) build)) data')
      ]

  unfoldable pub resolve_context_v2 : Text → Fields → Result Fields
  unfolding resolve_build
  resolve_context_v2 in_file data' = elim (lookup (codes "build") data') [
    | none ↦ ok data'
    | some (object build) ↦ resolve_build in_file build data'
    | some other ↦ panicked
  ]
