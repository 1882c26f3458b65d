-- ===== src/CoreServices/Indexes.antt =====
-- The index files of the repositories (pkg/util/network/network.go): `getServices` and `UpdateCaches`.
-- Reading an index is a parameter.
use burmilla_os.Base.{List, [], ◌∷◌, ◌++◌, Text, codes, none, some, Option, true}
use burmilla_os.Base.Result.{Result, ok, failed, panicked}
use burmilla_os.CoreServices.Maps.{Map, get}
use burmilla_os.CoreServices.Cache.{Cache}
use burmilla_os.CoreServices.Resources.{Host, load_resource, service_url, update_cache}

-- The lists of names under the keys "services", "consoles" and "engines".
abbrev pub Index : Type 0
Index = Map (List Text)

unfoldable pub index_url : Text → Text
index_url url = url ++ codes "/index.yml"

-- services[key]; a key that is missing has no names.
unfoldable pub names_under : Text → Index → List Text
unfolding get
names_under key index = elim (get key index) [ none ↦ [] | some names ↦ names ]

module _ (host : Host) (read_index : Text → Result Index) where
  -- The names of one index file; an error is logged.
  unfoldable pub index_names : Text → Result Text → List Text
  unfolding names_under
  index_names key (ok content) = elim (read_index content) [
    | ok index ↦ names_under key index
    | other ↦ []
  ]
  index_names key other = []

  unfoldable pub get_services : Text → List Text → Cache → Cache × List Text
  unfolding load_resource index_url index_names
  get_services key [] cache = (cache, [])
  get_services key (url ∷ urls) cache =
      let loaded = load_resource host (index_url url) true cache in
      let rest = get_services key urls loaded.0 in (rest.0, index_names key loaded.1 ++ rest.1)

  -- The services of one index; their errors are not looked at. `none` is the panic of an empty name.
  unfoldable pub update_named : Text → List Text → Cache → Option Cache
  unfolding service_url update_cache
  update_named url [] cache = some cache
  update_named url (name ∷ names) cache = elim (service_url host url name) [
    | none ↦ none
    | some location ↦ update_named url names (update_cache host location cache).0
  ]

  unfoldable pub update_caches : Text → List Text → Cache → Cache × Result Text
  unfolding update_cache index_url names_under update_named
  update_caches key [] cache = (cache, ok [])
  update_caches key (url ∷ urls) cache =
      let updated = update_cache host (index_url url) cache in
      elim updated.1 [
        | ok content ↦ elim (read_index content) [
          | ok index ↦ elim (update_named url (names_under key index) updated.0) [
            | none ↦ (updated.0, panicked)
            | some cache' ↦ update_caches key urls cache'
          ]
          | failed e ↦ (updated.0, failed e)
          | other ↦ (updated.0, panicked)
        ]
        | other ↦ updated
      ]
