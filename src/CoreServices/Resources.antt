-- ===== src/CoreServices/Resources.antt =====
-- pkg/util/network/network.go: where a resource is loaded from. An error is known by its text. Besides
-- its result, a load gives the cache that it leaves.
use burmilla_os.Base.{
  Bool, true, not, ◌||◌, Option, none, some, List, [], ◌∷◌, ◌++◌, Text, codes, text_eq,
  if◌then◌else◌,
}
use burmilla_os.Base.Result.{Result, ok, failed, panicked, out_of_fuel, ◌>>=◌}
use burmilla_os.Strings.{has_prefix}
use burmilla_os.Config.Value.{Fields, end, field, lookup}
use burmilla_os.CoreServices.Maps.{get, delete}
use burmilla_os.CoreServices.Cache.{Cache, cache_lookup, cache_add, cache_move, cache_move_back}

abbrev pub no_network : Text
no_network = codes "Networking not available to load resource"

abbrev pub not_found : Text
not_found = codes "Failed to find resource"

-- Files, the HTTP client behind the test of the gateway, the hash of a location, whether the cache can
-- be written, the file of the engines (`none` if there is none), and the YAML library.
pub record Host : Type 0 where
  pub read_file : Text → Result Text
  pub download : Text → Result Text
  pub location_hash : Text → Text
  pub writable : Bool
  pub engines : Option (Result Text)
  pub unmarshal : Text → Result Fields
  pub marshal : Fields → Result Text

module _ (host : Host) where
  unfoldable pub load_from_network : Text → Cache → Cache × Result Text
  unfolding cache_add
  load_from_network location cache = elim (host.download location) [
    | ok bytes ↦ (cache_add host.location_hash host.writable location bytes cache, ok bytes)
    | failed e ↦ (cache, failed e)
    | panicked ↦ (cache, panicked)
    | out_of_fuel ↦ (cache, out_of_fuel)
  ]

  unfoldable pub load_from_network_with_cache : Text → Cache → Cache × Result Text
  unfolding cache_lookup load_from_network
  load_from_network_with_cache location cache =
      elim (cache_lookup host.location_hash location cache) [
        | some bytes ↦ (cache, ok bytes)
        | none ↦ load_from_network location cache
      ]

  -- The location is one of the network.
  abbrev pub is_remote : Text → Bool
  is_remote location = has_prefix location (codes "http:/") || has_prefix location (codes "https:/")

  unfoldable pub load_resource : Text → Bool → Cache → Cache × Result Text
  unfolding load_from_network_with_cache
  load_resource location network cache =
      if is_remote location
      then (if network
          then load_from_network_with_cache location cache
          else (cache, failed no_network))
      else if has_prefix location (codes "/")
      then (cache, host.read_file location)
      else (cache, failed not_found)

  -- name[0:1] of an empty name panics.
  unfoldable pub service_url : Text → Text → Option Text
  service_url url [] = none
  service_url url (c ∷ name) =
      some (url ++ (codes "/" ++ (c ∷ codes "/" ++ (c ∷ name ++ codes ".yml"))))

  -- A load whose error is followed by another one.
  unfoldable pub or_else : Cache × Result Text → Cache × Result Text → Cache × Result Text
  or_else (cache, failed e) next = next
  or_else (cache, loaded) next = (cache, loaded)

  -- The loop over the repositories; `last` is the error before.
  unfoldable pub load_from_urls : Text → Result Text → List Text → Cache → Cache × Result Text
  unfolding service_url load_resource or_else
  load_from_urls name last [] cache = (cache, last)
  load_from_urls name last (url ∷ urls) cache = elim (service_url url name) [
    | none ↦ (cache, panicked)
    | some location ↦
        let loaded = load_resource location true cache in
        or_else loaded (load_from_urls name loaded.1 urls loaded.0)
  ]

  unfoldable pub load_service_resource : Text → Bool → List Text → Cache → Cache × Result Text
  unfolding load_resource load_from_urls or_else
  load_service_resource name use_network urls cache =
      let loaded = load_resource name use_network cache in
      or_else loaded (
        if not use_network then (loaded.0, failed no_network) else elim loaded.1 [
          | failed e ↦
              if text_eq e no_network
              then (loaded.0, failed no_network)
              else load_from_urls name (failed e) urls loaded.0
          | other ↦ loaded
        ])

  -- LoadMultiEngineResource: the service of the file of the engines, as a file of its own.
  unfoldable pub load_multi_engine_resource : Text → Result Text
  unfolding lookup
  load_multi_engine_resource name =
      (elim host.engines [ none ↦ ok end | some file ↦ file >>= λ bytes. host.unmarshal bytes ])
      >>= λ configs. elim (lookup name configs) [
        | none ↦ failed (codes "Failed to found " ++ name)
        | some config ↦ host.marshal (field name config end)
      ]

  -- UpdateCache behind the load: the old file is removed, or moved back.
  unfoldable pub settle : Text → Text → Cache × Result Text → Cache × Result Text
  unfolding cache_move_back get delete
  settle location temp (cache, ok content) = elim (get temp cache) [
    | none ↦ (cache, failed (codes "remove"))
    | some old ↦ (delete temp cache, ok content)
  ]
  settle location temp (cache, failed e) = elim (cache_move_back temp cache) [
    | ok restored ↦ (restored, host.read_file location)
    | failed e' ↦ (cache, failed e')
    | other ↦ (cache, panicked)
  ]
  settle location temp (cache, other) = (cache, other)

  -- UpdateCache
  unfoldable pub update_cache : Text → Cache → Cache × Result Text
  unfolding cache_move load_resource settle
  update_cache location cache = elim (cache_move host.location_hash location cache) [
    | ok (temp, moved) ↦ settle location temp (load_resource location true moved)
    | failed e ↦ (cache, failed e)
    | panicked ↦ (cache, panicked)
    | out_of_fuel ↦ (cache, out_of_fuel)
  ]
