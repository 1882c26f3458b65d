-- ===== src/CoreServices/Examples.antt =====
-- A service that is added and stays, an engine that cannot be loaded, resources and the cache.
use burmilla_os.Base.{
  true, none, some, List, [], ◌∷◌, Text, codes, text_eq, ◌≡◌, refl, if◌then◌else◌, ap, false, Bool,
}
use burmilla_os.Base.Result.{ok, failed, Result}
use burmilla_os.Strings.{has_prefix}
use burmilla_os.Config.Value.{scalar, null, end, field, lookup}
use burmilla_os.CoreServices.{preprocess_service}
use burmilla_os.CoreServices.Preprocessed.{
  lookup-preprocess_service, IsPreprocessed, is_stringified,
}
use burmilla_os.CoreServices.Maps.{Map, get, IsDistinct, has}
use burmilla_os.CoreServices.Cache.{Cache, trim_set}
use burmilla_os.CoreServices.Resources.{
  Host, load_resource, load_service_resource, update_cache, no_network,
}
use burmilla_os.CoreServices.Projects.{Project, Merger, service_add}
use burmilla_os.CoreServices.Loading.{Settings, load_special_service}
use burmilla_os.CoreServices.Reload.{
  Enabled, Core, Configuration, add_services, project_reload, load_specials,
}
use burmilla_os.CoreServices.Reloaded.{project_reload_again}
use burmilla_os.CoreServices.Staging.{Images, no_clients, select_client, user_client}
use burmilla_os.CoreServices.Settled.{get-add_services, newer, hash_of}
use burmilla_os.CoreServices.Undone.{load_special_service-failed, restored}
use burmilla_os.CoreServices.Found.{load_service_resource_lem, fetch, fetch_all, first_loaded}
use burmilla_os.CoreServices.Kept.{load_resource_again, update_cache-failed}

-- A service is its image, and its hash is that.
abbrev hash : Text → Text → Text
hash name image = image

abbrev services : Map Text
services = (codes "network", codes "os-base") ∷ (codes "ntp", codes "os-ntp") ∷ []

abbrev project : Project Text Text Text
project = record {
  service_configs = (codes "ntp", codes "os-ntp") ∷ [];
  volume_configs = [];
  network_configs = [];
  reload = [];
  notified = [];
}

abbrev enabled : Enabled
enabled = (codes "ntp", codes "os-ntp") ∷ []

one_added : (add_services hash services (enabled, project)).1.reload ≡ codes "network" ∷ []
unfolding add_services text_eq
one_added = refl

distinct : IsDistinct services
unfolding get text_eq has
distinct = (refl, (refl, tt))

get-add_services_example :
    (get (codes "ntp") (add_services hash services (enabled, project)).1.service_configs
      ≡ newer hash
          (codes "ntp")
          enabled
          (get (codes "ntp") services)
          (get (codes "ntp") project.service_configs))
    × (get (codes "ntp") (add_services hash services (enabled, project)).0
        ≡ hash_of hash (codes "ntp") (get (codes "ntp") services) (get (codes "ntp") enabled))
get-add_services_example = get-add_services hash services enabled project (codes "ntp") distinct

-- Nothing answers but one location, and the hash of a location is the location itself.
abbrev host : Host
host = record {
  read_file = λ path. failed (codes "no file");
  download = λ location.
      if text_eq location (codes "http://r/n/ntp.yml")
      then ok (codes "ntp:")
      else failed (codes "404");
  location_hash = λ location. location;
  writable = true;
  engines = none;
  unmarshal = λ bytes. ok end;
  marshal = λ m. ok [];
}

abbrev repositories : List Text
repositories = codes "http://q" ∷ codes "http://r" ∷ []

ntp_found :
    load_service_resource host (codes "ntp") true repositories []
    ≡ ((codes "http://r/n/ntp.yml", codes "ntp:") ∷ [], ok (codes "ntp:"))
unfolding load_service_resource text_eq has_prefix
ntp_found = refl

abbrev is_no_network : Result Text → Bool
is_no_network (failed e) = text_eq e no_network
is_no_network r = false

load_service_resource_lem_example :
    (load_service_resource host (codes "ntp") true repositories []).1
    ≡ first_loaded (fetch host [] (codes "ntp")) (fetch_all host [] (codes "ntp") repositories)
unfolding load_resource has_prefix text_eq
load_service_resource_lem_example =
    load_service_resource_lem host b'n' (codes "tp") repositories []
      (λ e. let t : false ≡ true = ap is_no_network e in cc t)

-- A service of the system, one that is loaded from a repository, and one that is switched off.
abbrev configuration : Configuration Text
configuration = record {
  services = (codes "network", codes "os-base") ∷ [];
  services_include = (codes "ntp", true) ∷ (codes "zfs", false) ∷ [];
  settings = record { repositories = repositories; console = []; engine = []; default_engine = [] };
}

-- The file of a repository has one service.
abbrev merges : Merger Text Text Text
merges configs bytes = ok ((codes "ntp", codes "os-ntp") ∷ [], [], [])

abbrev reloaded : Core Text Text Text
reloaded = (
  (codes "network", codes "os-base") ∷ (codes "ntp", codes "ntp") ∷ [],
  (
    record {
      service_configs = (codes "ntp", codes "os-ntp") ∷ (codes "network", codes "os-base") ∷ [];
      volume_configs = [];
      network_configs = [];
      reload = codes "network" ∷ codes "ntp" ∷ [];
      notified = (service_add, codes "network") ∷ (service_add, codes "ntp") ∷ [];
    },
    (codes "http://r/n/ntp.yml", codes "ntp:") ∷ [],
  ),
)

project_reload_again_example :
    project_reload hash
      (record host { download = λ location. failed (codes "down") })
      merges
      []
      true
      true
      configuration
      reloaded
    ≡ load_specials hash
        (record host { download = λ location. failed (codes "down") })
        merges
        []
        configuration.settings
        true
        reloaded
unfolding project_reload text_eq has_prefix has
project_reload_again_example =
    project_reload_again hash merges host
      (record host { download = λ location. failed (codes "down") }) [] true true true configuration
      ([], (project, [])) reloaded (refl, tt) refl (refl, (refl, tt))

load_resource_again_example :
    load_resource
      (record host { download = λ location. failed (codes "down") })
      (codes "http://r/n/ntp.yml")
      true
      ((codes "http://r/n/ntp.yml", codes "ntp:") ∷ [])
    ≡ ((codes "http://r/n/ntp.yml", codes "ntp:") ∷ [], ok (codes "ntp:"))
unfolding load_resource has_prefix text_eq
load_resource_again_example =
    load_resource_again host (codes "http://r/n/ntp.yml") []
      ((codes "http://r/n/ntp.yml", codes "ntp:") ∷ []) (codes "ntp:")
      (λ location. failed (codes "down")) refl refl refl

abbrev settings : Settings
settings = record { repositories = []; console = codes "alpine"; engine = []; default_engine = [] }

abbrev refuses : Merger Text Text Text
refuses configs bytes = failed (codes "no service")

-- The console stays with the empty configuration.
load_special_service-failed_example :
    (get (codes "console") ((codes "ntp", codes "os-ntp") ∷ (codes "console", []) ∷ [])
      ≡ restored [] (codes "console") (codes "console") none none)
    × (project.reload ≡ project.reload)
unfolding load_special_service has_prefix text_eq
load_special_service-failed_example =
    load_special_service-failed host refuses [] settings (codes "console") b'a' (codes "lpine")
      project
      (record project {
        service_configs = (codes "ntp", codes "os-ntp") ∷ (codes "console", []) ∷ [];
      })
      [] [] (codes "Failed to find resource") (codes "console") refl

abbrev cache : Cache
cache = (codes "http://a/index.yml", codes "old") ∷ []

update_cache-failed_example :
    get (codes "http://a/index.yml") (update_cache host (codes "http://a/index.yml") cache).0
    ≡ get (codes "http://a/index.yml") cache
unfolding load_resource text_eq has_prefix trim_set
update_cache-failed_example =
    update_cache-failed host (codes "http://a/index.yml") cache (codes "404")
      (codes "http://a/index.yml") refl refl refl refl

-- The name of the file is cut too far.
file_lost :
    (update_cache host (codes "http://a/cache") ((codes "http://a/cache", codes "old") ∷ [])).0
    ≡ (codes "http://a/cach", codes "old") ∷ []
unfolding update_cache text_eq has_prefix
file_lost = refl

lookup-preprocess_service_example :
    IsPreprocessed
      (λ s. codes "<nil>")
      (is_stringified (codes "labels"))
      (lookup (codes "labels") (field (codes "labels") (scalar null) end))
      (lookup
        (codes "labels")
        (preprocess_service (λ s. codes "<nil>") (field (codes "labels") (scalar null) end)))
lookup-preprocess_service_example =
    lookup-preprocess_service (λ s. codes "<nil>") (field (codes "labels") (scalar null) end)
      (codes "labels")

abbrev images : Images Text
images = record {
  image = λ s. s;
  scope = λ s. s;
  reduced = λ s. s;
  creates = λ c. true;
  is_local = λ c image. true;
}

-- A system service behind a user's one is looked for with the client of the users.
user_client_stays :
    (select_client images
      (codes "system")
      (select_client images [] (select_client images (codes "system") no_clients))).client
    ≡ some user_client
unfolding select_client text_eq
user_client_stays = refl
