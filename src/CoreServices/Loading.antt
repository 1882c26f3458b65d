-- ===== src/CoreServices/Loading.antt =====
-- `LoadService`, `LoadSpecialService`, `loadConsoleService` and `loadEngineService` of
-- pkg/compose/reload.go, on the project and the cache.
use burmilla_os.Base.{
  Bool, true, ◌||◌, Option, some, List, [], ◌∷◌, Text, codes, text_eq, if◌then◌else◌, ◌++◌,
}
use burmilla_os.Base.Result.{Result, ok, failed, panicked, out_of_fuel, ◌>>=◌}
use burmilla_os.CoreServices.{adjust_container_names}
use burmilla_os.CoreServices.Maps.{get, add}
use burmilla_os.CoreServices.Cache.{Cache}
use burmilla_os.CoreServices.Resources.{Host, load_service_resource, load_multi_engine_resource}
use burmilla_os.CoreServices.Projects.{Project, Merger, load}

-- An error or nothing.
abbrev pub Outcome : Type 0
Outcome = Result {0} Unit

-- The settings that are read: the repositories, and the console and the engine with its default.
pub record Settings : Type 0 where
  pub repositories : List Text
  pub console : Text
  pub engine : Text
  pub default_engine : Text

-- What loading changes.
abbrev pub State : Type 0 → Type 0 → Type 0 → Type 0
State S V N = Project S V N × Cache

module _ {S V N : Type 0} (host : Host) (merge : Merger S V N) where
  -- The bytes of the service: of the engines, or of a resource.
  unfoldable pub service_bytes : Text → Bool → List Text → Cache → Cache × Result Text
  unfolding load_multi_engine_resource load_service_resource
  service_bytes service use_network urls cache = elim (load_multi_engine_resource host service) [
    | ok bytes ↦ (cache, ok bytes)
    | failed e ↦ load_service_resource host service use_network urls cache
    | panicked ↦ (cache, panicked)
    | out_of_fuel ↦ (cache, out_of_fuel)
  ]

  -- LoadService behind the bytes.
  unfoldable pub load_bytes : Text → Project S V N → Result (Project S V N)
  unfolding adjust_container_names load
  load_bytes bytes p = host.unmarshal bytes >>= λ m.
      host.marshal (adjust_container_names m) >>= λ adjusted. load merge adjusted p

  -- The project behind a load that may have failed.
  unfoldable pub or_same : Project S V N → Result (Project S V N) → Project S V N × Outcome
  or_same p (ok p') = (p', ok tt)
  or_same p (failed e) = (p, failed e)
  or_same p panicked = (p, panicked)
  or_same p out_of_fuel = (p, out_of_fuel)

  unfoldable pub load_service : Settings → Bool → Text → State S V N → State S V N × Outcome
  unfolding service_bytes load_bytes or_same
  load_service cfg use_network service (p, cache) =
      let found = service_bytes service use_network cfg.repositories cache in
      let loaded = or_same p (found.1 >>= λ bytes. load_bytes bytes p) in
      ((loaded.0, found.0), loaded.1)

  -- The end of `LoadSpecialService`: an error puts the configuration back that the name had before.
  unfoldable pub roll_back : Text → Option S → State S V N × Outcome → State S V N × Outcome
  unfolding add
  roll_back name (some previous) ((p, cache), failed e) =
      ((record p { service_configs = add name previous p.service_configs }, cache), failed e)
  roll_back name previous result = result

  -- `empty` is the ServiceConfig without settings.
  unfoldable pub load_special_service :
      S → Settings → Text → Text → State S V N → State S V N × Outcome
  unfolding load_service roll_back get add
  load_special_service empty cfg name [] state =
      (state, failed (codes "empty service value for " ++ name))
  load_special_service empty cfg name (c ∷ value) (p, cache) =
      let placed : Project S V N = record p {
        service_configs = add name empty p.service_configs;
      } in
      roll_back name (get name p.service_configs)
        (load_service cfg true (c ∷ value) (placed, cache))

  unfoldable pub load_console_service : S → Settings → State S V N → State S V N × Outcome
  unfolding load_special_service
  load_console_service empty cfg state =
      if text_eq cfg.console [] || text_eq cfg.console (codes "default")
      then (state, ok tt)
      else load_special_service empty cfg (codes "console") cfg.console state

  unfoldable pub load_engine_service : S → Settings → State S V N → State S V N × Outcome
  unfolding load_special_service
  load_engine_service empty cfg state =
      if text_eq cfg.engine [] || text_eq cfg.engine cfg.default_engine
      then (state, ok tt)
      else load_special_service empty cfg (codes "docker") cfg.engine state
