-- ===== src/CoreServices/Reload.antt =====
-- `addServices` of pkg/compose/project.go, and the function that `projectReload` of reload.go gives,
-- which is called again whenever the services are reloaded.
use burmilla_os.Base.{
  Bool, false, not, ◌||◌, Option, none, some, List, [], ◌∷◌, Text, text_eq, if◌then◌else◌,
}
use burmilla_os.Base.Result.{ok, failed}
use burmilla_os.CoreServices.Maps.{Map, get, has, add}
use burmilla_os.CoreServices.Resources.{Host}
use burmilla_os.CoreServices.Projects.{Project, Merger, add_config}
use burmilla_os.CoreServices.Loading.{
  Settings, Outcome, State, load_service, load_console_service, load_engine_service,
}

-- The hashes of the services that were added, and the names of those that were loaded.
abbrev pub Enabled : Type 0
Enabled = Map Text

-- The enabled services, the project and the cache.
abbrev pub Core : Type 0 → Type 0 → Type 0 → Type 0
Core S V N = Enabled × State S V N

-- What is read of the configuration; the services are converted already.
pub record Configuration (S : Type 0) : Type 0 where
  pub services : Map S
  pub services_include : List (Text × Bool)
  pub settings : Settings

module _ {S : Type 0} (hash : Text → S → Text) where
  -- The service is known with this hash.
  unfoldable pub is_current : Text → S → Enabled → Bool
  unfolding get
  is_current name config enabled = elim (get name enabled) [
    | none ↦ false
    | some h ↦ text_eq h (hash name config)
  ]

module _ {S V N : Type 0} (hash : Text → S → Text) where
  -- The copy of the map is the value that is passed on.
  unfoldable pub add_services : Map S → Enabled × Project S V N → Enabled × Project S V N
  unfolding is_current add add_config
  add_services [] state = state
  add_services ((name, config) ∷ configs) (enabled, p) = add_services configs (
      if is_current hash name config enabled
      then (enabled, p)
      else (add name (hash name config) enabled, add_config name config p))

  module _ (host : Host) (merge : Merger S V N) where
    -- One round of the loop over the included services; `none` is a panic.
    unfoldable pub mark : Text → Enabled → State S V N × Outcome → Option (Core S V N)
    unfolding add
    mark service enabled (state, ok done) = some (add service service enabled, state)
    mark service enabled (state, failed e) = some (enabled, state)
    mark service enabled (state, other) = none

    unfoldable pub include_services :
        Settings → Bool → List (Text × Bool) → Core S V N → Option (Core S V N)
    unfolding has load_service mark
    include_services cfg use_network [] core = some core
    include_services cfg use_network ((service, service_enabled) ∷ services) (enabled, state) =
        elim (if has service enabled || not service_enabled
          then some (enabled, state)
          else mark service enabled (load_service host merge cfg use_network service state)) [
            | none ↦ none
            | some core ↦ include_services cfg use_network services core
          ]

    -- An error is logged; a panic is not.
    unfoldable pub after_special : Enabled → State S V N × Outcome → Option (Core S V N)
    after_special enabled (state, ok done) = some (enabled, state)
    after_special enabled (state, failed e) = some (enabled, state)
    after_special enabled (state, other) = none

    unfoldable pub load_specials : S → Settings → Bool → Core S V N → Option (Core S V N)
    unfolding after_special load_console_service load_engine_service
    load_specials empty cfg load_console (enabled, state) =
        elim (if load_console
          then after_special enabled (load_console_service host merge empty cfg state)
          else some (enabled, state)) [
            | none ↦ none
            | some core ↦ after_special core.0 (load_engine_service host merge empty cfg core.1)
          ]

    unfoldable pub project_reload :
        S → Bool → Bool → Configuration S → Core S V N → Option (Core S V N)
    unfolding add_services include_services load_specials
    project_reload empty use_network load_console cfg (enabled, (p, cache)) =
        let added = add_services cfg.services (enabled, p) in
        elim (include_services cfg.settings use_network cfg.services_include
          (added.0, (added.1, cache))) [
            | none ↦ none
            | some core ↦
                if not use_network
                then some core
                else load_specials empty cfg.settings load_console core
          ]
