-- ===== src/CoreServices/Projects.antt =====
-- The configurations of a project (pkg/libcompose/project/project.go): `AddConfig`, `AddVolumeConfig`,
-- `AddNetworkConfig`, `Load`, and the environment of `CreateService`. The types of the configurations
-- are parameters.
use burmilla_os.Base.{Option, none, some, List, [], ◌∷◌, ◌++◌, Text}
use burmilla_os.Base.Result.{Result, ok, ◌>>=◌}
use burmilla_os.Strings.{split_n}
use burmilla_os.CoreServices.Maps.{Map, add}

pub data EventType : Type 0 where
  service_add : EventType
  volume_add : EventType
  network_add : EventType

-- The fields that loading writes; `notified` are the events that were sent to the listeners.
pub record Project (S V N : Type 0) : Type 0 where
  pub service_configs : Map S
  pub volume_configs : Map V
  pub network_configs : Map N
  pub reload : List Text
  pub notified : List (EventType × Text)

-- `Merge` of the package config, on the configurations that the project has and the bytes of a file.
abbrev pub Merger : Type 0 → Type 0 → Type 0 → Type 0
Merger S V N = Map S → Text → Result (Map S × Map V × Map N)

module _ {S V N : Type 0} where
  unfoldable pub add_config : Text → S → Project S V N → Project S V N
  unfolding add
  add_config name config p = record p {
    service_configs = add name config p.service_configs;
    reload = p.reload ++ (name ∷ []);
    notified = p.notified ++ ((service_add, name) ∷ []);
  }

  unfoldable pub add_volume_config : Text → V → Project S V N → Project S V N
  unfolding add
  add_volume_config name config p = record p {
    volume_configs = add name config p.volume_configs;
    notified = p.notified ++ ((volume_add, name) ∷ []);
  }

  unfoldable pub add_network_config : Text → N → Project S V N → Project S V N
  unfolding add
  add_network_config name config p = record p {
    network_configs = add name config p.network_configs;
    notified = p.notified ++ ((network_add, name) ∷ []);
  }

  unfoldable pub add_configs : Map S → Project S V N → Project S V N
  unfolding add_config
  add_configs [] p = p
  add_configs ((name, config) ∷ configs) p = add_configs configs (add_config name config p)

  unfoldable pub add_volume_configs : Map V → Project S V N → Project S V N
  unfolding add_volume_config
  add_volume_configs [] p = p
  add_volume_configs ((name, config) ∷ configs) p =
      add_volume_configs configs (add_volume_config name config p)

  unfoldable pub add_network_configs : Map N → Project S V N → Project S V N
  unfolding add_network_config
  add_network_configs [] p = p
  add_network_configs ((name, config) ∷ configs) p =
      add_network_configs configs (add_network_config name config p)

  -- Load; the project stays as it is at an error.
  unfoldable pub load : Merger S V N → Text → Project S V N → Result (Project S V N)
  unfolding add_configs add_volume_configs add_network_configs
  load merge bytes p = merge p.service_configs bytes >>= λ (services, volumes, networks).
      ok (add_network_configs networks (add_volume_configs volumes (add_configs services p)))

-- An entry that the lookup gives for a variable.
unfoldable pub set_entry : List Text → Text → Map (Option Text) → Map (Option Text)
unfolding add
set_entry (key ∷ v ∷ rest) value env = add key (some v) env
set_entry parts value env = add value none env

unfoldable pub set_entries : List Text → Map (Option Text) → Map (Option Text)
unfolding set_entry
set_entries [] env = env
set_entries (value ∷ values) env = set_entries values (set_entry (split_n b'=' value 2) value env)

-- The loop of `CreateService` over the environment: a variable without a value, or with an empty one,
-- is looked up.
unfoldable pub fill_environment :
    (Text → List Text) → Map (Option Text) → Map (Option Text) → Map (Option Text)
unfolding set_entries add
fill_environment lookup [] env = env
fill_environment lookup ((key, some (c ∷ v)) ∷ config) env =
    fill_environment lookup config (add key (some (c ∷ v)) env)
fill_environment lookup ((key, other) ∷ config) env =
    fill_environment lookup config (set_entries (lookup key) env)
