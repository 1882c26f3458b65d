-- ===== src/CoreServices/Staging.antt =====
-- `StageServices` of pkg/compose/project.go: the services that are named are loaded, and the images of
-- a project are pulled unless all of them are there.
use burmilla_os.Base.{
  Bool, true, false, not, ◌||◌, Option, none, some, List, [], ◌∷◌, Text, codes, text_eq,
  if◌then◌else◌,
}
use burmilla_os.Base.Result.{Result, ok, ◌>>=◌}
use burmilla_os.Config.Value.{Fields, end, field, lookup}
use burmilla_os.CoreServices.Maps.{get, add, keys}
use burmilla_os.CoreServices.Cache.{Cache}
use burmilla_os.CoreServices.Resources.{Host, load_service_resource}
use burmilla_os.CoreServices.Projects.{Project, Merger, load}

pub data Client : Type 0 where
  user_client : Client
  system_client : Client

-- The variables of the loop: whether the two clients were created, and the one that is asked.
pub record Clients : Type 0 where
  pub has_user : Bool
  pub has_system : Bool
  pub client : Option Client

abbrev pub no_clients : Clients
no_clients = record { has_user = false; has_system = false; client = none }

-- What is read of a service, what is left of it, whether a client can be created, and whether an image
-- is found by a client.
pub record Images (S : Type 0) : Type 0 where
  pub image : S → Text
  pub scope : S → Text
  pub reduced : S → S
  pub creates : Client → Bool
  pub is_local : Client → Text → Bool

-- The choice of the client; a system service sets it only when its client is created.
unfoldable pub select_client : {S : Type 0} → Images S → Text → Clients → Clients
select_client images scope clients =
    if not (text_eq scope (codes "system"))
    then (let has = clients.has_user || images.creates user_client in
        record clients { has_user = has; client = if has then some user_client else none })
    else if clients.has_system
    then clients
    else record clients {
      has_system = images.creates system_client;
      client = if images.creates system_client then some system_client else none;
    }

unfoldable pub is_present : {S : Type 0} → Images S → Option Client → Text → Bool
is_present images none image = false
is_present images (some client) image = images.is_local client image

module _ {S V N : Type 0} where
  -- The loop over the names: whether an image is to be pulled, and the project.
  unfoldable pub stage_images :
      Images S → List Text → Clients → Bool → Project S V N → Bool × Project S V N
  unfolding select_client is_present get add
  stage_images images [] clients need p = (need, p)
  stage_images images (name ∷ names) clients need p = elim (get name p.service_configs) [
    | none ↦ stage_images images names clients need p
    | some config ↦
        let clients' = select_client images (images.scope config) clients in
        let skip = stage_images images names clients' need p in
        let pull =
          stage_images images names clients' true
            (record p { service_configs = add name (images.reduced config) p.service_configs }) in
        if is_present images clients'.client (images.image config) then skip else pull
  ]

  module _ (host : Host) (merge : Merger S V N) where
    -- The bytes of one service: of the engines, or of a resource.
    unfoldable pub staged_bytes : Fields → List Text → Text → Cache → Cache × Result Text
    unfolding lookup load_service_resource
    staged_bytes engines urls service cache = elim (lookup service engines) [
      | some config ↦ (cache, host.marshal (field service config end))
      | none ↦ load_service_resource host service true urls cache
    ]

    unfoldable pub stage_loads :
        Fields → List Text → List Text → Project S V N → Cache → Result (Project S V N)
    unfolding staged_bytes load
    stage_loads engines urls [] p cache = ok p
    stage_loads engines urls (service ∷ services) p cache =
        let bytes = staged_bytes engines urls service cache in
        (bytes.1 >>= λ found.
        host.unmarshal found >>= λ m. host.marshal m >>= λ marshalled. load merge marshalled p)
        >>= λ p'. stage_loads engines urls services p' bytes.0

    -- StageServices up to the pull, on a new project. The cache that is left is not part of the result.
    unfoldable pub stage_services :
        Images S → List Text → List Text → Project S V N → Cache → Result (Bool × Project S V N)
    unfolding stage_loads stage_images keys
    stage_services images urls services p cache =
        (elim host.engines [ none ↦ ok end | some file ↦ file >>= λ bytes. host.unmarshal bytes ])
        >>= λ engines. stage_loads engines urls services p cache >>= λ p'.
            ok (stage_images images (keys p'.service_configs) no_clients false p')
