-- ===== src/CoreServices/Reloaded.antt =====
-- What the function that `projectReload` of pkg/compose/reload.go gives does when it is called again.
use burmilla_os.Base.{
  Bool, true, false, not, ◌||◌, Option, none, some, List, [], ◌∷◌, Text, ◌≡◌, refl, ap, ◌∙◌, sym,
  arith, if◌then◌else◌, Bool-cases, inl, inr, All,
}
use burmilla_os.Base.Result.{ok, failed, panicked, out_of_fuel}
use burmilla_os.CoreServices.Maps.{has, IsDistinct}
use burmilla_os.CoreServices.Cache.{Cache}
use burmilla_os.CoreServices.Resources.{Host}
use burmilla_os.CoreServices.Projects.{Project, Merger}
use burmilla_os.CoreServices.Loading.{
  Settings, Outcome, State, load_service, load_console_service, load_engine_service,
}
use burmilla_os.CoreServices.Reload.{
  Enabled, Core, Configuration, add_services, mark, include_services, after_special, load_specials,
  project_reload,
}
use burmilla_os.CoreServices.Known.{Kept, add-Kept, Kept-trans, add_services-known}

-- The enabled services, or else the ones given.
abbrev enabled_of : {A : Type 0} → Enabled → Option (Enabled × A) → Enabled
enabled_of enabled none = enabled
enabled_of enabled (some core) = core.0

-- The included service is loaded, if it is enabled.
abbrev pub IsLoaded : Enabled → Text × Bool → Type 0
IsLoaded enabled (service, on) = (has service enabled || not on) ≡ true

module _ {S V N : Type 0} (hash : Text → S → Text) (host : Host) (merge : Merger S V N) where
  mark-Kept :
      (service : Text) (enabled : Enabled) (loaded : State S V N × Outcome) (core : Core S V N)
      → has service enabled ≡ false
      → mark hash host merge service enabled loaded ≡ some core
      → Kept enabled core.0
  unfolding mark
  mark-Kept service enabled (state, ok done) core f e =
      rw (sym (ap (enabled_of enabled) e)) (add-Kept service service enabled f)
  mark-Kept service enabled (state, failed r) core f e =
      rw (sym (ap (enabled_of enabled) e)) (λ name known. refl)
  mark-Kept service enabled (state, panicked) core f e = absurd (cc (e))
  mark-Kept service enabled (state, out_of_fuel) core f e = absurd (cc (e))

  include_services-Kept :
      (cfg : Settings) (use_network : Bool) (services : List (Text × Bool)) (enabled : Enabled)
      (state : State S V N) (core : Core S V N)
      → include_services hash host merge cfg use_network services (enabled, state) ≡ some core
      → Kept enabled core.0
  unfolding include_services
  include_services-Kept cfg use_network [] enabled state core e =
      rw (sym (ap (enabled_of enabled) e)) (λ name known. refl)
  include_services-Kept cfg use_network ((service, on) ∷ services) enabled state core e =
      go (if has service enabled || not on then some (enabled, state) else marked) refl
        (include_services-Kept cfg use_network services)
    where
      marked : Option (Core S V N)
      marked =
          mark hash host merge service enabled
            (load_service host merge cfg use_network service state)

      go :
          (o : Option (Core S V N))
          → (if has service enabled || not on then some (enabled, state) else marked) ≡ o
          → ((enabled' : Enabled) (state' : State S V N) (core' : Core S V N)
              → include_services hash host merge cfg use_network services (enabled', state')
                ≡ some core'
              → Kept enabled' core'.0)
          → Kept enabled core.0
      go none q rest = let t : none ≡ some core = rw (q, include_services) at e in absurd (cc t)
      go (some (enabled', state')) q rest =
          Kept-trans enabled enabled' core.0
            (elim (Bool-cases (has service enabled || not on)) [
              | inl skips ↦ rw (sym (ap (enabled_of enabled) (rw skips at q))) (λ name known. refl)
              | inr loads ↦
                  mark-Kept service enabled (load_service host merge cfg use_network service state)
                    (enabled', state') (ground (arith, loads)) (rw loads at q)
            ])
            (rest enabled' state' core (rw (q, include_services) at e))

  -- Services that are loaded are not loaded again.
  include_services-IsLoaded :
      (cfg : Settings) (use_network : Bool) (services : List (Text × Bool)) (enabled : Enabled)
      (state : State S V N)
      → All (IsLoaded enabled) services
      → include_services hash host merge cfg use_network services (enabled, state)
        ≡ some (enabled, state)
  unfolding include_services
  include_services-IsLoaded cfg use_network [] enabled state h = refl
  include_services-IsLoaded cfg use_network ((service, on) ∷ services) enabled state (q, h) =
      rw (q, include_services) (include_services-IsLoaded cfg use_network services enabled state h)

  after_special-enabled :
      (enabled : Enabled) (result : State S V N × Outcome) (core : Core S V N)
      → after_special hash host merge enabled result ≡ some core
      → core.0 ≡ enabled
  unfolding after_special
  after_special-enabled enabled (state, ok done) core e = sym (ap (enabled_of enabled) e)
  after_special-enabled enabled (state, failed r) core e = sym (ap (enabled_of enabled) e)
  after_special-enabled enabled (state, panicked) core e = absurd (cc (e))
  after_special-enabled enabled (state, out_of_fuel) core e = absurd (cc (e))

  -- The console and the engine are not among the enabled services.
  load_specials-enabled :
      (empty : S) (cfg : Settings) (load_console : Bool) (enabled : Enabled) (state : State S V N)
      (core : Core S V N)
      → load_specials hash host merge empty cfg load_console (enabled, state) ≡ some core
      → core.0 ≡ enabled
  unfolding load_specials
  load_specials-enabled empty cfg load_console enabled state core e =
      go (if load_console then console else some (enabled, state)) refl
    where
      console : Option (Core S V N)
      console =
          after_special hash host merge enabled (load_console_service host merge empty cfg state)

      go :
          (o : Option (Core S V N))
          → (if load_console then console else some (enabled, state)) ≡ o
          → core.0 ≡ enabled
      go none q = let t : none ≡ some core = rw (q, load_specials) at e in absurd (cc t)
      go (some (enabled', state')) q =
          after_special-enabled enabled' (load_engine_service host merge empty cfg state') core
            (rw (q, load_specials) at e)
          ∙ (elim (Bool-cases load_console) [
            | inl loads ↦
                after_special-enabled enabled (load_console_service host merge empty cfg state)
                  (enabled', state') (rw loads at q)
            | inr skips ↦ sym (ap (enabled_of enabled) (rw skips at q))
          ])

  -- What `addServices` recorded is kept by the rest of the reload.
  project_reload-Kept :
      (empty : S) (use_network load_console : Bool) (cfg : Configuration S) (enabled : Enabled)
      (p : Project S V N) (cache : Cache) (core : Core S V N)
      → project_reload hash host merge empty use_network load_console cfg (enabled, (p, cache))
        ≡ some core
      → Kept (add_services hash cfg.services (enabled, p)).0 core.0
  unfolding project_reload
  project_reload-Kept empty use_network load_console cfg enabled p cache core e =
      go
        (include_services hash host merge cfg.settings use_network cfg.services_include
          (added.0, (added.1, cache)))
        refl
    where
      added : Enabled × Project S V N
      added = add_services hash cfg.services (enabled, p)

      go :
          (o : Option (Core S V N))
          → include_services hash host merge cfg.settings use_network cfg.services_include
              (added.0, (added.1, cache))
            ≡ o
          → Kept added.0 core.0
      go none q = let t : none ≡ some core = rw (q, project_reload) at e in absurd (cc t)
      go (some (enabled', state')) q =
          let kept =
            include_services-Kept cfg.settings use_network cfg.services_include added.0
              (added.1, cache) (enabled', state') q in
          let rest : (if not use_network
                then some (enabled', state')
                else load_specials hash host merge empty cfg.settings load_console
                    (enabled', state'))
              ≡ some core =
            rw (q, project_reload) at e in
          let same : core.0 ≡ enabled' = elim (Bool-cases use_network) [
            | inl online ↦
                load_specials-enabled empty cfg.settings load_console enabled' state' core
                  (rw online at rest)
            | inr offline ↦ sym (ap (enabled_of enabled') (rw offline at rest))
          ] in
          rw same kept

-- A reload with the same configuration, when all the included services that are enabled are loaded,
-- changes nothing if the network is not used, and with the network it does no more than load the
-- console and the engine: no service is added again, and no included service is loaded again, whatever
-- the host answers then. The names of the configured services are distinct.
pub project_reload_again :
    {S V N : Type 0} (hash : Text → S → Text) (merge : Merger S V N) (host later_host : Host)
    (empty : S) (use_network later load_console : Bool) (cfg : Configuration S)
    (core core' : Core S V N)
    → IsDistinct cfg.services
    → project_reload hash host merge empty use_network load_console cfg core ≡ some core'
    → All (IsLoaded core'.0) cfg.services_include
    → project_reload hash later_host merge empty later load_console cfg core' ≡ (
        if not later
        then some core'
        else load_specials hash later_host merge empty cfg.settings load_console core')
unfolding project_reload
project_reload_again hash merge host later_host empty use_network later load_console cfg
      (enabled, (p, cache)) (enabled', (p', cache')) distinct e loaded =
    let known = add_services-known hash cfg.services enabled enabled' p p' distinct (
      project_reload-Kept hash host merge empty use_network load_console cfg enabled p cache
        (enabled', (p', cache')) e) in
    rw
      (
        known,
        include_services-IsLoaded hash later_host merge cfg.settings later cfg.services_include
            enabled' (p', cache') loaded,
        project_reload,
      )
      refl
