-- ===== src/Project/Start/Examples.antt =====
-- A project of three services with a cycle that may be ignored.
use burmilla_os.Base.{
  All, true, List, [], ◌∷◌, Text, codes, member, ◌≡◌, ◌≢◌, refl, Option, none, text_eq,
  if◌then◌else◌, false,
}
use burmilla_os.Project.Start.{
  Relationship, fine, cycle_detected, out_of_fuel, start, start_dep, start_deps, start_service,
  start_all, meet_cycle, finish,
}
use burmilla_os.Project.Start.Order.{is_distinct, is_ordered}
use burmilla_os.Project.Start.Cycles.{IsCyclic}
use burmilla_os.Project.Start.Sound.{start_sound}
use burmilla_os.Project.Start.Fuel.{start_total}

abbrev names : List Text
names = codes "docker" ∷ codes "network" ∷ codes "syslog" ∷ []

-- docker needs network, network needs syslog, and syslog may do without docker.
abbrev needs : Text → List Relationship
needs name =
    if text_eq name (codes "docker")
    then record { target = codes "network"; optional = false } ∷ []
    else if text_eq name (codes "network")
    then record { target = codes "syslog"; optional = false } ∷ []
    else record { target = codes "docker"; optional = true } ∷ []

-- The same with a cycle that may not be ignored.
abbrev needs_all : Text → List Relationship
needs_all name =
    if text_eq name (codes "docker")
    then record { target = codes "network"; optional = false } ∷ []
    else record { target = codes "docker"; optional = false } ∷ []

abbrev no_action : Text → Option Text
no_action name = none

started : (start names needs [] no_action).0 ≡ fine
unfolding start start_service start_all start_deps start_dep meet_cycle finish member text_eq
started = refl

cycle :
    (start names needs_all [] no_action).0
    ≡ cycle_detected (codes "docker" ∷ codes "network" ∷ codes "docker" ∷ [])
unfolding start start_service start_all start_deps start_dep meet_cycle finish member text_eq
cycle = refl

start_sound_example :
    (is_distinct (start names needs [] no_action).1.order ≡ true)
    × ((x : Text) → member x (start names needs [] no_action).1.order ≡ member x names)
    × (is_ordered names needs
          (start names needs [] no_action).1.ignored
          (start names needs [] no_action).1.order
        ≡ true)
    × All (IsCyclic needs) (start names needs [] no_action).1.ignored
start_sound_example = start_sound names needs [] no_action started

start_total_example : (start names needs_all [] no_action).0 ≢ out_of_fuel
start_total_example = start_total names needs_all [] no_action
