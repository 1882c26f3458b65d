-- ===== src/Project/Wrapper/Examples.antt =====
-- Two services of which one needs the other, and their goroutines.
use burmilla_os.Project.Wrapper.Viewed.{view}
use burmilla_os.Project.Wrapper.Refines.{run-Leads}
use burmilla_os.Project.Wrapper.Plan.{Leads, pending}
use burmilla_os.Base.{
  Bool, true, false, Option, none, List, [], ◌∷◌, Text, codes, member, text_eq, ◌≡◌, ◌≤◌, ◌⊎◌, inl,
  refl, if◌then◌else◌, length,
}
use burmilla_os.Project.Start.{
  Relationship, fine, start, start_dep, start_deps, start_service, start_all, meet_cycle, finish,
}
use burmilla_os.Project.Wrapper.{
  Failure, idle, acting, Wrappers, run, advance, step, launch, wait_for_dep, leave,
}
use burmilla_os.Project.Wrapper.Passed.{all_passed, is_over}
use burmilla_os.Project.Wrapper.Waiting.{run_acting}
use burmilla_os.Project.Wrapper.Progress.{start_never_stuck, CanStep}
use burmilla_os.Project.Wrapper.Ends.{run_ends, IsEffective, most_steps}

abbrev docker : Text
docker = codes "docker"

abbrev network : Text
network = codes "network"

abbrev names : List Text
names = docker ∷ network ∷ []

abbrev needs : Text → List Relationship
needs name = if text_eq name docker then record { target = network; optional = false } ∷ [] else []

abbrev all_selected : Text → Bool
all_selected name = true

abbrev succeeds : Text → Option Failure
succeeds name = none

abbrev fresh : Wrappers
fresh name = record { executed = false; err = none; done = 1; no_wait = false; phase = idle }

-- docker is launched, has to wait, and goes on behind the end of network.
abbrev schedule : List Text
schedule = docker ∷ docker ∷ network ∷ network ∷ network ∷ docker ∷ docker ∷ []

docker_acts : (run names needs [] all_selected true succeeds schedule fresh docker).phase ≡ acting
unfolding run step advance launch wait_for_dep leave text_eq member
docker_acts = refl

run_acting_example :
    all_passed names needs [] all_selected true succeeds docker
      (run names needs [] all_selected true succeeds schedule fresh)
      (needs docker)
    ≡ true
unfolding run step advance launch wait_for_dep leave text_eq member
run_acting_example =
    run_acting names needs [] all_selected true succeeds schedule fresh docker (λ n. (refl, refl))
      refl (inl docker_acts)

started : (start names needs [] (λ n. none)).0 ≡ fine
unfolding start start_service start_all start_deps start_dep meet_cycle finish member text_eq
started = refl

start_never_stuck_example :
    ((name : Text)
      → member name names ≡ true
      → is_over
          (run names needs
            (start names needs [] (λ n. none)).1.ignored
            all_selected
            true
            succeeds
            (docker ∷ [])
            fresh
            name).phase
        ≡ true)
    ⊎ ((name : Text) × (member name names ≡ true)
        × CanStep names needs
            (start names needs [] (λ n. none)).1.ignored
            all_selected
            true
            succeeds
            (run names needs
              (start names needs [] (λ n. none)).1.ignored
              all_selected
              true
              succeeds
              (docker ∷ [])
              fresh)
            name)
start_never_stuck_example =
    start_never_stuck names needs [] (λ n. none) all_selected true succeeds fresh (docker ∷ [])
      started (λ n. (refl, refl))

effective :
    IsEffective names needs [] all_selected true succeeds (docker ∷ network ∷ network ∷ []) fresh
unfolding run step advance launch wait_for_dep leave text_eq member
effective = (refl, (λ e. cc), (refl, (λ e. cc), (refl, (λ e. cc), tt)))

run_ends_example :
    length (docker ∷ network ∷ network ∷ [])
    ≤ most_steps names needs [] all_selected true succeeds names
run_ends_example =
    run_ends names needs [] all_selected true succeeds (docker ∷ network ∷ network ∷ []) fresh
      (λ n. (refl, refl)) effective

run-Leads_example :
    Leads names needs []
      (λ n. true)
      (λ n. pending)
      (view (run names needs [] all_selected true succeeds schedule fresh))
run-Leads_example =
    run-Leads names needs [] all_selected true succeeds schedule fresh (λ n. (refl, refl))
