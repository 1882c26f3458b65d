-- ===== src/Project/Rounds.antt =====
-- `traverse` of pkg/libcompose/project/project.go: rounds of starting the services and waiting for
-- them, until no service asks for a restart.
pub mod Spent
pub mod Once
mod Examples
use burmilla_os.Base.{
  ℕ, Bool, true, false, not, ◌||◌, ◌==◌, Option, none, some, List, [], ◌∷◌, ◌++◌, Text, text_eq,
  member, if◌then◌else◌,
}
use burmilla_os.Project.Start.{Relationship, Ignored, State, Outcome, fine, start, is_selected}
use burmilla_os.Project.Wrapper.{
  Failure, restart, other, Wrapper, Wrappers, update, reset, new_wrapper, run,
}

-- What happens in a round: the errors of `CreateService`, the dependencies of the services, the cycle
-- action, the schedule of the goroutines with the errors of the actions, and the names that the reload
-- callback leaves in `reload`.
pub record Round : Type 0 where
  pub create : Text → Option Text
  pub dependent_services : Text → List Relationship
  pub cycle_action : Text → Option Text
  pub schedule : List Text
  pub action : Text → Option Failure
  pub reloaded : List Text

-- The map `wrappers` with its keys, their ignored dependencies, and `reload`.
pub record Traversal : Type 0 where
  pub names : List Text
  pub wrappers : Wrappers
  pub ignored : List Ignored
  pub reload : List Text

-- How a traversal returns; `blocked` while a goroutine of the schedule is not over, `unending` when
-- another round would be needed.
pub data Report : Type 0 where
  success : Report
  service_failed : Text → Report
  reset_failed : Text → Report
  no_such_service : Text → Report
  not_started : Outcome → Report
  blocked : Report
  unending : Report

-- The loop over the wrappers that resets them; it stops at an error.
unfoldable pub reset_all : (Text → Option Text) → List Text → Wrappers → Option Text × Wrappers
unfolding reset
reset_all create [] wrappers = (none, wrappers)
reset_all create (name ∷ names) wrappers =
    let r = reset (create name) (wrappers name) in
    elim r.0 [
      | some e ↦ (some e, wrappers)
      | none ↦ reset_all create names (update name r.1 wrappers)
    ]

abbrev pub forget : Text → List Ignored → List Ignored
forget name [] = []
forget name (i ∷ ignored) =
    let rest = forget name ignored in if text_eq i.by name then rest else i ∷ rest

-- wrappers[name] = wrapper
unfoldable pub put_wrapper : Text → Wrapper → Traversal → Traversal
put_wrapper name w t = record t {
  names = if member name t.names then t.names else t.names ++ (name ∷ []);
  wrappers = update name w t.wrappers;
  ignored = forget name t.ignored;
}

-- loadWrappers; `traverse` drops its error.
unfoldable pub load_wrappers : (Text → Option Text) → List Text → Traversal → Traversal
unfolding new_wrapper put_wrapper
load_wrappers create [] t = t
load_wrappers create (name ∷ names) t =
    let w = new_wrapper (create name) in
    elim w.0 [ some e ↦ t | none ↦ load_wrappers create names (put_wrapper name w.1 t) ]

-- The first name that has no wrapper.
unfoldable pub first_missing : List Text → List Text → Option Text
first_missing [] names = none
first_missing (s ∷ selected) names =
    let rest = first_missing selected names in if member s names then rest else some s

-- The loop that waits for the selected wrappers: whether one asks for a restart, and the first other
-- error; `none` if one is not done.
unfoldable pub wait_all :
    (Text → Bool) → List Text → Wrappers → Bool → Option Text → Option (Bool × Option Text)
wait_all selects [] wrappers restarts first = some (restarts, first)
wait_all selects (name ∷ names) wrappers restarts first =
    let skip = wait_all selects names wrappers restarts first in
    let again = wait_all selects names wrappers true first in
    let noted = λ (e : Text).
      wait_all selects names wrappers restarts (elim first [ none ↦ some e | some d ↦ some d ]) in
    if not (selects name)
    then skip
    else if not ((wrappers name).done == 0)
    then none
    else elim (wrappers name).err [ none ↦ skip | some restart ↦ again | some (other e) ↦ noted e ]

pub data Verdict : Type 0 where
  again : Traversal → Verdict
  ended : Report → Verdict

-- `waits` tells that the action is given the wrappers, to wait for its dependencies.
module _ (waits : Bool) (selected : List Text) where
  -- Behind waiting.
  unfoldable pub conclude : Traversal → Option (Bool × Option Text) → Verdict
  conclude t none = ended blocked
  conclude t (some (true, first)) = again t
  conclude t (some (false, none)) = ended success
  conclude t (some (false, some e)) = ended (service_failed e)

  -- The goroutines of the loaded wrappers, as far as `schedule` goes.
  unfoldable pub run_round : Round → Traversal → List Ignored → Wrappers
  unfolding run
  run_round r t ignored =
      run t.names r.dependent_services ignored
        (is_selected t.names r.dependent_services selected r.cycle_action) waits r.action r.schedule
        t.wrappers

  -- Behind startService on every wrapper.
  unfoldable pub finish_round : Round → Traversal → Outcome × State → Verdict
  unfolding conclude run_round wait_all
  finish_round r t (fine, st) =
      let ignored = st.ignored ++ t.ignored in
      let wrappers = run_round r t ignored in
      conclude (record t { wrappers = wrappers; ignored = ignored; reload = r.reloaded })
        (wait_all (is_selected t.names r.dependent_services selected r.cycle_action) t.names
          wrappers false none)
  finish_round r t (outcome, st) = ended (not_started outcome)

  -- Behind the resets.
  unfoldable pub start_round : Round → Traversal → Verdict
  unfolding load_wrappers first_missing finish_round start
  start_round r t =
      let loaded = load_wrappers r.create t.reload t in
      elim (first_missing selected loaded.names) [
        | some s ↦ ended (no_such_service s)
        | none ↦
            finish_round r (record loaded { reload = [] })
              (start loaded.names r.dependent_services selected r.cycle_action)
      ]

  unfoldable pub round : Round → Traversal → Verdict
  unfolding reset_all start_round
  round r t =
      let done = reset_all r.create t.names t.wrappers in
      elim done.0 [
        | some e ↦ ended (reset_failed e)
        | none ↦ start_round r (record t { wrappers = done.1 })
      ]

  -- The first round has no wrappers, so that it resets none, and loads the names of all services.
  unfoldable pub traverse : List Round → Traversal → Report
  unfolding round
  traverse [] t = unending
  traverse (r ∷ rounds) t = elim (round r t) [
    | again t' ↦ traverse rounds t'
    | ended report ↦ report
  ]
