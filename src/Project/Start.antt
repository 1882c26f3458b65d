-- ===== src/Project/Start.antt =====
-- `startService` of pkg/libcompose/project/project.go and the loop of `traverse` that calls it. What
-- other parts decide is a parameter: the names in `wrappers`, each service's dependencies, the
-- services that are selected (none given selects all), and the cycle action with its error. The
-- shared variables that the calls change are the state.
pub mod Names
pub mod Growth
pub mod Fuel
pub mod Order
pub mod Cycles
pub mod Sound
mod Examples
use burmilla_os.Base.{
  ℕ, zero, suc, Bool, true, false, not, ◌||◌, Option, none, some, List, [], ◌∷◌, ◌++◌, Text,
  text_eq, member, length, if◌then◌else◌, ◌&&◌,
}

pub record Relationship : Type 0 where
  pub target : Text
  pub optional : Bool

-- An entry of a wrapper's `ignored` map: the wrapper's name and the dependency.
pub record Ignored : Type 0 where
  pub by : Text
  pub dependency : Text

-- `launched`; the services whose call has come to its end, the latest first; those of them whose
-- action was launched; and the ignored dependencies.
pub record State : Type 0 where
  pub launched : List Text
  pub order : List Text
  pub actions : List Text
  pub ignored : List Ignored

-- A nil error, the two errors of the source, and fuel that ran out.
pub data Outcome : Type 0 where
  fine : Outcome
  cycle_detected : List Text → Outcome
  cycle_action_failed : Text → Outcome
  out_of_fuel : Outcome

-- `if err != nil { return err }` between two parts.
abbrev pub and_then : Outcome × State → (State → Outcome × State) → Outcome × State
and_then (fine, st) rest = rest st
and_then (cycle_detected path, st) rest = (cycle_detected path, st)
and_then (cycle_action_failed e, st) rest = (cycle_action_failed e, st)
and_then (out_of_fuel, st) rest = (out_of_fuel, st)

abbrev pub initial : State
initial = record { launched = []; order = []; actions = []; ignored = [] }

module _ (services : List Text) (dependent_services : Text → List Relationship)
    (selected : List Text) (cycle_action : Text → Option Text) where
  -- The branch for a dependency that is in the history. A `cycle_action` of `none` is no error.
  unfoldable pub meet_cycle : List Text → Text → Relationship → State → Outcome × State
  meet_cycle history name dep st =
      let st' : State = record st {
        ignored = record { by = name; dependency = dep.target } ∷ st.ignored;
      } in
      if dep.optional
      then (elim (cycle_action dep.target) [
        | none ↦ (fine, st')
        | some e ↦ (cycle_action_failed e, st')
      ])
      else (cycle_detected (history ++ dep.target ∷ []), st)

  -- One round of the loop over the dependencies. The first argument is the recursive call.
  unfoldable pub start_dep :
      (List Text → Text → State → Outcome × State)
      → List Text
      → Text
      → Relationship
      → State
      → Outcome × State
  start_dep start history name dep st =
      if not (member dep.target services)
      then (fine, st)
      else if member dep.target history
      then meet_cycle history name dep st
      else start history dep.target st

  unfoldable pub start_deps :
      (List Text → Text → State → Outcome × State)
      → List Text
      → Text
      → List Relationship
      → State
      → Outcome × State
  start_deps start history name [] st = (fine, st)
  start_deps start history name (dep ∷ deps) st =
      and_then (start_dep start history name dep st) (λ st'. start_deps start history name deps st')

  abbrev pub is_selected : Text → Bool
  is_selected name = elim selected [ [] ↦ true | s ∷ rest ↦ member name (s ∷ rest) ]

  -- The end of a call: the action is launched, or the wrapper is ignored.
  unfoldable pub finish : Text → State → State
  finish name st = record st {
    order = name ∷ st.order;
    actions = if is_selected name then name ∷ st.actions else st.actions;
  }

  unfoldable pub start_service : ℕ → List Text → Text → State → Outcome × State
  start_service zero history name st = (out_of_fuel, st)
  start_service (suc fuel) history name st = elim (member name st.launched) [
    | true ↦ (fine, st)
    | false ↦
        and_then
          (start_deps (start_service fuel) (history ++ name ∷ []) name (dependent_services name)
            (record st { launched = name ∷ st.launched }))
          (λ st'. (fine, finish name st'))
  ]

  -- The loop of `traverse` over the wrappers, in the order of the list.
  unfoldable pub start_all : ℕ → List Text → State → Outcome × State
  start_all fuel [] st = (fine, st)
  start_all fuel (name ∷ names) st =
      and_then (start_service fuel [] name st) (λ st'. start_all fuel names st')

  -- One unit of fuel for each service and one more.
  unfoldable pub start : Outcome × State
  start = start_all (suc (length services)) services initial
