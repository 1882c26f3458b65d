-- ===== src/Project/Wrapper.antt =====
-- pkg/libcompose/project/service-wrapper.go: the goroutines that run the actions of the services, as
-- steps on a shared state. A schedule is the list of the services whose goroutines make a step.
pub mod Passed
pub mod Stepping
pub mod Waiting
pub mod Progress
pub mod Ends
pub mod Plan
pub mod Viewed
pub mod Refines
mod Examples
use burmilla_os.Base.{
  ℕ, zero, suc, ◌-◌, ◌==◌, Bool, true, false, not, ◌&&◌, ◌||◌, Option, none, some, List, [], ◌∷◌,
  Text, text_eq, member, if◌then◌else◌,
}
use burmilla_os.Project.Start.{Relationship, Ignored}
use burmilla_os.Project.Start.Names.{is_ignored}

-- ErrRestart, or any other error.
pub data Failure : Type 0 where
  restart : Failure
  other : Text → Failure

-- Where the goroutine of a wrapper is: not begun, in `waitForDeps` before the dependencies that are
-- left, in the action, or behind `done.Done()`, with or without having run the action.
pub data Phase : Type 0 where
  idle : Phase
  waiting : List Relationship → Phase
  acting : Phase
  over : Bool → Phase

-- The fields of `serviceWrapper`: `executed` is the state StateExecuted and `done` the counter of the
-- wait group.
pub record Wrapper : Type 0 where
  pub executed : Bool
  pub err : Option Failure
  pub done : ℕ
  pub no_wait : Bool
  pub phase : Phase

abbrev pub Wrappers : Type 0
Wrappers = Text → Wrapper

abbrev pub update : Text → Wrapper → Wrappers → Wrappers
update name w wrappers n = if text_eq name n then w else wrappers n

abbrev pub is_restart : Option Failure → Bool
is_restart (some restart) = true
is_restart err = false

-- The end of a method whose first line is `defer s.done.Done()`.
unfoldable pub leave : Bool → Wrapper → Wrapper
leave acted w = record w { done = w.done - 1; phase = over acted }

-- Reset, with the error of `CreateService` if it has one.
unfoldable pub reset : Option Text → Wrapper → Option Text × Wrapper
reset create w =
    let clean : Wrapper = record w {
      err = if is_restart w.err then none else w.err;
      done = suc w.done;
      phase = idle;
    } in
    if w.executed
    then (none, clean)
    else elim create [ some e ↦ (some e, w) | none ↦ (none, clean) ]

abbrev pub unknown : Wrapper
unknown = record { executed = false; err = none; done = 0; no_wait = false; phase = over false }

-- newServiceWrapper
unfoldable pub new_wrapper : Option Text → Option Text × Wrapper
unfolding reset
new_wrapper create = reset create unknown

unfoldable pub ignore : Wrapper → Wrapper
unfolding leave
ignore w = leave false (record w { executed = true })

-- `services` are the names of the map of wrappers; `waits` tells that `Do` was given the map, and
-- `action` is the error of each service's action.
module _ (services : List Text) (dependent_services : Text → List Relationship)
    (ignored : List Ignored) (is_selected : Text → Bool) (waits : Bool)
    (action : Text → Option Failure) where
  -- Do, up to its first wait; a wrapper that is not selected is ignored in its place.
  unfoldable pub launch : Text → Wrapper → Wrapper
  unfolding leave ignore
  launch name w =
      if not (is_selected name) then ignore w else if w.executed then leave false w else record w {
        phase = if waits && not w.no_wait then waiting (dependent_services name) else acting;
        executed = not (waits && not w.no_wait);
      }

  -- One dependency of `waitForDeps`; `none` while its wrapper is not done.
  unfoldable pub wait_for_dep : Text → Relationship → List Relationship → Wrappers → Option Wrapper
  unfolding leave
  wait_for_dep name dep deps wrappers =
      let w = wrappers name in
      let target = wrappers dep.target in
      let passed : Wrapper = record w { phase = waiting deps } in
      if is_ignored name dep.target ignored || not (member dep.target services)
      then some passed
      else if not (target.done == 0)
      then none
      else if is_restart target.err
      then some (leave false (record w { err = some restart }))
      else some passed

  -- A step of a goroutine, if it can make one.
  unfoldable pub advance : Text → Wrappers → Option Wrapper
  unfolding launch wait_for_dep leave
  advance name wrappers = elim (wrappers name).phase [
    | idle ↦ some (launch name (wrappers name))
    | waiting [] ↦ some (record (wrappers name) { phase = acting; executed = true })
    | waiting (dep ∷ deps) ↦ wait_for_dep name dep deps wrappers
    | acting ↦ some (leave true (record (wrappers name) { err = action name }))
    | over acted ↦ none
  ]

  unfoldable pub step : Text → Wrappers → Wrappers
  unfolding advance
  step name wrappers = elim (advance name wrappers) [
    | none ↦ wrappers
    | some w ↦ update name w wrappers
  ]

  unfoldable pub run : List Text → Wrappers → Wrappers
  unfolding step
  run [] wrappers = wrappers
  run (name ∷ schedule) wrappers = run schedule (step name wrappers)
