-- ===== src/Project/Start/Fuel.antt =====
-- The fuel of `start` is enough: the recursion of `startService` ends.
use burmilla_os.Base.{
  ℕ, zero, suc, ◌<◌, true, Option, List, [], ◌∷◌, ◌++◌, Text, member, ◌≡◌, ◌≢◌, arith, inl, inr,
  Bool-cases, length, text_eq_refl,
}
use burmilla_os.Project.Start.{
  Relationship, State, Outcome, fine, out_of_fuel, meet_cycle, start_dep, start_deps, start_service,
  start_all, start, initial,
}
use burmilla_os.Project.Start.Names.{
  Grows, and_then_lem, pending, pending-le, pending-lt, pending-le-length,
}
use burmilla_os.Project.Start.Growth.{start_dep-Grows, start_service-Grows}

abbrev Ends : Outcome × State → Type 0
Ends r = r.0 ≢ out_of_fuel

fine_ends : (o : Outcome) → o ≡ fine → o ≢ out_of_fuel
fine_ends o e q = cc

module _ (services : List Text) (dependent_services : Text → List Relationship)
    (selected : List Text) (cycle_action : Text → Option Text) where
  meet_cycle-Ends :
      (history : List Text) (name : Text) (dep : Relationship) (st : State)
      → Ends (meet_cycle services dependent_services selected cycle_action history name dep st)
  unfolding meet_cycle
  meet_cycle-Ends history name dep st = ground arith

  module _ (call : List Text → Text → State → Outcome × State)
      (call-Grows : (history : List Text) (name : Text) (st : State)
        → Grows st (call history name st).1)
      (fuel : ℕ)
      (call_ends : (history : List Text) (name : Text) (st : State)
        → member name services ≡ true
        → pending services st.launched < fuel
        → Ends (call history name st)) where
    start_dep-Ends :
        (history : List Text) (name : Text) (dep : Relationship) (st : State)
        → pending services st.launched < fuel
        → Ends
            (start_dep services dependent_services selected cycle_action call history name dep st)
    unfolding start_dep
    start_dep-Ends history name dep st lt = elim (Bool-cases (member dep.target services)) [
      | inr unknown ↦ rw unknown (λ e. cc)
      | inl known ↦ rw known (elim (Bool-cases (member dep.target history)) [
        | inl met ↦ rw met (meet_cycle-Ends history name dep st)
        | inr new ↦ rw new (call_ends history dep.target st known lt)
      ])
    ]

    start_deps-Ends :
        (history : List Text) (name : Text) (deps : List Relationship) (st : State)
        → pending services st.launched < fuel
        → Ends
            (start_deps services dependent_services selected cycle_action call history name deps st)
    unfolding start_deps
    start_deps-Ends history name [] st lt = λ e. cc
    start_deps-Ends history name (dep ∷ deps) st lt =
        let r =
          start_dep services dependent_services selected cycle_action call history name dep st in
        let g : Grows st r.1 =
          start_dep-Grows services dependent_services selected cycle_action call call-Grows history
            name dep st in
        and_then_lem Ends r _
          (λ e.
            start_deps-Ends history name deps r.1
              (omega (arith, pending-le services st.launched r.1.launched g.launched)))
          (λ _. start_dep-Ends history name dep st lt)

  start_service-Ends :
      (fuel : ℕ) (history : List Text) (name : Text) (st : State)
      → member name services ≡ true
      → pending services st.launched < fuel
      → Ends (start_service services dependent_services selected cycle_action fuel history name st)
  unfolding start_service
  start_service-Ends zero history name st known lt = absurd (omega arith)
  start_service-Ends (suc fuel) history name st known lt =
      elim (Bool-cases (member name st.launched)) [
        | inl old ↦ rw (old, start_service) (λ e. cc)
        | inr new ↦
            rw (new, start_service)
              (let st1 : State = record st { launched = name ∷ st.launched } in
                let call = start_service services dependent_services selected cycle_action fuel in
                and_then_lem Ends
                  (start_deps services dependent_services selected cycle_action call
                    (history ++ name ∷ []) name (dependent_services name) st1)
                  _ (λ e q. cc)
                  (λ _.
                    start_deps-Ends call
                      (start_service-Grows services dependent_services selected cycle_action fuel)
                      fuel (start_service-Ends fuel) (history ++ name ∷ []) name
                      (dependent_services name) st1
                      (omega (arith, pending-lt services st.launched name known new))))
      ]

  start_all-Ends :
      (fuel : ℕ) (names : List Text) (st : State)
      → length services < fuel
      → ((x : Text) → member x names ≡ true → member x services ≡ true)
      → Ends (start_all services dependent_services selected cycle_action fuel names st)
  unfolding start_all
  start_all-Ends fuel [] st lt sub = λ e. cc
  start_all-Ends fuel (name ∷ names) st lt sub =
      and_then_lem Ends
        (start_service services dependent_services selected cycle_action fuel [] name st) _
        (λ e. start_all-Ends fuel names _ lt (λ x h. sub x (unfold member in ground (arith, h))))
        (λ _.
          start_service-Ends fuel [] name st
            (sub name (unfold member in ground (arith, text_eq_refl name)))
            (omega (arith, pending-le-length services st.launched)))

  -- Starting all services of a project ends, whatever their dependencies: the fuel, one unit more
  -- than there are services, never runs out.
  pub start_total : (start services dependent_services selected cycle_action).0 ≢ out_of_fuel
  unfolding start
  start_total = start_all-Ends (suc (length services)) services initial (omega arith) (λ x h. h)
