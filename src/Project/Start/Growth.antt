-- ===== src/Project/Start/Growth.antt =====
-- A call of `startService` forgets nothing, however it ends.
use burmilla_os.Base.{
  ℕ, zero, suc, Option, List, [], ◌∷◌, ◌++◌, Text, member, arith, inl, inr, Bool-cases,
}
use burmilla_os.Project.Start.{
  Relationship, State, Outcome, meet_cycle, start_dep, start_deps, finish, start_service,
}
use burmilla_os.Project.Start.Names.{Grows, Grows-refl, Grows-trans, and_then_lem}

module _ (services : List Text) (dependent_services : Text → List Relationship)
    (selected : List Text) (cycle_action : Text → Option Text) where
  meet_cycle-Grows :
      (history : List Text) (name : Text) (dep : Relationship) (st : State)
      → Grows st
          (meet_cycle services dependent_services selected cycle_action history name dep st).1
  unfolding meet_cycle
  meet_cycle-Grows history name dep st = record {
    launched = λ x h. ground arith;
    order = λ x h. ground arith;
    ignored = λ x y h. ground arith;
  }

  finish-Grows :
      (name : Text) (st : State)
      → Grows st (finish services dependent_services selected cycle_action name st)
  unfolding finish member
  finish-Grows name st = record {
    launched = λ x h. h;
    order = λ x h. ground arith;
    ignored = λ x y h. h;
  }

  launch-Grows : (name : Text) (st : State) → Grows st (record st { launched = name ∷ st.launched })
  unfolding member
  launch-Grows name st = record {
    launched = λ x h. ground arith;
    order = λ x h. h;
    ignored = λ x y h. h;
  }

  module _ (call : List Text → Text → State → Outcome × State)
      (call-Grows : (history : List Text) (name : Text) (st : State)
        → Grows st (call history name st).1) where
    pub start_dep-Grows :
        (history : List Text) (name : Text) (dep : Relationship) (st : State)
        → Grows st
            (start_dep services dependent_services selected cycle_action call history name dep st).1
    unfolding start_dep
    start_dep-Grows history name dep st = elim (Bool-cases (member dep.target services)) [
      | inr unknown ↦ rw unknown (Grows-refl st)
      | inl known ↦ rw known (elim (Bool-cases (member dep.target history)) [
        | inl met ↦ rw met (meet_cycle-Grows history name dep st)
        | inr new ↦ rw new (call-Grows history dep.target st)
      ])
    ]

    pub start_deps-Grows :
        (history : List Text) (name : Text) (deps : List Relationship) (st : State)
        → Grows st
            (start_deps services dependent_services selected cycle_action call history name deps
              st).1
    unfolding start_deps
    start_deps-Grows history name [] st = Grows-refl st
    start_deps-Grows history name (dep ∷ deps) st =
        and_then_lem (λ r. Grows st r.1)
          (start_dep services dependent_services selected cycle_action call history name dep st) _
          (λ e.
            Grows-trans (start_dep-Grows history name dep st)
              (start_deps-Grows history name deps _))
          (λ _. start_dep-Grows history name dep st)

  pub start_service-Grows :
      (fuel : ℕ) (history : List Text) (name : Text) (st : State)
      → Grows st
          (start_service services dependent_services selected cycle_action fuel history name st).1
  unfolding start_service
  start_service-Grows zero history name st = Grows-refl st
  start_service-Grows (suc fuel) history name st = elim (Bool-cases (member name st.launched)) [
    | inl old ↦ rw (old, start_service) (Grows-refl st)
    | inr new ↦
        rw (new, start_service)
          (let st1 : State = record st { launched = name ∷ st.launched } in
            let g = Grows-trans (launch-Grows name st) (
              start_deps-Grows
                (start_service services dependent_services selected cycle_action fuel)
                (start_service-Grows fuel) (history ++ name ∷ []) name (dependent_services name)
                st1) in
            and_then_lem (λ r. Grows st r.1)
              (start_deps services dependent_services selected cycle_action
                (start_service services dependent_services selected cycle_action fuel)
                (history ++ name ∷ []) name (dependent_services name) st1)
              _ (λ e. Grows-trans g (finish-Grows name _)) (λ _. g))
  ]
