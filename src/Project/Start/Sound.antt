-- ===== src/Project/Start/Sound.antt =====
-- What a successful start gives: every service once, and each behind its dependencies.
use mathlib.Core.Path.{subst}
use burmilla_os.Base.{
  All, Bool, false, sym, ℕ, zero, suc, true, Option, List, [], ◌∷◌, ◌++◌, Text, member, ◌≡◌, refl,
  arith, inl, inr, Bool-cases, length, text_eq, text_eq_refl, text_eq_iff,
}
use burmilla_os.Project.Start.{
  Relationship, State, Outcome, fine, meet_cycle, start_dep, start_deps, finish, start_service,
  start_all, start, initial,
}
use burmilla_os.Project.Start.Names.{Grows, Grows-refl, Grows-trans, and_then_lem}
use burmilla_os.Project.Start.Cycles.{IsCyclic, start-IsProper}
use burmilla_os.Project.Start.Growth.{start_deps-Grows, start_service-Grows}
use burmilla_os.Project.Start.Order.{
  is_distinct, is_settled, all_settled, is_ordered, settled_mono, IsValid, ignore-IsValid,
  launch-IsValid, finish-IsValid,
}

bool_ext : (a b : Bool) → (a ≡ true → b ≡ true) → (b ≡ true → a ≡ true) → a ≡ b
bool_ext true b f g = sym (f refl)
bool_ext false true f g = g refl
bool_ext false false f g = refl

module _ (services : List Text) (dependent_services : Text → List Relationship)
    (selected : List Text) (cycle_action : Text → Option Text) where
  abbrev Valid : List Text → State → Type 0
  Valid = IsValid services dependent_services

  abbrev ServiceDone : List Text → Text → Outcome × State → Type 0
  ServiceDone history name r = r.0 ≡ fine → Valid history r.1 × (member name r.1.launched ≡ true)

  abbrev DepDone : List Text → Text → Relationship → Outcome × State → Type 0
  DepDone history name dep r =
      r.0 ≡ fine
      → Valid history r.1
        × (is_settled services dependent_services name r.1.order r.1.ignored dep ≡ true)

  abbrev DepsDone : List Text → Text → List Relationship → Outcome × State → Type 0
  DepsDone history name deps r =
      r.0 ≡ fine
      → Valid history r.1
        × (all_settled services dependent_services name r.1.order r.1.ignored deps ≡ true)

  abbrev ignoring : Text → Relationship → State → State
  ignoring name dep st = record st {
    ignored = record { by = name; dependency = dep.target } ∷ st.ignored;
  }

  meet_cycle_state :
      (history : List Text) (name : Text) (dep : Relationship) (st : State)
      → (meet_cycle services dependent_services selected cycle_action history name dep st).0 ≡ fine
      → (meet_cycle services dependent_services selected cycle_action history name dep st).1
        ≡ ignoring name dep st
  unfolding meet_cycle
  meet_cycle_state history name dep st e = ground arith

  meet_cycle_done :
      (history : List Text) (name : Text) (dep : Relationship) (st : State)
      → Valid history st
      → DepDone history name dep
          (meet_cycle services dependent_services selected cycle_action history name dep st)
  meet_cycle_done history name dep st v e = rw (meet_cycle_state history name dep st e) (
    ignore-IsValid services dependent_services history st
        (record { by = name; dependency = dep.target }) v,
    ground (arith, text_eq_refl name, text_eq_refl dep.target),
  )

  module _ (call : List Text → Text → State → Outcome × State)
      (call-Grows : (history : List Text) (name : Text) (st : State)
        → Grows st (call history name st).1)
      (call_done : (history : List Text) (name : Text) (st : State)
        → Valid history st
        → ServiceDone history name (call history name st)) where
    start_dep_done :
        (history : List Text) (name : Text) (dep : Relationship) (st : State)
        → Valid history st
        → DepDone history name dep
            (start_dep services dependent_services selected cycle_action call history name dep st)
    unfolding start_dep
    start_dep_done history name dep st v = elim (Bool-cases (member dep.target services)) [
      | inr unknown ↦ rw unknown (λ e. (v, ground arith))
      | inl known ↦ rw known (elim (Bool-cases (member dep.target history)) [
        | inl met ↦
            rw met
              (λ e. let (a, b) = meet_cycle_done history name dep st v e in (a, ground (arith, b)))
        | inr new ↦ rw new (λ e.
            let (v', l) = call_done history dep.target st v e in
            (v', ground (arith, v'.covered dep.target l)))
      ])
    ]

    start_deps_done :
        (history : List Text) (name : Text) (deps : List Relationship) (st : State)
        → Valid history st
        → DepsDone history name deps
            (start_deps services dependent_services selected cycle_action call history name deps st)
    unfolding start_deps
    start_deps_done history name [] st v = λ e. (v, refl)
    start_deps_done history name (dep ∷ deps) st v =
        let r =
          start_dep services dependent_services selected cycle_action call history name dep st in
        and_then_lem (DepsDone history name (dep ∷ deps)) r _
          (λ ok1 ok2.
            let (v1, s1) = start_dep_done history name dep st v ok1 in
            let (v2, s2) = start_deps_done history name deps r.1 v1 ok2 in
            let g : Grows r.1
                (start_deps services dependent_services selected cycle_action call history name deps
                  r.1).1 =
              start_deps-Grows services dependent_services selected cycle_action call call-Grows
                history name deps r.1 in
            (
              v2,
              ground (
                arith,
                s2,
                settled_mono services dependent_services name r.1
                    (start_deps services dependent_services selected cycle_action call history name
                      deps r.1).1
                    dep g s1,
              ),
            ))
          (λ bad e. absurd (bad e))

  launched_self : (name : Text) (st : State) → member name (name ∷ st.launched) ≡ true
  unfolding member
  launched_self name st = ground (arith, text_eq_refl name)

  finish_launched :
      (name : Text) (st : State)
      → member name st.launched ≡ true
      → member name (finish services dependent_services selected cycle_action name st).launched
        ≡ true
  unfolding finish
  finish_launched name st h = h

  start_service_done :
      (fuel : ℕ) (history : List Text) (name : Text) (st : State)
      → Valid history st
      → ServiceDone history name
          (start_service services dependent_services selected cycle_action fuel history name st)
  unfolding start_service
  start_service_done zero history name st v = λ e. cc
  start_service_done (suc fuel) history name st v = elim (Bool-cases (member name st.launched)) [
    | inl old ↦ rw (old, start_service) (λ e. (v, old))
    | inr new ↦
        rw (new, start_service)
          (let st1 : State = record st { launched = name ∷ st.launched } in
            let call = start_service services dependent_services selected cycle_action fuel in
            let r =
              start_deps services dependent_services selected cycle_action call
                (history ++ name ∷ []) name (dependent_services name) st1 in
            and_then_lem (ServiceDone history name) r _
              (λ ok1 ok2.
                let (v1, s1) =
                  start_deps_done call
                    (start_service-Grows services dependent_services selected cycle_action fuel)
                    (start_service_done fuel) (history ++ name ∷ []) name (dependent_services name)
                    st1 (launch-IsValid services dependent_services history name st v new) ok1 in
                let g : Grows st1 r.1 =
                  start_deps-Grows services dependent_services selected cycle_action call
                    (start_service-Grows services dependent_services selected cycle_action fuel)
                    (history ++ name ∷ []) name (dependent_services name) st1 in
                (
                  finish-IsValid services dependent_services selected cycle_action history name r.1
                      (ground (arith, v.marked name)) v1 s1,
                  finish_launched name r.1 (g.launched name (launched_self name st)),
                ))
              (λ bad e. absurd (bad e)))
  ]

  AllLaunched : List Text → State → Type 0
  AllLaunched names st = (x : Text) → member x names ≡ true → member x st.launched ≡ true

  start_all_done :
      (fuel : ℕ) (names : List Text) (st : State)
      → Valid [] st
      → (start_all services dependent_services selected cycle_action fuel names st).0 ≡ fine
      → Valid [] (start_all services dependent_services selected cycle_action fuel names st).1
        × Grows st (start_all services dependent_services selected cycle_action fuel names st).1
        × AllLaunched names
            (start_all services dependent_services selected cycle_action fuel names st).1
  unfolding start_all AllLaunched member
  start_all_done fuel [] st v = λ e. (v, Grows-refl st, λ x h. cc)
  start_all_done fuel (name ∷ names) st v =
      let r = start_service services dependent_services selected cycle_action fuel [] name st in
      and_then_lem (λ q. q.0 ≡ fine → Valid [] q.1 × Grows st q.1 × AllLaunched (name ∷ names) q.1)
        r _
        (λ ok1 ok2.
          let (v1, l1) = start_service_done fuel [] name st v ok1 in
          let (v2, g2, l2) = start_all_done fuel names r.1 v1 ok2 in
          (
            v2,
            Grows-trans
                (start_service-Grows services dependent_services selected cycle_action fuel [] name
                  st)
                g2,
            λ x h. elim (Bool-cases (text_eq name x)) [
              | inl e ↦
                  subst
                    (λ y.
                      member y
                        (start_all services dependent_services selected cycle_action fuel names
                          r.1).1.launched
                      ≡ true)
                    ((text_eq_iff name x).0 e) (g2.launched name l1)
              | inr e ↦ l2 x (ground (arith, h))
            ],
          ))
        (λ bad e. absurd (bad e))

  initial-IsValid : Valid [] initial
  unfolding member
  initial-IsValid = record {
    covered = λ x h. cc;
    marked = λ x h. cc;
    apart = λ x h. refl;
    ordered = refl;
    distinct = refl;
  }

  -- If all services of a project are started with no error, then the calls of `startService` end
  -- once for each service and for no other name, and each ends behind those of all its dependencies
  -- but the ones that are not in the project and the ones that are ignored. Every ignored dependency is
  -- an optional one of its service, and needs that service in turn, directly or through others, or is that service.
  pub start_sound :
      (start services dependent_services selected cycle_action).0 ≡ fine
      → (is_distinct (start services dependent_services selected cycle_action).1.order ≡ true)
        × ((x : Text)
            → member x (start services dependent_services selected cycle_action).1.order
              ≡ member x services)
        × (is_ordered services dependent_services
              (start services dependent_services selected cycle_action).1.ignored
              (start services dependent_services selected cycle_action).1.order
            ≡ true)
        × All
            (IsCyclic dependent_services)
            (start services dependent_services selected cycle_action).1.ignored
  unfolding start AllLaunched member
  start_sound e =
      let (v, g, l) = start_all_done (suc (length services)) services initial initial-IsValid e in
      let (cyclic, known) = start-IsProper dependent_services services selected cycle_action in
      (
        v.distinct,
        λ x. bool_ext _ _ (known x) (λ h. ground (arith, v.covered x (l x h))),
        v.ordered,
        cyclic,
      )
