-- ===== src/Project/Start/Cycles.antt =====
-- Which dependencies a start ignores, and which names it reaches, however it ends.
use burmilla_os.Base.{
  ℕ, zero, suc, true, Option, none, some, List, [], ◌∷◌, ◌++◌, Text, member, All, ◌≡◌, refl, sym,
  ◌∙◌, arith, inl, inr, Bool-cases, length, text_eq, text_eq_refl, text_eq_iff, append_assoc,
}
use mathlib.Core.Path.{subst}
use burmilla_os.Project.Start.{
  Relationship, State, Outcome, Ignored, meet_cycle, start_dep, start_deps, finish, start_service,
  start_all, start, initial,
}
use burmilla_os.Project.Start.Names.{and_then_lem, member-append, member_one}

module _ (dependent_services : Text → List Relationship) where
  -- The relationship is one of the service's.
  abbrev pub Has : Text → Relationship → Type 0
  Has name dep =
      (before : List Relationship) × (after : List Relationship) × (dependent_services name
        ≡ before ++ dep ∷ after)

  -- The second service is among what the first one needs, directly or not, or is the first one.
  pub data Needs (name : Text) : Text → Type 0 where
    itself : Needs name name
    through :
        {middle : Text} (dep : Relationship)
        → Needs name middle
        → Has middle dep
        → Needs name dep.target

  -- The ignored dependency is an optional one of its service, and needs the service in turn, or is the service.
  abbrev pub IsCyclic : Ignored → Type 0
  IsCyclic i =
      (dep : Relationship) × Has i.by dep
      × (dep.target ≡ i.dependency)
      × (dep.optional ≡ true)
      × Needs i.dependency i.by

  module _ (services : List Text) (selected : List Text) (cycle_action : Text → Option Text) where
    -- The ignored dependencies lie on cycles, and the names are those of services.
    abbrev pub IsProper : State → Type 0
    IsProper st =
        All IsCyclic st.ignored × ((x : Text) → member x st.order ≡ true → member x services ≡ true)

    -- Every service of the history needs the one that is met now.
    abbrev LeadsTo : List Text → Text → Type 0
    LeadsTo history name = (x : Text) → member x history ≡ true → Needs x name

    meet_cycle-IsProper :
        (history : List Text) (name : Text) (dep : Relationship) (st : State)
        → Has name dep
        → Needs dep.target name
        → IsProper st
        → IsProper
            (meet_cycle services dependent_services selected cycle_action history name dep st).1
    unfolding meet_cycle
    meet_cycle-IsProper history name dep st has n (i, o) = elim (Bool-cases dep.optional) [
      | inr q ↦ rw (q, meet_cycle) (i, o)
      | inl q ↦ go q (cycle_action dep.target) refl
    ]
      where
        go :
            dep.optional ≡ true
            → (a : Option Text) → cycle_action dep.target ≡ a
            → IsProper
                (meet_cycle services dependent_services selected cycle_action history name dep st).1
        go q none e = rw (q, meet_cycle, e) (((dep, has, refl, q, n), i), o)
        go q (some f) e = rw (q, meet_cycle, e) (((dep, has, refl, q, n), i), o)

    extended :
        (history : List Text) (name : Text)
        → LeadsTo history name
        → LeadsTo (history ++ name ∷ []) name
    extended history name l x h = elim (Bool-cases (member x history)) [
      | inl q ↦ l x q
      | inr q ↦
          let same : text_eq name x ≡ true =
            ground (arith, h, q, member-append x history (name ∷ []), member_one x name) in
          subst (λ y. Needs y name) ((text_eq_iff name x).0 same) itself
    ]

    finish-IsProper :
        (name : Text) (st : State)
        → member name services ≡ true
        → IsProper st
        → IsProper (finish services dependent_services selected cycle_action name st)
    unfolding finish member
    finish-IsProper name st k (i, o) = (
      i,
      λ x h. elim (Bool-cases (text_eq name x)) [
        | inl q ↦ subst (λ y. member y services ≡ true) ((text_eq_iff name x).0 q) k
        | inr q ↦ o x (ground (arith, h, q))
      ],
    )

    module _ (call : List Text → Text → State → Outcome × State)
        (call-IsProper : (history : List Text) (name : Text) (st : State)
          → LeadsTo history name
          → member name services ≡ true
          → IsProper st
          → IsProper (call history name st).1) where
      start_dep-IsProper :
          (history : List Text) (name : Text) (dep : Relationship) (st : State)
          → LeadsTo history name
          → Has name dep
          → IsProper st
          → IsProper
              (start_dep services dependent_services selected cycle_action call history name dep
                st).1
      unfolding start_dep
      start_dep-IsProper history name dep st l has p =
          elim (Bool-cases (member dep.target services)) [
            | inr unknown ↦ rw unknown p
            | inl known ↦ rw known (elim (Bool-cases (member dep.target history)) [
              | inl met ↦ rw met (meet_cycle-IsProper history name dep st has (l dep.target met) p)
              | inr new ↦
                  rw new
                    (call-IsProper history dep.target st (λ x h. through dep (l x h) has) known p)
            ])
          ]

      start_deps-IsProper :
          (history : List Text) (name : Text) (before deps : List Relationship) (st : State)
          → LeadsTo history name
          → dependent_services name ≡ before ++ deps
          → IsProper st
          → IsProper
              (start_deps services dependent_services selected cycle_action call history name deps
                st).1
      unfolding start_deps
      start_deps-IsProper history name before [] st l e p = p
      start_deps-IsProper history name before (dep ∷ deps) st l e p =
          let first = start_dep-IsProper history name dep st l (before, deps, e) p in
          and_then_lem (λ r. IsProper r.1)
            (start_dep services dependent_services selected cycle_action call history name dep st) _
            (λ ok.
              start_deps-IsProper history name (before ++ dep ∷ []) deps _ l
                (e ∙ sym (append_assoc before (dep ∷ []) deps)) first)
            (λ bad. first)

    -- A call of a service keeps both, if the services of the history lead to it.
    start_service-IsProper :
        (fuel : ℕ) (history : List Text) (name : Text) (st : State)
        → LeadsTo history name
        → member name services ≡ true
        → IsProper st
        → IsProper
            (start_service services dependent_services selected cycle_action fuel history name st).1
    unfolding start_service
    start_service-IsProper zero history name st l k p = p
    start_service-IsProper (suc fuel) history name st l k p =
        elim (Bool-cases (member name st.launched)) [
          | inl old ↦ rw (old, start_service) p
          | inr new ↦
              rw (new, start_service)
                (let st1 : State = record st { launched = name ∷ st.launched } in
                  let call = start_service services dependent_services selected cycle_action fuel in
                  let deps =
                    start_deps-IsProper call (start_service-IsProper fuel) (history ++ name ∷ [])
                      name [] (dependent_services name) st1 (extended history name l) refl p in
                  and_then_lem (λ r. IsProper r.1)
                    (start_deps services dependent_services selected cycle_action call
                      (history ++ name ∷ []) name (dependent_services name) st1)
                    _ (λ ok. finish-IsProper name _ k deps) (λ bad. deps))
        ]

    start_all-IsProper :
        (fuel : ℕ) (names : List Text) (st : State)
        → ((x : Text) → member x names ≡ true → member x services ≡ true)
        → IsProper st
        → IsProper (start_all services dependent_services selected cycle_action fuel names st).1
    unfolding start_all
    start_all-IsProper fuel [] st sub p = p
    start_all-IsProper fuel (name ∷ names) st sub p =
        let first =
          start_service-IsProper fuel [] name st (λ x h. unfold member in cc)
            (sub name (unfold member in ground (arith, text_eq_refl name))) p in
        and_then_lem (λ r. IsProper r.1)
          (start_service services dependent_services selected cycle_action fuel [] name st) _
          (λ ok.
            start_all-IsProper fuel names _ (λ x h. sub x (unfold member in ground (arith, h)))
              first)
          (λ bad. first)

    pub start-IsProper : IsProper (start services dependent_services selected cycle_action).1
    unfolding start
    start-IsProper =
        start_all-IsProper (suc (length services)) services initial (λ x h. h)
          (tt, λ x h. unfold member in cc)
