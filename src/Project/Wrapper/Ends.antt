-- ===== src/Project/Wrapper/Ends.antt =====
-- The goroutines come to an end: the steps that a round of them can make are bounded.
use mathlib.Core.Path.{subst}
use burmilla_os.Base.{
  ℕ, suc, ◌+◌, ◌<◌, ◌≤◌, ◌==◌, Bool, true, false, not, ◌&&◌, ◌||◌, Option, none, some, List, [],
  ◌∷◌, Text, text_eq, text_eq_iff, text_eq_refl, member, length, if◌then◌else◌, Bool-cases, inl,
  inr, ◌≡◌, refl, ap, arith,
}
use burmilla_os.Project.Start.{Relationship, Ignored}
use burmilla_os.Project.Start.Names.{is_ignored}
use burmilla_os.Project.Wrapper.{
  Failure, Phase, idle, waiting, acting, over, Wrapper, Wrappers, update, is_restart, advance,
  wait_for_dep, launch, leave, ignore, step, run,
}
use burmilla_os.Project.Wrapper.Stepping.{IsFresh}
use burmilla_os.Project.Wrapper.Progress.{CanStep}

module _ (services : List Text) (dependent_services : Text → List Relationship)
    (ignored : List Ignored) (is_selected : Text → Bool) (waits : Bool)
    (action : Text → Option Failure) where
  -- The steps that a goroutine has left at most.
  abbrev pub left : Text → Phase → ℕ
  left name idle = 3 + length (dependent_services name)
  left name (waiting deps) = 2 + length deps
  left name acting = 1
  left name (over acted) = 0

  abbrev pub left_in : Wrappers → List Text → ℕ
  left_in wrappers [] = 0
  left_in wrappers (n ∷ names) = left n (wrappers n).phase + left_in wrappers names

  -- Every step of the schedule is one that a goroutine of a service can make.
  abbrev pub IsEffective : List Text → Wrappers → Type 0
  IsEffective [] wrappers = Unit
  IsEffective (name ∷ schedule) wrappers =
      (member name services ≡ true)
      × CanStep services dependent_services ignored is_selected waits action wrappers name
      × IsEffective schedule
          (step services dependent_services ignored is_selected waits action name wrappers)

  lighter_of :
      {v w : Wrapper} (name : Text) (n : ℕ)
      → some v ≡ some w
      → left name v.phase < n
      → left name w.phase < n
  lighter_of {v = v} {w = w} name n e h =
      let q : v ≡ w = ground arith in subst (λ x. left name x.phase < n) q h

  launch_lighter :
      (name : Text) (w : Wrapper)
      → left name (launch services dependent_services ignored is_selected waits action name w).phase
        < left name idle
  unfolding launch ignore leave
  launch_lighter name w = elim (Bool-cases (is_selected name)) [
    | inr q ↦ rw (q, launch) (omega arith)
    | inl q ↦ elim (Bool-cases w.executed) [
      | inl e ↦ rw (q, e, launch) (omega arith)
      | inr e ↦ elim (Bool-cases (waits && not w.no_wait)) [
        | inl f ↦ rw (q, e, f, launch) (omega arith)
        | inr f ↦ rw (q, e, f, launch) (omega arith)
      ]
    ]
  ]

  wait_lighter :
      (name : Text) (dep : Relationship) (deps : List Relationship) (wrappers : Wrappers)
      (w : Wrapper)
      → wait_for_dep services dependent_services ignored is_selected waits action name dep deps
          wrappers
        ≡ some w
      → left name w.phase < left name (waiting (dep ∷ deps))
  unfolding wait_for_dep leave
  wait_lighter name dep deps wrappers w e =
      elim (Bool-cases (is_ignored name dep.target ignored || not (member dep.target services))) [
        | inl q ↦ lighter_of name (2 + suc (length deps)) (rw (q, wait_for_dep) at e) (omega arith)
        | inr q ↦ elim (Bool-cases ((wrappers dep.target).done == 0)) [
          | inr f ↦ cc (rw (q, f, wait_for_dep) at e)
          | inl f ↦ elim (Bool-cases (is_restart (wrappers dep.target).err)) [
            | inl g ↦
                lighter_of name (2 + suc (length deps)) (rw (q, f, g, wait_for_dep) at e)
                  (omega arith)
            | inr g ↦
                lighter_of name (2 + suc (length deps)) (rw (q, f, g, wait_for_dep) at e)
                  (omega arith)
          ]
        ]
      ]

  advance_lighter :
      (name : Text) (wrappers : Wrappers) (w : Wrapper)
      → advance services dependent_services ignored is_selected waits action name wrappers ≡ some w
      → left name w.phase < left name (wrappers name).phase
  unfolding advance leave
  advance_lighter name wrappers w e = go (wrappers name).phase refl
    where
      go : (p : Phase) → (wrappers name).phase ≡ p → left name w.phase < left name p
      go idle q =
          lighter_of name (left name idle) (rw (q, advance) at e)
            (launch_lighter name (wrappers name))
      go (waiting []) q = lighter_of name 2 (rw (q, advance) at e) (omega arith)
      go (waiting (dep ∷ deps)) q = wait_lighter name dep deps wrappers w (rw (q, advance) at e)
      go acting q = lighter_of name 1 (rw (q, advance) at e) (omega arith)
      go (over acted) q = cc (rw (q, advance) at e)

  add_steps :
      (a a' l l' : ℕ) (b m : Bool)
      → a' + (if b then 1 else 0) ≤ a
      → l' + (if m then 1 else 0) ≤ l
      → a' + l' + (if b || m then 1 else 0) ≤ a + l
  add_steps a a' l l' true true h k = omega arith
  add_steps a a' l l' true false h k = omega arith
  add_steps a a' l l' false true h k = omega arith
  add_steps a a' l l' false false h k = omega arith

  left-update :
      (name n : Text) (w : Wrapper) (wrappers : Wrappers)
      → left name w.phase < left name (wrappers name).phase
      → left n (update name w wrappers n).phase + (if text_eq n name then 1 else 0)
        ≤ left n (wrappers n).phase
  left-update name n w wrappers h = elim (Bool-cases (text_eq name n)) [
    | inl q ↦
        let p : name ≡ n = (text_eq_iff name n).0 q in
        let k : left n w.phase < left n (wrappers n).phase =
          subst (λ x. left x w.phase < left x (wrappers x).phase) p h in
        rw (q, ap (text_eq n) p, text_eq_refl n) (omega arith)
    | inr q ↦
        let d : text_eq n name ≡ false =
          ground (arith, q, text_eq_iff name n, text_eq_iff n name) in
        rw (q, d) (omega arith)
  ]

  -- A lighter wrapper makes the sum smaller, if its name is in the list.
  update_lighter :
      (name : Text) (w : Wrapper) (wrappers : Wrappers) (names : List Text)
      → left name w.phase < left name (wrappers name).phase
      → left_in (update name w wrappers) names + (if member name names then 1 else 0)
        ≤ left_in wrappers names
  unfolding member
  update_lighter name w wrappers [] h = omega arith
  update_lighter name w wrappers (n ∷ names) h =
      add_steps (left n (wrappers n).phase) (left n (update name w wrappers n).phase)
        (left_in wrappers names) (left_in (update name w wrappers) names) (text_eq n name)
        (member name names) (left-update name n w wrappers h)
        (update_lighter name w wrappers names h)

  step_lighter :
      (name : Text) (wrappers : Wrappers)
      → member name services ≡ true
      → CanStep services dependent_services ignored is_selected waits action wrappers name
      → left_in
          (step services dependent_services ignored is_selected waits action name wrappers)
          services
        < left_in wrappers services
  unfolding step
  step_lighter name wrappers m c =
      go (advance services dependent_services ignored is_selected waits action name wrappers) refl
    where
      go :
          (o : Option Wrapper)
          → advance services dependent_services ignored is_selected waits action name wrappers ≡ o
          → left_in
              (step services dependent_services ignored is_selected waits action name wrappers)
              services
            < left_in wrappers services
      go none q = absurd (c q)
      go (some w) q =
          let h : left_in (update name w wrappers) services + 1 ≤ left_in wrappers services =
            rw m at (update_lighter name w wrappers services (advance_lighter name wrappers w q)) in
          rw (q, step) (omega arith)

  run_lighter :
      (schedule : List Text) (wrappers : Wrappers)
      → IsEffective schedule wrappers
      → length schedule
          + left_in
              (run services dependent_services ignored is_selected waits action schedule wrappers)
              services
        ≤ left_in wrappers services
  unfolding run
  run_lighter [] wrappers h = omega arith
  run_lighter (name ∷ schedule) wrappers (m, c, h) = omega (
    arith,
    step_lighter name wrappers m c,
    run_lighter schedule
        (step services dependent_services ignored is_selected waits action name wrappers) h,
  )

  -- One step for each dependency of a service, and three more.
  abbrev pub most_steps : List Text → ℕ
  most_steps [] = 0
  most_steps (n ∷ names) = 3 + length (dependent_services n) + most_steps names

  fresh_left :
      (wrappers : Wrappers) (names : List Text)
      → ((name : Text) → IsFresh (wrappers name))
      → left_in wrappers names ≡ most_steps names
  fresh_left wrappers [] f = refl
  fresh_left wrappers (n ∷ names) f = rw ((f n).0, fresh_left wrappers names f) refl

  -- From fresh wrappers on, the goroutines of all services make no more steps together than three for
  -- each service and one for each of its dependencies.
  pub run_ends :
      (schedule : List Text) (wrappers : Wrappers)
      → ((name : Text) → IsFresh (wrappers name))
      → IsEffective schedule wrappers
      → length schedule ≤ most_steps services
  run_ends schedule wrappers f h =
      omega (arith, fresh_left wrappers services f, run_lighter schedule wrappers h)
