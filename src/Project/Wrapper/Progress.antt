-- ===== src/Project/Wrapper/Progress.antt =====
-- The goroutines do not wait for each other in a circle: what `startService` gives is an order of the
-- services in which some goroutine can always go on.
use mathlib.Core.Path.{subst}
use burmilla_os.Base.{
  ◌∙◌, sym, text_eq_refl, ◌==◌, Bool, true, not, ◌||◌, Option, none, List, [], ◌∷◌, ◌++◌, Text,
  text_eq, text_eq_iff, member, Bool-cases, inl, inr, ◌≡◌, ◌≢◌, ◌⊎◌, refl, arith,
}
use burmilla_os.Project.Start.{Relationship, Ignored, start, fine}
use burmilla_os.Project.Start.Names.{is_ignored}
use burmilla_os.Project.Start.Order.{is_settled, all_settled, is_ordered}
use burmilla_os.Project.Start.Sound.{start_sound}
use burmilla_os.Project.Wrapper.{
  Failure, Phase, idle, waiting, acting, over, Wrapper, Wrappers, advance, wait_for_dep, run,
}
use burmilla_os.Project.Wrapper.Passed.{is_over}
use burmilla_os.Project.Wrapper.Stepping.{IsFresh, IsSound, over_done}
use burmilla_os.Project.Wrapper.Waiting.{run-IsSound, fresh-IsSound}

module _ (services : List Text) (dependent_services : Text → List Relationship)
    (ignored : List Ignored) (is_selected : Text → Bool) (waits : Bool)
    (action : Text → Option Failure) where
  abbrev advancing : Text → Wrappers → Option Wrapper
  advancing = advance services dependent_services ignored is_selected waits action

  abbrev Sound : Wrappers → Type 0
  Sound = IsSound services dependent_services ignored is_selected waits action

  -- The service's goroutine can make a step.
  abbrev pub CanStep : Wrappers → Text → Type 0
  CanStep wrappers name =
      advance services dependent_services ignored is_selected waits action name wrappers ≢ none

  settled_at :
      (name : Text) (earlier : List Text) (xs ys : List Relationship) (dep : Relationship)
      → all_settled services dependent_services name earlier ignored (xs ++ dep ∷ ys) ≡ true
      → is_settled services dependent_services name earlier ignored dep ≡ true
  settled_at name earlier [] ys dep h = ground (arith, h)
  settled_at name earlier (x ∷ xs) ys dep h = settled_at name earlier xs ys dep (ground (arith, h))

  -- All services of the list are over.
  abbrev AllOver : Wrappers → List Text → Type 0
  AllOver wrappers names = (n : Text) → member n names ≡ true → is_over (wrappers n).phase ≡ true

  wait_goes_on :
      (name : Text) (wrappers : Wrappers) (dep : Relationship) (deps : List Relationship)
      → (is_ignored name dep.target ignored || not (member dep.target services)) ≡ true
        ⊎ ((wrappers dep.target).done == 0) ≡ true
      → wait_for_dep services dependent_services ignored is_selected waits action name dep deps
          wrappers
        ≢ none
  unfolding wait_for_dep
  wait_goes_on name wrappers dep deps h e = ground (arith, h, e)

  ready :
      (name : Text) (earlier : List Text) (wrappers : Wrappers) (dep : Relationship)
      → Sound wrappers
      → AllOver wrappers earlier
      → is_settled services dependent_services name earlier ignored dep ≡ true
      → (is_ignored name dep.target ignored || not (member dep.target services)) ≡ true
        ⊎ ((wrappers dep.target).done == 0) ≡ true
  ready name earlier wrappers dep s a h =
      elim (Bool-cases (is_ignored name dep.target ignored || not (member dep.target services))) [
        | inl q ↦ inl q
        | inr q ↦
            inr (
              over_done (wrappers dep.target) (s dep.target).1
                (a dep.target (ground (arith, q, h))))
      ]

  goes_on :
      (name : Text) (earlier : List Text) (wrappers : Wrappers)
      → Sound wrappers
      → all_settled services dependent_services name earlier ignored (dependent_services name)
        ≡ true
      → AllOver wrappers earlier
      → (is_over (wrappers name).phase ≡ true) ⊎ CanStep wrappers name
  unfolding advance
  goes_on name earlier wrappers s h a = go (wrappers name).phase refl
    where
      go : (p : Phase) → (wrappers name).phase ≡ p → (is_over p ≡ true) ⊎ CanStep wrappers name
      go idle q = inr (λ e. cc (rw (q, advance) at e))
      go (waiting []) q = inr (λ e. cc (rw (q, advance) at e))
      go (waiting (dep ∷ deps)) q =
          let ((passed, d, k), c) = rw q at (s name) in
          let settled : is_settled services dependent_services name earlier ignored dep ≡ true =
            settled_at name earlier passed deps dep (rw d at h) in
          inr (λ e.
            wait_goes_on name wrappers dep deps (ready name earlier wrappers dep s a settled)
              (rw (q, advance) at e))
      go acting q = inr (λ e. cc (rw (q, advance) at e))
      go (over acted) q = inl refl

  pub some_goes_on :
      (order : List Text) (wrappers : Wrappers)
      → Sound wrappers
      → is_ordered services dependent_services ignored order ≡ true
      → AllOver wrappers order
        ⊎ ((name : Text) × (member name order ≡ true) × CanStep wrappers name)
  unfolding member
  some_goes_on [] wrappers s h = inl (λ n m. cc)
  some_goes_on (x ∷ order) wrappers s h = elim (some_goes_on order wrappers s (ground (arith, h))) [
    | inr (n, m, c) ↦ inr (n, ground (arith, m), c)
    | inl a ↦ elim (goes_on x order wrappers s (ground (arith, h)) a) [
      | inr c ↦ inr (x, ground (arith, text_eq_refl x), c)
      | inl o ↦ inl (λ n m. elim (Bool-cases (text_eq x n)) [
        | inl q ↦ subst (λ k. is_over (wrappers k).phase ≡ true) ((text_eq_iff x n).0 q) o
        | inr q ↦ a n (ground (arith, m, q))
      ])
    ]
  ]

-- If all services of a project are started with no error, then whatever steps the goroutines have made
-- from fresh wrappers on, each service is over or the goroutine of some service of the project can make a
-- step: they never all wait.
pub start_never_stuck :
    (services : List Text) (dependent_services : Text → List Relationship) (selected : List Text)
    (cycle_action : Text → Option Text) (is_selected : Text → Bool) (waits : Bool)
    (action : Text → Option Failure) (wrappers : Wrappers) (schedule : List Text)
    → (start services dependent_services selected cycle_action).0 ≡ fine
    → ((name : Text) → IsFresh (wrappers name))
    → ((name : Text)
        → member name services ≡ true
        → is_over
            (run services dependent_services
              (start services dependent_services selected cycle_action).1.ignored
              is_selected
              waits
              action
              schedule
              wrappers
              name).phase
          ≡ true)
      ⊎ ((name : Text) × (member name services ≡ true)
          × CanStep services dependent_services
              (start services dependent_services selected cycle_action).1.ignored
              is_selected
              waits
              action
              (run services dependent_services
                (start services dependent_services selected cycle_action).1.ignored
                is_selected
                waits
                action
                schedule
                wrappers)
              name)
start_never_stuck services dependent_services selected cycle_action is_selected waits action
      wrappers schedule e f =
    let (distinct, all, ordered, cyclic) =
      start_sound services dependent_services selected cycle_action e in
    let result = (start services dependent_services selected cycle_action).1 in
    elim (some_goes_on services dependent_services result.ignored is_selected waits action
      result.order
      (run services dependent_services result.ignored is_selected waits action schedule wrappers)
      (run-IsSound services dependent_services result.ignored is_selected waits action schedule
        wrappers
        (fresh-IsSound services dependent_services result.ignored is_selected waits action wrappers
          f))
      ordered) [
        | inl a ↦ inl (λ n m. a n (all n ∙ m))
        | inr (n, m, c) ↦ inr (n, sym (all n) ∙ m, c)
      ]
