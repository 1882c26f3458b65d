-- ===== src/Project/Rounds/Spent.antt =====
-- The goroutine of a service whose action has run before does not run it again.
use mathlib.Core.Path.{subst}
use burmilla_os.Base.{
  arith, Bool, true, false, not, Option, none, some, List, [], ◌∷◌, Text, text_eq, text_eq_iff,
  Bool-cases, inl, inr, ◌≡◌, refl, sym,
}
use burmilla_os.Project.Start.{Relationship, Ignored}
use burmilla_os.Project.Wrapper.{
  Failure, Phase, idle, waiting, acting, over, Wrapper, Wrappers, launch, ignore, leave, advance,
  step, run,
}

-- The goroutine has not begun, or is over without having run the action.
abbrev pub is_idle : Phase → Bool
is_idle idle = true
is_idle (over acted) = not acted
is_idle _ = false

-- The action was run in an earlier round, and is not run in this one.
abbrev pub IsSpent : Wrapper → Type 0
IsSpent w = (w.executed ≡ true) × (is_idle w.phase ≡ true)

same_wrapper : {v w : Wrapper} → some v ≡ some w → IsSpent v → IsSpent w
same_wrapper {v = v} {w = w} e s = let q : v ≡ w = ground arith in subst IsSpent q s

module _ (services : List Text) (dependent_services : Text → List Relationship)
    (ignored : List Ignored) (is_selected : Text → Bool) (waits : Bool)
    (action : Text → Option Failure) where
  advance-IsSpent :
      (name : Text) (wrappers : Wrappers) (w : Wrapper)
      → IsSpent (wrappers name)
      → advance services dependent_services ignored is_selected waits action name wrappers ≡ some w
      → IsSpent w
  unfolding advance launch ignore leave
  advance-IsSpent name wrappers w (x, i) e = go (wrappers name).phase refl
    where
      go : (p : Phase) → (wrappers name).phase ≡ p → IsSpent w
      go idle q = elim (Bool-cases (is_selected name)) [
        | inl s ↦ same_wrapper (rw (q, advance, launch, s, x) at e) (refl, refl)
        | inr s ↦ same_wrapper (rw (q, advance, launch, s) at e) (refl, refl)
      ]
      go (waiting deps) q = absurd (cc (i, q))
      go acting q = absurd (cc (i, q))
      go (over acted) q = absurd (cc (rw (q, advance) at e))

  step-IsSpent :
      (name n : Text) (wrappers : Wrappers)
      → IsSpent (wrappers n)
      → IsSpent (step services dependent_services ignored is_selected waits action name wrappers n)
  unfolding step
  step-IsSpent name n wrappers s =
      go (advance services dependent_services ignored is_selected waits action name wrappers) refl
    where
      go :
          (o : Option Wrapper)
          → advance services dependent_services ignored is_selected waits action name wrappers ≡ o
          → IsSpent
              (step services dependent_services ignored is_selected waits action name wrappers n)
      go none e = rw (e, step) s
      go (some w) e =
          rw (e, step)
            (elim (Bool-cases (text_eq name n)) [
              | inl q ↦ rw q (
                  advance-IsSpent name wrappers w
                    (subst (λ m. IsSpent (wrappers m)) (sym ((text_eq_iff name n).0 q)) s) e)
              | inr q ↦ rw q s
            ])

  pub run-IsSpent :
      (schedule : List Text) (n : Text) (wrappers : Wrappers)
      → IsSpent (wrappers n)
      → IsSpent
          (run services dependent_services ignored is_selected waits action schedule wrappers n)
  unfolding run
  run-IsSpent [] n wrappers s = s
  run-IsSpent (name ∷ schedule) n wrappers s =
      run-IsSpent schedule n _ (step-IsSpent name n wrappers s)
