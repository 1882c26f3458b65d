-- ===== src/Project/Wrapper/Waiting.antt =====
-- Every schedule keeps what the wrappers know: a service's action runs behind its dependencies.
use mathlib.Core.Path.{subst}
use burmilla_os.Base.{
  Bool, true, not, ◌&&◌, Option, none, some, List, [], ◌∷◌, Text, text_eq, text_eq_iff, Bool-cases,
  inl, inr, ◌≡◌, refl, sym, ap, ◌∙◌, ◌⊎◌,
}
use burmilla_os.Project.Start.{Relationship, Ignored}
use burmilla_os.Project.Wrapper.{
  Failure, acting, over, Wrapper, Wrappers, update, advance, step, run,
}
use burmilla_os.Project.Wrapper.Passed.{all_passed, PhaseSound, PhaseSound-mono}
use burmilla_os.Project.Wrapper.Stepping.{
  IsCounted, IsFresh, IsSound, IsSoundAt, Steps, advance_sound,
}

module _ (services : List Text) (dependent_services : Text → List Relationship)
    (ignored : List Ignored) (is_selected : Text → Bool) (waits : Bool)
    (action : Text → Option Failure) where
  update-IsSound :
      (name : Text) (wrappers : Wrappers) (w : Wrapper)
      → IsSound services dependent_services ignored is_selected waits action wrappers
      → advance services dependent_services ignored is_selected waits action name wrappers ≡ some w
      → IsSound services dependent_services ignored is_selected waits action
          (update name w wrappers)
  update-IsSound name wrappers w s e other = elim (Bool-cases (text_eq name other)) [
    | inl f ↦
        let p : name ≡ other = (text_eq_iff name other).0 f in
        let (h, c, n) =
          subst
            (λ m. Steps services dependent_services ignored is_selected waits action m wrappers w) p
            (advance_sound services dependent_services ignored is_selected waits action name
              wrappers w s e) in
        with_phase w (rw f refl) n h c
    | inr f ↦ with_phase (wrappers other) (rw f refl) refl (s other).0 (s other).1
  ]
    where
      with_phase :
          (v : Wrapper)
          → update name w wrappers other ≡ v
          → v.no_wait ≡ (wrappers other).no_wait
          → PhaseSound services dependent_services ignored is_selected waits action other wrappers
              v.phase
          → IsCounted v
          → IsSoundAt services dependent_services ignored is_selected waits action
              (update name w wrappers)
              other
      with_phase v u n h c =
          subst
            (λ x.
              PhaseSound services dependent_services ignored is_selected waits action other
                (update name w wrappers) x.phase
              × IsCounted x)
            (sym u)
            (
              PhaseSound-mono services dependent_services ignored is_selected waits action name
                  other wrappers w v.phase e (ap (λ x. x.no_wait) u ∙ n) h,
              c,
            )

  pub step-IsSound :
      (name : Text) (wrappers : Wrappers)
      → IsSound services dependent_services ignored is_selected waits action wrappers
      → IsSound services dependent_services ignored is_selected waits action
          (step services dependent_services ignored is_selected waits action name wrappers)
  unfolding step
  step-IsSound name wrappers s =
      go (advance services dependent_services ignored is_selected waits action name wrappers) refl
    where
      go :
          (o : Option Wrapper)
          → advance services dependent_services ignored is_selected waits action name wrappers ≡ o
          → IsSound services dependent_services ignored is_selected waits action
              (step services dependent_services ignored is_selected waits action name wrappers)
      go none q = rw (q, step) s
      go (some w) q = rw (q, step) (update-IsSound name wrappers w s q)

  pub run-IsSound :
      (schedule : List Text) (wrappers : Wrappers)
      → IsSound services dependent_services ignored is_selected waits action wrappers
      → IsSound services dependent_services ignored is_selected waits action
          (run services dependent_services ignored is_selected waits action schedule wrappers)
  unfolding run
  run-IsSound [] wrappers s = s
  run-IsSound (name ∷ schedule) wrappers s = run-IsSound schedule _ (step-IsSound name wrappers s)

  pub fresh-IsSound :
      (wrappers : Wrappers)
      → ((name : Text) → IsFresh (wrappers name))
      → IsSound services dependent_services ignored is_selected waits action wrappers
  fresh-IsSound wrappers f name = let (p, d) = f name in rw p (tt, d)

  -- Whatever the schedule of the goroutines from fresh wrappers on, a service that waits for its
  -- dependencies runs its action, or has run it, only where each of them is ignored, or not among the
  -- wrappers, or over with no request for a restart.
  pub run_acting :
      (schedule : List Text) (wrappers : Wrappers) (name : Text)
      → ((other : Text) → IsFresh (wrappers other))
      → (waits
          && not
              (run services dependent_services ignored is_selected waits action schedule wrappers
                name).no_wait)
        ≡ true
      → ((run services dependent_services ignored is_selected waits action schedule wrappers
            name).phase
          ≡ acting)
        ⊎ ((run services dependent_services ignored is_selected waits action schedule wrappers
              name).phase
            ≡ over true)
      → all_passed services dependent_services ignored is_selected waits action name
          (run services dependent_services ignored is_selected waits action schedule wrappers)
          (dependent_services name)
        ≡ true
  run_acting schedule wrappers name f w (inl p) =
      (rw p at (run-IsSound schedule wrappers (fresh-IsSound wrappers f) name)).0 w
  run_acting schedule wrappers name f w (inr p) =
      (rw p at (run-IsSound schedule wrappers (fresh-IsSound wrappers f) name)).0 w
