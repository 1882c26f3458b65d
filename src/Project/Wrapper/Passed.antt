-- ===== src/Project/Wrapper/Passed.antt =====
-- What a wrapper knows of its dependencies in each phase, and that a step of another goroutine does
-- not change it.
use burmilla_os.Base.{
  Bool, true, false, not, ◌&&◌, ◌||◌, Option, none, some, List, [], ◌∷◌, ◌++◌, Text, text_eq,
  text_eq_iff, member, Bool-cases, inl, inr, ◌≡◌, refl, arith,
}
use burmilla_os.Project.Start.{Relationship, Ignored}
use burmilla_os.Project.Start.Names.{is_ignored}
use burmilla_os.Project.Wrapper.{
  Failure, Phase, idle, waiting, acting, over, Wrapper, Wrappers, update, is_restart, advance,
}

abbrev pub is_over : Phase → Bool
is_over (over acted) = true
is_over _ = false

module _ (services : List Text) (dependent_services : Text → List Relationship)
    (ignored : List Ignored) (is_selected : Text → Bool) (waits : Bool)
    (action : Text → Option Failure) where
  -- The dependency is ignored, unknown, or done without asking for a restart.
  abbrev pub has_passed : Text → Wrappers → Relationship → Bool
  has_passed name wrappers dep =
      is_ignored name dep.target ignored
      || (not (member dep.target services)
          || is_over (wrappers dep.target).phase && not (is_restart (wrappers dep.target).err))

  abbrev pub all_passed : Text → Wrappers → List Relationship → Bool
  all_passed name wrappers [] = true
  all_passed name wrappers (dep ∷ deps) =
      has_passed name wrappers dep && all_passed name wrappers deps

  -- All dependencies have passed, if the wrapper waits at all.
  abbrev pub HasWaited : Text → Wrappers → Type 0
  HasWaited name wrappers =
      (waits && not (wrappers name).no_wait) ≡ true
      → all_passed name wrappers (dependent_services name) ≡ true

  abbrev pub PhaseSound : Text → Wrappers → Phase → Type 0
  PhaseSound name wrappers idle = Unit
  PhaseSound name wrappers (waiting deps) =
      (passed : List Relationship) × (dependent_services name ≡ passed ++ deps)
      × (all_passed name wrappers passed ≡ true)
  PhaseSound name wrappers acting = HasWaited name wrappers
  PhaseSound name wrappers (over true) = HasWaited name wrappers
  PhaseSound name wrappers (over false) = Unit

  abbrev advancing : Text → Wrappers → Option Wrapper
  advancing = advance services dependent_services ignored is_selected waits action

  pub over_stuck :
      (name : Text) (wrappers : Wrappers)
      → is_over (wrappers name).phase ≡ true
      → advancing name wrappers ≡ none
  unfolding advance
  over_stuck name wrappers h = go (wrappers name).phase refl h
    where
      go :
          (p : Phase)
          → (wrappers name).phase ≡ p
          → is_over p ≡ true
          → advancing name wrappers ≡ none
      go idle q h = cc
      go (waiting deps) q h = cc
      go acting q h = cc
      go (over acted) q h = rw (q, advance) refl

  over_kept :
      (name other : Text) (wrappers : Wrappers) (w : Wrapper)
      → advancing name wrappers ≡ some w
      → is_over (wrappers other).phase ≡ true
      → update name w wrappers other ≡ wrappers other
  over_kept name other wrappers w e h = elim (Bool-cases (text_eq name other)) [
    | inl q ↦
        let p : name ≡ other = (text_eq_iff name other).0 q in
        let stuck : advancing name wrappers ≡ none = over_stuck name wrappers (rw p h) in cc
    | inr q ↦ rw q refl
  ]

  has_passed_mono :
      (name other : Text) (wrappers : Wrappers) (w : Wrapper) (dep : Relationship)
      → advancing name wrappers ≡ some w
      → has_passed other wrappers dep ≡ true
      → has_passed other (update name w wrappers) dep ≡ true
  has_passed_mono name other wrappers w dep e h =
      elim (Bool-cases (is_over (wrappers dep.target).phase)) [
        | inl q ↦ rw (over_kept name dep.target wrappers w e q) h
        | inr q ↦ ground (arith, h, q)
      ]

  all_passed_mono :
      (name other : Text) (wrappers : Wrappers) (w : Wrapper) (deps : List Relationship)
      → advancing name wrappers ≡ some w
      → all_passed other wrappers deps ≡ true
      → all_passed other (update name w wrappers) deps ≡ true
  all_passed_mono name other wrappers w [] e h = refl
  all_passed_mono name other wrappers w (dep ∷ deps) e h = ground (
    arith,
    has_passed_mono name other wrappers w dep e,
    all_passed_mono name other wrappers w deps e,
  )

  pub all_passed-append :
      (name : Text) (wrappers : Wrappers) (xs ys : List Relationship)
      → all_passed name wrappers (xs ++ ys)
        ≡ (all_passed name wrappers xs && all_passed name wrappers ys)
  all_passed-append name wrappers [] ys = refl
  all_passed-append name wrappers (x ∷ xs) ys =
      ground (arith, all_passed-append name wrappers xs ys)

  -- A step keeps what any wrapper knows in a phase.
  pub PhaseSound-mono :
      (name other : Text) (wrappers : Wrappers) (w : Wrapper) (p : Phase)
      → advancing name wrappers ≡ some w
      → (update name w wrappers other).no_wait ≡ (wrappers other).no_wait
      → PhaseSound other wrappers p
      → PhaseSound other (update name w wrappers) p
  PhaseSound-mono name other wrappers w idle e n h = tt
  PhaseSound-mono name other wrappers w (waiting deps) e n (passed, q, h) =
      (passed, q, all_passed_mono name other wrappers w passed e h)
  PhaseSound-mono name other wrappers w acting e n h =
      λ k. all_passed_mono name other wrappers w (dependent_services other) e (h (rw n at k))
  PhaseSound-mono name other wrappers w (over true) e n h =
      λ k. all_passed_mono name other wrappers w (dependent_services other) e (h (rw n at k))
  PhaseSound-mono name other wrappers w (over false) e n h = tt
