-- ===== src/Project/Wrapper/Stepping.antt =====
-- One step of a goroutine keeps what its wrapper knows of its dependencies.
use mathlib.Core.Path.{subst}
use burmilla_os.Base.{
  ◌==◌, Bool, true, not, ◌&&◌, ◌||◌, Option, some, List, [], ◌∷◌, ◌++◌, Text, member, if◌then◌else◌,
  Bool-cases, inl, inr, ◌≡◌, refl, sym, ap, ◌∙◌, arith, append_assoc, append-nil, none,
}
use burmilla_os.Project.Start.{Relationship, Ignored}
use burmilla_os.Project.Start.Names.{is_ignored}
use burmilla_os.Project.Wrapper.{
  reset, new_wrapper, Failure, Phase, idle, waiting, acting, over, Wrapper, Wrappers, is_restart,
  advance, wait_for_dep, launch, leave, ignore, unknown,
}
use burmilla_os.Project.Wrapper.Passed.{
  is_over, has_passed, all_passed, PhaseSound, all_passed-append,
}

-- The counter of the wait group is down exactly when the goroutine is over.
abbrev pub IsCounted : Wrapper → Type 0
IsCounted w = w.done ≡ (if is_over w.phase then 0 else 1)

-- Behind newServiceWrapper or Reset: nothing runs, and the wait group waits for one goroutine.
abbrev pub IsFresh : Wrapper → Type 0
IsFresh w = (w.phase ≡ idle) × (w.done ≡ 1)

pub done_over : (w : Wrapper) → IsCounted w → (w.done == 0) ≡ true → is_over w.phase ≡ true
done_over w c h = elim (Bool-cases (is_over w.phase)) [
  | inl q ↦ q
  | inr q ↦ let d : w.done ≡ 1 = c ∙ rw q refl in cc (rw d at h)
]

pub over_done : (w : Wrapper) → IsCounted w → is_over w.phase ≡ true → (w.done == 0) ≡ true
over_done w c h = let d : w.done ≡ 0 = c ∙ rw h refl in rw d refl

-- A wrapper that is reset behind the end of its goroutine is fresh, and so is a new one, unless its
-- service could not be created.
reset-IsFresh :
    (create : Option Text) (w : Wrapper)
    → w.done ≡ 0
    → (reset create w).0 ≡ none
    → IsFresh (reset create w).1
unfolding reset
reset-IsFresh none w d e = elim (Bool-cases w.executed) [
  | inl x ↦ rw (x, reset) (refl, omega arith)
  | inr x ↦ rw (x, reset) (refl, omega arith)
]
reset-IsFresh (some f) w d e = elim (Bool-cases w.executed) [
  | inl x ↦ rw (x, reset) (refl, omega arith)
  | inr x ↦ cc (rw (x, reset) at e)
]

new_wrapper-IsFresh :
    (create : Option Text) → (new_wrapper create).0 ≡ none → IsFresh (new_wrapper create).1
unfolding new_wrapper
new_wrapper-IsFresh create e = reset-IsFresh create unknown refl e

module _ (services : List Text) (dependent_services : Text → List Relationship)
    (ignored : List Ignored) (is_selected : Text → Bool) (waits : Bool)
    (action : Text → Option Failure) where
  abbrev pub IsSoundAt : Wrappers → Text → Type 0
  IsSoundAt wrappers name =
      PhaseSound services dependent_services ignored is_selected waits action name wrappers
        (wrappers name).phase
      × IsCounted (wrappers name)

  abbrev pub IsSound : Wrappers → Type 0
  IsSound wrappers = (name : Text) → IsSoundAt wrappers name

  -- The new wrapper of a goroutine that made a step, among the old ones.
  abbrev pub Steps : Text → Wrappers → Wrapper → Type 0
  Steps name wrappers w =
      PhaseSound services dependent_services ignored is_selected waits action name wrappers w.phase
      × IsCounted w
      × (w.no_wait ≡ (wrappers name).no_wait)

  launch_sound :
      (name : Text) (wrappers : Wrappers)
      → (wrappers name).done ≡ 1
      → Steps name wrappers
          (launch services dependent_services ignored is_selected waits action name (wrappers name))
  unfolding launch ignore leave
  launch_sound name wrappers h = elim (Bool-cases (is_selected name)) [
    | inr q ↦ rw (q, launch) (tt, omega arith, refl)
    | inl q ↦ elim (Bool-cases (wrappers name).executed) [
      | inl e ↦ rw (q, e, launch) (tt, omega arith, refl)
      | inr e ↦ elim (Bool-cases (waits && not (wrappers name).no_wait)) [
        | inl f ↦ rw (q, e, f, launch) (([], refl, refl), h, refl)
        | inr f ↦ rw (q, e, f, launch) (λ k. absurd (cc), h, refl)
      ]
    ]
  ]

  passing :
      (name : Text) (wrappers : Wrappers) (dep : Relationship) (deps : List Relationship)
      → IsSoundAt wrappers name
      → (wrappers name).phase ≡ waiting (dep ∷ deps)
      → has_passed services dependent_services ignored is_selected waits action name wrappers dep
        ≡ true
      → Steps name wrappers (record (wrappers name) { phase = waiting deps })
  passing name wrappers dep deps s p h =
      let ((passed, q, a), c) = rw p at s in
      (
        (
          passed ++ dep ∷ [],
          q ∙ sym (append_assoc passed (dep ∷ []) deps),
          all_passed-append services dependent_services ignored is_selected waits action name
                wrappers passed (dep ∷ [])
              ∙ rw (a, h) refl,
        ),
        c,
        refl,
      )

  some_of :
      {v w : Wrapper} (name : Text) (wrappers : Wrappers)
      → some v ≡ some w
      → Steps name wrappers v
      → Steps name wrappers w
  some_of {v = v} {w = w} name wrappers e s =
      let q : v ≡ w = ground arith in subst (Steps name wrappers) q s

  wait_sound :
      (name : Text) (wrappers : Wrappers) (dep : Relationship) (deps : List Relationship)
      (w : Wrapper)
      → IsSound wrappers
      → (wrappers name).phase ≡ waiting (dep ∷ deps)
      → wait_for_dep services dependent_services ignored is_selected waits action name dep deps
          wrappers
        ≡ some w
      → Steps name wrappers w
  unfolding wait_for_dep leave
  wait_sound name wrappers dep deps w s p e =
      elim (Bool-cases (is_ignored name dep.target ignored || not (member dep.target services))) [
        | inl q ↦
            some_of name wrappers (rw (q, wait_for_dep) at e)
              (passing name wrappers dep deps (s name) p (ground (arith, q)))
        | inr q ↦ elim (Bool-cases ((wrappers dep.target).done == 0)) [
          | inr f ↦ cc (rw (q, f, wait_for_dep) at e)
          | inl f ↦ elim (Bool-cases (is_restart (wrappers dep.target).err)) [
            | inl g ↦
                some_of name wrappers (rw (q, f, g, wait_for_dep) at e)
                  (tt, omega (arith, (rw p at (s name)).1), refl)
            | inr g ↦ some_of name wrappers (rw (q, f, g, wait_for_dep) at e) (
                passing name wrappers dep deps (s name) p
                  (ground (arith, q, g, done_over (wrappers dep.target) (s dep.target).1 f)))
          ]
        ]
      ]

  pub advance_sound :
      (name : Text) (wrappers : Wrappers) (w : Wrapper)
      → IsSound wrappers
      → advance services dependent_services ignored is_selected waits action name wrappers ≡ some w
      → Steps name wrappers w
  unfolding advance leave
  advance_sound name wrappers w s e = go (wrappers name).phase refl
    where
      go : (p : Phase) → (wrappers name).phase ≡ p → Steps name wrappers w
      go idle q =
          some_of name wrappers (rw (q, advance) at e)
            (launch_sound name wrappers (rw q at (s name)).1)
      go (waiting []) q =
          let ((passed, d, a), c) = rw q at (s name) in
          some_of name wrappers (rw (q, advance) at e) (
            (λ k.
                ap
                  (all_passed services dependent_services ignored is_selected waits action name
                    wrappers)
                  (d ∙ append-nil passed)
                ∙ a),
            c,
            refl,
          )
      go (waiting (dep ∷ deps)) q = wait_sound name wrappers dep deps w s q (rw (q, advance) at e)
      go acting q =
          let (h, c) = rw q at (s name) in
          some_of name wrappers (rw (q, advance) at e) (h, omega arith, refl)
      go (over acted) q = cc (rw (q, advance) at e)
