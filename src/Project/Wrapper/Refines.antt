-- ===== src/Project/Wrapper/Refines.antt =====
-- Every run of the goroutines is one of the plan.
use burmilla_os.Project.Wrapper.Waiting.{fresh-IsSound, step-IsSound}
use mathlib.Core.Path.{subst}
use burmilla_os.Project.Wrapper.Stepping.{Steps, IsSound, IsFresh, advance_sound}
use burmilla_os.Base.{
  not, ◌&&◌, Option, Text, text_eq, text_eq_iff, Bool-cases, inl, inr, ◌≡◌, refl, sym, ap, ◌∙◌,
  List, Bool, some, none, true, ◌∷◌, arith, [],
}
use burmilla_os.Project.Wrapper.{
  Failure, Phase, idle, waiting, acting, over, Wrapper, Wrappers, is_restart, Relationship, Ignored,
  advance, step, leave, run,
}
use burmilla_os.Project.Wrapper.Passed.{is_over, all_passed, over_stuck}
use burmilla_os.Project.Wrapper.Plan.{
  pending, Plan, set, Leads, all_settled, begins, ends, gives_up, on, nowhere,
}
use burmilla_os.Project.Wrapper.Viewed.{status_of, view, view-update, set_same, settled_view}

module _ (services : List Text) (dependent_services : Text → List Relationship)
    (ignored : List Ignored) (is_selected : Text → Bool) (waits : Bool)
    (action : Text → Option Failure) where
  all_settled-view :
      (must_wait : Text → Bool) (name : Text) (wrappers : Wrappers) (deps : List Relationship)
      → all_passed services dependent_services ignored is_selected waits action name wrappers deps
        ≡ all_settled services dependent_services ignored must_wait name (view wrappers) deps
  all_settled-view must_wait name wrappers [] = refl
  all_settled-view must_wait name wrappers (dep ∷ deps) =
      ground
        (arith, settled_view (wrappers dep.target), all_settled-view must_wait name wrappers deps)

  -- The services that wait for their dependencies.
  abbrev waiters : Wrappers → Text → Bool
  waiters wrappers n = waits && not (wrappers n).no_wait

  abbrev Way : (Text → Bool) → Plan → Plan → Type 0
  Way must_wait = Leads services dependent_services ignored must_wait

  -- The goroutine of a running action ends.
  acting_over :
      (name : Text) (wrappers : Wrappers) (w : Wrapper)
      → (wrappers name).phase ≡ acting
      → advance services dependent_services ignored is_selected waits action name wrappers ≡ some w
      → w.phase ≡ over true
  unfolding advance leave
  acting_over name wrappers w p e =
      let same : some (leave true (record (wrappers name) { err = action name })) ≡ some w =
        rw (p, advance) at e in
      ap (λ o. elim o [ none ↦ over true | some v ↦ v.phase ]) (sym same)

  -- One step of a goroutine that was not in its action, into the phase q.
  from_pending :
      (must_wait : Text → Bool) (name : Text) (wrappers : Wrappers) (w : Wrapper) (plan : Plan)
      → must_wait name ≡ waiters wrappers name
      → Way must_wait plan (view wrappers)
      → Steps services dependent_services ignored is_selected waits action name wrappers w
      → view wrappers name ≡ pending
      → (q : Phase) → w.phase ≡ q
      → Way must_wait plan (set name (status_of q w.err) (view wrappers))
  from_pending must_wait name wrappers w plan m way s h idle e =
      subst (Way must_wait plan) (set_same name (view wrappers) pending h) way
  from_pending must_wait name wrappers w plan m way s h (waiting deps) e =
      subst (Way must_wait plan) (set_same name (view wrappers) pending h) way
  from_pending must_wait name wrappers w plan m way s h acting e = on way (
      begins name h (λ k.
        sym (all_settled-view must_wait name wrappers (dependent_services name))
        ∙ (rw e at s).0 (sym m ∙ k)))
  from_pending must_wait name wrappers w plan m way s h (over acted) e =
      on way (gives_up name (is_restart w.err) h)

  moved :
      (must_wait : Text → Bool) (name : Text) (wrappers : Wrappers) (w : Wrapper) (plan : Plan)
      → must_wait name ≡ waiters wrappers name
      → Way must_wait plan (view wrappers)
      → Steps services dependent_services ignored is_selected waits action name wrappers w
      → advance services dependent_services ignored is_selected waits action name wrappers ≡ some w
      → (p : Phase) → (wrappers name).phase ≡ p
      → Way must_wait plan (set name (status_of w.phase w.err) (view wrappers))
  moved must_wait name wrappers w plan m way s e idle h =
      from_pending must_wait name wrappers w plan m way s
        (ap (λ p. status_of p (wrappers name).err) h) w.phase refl
  moved must_wait name wrappers w plan m way s e (waiting deps) h =
      from_pending must_wait name wrappers w plan m way s
        (ap (λ p. status_of p (wrappers name).err) h) w.phase refl
  moved must_wait name wrappers w plan m way s e acting h =
      rw (acting_over name wrappers w h e)
        (on way (ends name (is_restart w.err) (ap (λ p. status_of p (wrappers name).err) h)))
  moved must_wait name wrappers w plan m way s e (over acted) h =
      let stuck =
        over_stuck services dependent_services ignored is_selected waits action name wrappers
          (ap is_over h) in
      absurd (cc (stuck, e))

  -- A step keeps which services wait.
  waiters-step :
      (name : Text) (wrappers : Wrappers) (n : Text)
      → IsSound services dependent_services ignored is_selected waits action wrappers
      → waiters (step services dependent_services ignored is_selected waits action name wrappers) n
        ≡ waiters wrappers n
  unfolding step
  waiters-step name wrappers n s =
      go (advance services dependent_services ignored is_selected waits action name wrappers) refl
    where
      go :
          (o : Option Wrapper)
          → advance services dependent_services ignored is_selected waits action name wrappers ≡ o
          → waiters
              (step services dependent_services ignored is_selected waits action name wrappers)
              n
            ≡ waiters wrappers n
      go none e = rw (e, step) refl
      go (some w) e =
          rw (e, step)
            (elim (Bool-cases (text_eq name n)) [
              | inl q ↦
                  let (h, c, kept) =
                    advance_sound services dependent_services ignored is_selected waits action name
                      wrappers w s e in
                  rw q (
                    ap (λ b. waits && not b)
                      (kept ∙ ap (λ i. (wrappers i).no_wait) ((text_eq_iff name n).0 q)))
              | inr q ↦ rw q refl
            ])

  step_leads :
      (must_wait : Text → Bool) (name : Text) (wrappers : Wrappers) (plan : Plan)
      → ((n : Text) → must_wait n ≡ waiters wrappers n)
      → IsSound services dependent_services ignored is_selected waits action wrappers
      → Way must_wait plan (view wrappers)
      → Way must_wait plan
          (view (step services dependent_services ignored is_selected waits action name wrappers))
  unfolding step
  step_leads must_wait name wrappers plan m s way =
      go (advance services dependent_services ignored is_selected waits action name wrappers) refl
    where
      go :
          (o : Option Wrapper)
          → advance services dependent_services ignored is_selected waits action name wrappers ≡ o
          → Way must_wait plan (
              view
                (step services dependent_services ignored is_selected waits action name wrappers))
      go none e = rw (e, step) way
      go (some w) e =
          rw (e, step)
            (subst (Way must_wait plan) (sym (view-update name wrappers w)) (
              moved must_wait name wrappers w plan (m name) way
                (advance_sound services dependent_services ignored is_selected waits action name
                  wrappers w s e)
                e (wrappers name).phase refl))

  run_leads :
      (must_wait : Text → Bool) (schedule : List Text) (wrappers : Wrappers) (plan : Plan)
      → ((n : Text) → must_wait n ≡ waiters wrappers n)
      → IsSound services dependent_services ignored is_selected waits action wrappers
      → Way must_wait plan (view wrappers)
      → Way must_wait plan (
          view (run services dependent_services ignored is_selected waits action schedule wrappers))
  unfolding run
  run_leads must_wait [] wrappers plan m s way = way
  run_leads must_wait (name ∷ schedule) wrappers plan m s way =
      run_leads must_wait schedule _ plan (λ n. m n ∙ sym (waiters-step name wrappers n s))
        (step-IsSound services dependent_services ignored is_selected waits action name wrappers s)
        (step_leads must_wait name wrappers plan m s way)

-- Whatever the schedule of the goroutines from fresh wrappers on, what the plan sees of them is reached
-- by moves of the plan, in which a service that waits begins its action only where each of its
-- dependencies is ignored, or not among the wrappers, or finished without asking for a restart.
pub run-Leads :
    (services : List Text) (dependent_services : Text → List Relationship) (ignored : List Ignored)
    (is_selected : Text → Bool) (waits : Bool) (action : Text → Option Failure)
    (schedule : List Text) (wrappers : Wrappers)
    → ((name : Text) → IsFresh (wrappers name))
    → Leads services dependent_services ignored
        (λ n. waits && not (wrappers n).no_wait)
        (λ n. pending)
        (view (run services dependent_services ignored is_selected waits action schedule wrappers))
run-Leads services dependent_services ignored is_selected waits action schedule wrappers f =
    run_leads services dependent_services ignored is_selected waits action
      (λ n. waits && not (wrappers n).no_wait) schedule wrappers (λ n. pending) (λ n. refl)
      (fresh-IsSound services dependent_services ignored is_selected waits action wrappers f)
      (subst
        (Leads services dependent_services ignored (λ n. waits && not (wrappers n).no_wait)
          (λ n. pending))
        (λ i n. ap (λ p. status_of p (wrappers n).err) (sym (f n).0) i) nowhere)
