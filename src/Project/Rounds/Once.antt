-- ===== src/Project/Rounds/Once.antt =====
-- A service whose action has run does not run it again in a later round.
use burmilla_os.Project.Rounds.{
  reset_all, load_wrappers, put_wrapper, Traversal, conclude, again, ended, finish_round, Round,
  run_round, start_round, first_missing, round, reset_failed,
}
use mathlib.Core.Path.{subst}
use burmilla_os.Base.{
  arith, Bool, true, false, ◌||◌, Option, none, some, List, [], ◌∷◌, Text, text_eq, text_eq_iff,
  member, Bool-cases, inl, inr, ◌≡◌, refl, sym, ap, ◌∙◌, ◌++◌,
}
use burmilla_os.Project.Start.{
  Ignored, Outcome, State, fine, cycle_detected, cycle_action_failed, out_of_fuel, is_selected,
}
use burmilla_os.Project.Wrapper.{Wrapper, Wrappers, update, reset, new_wrapper}
use burmilla_os.Project.Rounds.Spent.{is_idle, IsSpent, run-IsSpent}

reset-IsSpent :
    (create : Option Text) (w : Wrapper)
    → w.executed ≡ true
    → ((reset create w).0 ≡ none) × IsSpent (reset create w).1
unfolding reset
reset-IsSpent create w x = rw (x, reset) (refl, (refl, refl))

reset_all-next :
    (create : Text → Option Text) (name : Text) (names : List Text) (wrappers : Wrappers)
    (w : Wrapper)
    → reset (create name) (wrappers name) ≡ (none, w)
    → reset_all create (name ∷ names) wrappers ≡ reset_all create names (update name w wrappers)
unfolding reset_all
reset_all-next create name names wrappers w q =
    ap
      (λ r. elim r.0 [
        | some e ↦ (some e, wrappers)
        | none ↦ reset_all create names (update name r.1 wrappers)
      ])
      q

load_wrappers-next :
    (create : Text → Option Text) (name : Text) (names : List Text) (t : Traversal) (w : Wrapper)
    → new_wrapper (create name) ≡ (none, w)
    → load_wrappers create (name ∷ names) t ≡ load_wrappers create names (put_wrapper name w t)
unfolding load_wrappers
load_wrappers-next create name names t w q =
    ap (λ r. elim r.0 [ some e ↦ t | none ↦ load_wrappers create names (put_wrapper name r.1 t) ]) q

-- Behind the resets, the wrapper of the name is spent, whether it is still to be reset or has been.
reset_all-IsSpent :
    (create : Text → Option Text) (names : List Text) (wrappers : Wrappers) (n : Text)
    → (wrappers n).executed ≡ true
    → (member n names || is_idle (wrappers n).phase) ≡ true
    → (reset_all create names wrappers).0 ≡ none
    → IsSpent ((reset_all create names wrappers).1 n)
unfolding reset_all member
reset_all-IsSpent create [] wrappers n x m e = (x, m)
reset_all-IsSpent create (name ∷ names) wrappers n x m e =
    go (reset (create name) (wrappers name)) refl (λ ws. reset_all-IsSpent create names ws n)
  where
    go :
        (r : Option Text × Wrapper)
        → reset (create name) (wrappers name) ≡ r
        → ((ws : Wrappers)
            → (ws n).executed ≡ true
            → (member n names || is_idle (ws n).phase) ≡ true
            → (reset_all create names ws).0 ≡ none
            → IsSpent ((reset_all create names ws).1 n))
        → IsSpent ((reset_all create (name ∷ names) wrappers).1 n)
    go (some f, w) q rest = absurd (cc (rw (q, reset_all) at e))
    go (none, w) q rest =
        let next = reset_all-next create name names wrappers w q in
        let e' = sym (ap (λ r. r.0) next) ∙ e in
        subst (λ r. IsSpent (r.1 n)) (sym next)
          (elim (Bool-cases (text_eq name n)) [
            | inl s ↦
                let there : (wrappers name).executed ≡ true =
                  ap (λ i. (wrappers i).executed) ((text_eq_iff name n).0 s) ∙ x in
                let spent : IsSpent w =
                  subst (λ r. IsSpent r.1) q
                    (reset-IsSpent (create name) (wrappers name) there).1 in
                rest (update name w wrappers) (rw s spent.0) (rw s (ground (arith, spent.1))) e'
            | inr s ↦ rest (update name w wrappers) (rw s x) (rw s (ground (arith, m, s))) e'
          ])

-- Loading other names leaves a wrapper.
load_wrappers-other :
    (create : Text → Option Text) (names : List Text) (t : Traversal) (n : Text)
    → member n names ≡ false
    → (load_wrappers create names t).wrappers n ≡ t.wrappers n
unfolding load_wrappers put_wrapper member
load_wrappers-other create [] t n m = refl
load_wrappers-other create (name ∷ names) t n m =
    go (new_wrapper (create name)) refl (λ t' k. load_wrappers-other create names t' n k)
  where
    go :
        (r : Option Text × Wrapper)
        → new_wrapper (create name) ≡ r
        → ((t' : Traversal)
            → member n names ≡ false
            → (load_wrappers create names t').wrappers n ≡ t'.wrappers n)
        → (load_wrappers create (name ∷ names) t).wrappers n ≡ t.wrappers n
    go (some e, w) q rest = rw (q, load_wrappers) refl
    go (none, w) q rest =
        let other : text_eq name n ≡ false = ground (arith, m) in
        ap (λ u. u.wrappers n) (load_wrappers-next create name names t w q)
        ∙ rest (put_wrapper name w t) (ground (arith, m))
        ∙ rw other refl

module _ (waits : Bool) (selected : List Text) where
  conclude-again :
      (t t' : Traversal) (o : Option (Bool × Option Text))
      → conclude waits selected t o ≡ again t'
      → t ≡ t'
  unfolding conclude
  conclude-again t t' none e = absurd (cc e)
  conclude-again t t' (some (true, first)) e = ap (λ v. elim v [ again u ↦ u | ended p ↦ t ]) e
  conclude-again t t' (some (false, none)) e = absurd (cc e)
  conclude-again t t' (some (false, some f)) e = absurd (cc e)

  finish_round-again :
      (r : Round) (t t' : Traversal) (o : Outcome × State)
      → finish_round waits selected r t o ≡ again t'
      → (ignored : List Ignored) × (run_round waits selected r t ignored ≡ t'.wrappers)
  unfolding finish_round
  finish_round-again r t t' (fine, st) e =
      (st.ignored ++ t.ignored, ap (λ u. u.wrappers) (conclude-again _ t' _ e))
  finish_round-again r t t' (cycle_detected path, st) e = absurd (cc e)
  finish_round-again r t t' (cycle_action_failed f, st) e = absurd (cc e)
  finish_round-again r t t' (out_of_fuel, st) e = absurd (cc e)

  start_round-IsSpent :
      (r : Round) (t t' : Traversal) (n : Text)
      → member n t.reload ≡ false
      → IsSpent (t.wrappers n)
      → start_round waits selected r t ≡ again t'
      → IsSpent (t'.wrappers n)
  unfolding start_round run_round
  start_round-IsSpent r t t' n m s e =
      go (first_missing selected (load_wrappers r.create t.reload t).names) refl
    where
      go :
          (o : Option Text)
          → first_missing selected (load_wrappers r.create t.reload t).names ≡ o
          → IsSpent (t'.wrappers n)
      go (some f) q = absurd (cc (rw (q, start_round) at e))
      go none q =
          let loaded = load_wrappers r.create t.reload t in
          let kept : IsSpent (loaded.wrappers n) =
            subst IsSpent (sym (load_wrappers-other r.create t.reload t n m)) s in
          let (ignored, ran) =
            finish_round-again r (record loaded { reload = [] }) t' _ (rw (q, start_round) at e) in
          subst (λ ws. IsSpent (ws n)) ran
            (run-IsSpent loaded.names r.dependent_services ignored
              (is_selected loaded.names r.dependent_services selected r.cycle_action) waits r.action
              r.schedule n loaded.wrappers kept)

-- If a round leads to another one, a service whose action has run before it, and which is not among the
-- names that are reloaded, does not run its action in that round: it has not begun or is over without it.
pub round-IsSpent :
    (waits : Bool) (selected : List Text) (r : Round) (t t' : Traversal) (n : Text)
    → member n t.names ≡ true
    → member n t.reload ≡ false
    → (t.wrappers n).executed ≡ true
    → round waits selected r t ≡ again t'
    → IsSpent (t'.wrappers n)
unfolding round
round-IsSpent waits selected r t t' n k m x e = go (reset_all r.create t.names t.wrappers) refl
  where
    go :
        (d : Option Text × Wrappers)
        → reset_all r.create t.names t.wrappers ≡ d
        → IsSpent (t'.wrappers n)
    go (some f, ws) q = absurd (cc (rw (q, round) at e))
    go (none, ws) q =
        let next : start_round waits selected r (record t { wrappers = ws }) ≡ again t' =
          ap
            (λ d. elim d.0 [
              | some f ↦ ended (reset_failed f)
              | none ↦ start_round waits selected r (record t { wrappers = d.1 })
            ])
            (sym q)
          ∙ e in
        let spent : IsSpent (ws n) =
          subst (λ d. IsSpent (d.1 n)) q
            (reset_all-IsSpent r.create t.names t.wrappers n x (ground (arith, k))
              (ap (λ d. d.0) q)) in
        start_round-IsSpent waits selected r (record t { wrappers = ws }) t' n m spent next
