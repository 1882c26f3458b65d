-- ===== src/NetConf/Effects.antt =====
-- What the actions of `applyInterfaceConfig` do to the addresses of a link.
use burmilla_os.Base.{
  true, false, not, ◌||◌, ◌&&◌, List, [], ◌∷◌, ◌++◌, Text, text_eq, text_eq_iff, text_eq_refl,
  member, if◌then◌else◌, ◌≡◌, refl, ◌∙◌, arith, Bool-cases, inl, inr, All, ap,
}
use burmilla_os.NetConf.Actions.{
  Action, remove_address, add_address, done, Machine, and_then, attempt, logged, Trace, error,
  add_gateway, panic,
}
use burmilla_os.NetConf.Applying.{remove_others, add_all, set_gateway}

abbrev pub without : Text → List Text → List Text
without a [] = []
without a (b ∷ have) = if text_eq b a then without a have else b ∷ without a have

-- What an action that does not fail does to the addresses of a link.
abbrev pub change : Text → Action → List Text → List Text
change link (remove_address l a) have = if text_eq l link then without a have else have
change link (add_address l a) have = if text_eq l link then a ∷ have else have
change link _ have = have

abbrev pub effect : Text → List Action → List Text → List Text
effect link [] have = have
effect link (x ∷ actions) have = effect link actions (change link x have)

pub effect-append :
    (link : Text) (xs ys : List Action) (have : List Text)
    → effect link (xs ++ ys) have ≡ effect link ys (effect link xs have)
effect-append link [] ys have = refl
effect-append link (x ∷ xs) ys have = effect-append link xs ys (change link x have)

member-without :
    (a b : Text) (have : List Text)
    → member a (without b have) ≡ (not (text_eq b a) && member a have)
unfolding member
member-without a b [] = ground arith
member-without a b (c ∷ have) =
    ground (arith, member-without a b have, text_eq_iff c b, text_eq_iff c a, text_eq_iff b a)

module _ (machine : Machine) (link : Text) where
  -- A part that ends well and leaves the addresses as they are, or removes or adds some.
  pub effect-remove_others :
      (configured existing have : List Text) (a : Text)
      → member a (effect link (remove_others machine link false configured existing).0 have)
        ≡ (member a have && not (member a existing && not (member a configured)))
  unfolding remove_others and_then member
  effect-remove_others configured [] have a = ground arith
  effect-remove_others configured (b ∷ existing) have a = elim (Bool-cases (member b configured)) [
    | inl q ↦
        rw (q, remove_others)
          (effect-remove_others configured existing have a ∙ ground (arith, q, text_eq_iff b a))
    | inr q ↦
        rw (q, remove_others, text_eq_refl link)
          (effect-remove_others configured existing (without b have) a
            ∙ ground (arith, q, text_eq_iff b a, member-without a b have))
  ]

  pub effect-add_all :
      (addresses have : List Text) (a : Text)
      → All (λ b. machine.is_address b ≡ true) addresses
      → member a (effect link (add_all machine link addresses).0 have)
        ≡ (member a have || member a addresses)
  unfolding add_all and_then member
  effect-add_all [] have a h = ground arith
  effect-add_all (b ∷ addresses) have a (hb, h) =
      rw (hb, add_all, text_eq_refl link) (effect-add_all addresses (b ∷ have) a h ∙ ground arith)

  pub removed_done :
      (configured existing : List Text)
      → (remove_others machine link false configured existing).1 ≡ done
  unfolding remove_others and_then
  removed_done configured [] = refl
  removed_done configured (b ∷ existing) = ground (arith, removed_done configured existing)

  pub added_done : (addresses : List Text) → (add_all machine link addresses).1 ≡ done
  unfolding add_all and_then
  added_done [] = refl
  added_done (b ∷ addresses) = ground (arith, added_done addresses)

  pub and_then_done : (t next : Trace) → t.1 ≡ done → and_then t next ≡ (t.0 ++ next.0, next.1)
  unfolding and_then
  and_then_done (actions, done) next h = refl
  and_then_done (actions, error e) next h = cc
  and_then_done (actions, panic) next h = cc

  -- A part that leaves the addresses as they are.
  abbrev pub IsQuiet : Trace → Type 0
  IsQuiet t = (have : List Text) → effect link t.0 have ≡ have

  pub and_then-IsQuiet : (t next : Trace) → IsQuiet t → IsQuiet next → IsQuiet (and_then t next)
  unfolding and_then
  and_then-IsQuiet (actions, done) next h k have =
      effect-append link actions next.0 have ∙ ap (effect link next.0) (h have) ∙ k have
  and_then-IsQuiet (actions, error e) next h k have = h have
  and_then-IsQuiet (actions, panic) next h k have = h have

  pub attempt-IsQuiet :
      (action : Action)
      → ((have : List Text) → change link action have ≡ have)
      → IsQuiet (attempt machine action)
  unfolding attempt
  attempt-IsQuiet action h have = h have

  logged-IsQuiet : (t : Trace) → IsQuiet t → IsQuiet (logged t)
  unfolding logged
  logged-IsQuiet (actions, done) h = h
  logged-IsQuiet (actions, error e) h = h
  logged-IsQuiet (actions, panic) h = h

  pub set_gateway-IsQuiet : (gateway : Text) → IsQuiet (set_gateway machine gateway)
  unfolding set_gateway
  set_gateway-IsQuiet [] = λ have. refl
  set_gateway-IsQuiet (c ∷ s) = elim (Bool-cases (machine.is_ip (c ∷ s))) [
    | inl q ↦
        rw (q, set_gateway)
          (logged-IsQuiet (attempt machine (add_gateway (c ∷ s)))
            (attempt-IsQuiet (add_gateway (c ∷ s)) (λ have. refl)))
    | inr q ↦ rw (q, set_gateway) (λ have. refl)
  ]
