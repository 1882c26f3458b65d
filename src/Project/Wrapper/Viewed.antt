-- ===== src/Project/Wrapper/Viewed.antt =====
-- What the plan of a round sees of the wrappers.
use burmilla_os.Base.{
  not, ◌&&◌, Option, Text, text_eq, text_eq_iff, Bool-cases, inl, inr, ◌≡◌, refl, sym, ap, ◌∙◌,
}
use burmilla_os.Project.Wrapper.{
  Failure, Phase, idle, waiting, acting, over, Wrapper, Wrappers, update, is_restart,
}
use burmilla_os.Project.Wrapper.Passed.{is_over}
use burmilla_os.Project.Wrapper.Plan.{Status, pending, running, finished, Plan, set, is_settled}

-- What the plan sees of a wrapper.
abbrev pub status_of : Phase → Option Failure → Status
status_of idle err = pending
status_of (waiting deps) err = pending
status_of acting err = running
status_of (over acted) err = finished (is_restart err)

abbrev pub view : Wrappers → Plan
view wrappers n = status_of (wrappers n).phase (wrappers n).err

pub view-update :
    (name : Text) (wrappers : Wrappers) (w : Wrapper)
    → view (update name w wrappers) ≡ set name (status_of w.phase w.err) (view wrappers)
view-update name wrappers w = λ i n. at n i
  where
    at :
        (n : Text)
        → view (update name w wrappers) n ≡ set name (status_of w.phase w.err) (view wrappers) n
    at n = elim (Bool-cases (text_eq name n)) [ inl q ↦ rw q refl | inr q ↦ rw q refl ]

pub set_same :
    (name : Text) (plan : Plan) (status : Status) → plan name ≡ status → plan ≡ set name status plan
set_same name plan status h = λ i n. at n i
  where
    at : (n : Text) → plan n ≡ set name status plan n
    at n = elim (Bool-cases (text_eq name n)) [
      | inl q ↦ rw q (ap plan (sym ((text_eq_iff name n).0 q)) ∙ h)
      | inr q ↦ rw q refl
    ]

pub settled_view :
    (w : Wrapper)
    → (is_over w.phase && not (is_restart w.err)) ≡ is_settled (status_of w.phase w.err)
settled_view w = go w.phase
  where
    go : (p : Phase) → (is_over p && not (is_restart w.err)) ≡ is_settled (status_of p w.err)
    go idle = refl
    go (waiting deps) = refl
    go acting = refl
    go (over acted) = refl
