-- ===== src/Project/Wrapper/Plan.antt =====
-- What a round promises, without goroutines, wait groups and waiting: a service is pending, its action
-- runs, or it is finished, and an action begins only behind the ends of what the service needs.
use burmilla_os.Base.{
  Bool, true, false, not, ◌&&◌, ◌||◌, List, [], ◌∷◌, Text, text_eq, member, if◌then◌else◌, ◌≡◌,
}
use burmilla_os.Project.Start.{Relationship, Ignored}
use burmilla_os.Project.Start.Names.{is_ignored}

-- A finished service may ask for a restart.
pub data Status : Type 0 where
  pending : Status
  running : Status
  finished : Bool → Status

abbrev pub Plan : Type 0
Plan = Text → Status

abbrev pub set : Text → Status → Plan → Plan
set name status plan n = if text_eq name n then status else plan n

abbrev pub is_settled : Status → Bool
is_settled (finished restarts) = not restarts
is_settled _ = false

module _ (services : List Text) (dependent_services : Text → List Relationship)
    (ignored : List Ignored) (must_wait : Text → Bool) where
  -- The dependencies are ignored, unknown, or finished without asking for a restart.
  abbrev pub all_settled : Text → Plan → List Relationship → Bool
  all_settled name plan [] = true
  all_settled name plan (dep ∷ deps) =
      (is_ignored name dep.target ignored
        || (not (member dep.target services) || is_settled (plan dep.target)))
      && all_settled name plan deps

  pub data Moves (plan : Plan) : Plan → Type 0 where
    begins :
        (name : Text)
        → plan name ≡ pending
        → (must_wait name ≡ true → all_settled name plan (dependent_services name) ≡ true)
        → Moves plan (set name running plan)
    ends :
        (name : Text) (restarts : Bool)
        → plan name ≡ running
        → Moves plan (set name (finished restarts) plan)
    gives_up :
        (name : Text) (restarts : Bool)
        → plan name ≡ pending
        → Moves plan (set name (finished restarts) plan)

  pub data Leads (plan : Plan) : Plan → Type 0 where
    nowhere : Leads plan plan
    on : {there beyond : Plan} → Leads plan there → Moves there beyond → Leads plan beyond
