-- ===== src/Project/Rounds/Examples.antt =====
-- docker has run when network asks for another round.
use burmilla_os.Project.Rounds.Spent.{IsSpent}
use burmilla_os.Base.{
  true, false, none, some, [], ◌∷◌, Text, codes, text_eq, member, ◌≡◌, refl, if◌then◌else◌,
}
use burmilla_os.Project.Start.{start, start_all, start_service, start_deps, finish}
use burmilla_os.Project.Wrapper.{restart, over, Wrappers}
use burmilla_os.Project.Rounds.{Round, Traversal, Verdict, again, ended, round, traverse, success}
use burmilla_os.Project.Rounds.Once.{round-IsSpent}

abbrev docker : Text
docker = codes "docker"

abbrev network : Text
network = codes "network"

abbrev before : Wrappers
before name =
    if text_eq name docker
    then record { executed = true; err = none; done = 0; no_wait = false; phase = over true }
    else record {
      executed = false;
      err = some restart;
      done = 0;
      no_wait = false;
      phase = over false;
    }

abbrev traversal : Traversal
traversal = record { names = docker ∷ network ∷ []; wrappers = before; ignored = []; reload = [] }

-- The action of network asks for a restart.
abbrev restarting : Round
restarting = record {
  create = λ name. none;
  dependent_services = λ name. [];
  cycle_action = λ name. none;
  schedule = docker ∷ network ∷ network ∷ network ∷ [];
  action = λ name. some restart;
  reloaded = [];
}

abbrev following : Verdict → Traversal
following (again t) = t
following (ended report) = traversal

round-IsSpent_example : IsSpent ((following (round true [] restarting traversal)).wrappers docker)
unfolding round text_eq member start start_all start_service start_deps finish
round-IsSpent_example =
    round-IsSpent true [] restarting traversal (following (round true [] restarting traversal))
      docker refl refl refl refl

-- network has run too, so the next round ends the traversal.
two_rounds : traverse true [] (restarting ∷ restarting ∷ []) traversal ≡ success
unfolding traverse text_eq member start_all start_service start_deps finish
two_rounds = refl
