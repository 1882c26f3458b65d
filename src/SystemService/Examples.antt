-- ===== src/SystemService/Examples.antt =====
-- A service that starts behind cloud-init, and one that asks to reload the configuration.
use burmilla_os.Base.{
  false, ◌||◌, none, List, [], ◌∷◌, Text, text_eq, member, codes, not, ◌≡◌, refl,
}
use burmilla_os.Base.Result.{ok}
use burmilla_os.Strings.{split, trim_space}
use burmilla_os.SystemService.{Labels, deps_of, create_all}
use burmilla_os.SystemService.Linked.{member-create_all, is_declared}
use burmilla_os.SystemService.Up.{create_container, up_container, restart, Docker, up, check_reload}
use burmilla_os.SystemService.Ended.{up_ended, has_up, is_create_only}

abbrev services : List (Text × Labels)
services =
    (codes "network", (codes "io.rancher.os.after", codes "cloud-init") ∷ [])
    ∷ (codes "ntp", (codes "io.rancher.os.before", codes "console") ∷ [])
    ∷ []

network_linked :
    deps_of (codes "network") (create_all services []) ≡ codes "cloud-init-execute" ∷ []
unfolding deps_of create_all text_eq split trim_space
network_linked = refl

member-create_all_example :
    member (codes "ntp") (deps_of (codes "console") (create_all services [])) ≡ (
      member (codes "ntp") (deps_of (codes "console") [])
      || is_declared (codes "console") (codes "ntp") services)
member-create_all_example = member-create_all (codes "console") (codes "ntp") services []

abbrev docker : Docker
docker = record {
  containers = ok [];
  out_of_sync = λ c. ok false;
  first_container = ok (codes "/ntp", []);
  fails = λ a. none;
  is_mount_conflict = λ e. false;
  force_console_rebuild = false;
  reset_force = none;
}

abbrev reloading : Labels
reloading = (codes "io.rancher.os.reloadconfig", codes "true") ∷ []

brought_up : up docker (codes "ntp") reloading ≡ (create_container ∷ up_container ∷ [], restart)
unfolding up text_eq
brought_up = refl

up_ended_example :
    ((up docker (codes "ntp") reloading).1 ≡ check_reload docker (codes "ntp") reloading)
    × (has_up (up docker (codes "ntp") reloading).0 ≡ not (is_create_only reloading))
unfolding up text_eq
up_ended_example = up_ended docker (codes "ntp") reloading refl
