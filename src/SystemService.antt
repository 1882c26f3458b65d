-- ===== src/SystemService.antt =====
-- pkg/docker/service.go and service_factory.go: on which services a system service depends, when its
-- container is rebuilt, and the steps that bring it up. The answers of the Docker client and of
-- libcompose's service are parameters.
pub mod Linked
pub mod Up
pub mod Ended
mod Examples
use burmilla_os.Base.{
  ℕ, Bool, true, false, ◌&&◌, ◌||◌, not, Option, none, some, List, [], ◌∷◌, ◌++◌, Text, text_eq,
  member, codes, if◌then◌else◌,
}
use burmilla_os.Base.Result.{Result, ok, failed, panicked, out_of_fuel, ◌>>=◌}
use burmilla_os.Strings.{split, split_n, trim_space}
use burmilla_os.Project.Start.{Relationship}

abbrev pub Labels : Type 0
Labels = List (Text × Text)

-- labels[key], which is empty where there is no such label.
unfoldable pub label : Text → Labels → Text
label key [] = []
label key ((k, v) ∷ labels) = if text_eq k key then v else label key labels

-- TrimSplit of pkg/util/util.go
unfoldable pub trim_all : List Text → List Text
trim_all [] = []
trim_all (s ∷ ss) = trim_space s ∷ trim_all ss

unfoldable pub trim_split : Text → ℕ → List Text
unfolding trim_all
trim_split s sep = trim_all (split sep (trim_space s))

-- The map `Deps` of the factory, as its appends in their order: a service, and one it depends on.
abbrev pub Deps : Type 0
Deps = List (Text × Text)

unfoldable pub deps_of : Text → Deps → List Text
deps_of name [] = []
deps_of name ((n, dep) ∷ deps) =
    let rest = deps_of name deps in if text_eq n name then dep ∷ rest else rest

-- depAliases
unfoldable pub alias_of : Text → Text
alias_of dep = if text_eq dep (codes "cloud-init") then codes "cloud-init-execute" else dep

unfoldable pub alias_all : List Text → List Text
unfolding alias_of
alias_all [] = []
alias_all (dep ∷ deps) = alias_of dep ∷ alias_all deps

-- The names in a label, with their aliases; an empty label has none.
unfoldable pub names_in : Text → List Text
unfolding trim_split alias_all
names_in [] = []
names_in (c ∷ s) = alias_all (trim_split (c ∷ s) b',')

abbrev pub afters : Text → List Text → Deps
afters name [] = []
afters name (dep ∷ deps) = (name, dep) ∷ afters name deps

abbrev pub befores : Text → List Text → Deps
befores name [] = []
befores name (dep ∷ deps) = (dep, name) ∷ befores name deps

-- Create, as far as it changes the factory.
unfoldable pub create : Text → Labels → Deps → Deps
unfolding label names_in
create name labels deps =
    (deps ++ afters name (names_in (label (codes "io.rancher.os.after") labels)))
    ++ befores name (names_in (label (codes "io.rancher.os.before") labels))

-- The calls for the services of a project, one after the other.
unfoldable pub create_all : List (Text × Labels) → Deps → Deps
unfolding create
create_all [] deps = deps
create_all ((name, labels) ∷ services) deps = create_all services (create name labels deps)

-- The fields of the service's configuration that are read; `logging` is the driver of `cfg.Logging`.
pub record ServiceConfig : Type 0 where
  pub image : Text
  pub logging : Option Text
  pub log_driver : Text
  pub labels : Labels

unfoldable pub requires_syslog : ServiceConfig → Bool
requires_syslog cfg = elim cfg.logging [
  | some driver ↦ text_eq driver (codes "syslog")
  | none ↦ text_eq cfg.log_driver (codes "syslog")
]

unfoldable pub requires_user_docker : ServiceConfig → Bool
unfolding label
requires_user_docker cfg =
    not (text_eq (label (codes "io.rancher.os.scope") cfg.labels) (codes "system"))

-- appendLink, on the names of the project's services; NewServiceRelationship cuts the target at a `:`.
unfoldable pub target_of : Text → Text
target_of name = elim (split_n b':' name 2) [ [] ↦ name | target ∷ rest ↦ target ]

unfoldable pub append_link : List Relationship → Text → Bool → List Text → List Relationship
unfolding target_of
append_link rels name optional services =
    if member name services
    then rels ++ record { target = target_of name; optional = optional } ∷ []
    else rels

unfoldable pub append_deps : List Relationship → List Text → List Text → List Relationship
unfolding append_link
append_deps rels [] services = rels
append_deps rels (dep ∷ deps) services =
    append_deps (append_link rels dep true services) deps services

-- DependentServices, from the relationships of libcompose's service and whether the image is missing.
unfoldable pub dependent_services :
    List Relationship → Text → Deps → ServiceConfig → Bool → List Text → List Relationship
unfolding deps_of append_deps requires_syslog requires_user_docker
dependent_services own name deps cfg missing_image services =
    let rels = append_deps own (deps_of name deps) services in
    let logged =
      if requires_syslog cfg then append_link rels (codes "syslog") false services else rels in
    if requires_user_docker cfg
    then append_link logged (codes "docker") false services
    else if missing_image
    then append_link logged (codes "network") false services
    else logged
