-- ===== src/SystemService/Linked.antt =====
-- The labels `after` and `before` of the services, and the dependencies that the factory collects.
use burmilla_os.Base.{
  Bool, false, ◌&&◌, ◌||◌, List, [], ◌∷◌, ◌++◌, Text, text_eq, member, codes, ◌≡◌, refl, arith,
}
use burmilla_os.SystemService.{
  Labels, Deps, label, names_in, deps_of, afters, befores, create, create_all,
}

-- Some service of the list is to start after the dependency, or is the dependency and is to start
-- before the service.
abbrev pub is_declared : Text → Text → List (Text × Labels) → Bool
is_declared name dep [] = false
is_declared name dep ((n, labels) ∷ services) =
    text_eq n name && member dep (names_in (label (codes "io.rancher.os.after") labels))
    || (text_eq n dep && member name (names_in (label (codes "io.rancher.os.before") labels))
        || is_declared name dep services)

member-append :
    (name dep : Text) (xs ys : Deps)
    → member dep (deps_of name (xs ++ ys))
      ≡ (member dep (deps_of name xs) || member dep (deps_of name ys))
unfolding deps_of member
member-append name dep [] ys = refl
member-append name dep ((n, d) ∷ xs) ys = ground (arith, member-append name dep xs ys)

member-afters :
    (name dep n : Text) (names : List Text)
    → member dep (deps_of name (afters n names)) ≡ (text_eq n name && member dep names)
unfolding deps_of member
member-afters name dep n [] = ground arith
member-afters name dep n (d ∷ names) = ground (arith, member-afters name dep n names)

member-befores :
    (name dep n : Text) (names : List Text)
    → member dep (deps_of name (befores n names)) ≡ (text_eq n dep && member name names)
unfolding deps_of member
member-befores name dep n [] = ground arith
member-befores name dep n (d ∷ names) = ground (arith, member-befores name dep n names)

member-create :
    (name dep n : Text) (labels : Labels) (deps : Deps)
    → member dep (deps_of name (create n labels deps)) ≡ (
        member dep (deps_of name deps)
        || (text_eq n name && member dep (names_in (label (codes "io.rancher.os.after") labels))
            || text_eq n dep
              && member name (names_in (label (codes "io.rancher.os.before") labels))))
unfolding create
member-create name dep n labels deps = ground (
  arith,
  member-append name dep (deps ++ afters n (names_in (label (codes "io.rancher.os.after") labels)))
      (befores n (names_in (label (codes "io.rancher.os.before") labels))),
  member-append name dep deps (afters n (names_in (label (codes "io.rancher.os.after") labels))),
  member-afters name dep n (names_in (label (codes "io.rancher.os.after") labels)),
  member-befores name dep n (names_in (label (codes "io.rancher.os.before") labels)),
)

-- In whatever order the services of a project are created, a service depends on exactly those that it
-- depended on before, that its own label `after` names, and whose label `before` names it.
pub member-create_all :
    (name dep : Text) (services : List (Text × Labels)) (deps : Deps)
    → member dep (deps_of name (create_all services deps))
      ≡ (member dep (deps_of name deps) || is_declared name dep services)
unfolding create_all
member-create_all name dep [] deps = ground arith
member-create_all name dep ((n, labels) ∷ services) deps = ground (
  arith,
  member-create_all name dep services (create n labels deps),
  member-create name dep n labels deps,
)
