-- ===== src/Config/Examples.antt =====
-- A tree of defaults, a tree of settings, and what becomes of them.
use burmilla_os.Base.{true, List, [], ◌∷◌, Text, codes, ◌≡◌, refl, some, text_eq}
use burmilla_os.Config.Value.{
  text, scalar, object, Fields, end, field, boolean, lookup, get, IsWellFormed, IsMap,
}
use burmilla_os.Config.Merge.{merge}
use burmilla_os.Config.Merge.Lookup.{lookup-merge, combine}
use burmilla_os.Config.Merge.Paths.{misses}
use burmilla_os.Config.FilterKey.{filter_key}
use burmilla_os.Config.FilterKey.Frame.{filter_key_frame, Kept}

abbrev defaults : Fields
defaults =
    field (codes "rancher")
      (object (
        field (codes "debug") (scalar (boolean true))
          (field (codes "console") (text (codes "default")) end)))
      (field (codes "hostname") (text (codes "burmilla")) end)

abbrev settings : Fields
settings =
    field (codes "rancher") (object (field (codes "console") (text (codes "debian")) end)) end

abbrev console : List Text
console = codes "rancher" ∷ codes "console" ∷ []

abbrev debug : List Text
debug = codes "rancher" ∷ codes "debug" ∷ []

defaults-IsMap : IsMap defaults
unfolding IsWellFormed lookup text_eq
defaults-IsMap = (refl, (refl, tt, (refl, tt, tt)), (refl, tt, tt))

settings-IsMap : IsMap settings
unfolding IsWellFormed lookup text_eq
settings-IsMap = (refl, (refl, tt, tt), tt)

defaults-IsWellFormed : IsWellFormed (object defaults)
unfolding IsWellFormed
defaults-IsWellFormed = defaults-IsMap

settings-IsWellFormed : IsWellFormed (object settings)
unfolding IsWellFormed
settings-IsWellFormed = settings-IsMap

console_set : get console (object settings) ≡ some (text (codes "debian"))
unfolding get lookup text_eq
console_set = refl

debug_missed : misses debug (object settings) ≡ true
unfolding lookup text_eq
debug_missed = refl

console_default : get console (object defaults) ≡ some (text (codes "default"))
unfolding get lookup text_eq
console_default = refl

lookup-merge_example :
    lookup (codes "rancher") (merge defaults settings)
    ≡ combine (lookup (codes "rancher") defaults) (lookup (codes "rancher") settings)
lookup-merge_example =
    lookup-merge (codes "rancher") defaults settings defaults-IsMap settings-IsMap

filter_key_frame_example : Kept debug (filter_key defaults console) (get debug (object defaults))
unfolding text_eq
filter_key_frame_example = filter_key_frame defaults console debug defaults-IsMap refl
