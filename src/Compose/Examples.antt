-- ===== src/Compose/Examples.antt =====
-- Services that extend each other, and services that are merged.
use burmilla_os.Base.{◌≡◌, inl, refl, suc, false, none, some, [], ◌∷◌, Text, codes, text_eq}
use burmilla_os.Base.Result.{Result, ok}
use burmilla_os.Config.Value.{text, object, Fields, end, field, lookup, IsWellFormed}
use burmilla_os.Compose.Service.{Loader, merge_config, read_env_file, resolve_context_v1, as_string}
use burmilla_os.Compose.Parse.{RawServices, parse_service, service_of, set_service}
use burmilla_os.Compose.Merging.{lookup-merge_config, combined, is_dropped}
use burmilla_os.Compose.Extends.{parse_service_drops_error}

abbrev found : Text → Text → Result (Text × Text)
found file in_file = ok ([], file)

abbrev loader : Loader
loader = record {
  lookup_file = some found;
  scan_lines = λ s. ([], none);
  is_valid_remote = λ s. false;
  dir = λ s. s;
  join = λ a b. b;
}

-- A service that extends the given one, in the given file.
abbrev extending : Text → Text → Fields
extending service file =
    field (codes "extends")
      (object (field (codes "service") (text service) (field (codes "file") (text file) end))) end

-- Every file has one service, which extends one that is missing.
abbrev load : Text → Result RawServices
load bytes = ok ((codes "b", extending (codes "c") []) ∷ [])

parse_service_drops_error_example :
    parse_service loader
      (resolve_context_v1 loader)
      load
      (suc 1)
      (codes "f")
      (codes "a")
      (extending (codes "b") (codes "g"))
      []
    ≡ ok (
      merge_config end (extending (codes "b") (codes "g")),
      set_service (codes "a") (extending (codes "b") (codes "g")) [],
    )
unfolding read_env_file resolve_context_v1 lookup text_eq as_string service_of parse_service
    set_service
parse_service_drops_error_example =
    parse_service_drops_error loader (resolve_context_v1 loader) load found 1 (codes "f")
      (codes "a") (codes "b") (codes "g") [] (codes "g")
      (codes "Failed to find service c to extend") (extending (codes "b") (codes "g"))
      (extending (codes "c") []) [] ((codes "b", extending (codes "c") []) ∷ []) refl (refl, refl)
      (_, refl, refl, refl) (λ e. cc) (λ e. cc) refl refl refl refl

abbrev base : Fields
base = field (codes "build") (text (codes ".")) (field (codes "tty") (text (codes "no")) end)

abbrev image_only : Fields
image_only = field (codes "image") (text (codes "busybox")) end

lookup-merge_config_example :
    lookup (codes "build") (merge_config base image_only)
    ≡ combined
        (lookup (codes "build") image_only)
        (is_dropped (codes "build") image_only)
        (lookup (codes "build") base)
unfolding lookup text_eq IsWellFormed
lookup-merge_config_example =
    lookup-merge_config (codes "build") base image_only (refl, tt, tt) (inl refl)
