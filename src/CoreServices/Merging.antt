-- ===== src/CoreServices/Merging.antt =====
-- The merger of the core project: `Merge` of pkg/libcompose/config with the options that `newProject`
-- of pkg/compose/project.go gives, on the configurations that the project has.
use burmilla_os.Base.{ℕ, true, false, none, some, [], Text}
use burmilla_os.Base.Result.{Result}
use burmilla_os.Config.Value.{Value, Scalar, Fields}
use burmilla_os.Compose.Service.{Loader}
use burmilla_os.Compose.Parse.{RawServices}
use burmilla_os.Compose.Services.{Environment, ParseOptions, Parser, merge_file}
use burmilla_os.CoreServices.{preprocess_service_map}
use burmilla_os.CoreServices.Maps.{Map, get}
use burmilla_os.CoreServices.Projects.{Merger}

unfoldable pub core_options : (Scalar → Text) → ParseOptions
unfolding preprocess_service_map
core_options print = record {
  interpolates = true;
  validates = false;
  preprocess = some (preprocess_service_map print);
}

-- `to_raw` is the conversion of a configuration into a raw service. The project's existing
-- configurations are the parser's.
unfoldable pub core_merger :
    {S V N : Type 0}
    → Loader
    → Parser
    → Environment
    → (Scalar → Text)
    → (S → Result Fields)
    → (RawServices → Result (Map S))
    → (RawServices → Result (Map S))
    → (Value → Result (Map V))
    → (Value → Result (Map N))
    → (S → Text)
    → (Text → S → S)
    → ℕ
    → Merger S V N
unfolding merge_file core_options get
core_merger loader parser environment print to_raw convert_v1 convert_v2 convert_volumes
      convert_networks restart with_restart fuel configs bytes =
    merge_file loader
      (record parser {
        existing =
            λ name. elim (get name configs) [ none ↦ none | some config ↦ some (to_raw config) ];
      })
      environment (core_options print) convert_v1 convert_v2 convert_volumes convert_networks
      restart with_restart none fuel [] bytes
