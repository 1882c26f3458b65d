-- ===== src/Compose/Services.antt =====
-- `Interpolate` (interpolation.go), `MergeServicesV1` (merge_v1.go), `MergeServicesV2`, `ParseVolumes`
-- and `ParseNetworks` (merge_v2.go), and `Merge` (merge.go). The YAML parser, the JSON schemas and the
-- conversions into structs are parameters.
use burmilla_os.Base.{
  ℕ, Bool, true, false, Option, none, some, List, [], ◌∷◌, ◌++◌, Text, codes, text_eq,
  if◌then◌else◌,
}
use burmilla_os.Base.Result.{Result, ok, failed, panicked, ◌>>=◌}
use burmilla_os.Config.Value.{Value, Fields, end, field}
use burmilla_os.Interpolation.Values.{
  Interpolated, interpolated, invalid_format, failed_line, parse_config,
}
use burmilla_os.Compose.Service.{Loader, merge_config, resolve_context_v1, resolve_context_v2}
use burmilla_os.Compose.Parse.{RawServices, service_of, set_service, parse_service}

-- An environment lookup, on the name of a variable and of a service: the entries, each cut at its
-- first `=`.
abbrev pub Environment : Type 0
Environment = Text → Text → List (Text × Text)

unfoldable pub first_value : List (Text × Text) → Text
first_value [] = []
first_value ((key, value) ∷ entries) = value

-- The error of `parseConfig` names the option, the service and the text.
unfoldable pub of_interpolated : Text → Text → Interpolated Value → Result Value
of_interpolated option service (interpolated v) = ok v
of_interpolated option service (invalid_format s) = failed (
    codes "Invalid interpolation format for \""
    ++ (option
        ++ (codes "\" option in service \"" ++ (service ++ (codes "\": \"" ++ (s ++ codes "\""))))))
of_interpolated option service (failed_line s) = panicked

module _ (environment : Environment) where
  unfoldable pub interpolate_options : Text → Fields → Result Fields
  unfolding of_interpolated first_value
  interpolate_options service end = ok end
  interpolate_options service (field k v options) =
      of_interpolated k service (parse_config (λ s. first_value (environment s service)) v) >>= λ w.
      interpolate_options service options >>= λ rest. ok (field k w rest)

  unfoldable pub interpolate : RawServices → Result RawServices
  unfolding interpolate_options
  interpolate [] = ok []
  interpolate ((name, options) ∷ config) = interpolate_options name options >>= λ options'.
      interpolate config >>= λ rest. ok ((name, options') ∷ rest)

pub record ParseOptions : Type 0 where
  pub interpolates : Bool
  pub validates : Bool
  pub preprocess : Option (RawServices → Result RawServices)

-- The fields of `Config` that are read.
pub record ConfigFile : Type 0 where
  pub version : Text
  pub services : RawServices
  pub volumes : Value
  pub networks : Value

-- The YAML parser, for a map of services and for a whole file; the validation of all services and of
-- one; the configurations that a project has already, as raw services, with the error of the
-- conversion.
pub record Parser : Type 0 where
  pub unmarshal : Text → Result RawServices
  pub unmarshal_config : Text → Result ConfigFile
  pub validate : RawServices → Result RawServices
  pub validate_service : Text → Fields → Result Fields
  pub existing : Text → Option (Result Fields)

unfoldable pub names_of : RawServices → List Text
names_of [] = []
names_of ((name, d) ∷ datas) = name ∷ names_of datas

module _ (loader : Loader) (parser : Parser) (environment : Environment)
    (options : ParseOptions) where
  unfoldable pub interpolate_if : RawServices → Result RawServices
  interpolate_if datas = if options.interpolates then interpolate environment datas else ok datas

  unfoldable pub preprocess_if : RawServices → Result RawServices
  preprocess_if datas = elim (options.preprocess) [ none ↦ ok datas | some f ↦ f datas ]

  unfoldable pub validate_if : RawServices → Result RawServices
  validate_if datas = if options.validates then parser.validate datas else ok datas

  -- The services that the text of another file holds.
  unfoldable pub load_v1 : Text → Result RawServices
  unfolding interpolate_if preprocess_if validate_if
  load_v1 bytes =
      parser.unmarshal bytes
      >>= (λ datas. interpolate_if datas)
      >>= (λ datas. preprocess_if datas)
      >>= λ datas. validate_if datas

  unfoldable pub load_v2 : Text → Result RawServices
  unfolding interpolate_if
  load_v2 bytes = parser.unmarshal_config bytes >>= λ config. interpolate_if config.services

  -- What the project has for the name is the base.
  unfoldable pub merge_with_existing : Option (Result Fields) → Fields → Result Fields
  merge_with_existing none data' = ok data'
  merge_with_existing (some existing) data' = existing >>= λ base. ok (merge_config base data')

  -- One round of the loop over the services: `parse` is parseV1 or parseV2 on one of them.
  unfoldable pub merge_one :
      (Text → Fields → RawServices → Result (Fields × RawServices))
      → Text
      → Option Fields
      → RawServices
      → Result RawServices
  unfolding merge_with_existing
  merge_one parse name none datas = ok datas
  merge_one parse name (some data') datas = parse name data' datas >>= λ parsed.
      merge_with_existing (parser.existing name) parsed.0 >>= λ merged.
      ok (set_service name merged parsed.1)

  unfoldable pub merge_each :
      (Text → Fields → RawServices → Result (Fields × RawServices))
      → List Text
      → RawServices
      → Result RawServices
  unfolding merge_one
  merge_each parse [] datas = ok datas
  merge_each parse (name ∷ names) datas =
      merge_one parse name (service_of name datas) datas >>= λ datas'. merge_each parse names datas'

  unfoldable pub validate_each : RawServices → Result RawServices
  validate_each [] = ok []
  validate_each ((name, d) ∷ datas) = parser.validate_service name d >>= λ d'.
      validate_each datas >>= λ rest. ok ((name, d') ∷ rest)

  unfoldable pub validate_each_if : RawServices → Result RawServices
  unfolding validate_each
  validate_each_if datas =
      if options.validates then validate_each datas >>= (λ checked. ok datas) else ok datas

  -- The raw services that `MergeServicesV1` converts in the end.
  unfoldable pub merge_services_v1 : ℕ → Text → Text → Result RawServices
  unfolding load_v1 merge_each names_of validate_each_if
  merge_services_v1 fuel file bytes =
      load_v1 bytes
      >>= (λ datas.
          merge_each
            (λ name. parse_service loader (resolve_context_v1 loader) load_v1 fuel file name)
            (names_of datas) datas)
      >>= λ datas. validate_each_if datas

  unfoldable pub merge_services_v2 : ℕ → Text → Text → Result RawServices
  unfolding load_v2 preprocess_if merge_each names_of
  merge_services_v2 fuel file bytes = load_v2 bytes >>= (λ datas. preprocess_if datas) >>= λ datas.
      merge_each (λ name. parse_service loader (resolve_context_v2 loader) load_v2 fuel file name)
        (names_of datas) datas

  unfoldable pub parse_volumes : {V : Type 0} → (Value → Result V) → Text → Result V
  parse_volumes convert bytes = parser.unmarshal_config bytes >>= λ config. convert config.volumes

  unfoldable pub parse_networks : {V : Type 0} → (Value → Result V) → Text → Result V
  parse_networks convert bytes = parser.unmarshal_config bytes >>= λ config. convert config.networks

  -- The configurations of services, volumes and networks, of which a name has one each; what is done
  -- with a restart policy is all that is known of a service.
  module _ {S V N : Type 0} (convert_v1 convert_v2 : RawServices → Result (List (Text × S)))
      (convert_volumes : Value → Result (List (Text × V)))
      (convert_networks : Value → Result (List (Text × N))) (restart : S → Text)
      (with_restart : Text → S → S)
      (postprocess : Option (List (Text × S) → Result (List (Text × S)))) where
    unfoldable pub adjust_values : List (Text × S) → List (Text × S)
    adjust_values [] = []
    adjust_values ((name, v) ∷ configs) =
        (name, if text_eq (restart v) (codes "false") then with_restart (codes "no") v else v)
        ∷ adjust_values configs

    unfoldable pub postprocess_if : List (Text × S) → Result (List (Text × S))
    postprocess_if configs = elim postprocess [ none ↦ ok configs | some f ↦ f configs ]

    -- The two branches, with the volumes and networks of the second version.
    unfoldable pub merge_version :
        Bool → ℕ → Text → Text → Result (List (Text × S) × List (Text × V) × List (Text × N))
    unfolding merge_services_v1 merge_services_v2 parse_volumes parse_networks
    merge_version true fuel file bytes =
        merge_services_v2 fuel file bytes >>= (λ datas. convert_v2 datas) >>= λ configs.
        parse_volumes convert_volumes bytes >>= λ volumes.
        parse_networks convert_networks bytes >>= λ networks. ok (configs, volumes, networks)
    merge_version false fuel file bytes =
        merge_services_v1 fuel file bytes >>= (λ datas. convert_v1 datas) >>= λ configs.
        ok (configs, [], [])

    -- `Merge`; maps that stay nil are empty.
    unfoldable pub merge_file :
        ℕ → Text → Text → Result (List (Text × S) × List (Text × V) × List (Text × N))
    unfolding merge_version adjust_values postprocess_if
    merge_file fuel file bytes =
        parser.unmarshal_config bytes
        >>= (λ config. merge_version (text_eq config.version (codes "2")) fuel file bytes)
        >>= λ merged.
            postprocess_if (adjust_values merged.0) >>= λ configs. ok (configs, merged.1, merged.2)
