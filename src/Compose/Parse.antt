-- ===== src/Compose/Parse.antt =====
-- `parseV1` and `parseV2`, which differ in two calls that are parameters here: how the context of a
-- build is resolved, and how the services of another file are read. A service is changed in place, so
-- the services of the file are a state that the calls pass on.
use burmilla_os.Base.{
  ℕ, zero, suc, Bool, true, false, Option, none, some, List, [], ◌∷◌, ◌++◌, Text, codes, text_eq,
  if◌then◌else◌,
}
use burmilla_os.Base.Result.{Result, ok, failed, panicked, out_of_fuel, ◌>>=◌}
use burmilla_os.Config.Value.{object, Fields, end, lookup}
use burmilla_os.Compose.Service.{Loader, clone, as_string, merge_config, read_env_file}

-- The raw services of a file, by their names.
abbrev pub RawServices : Type 0
RawServices = List (Text × Fields)

-- datas[name]
unfoldable pub service_of : Text → RawServices → Option Fields
service_of name [] = none
service_of name ((j, d) ∷ datas) = if text_eq j name then some d else service_of name datas

-- datas[name] = d
unfoldable pub set_service : Text → Fields → RawServices → RawServices
set_service name d [] = (name, d) ∷ []
set_service name d ((j, e) ∷ datas) =
    if text_eq j name then (name, d) ∷ datas else (j, e) ∷ set_service name d datas

-- The keys with which a service cannot be extended.
unfoldable pub has_no_merge : Fields → Bool
has_no_merge base = elim (lookup (codes "links") base) [
  | some v ↦ true
  | none ↦ elim (lookup (codes "volumes_from") base) [ some v ↦ true | none ↦ false ]
]

-- The end of the function: the base service is merged with the service itself.
unfoldable pub extend_base : Text → Fields → Fields → Result Fields
unfolding has_no_merge clone merge_config
extend_base service base data' =
    if has_no_merge (clone base)
    then failed (codes "Cannot extend service '" ++ (service ++ codes "'"))
    else ok (merge_config (clone base) data')

-- The error of parsing a service of another file is assigned to the variable of the inner block, and
-- the function goes on with the nil map that comes with it.
unfoldable pub drop_error : Result (Fields × RawServices) → Result Fields
drop_error (ok (base, datas)) = ok base
drop_error (failed e) = ok end
drop_error panicked = panicked
drop_error out_of_fuel = out_of_fuel

module _ (loader : Loader) (resolve_context : Text → Fields → Result Fields)
    (load_services : Text → Result RawServices) where
  -- The two ways to a base service; the first argument is the recursive call.
  unfoldable pub same_file :
      (Text → Text → Fields → RawServices → Result (Fields × RawServices))
      → Text
      → Text
      → Fields
      → RawServices
      → Result (Fields × RawServices)
  unfolding extend_base
  same_file parse in_file service data' datas = elim (service_of service datas) [
    | none ↦ failed (codes "Failed to find service " ++ (service ++ codes " to extend"))
    | some base ↦ parse in_file service base datas >>= λ parsed.
        extend_base service parsed.0 data' >>= λ result. ok (result, parsed.1)
  ]

  unfoldable pub parse_base :
      (Text → Text → Fields → RawServices → Result (Fields × RawServices))
      → Text
      → Text
      → Text
      → RawServices
      → Result Fields
  unfolding drop_error
  parse_base parse file resolved service services = elim (service_of service services) [
    | none ↦ failed (codes "Failed to find service " ++ (service ++ (codes " in file " ++ file)))
    | some base ↦ drop_error (parse resolved service base services)
  ]

  unfoldable pub other_file :
      (Text → Text → Fields → RawServices → Result (Fields × RawServices))
      → (Text → Text → Result (Text × Text))
      → Text
      → Text
      → Text
      → Fields
      → RawServices
      → Result (Fields × RawServices)
  unfolding parse_base extend_base
  other_file parse find_file in_file file service data' datas =
      find_file file in_file
      >>= (λ found.
          load_services found.0 >>= λ services. parse_base parse file found.1 service services)
      >>= (λ base. extend_base service base data')
      >>= λ result. ok (result, datas)

  unfoldable pub extend :
      (Text → Text → Fields → RawServices → Result (Fields × RawServices))
      → Option (Text → Text → Result (Text × Text))
      → Text
      → Fields
      → Fields
      → RawServices
      → Result (Fields × RawServices)
  unfolding same_file other_file as_string
  extend parse none in_file extends data' datas =
      failed (
        codes "Can not use extends in file "
        ++ (in_file ++ codes " no mechanism provided to files"))
  extend parse (some find_file) in_file extends data' datas =
      if text_eq (as_string (lookup (codes "service") extends)) []
      then ok (data', datas)
      else if text_eq (as_string (lookup (codes "file") extends)) []
      then same_file parse in_file (as_string (lookup (codes "service") extends)) data' datas
      else other_file parse find_file in_file (as_string (lookup (codes "file") extends))
          (as_string (lookup (codes "service") extends)) data' datas

  unfoldable pub parse_resolved :
      (Text → Text → Fields → RawServices → Result (Fields × RawServices))
      → Text
      → Fields
      → RawServices
      → Result (Fields × RawServices)
  unfolding extend
  parse_resolved parse in_file data' datas = elim (lookup (codes "extends") data') [
    | some (object extends) ↦ extend parse loader.lookup_file in_file extends data' datas
    | other ↦ ok (data', datas)
  ]

  -- The arguments are the file, the name of the service, its data and all services.
  unfoldable pub parse_service :
      ℕ → Text → Text → Fields → RawServices → Result (Fields × RawServices)
  unfolding parse_resolved
  parse_service zero in_file name data' datas = out_of_fuel
  parse_service (suc fuel) in_file name data' datas =
      read_env_file loader in_file data' >>= (λ d. resolve_context in_file d) >>= λ d.
      parse_resolved (parse_service fuel) in_file d (set_service name d datas)
