-- ===== src/Config/Disk.antt =====
-- config/disk.go and config/config.go: the configuration of the system, from its files, the kernel
-- command line and the metadata of the machine. The file system, the YAML parser, the conversion into
-- the configuration's struct and the substitution of variables are a record of parameters.
pub mod Export
pub mod Files
pub mod Machine
pub mod UserData
mod Examples
use burmilla_os.Base.{
  ℕ, zero, suc, Bool, true, false, ◌&&◌, ◌||◌, not, ◌==◌, ltb, Option, none, some, List, [], ◌∷◌,
  ◌++◌, Text, codes, text_eq, if◌then◌else◌,
}
use burmilla_os.Base.Result.{Result, ok, failed, panicked, out_of_fuel, ◌>>=◌}
use burmilla_os.Strings.{has_prefix, split, trim_space}
use burmilla_os.Config.Value.{
  Value, text, scalar, Scalar, boolean, items, object, Items, nil, cons, Fields, end, field, lookup,
  put,
}
use burmilla_os.Config.Merge.{merge, map_copy}
use burmilla_os.Config.FilterKey.{filter_key}
use burmilla_os.Config.Disk.Machine.{Metadata, merge_metadata}
use burmilla_os.Cmdline.{get_or_set_val, parse, read, unescape_kernel_params}

-- Reading a file: its content, or that it is not there, or the error.
pub data ReadResult : Type 0 where
  content : Text → ReadResult
  missing : ReadResult
  unreadable : Text → ReadResult

pub record DirEntry : Type 0 where
  pub name : Text
  pub is_dir : Bool

-- `unmarshal` gives the tree of a file, `convert` the error of the conversion into the struct, or
-- the field `Rancher.Debug` of it, and `unmarshal_value` is the parser for a single value.
pub record System : Type 0 where
  pub read_file : Text → ReadResult
  pub read_dir : Text → Option (List DirEntry)
  pub join : Text → Text → Text
  pub substitute : Text → Text
  pub unmarshal : Text → Result Fields
  pub convert : Fields → Result Bool
  pub unmarshal_value : Text → Option Value
  pub cmdline : Option Text
  pub metadata : Metadata

abbrev pub cloud_config_dir : Text
cloud_config_dir = codes "/var/lib/rancher/conf/cloud-config.d"

abbrev pub cloud_config_file : Text
cloud_config_file = codes "/var/lib/rancher/conf/cloud-config.yml"

abbrev pub os_config_file : Text
os_config_file = codes "/usr/share/ros/os-config.yml"

abbrev pub oem_config_file : Text
oem_config_file = codes "/usr/share/ros/oem/oem-config.yml"

unfoldable pub of_read : ReadResult → Result Text
of_read (content s) = ok s
of_read missing = ok []
of_read (unreadable e) = failed e

-- The result of a part of `readConfigs` that adds to `left`: its error is returned, or logged and
-- passed over.
unfoldable pub settle : Bool → Fields → Result Fields → Result Fields
settle return_err left (ok m) = ok m
settle return_err left (failed e) = if return_err then failed e else ok left
settle return_err left panicked = panicked
settle return_err left out_of_fuel = out_of_fuel

module _ (system : System) where
  unfoldable pub read_config_file : Text → Result Text
  unfolding of_read
  read_config_file file = of_read (system.read_file file)

  -- A content that is not empty is parsed, checked and merged over `left`.
  unfoldable pub overlay : Bool → Fields → Text → Result Fields
  overlay substitute_vars left [] = ok left
  overlay substitute_vars left (c ∷ s) =
      system.unmarshal (if substitute_vars then system.substitute (c ∷ s) else c ∷ s) >>= λ right.
      system.convert right >>= λ debug. ok (merge left right)

  unfoldable pub overlay_file : Bool → Fields → Text → Result Fields
  unfolding overlay read_config_file
  overlay_file substitute_vars left file =
      read_config_file file >>= λ bytes. overlay substitute_vars left bytes

  unfoldable pub overlay_files : Bool → Bool → Fields → List Text → Result Fields
  unfolding overlay_file settle
  overlay_files substitute_vars return_err left [] = ok left
  overlay_files substitute_vars return_err left (file ∷ files) =
      settle return_err left (overlay_file substitute_vars left file) >>= λ m.
      overlay_files substitute_vars return_err m files

  unfoldable pub read_configs : Text → Bool → Bool → List Text → Result Fields
  unfolding overlay_files
  read_configs bytes substitute_vars return_err files =
      overlay_files substitute_vars return_err end files >>= λ left.
      settle return_err left (overlay substitute_vars left bytes)

  unfoldable pub dir_files : List DirEntry → List Text
  dir_files [] = []
  dir_files (file ∷ files) =
      let rest = dir_files files in
      if not file.is_dir && not (has_prefix file.name (codes "."))
      then system.join cloud_config_dir file.name ∷ rest
      else rest

  unfoldable pub cloud_config_dir_files : List Text
  unfolding dir_files
  cloud_config_dir_files = elim (system.read_dir cloud_config_dir) [
    | none ↦ []
    | some files ↦ dir_files files
  ]

  -- The error that the callers drop.
  unfoldable pub or_empty : Result Fields → Fields
  or_empty (ok m) = m
  or_empty (failed e) = end
  or_empty panicked = end
  or_empty out_of_fuel = end

  unfoldable pub load_raw_disk_config : Bool → Fields
  unfolding read_configs cloud_config_dir_files or_empty
  load_raw_disk_config full =
      merge
        (if full
          then or_empty (read_configs [] true false (os_config_file ∷ oem_config_file ∷ []))
          else end)
        (or_empty (read_configs [] true false (cloud_config_dir_files ++ cloud_config_file ∷ [])))

  unfoldable pub load_raw_disk_config_with_error : Result Fields
  unfolding read_configs cloud_config_dir_files
  load_raw_disk_config_with_error =
      read_configs [] true true (os_config_file ∷ oem_config_file ∷ []) >>= λ raw.
      read_configs [] true true (cloud_config_dir_files ++ cloud_config_file ∷ []) >>= λ additional.
      ok (merge raw additional)

  unfoldable pub read_elided_cmdline : Fields → Fields
  read_elided_cmdline raw = elim (lookup (codes "EXTRA_CMDLINE") raw) [
    | some (text val) ↦ parse system.unmarshal_value (trim_space (unescape_kernel_params val)) false
    | other ↦ end
  ]

  abbrev pub set_true : Text → Fields → Fields
  set_true key m = (get_or_set_val system.unmarshal_value key m (some (scalar (boolean true)))).1

  unfoldable pub apply_debug_flags : Fields → Fields
  apply_debug_flags raw = elim (system.convert raw) [
    | ok true ↦ set_true (codes "rancher.log") (
        set_true (codes "rancher.bootstrap_docker.debug") (
          set_true (codes "rancher.system_docker.debug")
            (set_true (codes "rancher.docker.debug") raw)))
    | other ↦ raw
  ]

  -- Both layers of the kernel command line over a configuration.
  unfoldable pub overlay_cmdline : Fields → Fields
  unfolding read_elided_cmdline
  overlay_cmdline disk =
      let with_cmdline = merge disk (read system.unmarshal_value false system.cmdline) in
      merge with_cmdline (read_elided_cmdline with_cmdline)

unfoldable pub load_raw_config : System → Bool → Result Fields
unfolding load_raw_disk_config overlay_cmdline apply_debug_flags merge_metadata
load_raw_config system full =
    merge_metadata
      (apply_debug_flags system (overlay_cmdline system (load_raw_disk_config system full)))
      system.metadata

unfoldable pub load_raw_config_with_error : System → Result Fields
unfolding load_raw_disk_config_with_error overlay_cmdline apply_debug_flags merge_metadata
load_raw_config_with_error system = load_raw_disk_config_with_error system >>= λ raw.
    merge_metadata (apply_debug_flags system (overlay_cmdline system raw)) system.metadata

abbrev pub private_keys : List Text
private_keys =
    codes "rancher.ssh"
    ∷ codes "rancher.docker.ca_key"
    ∷ codes "rancher.docker.ca_cert"
    ∷ codes "rancher.docker.server_key"
    ∷ codes "rancher.docker.server_cert"
    ∷ []

abbrev pub additional_keys : List Text
additional_keys = codes "rancher.password" ∷ codes "rancher.autologin" ∷ codes "EXTRA_CMDLINE" ∷ []

-- The loop of `filterPrivateKeys` and of `filterAdditional`.
unfoldable pub filter_keys : List Text → Fields → Fields
filter_keys [] data' = data'
filter_keys (key ∷ keys) data' = filter_keys keys (filter_key data' (split b'.' key)).1

-- What `Export` marshals.
unfoldable pub export : System → Bool → Bool → Result Fields
unfolding load_raw_config filter_keys
export system private full = load_raw_config system full >>= λ raw.
    let additional = filter_keys additional_keys raw in
    ok (if private then additional else filter_keys private_keys additional)

-- What `Merge` and `Set` write to the cloud-config file.
unfoldable pub merge_bytes : System → Text → Result Fields
unfolding read_configs
merge_bytes system bytes = read_configs system bytes false true [] >>= λ data'.
    read_configs system [] false true (cloud_config_file ∷ []) >>= λ existing.
    ok (merge existing data')

unfoldable pub set_value : System → Text → Value → Result Fields
unfolding read_configs
set_value system key value =
    read_configs system [] false true (cloud_config_file ∷ []) >>= λ existing.
    let modified = (get_or_set_val system.unmarshal_value key existing (some value)).1 in
    system.convert modified >>= λ debug. ok modified
