-- ===== src/Config/Disk/Examples.antt =====
-- A small system: a file of the user, a broken one, and a machine with a root disk.
use burmilla_os.Base.{
  ◌≡◌, ◌≢◌, ◌↔◌, refl, Bool, true, false, none, some, [], codes, text_eq, All, if◌then◌else◌,
}
use burmilla_os.Base.Result.{ok, panicked}
use burmilla_os.Strings.{split}
use burmilla_os.Config.Value.{
  text, object, Fields, end, field, lookup, put, get, IsMap, IsWellFormed,
}
use burmilla_os.Config.Merge.{merge, map_copy}
use burmilla_os.Config.Disk.Machine.{Metadata, merge_metadata, has_hostname}
use burmilla_os.Config.Disk.{
  System, content, missing, unreadable, cloud_config_file, os_config_file, load_raw_config,
  load_raw_config_with_error, export, filter_keys, private_keys, additional_keys, items, nil,
}
use burmilla_os.Cmdline.{read}
use burmilla_os.Config.Disk.Files.{load_raw_config_strict}
use burmilla_os.Config.Disk.Export.{export_private, Lacks, path}
use burmilla_os.Config.Disk.UserData.{
  merge_metadata_panics_iff, merge_metadata_entries, hostname_of, IsObject,
}

abbrev machine : Metadata
machine = record { hostname = codes "m"; ssh_public_keys = []; root_disk = codes "/dev/sda" }

abbrev rancher : Fields
rancher =
    field (codes "ssh") (text (codes "key"))
      (field (codes "resize_device") (text (codes "/dev/sdb")) end)

-- A name of the user, and settings with a private key.
abbrev user : Fields
user = field (codes "hostname") (text (codes "u")) (field (codes "rancher") (object rancher) end)

user-IsMap : IsMap user
unfolding lookup text_eq IsWellFormed
user-IsMap = (refl, tt, (refl, (refl, tt, (refl, tt, tt)), tt))

-- The file of the user is there, and the oem file cannot be read if the flag says so.
abbrev system : Bool → System
system broken = record {
  read_file = λ f.
      if text_eq f cloud_config_file
      then content (codes "u")
      else if text_eq f os_config_file
      then missing
      else if broken
      then unreadable (codes "denied")
      else missing;
  read_dir = λ d. none;
  join = λ d f. f;
  substitute = λ s. s;
  unmarshal = λ s. ok user;
  convert = λ m. ok false;
  unmarshal_value = λ s. none;
  cmdline = some [];
  metadata = machine;
}

merge_metadata_panics_iff_example :
    (merge_metadata end machine ≡ panicked)
    ↔ ((machine.root_disk ≢ []) × (¬ (IsObject (lookup (codes "rancher") end))))
unfolding IsMap
merge_metadata_panics_iff_example = merge_metadata_panics_iff end machine tt

-- The user's data win over the machine's.
abbrev result : Fields
result =
    field (codes "hostname") (text (codes "u")) (
      field (codes "rancher") (object rancher)
        (field (codes "ssh_authorized_keys") (items nil) end))

result-IsMap : IsMap result
unfolding lookup text_eq IsWellFormed
result-IsMap = (refl, tt, (refl, (refl, tt, (refl, tt, tt)), (refl, tt, tt)))

merged : merge_metadata user machine ≡ ok result
unfolding merge_metadata map_copy lookup put text_eq has_hostname
merged = refl

merge_metadata_entries_example :
    lookup (codes "hostname") result ≡ hostname_of (codes "m") (lookup (codes "hostname") user)
unfolding text_eq
merge_metadata_entries_example =
    merge_metadata_entries user result machine (codes "hostname") user-IsMap merged

loaded : load_raw_config_with_error (system false) ≡ ok result
unfolding load_raw_config_with_error text_eq lookup put map_copy merge read has_hostname
loaded = refl

load_raw_config_strict_example : load_raw_config (system false) true ≡ ok result
load_raw_config_strict_example = load_raw_config_strict (system false) result loaded

abbrev out : Fields
out = filter_keys private_keys (filter_keys additional_keys result)

exported : export (system false) false true ≡ ok out
unfolding export
exported = rw (load_raw_config_strict (system false) result loaded) refl

export_private_example :
    All (Lacks out) private_keys
    × (get (path (codes "hostname")) (object out) ≡ get (path (codes "hostname")) (object result))
unfolding split text_eq
export_private_example =
    export_private (system false) true result out (codes "hostname")
      (load_raw_config_strict (system false) result loaded) result-IsMap exported
      (refl, (refl, (refl, tt))) (refl, (refl, (refl, (refl, (refl, tt)))))
