-- ===== src/ContainerId/Examples.antt =====
-- Lines of /proc/self/cgroup and of /proc/self/mountinfo.
use burmilla_os.Base.{text_eq, member, ◌≡◌, Text, codes, refl, [], ◌∷◌, ◌++◌, none}
use burmilla_os.Strings.{split_n, trim_prefix, trim_suffix, split, fields}
use burmilla_os.ContainerId.{
  Scanned, opened, no_file, is_container_id, parse_cgroup, parse_mount_info, contains,
  get_current_container_id,
}
use burmilla_os.ContainerId.Current.{IsOutcome, get_current_container_id-IsOutcome}

abbrev some_id : Text
some_id = codes "0123456789abcdef0123456789abcdef0123456789abcdef0123456789abcdef"

abbrev cgroup : Scanned
cgroup = record {
  lines = (codes "2:cpu:/" ∷ (codes "1:name:/docker/" ++ some_id) ∷ []);
  failure = none;
}

abbrev mount_info : Scanned
mount_info = record {
  lines = (codes "7 6 8:1 /a/containers/" ++ some_id ++ codes "/hosts /etc/hosts rw") ∷ [];
  failure = none;
}

abbrev outside : Scanned
outside = record { lines = codes "2:cpu:/" ∷ []; failure = none }

id_runs :
    (get_current_container_id (opened cgroup) (no_file (codes "e")) ≡ (some_id, none))
    × (get_current_container_id (opened outside) (opened mount_info) ≡ (some_id, none))
unfolding get_current_container_id trim_prefix trim_suffix split split_n fields is_container_id
    text_eq contains member parse_cgroup parse_mount_info
id_runs = (refl, refl)

get_current_container_id-IsOutcome_example :
    IsOutcome (get_current_container_id (opened outside) (opened mount_info))
get_current_container_id-IsOutcome_example =
    get_current_container_id-IsOutcome (opened outside) (opened mount_info)
