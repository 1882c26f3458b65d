-- ===== src/ContainerId.antt =====
-- pkg/util/util.go: the ID of the container that the process runs in, found in the text of
-- /proc/self/cgroup or of /proc/self/mountinfo.
pub mod Cgroup
pub mod MountInfo
pub mod Current
mod Examples
use burmilla_os.Base.{
  ℕ, ◌≡◌, refl, Bool, true, false, ◌&&◌, ◌||◌, Option, none, some, List, [], ◌∷◌, ◌++◌, Text,
  text_eq, member, length, get_elem?, codes, leb, ◌==◌, if◌then◌else◌,
}
use burmilla_os.Strings.{split, split_n, fields, trim_prefix, trim_suffix}

-- What a scanner reads: the lines up to the end or to the first error, and that error.
pub record Scanned : Type 0 where
  pub lines : List Text
  pub failure : Option Text

abbrev pub container_id_length : ℕ
container_id_length = 64

abbrev pub is_hex : ℕ → Bool
is_hex c = leb b'0' c && leb c b'9' || leb b'a' c && leb c b'f'

pub all_hex : Text → Bool
all_hex [] = true
all_hex (c ∷ s) = is_hex c && all_hex s

pub is_container_id : Text → Bool
unfolding all_hex
is_container_id s = length s == container_id_length && all_hex s

-- The loop over the elements of a cgroup path.
pub bare : Text → Text
bare part = trim_prefix (trim_suffix part (codes ".scope")) (codes "docker-")

pub id_among : List Text → Option Text
unfolding bare
id_among [] = none
id_among (part ∷ parts) = if is_container_id (bare part) then some (bare part) else id_among parts

-- One round of the loop over the lines: the ID that the line names. A line has three fields.
pub path_id : List Text → Option Text
unfolding id_among
path_id (hierarchy ∷ controllers ∷ path ∷ []) = id_among (split b'/' path)
path_id _ = none

pub cgroup_line : Text → Option Text
unfolding path_id
cgroup_line line = path_id (split_n b':' line 3)

-- The results are the ID, empty if there is none, and the error.
pub cgroup_lines : List Text → Option Text → Text × Option Text
cgroup_lines [] failure = ([], failure)
cgroup_lines (line ∷ lines) failure = elim (cgroup_line line) [
  | some id ↦ (id, none)
  | none ↦ cgroup_lines lines failure
]

pub parse_cgroup : Scanned → Text × Option Text
unfolding cgroup_lines cgroup_line
parse_cgroup cgroup = cgroup_lines cgroup.lines cgroup.failure

-- The loop over the elements of a path: an element that follows "containers".
pub id_behind : List Text → Text
id_behind [] = []
id_behind (part ∷ []) = []
id_behind (part ∷ next ∷ parts) =
    if text_eq part (codes "containers") && is_container_id next
    then next
    else id_behind (next ∷ parts)

pub container_id_from_path : Text → Text
unfolding id_behind
container_id_from_path mount_root = id_behind (split b'/' mount_root)

abbrev pub container_mount_points : List Text
container_mount_points = codes "/etc/resolv.conf" ∷ codes "/etc/hostname" ∷ codes "/etc/hosts" ∷ []

-- `Contains` finds no empty value.
pub contains : List Text → Text → Bool
contains values [] = false
contains values (c ∷ value) = member (c ∷ value) values

-- The variables `id` and `otherID` of the loop.
pub record Found : Type 0 where
  pub id : Text
  pub other_id : Text

pub note : Text → Text → Found → Found
unfolding contains
note [] mount_point f = f
note (c ∷ found) mount_point f =
    if contains container_mount_points mount_point
    then record f { id = c ∷ found }
    else record f { other_id = c ∷ found }

-- One round of the loop over the lines, on the fields of the line.
pub mount_fields : List Text → Found → Found
unfolding note container_id_from_path
mount_fields (a ∷ b ∷ c ∷ root ∷ mount_point ∷ more) f =
    note (container_id_from_path root) mount_point f
mount_fields _ f = f

pub mount_line : Text → Found → Found
unfolding mount_fields
mount_line line f = mount_fields (fields line) f

pub mount_lines : List Text → Found → Found
mount_lines [] f = f
mount_lines (line ∷ lines) f = mount_lines lines (mount_line line f)

pub either : Found → Text
either f = elim f.id [ [] ↦ f.other_id | c ∷ id ↦ c ∷ id ]

pub parse_mount_info : Scanned → Text × Option Text
unfolding mount_lines mount_line either
parse_mount_info mount_info =
    (either (mount_lines mount_info.lines (record { id = []; other_id = [] })), mount_info.failure)

-- An open file, or the error of opening it.
pub data Opened : Type 0 where
  opened : Scanned → Opened
  no_file : Text → Opened

pub container_id_from_cgroup : Opened → Text × Option Text
container_id_from_cgroup (opened file) = parse_cgroup file
container_id_from_cgroup (no_file e) = ([], some e)

pub container_id_from_mount_info : Opened → Text × Option Text
container_id_from_mount_info (opened file) = parse_mount_info file
container_id_from_mount_info (no_file e) = ([], some e)

abbrev pub no_id : Text
no_id = codes "Found no docker container ID for the current process"

pub from_mount_info : Text × Option Text → Text × Option Text
from_mount_info (id, some e) = ([], some e)
from_mount_info ([], none) = ([], some no_id)
from_mount_info (c ∷ id, none) = (c ∷ id, none)

pub from_cgroup : Text × Option Text → Text × Option Text → Text × Option Text
from_cgroup (id, some e) mount_info = ([], some e)
from_cgroup (c ∷ id, none) mount_info = (c ∷ id, none)
from_cgroup ([], none) mount_info = from_mount_info mount_info

-- GetCurrentContainerID, of the files at `cgroup_file` and `mount_info_file`.
pub get_current_container_id : Opened → Opened → Text × Option Text
unfolding container_id_from_cgroup container_id_from_mount_info from_cgroup from_mount_info
get_current_container_id cgroup mount_info =
    from_cgroup (container_id_from_cgroup cgroup) (container_id_from_mount_info mount_info)
