-- ===== src/ContainerId/Current.antt =====
-- `GetCurrentContainerID`: what it returns, and which of the two files decides.
use burmilla_os.ContainerId.Cgroup.{parse_cgroup_cases, cgroup_line_valid}
use burmilla_os.Base.{
  ℕ, if◌then◌else◌, false, ◌∷◌, [], inr, inl, refl, ◌≡◌, true, ◌⊎◌, Option, none, some, Text, Bool,
  List,
}
use burmilla_os.ContainerId.{
  container_id_from_path, container_id_from_cgroup, container_id_from_mount_info, Opened, opened,
  no_file, from_cgroup, from_mount_info, get_current_container_id, is_container_id, fields,
}
use burmilla_os.ContainerId.MountInfo.{
  prefer, parse_mount_info_lem, container_id_from_path_sound, last_id, mount_id, other_mount_id,
}

-- Empty or a container ID.
abbrev pub IsIdOrEmpty : Text → Type 0
IsIdOrEmpty id = (id ≡ []) ⊎ (is_container_id id ≡ true)

-- An ID and no error, or no ID and an error.
abbrev pub IsOutcome : Text × Option Text → Type 0
IsOutcome (id, none) = is_container_id id ≡ true
IsOutcome (id, some e) = id ≡ []

prefer-IsIdOrEmpty : (a b : Text) → IsIdOrEmpty a → IsIdOrEmpty b → IsIdOrEmpty (prefer a b)
prefer-IsIdOrEmpty [] b ha hb = hb
prefer-IsIdOrEmpty (c ∷ a) b ha hb = ha

path_IsIdOrEmpty : (path : Text) → IsIdOrEmpty (container_id_from_path path)
path_IsIdOrEmpty path = elim (container_id_from_path_sound path) [ inl e ↦ inl e | inr h ↦ inr h.0 ]

if_IsIdOrEmpty :
    (b : Bool) (a c : Text) → IsIdOrEmpty a → IsIdOrEmpty c → IsIdOrEmpty (if b then a else c)
if_IsIdOrEmpty true a c ha hc = ha
if_IsIdOrEmpty false a c ha hc = hc

mount_id-IsIdOrEmpty :
    (parts : List Text) → IsIdOrEmpty (mount_id parts) × IsIdOrEmpty (other_mount_id parts)
mount_id-IsIdOrEmpty (a ∷ b ∷ c ∷ root ∷ mount_point ∷ more) = (
  if_IsIdOrEmpty _ _ _ (path_IsIdOrEmpty root) (inl refl),
  if_IsIdOrEmpty _ _ _ (inl refl) (path_IsIdOrEmpty root),
)
mount_id-IsIdOrEmpty [] = (inl refl, inl refl)
mount_id-IsIdOrEmpty (a ∷ []) = (inl refl, inl refl)
mount_id-IsIdOrEmpty (a ∷ b ∷ []) = (inl refl, inl refl)
mount_id-IsIdOrEmpty (a ∷ b ∷ c ∷ []) = (inl refl, inl refl)
mount_id-IsIdOrEmpty (a ∷ b ∷ c ∷ d ∷ []) = (inl refl, inl refl)

last_id-IsIdOrEmpty :
    (lines : List Text)
    → IsIdOrEmpty (last_id mount_id lines) × IsIdOrEmpty (last_id other_mount_id lines)
last_id-IsIdOrEmpty [] = (inl refl, inl refl)
last_id-IsIdOrEmpty (line ∷ lines) =
    let (a, b) = last_id-IsIdOrEmpty lines in
    let (c, d) = mount_id-IsIdOrEmpty (fields line) in
    (prefer-IsIdOrEmpty _ _ a c, prefer-IsIdOrEmpty _ _ b d)

mount_info-IsIdOrEmpty : (file : Opened) → IsIdOrEmpty (container_id_from_mount_info file).0
unfolding container_id_from_mount_info
mount_info-IsIdOrEmpty (opened file) =
    let (a, b) = last_id-IsIdOrEmpty file.lines in
    rw (parse_mount_info_lem file) (prefer-IsIdOrEmpty _ _ a b)
mount_info-IsIdOrEmpty (no_file e) = inl refl

cgroup-IsIdOrEmpty : (file : Opened) → IsIdOrEmpty (container_id_from_cgroup file).0
unfolding container_id_from_cgroup
cgroup-IsIdOrEmpty (opened file) = elim (parse_cgroup_cases file) [
  | inl h ↦ rw h.1 (inl refl)
  | inr (id, (before, line, after, e, hs, found), h) ↦ rw h (inr (cgroup_line_valid line found))
]
cgroup-IsIdOrEmpty (no_file e) = inl refl

nonempty_id : (c : ℕ) (id : Text) → IsIdOrEmpty (c ∷ id) → is_container_id (c ∷ id) ≡ true
nonempty_id c id (inl e) = cc
nonempty_id c id (inr h) = h

from_mount_info-IsOutcome :
    (r : Text × Option Text) → IsIdOrEmpty r.0 → IsOutcome (from_mount_info r)
unfolding from_mount_info
from_mount_info-IsOutcome (id, some e) h = refl
from_mount_info-IsOutcome ([], none) h = refl
from_mount_info-IsOutcome (c ∷ id, none) h = nonempty_id c id h

from_cgroup-IsOutcome :
    (r s : Text × Option Text) → IsIdOrEmpty r.0 → IsIdOrEmpty s.0 → IsOutcome (from_cgroup r s)
unfolding from_cgroup
from_cgroup-IsOutcome (id, some e) s h k = refl
from_cgroup-IsOutcome (c ∷ id, none) s h k = nonempty_id c id h
from_cgroup-IsOutcome ([], none) s h k = from_mount_info-IsOutcome s k

-- Whatever the two files hold, and whether or not they can be read, the result is either an ID of 64
-- hexadecimal digits with no error, or an error with no ID.
pub get_current_container_id-IsOutcome :
    (cgroup mount_info : Opened) → IsOutcome (get_current_container_id cgroup mount_info)
unfolding get_current_container_id
get_current_container_id-IsOutcome cgroup mount_info =
    from_cgroup-IsOutcome _ _ (cgroup-IsIdOrEmpty cgroup) (mount_info-IsIdOrEmpty mount_info)
