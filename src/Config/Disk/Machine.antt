-- ===== src/Config/Disk/Machine.antt =====
-- `mergeMetadata` of config/disk.go.
use burmilla_os.Base.{
  Bool, true, false, Option, none, some, List, [], ◌∷◌, Text, codes, if◌then◌else◌,
}
use burmilla_os.Base.Result.{Result, ok, panicked}
use burmilla_os.Strings.Sort.{sort_keys}
use burmilla_os.Config.Value.{Value, text, items, object, Items, nil, cons, Fields, lookup, put}
use burmilla_os.Config.Merge.{map_copy}

-- The fields of the metadata that `mergeMetadata` reads.
pub record Metadata : Type 0 where
  pub hostname : Text
  pub ssh_public_keys : List (Text × Text)
  pub root_disk : Text

unfoldable pub append_keys : Items → List (Text × Text) → Items
append_keys nil [] = nil
append_keys nil ((k, v) ∷ keys) = cons (text v) (append_keys nil keys)
append_keys (cons v vs) keys = cons v (append_keys vs keys)

-- A type assertion to a list that drops the failure gives nil.
unfoldable pub items_of : Option Value → Items
items_of (some (items vs)) = vs
items_of other = nil

-- A host name that is set: it is there, and is not the empty text.
unfoldable pub has_hostname : Option Value → Bool
has_hostname none = false
has_hostname (some (text [])) = false
has_hostname (some other) = true

unfoldable pub put_hostname : Text → Fields → Fields
put_hostname [] out = out
put_hostname (c ∷ hostname) out =
    if has_hostname (lookup (codes "hostname") out)
    then out
    else put (codes "hostname") (text (c ∷ hostname)) out

-- `rancherOut` is nil if the entry is no map; an assignment to it panics.
unfoldable pub put_root_disk : Text → Fields → Result Fields
put_root_disk [] out = ok out
put_root_disk (c ∷ root_disk) out = elim (lookup (codes "rancher") out) [
  | some (object rancher) ↦ elim (lookup (codes "resize_device") rancher) [
    | some v ↦ ok out
    | none ↦ ok (
        put (codes "rancher") (object (put (codes "resize_device") (text (c ∷ root_disk)) rancher))
          out)
  ]
  | other ↦ panicked
]

unfoldable pub put_ssh_keys : List (Text × Text) → Fields → Fields
unfolding sort_keys append_keys items_of
put_ssh_keys keys out =
    put (codes "ssh_authorized_keys")
      (items (append_keys (items_of (lookup (codes "ssh_authorized_keys") out)) (sort_keys keys)))
      out

unfoldable pub merge_metadata : Fields → Metadata → Result Fields
unfolding put_hostname put_ssh_keys put_root_disk
merge_metadata raw md =
    put_root_disk md.root_disk
      (put_ssh_keys md.ssh_public_keys (put_hostname md.hostname (map_copy raw)))
