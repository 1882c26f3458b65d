-- ===== src/Config/Disk/UserData.antt =====
-- `mergeMetadata` of config/disk.go: what the metadata of the machine add, and what the user's data keep.
use burmilla_os.Base.{
  ◌≡◌, ◌≢◌, ◌∙◌, ◌↔◌, refl, sym, Option, none, some, List, [], ◌∷◌, Text, codes, text_eq, arith,
  if◌then◌else◌, text_eq_iff,
}
use burmilla_os.Base.Result.{ok, panicked}
use burmilla_os.Config.Value.{Value, text, scalar, items, object, Fields, lookup, put, IsMap}
use burmilla_os.Config.Value.Laws.{lookup-put}
use burmilla_os.Config.Merge.{map_copy}
use burmilla_os.Config.Merge.Copying.{map_copy_lem}
use burmilla_os.Strings.Sort.{sort_keys}
use burmilla_os.Config.Disk.Machine.{
  Metadata, merge_metadata, put_hostname, put_ssh_keys, put_root_disk, has_hostname, items_of,
  append_keys,
}

-- The host name of the user if there is one, else the machine's.
abbrev pub hostname_of : Text → Option Value → Option Value
hostname_of [] own = own
hostname_of (c ∷ hostname) own = if has_hostname own then own else some (text (c ∷ hostname))

-- The user's keys, then the machine's in the order of their names.
abbrev pub keys_of : List (Text × Text) → Option Value → Option Value
keys_of keys own = some (items (append_keys (items_of own) (sort_keys keys)))

-- The user's settings with the root disk where they name no device.
abbrev pub rancher_of : Text → Option Value → Option Value
rancher_of [] own = own
rancher_of (c ∷ root_disk) (some (object rancher)) = elim (lookup (codes "resize_device") rancher) [
  | some v ↦ some (object rancher)
  | none ↦ some (object (put (codes "resize_device") (text (c ∷ root_disk)) rancher))
]
rancher_of (c ∷ root_disk) own = own

-- There is a map.
abbrev pub IsObject : Option Value → Type 0
IsObject (some (object m)) = Unit
IsObject own = ⊥

lookup-put_hostname :
    (k hostname : Text) (m : Fields)
    → lookup k (put_hostname hostname m) ≡ (
        if text_eq (codes "hostname") k
        then hostname_of hostname (lookup (codes "hostname") m)
        else lookup k m)
unfolding put_hostname
lookup-put_hostname k [] m = ground (arith, text_eq_iff (codes "hostname") k)
lookup-put_hostname k (c ∷ hostname) m = ground (
  arith,
  text_eq_iff (codes "hostname") k,
  lookup-put (codes "hostname") k (text (c ∷ hostname)) m,
)

lookup-put_ssh_keys :
    (k : Text) (keys : List (Text × Text)) (m : Fields)
    → lookup k (put_ssh_keys keys m) ≡ (
        if text_eq (codes "ssh_authorized_keys") k
        then keys_of keys (lookup (codes "ssh_authorized_keys") m)
        else lookup k m)
unfolding put_ssh_keys
lookup-put_ssh_keys k keys m = lookup-put (codes "ssh_authorized_keys") k _ m

put_root_disk_ok :
    (k root_disk : Text) (m out : Fields)
    → put_root_disk root_disk m ≡ ok out
    → lookup k out ≡ (
        if text_eq (codes "rancher") k
        then rancher_of root_disk (lookup (codes "rancher") m)
        else lookup k m)
unfolding put_root_disk
put_root_disk_ok k [] m out e = ground (arith, text_eq_iff (codes "rancher") k)
put_root_disk_ok k (c ∷ root_disk) m out e = go (lookup (codes "rancher") m) refl
  where
    go :
        (o : Option Value)
        → lookup (codes "rancher") m ≡ o
        → lookup k out
          ≡ (if text_eq (codes "rancher") k then rancher_of (c ∷ root_disk) o else lookup k m)
    go none q = cc (rw (q, put_root_disk) at e)
    go (some (text s)) q = cc (rw (q, put_root_disk) at e)
    go (some (scalar s)) q = cc (rw (q, put_root_disk) at e)
    go (some (items vs)) q = cc (rw (q, put_root_disk) at e)
    go (some (object rancher)) q = inner (lookup (codes "resize_device") rancher) refl
      where
        inner :
            (o : Option Value)
            → lookup (codes "resize_device") rancher ≡ o
            → lookup k out ≡ (
                if text_eq (codes "rancher") k
                then rancher_of (c ∷ root_disk) (some (object rancher))
                else lookup k m)
        inner none f =
            let d : ok (
                  put (codes "rancher")
                    (object (put (codes "resize_device") (text (c ∷ root_disk)) rancher)) m)
                ≡ ok out =
              rw (q, f, put_root_disk) at e in
            rw (f, rancher_of)
              (ground (
                arith,
                d,
                lookup-put (codes "rancher") k
                    (object (put (codes "resize_device") (text (c ∷ root_disk)) rancher)) m,
              ))
        inner (some v) f =
            let d : ok m ≡ ok out = rw (q, f, put_root_disk) at e in
            rw (f, rancher_of) (ground (arith, d, q, text_eq_iff (codes "rancher") k))

put_root_disk_panics :
    (root_disk : Text) (m : Fields)
    → (put_root_disk root_disk m ≡ panicked)
      ↔ ((root_disk ≢ []) × (¬ (IsObject (lookup (codes "rancher") m))))
unfolding put_root_disk
put_root_disk_panics [] m = (λ e. cc, λ (ne, h). absurd (ne refl))
put_root_disk_panics (c ∷ root_disk) m = (
  λ e. (λ q. cc, no_map (lookup (codes "rancher") m) refl e),
  λ (ne, h). panics (lookup (codes "rancher") m) refl h,
)
  where
    no_map :
        (o : Option Value)
        → lookup (codes "rancher") m ≡ o
        → put_root_disk (c ∷ root_disk) m ≡ panicked
        → ¬ (IsObject o)
    no_map (some (object rancher)) q e h = inner (lookup (codes "resize_device") rancher) refl
      where
        inner : (o : Option Value) → lookup (codes "resize_device") rancher ≡ o → ⊥
        inner none f = cc (rw (q, f, put_root_disk) at e)
        inner (some v) f = cc (rw (q, f, put_root_disk) at e)
    no_map none q e h = h
    no_map (some (text s)) q e h = h
    no_map (some (scalar s)) q e h = h
    no_map (some (items vs)) q e h = h

    panics :
        (o : Option Value)
        → lookup (codes "rancher") m ≡ o
        → ¬ (IsObject o)
        → put_root_disk (c ∷ root_disk) m ≡ panicked
    panics (some (object rancher)) q h = absurd (h tt)
    panics none q h = rw (q, put_root_disk) refl
    panics (some (text s)) q h = rw (q, put_root_disk) refl
    panics (some (scalar s)) q h = rw (q, put_root_disk) refl
    panics (some (items vs)) q h = rw (q, put_root_disk) refl

-- Before the root disk is set, the settings of the map `rancher` are the configuration's.
rancher_kept :
    (raw : Fields) (md : Metadata)
    → IsMap raw
    → lookup
        (codes "rancher")
        (put_ssh_keys md.ssh_public_keys (put_hostname md.hostname (map_copy raw)))
      ≡ lookup (codes "rancher") raw
unfolding text_eq
rancher_kept raw md h =
    lookup-put_ssh_keys (codes "rancher") md.ssh_public_keys
      (put_hostname md.hostname (map_copy raw))
    ∙ lookup-put_hostname (codes "rancher") md.hostname (map_copy raw)
    ∙ rw (map_copy_lem raw h) refl

-- The merge with the machine's metadata panics exactly if they name a root disk and the configuration
-- has no map `rancher`.
pub merge_metadata_panics_iff :
    (raw : Fields) (md : Metadata)
    → IsMap raw
    → (merge_metadata raw md ≡ panicked)
      ↔ ((md.root_disk ≢ []) × (¬ (IsObject (lookup (codes "rancher") raw))))
unfolding merge_metadata
merge_metadata_panics_iff raw md h =
    rw (sym (rancher_kept raw md h)) (put_root_disk_panics md.root_disk _)

-- Where it does not panic, the result has the user's host name if there is one and else the machine's,
-- the user's authorised keys and behind them the machine's in the order of their names, the root disk
-- as `resize_device` where the user names no device, and every other entry as it was.
pub merge_metadata_entries :
    (raw out : Fields) (md : Metadata) (key : Text)
    → IsMap raw
    → merge_metadata raw md ≡ ok out
    → lookup key out ≡ (
        if text_eq (codes "rancher") key
        then rancher_of md.root_disk (lookup key raw)
        else if text_eq (codes "ssh_authorized_keys") key
        then keys_of md.ssh_public_keys (lookup key raw)
        else if text_eq (codes "hostname") key
        then hostname_of md.hostname (lookup key raw)
        else lookup key raw)
unfolding merge_metadata
merge_metadata_entries raw out md key h e = ground (
  arith,
  put_root_disk_ok key md.root_disk _ out e,
  rancher_kept raw md h,
  lookup-put_ssh_keys key md.ssh_public_keys (put_hostname md.hostname (map_copy raw)),
  lookup-put_hostname key md.hostname (map_copy raw),
  lookup-put_hostname (codes "ssh_authorized_keys") md.hostname (map_copy raw),
  map_copy_lem raw h,
  text_eq_iff (codes "hostname") key,
  text_eq_iff (codes "rancher") key,
  text_eq_iff (codes "ssh_authorized_keys") key,
)
