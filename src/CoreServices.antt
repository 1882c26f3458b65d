-- ===== src/CoreServices.antt =====
-- pkg/compose: the services of the system, which are loaded as a compose project. Here is what is done
-- to the services of a file before they are read (project.go).
pub mod Preprocessed
pub mod Maps
pub mod Cache
pub mod Resources
pub mod Indexes
pub mod Projects
pub mod Merging
pub mod Loading
pub mod Reload
pub mod Staging
pub mod Kept
pub mod Found
pub mod Added
pub mod Settled
pub mod Known
pub mod Reloaded
pub mod Undone
mod Examples
use burmilla_os.Base.{
  Bool, true, false, ◌||◌, Option, none, some, List, [], ◌∷◌, Text, codes, text_eq, if◌then◌else◌,
}
use burmilla_os.Base.Result.{Result, ok}
use burmilla_os.Config.Value.{
  Value, text, scalar, items, object, Scalar, Items, nil, cons, Fields, end, field, lookup, put,
}
use burmilla_os.Compose.Parse.{RawServices}

-- `print` is fmt.Sprint on a value that is no text.
module _ (print : Scalar → Text) where
  unfoldable mutual
    pub preprocess : Value → Bool → Value
    preprocess (object datas) replaces = object (preprocess_map datas replaces)
    preprocess (items datas) replaces = items (preprocess_array datas replaces)
    preprocess (text s) replaces = text s
    preprocess (scalar s) replaces = if replaces then text (print s) else scalar s

    pub preprocess_map : Fields → Bool → Fields
    preprocess_map end replaces = end
    preprocess_map (field key value datas) replaces =
        field key (preprocess value replaces) (preprocess_map datas replaces)

    pub preprocess_array : Items → Bool → Items
    preprocess_array nil replaces = nil
    preprocess_array (cons value datas) replaces =
        cons (preprocess value replaces) (preprocess_array datas replaces)

  -- The loop over the keys of a service.
  unfoldable pub preprocess_service : Fields → Fields
  unfolding preprocess
  preprocess_service end = end
  preprocess_service (field key value service) =
      let stringify_values = text_eq key (codes "environment") || text_eq key (codes "labels") in
      field key (preprocess value stringify_values) (preprocess_service service)

  unfoldable pub preprocess_services : RawServices → RawServices
  unfolding preprocess_service
  preprocess_services [] = []
  preprocess_services ((name, service) ∷ services) =
      (name, preprocess_service service) ∷ preprocess_services services

  unfoldable pub preprocess_service_map : RawServices → Result RawServices
  unfolding preprocess_services
  preprocess_service_map services = ok (preprocess_services services)

-- The service of `adjustContainerNames`; its map is changed in place.
unfoldable pub named_container : Text → Value → Value
unfolding lookup put
named_container k (object v) = elim (lookup (codes "container_name") v) [
  | none ↦ object (put (codes "container_name") (text k) v)
  | some name ↦ object v
]
named_container k v = v

unfoldable pub adjust_container_names : Fields → Fields
unfolding named_container
adjust_container_names end = end
adjust_container_names (field k v m) = field k (named_container k v) (adjust_container_names m)
