-- ===== src/Network/Interface.antt =====
-- config/cloudinit/network/interface.go: the map of interfaces that the stanzas describe, and the
-- links from each interface to those that are built on it. Both kinds of pointers that the source
-- has to an interface, in the map and in `children`, are its name, which is its key in the map:
-- `createInterfaces` replaces interfaces only before there are children.
pub mod Created
pub mod Depths
pub mod Endless
mod Examples
use burmilla_os.Base.{
  ℕ, ◌||◌, Bool, true, false, Option, none, some, List, [], ◌∷◌, ◌++◌, Text, codes, text_eq,
  if◌then◌else◌,
}
use burmilla_os.Base.Int.{ℤ}
use burmilla_os.Versions.Atoi.{atoi}
use burmilla_os.Network.Stanza.{
  ConfigMethod, static, loopback, manual, dhcp, InterfaceKind, bond, physical, vlan, OptionMap,
  StanzaInterface, option, option_values, set_option,
}

-- What the types physicalInterface, bondInterface and vlanInterface add to logicalInterface: the
-- slaves and the options of a bond, the ID and the raw device of a VLAN.
pub data Kind : Type 0 where
  is_physical : Kind
  is_bond : List Text → List (Text × Text) → Kind
  is_vlan : ℤ → Text → Kind

pub record Interface : Type 0 where
  pub name : Text
  pub config : ConfigMethod
  pub children : List Text
  pub config_depth : ℕ
  pub kind : Kind

-- The interfaces of the map, whose keys are their names.
abbrev pub InterfaceMap : Type 0
InterfaceMap = List Interface

-- interfaceMap[name]
unfoldable pub find : Text → InterfaceMap → Option Interface
find name [] = none
find name (i ∷ m) = if text_eq i.name name then some i else find name m

-- interfaceMap[i.name] = i
unfoldable pub store : Interface → InterfaceMap → InterfaceMap
store i [] = i ∷ []
store i (j ∷ m) = if text_eq j.name i.name then i ∷ m else j ∷ store i m

abbrev pub new_interface : Text → ConfigMethod → Kind → Interface
new_interface name config kind = record {
  name = name;
  config = config;
  children = [];
  config_depth = 0;
  kind = kind;
}

-- The physical interface that another one needs, if there is none of that name.
unfoldable pub ensure : Text → InterfaceMap → InterfaceMap
unfolding find
ensure name m = elim (find name m) [
  | none ↦ store (new_interface name manual is_physical) m
  | some i ↦ m
]

unfoldable pub ensure_all : List Text → InterfaceMap → InterfaceMap
unfolding ensure
ensure_all [] m = m
ensure_all (slave ∷ slaves) m = ensure_all slaves (ensure slave m)

-- The loop over the options of a bond.
unfoldable pub bond_options : List Text → OptionMap → List (Text × Text)
bond_options [] options = []
bond_options (k ∷ ks) options = elim (option (codes "bond-" ++ k) options) [
  | none ↦ bond_options ks options
  | some [] ↦ bond_options ks options
  | some (v ∷ vs) ↦ (k, v) ∷ bond_options ks options
]

-- The interface of a VLAN is stored behind its raw device; `raw_device` counts if it has one value.
unfoldable pub store_vlan : Text → ConfigMethod → Text → List Text → InterfaceMap → InterfaceMap
unfolding ensure
store_vlan name config id (raw_device ∷ []) m =
    store (new_interface name config (is_vlan (atoi id) raw_device)) (ensure raw_device m)
store_vlan name config id _ m = store (new_interface name config (is_vlan (atoi id) [])) m

unfoldable pub is_loopback : ConfigMethod → Bool
is_loopback loopback = true
is_loopback (static c) = false
is_loopback manual = false
is_loopback (dhcp hw) = false

-- The case of a VLAN; `none` is the panic of options["id"][0].
unfoldable pub create_vlan :
    StanzaInterface → List Text → List Text → InterfaceMap → Option InterfaceMap
unfolding store_vlan
create_vlan iface [] devices m = none
create_vlan iface (id ∷ ids) devices m =
    some (store_vlan iface.name iface.config_method id devices m)

-- One round of `createInterfaces`, on the kind of the stanza.
unfoldable pub create_interface :
    StanzaInterface → InterfaceKind → InterfaceMap → Option InterfaceMap
unfolding ensure_all bond_options is_loopback create_vlan
create_interface iface bond m =
    let slaves = option_values (codes "bond-slaves") iface.options in
    some (
      ensure_all slaves (
        store
          (new_interface iface.name iface.config_method (
            is_bond slaves (
              bond_options (codes "mode" ∷ codes "miimon" ∷ codes "lacp-rate" ∷ []) iface.options)))
          m))
create_interface iface physical m =
    if is_loopback iface.config_method
    then some m
    else some (store (new_interface iface.name iface.config_method is_physical) m)
create_interface iface vlan m =
    create_vlan iface (option_values (codes "id") iface.options)
      (option_values (codes "raw_device") iface.options) m

unfoldable pub create_from : List StanzaInterface → InterfaceMap → Option InterfaceMap
unfolding create_interface
create_from [] m = some m
create_from (iface ∷ stanzas) m = elim (create_interface iface iface.kind m) [
  | none ↦ none
  | some m' ↦ create_from stanzas m'
]

unfoldable pub create_interfaces : List StanzaInterface → Option InterfaceMap
unfolding create_from
create_interfaces stanzas = create_from stanzas []
