-- ===== src/NetConf/Creating.antt =====
-- `createInterfaces` and `createSlaveInterfaces` of pkg/netconf/netconf_linux.go.
use burmilla_os.Base.{
  not, Option, none, some, List, [], ◌∷◌, Text, codes, text_eq, member, if◌then◌else◌,
}
use burmilla_os.Base.Result.{ok, failed}
use burmilla_os.NetConf.{Link, Interfaces, NetworkConfig, interface, find_match, valid_links}
use burmilla_os.NetConf.Vlans.{VlanDefinition, parse_vlan_definitions}
use burmilla_os.NetConf.Actions.{
  new_bridge, open_bond, bond_option, new_vlan, Trace, panic, Machine, and_then, act, nothing_to_do,
}

-- The options besides the mode.
unfoldable pub set_others : Text → List (Text × Text) → Trace
unfolding and_then
set_others bond [] = nothing_to_do
set_others bond ((k, v) ∷ opts) =
    let rest = set_others bond opts in
    if text_eq k (codes "mode") then rest else and_then (act (bond_option bond k v)) rest

unfoldable pub set_mode : Text → List (Text × Text) → Trace
set_mode bond [] = nothing_to_do
set_mode bond ((k, v) ∷ opts) =
    let rest = set_mode bond opts in
    if text_eq k (codes "mode") then act (bond_option bond k v) else rest

-- The mode comes first, since the other options depend on it.
unfoldable pub set_options : Text → List (Text × Text) → Trace
unfolding set_mode set_others and_then
set_options bond opts = and_then (set_mode bond opts) (set_others bond opts)

module _ (machine : Machine) where
  -- The options of a bond are set once: `configured` has the bonds whose options were.
  unfoldable pub create_from : Interfaces → List Text → Interfaces → Trace
  unfolding set_options and_then interface
  create_from all configured [] = nothing_to_do
  create_from all configured ((name, iface) ∷ interfaces) =
      let skip = create_from all configured interfaces in
      let marked = create_from all (iface.bond ∷ configured) interfaces in
      if text_eq iface.bridge (codes "true")
      then and_then (act (new_bridge name)) skip
      else if not (text_eq iface.bridge [])
      then and_then (act (new_bridge iface.bridge)) skip
      else if text_eq iface.bond []
      then skip
      else elim (machine.fails (open_bond iface.bond)) [
        | some e ↦ and_then (act (open_bond iface.bond)) skip
        | none ↦ and_then (act (open_bond iface.bond)) (
            if member iface.bond configured then skip else elim (interface iface.bond all) [
              | none ↦ skip
              | some bond ↦ and_then (set_options iface.bond bond.bond_opts) marked
            ])
      ]

  unfoldable pub create_interfaces : NetworkConfig → Trace
  unfolding create_from
  create_interfaces net = create_from net.interfaces [] net.interfaces

  unfoldable pub create_vlans : Link → List VlanDefinition → Trace
  unfolding and_then
  create_vlans link [] = nothing_to_do
  create_vlans link (def ∷ defs) =
      and_then (act (new_vlan link.name def.name def.id)) (create_vlans link defs)

  unfoldable pub create_slaves : NetworkConfig → List Link → Trace
  unfolding create_vlans and_then find_match
  create_slaves net [] = nothing_to_do
  create_slaves net (link ∷ links) =
      let rest = create_slaves net links in
      elim (find_match machine.glob machine.parse_mac link net) [
        | ok none ↦ rest
        | ok (some conf) ↦ elim (parse_vlan_definitions conf.vlans) [
          | ok defs ↦ and_then (create_vlans link defs) rest
          | failed e ↦ rest
          | other ↦ ([], panic)
        ]
        | other ↦ ([], panic)
      ]

  -- The links are those of the machine, unless they cannot be listed.
  unfoldable pub create_slave_interfaces : NetworkConfig → Option (List Link) → Trace
  unfolding create_slaves valid_links
  create_slave_interfaces net none = nothing_to_do
  create_slave_interfaces net (some links) = create_slaves net (valid_links links)
