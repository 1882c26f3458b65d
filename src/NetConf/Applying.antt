-- ===== src/NetConf/Applying.antt =====
-- `applyInterfaceConfig` of pkg/netconf/netconf_linux.go.
use burmilla_os.Base.{
  zero, suc, Bool, not, ◌||◌, ◌&&◌, List, [], ◌∷◌, Text, codes, text_eq, member, if◌then◌else◌,
}
use burmilla_os.NetConf.{Link, InterfaceConfig}
use burmilla_os.NetConf.Actions.{
  set_down, set_up, add_slave, open_bond, new_bridge, add_to_bridge, assign_link_local,
  remove_link_local, remove_address, add_address, set_mtu, add_gateway, Trace, Machine, and_then,
  logged, attempt, act, nothing_to_do,
}

-- `Address` and then `Addresses`.
unfoldable pub addresses_in : InterfaceConfig → List Text
addresses_in conf = elim conf.address [ [] ↦ conf.addresses | c ∷ s ↦ (c ∷ s) ∷ conf.addresses ]

module _ (machine : Machine) where
  -- The loop over the addresses that the link has: those that are not configured go, unless DHCP or a
  -- link-local address is wanted.
  unfoldable pub remove_others : Text → Bool → List Text → List Text → Trace
  unfolding and_then
  remove_others link keeps configured [] = nothing_to_do
  remove_others link keeps configured (addr ∷ existing) =
      let rest = remove_others link keeps configured existing in
      if member addr configured || keeps
      then rest
      else and_then (act (remove_address link addr)) rest

  unfoldable pub add_all : Text → List Text → Trace
  unfolding and_then
  add_all link [] = nothing_to_do
  add_all link (addr ∷ addresses) =
      let rest = add_all link addresses in
      if machine.is_address addr then and_then (act (add_address link addr)) rest else rest

  unfoldable pub set_gateway : Text → Trace
  unfolding logged attempt
  set_gateway [] = nothing_to_do
  set_gateway (c ∷ s) =
      if machine.is_ip (c ∷ s)
      then logged (attempt machine (add_gateway (c ∷ s)))
      else nothing_to_do

  -- applyInterfaceConfig behind the cases of a bond and a bridge.
  unfoldable pub apply_addresses : Link → InterfaceConfig → Trace
  unfolding and_then attempt remove_others add_all set_gateway addresses_in
  apply_addresses link conf =
      and_then
        (attempt machine
          (if conf.ipv4ll then assign_link_local link.name else remove_link_local link.name))
        (and_then
          (remove_others link.name (conf.dhcp || conf.ipv4ll) (addresses_in conf)
            (machine.addresses_of link.name))
          (and_then (add_all link.name (addresses_in conf)) (
            and_then
              (elim conf.mtu [
                | zero ↦ nothing_to_do
                | suc n ↦ attempt machine (set_mtu link.name (suc n))
              ])
              (and_then (attempt machine (set_up link.name))
                (and_then (set_gateway conf.gateway) (set_gateway conf.gateway_ipv6))))))

  unfoldable pub apply_interface_config : Link → InterfaceConfig → Trace
  unfolding and_then attempt apply_addresses
  apply_interface_config link conf =
      if not (text_eq conf.bond [])
      then and_then (attempt machine (set_down link.name)) (
          and_then (attempt machine (open_bond conf.bond))
            (attempt machine (add_slave conf.bond link.name)))
      else if not (text_eq conf.bridge []) && not (text_eq conf.bridge (codes "true"))
      then and_then (attempt machine (new_bridge conf.bridge)) (
          and_then (attempt machine (add_to_bridge conf.bridge link.name))
            (attempt machine (set_up link.name)))
      else apply_addresses link conf
