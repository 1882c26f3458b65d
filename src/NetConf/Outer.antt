-- ===== src/NetConf/Outer.antt =====
-- `ApplyNetworkConfigs`, `applyOuter`, `runDhcp` and `runWifiDhcp` of pkg/netconf/netconf_linux.go.
use burmilla_os.Base.{
  ℕ, zero, suc, Bool, true, false, not, ◌||◌, Option, none, some, List, [], ◌∷◌, ◌++◌, Text, codes,
  text_eq, member, if◌then◌else◌,
}
use burmilla_os.Base.Result.{ok}
use burmilla_os.Strings.{contains, split, split_n}
use burmilla_os.NetConf.{
  Link, InterfaceConfig, NetworkConfig, find_match, valid_links, populate_default,
}
use burmilla_os.NetConf.Actions.{
  remove_address, run_dhcp, Trace, panic, Machine, and_then, logged, deferred, act, nothing_to_do,
  run_cmds,
}
use burmilla_os.NetConf.Creating.{create_interfaces, create_slave_interfaces}
use burmilla_os.NetConf.Applying.{apply_interface_config}

abbrev pub default_dhcp_args : List Text
default_dhcp_args = codes "dhcpcd" ∷ codes "-MA4" ∷ []

abbrev pub dhcp_release_cmd : Text
dhcp_release_cmd = codes "dhcpcd --release"

-- The words of the arguments, those before an error too, if there are any.
unfoldable pub or_default : List Text → List Text
or_default [] = default_dhcp_args
or_default (w ∷ ws) = w ∷ ws

-- hasDhcp, on what dhcpcd prints.
unfoldable pub has_dhcp : Text → Bool
has_dhcp [] = false
has_dhcp (c ∷ out) = true

-- A key of a lease.
unfoldable pub has_key : Text → List (Text × Text) → Bool
has_key key [] = false
has_key key ((k, v) ∷ entries) = text_eq k key || has_key key entries

-- `itoa` writes a number, and the two flags are the arguments `userSetHostname` and `userSetDNS`.
module _ (machine : Machine) (itoa : ℕ → Text) (net : NetworkConfig) where
  unfoldable pub dhcp_words : Text → Text → Bool → Bool → List Text
  unfolding or_default
  dhcp_words iface args set_hostname set_dns =
      (elim args [ [] ↦ default_dhcp_args | c ∷ s ↦ or_default (machine.words (c ∷ s)).0 ])
      ++ ((if set_hostname then codes "-e" ∷ codes "force_hostname=true" ∷ [] else [])
          ++ ((if set_dns then [] else codes "--nohook" ∷ codes "resolv.conf" ∷ [])
              ++ ((elim net.dhcp_timeout [
                | zero ↦ []
                | suc n ↦ codes "--timeout" ∷ itoa (suc n) ∷ []
              ])
                  ++ (codes "-w" ∷ codes "--debug" ∷ iface ∷ []))))

  abbrev pub dhcp : Text → Text → Bool → Bool → Trace
  dhcp iface args set_hostname set_dns = act (run_dhcp (dhcp_words iface args set_hostname set_dns))

  unfoldable pub remove_all : Text → List Text → Trace
  unfolding and_then
  remove_all link [] = nothing_to_do
  remove_all link (addr ∷ addrs) = and_then (act (remove_address link addr)) (remove_all link addrs)

  unfoldable pub run_wifi_dhcp : Text → Text → Bool → Bool → Trace
  unfolding has_dhcp and_then remove_all dhcp_words
  run_wifi_dhcp iface network set_hostname set_dns =
      if not (member network net.wifi_networks)
      then nothing_to_do
      else and_then
          (if has_dhcp (machine.lease_before iface)
            then dhcp iface dhcp_release_cmd false true
            else nothing_to_do)
          (and_then (remove_all iface (machine.addresses_of iface))
            (dhcp iface [] set_hostname set_dns))

  -- applyOuter between the commands of the interface; a link with a wireless network uses DHCP.
  unfoldable pub apply_matched : Link → InterfaceConfig → Bool → Bool → Trace
  unfolding has_dhcp run_wifi_dhcp logged and_then apply_interface_config dhcp_words
  apply_matched link conf user_hostname user_dns =
      if not (text_eq conf.wifi_network [])
      then run_wifi_dhcp link.name conf.wifi_network (not user_hostname) (not user_dns)
      else if conf.dhcp
      then dhcp link.name conf.dhcp_args (not user_hostname) (not user_dns)
      else and_then (logged (apply_interface_config machine link conf)) (
          if has_dhcp (machine.lease_before link.name)
          then dhcp link.name dhcp_release_cmd false true
          else nothing_to_do)

  unfoldable pub apply_outer : Link → Bool → Bool → Trace
  unfolding and_then deferred run_cmds apply_matched find_match
  apply_outer link user_hostname user_dns =
      elim (find_match machine.glob machine.parse_mac link net) [
        | ok none ↦ nothing_to_do
        | ok (some conf) ↦ and_then (run_cmds machine conf.pre_up link.name) (
            deferred (apply_matched link conf user_hostname user_dns)
              (run_cmds machine conf.post_up link.name))
        | other ↦ ([], panic)
      ]

  -- A loop over the links: those whose name has "wlan" in it, or the others.
  unfoldable pub apply_links : Bool → List Link → Bool → Bool → Trace
  unfolding and_then apply_outer
  apply_links wireless [] user_hostname user_dns = nothing_to_do
  apply_links wireless (link ∷ links) user_hostname user_dns =
      let rest = apply_links wireless links user_hostname user_dns in
      let mine = and_then (apply_outer link user_hostname user_dns) rest in
      if contains link.name (codes "wlan")
      then (if wireless then mine else rest)
      else (if wireless then rest else mine)

-- One line of a lease: a pair with the text behind the first "=".
unfoldable pub lease_entry : List Text → List (Text × Text)
lease_entry (k ∷ v ∷ others) = (k, v) ∷ []
lease_entry others = []

-- The entries of the map in the order of the lines; a later one replaces an earlier one of its key.
unfoldable pub lease_entries : List Text → List (Text × Text)
unfolding lease_entry
lease_entries [] = []
lease_entries (line ∷ lines) = lease_entry (split_n b'=' line 2) ++ lease_entries lines

-- GetDhcpLease, on what dhcpcd prints.
unfoldable pub get_dhcp_lease : Text → List (Text × Text)
unfolding lease_entries
get_dhcp_lease out = lease_entries (split b'\n' out)

-- Some lease names DNS servers.
unfoldable pub is_dns_set : Machine → List Link → Bool
unfolding get_dhcp_lease has_key
is_dns_set machine [] = false
is_dns_set machine (link ∷ links) =
    has_key (codes "domain_name_servers") (get_dhcp_lease (machine.lease_after link.name))
    || is_dns_set machine links

-- ApplyNetworkConfigs, on the links before and behind the creation of interfaces (`none` where they
-- cannot be listed): what is done, and whether DHCP set the DNS servers, if the links can be listed.
unfoldable pub apply_network_configs :
    Machine
    → (ℕ → Text)
    → NetworkConfig
    → Option (List Link)
    → Option (List Link)
    → Bool
    → Bool
    → Trace × Option Bool
unfolding and_then deferred run_cmds apply_links is_dns_set populate_default create_interfaces
    create_slave_interfaces valid_links
apply_network_configs machine itoa given before after user_hostname user_dns =
    let net = populate_default given in
    let created =
      and_then (create_interfaces machine net) (create_slave_interfaces machine net before) in
    let post = run_cmds machine net.post_cmds [] in
    let pre = run_cmds machine net.pre_cmds [] in
    elim after [
      | none ↦ (and_then pre (deferred created post), none)
      | some links ↦
          let valid = valid_links links in
          (
            and_then pre (
                deferred
                  (and_then created (
                    and_then (apply_links machine itoa net false valid user_hostname user_dns)
                      (apply_links machine itoa net true valid user_hostname user_dns)))
                  post),
            some (is_dns_set machine valid),
          )
    ]
