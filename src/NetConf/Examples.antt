-- ===== src/NetConf/Examples.antt =====
-- A machine with a network card, the defaults of the loopback, and a search of a link-local address.
use burmilla_os.Strings.{has_prefix}
use burmilla_os.Base.{
  ℕ, Bool, true, false, none, some, Option, List, [], ◌∷◌, Text, codes, text_eq, member, ◌≡◌, refl,
  arith,
}
use burmilla_os.Base.Result.{ok}
use burmilla_os.NetConf.{Link, NetworkConfig, InterfaceConfig, empty_config, find_match}
use burmilla_os.NetConf.Matching.{
  find_match_lem, first_of, first_that, last_that, is_addressed, is_exact, is_pattern,
}
use burmilla_os.NetConf.LinkLocal.{search, try_addresses, found, search-IsHost, IsHost}
use burmilla_os.NetConf.Actions.{Machine}
use burmilla_os.NetConf.Applying.{apply_interface_config, addresses_in}
use burmilla_os.NetConf.Effects.{effect}
use burmilla_os.NetConf.Addresses.{member-apply_interface_config}

abbrev eth0 : Link
eth0 = record {
  name = codes "eth0";
  kind = codes "device";
  hardware = 2 ∷ 66 ∷ [];
  mac = codes "02:42";
}

-- The library's pattern "eth*", and no other one.
abbrev eth_glob : Text → Text → Bool
eth_glob pattern name = text_eq pattern (codes "eth*")

abbrev no_mac : Text → Option (List ℕ)
no_mac s = none

abbrev static : InterfaceConfig
static = record empty_config { addresses = codes "10.0.0.2/24" ∷ codes "10.0.0.3/24" ∷ [] }

abbrev net : NetworkConfig
net = record {
  pre_cmds = [];
  dhcp_timeout = 0;
  interfaces = (codes "eth0", static) ∷ (codes "eth*", record empty_config { dhcp = true }) ∷ [];
  post_cmds = [];
  wifi_networks = [];
}

eth0_found :
    find_match eth_glob no_mac eth0 net ≡ ok (some (record static { selector = codes "eth0" }))
unfolding find_match text_eq has_prefix
eth0_found = refl

find_match_lem_example :
    find_match eth_glob no_mac eth0 net
    ≡ ok (
        first_of
          (first_that eth_glob no_mac eth0 (is_addressed eth_glob no_mac eth0) net.interfaces)
          (first_of
            (last_that eth_glob no_mac eth0 (is_exact eth_glob no_mac eth0) net.interfaces)
            (last_that eth_glob no_mac eth0 (is_pattern eth_glob no_mac eth0) net.interfaces)))
unfolding find_match text_eq has_prefix
find_match_lem_example = find_match_lem eth_glob no_mac eth0 net ((λ e. cc), ((λ e. cc), tt))

abbrev randoms : List ℕ
randoms = 255 ∷ 16908545 ∷ []

address : try_addresses (λ a. false) randoms ≡ found (record { third = 1; fourth = 1 })
unfolding try_addresses
address = refl

search-IsHost_example : IsHost (record { third = 1; fourth = 1 }) × (false ≡ false)
unfolding search
search-IsHost_example =
    search-IsHost (λ a. false) 10 randoms (record { third = 1; fourth = 1 })
      (ground arith, (ground arith, tt)) refl

abbrev machine : Machine
machine = record {
  fails = λ a. none;
  words = λ s. (s ∷ [], false);
  glob = eth_glob;
  parse_mac = no_mac;
  addresses_of = λ link. codes "10.0.0.2/24" ∷ codes "192.168.1.5/24" ∷ [];
  is_address = λ a. true;
  is_ip = λ a. true;
  lease_before = λ link. [];
  lease_after = λ link. [];
}

-- The second address is removed and 10.0.0.3/24 is added.
member-apply_interface_config_example :
    member (codes "10.0.0.3/24") (
      effect
        (codes "eth0")
        (apply_interface_config machine eth0 static).0
        (codes "10.0.0.2/24" ∷ codes "192.168.1.5/24" ∷ []))
    ≡ member (codes "10.0.0.3/24") (codes "10.0.0.2/24" ∷ codes "10.0.0.3/24" ∷ [])
unfolding addresses_in text_eq
member-apply_interface_config_example =
    member-apply_interface_config machine eth0 static (codes "10.0.0.3/24") refl refl refl refl
      (refl, (refl, tt))
