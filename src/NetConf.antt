-- ===== src/NetConf.antt =====
-- pkg/netconf: the configuration of the network (types.go), and which part of it is about a link
-- (`populateDefault` and `findMatch` of netconf_linux.go). The packages glob and net are parameters.
pub mod Matching
pub mod Vlans
pub mod LinkLocal
pub mod Actions
pub mod Bonding
pub mod Creating
pub mod Applying
pub mod Outer
pub mod Effects
pub mod Addresses
mod Examples
use burmilla_os.Base.{
  ℕ, Bool, true, false, not, ◌&&◌, Option, none, some, List, [], ◌∷◌, Text, codes, text_eq, member,
  if◌then◌else◌,
}
use burmilla_os.Strings.{has_prefix, drop, contains}
use burmilla_os.Base.Result.{Result, ok, panicked}

-- The fields of `InterfaceConfig`. `mtu` is 0 for a negative number too, which is left unset as well.
pub record InterfaceConfig : Type 0 where
  pub selector : Text
  pub dhcp : Bool
  pub dhcp_args : Text
  pub address : Text
  pub addresses : List Text
  pub ipv4ll : Bool
  pub gateway : Text
  pub gateway_ipv6 : Text
  pub mtu : ℕ
  pub bridge : Text
  pub bond : Text
  pub bond_opts : List (Text × Text)
  pub post_up : List Text
  pub pre_up : List Text
  pub vlans : Text
  pub wifi_network : Text

-- The map `Interfaces`, in the order of a loop over it.
abbrev pub Interfaces : Type 0
Interfaces = List (Text × InterfaceConfig)

-- The fields of `NetworkConfig` that this package reads; `wifi_networks` are the keys of the map.
pub record NetworkConfig : Type 0 where
  pub pre_cmds : List Text
  pub dhcp_timeout : ℕ
  pub interfaces : Interfaces
  pub post_cmds : List Text
  pub wifi_networks : List Text

-- What is read of a netlink.Link: `hardware` are the bytes of its address and `mac` their text.
pub record Link : Type 0 where
  pub name : Text
  pub kind : Text
  pub hardware : List ℕ
  pub mac : Text

abbrev pub empty_config : InterfaceConfig
empty_config = record {
  selector = [];
  dhcp = false;
  dhcp_args = [];
  address = [];
  addresses = [];
  ipv4ll = false;
  gateway = [];
  gateway_ipv6 = [];
  mtu = 0;
  bridge = [];
  bond = [];
  bond_opts = [];
  post_up = [];
  pre_up = [];
  vlans = [];
  wifi_network = [];
}

unfoldable pub interface : Text → Interfaces → Option InterfaceConfig
interface name [] = none
interface name ((key, conf) ∷ interfaces) =
    if text_eq key name then some conf else interface name interfaces

-- populateDefault
unfoldable pub with_loopback : Interfaces → Interfaces
unfolding interface
with_loopback interfaces = elim (interface (codes "lo") interfaces) [
  | some conf ↦ interfaces
  | none ↦
      (codes "lo", record empty_config { addresses = codes "127.0.0.1/8" ∷ codes "::1/128" ∷ [] })
      ∷ interfaces
]

unfoldable pub populate_default : NetworkConfig → NetworkConfig
unfolding with_loopback
populate_default net = record net {
  interfaces = elim net.interfaces [
    | [] ↦ with_loopback ((codes "eth*", record empty_config { dhcp = true }) ∷ [])
    | entry ∷ others ↦ with_loopback (entry ∷ others)
  ];
}

-- What an entry is to a link: by the hardware address, by the name (whether it is the name itself, and
-- whether the pattern matches it), or not at all; `stops` is the panic of `netConf.Match[4:]`.
pub data Verdict : Type 0 where
  by_address : Verdict
  by_name : Bool → Bool → Verdict
  unrelated : Verdict
  stops : Verdict

-- The entry that was found so far: by a pattern or by the name itself.
pub data Best : Type 0 where
  nothing : Best
  by_pattern : InterfaceConfig → Best
  exactly : InterfaceConfig → Best

-- An empty selector is the entry's key.
unfoldable pub with_selector : Text → InterfaceConfig → InterfaceConfig
with_selector key conf = elim conf.selector [ [] ↦ record conf { selector = key } | c ∷ s ↦ conf ]

module _ (glob : Text → Text → Bool) (parse_mac : Text → Option (List ℕ)) where
  -- Neither a bond, which has the address of a slave, nor a VLAN, which has that of its parent.
  unfoldable pub may_be_addressed : Link → InterfaceConfig → Bool
  may_be_addressed link conf =
      not (text_eq link.name conf.bond) && not (text_eq link.kind (codes "vlan"))

  abbrev pub judge_name : Link → Text → Verdict
  judge_name link selector = by_name (text_eq selector link.name) (glob selector link.name)

  -- An entry whose selector begins with "mac".
  unfoldable pub judge_mac : Link → InterfaceConfig → Verdict
  unfolding may_be_addressed
  judge_mac link conf =
      if contains conf.selector (codes "*")
      then (if glob (drop 4 conf.selector) link.mac && may_be_addressed link conf
          then by_address
          else unrelated)
      else if text_eq conf.selector (codes "mac")
      then stops
      else elim (parse_mac (drop 4 conf.selector)) [
        | none ↦ unrelated
        | some hardware ↦
            if text_eq hardware link.hardware && may_be_addressed link conf
            then by_address
            else judge_name link conf.selector
      ]

  unfoldable pub judge : Link → InterfaceConfig → Verdict
  unfolding judge_mac
  judge link conf = elim conf.selector [
    | [] ↦ unrelated
    | c ∷ s ↦
        if has_prefix conf.selector (codes "mac")
        then judge_mac link conf
        else judge_name link conf.selector
  ]

  -- The pattern is tried first, and an exact match is only replaced by another one.
  unfoldable pub improve : Bool → Bool → InterfaceConfig → Best → Best
  improve exact pattern conf (exactly m) = if exact then exactly conf else exactly m
  improve exact pattern conf best =
      if exact then exactly conf else if pattern then by_pattern conf else best

  unfoldable pub result : Best → Option InterfaceConfig
  result nothing = none
  result (by_pattern m) = some m
  result (exactly m) = some m

  unfoldable pub find_from : Link → Best → Interfaces → Result (Option InterfaceConfig)
  unfolding judge improve result with_selector
  find_from link best [] = ok (result best)
  find_from link best ((key, conf) ∷ interfaces) = elim (judge link (with_selector key conf)) [
    | by_address ↦ ok (some (with_selector key conf))
    | by_name exact pattern ↦
        find_from link (improve exact pattern (with_selector key conf) best) interfaces
    | unrelated ↦ find_from link best interfaces
    | stops ↦ panicked
  ]

  unfoldable pub find_match : Link → NetworkConfig → Result (Option InterfaceConfig)
  unfolding find_from
  find_match link net = find_from link nothing net.interfaces

-- GetValidLinkList, on the links of the machine.
unfoldable pub valid_links : List Link → List Link
valid_links [] = []
valid_links (link ∷ links) =
    let rest = valid_links links in
    if member link.name (codes "lo" ∷ codes "docker-sys" ∷ codes "docker0" ∷ [])
    then rest
    else link ∷ rest
