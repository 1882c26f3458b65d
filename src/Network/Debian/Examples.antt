-- ===== src/Network/Debian/Examples.antt =====
-- A file with a VLAN, a bond and a comment.
use burmilla_os.Base.{◌≡◌, Text, codes, refl, List, [], ◌∷◌, none, some, text_eq, member}
use burmilla_os.Strings.{fields, split, trim_space, replace}
use burmilla_os.Versions.Atoi.{is_integer}
use burmilla_os.Network.Stanza.{
  Net, StanzaInterface, Parsed, parsed, is_stanza_start, split_stanzas, option, set_option,
  split_stanzas_from,
}
use burmilla_os.Network.Stanza.Parse.{parse_stanzas}
use burmilla_os.Network.Stanza.Options.{parse_options, parse_config_method}
use burmilla_os.Network.Debian.{process_debian_netconf}
use burmilla_os.Network.Debian.Safe.{IsSafe, process_debian_netconf-IsSafe}

-- Every text is an address, and a hardware address.
abbrev net : Net
net = record {
  parse_ip = λ s. some s;
  to4 = λ ip. some ip;
  parse_cidr = λ s. none;
  parse_mac = λ s. some s;
  any_address = record { ip = some []; mask = some [] };
}

abbrev file : Text
file =
    codes
      "# cards\nauto eth0.7 bond0\niface eth0.7 inet manual\niface bond0 inet dhcp\n  bond-slaves eth1\n"

abbrev lines : List Text
lines = codes "auto eth0" ∷ codes "iface eth0 inet dhcp" ∷ codes "mtu 9000" ∷ []

abbrev summary : Parsed (List StanzaInterface) → List Text
summary (parsed is) = names is
  where
    names : List StanzaInterface → List Text
    names [] = []
    names (i ∷ is') = i.name ∷ names is'
summary _ = []

file_runs : summary (process_debian_netconf net file) ≡ codes "eth0.7" ∷ codes "bond0" ∷ []
unfolding process_debian_netconf parse_stanzas split_stanzas split_stanzas_from split replace
    trim_space text_eq is_stanza_start fields parse_options parse_config_method option is_integer
    set_option member
file_runs = refl

process_debian_netconf-IsSafe_example : IsSafe (process_debian_netconf net file)
process_debian_netconf-IsSafe_example = process_debian_netconf-IsSafe net file
