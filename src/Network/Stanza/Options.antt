-- ===== src/Network/Stanza/Options.antt =====
-- The configuration method that the options of an interface give.
use burmilla_os.Base.{
  Bool, true, false, ◌&&◌, Option, none, some, List, [], ◌∷◌, ◌++◌, Text, codes, text_eq,
  if◌then◌else◌,
}
use burmilla_os.Strings.{has_prefix, split_n, fields}
use burmilla_os.Network.Stanza.{
  Bytes, IpNet, Net, Route, StaticConfig, ConfigMethod, static, loopback, manual, dhcp, OptionMap,
  Parsed, parsed, refused, panicked, then_parse, malformed_static, malformed_hwaddress,
  invalid_config_method, option, set_option, option_values,
}

-- The tokens of strings.SplitAfterN(option, " ", 2); the second one is that of SplitN.
add_command : Text → List Text → OptionMap → OptionMap
add_command name (a ∷ command ∷ []) options = elim (option name options) [
  | none ↦ set_option name (command ∷ []) options
  | some v ↦ set_option name (v ++ command ∷ []) options
]
add_command name _ options = options

-- optionMap[tokens[0]] = tokens[1:], which panics without a token.
unfoldable pub set_tokens : List Text → OptionMap → Parsed OptionMap
set_tokens [] options = panicked
set_tokens (name ∷ values) options = parsed (set_option name values options)

-- One round of the loop over the option lines.
unfoldable pub parse_option : Text → OptionMap → Parsed OptionMap
unfolding add_command set_tokens
parse_option line options =
    if has_prefix line (codes "post-up")
    then parsed (add_command (codes "post-up") (split_n b' ' line 2) options)
    else if has_prefix line (codes "pre-down")
    then parsed (add_command (codes "pre-down") (split_n b' ' line 2) options)
    else set_tokens (fields line) options

unfoldable pub parse_options : List Text → OptionMap → Parsed OptionMap
unfolding parse_option
parse_options [] options = parsed options
parse_options (line ∷ lines) options =
    then_parse (parse_option line options) (λ options'. parse_options lines options')

-- The value of an option that has exactly one.
sole : Text → OptionMap → Option Text
sole name options = elim (option name options) [ some (v ∷ []) ↦ some v | _ ↦ none ]

module _ (net : Net) where
  unfoldable pub parse_hwaddress : OptionMap → Text → Parsed (Option Bytes)
  parse_hwaddress options iface = elim (option (codes "hwaddress") options) [
    | some (kind ∷ value ∷ []) ↦
        (if text_eq kind (codes "ether")
          then (elim (net.parse_mac value) [
            | some address ↦ parsed (some address)
            | none ↦ refused (malformed_hwaddress iface)
          ])
          else parsed none)
    | _ ↦ parsed none
  ]

  -- net.ParseIP(s), and net.IPMask(net.ParseIP(s).To4()); `none` is an option without its one value.
  ip_of : Option Text → Option Bytes
  ip_of none = none
  ip_of (some s) = net.parse_ip s

  mask_of : Option Text → Option Bytes
  unfolding ip_of
  mask_of s = elim (ip_of s) [ none ↦ none | some ip ↦ net.to4 ip ]

  -- One round of the loop over the fields of a `route add`, on a field and the next one.
  route_field : Text → Text → Route → Route
  unfolding mask_of
  route_field field next route =
      if text_eq field (codes "-net")
      then (elim (net.parse_cidr next) [
        | some dst ↦ record route { destination = dst }
        | none ↦ record route {
          destination = record { ip = net.parse_ip next; mask = route.destination.mask };
        }
      ])
      else if text_eq field (codes "netmask")
      then record route {
        destination = record { ip = route.destination.ip; mask = mask_of (some next) };
      }
      else if text_eq field (codes "gw")
      then record route { gateway = net.parse_ip next }
      else route

  unfoldable pub route_fields : List Text → Route → Route
  unfolding route_field
  route_fields [] route = route
  route_fields (field ∷ []) route = route
  route_fields (field ∷ next ∷ rest) route =
      route_fields (next ∷ rest) (route_field field next route)

  no_route : Route
  no_route = record { destination = record { ip = none; mask = none }; gateway = none }

  is_complete : Route → Bool
  is_complete route = elim (route.destination.ip) [
    | none ↦ false
    | some ip ↦ elim (route.destination.mask) [
      | none ↦ false
      | some mask ↦ elim (route.gateway) [ none ↦ false | some gateway ↦ true ]
    ]
  ]

  -- The loop over the post-up commands.
  add_routes : List Text → List Route → List Route
  unfolding route_fields no_route is_complete
  add_routes [] routes = routes
  add_routes (postup ∷ postups) routes =
      let route = route_fields (fields postup) no_route in
      add_routes postups (
        if has_prefix postup (codes "route add") && is_complete route
        then routes ++ route ∷ []
        else routes)

  gateway_routes : Option Text → List Route
  gateway_routes none = []
  gateway_routes (some gateway) =
      record { destination = net.any_address; gateway = net.parse_ip gateway } ∷ []

  name_servers : List Text → List (Option Bytes)
  name_servers [] = []
  name_servers (s ∷ servers) = net.parse_ip s ∷ name_servers servers

  static_config : OptionMap → IpNet → Option Bytes → StaticConfig
  unfolding add_routes gateway_routes name_servers sole
  static_config options address hw = record {
    addresses = address ∷ [];
    nameservers = name_servers (option_values (codes "dns-nameservers") options);
    domains = [];
    routes =
        add_routes (option_values (codes "post-up") options)
          (gateway_routes (sole (codes "gateway") options));
    hwaddress = hw;
  }

  -- The case of "static".
  unfoldable pub parse_static : OptionMap → Text → Parsed ConfigMethod
  unfolding static_config ip_of mask_of sole
  parse_static options iface = elim (ip_of (sole (codes "address") options)) [
    | none ↦ refused (malformed_static iface)
    | some ip ↦ elim (mask_of (sole (codes "netmask") options)) [
      | none ↦ refused (malformed_static iface)
      | some mask ↦ then_parse (parse_hwaddress options iface) (λ hw.
          parsed (static (static_config options (record { ip = some ip; mask = some mask }) hw)))
    ]
  ]

  -- The switch over the method.
  unfoldable pub parse_config_method : Text → OptionMap → Text → Parsed ConfigMethod
  unfolding parse_static parse_hwaddress
  parse_config_method conf_method options iface =
      if text_eq conf_method (codes "static")
      then parse_static options iface
      else if text_eq conf_method (codes "loopback")
      then parsed loopback
      else if text_eq conf_method (codes "manual")
      then parsed manual
      else if text_eq conf_method (codes "dhcp")
      then then_parse (parse_hwaddress options iface) (λ hw. parsed (dhcp hw))
      else refused (invalid_config_method conf_method)
