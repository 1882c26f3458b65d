-- ===== src/Network/Stanza/Parse.antt =====
-- Parsing the stanzas.
use burmilla_os.Base.{
  Bool, true, false, ◌&&◌, ◌||◌, not, ◌==◌, Option, none, some, List, [], ◌∷◌, ◌++◌, Text, codes,
  text_eq, member, if◌then◌else◌,
}
use burmilla_os.Strings.{has_prefix, split, trim_prefix, fields}
use burmilla_os.Versions.Atoi.{is_integer}
use burmilla_os.Network.Stanza.{
  Net, ConfigMethod, InterfaceKind, bond, physical, vlan, OptionMap, Stanza, auto_stanza,
  interface_stanza, Parsed, parsed, refused, panicked, then_parse, malformed_stanza_start,
  unknown_stanza, incorrect_number_of_attributes, malformed_vlan_name, option, set_option,
  option_values, split_stanzas,
}
use burmilla_os.Network.Stanza.Options.{parse_options, parse_config_method}

-- The interface of a kind, with `auto` not set.
unfoldable pub interface_of : InterfaceKind → Text → ConfigMethod → OptionMap → Stanza
interface_of kind iface conf options =
    interface_stanza
      (record { name = iface; kind = kind; auto = false; config_method = conf; options = options })

-- strings.Contains(iface, ".")
unfoldable pub contains_dot : Text → Bool
contains_dot [] = false
contains_dot (c ∷ s) = c == b'.' || contains_dot s

last_token : List Text → Text
last_token [] = []
last_token (token ∷ []) = token
last_token (token ∷ next ∷ tokens) = last_token (next ∷ tokens)

-- The ID that the name of a VLAN holds; `none` is a name of neither form.
unfoldable pub vlan_id : Text → Option Text
unfolding contains_dot last_token
vlan_id iface =
    if contains_dot iface
    then some (last_token (split b'.' iface))
    else if has_prefix iface (codes "vlan")
    then some (trim_prefix iface (codes "vlan"))
    else none

unfoldable pub vlan_options : Text → OptionMap → OptionMap
vlan_options id options =
    let options' = set_option (codes "id") (id ∷ []) options in
    set_option (codes "raw_device") (option_values (codes "vlan_raw_device") options') options'

-- The end of `parseVLANStanza`, on the ID or nothing.
unfoldable pub number_vlan : Text → ConfigMethod → OptionMap → Option Text → Parsed Stanza
unfolding vlan_options interface_of
number_vlan iface conf options none = refused (malformed_vlan_name iface)
number_vlan iface conf options (some id) =
    if is_integer id
    then parsed (interface_of vlan iface conf (vlan_options id options))
    else refused (malformed_vlan_name iface)

unfoldable pub parse_vlan_stanza : Text → ConfigMethod → OptionMap → Parsed Stanza
unfolding vlan_id number_vlan
parse_vlan_stanza iface conf options = number_vlan iface conf options (vlan_id iface)

unfoldable pub has_option : Text → OptionMap → Bool
has_option name options = elim (option name options) [ none ↦ false | some vs ↦ true ]

-- The end of `parseInterfaceStanza`: which kind of interface it is.
unfoldable pub parse_kind : Text → ConfigMethod → OptionMap → Parsed Stanza
unfolding parse_vlan_stanza has_option interface_of contains_dot
parse_kind iface conf options =
    if has_option (codes "vlan_raw_device") options
    then parse_vlan_stanza iface conf options
    else if contains_dot iface
    then parse_vlan_stanza iface conf options
    else if has_option (codes "bond-slaves") options
    then parsed (interface_of bond iface conf options)
    else parsed (interface_of physical iface conf options)

-- For each name the last stanza of that name is the one that `interfaceMap` points to, and that
-- `auto` marks.
defines : Text → List Stanza → Bool
defines name [] = false
defines name (auto_stanza names ∷ stanzas) = defines name stanzas
defines name (interface_stanza i ∷ stanzas) = text_eq i.name name || defines name stanzas

unfoldable pub autos_of : List Stanza → List Text
autos_of [] = []
autos_of (auto_stanza names ∷ stanzas) = names ++ autos_of stanzas
autos_of (interface_stanza i ∷ stanzas) = autos_of stanzas

unfoldable pub apply_auto : List Text → List Stanza → List Stanza
unfolding defines
apply_auto autos [] = []
apply_auto autos (auto_stanza names ∷ stanzas) = auto_stanza names ∷ apply_auto autos stanzas
apply_auto autos (interface_stanza i ∷ stanzas) =
    (if member i.name autos && not (defines i.name stanzas)
      then interface_stanza (record i { auto = true })
      else interface_stanza i)
    ∷ apply_auto autos stanzas

module _ (net : Net) where
  unfoldable pub parse_interface_stanza : List Text → List Text → Parsed Stanza
  unfolding parse_kind
  parse_interface_stanza (iface ∷ family ∷ conf_method ∷ []) options =
      then_parse (parse_options options []) (λ option_map.
        then_parse (parse_config_method net conf_method option_map iface)
          (λ conf. parse_kind iface conf option_map))
  parse_interface_stanza _ options = refused incorrect_number_of_attributes

  -- The tokens of the first line, and the other lines.
  unfoldable pub parse_tokens : Text → List Text → List Text → Parsed Stanza
  unfolding parse_interface_stanza
  parse_tokens line [] options = refused (malformed_stanza_start line)
  parse_tokens line (kind ∷ []) options = refused (malformed_stanza_start line)
  parse_tokens line (kind ∷ attribute ∷ attributes) options =
      if text_eq kind (codes "auto")
      then parsed (auto_stanza (attribute ∷ attributes))
      else if text_eq kind (codes "iface")
      then parse_interface_stanza (attribute ∷ attributes) options
      else refused (unknown_stanza kind)

  unfoldable pub parse_stanza : List Text → Parsed Stanza
  unfolding parse_tokens
  parse_stanza [] = panicked
  parse_stanza (line ∷ options) = parse_tokens line (fields line) options

  -- The loop over the raw stanzas.
  unfoldable pub parse_each : List (List Text) → Parsed (List Stanza)
  unfolding parse_stanza
  parse_each [] = parsed []
  parse_each (raw ∷ raws) =
      then_parse (parse_stanza raw)
        (λ stanza. then_parse (parse_each raws) (λ stanzas. parsed (stanza ∷ stanzas)))

  unfoldable pub parse_stanzas : List Text → Parsed (List Stanza)
  unfolding parse_each apply_auto autos_of
  parse_stanzas lines = then_parse (split_stanzas lines) (λ raws.
      then_parse (parse_each raws) (λ stanzas. parsed (apply_auto (autos_of stanzas) stanzas)))
