-- ===== src/Network/Stanza.antt =====
-- config/cloudinit/network/stanza.go: the stanzas of a Debian /etc/network/interfaces. The package
-- net is the parameter `net`. A nil address or mask is `none`.
pub mod Options
pub mod Parse
pub mod Split
pub mod Panics
pub mod Vlan
use burmilla_os.Base.{
  ℕ, ◌≡◌, Bool, true, false, ◌&&◌, ◌||◌, not, Option, none, some, List, [], ◌∷◌, ◌++◌, Text, codes,
  text_eq, member, if◌then◌else◌,
}
use burmilla_os.Strings.{has_prefix, split}

-- The bytes of a net.IP, a net.IPMask or a net.HardwareAddr.
abbrev pub Bytes : Type 0
Bytes = List ℕ

pub record IpNet : Type 0 where
  pub ip : Option Bytes
  pub mask : Option Bytes

-- What the source calls of the package net: ParseIP, IP.To4, ParseCIDR and ParseMAC, and the value
-- of net.IPNet{IP: net.IPv4(0, 0, 0, 0), Mask: net.IPv4Mask(0, 0, 0, 0)}.
pub record Net : Type 0 where
  pub parse_ip : Text → Option Bytes
  pub to4 : Bytes → Option Bytes
  pub parse_cidr : Text → Option IpNet
  pub parse_mac : Text → Option Bytes
  pub any_address : IpNet

pub record Route : Type 0 where
  pub destination : IpNet
  pub gateway : Option Bytes

pub record StaticConfig : Type 0 where
  pub addresses : List IpNet
  pub nameservers : List (Option Bytes)
  pub domains : List Text
  pub routes : List Route
  pub hwaddress : Option Bytes

pub data ConfigMethod : Type 0 where
  static : StaticConfig → ConfigMethod
  loopback : ConfigMethod
  manual : ConfigMethod
  dhcp : Option Bytes → ConfigMethod

pub data InterfaceKind : Type 0 where
  bond physical vlan : InterfaceKind

-- A Go map from texts to slices of texts, as the list of its entries.
abbrev pub OptionMap : Type 0
OptionMap = List (Text × List Text)

pub record StanzaInterface : Type 0 where
  pub name : Text
  pub kind : InterfaceKind
  pub auto : Bool
  pub config_method : ConfigMethod
  pub options : OptionMap

pub data Stanza : Type 0 where
  auto_stanza : List Text → Stanza
  interface_stanza : StanzaInterface → Stanza

-- The errors of the parser, each with the text that its message quotes.
pub data ParseError : Type 0 where
  missing_stanza_start : Text → ParseError
  malformed_stanza_start : Text → ParseError
  unknown_stanza : Text → ParseError
  incorrect_number_of_attributes : ParseError
  malformed_static : Text → ParseError
  malformed_hwaddress : Text → ParseError
  invalid_config_method : Text → ParseError
  malformed_vlan_name : Text → ParseError

-- A result, an error, or a panic of the program.
pub data Parsed {ℓ} (A : Type ℓ) : Type ℓ where
  parsed : A → Parsed A
  refused : ParseError → Parsed A
  panicked : Parsed A

-- `if err != nil { return nil, err }` between two parts.
abbrev pub then_parse : {A B : Type 0} → Parsed A → (A → Parsed B) → Parsed B
then_parse (parsed a) rest = rest a
then_parse (refused e) rest = refused e
then_parse panicked rest = panicked

-- m[k]
unfoldable pub option : Text → OptionMap → Option (List Text)
option k [] = none
option k ((j, v) ∷ m) = if text_eq j k then some v else option k m

-- m[k] = v
unfoldable pub set_option : Text → List Text → OptionMap → OptionMap
set_option k v [] = (k, v) ∷ []
set_option k v ((j, w) ∷ m) = if text_eq j k then (k, v) ∷ m else (j, w) ∷ set_option k v m

-- m[k] of a missing key is nil.
unfoldable pub option_values : Text → OptionMap → List Text
unfolding option
option_values k m = elim (option k m) [ none ↦ [] | some vs ↦ vs ]

-- strings.Split(line, " ")[0]
first_word : Text → Text
first_word line = elim (split b' ' line) [ [] ↦ [] | w ∷ ws ↦ w ]

unfoldable pub is_stanza_start : Text → Bool
unfolding first_word
is_stanza_start line =
    text_eq (first_word line) (codes "auto")
    || text_eq (first_word line) (codes "iface")
    || text_eq (first_word line) (codes "mapping")
    || has_prefix line (codes "allow-")

-- The loop of `splitStanzas` with its variable `curStanza`, `none` for nil.
unfoldable pub split_stanzas_from : Option (List Text) → List Text → Parsed (List (List Text))
split_stanzas_from none [] = parsed []
split_stanzas_from (some cur_stanza) [] = parsed (cur_stanza ∷ [])
split_stanzas_from none (line ∷ lines) = elim (is_stanza_start line) [
  | true ↦ split_stanzas_from (some (line ∷ [])) lines
  | false ↦ refused (missing_stanza_start line)
]
split_stanzas_from (some cur_stanza) (line ∷ lines) = elim (is_stanza_start line) [
  | true ↦
      then_parse (split_stanzas_from (some (line ∷ [])) lines)
        (λ stanzas. parsed (cur_stanza ∷ stanzas))
  | false ↦ split_stanzas_from (some (cur_stanza ++ line ∷ [])) lines
]

unfoldable pub split_stanzas : List Text → Parsed (List (List Text))
split_stanzas lines = split_stanzas_from none lines
