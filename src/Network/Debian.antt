-- ===== src/Network/Debian.antt =====
-- config/cloudinit/network/debian.go: the lines of /etc/network/interfaces and its interfaces.
pub mod Safe
mod Examples
use burmilla_os.Base.{◌||◌, Bool, true, false, List, [], ◌∷◌, Text, codes, text_eq, if◌then◌else◌}
use burmilla_os.Strings.{has_prefix, split, replace, trim_space}
use burmilla_os.Network.Stanza.{
  Net, StanzaInterface, Stanza, auto_stanza, interface_stanza, Parsed, parsed, refused, then_parse,
}
use burmilla_os.Network.Stanza.Parse.{parse_stanzas}

-- One round of the loop of `formatConfig`, on the text up to the next newline.
unfoldable pub format_lines : List Text → List Text
format_lines [] = []
format_lines (piece ∷ pieces) =
    let lines = format_lines pieces in
    let line = trim_space piece in
    if has_prefix line (codes "#") || text_eq line [] then lines else line ∷ lines

-- The loop cuts the text at one newline after the other and ends with it; a last empty piece, at
-- which it has ended, gives no line either.
unfoldable pub format_config : Text → List Text
unfolding format_lines
format_config config = format_lines (split b'\n' (replace config (codes "\\\n") []))

unfoldable pub interfaces : List Stanza → List StanzaInterface
interfaces [] = []
interfaces (auto_stanza names ∷ stanzas) = interfaces stanzas
interfaces (interface_stanza i ∷ stanzas) = i ∷ interfaces stanzas

-- The part of `ProcessDebianNetconf` before `buildInterfaces`.
unfoldable pub process_debian_netconf : Net → Text → Parsed (List StanzaInterface)
unfolding format_config interfaces
process_debian_netconf net config =
    then_parse (parse_stanzas net (format_config config)) (λ stanzas. parsed (interfaces stanzas))
