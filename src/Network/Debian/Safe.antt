-- ===== src/Network/Debian/Safe.antt =====
-- What `ProcessDebianNetconf` hands on to `buildInterfaces`.
use burmilla_os.Base.{
  ◌≡◌, ◌≢◌, inl, inr, refl, false, ◌||◌, List, [], ◌∷◌, Text, codes, text_eq, All, Bool-cases,
  if◌then◌else◌,
}
use burmilla_os.Strings.{has_prefix, trim_space}
use burmilla_os.Strings.Blank.{fields-trim_space}
use burmilla_os.Network.Stanza.{
  Net, StanzaInterface, Stanza, auto_stanza, interface_stanza, Parsed, parsed, refused, panicked,
  then_parse,
}
use burmilla_os.Network.Stanza.Parse.{parse_stanzas}
use burmilla_os.Network.Stanza.Panics.{HasToken, parse_stanzas-safe}
use burmilla_os.Network.Stanza.Vlan.{HasId, StanzaHasId, Gives, parse_stanzas-Gives}
use burmilla_os.Network.Debian.{format_lines, format_config, interfaces, process_debian_netconf}

-- A line that is kept has a token and is no comment.
abbrev pub IsConfigLine : Text → Type 0
IsConfigLine line = HasToken line × (has_prefix line (codes "#") ≡ false)

not_empty : (line : Text) → text_eq line [] ≡ false → line ≢ []
unfolding text_eq
not_empty [] h = cc
not_empty (c ∷ line) h = λ q. cc

format_lines-All : (pieces : List Text) → All IsConfigLine (format_lines pieces)
unfolding format_lines
format_lines-All [] = tt
format_lines-All (piece ∷ pieces) =
    keep (trim_space piece) (fields-trim_space piece) (format_lines-All pieces)
  where
    keep :
        (line : Text)
        → (line ≢ [] → HasToken line)
        → All IsConfigLine (format_lines pieces)
        → All IsConfigLine (
            if has_prefix line (codes "#") || text_eq line []
            then format_lines pieces
            else line ∷ format_lines pieces)
    keep line token rest = elim (Bool-cases (has_prefix line (codes "#"))) [
      | inl e ↦ rw e rest
      | inr e ↦ elim (Bool-cases (text_eq line [])) [
        | inl q ↦ rw (e, q) rest
        | inr q ↦ rw (e, q) ((token (not_empty line q), e), rest)
      ]
    ]

-- Every line that the formatting keeps has a token and is no comment.
pub format_config-All : (config : Text) → All IsConfigLine (format_config config)
unfolding format_config
format_config-All config = format_lines-All _

-- An error, or interfaces with an ID for each VLAN; a panic is excluded.
abbrev pub IsSafe : Parsed (List StanzaInterface) → Type 0
IsSafe (parsed is) = All HasId is
IsSafe (refused e) = Unit
IsSafe panicked = ⊥

interfaces-All : (stanzas : List Stanza) → All StanzaHasId stanzas → All HasId (interfaces stanzas)
unfolding interfaces
interfaces-All [] h = tt
interfaces-All (auto_stanza names ∷ stanzas) (h, hs) = interfaces-All stanzas hs
interfaces-All (interface_stanza i ∷ stanzas) (h, hs) = (h, interfaces-All stanzas hs)

then_IsSafe :
    (r : Parsed (List Stanza))
    → r ≢ panicked
    → Gives (All StanzaHasId) r
    → IsSafe (then_parse r (λ stanzas. parsed (interfaces stanzas)))
then_IsSafe (parsed stanzas) h k = interfaces-All stanzas k
then_IsSafe (refused e) h k = tt
then_IsSafe panicked h k = h refl

tokens : (lines : List Text) → All IsConfigLine lines → All HasToken lines
tokens [] h = tt
tokens (line ∷ lines) ((h, k), hs) = (h, tokens lines hs)

-- Whatever the file holds, parsing it neither indexes past the end of a list of tokens nor meets an
-- empty stanza; each VLAN interface that it gives has one value for the option "id", an integer,
-- which `createInterfaces` reads without a test.
pub process_debian_netconf-IsSafe :
    (net : Net) (config : Text) → IsSafe (process_debian_netconf net config)
unfolding process_debian_netconf
process_debian_netconf-IsSafe net config =
    then_IsSafe (parse_stanzas net (format_config config))
      (parse_stanzas-safe net (format_config config) (tokens _ (format_config-All config)))
      (parse_stanzas-Gives net (format_config config))
