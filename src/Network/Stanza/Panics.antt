-- ===== src/Network/Stanza/Panics.antt =====
-- No text makes the parser panic.
use burmilla_os.Base.{◌≢◌, inl, inr, refl, List, [], ◌∷◌, ◌++◌, Text, All, arith}
use burmilla_os.Strings.{fields}
use burmilla_os.Network.Stanza.{
  Net, ConfigMethod, OptionMap, Parsed, parsed, refused, panicked, then_parse,
}
use burmilla_os.Network.Stanza.Options.{
  parse_option, set_tokens, parse_options, parse_hwaddress, parse_config_method,
}
use burmilla_os.Network.Stanza.Parse.{
  parse_kind, parse_interface_stanza, parse_tokens, parse_stanza, parse_each, parse_stanzas,
}
use burmilla_os.Network.Stanza.Split.{IsRawStanza, joined, split_stanzas_cases}

-- A line with a token.
abbrev pub HasToken : Text → Type 0
HasToken line = fields line ≢ []

then_parse-safe :
    {A B : Type 0} (r : Parsed A) (f : A → Parsed B)
    → r ≢ panicked
    → ((a : A) → f a ≢ panicked)
    → then_parse r f ≢ panicked
then_parse-safe (parsed a) f h k = k a
then_parse-safe (refused e) f h k = λ q. cc
then_parse-safe panicked f h k = absurd (h refl)

set_tokens-safe :
    (tokens : List Text) (options : OptionMap) → tokens ≢ [] → set_tokens tokens options ≢ panicked
unfolding set_tokens
set_tokens-safe [] options h = absurd (h refl)
set_tokens-safe (name ∷ values) options h = λ q. cc

parse_option-safe :
    (line : Text) (options : OptionMap) → HasToken line → parse_option line options ≢ panicked
unfolding parse_option
parse_option-safe line options h = ground (arith, set_tokens-safe (fields line) options h)

parse_options-safe :
    (lines : List Text) (options : OptionMap)
    → All HasToken lines
    → parse_options lines options ≢ panicked
unfolding parse_options
parse_options-safe [] options h = λ q. cc
parse_options-safe (line ∷ lines) options (h, hs) =
    then_parse-safe (parse_option line options) _ (parse_option-safe line options h)
      (λ options'. parse_options-safe lines options' hs)

module _ (net : Net) where
  parse_hwaddress-safe :
      (options : OptionMap) (iface : Text) → parse_hwaddress net options iface ≢ panicked
  unfolding parse_hwaddress
  parse_hwaddress-safe options iface = ground arith

  parse_config_method-safe :
      (m : Text) (options : OptionMap) (iface : Text)
      → parse_config_method net m options iface ≢ panicked
  unfolding parse_config_method
  parse_config_method-safe m options iface = ground (arith, parse_hwaddress-safe options iface)

  parse_kind-safe :
      (iface : Text) (conf : ConfigMethod) (options : OptionMap)
      → parse_kind iface conf options ≢ panicked
  unfolding parse_kind
  parse_kind-safe iface conf options = ground arith

  parse_interface_stanza-safe :
      (attributes lines : List Text)
      → All HasToken lines
      → parse_interface_stanza net attributes lines ≢ panicked
  unfolding parse_interface_stanza
  parse_interface_stanza-safe (iface ∷ family ∷ m ∷ []) lines h =
      then_parse-safe (parse_options lines []) _ (parse_options-safe lines [] h) (λ options.
        then_parse-safe (parse_config_method net m options iface) _
          (parse_config_method-safe m options iface) (λ conf. parse_kind-safe iface conf options))
  parse_interface_stanza-safe [] lines h = λ q. cc
  parse_interface_stanza-safe (a ∷ []) lines h = λ q. cc
  parse_interface_stanza-safe (a ∷ b ∷ []) lines h = λ q. cc
  parse_interface_stanza-safe (a ∷ b ∷ c ∷ d ∷ rest) lines h = λ q. cc

  parse_tokens-safe :
      (line : Text) (tokens lines : List Text)
      → All HasToken lines
      → parse_tokens net line tokens lines ≢ panicked
  unfolding parse_tokens
  parse_tokens-safe line [] lines h = λ q. cc
  parse_tokens-safe line (kind ∷ []) lines h = λ q. cc
  parse_tokens-safe line (kind ∷ attribute ∷ attributes) lines h =
      ground (arith, parse_interface_stanza-safe (attribute ∷ attributes) lines h)

  parse_stanza-safe :
      (raw : List Text) → IsRawStanza raw → All HasToken raw → parse_stanza net raw ≢ panicked
  unfolding parse_stanza
  parse_stanza-safe [] h k = absurd h
  parse_stanza-safe (line ∷ lines) h (k, ks) = parse_tokens-safe line (fields line) lines ks

  parse_each-safe :
      (raws : List (List Text))
      → All IsRawStanza raws
      → All HasToken (joined raws)
      → parse_each net raws ≢ panicked
  unfolding parse_each
  parse_each-safe [] h k = λ q. cc
  parse_each-safe (raw ∷ raws) (h, hs) k =
      let (k1, k2) = All_parts raw (joined raws) k in
      then_parse-safe (parse_stanza net raw) _ (parse_stanza-safe raw h k1) (λ stanza.
        then_parse-safe (parse_each net raws) _ (parse_each-safe raws hs k2) (λ stanzas q. cc))
    where
      All_parts : (xs ys : List Text) → All HasToken (xs ++ ys) → All HasToken xs × All HasToken ys
      All_parts [] ys a = (tt, a)
      All_parts (x ∷ xs) ys (a, as') = let (b, c) = All_parts xs ys as' in ((a, b), c)

  -- Lines each of which has a token never make the parser panic, whatever they are.
  pub parse_stanzas-safe :
      (lines : List Text) → All HasToken lines → parse_stanzas net lines ≢ panicked
  unfolding parse_stanzas
  parse_stanzas-safe lines h = elim (split_stanzas_cases lines) [
    | inl (raws, r, (j, all)) ↦ rw r (
        then_parse-safe (parse_each net raws) _ (parse_each-safe raws all (rw j h))
          (λ stanzas q. cc))
    | inr (line, rest, e, s, r) ↦ rw r (λ q. cc)
  ]
