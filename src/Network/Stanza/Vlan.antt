-- ===== src/Network/Stanza/Vlan.antt =====
-- A VLAN interface always has its ID among its options.
use mathlib.Core.Path.{subst}
use burmilla_os.Base.{
  ◌≡◌, ◌≢◌, ◌⊎◌, inl, inr, refl, ◌∙◌, sym, Bool, true, false, Option, none, some, List, [], ◌∷◌,
  Text, codes, text_eq, text_eq_refl, text_eq_iff, All, Bool-cases, arith, if◌then◌else◌,
}
use burmilla_os.Versions.Atoi.{is_integer}
use burmilla_os.Network.Stanza.{
  Net, ConfigMethod, InterfaceKind, bond, physical, vlan, OptionMap, StanzaInterface, Stanza,
  auto_stanza, interface_stanza, Parsed, parsed, refused, panicked, malformed_vlan_name,
  unknown_stanza, then_parse, split_stanzas, option, set_option,
}
use burmilla_os.Network.Stanza.Options.{parse_options, parse_config_method}
use burmilla_os.Network.Stanza.Parse.{
  number_vlan, has_option, contains_dot, vlan_options, interface_of, vlan_id, parse_vlan_stanza,
  parse_kind, parse_interface_stanza, parse_tokens, parse_stanza, parse_each, apply_auto,
  parse_stanzas,
}

option-set_option :
    (k : Text) (v : List Text) (m : OptionMap) → option k (set_option k v m) ≡ some v
unfolding option set_option
option-set_option k v [] = ground (arith, text_eq_refl k)
option-set_option k v ((j, w) ∷ m) = ground (arith, text_eq_refl k, option-set_option k v m)

option-set_option_other :
    (j k : Text) (v : List Text) (m : OptionMap)
    → text_eq j k ≡ false
    → option k (set_option j v m) ≡ option k m
unfolding option set_option
option-set_option_other j k v [] h = ground arith
option-set_option_other j k v ((i, w) ∷ m) h = elim (Bool-cases (text_eq i j)) [
  | inl e ↦ rw (e, h, subst (λ t. text_eq t k ≡ false) (sym ((text_eq_iff i j).0 e)) h) refl
  | inr e ↦ ground (arith, e, option-set_option_other j k v m h)
]

option-vlan_options :
    (id : Text) (options : OptionMap)
    → option (codes "id") (vlan_options id options) ≡ some (id ∷ [])
unfolding vlan_options
option-vlan_options id options =
    option-set_option_other (codes "raw_device") (codes "id") _ _ (unfold text_eq in refl)
    ∙ option-set_option (codes "id") (id ∷ []) options

-- The interface is no VLAN, or its option "id" has one value, and that is an integer.
abbrev pub HasId : StanzaInterface → Type 0
HasId i =
    (i.kind ≢ vlan)
    ⊎ ((id : Text) × (option (codes "id") i.options ≡ some (id ∷ [])) × (is_integer id ≡ true))

abbrev pub StanzaHasId : Stanza → Type 0
StanzaHasId (auto_stanza names) = Unit
StanzaHasId (interface_stanza i) = HasId i

-- The predicate holds for the result, if there is one.
abbrev pub Gives : {A : Type 0} → (A → Type 0) → Parsed A → Type 0
Gives P (parsed a) = P a
Gives P (refused e) = Unit
Gives P panicked = Unit

then_parse-Gives :
    {A B : Type 0} (P : B → Type 0) (r : Parsed A) (f : A → Parsed B)
    → ((a : A) → Gives P (f a))
    → Gives P (then_parse r f)
then_parse-Gives P (parsed a) f h = h a
then_parse-Gives P (refused e) f h = tt
then_parse-Gives P panicked f h = tt

pub then_parse-Gives_from :
    {A B : Type 0} (P : A → Type 0) (Q : B → Type 0) (r : Parsed A) (f : A → Parsed B)
    → Gives P r
    → ((a : A) → P a → Gives Q (f a))
    → Gives Q (then_parse r f)
then_parse-Gives_from P Q (parsed a) f p h = h a p
then_parse-Gives_from P Q (refused e) f p h = tt
then_parse-Gives_from P Q panicked f p h = tt

if-Gives :
    {A : Type 0} (P : A → Type 0) (b : Bool) (r s : Parsed A)
    → (b ≡ true → Gives P r)
    → Gives P s
    → Gives P (if b then r else s)
if-Gives P true r s h k = h refl
if-Gives P false r s h k = k

number_vlan-Gives :
    (iface : Text) (conf : ConfigMethod) (options : OptionMap) (o : Option Text)
    → Gives StanzaHasId (number_vlan iface conf options o)
unfolding number_vlan interface_of
number_vlan-Gives iface conf options none = tt
number_vlan-Gives iface conf options (some id) =
    if-Gives StanzaHasId (is_integer id)
      (parsed (interface_of vlan iface conf (vlan_options id options)))
      (refused (malformed_vlan_name iface)) (λ e. inr (id, option-vlan_options id options, e)) tt

parse_vlan_stanza-Gives :
    (iface : Text) (conf : ConfigMethod) (options : OptionMap)
    → Gives StanzaHasId (parse_vlan_stanza iface conf options)
unfolding parse_vlan_stanza
parse_vlan_stanza-Gives iface conf options = number_vlan-Gives iface conf options (vlan_id iface)

no_vlan :
    (kind : InterfaceKind) (iface : Text) (conf : ConfigMethod) (options : OptionMap)
    → kind ≢ vlan
    → Gives StanzaHasId (parsed (interface_of kind iface conf options))
unfolding interface_of
no_vlan kind iface conf options h = inl h

parse_kind-Gives :
    (iface : Text) (conf : ConfigMethod) (options : OptionMap)
    → Gives StanzaHasId (parse_kind iface conf options)
unfolding parse_kind
parse_kind-Gives iface conf options =
    if-Gives StanzaHasId (has_option (codes "vlan_raw_device") options)
      (parse_vlan_stanza iface conf options) _ (λ _. parse_vlan_stanza-Gives iface conf options)
      (if-Gives StanzaHasId (contains_dot iface) (parse_vlan_stanza iface conf options) _
        (λ _. parse_vlan_stanza-Gives iface conf options)
        (if-Gives StanzaHasId (has_option (codes "bond-slaves") options)
          (parsed (interface_of bond iface conf options))
          (parsed (interface_of physical iface conf options))
          (λ _. no_vlan bond iface conf options (λ q. cc))
          (no_vlan physical iface conf options (λ q. cc))))

apply_auto-All :
    (autos : List Text) (stanzas : List Stanza)
    → All StanzaHasId stanzas
    → All StanzaHasId (apply_auto autos stanzas)
unfolding apply_auto
apply_auto-All autos [] h = tt
apply_auto-All autos (auto_stanza names ∷ stanzas) (h, hs) = (tt, apply_auto-All autos stanzas hs)
apply_auto-All autos (interface_stanza i ∷ stanzas) (h, hs) =
    (either_way _, apply_auto-All autos stanzas hs)
  where
    either_way :
        (b : Bool)
        → StanzaHasId
            (if b then interface_stanza (record i { auto = true }) else interface_stanza i)
    either_way true = h
    either_way false = h

module _ (net : Net) where
  parse_interface_stanza-Gives :
      (attributes lines : List Text)
      → Gives StanzaHasId (parse_interface_stanza net attributes lines)
  unfolding parse_interface_stanza
  parse_interface_stanza-Gives (iface ∷ family ∷ m ∷ []) lines =
      then_parse-Gives StanzaHasId (parse_options lines []) _ (λ options.
        then_parse-Gives StanzaHasId (parse_config_method net m options iface) _
          (λ conf. parse_kind-Gives iface conf options))
  parse_interface_stanza-Gives [] lines = tt
  parse_interface_stanza-Gives (a ∷ []) lines = tt
  parse_interface_stanza-Gives (a ∷ b ∷ []) lines = tt
  parse_interface_stanza-Gives (a ∷ b ∷ c ∷ d ∷ rest) lines = tt

  parse_tokens-Gives :
      (line : Text) (tokens lines : List Text)
      → Gives StanzaHasId (parse_tokens net line tokens lines)
  unfolding parse_tokens
  parse_tokens-Gives line [] lines = tt
  parse_tokens-Gives line (kind ∷ []) lines = tt
  parse_tokens-Gives line (kind ∷ attribute ∷ attributes) lines =
      if-Gives StanzaHasId (text_eq kind (codes "auto"))
        (parsed (auto_stanza (attribute ∷ attributes))) _ (λ _. tt)
        (if-Gives StanzaHasId (text_eq kind (codes "iface"))
          (parse_interface_stanza net (attribute ∷ attributes) lines)
          (refused (unknown_stanza kind))
          (λ _. parse_interface_stanza-Gives (attribute ∷ attributes) lines) tt)

  parse_stanza-Gives : (raw : List Text) → Gives StanzaHasId (parse_stanza net raw)
  unfolding parse_stanza
  parse_stanza-Gives [] = tt
  parse_stanza-Gives (line ∷ lines) = parse_tokens-Gives line _ lines

  parse_each-Gives : (raws : List (List Text)) → Gives (All StanzaHasId) (parse_each net raws)
  unfolding parse_each
  parse_each-Gives [] = tt
  parse_each-Gives (raw ∷ raws) =
      then_parse-Gives_from StanzaHasId (All StanzaHasId) (parse_stanza net raw) _
        (parse_stanza-Gives raw)
        (λ stanza h.
          then_parse-Gives_from (All StanzaHasId) (All StanzaHasId) (parse_each net raws) _
            (parse_each-Gives raws) (λ stanzas hs. (h, hs)))

  -- Every VLAN interface among the parsed stanzas has its ID.
  pub parse_stanzas-Gives : (lines : List Text) → Gives (All StanzaHasId) (parse_stanzas net lines)
  unfolding parse_stanzas
  parse_stanzas-Gives lines = then_parse-Gives (All StanzaHasId) (split_stanzas lines) _ (λ raws.
      then_parse-Gives_from (All StanzaHasId) (All StanzaHasId) (parse_each net raws) _
        (parse_each-Gives raws) (λ stanzas hs. apply_auto-All _ stanzas hs))
