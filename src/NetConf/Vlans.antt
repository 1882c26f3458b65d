-- ===== src/NetConf/Vlans.antt =====
-- `ParseVlanDefinitions` of pkg/netconf/vlan.go, and its round trip.
use burmilla_os.Base.{List, [], ◌∷◌, ◌++◌, Text, codes, if◌then◌else◌}
use burmilla_os.Base.Int.{ℤ}
use burmilla_os.Base.Result.{Result, ok, failed, panicked, ◌>>=◌}
use burmilla_os.Strings.{split, split_n, trim_space}
use burmilla_os.Versions.Atoi.{atoi, is_integer}

-- An empty name is one that is not given.
pub record VlanDefinition : Type 0 where
  pub id : ℤ
  pub name : Text

-- One piece between the commas; `vlans` is for the error.
unfoldable pub parse_vlan : Text → List Text → Result VlanDefinition
parse_vlan vlans [] = panicked
parse_vlan vlans (id ∷ rest) =
    if is_integer id
    then ok (record { id = atoi id; name = elim rest [ [] ↦ [] | name ∷ others ↦ name ] })
    else failed (codes "Invalid format in " ++ vlans)

unfoldable pub parse_vlans : Text → List Text → Result (List VlanDefinition)
unfolding parse_vlan
parse_vlans vlans [] = ok []
parse_vlans vlans (vlan ∷ rest) = parse_vlan vlans (split_n b':' (trim_space vlan) 2) >>= λ def.
    parse_vlans vlans rest >>= λ defs. ok (def ∷ defs)

unfoldable pub parse_trimmed : Text → Result (List VlanDefinition)
unfolding parse_vlans
parse_trimmed [] = ok []
parse_trimmed (c ∷ s) = parse_vlans (c ∷ s) (split b',' (c ∷ s))

unfoldable pub parse_vlan_definitions : Text → Result (List VlanDefinition)
unfolding parse_trimmed
parse_vlan_definitions vlans = parse_trimmed (trim_space vlans)
