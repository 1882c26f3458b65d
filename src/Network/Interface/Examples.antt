-- ===== src/Network/Interface/Examples.antt =====
-- A bond of two cards, and a VLAN on it.
use burmilla_os.Base.Int.{pos}
use burmilla_os.Network.Interface.Endless.{HasFirst, set_depth_endless}
use burmilla_os.Network.Interface.Depths.{set_depth, link_ancestors, build_interfaces}
use mathlib.Core.Path.{subst}
use burmilla_os.Base.{
  sym, member, ◌≡◌, inl, inr, codes, refl, List, [], ◌∷◌, All, some, false, text_eq, Text, none,
}
use burmilla_os.Versions.Atoi.{is_integer}
use burmilla_os.Strings.Sort.{sort_keys, text_le}
use burmilla_os.Versions.Atoi.{atoi}
use burmilla_os.Network.Stanza.{option_values, StanzaInterface, bond, vlan, manual, option}
use burmilla_os.Network.Stanza.Vlan.{HasId}
use burmilla_os.Network.Interface.{
  InterfaceMap, create_interfaces, is_bond, is_physical, is_vlan, find,
}

abbrev stanzas : List StanzaInterface
stanzas =
    record {
      name = codes "bond0";
      kind = bond;
      auto = false;
      config_method = manual;
      options = (codes "bond-slaves", codes "eth0" ∷ codes "eth1" ∷ []) ∷ [];
    }
    ∷ record {
      name = codes "vlan7";
      kind = vlan;
      auto = false;
      config_method = manual;
      options = (codes "id", codes "7" ∷ []) ∷ (codes "raw_device", codes "bond0" ∷ []) ∷ [];
    }
    ∷ []

stanzas-HasId : All HasId stanzas
unfolding option text_eq is_integer
stanzas-HasId = (inl (λ q. cc), (inr (codes "7", refl, refl), tt))

-- The VLAN is behind the bond, and the bond behind its cards.
depths :
    (build_interfaces 4 stanzas)
    ≡ some (
        record {
          name = codes "bond0";
          config = manual;
          children = codes "vlan7" ∷ [];
          config_depth = 1;
          kind = is_bond (codes "eth0" ∷ codes "eth1" ∷ []) [];
        }
        ∷ record {
          name = codes "eth0";
          config = manual;
          children = codes "bond0" ∷ [];
          config_depth = 2;
          kind = is_physical;
        }
        ∷ record {
          name = codes "eth1";
          config = manual;
          children = codes "bond0" ∷ [];
          config_depth = 2;
          kind = is_physical;
        }
        ∷ record {
          name = codes "vlan7";
          config = manual;
          children = [];
          config_depth = 0;
          kind = is_vlan (pos 7) (codes "bond0");
        }
        ∷ [])
unfolding build_interfaces create_interfaces option_values text_eq sort_keys text_le member atoi
depths = refl

-- A bond that is among its own slaves, as the links leave it.
abbrev own_slave : InterfaceMap
own_slave =
    record {
      name = codes "bond0";
      config = manual;
      children = codes "bond0" ∷ [];
      config_depth = 0;
      kind = is_bond (codes "eth0" ∷ codes "bond0" ∷ []) [];
    }
    ∷ record {
      name = codes "eth0";
      config = manual;
      children = codes "bond0" ∷ [];
      config_depth = 0;
      kind = is_physical;
    }
    ∷ []

abbrev bond_in_itself : List StanzaInterface
bond_in_itself =
    record {
      name = codes "bond0";
      kind = bond;
      auto = false;
      config_method = manual;
      options = (codes "bond-slaves", codes "eth0" ∷ codes "bond0" ∷ []) ∷ [];
    }
    ∷ []

linked :
    (elim (create_interfaces bond_in_itself) [ none ↦ none | some m ↦ some (link_ancestors m) ])
    ≡ some own_slave
unfolding link_ancestors create_interfaces option_values text_eq sort_keys text_le member atoi
linked = refl

own_child :
    (n : Text)
    → (n ≡ codes "bond0")
    → (child : Text) × HasFirst own_slave n child × (child ≡ codes "bond0")
unfolding find text_eq
own_child n e =
    subst (λ k. (child : Text) × HasFirst own_slave k child × (child ≡ codes "bond0")) (sym e)
      (codes "bond0", (_, [], refl, refl), refl)

set_depth_endless_example : set_depth 9 (codes "bond0") own_slave ≡ none
set_depth_endless_example =
    set_depth_endless own_slave (λ n. n ≡ codes "bond0") 9 (codes "bond0") own_child refl
