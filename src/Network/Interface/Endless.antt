-- ===== src/Network/Interface/Endless.antt =====
-- Interfaces that are built on each other in a circle.
use burmilla_os.Base.{ℕ, zero, suc, none, some, List, ◌∷◌, Text, ◌≡◌, refl}
use burmilla_os.Network.Interface.{Interface, InterfaceMap, find}
use burmilla_os.Network.Interface.Depths.{set_depth, deepest}

-- The interface is in the map, and its first child is the given one.
abbrev pub HasFirst : InterfaceMap → Text → Text → Type 0
HasFirst m name child =
    (i : Interface) × (others : List Text) × (find name m ≡ some i) × (i.children ≡ child ∷ others)

-- From an interface of a set in which each has its first child in the set again, `setDepth` never
-- returns.
pub set_depth_endless :
    (m : InterfaceMap) (Circle : Text → Type 0) (fuel : ℕ) (name : Text)
    → ((n : Text) → Circle n → (child : Text) × HasFirst m n child × Circle child)
    → Circle name
    → set_depth fuel name m ≡ none
unfolding set_depth deepest
set_depth_endless m Circle zero name next c = refl
set_depth_endless m Circle (suc fuel) name next c =
    let (child, (i, others, f, e), d) = next name c in
    rw (f, set_depth) (rw (e, set_depth_endless m Circle fuel child next d) refl)
