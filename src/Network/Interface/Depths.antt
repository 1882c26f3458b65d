-- ===== src/Network/Interface/Depths.antt =====
-- The second half of config/cloudinit/network/interface.go: the links between the interfaces, their
-- depths, and the order of `buildInterfaces`. A pointer of `children` is the interface's name.
use burmilla_os.Base.{
  ℕ, zero, suc, Bool, false, ◌||◌, ltb, Option, none, some, List, [], ◌∷◌, ◌++◌, Text, member,
  if◌then◌else◌,
}
use burmilla_os.Strings.Sort.{sort_keys}
use burmilla_os.Network.Stanza.{StanzaInterface}
use burmilla_os.Network.Interface.{
  Interface, InterfaceMap, is_physical, is_bond, is_vlan, find, store, create_interfaces,
}

abbrev pub names_of : List (Text × Text) → List Text
names_of [] = []
names_of ((name, s) ∷ names) = name ∷ names_of names

abbrev pub keys_of : InterfaceMap → List (Text × Text)
keys_of [] = []
keys_of (i ∷ m) = (i.name, []) ∷ keys_of m

unfoldable pub sorted_interfaces : InterfaceMap → List Text
sorted_interfaces m = names_of (sort_keys (keys_of m))

-- Only a physical interface or a bond is given the child.
unfoldable pub add_child : Text → Text → InterfaceMap → InterfaceMap
unfolding find store
add_child parent child m = elim (find parent m) [
  | none ↦ m
  | some p ↦ elim p.kind [
    | is_vlan id raw_device ↦ m
    | other ↦ store (record p { children = p.children ++ child ∷ [] }) m
  ]
]

unfoldable pub add_to_slaves : List Text → Text → InterfaceMap → InterfaceMap
unfolding add_child
add_to_slaves [] child m = m
add_to_slaves (slave ∷ slaves) child m = add_to_slaves slaves child (add_child slave child m)

unfoldable pub link : Text → InterfaceMap → InterfaceMap
unfolding add_child add_to_slaves find
link name m = elim (find name m) [
  | none ↦ m
  | some i ↦ elim i.kind [
    | is_physical ↦ m
    | is_bond slaves options ↦ add_to_slaves slaves name m
    | is_vlan id raw_device ↦ add_child raw_device name m
  ]
]

unfoldable pub link_all : List Text → InterfaceMap → InterfaceMap
unfolding link
link_all [] m = m
link_all (name ∷ names) m = link_all names (link name m)

unfoldable pub link_ancestors : InterfaceMap → InterfaceMap
unfolding link_all sorted_interfaces
link_ancestors m = link_all (sorted_interfaces m) m

-- The loop over the children, from the depth found so far. The first argument is the recursive call.
unfoldable pub deepest :
    (Text → InterfaceMap → Option (ℕ × InterfaceMap))
    → List Text
    → ℕ
    → InterfaceMap
    → Option (ℕ × InterfaceMap)
deepest set_depth [] depth m = some (depth, m)
deepest set_depth (child ∷ children) depth m = elim (set_depth child m) [
  | none ↦ none
  | some (d, m') ↦ deepest set_depth children (if ltb depth d then d else depth) m'
]

-- setDepth; `none` is fuel that ran out. Every name that is asked for is in the map.
unfoldable pub set_depth : ℕ → Text → InterfaceMap → Option (ℕ × InterfaceMap)
unfolding deepest find store
set_depth zero name m = none
set_depth (suc fuel) name m = elim (find name m) [
  | none ↦ some (0, m)
  | some i ↦ elim (deepest (set_depth fuel) i.children 0 m) [
    | none ↦ none
    | some (depth, m') ↦ some (suc depth, store (record i { config_depth = depth }) m')
  ]
]

-- Some interface of the map has the child.
unfoldable pub is_child : Text → InterfaceMap → Bool
is_child name [] = false
is_child name (i ∷ m) = member name i.children || is_child name m

unfoldable pub mark : ℕ → List (Text × Text) → InterfaceMap → Option InterfaceMap
unfolding set_depth
mark fuel [] m = some m
mark fuel ((name, s) ∷ names) m = elim (set_depth fuel name m) [
  | none ↦ none
  | some (d, m') ↦ mark fuel names m'
]

-- rootInterfaceMap
unfoldable pub roots : InterfaceMap → InterfaceMap → List (Text × Text)
unfolding is_child
roots all [] = []
roots all (i ∷ m) =
    let rest = roots all m in if is_child i.name all then rest else (i.name, []) ∷ rest

unfoldable pub mark_config_depths : ℕ → InterfaceMap → Option InterfaceMap
unfolding mark roots
mark_config_depths fuel m = mark fuel (roots m m) m

unfoldable pub in_order : List Text → InterfaceMap → List Interface
unfolding find
in_order [] m = []
in_order (name ∷ names) m =
    let rest = in_order names m in elim (find name m) [ none ↦ rest | some i ↦ i ∷ rest ]

-- `none` is the panic of `createInterfaces`, or fuel that ran out.
unfoldable pub build_interfaces : ℕ → List StanzaInterface → Option (List Interface)
unfolding link_ancestors mark_config_depths in_order sorted_interfaces
build_interfaces fuel stanzas = elim (create_interfaces stanzas) [
  | none ↦ none
  | some m ↦ elim (mark_config_depths fuel (link_ancestors m)) [
    | none ↦ none
    | some m' ↦ some (in_order (sorted_interfaces m') m')
  ]
]
