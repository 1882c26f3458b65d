-- ===== src/Network/Interface/Created.antt =====
-- Which interfaces the map has.
use burmilla_os.Base.{
  ◌≡◌, ◌≢◌, inl, inr, refl, Bool, true, false, Option, none, some, List, [], ◌∷◌, Text, codes,
  text_eq_refl, text_eq_iff, All, arith, if◌then◌else◌,
}
use burmilla_os.Network.Stanza.{
  ConfigMethod, manual, InterfaceKind, bond, physical, vlan, StanzaInterface, option_values,
}
use burmilla_os.Network.Stanza.Vlan.{HasId}
use burmilla_os.Versions.Atoi.{atoi}
use burmilla_os.Network.Interface.{
  bond_options, create_vlan, is_bond, is_physical, is_vlan, Interface, InterfaceMap, find, store,
  ensure, ensure_all, store_vlan, create_interface, create_from, create_interfaces, new_interface,
  is_loopback,
}

-- The map has an interface of that name.
abbrev pub Has : InterfaceMap → Text → Type 0
Has m name = find name m ≢ none

-- Every name of the first map is a name of the second.
abbrev Extends : InterfaceMap → InterfaceMap → Type 0
Extends m m' = (name : Text) → Has m name → Has m' name

store-Has : (i : Interface) (m : InterfaceMap) → Has (store i m) i.name
unfolding find store
store-Has i [] = ground (arith, text_eq_refl i.name)
store-Has i (j ∷ m) = ground (arith, text_eq_refl i.name, store-Has i m)

store-Extends : (i : Interface) (m : InterfaceMap) → Extends m (store i m)
unfolding find store
store-Extends i [] name h = absurd (h refl)
store-Extends i (j ∷ m) name h =
    ground (arith, store-Extends i m name, (text_eq_iff j.name i.name).0)

ensure_missing :
    (name : Text) (m : InterfaceMap)
    → find name m ≡ none
    → ensure name m ≡ store (new_interface name manual is_physical) m
unfolding ensure
ensure_missing name m e = rw (e, ensure)

ensure_found :
    (name : Text) (m : InterfaceMap) {i : Interface} → find name m ≡ some i → ensure name m ≡ m
unfolding ensure
ensure_found name m e = rw (e, ensure)

ensure-Has : (name : Text) (m : InterfaceMap) → Has (ensure name m) name × Extends m (ensure name m)
ensure-Has name m = go (find name m) refl
  where
    go :
        (o : Option Interface)
        → find name m ≡ o
        → Has (ensure name m) name × Extends m (ensure name m)
    go none e =
        let new : Interface = new_interface name manual is_physical in
        rw (ensure_missing name m e) (store-Has new m, store-Extends new m)
    go (some i) e = rw (ensure_found name m e) ((λ q. cc (e, q)), λ n h. h)

ensure_all-Has :
    (names : List Text) (m : InterfaceMap)
    → All (Has (ensure_all names m)) names × Extends m (ensure_all names m)
unfolding ensure_all
ensure_all-Has [] m = (tt, λ n h. h)
ensure_all-Has (name ∷ names) m =
    let (all, ext) = ensure_all-Has names (ensure name m) in
    let (has, ext') = ensure-Has name m in ((ext name has, all), λ n h. ext n (ext' n h))

-- The raw device of a VLAN, if it has one value.
abbrev pub raw_device : List Text → List Text
raw_device (device ∷ []) = device ∷ []
raw_device _ = []

-- The interfaces that a stanza names: its own, unless it is the loopback, the slaves of a bond and
-- the raw device of a VLAN.
abbrev pub needed : InterfaceKind → StanzaInterface → List Text
needed bond i = i.name ∷ option_values (codes "bond-slaves") i.options
needed physical i = if is_loopback i.config_method then [] else i.name ∷ []
needed vlan i = i.name ∷ raw_device (option_values (codes "raw_device") i.options)

-- A round has a result, with all the interfaces that the stanza names and all that were there.
abbrev Creates : InterfaceMap → List Text → Option InterfaceMap → Type 0
Creates m names none = ⊥
Creates m names (some m') = All (Has m') names × Extends m m'

store_vlan-Has :
    (name : Text) (config : ConfigMethod) (id : Text) (devices : List Text) (m : InterfaceMap)
    → All (Has (store_vlan name config id devices m)) (name ∷ raw_device devices)
      × Extends m (store_vlan name config id devices m)
unfolding store_vlan
store_vlan-Has name config id (device ∷ []) m =
    let (has, ext) = ensure-Has device m in
    let i : Interface = new_interface name config (is_vlan (atoi id) device) in
    let ext' = store-Extends i (ensure device m) in
    ((store-Has i (ensure device m), (ext' device has, tt)), λ n h. ext' n (ext n h))
store_vlan-Has name config id [] m =
    let i : Interface = new_interface name config (is_vlan (atoi id) []) in
    ((store-Has i m, tt), store-Extends i m)
store_vlan-Has name config id (a ∷ b ∷ devices) m =
    let i : Interface = new_interface name config (is_vlan (atoi id) []) in
    ((store-Has i m, tt), store-Extends i m)

create_interface-Creates :
    (i : StanzaInterface) (kind : InterfaceKind) (m : InterfaceMap)
    → (kind ≡ vlan → option_values (codes "id") i.options ≢ [])
    → Creates m (needed kind i) (create_interface i kind m)
unfolding create_interface
create_interface-Creates i bond m h =
    let slaves : List Text = option_values (codes "bond-slaves") i.options in
    let b : Interface = new_interface i.name i.config_method (
      is_bond slaves
        (bond_options (codes "mode" ∷ codes "miimon" ∷ codes "lacp-rate" ∷ []) i.options)) in
    let (all, ext) = ensure_all-Has slaves (store b m) in
    ((ext i.name (store-Has b m), all), λ n k. ext n (store-Extends b m n k))
create_interface-Creates i physical m h = go (is_loopback i.config_method)
  where
    go :
        (b : Bool)
        → Creates m (if b then [] else i.name ∷ []) (
            if b then some m else some (store (new_interface i.name i.config_method is_physical) m))
    go true = (tt, λ n k. k)
    go false =
        let p : Interface = new_interface i.name i.config_method is_physical in
        ((store-Has p m, tt), store-Extends p m)
create_interface-Creates i vlan m h = go (option_values (codes "id") i.options) (h refl)
  where
    devices : List Text
    devices = option_values (codes "raw_device") i.options

    go :
        (ids : List Text)
        → ids ≢ []
        → Creates m (i.name ∷ raw_device devices) (create_vlan i ids devices m)
    go [] k = k refl
    go (id ∷ ids) k = store_vlan-Has i.name i.config_method id devices m

HasId-values :
    (i : StanzaInterface) → HasId i → i.kind ≡ vlan → option_values (codes "id") i.options ≢ []
unfolding option_values
HasId-values i (inl h) e = absurd (h e)
HasId-values i (inr (id, q, v)) e = rw (q, option_values) (λ r. cc)

-- The loop has a result, with all the interfaces that the stanzas name and all that were there.
abbrev CreatesAll : InterfaceMap → List StanzaInterface → Option InterfaceMap → Type 0
CreatesAll m stanzas none = ⊥
CreatesAll m stanzas (some m') = All (λ i. All (Has m') (needed i.kind i)) stanzas × Extends m m'

Has-later :
    (m m' : InterfaceMap) (names : List Text)
    → Extends m m'
    → All (Has m) names
    → All (Has m') names
Has-later m m' [] ext h = tt
Has-later m m' (name ∷ names) ext (h, hs) = (ext name h, Has-later m m' names ext hs)

create_from-CreatesAll :
    (stanzas : List StanzaInterface) (m : InterfaceMap)
    → All HasId stanzas
    → CreatesAll m stanzas (create_from stanzas m)
unfolding create_from
create_from-CreatesAll [] m h = (tt, λ n k. k)
create_from-CreatesAll (i ∷ stanzas) m (h, hs) =
    go (create_interface i i.kind m) (create_interface-Creates i i.kind m (HasId-values i h))
      (λ m'. create_from-CreatesAll stanzas m' hs)
  where
    more :
        (m' : InterfaceMap) (o : Option InterfaceMap)
        → All (Has m') (needed i.kind i)
        → Extends m m'
        → CreatesAll m' stanzas o
        → CreatesAll m (i ∷ stanzas) o
    more m' none all ext k = k
    more m' (some m'') all ext (alls, ext') =
        ((Has-later m' m'' (needed i.kind i) ext' all, alls), λ n q. ext' n (ext n q))

    go :
        (o : Option InterfaceMap)
        → Creates m (needed i.kind i) o
        → ((m' : InterfaceMap) → CreatesAll m' stanzas (create_from stanzas m'))
        → CreatesAll m (i ∷ stanzas) (elim o [ none ↦ none | some m' ↦ create_from stanzas m' ])
    go none k rest = k
    go (some m') (all, ext) rest = more m' (create_from stanzas m') all ext (rest m')

-- If every VLAN stanza has an ID, the map is created without a panic, and it has all the interfaces
-- that the stanzas name: their own, unless it is the loopback, the slaves of each bond and the raw
-- device of each VLAN.
pub create_interfaces_complete :
    (stanzas : List StanzaInterface)
    → All HasId stanzas
    → (m : InterfaceMap) × (create_interfaces stanzas ≡ some m)
      × All (λ i. All (Has m) (needed i.kind i)) stanzas
unfolding create_interfaces
create_interfaces_complete stanzas h =
    go (create_from stanzas []) refl (create_from-CreatesAll stanzas [] h)
  where
    go :
        (o : Option InterfaceMap)
        → create_from stanzas [] ≡ o
        → CreatesAll [] stanzas o
        → (m : InterfaceMap) × (create_from stanzas [] ≡ some m)
          × All (λ i. All (Has m) (needed i.kind i)) stanzas
    go none e k = absurd k
    go (some m) e (all, ext) = (m, e, all)
