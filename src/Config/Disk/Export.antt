-- ===== src/Config/Disk/Export.antt =====
-- `Export` of config/config.go: what an exported configuration does not have.
use mathlib.Core.Path.{subst}
use burmilla_os.Base.{
  ◌≡◌, ◌≢◌, ◌∙◌, refl, Bool, true, false, List, [], ◌∷◌, Text, none, text_eq, All,
}
use burmilla_os.Base.Result.{ok}
use burmilla_os.Strings.{split}
use burmilla_os.Strings.Laws.{split-ne-nil}
use burmilla_os.Config.Value.{Fields, object, get, IsMap}
use burmilla_os.Config.FilterKey.{filter_key}
use burmilla_os.Config.FilterKey.Partition.{filter_key_rest, Gone}
use burmilla_os.Config.FilterKey.Frame.{filter_key_frame, diverge}
use burmilla_os.Config.FilterKey.WellFormed.{filter_key-IsMap}
use burmilla_os.Config.Disk.{
  System, filter_keys, private_keys, additional_keys, load_raw_config, export,
}

abbrev pub path : Text → List Text
path key = split b'.' key

-- The configuration has nothing at the key.
abbrev pub Lacks : Fields → Text → Type 0
Lacks m key = get (path key) (object m) ≡ none

-- None of the keys is a part of the given one, nor it of them.
abbrev pub AllDiverge : List Text → Text → Type 0
AllDiverge keys key = All (λ k. diverge (path k) (path key) ≡ true) keys

-- Each key diverges from all that come after it.
abbrev pub AreApart : List Text → Type 0
AreApart [] = Unit
AreApart (key ∷ keys) = AllDiverge keys key × AreApart keys

filter_key-Lacks : (m : Fields) (key : Text) → IsMap m → Lacks (filter_key m (path key)).1 key
filter_key-Lacks m key h = go (path key) (split-ne-nil b'.' key) (filter_key_rest m (path key) h)
  where
    go :
        (p : List Text)
        → p ≢ []
        → Gone p (filter_key m p).1
        → get p (object (filter_key m p).1) ≡ none
    go [] ne g = absurd (ne refl)
    go (k ∷ p) ne g = g

filter_keys-IsMap : (keys : List Text) (m : Fields) → IsMap m → IsMap (filter_keys keys m)
unfolding filter_keys
filter_keys-IsMap [] m h = h
filter_keys-IsMap (key ∷ keys) m h =
    filter_keys-IsMap keys (filter_key m (path key)).1 (filter_key-IsMap m (path key) h).1

filter_keys-keeps :
    (keys : List Text) (m : Fields) (key : Text)
    → IsMap m
    → AllDiverge keys key
    → get (path key) (object (filter_keys keys m)) ≡ get (path key) (object m)
unfolding filter_keys
filter_keys-keeps [] m key h d = refl
filter_keys-keeps (k ∷ keys) m key h (d, ds) =
    filter_keys-keeps keys (filter_key m (path k)).1 key (filter_key-IsMap m (path k) h).1 ds
    ∙ (filter_key_frame m (path k) (path key) h d).0

filter_keys-AllLack :
    (keys : List Text) (m : Fields)
    → IsMap m
    → AreApart keys
    → All (Lacks (filter_keys keys m)) keys
unfolding filter_keys
filter_keys-AllLack [] m h a = tt
filter_keys-AllLack (key ∷ keys) m h (d, a) =
    let m' = (filter_key m (path key)).1 in
    let h' = (filter_key-IsMap m (path key) h).1 in
    (
      filter_keys-keeps keys m' key h' d ∙ filter_key-Lacks m key h,
      filter_keys-AllLack keys m' h' a,
    )

private_keys-AreApart : AreApart private_keys
unfolding split text_eq
private_keys-AreApart = (
  (refl, (refl, (refl, (refl, tt)))),
  ((refl, (refl, (refl, tt))), ((refl, (refl, tt)), ((refl, tt), (tt, tt)))),
)

exported :
    (system : System) (full : Bool) (raw out : Fields)
    → load_raw_config system full ≡ ok raw
    → export system false full ≡ ok out
    → filter_keys private_keys (filter_keys additional_keys raw) ≡ out
unfolding export
exported system full raw out loaded e = cc (rw loaded at e)

-- A configuration that is exported without its private part has nothing at any of the private keys,
-- and at every key that is apart from all filtered keys it has what the loaded configuration has.
pub export_private :
    (system : System) (full : Bool) (raw out : Fields) (key : Text)
    → load_raw_config system full ≡ ok raw
    → IsMap raw
    → export system false full ≡ ok out
    → AllDiverge additional_keys key
    → AllDiverge private_keys key
    → All (Lacks out) private_keys × (get (path key) (object out) ≡ get (path key) (object raw))
export_private system full raw out key loaded h e da dp =
    let m = filter_keys additional_keys raw in
    let hm : IsMap m = filter_keys-IsMap additional_keys raw h in
    let q : filter_keys private_keys m ≡ out = exported system full raw out loaded e in
    subst
      (λ o. All (Lacks o) private_keys × (get (path key) (object o) ≡ get (path key) (object raw)))
      q
      (
        filter_keys-AllLack private_keys m hm private_keys-AreApart,
        filter_keys-keeps private_keys m key hm dp ∙ filter_keys-keeps additional_keys raw key h da,
      )
