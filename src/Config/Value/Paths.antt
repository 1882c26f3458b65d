-- ===== src/Config/Value/Paths.antt =====
-- What a tree has at a path after a write or a deletion.
use burmilla_os.Base.{Option, none, some, List, ◌∷◌, Text, text_eq, ◌≡◌, arith, if◌then◌else◌}
use burmilla_os.Config.Value.{Value, object, Fields, lookup, put, remove, get, IsWellFormed, IsMap}
use burmilla_os.Config.Value.Laws.{lookup-put, lookup-remove}

pub open-IsMap : (m : Fields) → IsWellFormed (object m) → IsMap m
unfolding IsWellFormed
open-IsMap m h = h

abbrev pub get_in : List Text → Option Value → Option Value
get_in p none = none
get_in p (some v) = get p v

pub get-object :
    (k : Text) (p : List Text) (m : Fields) → get (k ∷ p) (object m) ≡ get_in p (lookup k m)
unfolding get
get-object k p m = ground arith

pub get-put :
    (j k : Text) (p : List Text) (v : Value) (m : Fields)
    → get (k ∷ p) (object (put j v m)) ≡ (if text_eq j k then get p v else get (k ∷ p) (object m))
get-put j k p v m = ground (arith, get-object k p (put j v m), get-object k p m, lookup-put j k v m)

pub get-remove :
    (j k : Text) (p : List Text) (m : Fields)
    → get (k ∷ p) (object (remove j m)) ≡ (if text_eq j k then none else get (k ∷ p) (object m))
get-remove j k p m =
    ground (arith, get-object k p (remove j m), get-object k p m, lookup-remove j k m)
