-- ===== src/Config/Value/Laws.antt =====
-- The laws of maps.
use mathlib.Core.Path.{subst}
use burmilla_os.Base.{
  false, none, some, Text, text_eq, text_eq_iff, if◌then◌else◌, ◌≡◌, refl, arith, Bool-cases, inl,
  inr,
}
use burmilla_os.Config.Value.{Value, Fields, end, field, lookup, put, remove, IsWellFormed, IsMap}

pub lookup-put :
    (j k : Text) (v : Value) (m : Fields)
    → lookup k (put j v m) ≡ (if text_eq j k then some v else lookup k m)
unfolding lookup put
lookup-put j k v end = refl
lookup-put j k v (field i w m) =
    ground (arith, lookup-put j k v m, text_eq_iff i j, text_eq_iff i k, text_eq_iff j k)

pub lookup-remove :
    (j k : Text) (m : Fields) → lookup k (remove j m) ≡ (if text_eq j k then none else lookup k m)
unfolding lookup remove
lookup-remove j k end = ground arith
lookup-remove j k (field i w m) =
    ground (arith, lookup-remove j k m, text_eq_iff i j, text_eq_iff i k, text_eq_iff j k)

-- A write of another key leaves a key absent.
fresh-put :
    (j k : Text) (v : Value) (m : Fields)
    → text_eq j k ≡ false
    → lookup j m ≡ none
    → lookup j (put k v m) ≡ none
fresh-put j k v m h fresh = ground (arith, lookup-put k j v m, text_eq_iff j k, text_eq_iff k j)

fresh-remove : (j k : Text) (m : Fields) → lookup j m ≡ none → lookup j (remove k m) ≡ none
fresh-remove j k m fresh = ground (arith, lookup-remove k j m)

pub put-IsMap : (k : Text) (v : Value) (m : Fields) → IsWellFormed v → IsMap m → IsMap (put k v m)
unfolding put IsWellFormed
put-IsMap k v end hv h = (unfold lookup in refl, hv, tt)
put-IsMap k v (field j w m) hv (fresh, hw, h) = elim (Bool-cases (text_eq j k)) [
  | inl e ↦ rw e (subst (λ t. lookup t m ≡ none) ((text_eq_iff j k).0 e) fresh, hv, h)
  | inr e ↦ rw e (fresh-put j k v m e fresh, hw, put-IsMap k v m hv h)
]

pub remove-IsMap : (k : Text) (m : Fields) → IsMap m → IsMap (remove k m)
unfolding remove IsWellFormed
remove-IsMap k end h = h
remove-IsMap k (field j w m) (fresh, hw, h) = elim (Bool-cases (text_eq j k)) [
  | inl e ↦ rw e (remove-IsMap k m h)
  | inr e ↦ rw e (fresh-remove j k m fresh, hw, remove-IsMap k m h)
]

pub lookup-IsWellFormed :
    (k : Text) (m : Fields) {v : Value} → IsMap m → lookup k m ≡ some v → IsWellFormed v
unfolding lookup IsWellFormed
lookup-IsWellFormed k end h e = cc
lookup-IsWellFormed k (field j w m) {v} (fresh, hw, h) e = elim (Bool-cases (text_eq j k)) [
  | inl t ↦ let q : w ≡ v = ground arith in subst IsWellFormed q hw
  | inr t ↦ lookup-IsWellFormed k m h (rw t at e)
]
