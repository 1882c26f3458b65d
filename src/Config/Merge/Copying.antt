-- ===== src/Config/Merge/Copying.antt =====
-- A copy is equal to its original. The source copies so that later writes do not reach the original;
-- values that cannot be written to are equal to their copies.
use burmilla_os.Base.{none, Text, text_eq_iff, ◌≡◌, ap, refl, sym, ◌∙◌, arith}
use burmilla_os.Config.Value.{
  Value, text, scalar, items, object, Items, nil, cons, Fields, end, field, lookup, put,
  IsWellFormed, AreWellFormed, IsMap,
}
use burmilla_os.Config.Value.Laws.{lookup-put}
use burmilla_os.Config.Merge.{copy, slice_copy, map_copy_into, map_copy}

-- The entries of one map behind those of another.
abbrev append : Fields → Fields → Fields
append end m = m
append (field k v l) m = field k v (append l m)

append-field : (k : Text) (v : Value) (m : Fields) → append (field k v end) m ≡ field k v m
append-field k v m = refl

-- No key of the second map is in the first.
abbrev Avoids : Fields → Fields → Type 0
Avoids l end = Unit
Avoids l (field k v m) = (lookup k l ≡ none) × Avoids l m

put-append :
    (k : Text) (v : Value) (l : Fields) → lookup k l ≡ none → put k v l ≡ append l (field k v end)
unfolding put lookup
put-append k v end h = refl
put-append k v (field j w l) h = ground (arith, put-append k v l)

append_assoc : (l m n : Fields) → append (append l m) n ≡ append l (append m n)
append_assoc end m n = refl
append_assoc (field k v l) m n = ap (field k v) (append_assoc l m n)

append-end : (l : Fields) → append l end ≡ l
append-end end = refl
append-end (field k v l) = ap (field k v) (append-end l)

Avoids-put :
    (k : Text) (v : Value) (result m : Fields)
    → lookup k m ≡ none
    → Avoids result m
    → Avoids (put k v result) m
Avoids-put k v result end h a = tt
Avoids-put k v result (field j w m) h (free, a) = (
  unfold lookup in ground (arith, lookup-put k j v result, text_eq_iff j k, text_eq_iff k j),
  Avoids-put k v result m (unfold lookup in ground arith) a,
)

Avoids-end : (m : Fields) → Avoids end m
unfolding lookup
Avoids-end end = tt
Avoids-end (field k v m) = (refl, Avoids-end m)

mutual
  unfolding copy IsWellFormed

  copy-eq : (v : Value) → IsWellFormed v → copy v ≡ v
  copy-eq (object d) h = ap object (map_copy_into-eq d end h (Avoids-end d))
  copy-eq (items d) h = ap items (slice_copy-eq d h)
  copy-eq (text s) h = refl
  copy-eq (scalar s) h = refl

  slice_copy-eq : (d : Items) → AreWellFormed d → slice_copy d ≡ d
  slice_copy-eq nil h = refl
  slice_copy-eq (cons v d) (hv, h) = cc (copy-eq v hv, slice_copy-eq d h)

  map_copy_into-eq :
      (m result : Fields) → IsMap m → Avoids result m → map_copy_into m result ≡ append result m
  map_copy_into-eq end result h a = sym (append-end result)
  map_copy_into-eq (field k v m) result (fresh, hv, h) (free, a) =
      map_copy_into-eq m (put k (copy v) result) h (Avoids-put k (copy v) result m fresh a)
      ∙ ap (λ r. append r m) (put-append k (copy v) result free)
      ∙ append_assoc result (field k (copy v) end) m
      ∙ ap (λ w. append result (append (field k w end) m)) (copy-eq v hv)
      ∙ ap (append result) (append-field k v m)

pub copy_lem : (v : Value) → IsWellFormed v → copy v ≡ v
copy_lem v h = copy-eq v h

pub map_copy_lem : (m : Fields) → IsMap m → map_copy m ≡ m
unfolding map_copy
map_copy_lem m h = map_copy_into-eq m end h (Avoids-end m)
