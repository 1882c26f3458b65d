-- ===== src/Config/FilterKey/Partition.antt =====
-- Together the two results of `filterKey` hold what the map holds, each in its part.
use burmilla_os.Base.{
  Option, none, some, List, [], ◌∷◌, true, false, Text, text_eq_refl, ◌≡◌, ◌≢◌, ap, refl, sym, ◌∙◌,
  arith, Bool-cases, inl, inr,
}
use burmilla_os.Config.Value.{Value, object, Fields, end, field, lookup, put, remove, get, IsMap}
use burmilla_os.Config.Value.Laws.{lookup-IsWellFormed}
use burmilla_os.Config.Value.Paths.{get_in, get-object, get-put, get-remove, open-IsMap}
use burmilla_os.Config.Merge.{map_copy}
use burmilla_os.Config.Merge.Copying.{map_copy_lem}
use burmilla_os.Config.FilterKey.{is_empty, nest, filter_key}

pub empty_lem : (f : Fields) → is_empty f ≡ true → f ≡ end
unfolding is_empty
empty_lem end h = refl
empty_lem (field k v m) h = cc

pub get-end : (k : Text) (p : List Text) → get (k ∷ p) (object end) ≡ none
unfolding get lookup
get-end k p = refl

-- Nothing is left at the key; at the empty key nothing is left at all.
abbrev pub Gone : List Text → Fields → Type 0
Gone [] m = m ≡ end
Gone (k ∷ key) m = get (k ∷ key) (object m) ≡ none

Gone-get :
    (key : List Text) (m : Fields) → Gone key m → is_empty m ≡ false → get key (object m) ≡ none
unfolding is_empty
Gone-get [] m h e = ground (arith, h)
Gone-get (k ∷ key) m h e = h

get_in_refl :
    (k : Text) (p : List Text) (v : Value) (m : Fields) → get (k ∷ p) (object (put k v m)) ≡ get p v
get_in_refl k p v m = ground (arith, get-put k k p v m, text_eq_refl k)

get_removed : (k : Text) (p : List Text) (m : Fields) → get (k ∷ p) (object (remove k m)) ≡ none
get_removed k p m = ground (arith, get-remove k k p m, text_eq_refl k)

rest_nest :
    (k : Text) (key : List Text) (halves : Fields × Fields) (rest : Fields)
    → Gone key halves.1
    → get (k ∷ key) (object (nest k halves rest).1) ≡ none
unfolding nest
rest_nest k key (f, r) rest ih = elim (Bool-cases (is_empty r)) [
  | inl e ↦ rw e (get_removed k key rest)
  | inr e ↦ rw e (get_in_refl k key (object r) rest ∙ Gone-get key r ih e)
]

-- The rest has nothing at the key.
pub filter_key_rest :
    (data' : Fields) (key : List Text) → IsMap data' → Gone key (filter_key data' key).1
unfolding filter_key
filter_key_rest data' [] h = refl
filter_key_rest data' (k ∷ key) h = go (lookup k data') refl (λ d. filter_key_rest d key)
  where
    go :
        (o : Option Value)
        → lookup k data' ≡ o
        → ((d : Fields) → IsMap d → Gone key (filter_key d key).1)
        → get (k ∷ key) (object (filter_key data' (k ∷ key)).1) ≡ none
    go none e ih =
        rw (e, filter_key) (rw (map_copy_lem data' h) (get-object k key data' ∙ ap (get_in key) e))
    go (some (object d)) e ih =
        rw (e, filter_key)
          (rest_nest k key (filter_key d key) (map_copy data')
            (ih d (open-IsMap d (lookup-IsWellFormed k data' h e))))
    go (some d) e ih = rw (e, filter_key) (get_removed k key (map_copy data'))

filtered_nest :
    (k : Text) (key : List Text) (halves : Fields × Fields) (d rest : Fields)
    → get key (object d) ≢ some (object end)
    → get key (object halves.0) ≡ get key (object d)
    → get (k ∷ key) (object (nest k halves rest).0) ≡ get key (object d)
unfolding nest
filtered_nest k key (f, r) d rest ne ih = elim (Bool-cases (is_empty f)) [
  | inl e ↦
      rw e (get-end k key ∙ go key ne (ap (λ m. get key (object m)) (sym (empty_lem f e)) ∙ ih))
  | inr e ↦ rw e (get_in_refl k key (object f) end ∙ ih)
]
  where
    go :
        (key : List Text)
        → get key (object d) ≢ some (object end)
        → get key (object end) ≡ get key (object d)
        → none ≡ get key (object d)
    go [] ne e = absurd (ne (sym e ∙ unfold get in refl))
    go (j ∷ key) ne e = sym (get-end j key) ∙ e

-- The filtered part has at the key what the map has there; an empty map there is dropped.
pub filter_key_filtered :
    (data' : Fields) (key : List Text)
    → IsMap data'
    → get key (object data') ≢ some (object end)
    → get key (object (filter_key data' key).0) ≡ get key (object data')
unfolding filter_key
filter_key_filtered data' [] h ne = refl
filter_key_filtered data' (k ∷ key) h ne = go (lookup k data') refl (λ d. filter_key_filtered d key)
  where
    go :
        (o : Option Value)
        → lookup k data' ≡ o
        → ((d : Fields)
            → IsMap d
            → get key (object d) ≢ some (object end)
            → get key (object (filter_key d key).0) ≡ get key (object d))
        → get (k ∷ key) (object (filter_key data' (k ∷ key)).0) ≡ get (k ∷ key) (object data')
    go none e ih =
        rw (e, filter_key) (get-end k key ∙ sym (get-object k key data' ∙ ap (get_in key) e))
    go (some (object d)) e ih =
        let at : get (k ∷ key) (object data') ≡ get key (object d) =
          get-object k key data' ∙ ap (get_in key) e in
        let ne' : get key (object d) ≢ some (object end) = λ q. ne (at ∙ q) in
        rw (e, filter_key)
          (filtered_nest k key (filter_key d key) d (map_copy data') ne'
              (ih d (open-IsMap d (lookup-IsWellFormed k data' h e)) ne')
            ∙ sym at)
    go (some d) e ih =
        rw (e, filter_key)
          (get_in_refl k key d end ∙ sym (get-object k key data' ∙ ap (get_in key) e))
