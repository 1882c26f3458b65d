-- ===== src/Config/Merge/Paths.antt =====
-- What a merged tree has at a path: the right tree's settings, and the left tree's settings where the
-- right tree says nothing.
use burmilla_os.Base.{
  Option, none, some, List, [], ◌∷◌, Bool, true, false, Text, ◌≡◌, ap, refl, sym, ◌∙◌, arith,
}
use burmilla_os.Config.Value.{
  Value, text, scalar, items, object, Fields, lookup, get, IsWellFormed, IsMap,
}
use burmilla_os.Config.Value.Laws.{lookup-IsWellFormed}
use burmilla_os.Config.Value.Paths.{open-IsMap, get_in, get-object}
use burmilla_os.Config.Merge.{merge}
use burmilla_os.Config.Merge.Lookup.{combine, combine-some, merge_values, lookup-merge}

get-merge :
    (k : Text) (p : List Text) (l r : Fields)
    → IsMap l
    → IsMap r
    → get (k ∷ p) (object (merge l r)) ≡ get_in p (combine (lookup k l) (lookup k r))
get-merge k p l r hl hr = get-object k p (merge l r) ∙ ap (get_in p) (lookup-merge k l r hl hr)

-- No map: a setting that a merge replaces whole.
abbrev pub IsLeaf : Value → Type 0
IsLeaf (object m) = ⊥
IsLeaf _ = Unit

leaf_wins : (l v : Value) → IsLeaf v → merge_values l v ≡ v
leaf_wins l (object m) h = absurd h
leaf_wins (object l) _ h = refl
leaf_wins (text l) _ h = refl
leaf_wins (scalar l) _ h = refl
leaf_wins (items l) _ h = refl

-- The values that a map has for a key are well-formed.
abbrev Sound : Option Value → Type 0
Sound o = (v : Value) → o ≡ some v → IsWellFormed v

right_step :
    (p : List Text) (v : Value)
    → ((l r : Value)
        → IsWellFormed l
        → IsWellFormed r
        → get p r ≡ some v
        → get p (merge_values l r) ≡ some v)
    → (a b : Option Value) → Sound a
    → Sound b
    → get_in p b ≡ some v
    → get_in p (combine a b) ≡ some v
right_step p v ih a none ha hb e = cc
right_step p v ih none (some r) ha hb e = e
right_step p v ih (some l) (some r) ha hb e =
    ap (get_in p) (combine-some l r) ∙ ih l r (ha l refl) (hb r refl) e

-- Every setting of the right tree is a setting of the merged tree.
pub get-merge_right :
    (p : List Text) (l r v : Value)
    → IsWellFormed l
    → IsWellFormed r
    → IsLeaf v
    → get p r ≡ some v
    → get p (merge_values l r) ≡ some v
get-merge_right [] l r v hl hr leaf e =
    unfold get in
    let q : r ≡ v = ground arith in
    ap (λ w. some (merge_values l w)) q ∙ ap some (leaf_wins l v leaf)
get-merge_right (k ∷ p) (object l) (object r) v hl hr leaf e =
    get-merge k p l r (open-IsMap l hl) (open-IsMap r hr)
    ∙ right_step p v (λ a b ha hb. get-merge_right p a b v ha hb leaf) (lookup k l) (lookup k r)
        (λ w. lookup-IsWellFormed k l (open-IsMap l hl))
        (λ w. lookup-IsWellFormed k r (open-IsMap r hr)) (sym (get-object k p r) ∙ e)
get-merge_right (k ∷ p) l r v hl hr leaf e = e

-- The right tree has nothing at the path, nor anything but maps on the way to it.
abbrev pub misses : List Text → Value → Bool
misses [] r = false
misses (k ∷ p) (object m) = elim (lookup k m) [ none ↦ true | some w ↦ misses p w ]
misses (k ∷ p) _ = false

abbrev misses_in : List Text → Option Value → Bool
misses_in p none = true
misses_in p (some w) = misses p w

misses-object :
    (k : Text) (p : List Text) (m : Fields) → misses (k ∷ p) (object m) ≡ misses_in p (lookup k m)
misses-object k p m = ground arith

-- A path that a tree misses is not in it.
get-misses : (p : List Text) (r : Value) → misses p r ≡ true → get p r ≡ none
get-misses [] r h = cc
get-misses (k ∷ p) (object m) h =
    get-object k p m ∙ go (lookup k m) (sym (misses-object k p m) ∙ h) (get-misses p)
  where
    go :
        (o : Option Value)
        → misses_in p o ≡ true
        → ((r : Value) → misses p r ≡ true → get p r ≡ none)
        → get_in p o ≡ none
    go none e ih = refl
    go (some w) e ih = ih w e
get-misses (k ∷ p) _ h = cc

left_step :
    (p : List Text)
    → ((l r : Value)
        → IsWellFormed l
        → IsWellFormed r
        → misses p r ≡ true
        → get p (merge_values l r) ≡ get p l)
    → (a b : Option Value) → Sound a
    → Sound b
    → misses_in p b ≡ true
    → get_in p (combine a b) ≡ get_in p a
left_step p ih none none ha hb e = refl
left_step p ih (some l) none ha hb e = refl
left_step p ih none (some r) ha hb e = get-misses p r e
left_step p ih (some l) (some r) ha hb e =
    ap (get_in p) (combine-some l r) ∙ ih l r (ha l refl) (hb r refl) e

-- A path that the right tree misses has in the merged tree what it has in the left tree.
pub get-merge_left :
    (p : List Text) (l r : Value)
    → IsWellFormed l
    → IsWellFormed r
    → misses p r ≡ true
    → get p (merge_values l r) ≡ get p l
get-merge_left [] l r hl hr h = cc
get-merge_left (k ∷ p) (object l) (object r) hl hr h =
    get-merge k p l r (open-IsMap l hl) (open-IsMap r hr)
    ∙ left_step p (get-merge_left p) (lookup k l) (lookup k r)
        (λ w. lookup-IsWellFormed k l (open-IsMap l hl))
        (λ w. lookup-IsWellFormed k r (open-IsMap r hr)) (sym (misses-object k p r) ∙ h)
    ∙ sym (get-object k p l)
get-merge_left (k ∷ p) (object l) r hl hr h = cc
get-merge_left (k ∷ p) l r hl hr h = get-misses (k ∷ p) r h ∙ unfold get in refl
