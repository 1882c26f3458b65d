-- ===== src/Cmdline/Settings.antt =====
-- Reading and writing a tree at a dotted key.
use mathlib.Core.Option
use mathlib.Core.Path.{subst}
use burmilla_os.Base.{
  Option, none, some, List, [], ◌∷◌, ◌++◌, Text, ◌≡◌, ◌≢◌, ◌⊎◌, inl, inr, refl, sym, ap, ◌∙◌, arith,
  text_eq_iff, text_eq_refl,
}
use burmilla_os.Strings.{split}
use burmilla_os.Strings.Laws.{split-ne-nil}
use burmilla_os.Config.Value.{
  Value, text, scalar, items, object, Fields, end, field, lookup, put, get, IsMap,
}
use burmilla_os.Config.Value.Paths.{get_in, get-object, get-put}
use burmilla_os.Config.Merge.Copying.{map_copy_lem}
use burmilla_os.Config.Merge.Paths.{IsLeaf}
use burmilla_os.Cmdline.{assign, get_val, set_val, get_or_set_val, typed}

-- A value that is no map stands on the way to the path.
abbrev pub IsBlocked : List Text → Fields → Type 0
IsBlocked parts t =
    (before : List Text) × (after : List Text) × (leaf : Value) × (parts ≡ before ++ after)
    × (after ≢ [])
    × IsLeaf leaf
    × (get before (object t) ≡ some leaf)

put_there :
    (k : Text) (p : List Text) (v : Value) (m : Fields) → get (k ∷ p) (object (put k v m)) ≡ get p v
put_there k p v m = ground (arith, get-put k k p v m, text_eq_refl k)

at_key :
    (k : Text) (p : List Text) (t : Fields) {o : Option Value}
    → lookup k t ≡ o
    → get (k ∷ p) (object t) ≡ get_in p o
at_key k p t e = get-object k p t ∙ ap (get_in p) e

-- Reading at a path is what the tree has there.
get_val-get :
    (k : Text) (parts : List Text) (t : Fields) → get_val (k ∷ parts) t ≡ get (k ∷ parts) (object t)
unfolding get_val
get_val-get k [] t = go (lookup k t) refl
  where
    go : (o : Option Value) → lookup k t ≡ o → lookup k t ≡ get (k ∷ []) (object t)
    go none e = e ∙ sym (at_key k [] t e)
    go (some w) e = e ∙ sym (at_key k [] t e ∙ unfold get in refl)
get_val-get k (j ∷ parts) t = go (lookup k t) refl (get_val-get j parts)
  where
    go :
        (o : Option Value)
        → lookup k t ≡ o
        → ((d : Fields) → get_val (j ∷ parts) d ≡ get (j ∷ parts) (object d))
        → get_val (k ∷ j ∷ parts) t ≡ get (k ∷ j ∷ parts) (object t)
    go none e ih = rw (e, get_val) (sym (at_key k (j ∷ parts) t e))
    go (some (object d)) e ih = rw (e, get_val) (ih d ∙ sym (at_key k (j ∷ parts) t e))
    go (some w) e ih = rw (e, get_val) (sym (at_key k (j ∷ parts) t e ∙ unfold get in refl))

-- The path is written, or blocked with nothing written.
abbrev Outcome : List Text → Value → Fields → Option Fields → Type 0
Outcome parts v t none = IsBlocked parts t
Outcome parts v t (some t') = get parts (object t') ≡ some v

end_not_blocked : (parts : List Text) → IsBlocked parts end → ⊥
end_not_blocked parts ([], after, leaf, e, ne, h, at) =
    let q : object end ≡ leaf = unfold get in ground (arith, at) in subst IsLeaf (sym q) h
end_not_blocked parts (k ∷ before, after, leaf, e, ne, h, at) = unfold get lookup in cc (at)

nested :
    (k : Text) (parts : List Text) (v : Value) (t d : Fields) (o : Option Fields)
    → (IsBlocked parts d → lookup k t ≡ some (object d))
    → Outcome parts v d o
    → Outcome (k ∷ parts) v t (Option.map (λ d'. put k (object d') t) o)
nested k parts v t d none under (before, after, leaf, e, ne, h, at) = (
  k ∷ before,
  after,
  leaf,
  ap (λ l. k ∷ l) e,
  ne,
  h,
  at_key k before t (under (before, after, leaf, e, ne, h, at)) ∙ at,
)
nested k parts v t d (some d') under at = put_there k parts (object d') t ∙ at

set_val_outcome :
    (k : Text) (parts : List Text) (v : Value) (t : Fields)
    → Outcome (k ∷ parts) v t (set_val (k ∷ parts) v t)
unfolding set_val
set_val_outcome k [] v t = put_there k [] v t ∙ unfold get in refl
set_val_outcome k (j ∷ parts) v t = go (lookup k t) refl (set_val_outcome j parts v)
  where
    stop : (w : Value) → IsLeaf w → lookup k t ≡ some w → IsBlocked (k ∷ j ∷ parts) t
    stop w h e = (k ∷ [], j ∷ parts, w, refl, λ q. cc, h, at_key k [] t e ∙ unfold get in refl)

    go :
        (o : Option Value)
        → lookup k t ≡ o
        → ((d : Fields) → Outcome (j ∷ parts) v d (set_val (j ∷ parts) v d))
        → Outcome (k ∷ j ∷ parts) v t (set_val (k ∷ j ∷ parts) v t)
    go none e ih =
        rw (e, set_val)
          (nested k (j ∷ parts) v t end (set_val (j ∷ parts) v end)
            (λ b. absurd (end_not_blocked (j ∷ parts) b)) (ih end))
    go (some (object d)) e ih =
        rw (e, set_val) (nested k (j ∷ parts) v t d (set_val (j ∷ parts) v d) (λ b. e) (ih d))
    go (some (text w)) e ih = rw (e, set_val) (stop (text w) tt e)
    go (some (scalar w)) e ih = rw (e, set_val) (stop (scalar w) tt e)
    go (some (items w)) e ih = rw (e, set_val) (stop (items w) tt e)

put_same : (k : Text) (v : Value) (t : Fields) → lookup k t ≡ some v → put k v t ≡ t
unfolding put lookup
put_same k v end e = cc
put_same k v (field j w t) e = ground (arith, text_eq_iff j k, put_same k v t)

-- Either the write succeeds and reading gives its value, or the path is blocked.
set_then_get :
    (k : Text) (parts : List Text) (v : Value) (t : Fields)
    → ((t' : Fields) × (set_val (k ∷ parts) v t ≡ some t') × (get_val (k ∷ parts) t' ≡ some v))
      ⊎ ((set_val (k ∷ parts) v t ≡ none) × IsBlocked (k ∷ parts) t)
set_then_get k parts v t = go (set_val (k ∷ parts) v t) refl (set_val_outcome k parts v t)
  where
    go :
        (o : Option Fields)
        → set_val (k ∷ parts) v t ≡ o
        → Outcome (k ∷ parts) v t o
        → ((t' : Fields) × (set_val (k ∷ parts) v t ≡ some t') × (get_val (k ∷ parts) t' ≡ some v))
          ⊎ ((set_val (k ∷ parts) v t ≡ none) × IsBlocked (k ∷ parts) t)
    go none e out = inr (e, out)
    go (some t') e out = inl (t', e, get_val-get k parts t' ∙ out)

-- What `Parse` writes for a word: the written tree, or the same tree if the write is blocked.
abbrev or_same : Fields → Option Fields → Fields
or_same t none = t
or_same t (some t') = t'

assign_nested :
    (k : Text) (t d : Fields) (o : Option Fields)
    → (o ≡ none → lookup k t ≡ some (object d))
    → put k (object (or_same d o)) t ≡ or_same t (Option.map (λ d'. put k (object d') t) o)
assign_nested k t d none under = put_same k (object d) t (under refl)
assign_nested k t d (some d') under = refl

set_val_in_end : (k : Text) (parts : List Text) (v : Value) → set_val (k ∷ parts) v end ≢ none
set_val_in_end k parts v e = elim (set_then_get k parts v end) [
  | inl (t', e', at) ↦ cc
  | inr (e', b) ↦ end_not_blocked (k ∷ parts) b
]

assign-set_val :
    (k : Text) (parts : List Text) (v : Value) (t : Fields)
    → assign (k ∷ parts) v t ≡ or_same t (set_val (k ∷ parts) v t)
unfolding assign set_val
assign-set_val k [] v t = refl
assign-set_val k (j ∷ parts) v t = go (lookup k t) refl (assign-set_val j parts v)
  where
    go :
        (o : Option Value)
        → lookup k t ≡ o
        → ((d : Fields) → assign (j ∷ parts) v d ≡ or_same d (set_val (j ∷ parts) v d))
        → assign (k ∷ j ∷ parts) v t ≡ or_same t (set_val (k ∷ j ∷ parts) v t)
    go none e ih =
        rw (e, assign, set_val)
          (ap (λ d. put k (object d) t) (ih end)
            ∙ assign_nested k t end (set_val (j ∷ parts) v end)
                (λ q. absurd (set_val_in_end j parts v q)))
    go (some (object d)) e ih =
        rw (e, assign, set_val)
          (ap (λ d. put k (object d) t) (ih d)
            ∙ assign_nested k t d (set_val (j ∷ parts) v d) (λ q. e))
    go (some w) e ih = rw (e, assign, set_val)

-- After a word of the command line is taken in, its key has its value; or the tree is unchanged,
-- and a value that is no map stands at a proper prefix of the key.
pub assign_outcome :
    (keys : List Text) (v : Value) (t : Fields)
    → keys ≢ []
    → (get_val keys (assign keys v t) ≡ some v) ⊎ ((assign keys v t ≡ t) × IsBlocked keys t)
assign_outcome [] v t ne = absurd (ne refl)
assign_outcome (k ∷ parts) v t ne = elim (set_then_get k parts v t) [
  | inl (t', e, at) ↦
      inl (ap (get_val (k ∷ parts)) (assign-set_val k parts v t ∙ ap (or_same t) e) ∙ at)
  | inr (e, b) ↦ inr (assign-set_val k parts v t ∙ ap (or_same t) e, b)
]

-- A write through `GetOrSetVal` either returns the value, with strings read as YAML, in a tree in
-- which the same key then has that value; or it returns the empty string and an unchanged tree, and
-- a value that is no map stands at a proper prefix of the key.
pub get_or_set_val_write :
    (unmarshal : Text → Option Value) (args : Text) (data' : Fields) (value : Value)
    → IsMap data'
    → ((t : Fields) × (get_or_set_val unmarshal args data' (some value)
          ≡ (typed unmarshal value, t))
        × (get_or_set_val unmarshal args t none ≡ (typed unmarshal value, t)))
      ⊎ ((get_or_set_val unmarshal args data' (some value) ≡ (text [], data'))
          × IsBlocked (split b'.' args) data')
unfolding get_or_set_val
get_or_set_val_write unmarshal args data' value h =
    go (split b'.' args) refl (split-ne-nil b'.' args)
  where
    go :
        (parts : List Text)
        → split b'.' args ≡ parts
        → parts ≢ []
        → ((t : Fields) × (get_or_set_val unmarshal args data' (some value)
              ≡ (typed unmarshal value, t))
            × (get_or_set_val unmarshal args t none ≡ (typed unmarshal value, t)))
          ⊎ ((get_or_set_val unmarshal args data' (some value) ≡ (text [], data'))
              × IsBlocked (split b'.' args) data')
    go [] e ne = absurd (ne refl)
    go (k ∷ parts) e ne = elim (set_then_get k parts (typed unmarshal value) data') [
      | inl (t, w, r) ↦ inl (
        t,
        rw (e, get_or_set_val) (rw (map_copy_lem data' h) (rw w)),
        rw (e, get_or_set_val) (rw (r, get_or_set_val)),
      )
      | inr (w, b) ↦ inr (
        rw (e, get_or_set_val)
            (rw (map_copy_lem data' h)
              (rw w (ap (λ (m : Fields). (text [], m)) (map_copy_lem data' h)))),
        subst (λ l. IsBlocked l data') (sym e) b,
      )
    ]
