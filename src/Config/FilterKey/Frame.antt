-- ===== src/Config/FilterKey/Frame.antt =====
-- `filterKey` moves nothing but what is at the key.
use burmilla_os.Config.Value.Laws.{lookup-IsWellFormed}
use burmilla_os.Config.Merge.Copying.{map_copy_lem}
use burmilla_os.Base.{
  Option, none, List, [], ◌∷◌, Bool, true, false, Text, text_eq, text_eq_refl, ◌≡◌, arith,
  if◌then◌else◌, Bool-cases, inl, ap, sym, text_eq_iff, inr, some, ◌∙◌, refl,
}
use burmilla_os.Config.Value.{Value, object, Fields, end, get, IsMap}
use burmilla_os.Config.Value.Paths.{get-put, get-remove, get_in, get-object, open-IsMap}
use burmilla_os.Config.FilterKey.{nest, put, filter_key, remove, lookup, map_copy}
use burmilla_os.Config.FilterKey.Partition.{empty_lem, get-end}

-- Neither path is a prefix of the other.
abbrev pub diverge : List Text → List Text → Bool
diverge [] q = false
diverge (k ∷ p) [] = false
diverge (k ∷ p) (j ∷ q) = if text_eq k j then diverge p q else true

-- Both halves of a split agree with the map at a path.
abbrev pub Kept : List Text → Fields × Fields → Option Value → Type 0
Kept q halves found = (get q (object halves.1) ≡ found) × (get q (object halves.0) ≡ none)

diverge-get-end : (key q : List Text) → diverge key q ≡ true → get q (object end) ≡ none
diverge-get-end [] q h = cc
diverge-get-end (k ∷ key) [] h = cc
diverge-get-end (k ∷ key) (j ∷ q) h = get-end j q

-- The first keys differ.
other_nest :
    (k j : Text) (q : List Text) (halves : Fields × Fields) (rest : Fields)
    → text_eq k j ≡ false
    → Kept (j ∷ q) (nest k halves rest) (get (j ∷ q) (object rest))
unfolding nest
other_nest k j q (f, r) rest h = (
  ground (arith, get-remove k j q rest, get-put k j q (object r) rest),
  ground (arith, get-put k j q (object f) end, get-end j q),
)

-- The first keys agree.
same_nest :
    (k : Text) (key q : List Text) (halves : Fields × Fields) (d rest : Fields)
    → diverge key q ≡ true
    → Kept q halves (get q (object d))
    → Kept (k ∷ q) (nest k halves rest) (get q (object d))
unfolding nest
same_nest k key q (f, r) d rest h (ih, ih') = (
  ground (
    arith,
    ih,
    get-remove k k q rest,
    get-put k k q (object r) rest,
    text_eq_refl k,
    diverge-get-end key q h,
    empty_lem r,
  ),
  ground (arith, ih', get-put k k q (object f) end, text_eq_refl k, get-end k q),
)

frame_other :
    (data' : Fields) (k j : Text) (key q : List Text)
    → IsMap data'
    → text_eq k j ≡ false
    → Kept (j ∷ q) (filter_key data' (k ∷ key)) (get (j ∷ q) (object data'))
unfolding filter_key
frame_other data' k j key q h ne = go (lookup k data') refl
  where
    go :
        (o : Option Value)
        → lookup k data' ≡ o
        → Kept (j ∷ q) (filter_key data' (k ∷ key)) (get (j ∷ q) (object data'))
    go none e =
        rw (e, filter_key) (ap (λ m. get (j ∷ q) (object m)) (map_copy_lem data' h), get-end j q)
    go (some (object d)) e =
        rw (e, filter_key)
          (rw (map_copy_lem data' h) (other_nest k j q (filter_key d key) data' ne))
    go (some d) e =
        rw (e, filter_key)
          (rw (map_copy_lem data' h) (
            ground (arith, get-remove k j q data'),
            ground (arith, get-put k j q d end, get-end j q),
          ))

-- A value that is no map has nothing below it.
leaf_step :
    (k : Text) (key q : List Text) (d : Value) (rest : Fields)
    → get q d ≡ none
    → Kept (k ∷ q) (put k d end, remove k rest) (get q d)
leaf_step k key q d rest e = (
  ground (arith, get-remove k k q rest, text_eq_refl k),
  ground (arith, get-put k k q d end, text_eq_refl k),
)

frame_same :
    (data' : Fields) (k : Text) (key q : List Text)
    → IsMap data'
    → diverge key q ≡ true
    → ((d : Fields) → IsMap d → Kept q (filter_key d key) (get q (object d)))
    → Kept (k ∷ q) (filter_key data' (k ∷ key)) (get (k ∷ q) (object data'))
unfolding filter_key
frame_same data' k key q h dv ih = rw (get-object k q data') (go (lookup k data') refl)
  where
    go :
        (o : Option Value)
        → lookup k data' ≡ o
        → Kept (k ∷ q) (filter_key data' (k ∷ key)) (get_in q o)
    go none e =
        rw (e, filter_key)
          (rw (map_copy_lem data' h) (get-object k q data' ∙ ap (get_in q) e, get-end k q))
    go (some (object d)) e =
        rw (e, filter_key)
          (same_nest k key q (filter_key d key) d (map_copy data') dv
            (ih d (open-IsMap d (lookup-IsWellFormed k data' h e))))
    go (some d) e = rw (e, filter_key) (leaf_step k key q d (map_copy data') (no_child key q dv))
      where
        no_child : (key q : List Text) → diverge key q ≡ true → get q d ≡ none
        no_child [] q h = cc
        no_child (j ∷ key) [] h = cc
        no_child (j ∷ key) (i ∷ q) h = unfold get in refl

-- At every path that is neither above nor below the key, the rest has what the map has, and the
-- filtered part has nothing.
pub filter_key_frame :
    (data' : Fields) (key q : List Text)
    → IsMap data'
    → diverge key q ≡ true
    → Kept q (filter_key data' key) (get q (object data'))
filter_key_frame data' [] q h dv = absurd (no_divergence q dv)
  where
    no_divergence : (q : List Text) → diverge [] q ≡ true → ⊥
    no_divergence q e = cc
filter_key_frame data' (k ∷ key) [] h dv = cc
filter_key_frame data' (k ∷ key) (j ∷ q) h dv = elim (Bool-cases (text_eq k j)) [
  | inl e ↦
      rw (sym ((text_eq_iff k j).0 e))
        (frame_same data' k key q h (rw e at dv) (λ d hd. filter_key_frame d key q hd (rw e at dv)))
  | inr e ↦ frame_other data' k j key q h e
]
