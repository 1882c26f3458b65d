-- ===== src/Cmdline/Apart.antt =====
-- What `assign`, the writing of `Parse`, leaves at the keys apart from the written one.
use burmilla_os.Base.{
  text_eq, text_eq_iff, sym, Bool, true, false, Option, none, some, List, [], ◌∷◌, Text, ◌≡◌, inl,
  inr, refl, ap, ◌∙◌, arith, if◌then◌else◌, Bool-cases,
}
use burmilla_os.Config.Value.Laws.{lookup-put}
use burmilla_os.Config.Value.{Value, text, scalar, items, Fields, put, end, object, lookup}
use burmilla_os.Cmdline.{assign, get_val}

-- None of the two keys is a prefix of the other.
abbrev pub are_apart : List Text → List Text → Bool
are_apart [] others = false
are_apart (k ∷ keys) [] = false
are_apart (k ∷ keys) (j ∷ others) = if text_eq k j then are_apart keys others else true

other_way : (k j : Text) → text_eq k j ≡ false → text_eq j k ≡ false
other_way k j e = ground (arith, text_eq_iff k j, text_eq_iff j k)

-- A write at the first part of another path leaves what is below this one.
below_other :
    (k j : Text) (parts : List Text) (v : Value) (t : Fields)
    → text_eq k j ≡ false
    → get_val (k ∷ parts) (put j v t) ≡ get_val (k ∷ parts) t
unfolding get_val
below_other k j [] v t e = lookup-put j k v t ∙ rw (other_way k j e) refl
below_other k j (i ∷ parts) v t e = rw (lookup-put j k v t, other_way k j e, get_val) refl

apart_tails :
    (k j : Text) (keys others : List Text)
    → text_eq k j ≡ true
    → are_apart (k ∷ keys) (j ∷ others) ≡ true
    → are_apart keys others ≡ true
apart_tails k j keys others q h = ground (arith, q, h)

never_apart : (keys : List Text) → are_apart keys [] ≡ true → ⊥
never_apart [] h = cc (h)
never_apart (k ∷ keys) h = cc (h)

get_val-end : (k : Text) (parts : List Text) → get_val (k ∷ parts) end ≡ none
unfolding get_val lookup
get_val-end k [] = refl
get_val-end k (j ∷ parts) = refl

below_same :
    (k j l : Text) (parts : List Text) (d : Fields) (t : Fields)
    → text_eq k j ≡ true
    → get_val (k ∷ l ∷ parts) (put j (object d) t) ≡ get_val (l ∷ parts) d
unfolding get_val
below_same k j l parts d t q =
    let back : text_eq j k ≡ true = ground (arith, q, text_eq_iff k j, text_eq_iff j k) in
    rw (lookup-put j k (object d) t, back, get_val) refl

-- A map written at a key in place of one that has the same at the rest of the path.
written_apart :
    (k j : Text) (keys others : List Text) (d d' t : Fields)
    → are_apart (k ∷ keys) (j ∷ others) ≡ true
    → (are_apart keys others ≡ true → get_val keys d' ≡ get_val keys d)
    → ((l : Text) (parts : List Text)
        → text_eq k j ≡ true
        → get_val (k ∷ l ∷ parts) t ≡ get_val (l ∷ parts) d)
    → get_val (k ∷ keys) (put j (object d') t) ≡ get_val (k ∷ keys) t
written_apart k j keys others d d' t h same under = elim (Bool-cases (text_eq k j)) [
  | inr q ↦ below_other k j keys (object d') t q
  | inl q ↦ go keys (apart_tails k j keys others q h) q same
]
  where
    go :
        (keys : List Text)
        → are_apart keys others ≡ true
        → text_eq k j ≡ true
        → (are_apart keys others ≡ true → get_val keys d' ≡ get_val keys d)
        → get_val (k ∷ keys) (put j (object d') t) ≡ get_val (k ∷ keys) t
    go [] apart q same = absurd (cc (apart))
    go (l ∷ keys) apart q same = below_same k j l keys d' t q ∙ same apart ∙ sym (under l keys q)

lookup-same :
    (k j : Text) (t : Fields) {o : Option Value}
    → lookup j t ≡ o
    → text_eq k j ≡ true
    → lookup k t ≡ o
lookup-same k j t e q = ap (λ i. lookup i t) ((text_eq_iff k j).0 q) ∙ e

get_val-missing :
    (k j l : Text) (parts : List Text) (t : Fields)
    → lookup j t ≡ none
    → text_eq k j ≡ true
    → get_val (k ∷ l ∷ parts) t ≡ get_val (l ∷ parts) end
unfolding get_val
get_val-missing k j l parts t e q = rw (lookup-same k j t e q, get_val) (sym (get_val-end l parts))

get_val-nested :
    (k j l : Text) (parts : List Text) (d t : Fields)
    → lookup j t ≡ some (object d)
    → text_eq k j ≡ true
    → get_val (k ∷ l ∷ parts) t ≡ get_val (l ∷ parts) d
unfolding get_val
get_val-nested k j l parts d t e q = rw (lookup-same k j t e q, get_val) refl

-- Assigning a value to a key leaves what the tree has at a key apart from it.
pub get_val-assign :
    (keys others : List Text) (v : Value) (t : Fields)
    → are_apart keys others ≡ true
    → get_val keys (assign others v t) ≡ get_val keys t
unfolding assign
get_val-assign [] others v t h = absurd (cc (h))
get_val-assign (k ∷ keys) [] v t h = absurd (cc (h))
get_val-assign (k ∷ keys) (j ∷ []) v t h = elim (Bool-cases (text_eq k j)) [
  | inl q ↦ absurd (never_apart keys (apart_tails k j keys [] q h))
  | inr q ↦ below_other k j keys v t q
]
get_val-assign (k ∷ keys) (j ∷ i ∷ others) v t h =
    go (lookup j t) refl (get_val-assign keys (i ∷ others) v)
  where
    go :
        (o : Option Value)
        → lookup j t ≡ o
        → ((d : Fields)
            → are_apart keys (i ∷ others) ≡ true
            → get_val keys (assign (i ∷ others) v d) ≡ get_val keys d)
        → get_val (k ∷ keys) (assign (j ∷ i ∷ others) v t) ≡ get_val (k ∷ keys) t
    go none e same =
        rw (e, assign)
          (written_apart k j keys (i ∷ others) end (assign (i ∷ others) v end) t h (same end)
            (λ l parts q. get_val-missing k j l parts t e q))
    go (some (object d)) e same =
        rw (e, assign)
          (written_apart k j keys (i ∷ others) d (assign (i ∷ others) v d) t h (same d)
            (λ l parts q. get_val-nested k j l parts d t e q))
    go (some (text w)) e same = rw (e, assign) refl
    go (some (scalar w)) e same = rw (e, assign) refl
    go (some (items w)) e same = rw (e, assign) refl
