-- ===== src/EnvFile/Entries.antt =====
-- The entries to be merged: what deleting and sorting keeps.
use burmilla_os.Base.{
  true, false, none, some, [], ◌∷◌, Text, text_eq, text_eq_iff, if◌then◌else◌, Bool-cases, inl, inr,
  ◌≡◌, refl, sym, ap, ◌∙◌, arith, All,
}
use burmilla_os.Strings.Sort.{text_le, insert_key, sort_keys}
use burmilla_os.EnvFile.{Vars, value_of, without, is_valid_key}

-- The key of every entry is valid.
abbrev pub HasValidKeys : Vars → Type 0
HasValidKeys = All (λ entry. is_valid_key entry.0 ≡ true)

pub value_of-without :
    (j key : Text) (vars : Vars)
    → value_of key (without j vars) ≡ (if text_eq j key then none else value_of key vars)
unfolding value_of without
value_of-without j key [] = ground arith
value_of-without j key ((k, v) ∷ vars) =
    ground
      (arith, value_of-without j key vars, text_eq_iff k j, text_eq_iff k key, text_eq_iff j key)

pub without-HasValidKeys :
    (key : Text) (vars : Vars) → HasValidKeys vars → HasValidKeys (without key vars)
unfolding without
without-HasValidKeys key [] h = tt
without-HasValidKeys key ((k, v) ∷ vars) (hk, h) = elim (Bool-cases (text_eq k key)) [
  | inl q ↦ rw (q, without) (without-HasValidKeys key vars h)
  | inr q ↦ rw (q, without) (hk, without-HasValidKeys key vars h)
]

-- A key that has a value is the key of an entry, and so valid.
pub value_of-valid :
    (key value : Text) (vars : Vars)
    → HasValidKeys vars
    → value_of key vars ≡ some value
    → is_valid_key key ≡ true
unfolding value_of
value_of-valid key value [] h e = cc
value_of-valid key value ((k, v) ∷ vars) (hk, h) e = elim (Bool-cases (text_eq k key)) [
  | inl q ↦ ap is_valid_key (sym ((text_eq_iff k key).0 q)) ∙ hk
  | inr q ↦ value_of-valid key value vars h (rw (q, value_of) at e)
]

insert_key-HasValidKeys :
    (k v : Text) (vars : Vars)
    → is_valid_key k ≡ true
    → HasValidKeys vars
    → HasValidKeys (insert_key (k, v) vars)
unfolding insert_key
insert_key-HasValidKeys k v [] hk h = (hk, tt)
insert_key-HasValidKeys k v ((j, w) ∷ vars) hk (hj, h) = elim (Bool-cases (text_le k j)) [
  | inl q ↦ rw (q, insert_key) (hk, (hj, h))
  | inr q ↦ rw (q, insert_key) (hj, insert_key-HasValidKeys k v vars hk h)
]

pub sort_keys-HasValidKeys : (vars : Vars) → HasValidKeys vars → HasValidKeys (sort_keys vars)
unfolding sort_keys
sort_keys-HasValidKeys [] h = tt
sort_keys-HasValidKeys ((k, v) ∷ vars) (hk, h) =
    insert_key-HasValidKeys k v (sort_keys vars) hk (sort_keys-HasValidKeys vars h)

text_le_refl : (s : Text) → text_le s s ≡ true
unfolding text_le
text_le_refl [] = refl
text_le_refl (c ∷ s) = ground (arith, text_le_refl s)

value_of-insert_key :
    (key k v : Text) (vars : Vars)
    → value_of key (insert_key (k, v) vars) ≡ (if text_eq k key then some v else value_of key vars)
unfolding insert_key value_of
value_of-insert_key key k v [] = refl
value_of-insert_key key k v ((j, w) ∷ vars) = elim (Bool-cases (text_le k j)) [
  | inl q ↦ rw (q, insert_key) refl
  | inr q ↦
      let ne : text_eq k j ≡ false = ground (arith, q, text_le_refl k, text_eq_iff k j) in
      rw (q, insert_key)
        (ground (
          arith,
          ne,
          value_of-insert_key key k v vars,
          text_eq_iff k key,
          text_eq_iff j key,
          text_eq_iff k j,
        ))
]

pub value_of-sort_keys :
    (key : Text) (vars : Vars) → value_of key (sort_keys vars) ≡ value_of key vars
unfolding sort_keys value_of
value_of-sort_keys key [] = refl
value_of-sort_keys key ((k, v) ∷ vars) =
    value_of-insert_key key k v (sort_keys vars) ∙ rw (value_of-sort_keys key vars) refl
