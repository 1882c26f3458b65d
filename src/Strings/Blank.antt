-- ===== src/Strings/Blank.antt =====
-- Trimming and fields: a trimmed text that is not empty has a field.
use burmilla_os.Base.{ℕ, ◌≡◌, ◌≢◌, false, [], ◌∷◌, ◌++◌, Text, refl, Bool-cases, inl, inr}
use burmilla_os.Strings.{
  is_space, word, fields_from, fields, trim_left, keep_right, trim_right, trim_space,
}

-- What the fields start with, once a character of a word has been read.
fields_from_started : (x : ℕ) (w s : Text) → fields_from (x ∷ w) s ≢ []
unfolding fields_from word
fields_from_started x w [] = λ e. cc
fields_from_started x w (c ∷ s) = elim (Bool-cases (is_space c)) [
  | inl e ↦ rw e (λ h. cc)
  | inr e ↦ rw e (fields_from_started x (w ++ c ∷ []) s)
]

same_head : (d c : ℕ) (s t : Text) → d ∷ s ≡ c ∷ t → is_space d ≡ false → is_space c ≡ false
same_head d c s t h e = cc (h, e)

trim_left_head : (s : Text) (c : ℕ) (t : Text) → trim_left s ≡ c ∷ t → is_space c ≡ false
unfolding trim_left
trim_left_head [] c t h = cc
trim_left_head (d ∷ s) c t h = elim (Bool-cases (is_space d)) [
  | inl e ↦ trim_left_head s c t (rw e at h)
  | inr e ↦ same_head d c s t (rw e at h) e
]

fields_from_first : (c : ℕ) (s : Text) → is_space c ≡ false → fields_from [] (c ∷ s) ≢ []
unfolding fields_from
fields_from_first c s h = rw h (fields_from_started c [] s)

keep_right_head : (c : ℕ) (s : Text) → is_space c ≡ false → fields_from [] (keep_right c s) ≢ []
unfolding keep_right
keep_right_head c [] h = rw h (fields_from_first c [] h)
keep_right_head c (d ∷ s) h = fields_from_first c (d ∷ s) h

-- A trimmed text that is not empty has a field.
pub fields-trim_space : (s : Text) → trim_space s ≢ [] → fields (trim_space s) ≢ []
unfolding trim_space fields trim_right
fields-trim_space s h = go (trim_left s) (trim_left_head s) h
  where
    go :
        (t : Text)
        → ((c : ℕ) (u : Text) → t ≡ c ∷ u → is_space c ≡ false)
        → trim_right t ≢ []
        → fields_from [] (trim_right t) ≢ []
    go [] first k = absurd (k refl)
    go (c ∷ u) first k = keep_right_head c (trim_right u) (first c u refl)
