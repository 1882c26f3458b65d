-- ===== src/Strings/Sort.antt =====
-- The order of Go's package sort on texts, for the entries of a map whose keys are sorted.
use burmilla_os.Base.{Bool, true, false, ◌&&◌, ◌||◌, ◌==◌, ltb, List, [], ◌∷◌, Text, if◌then◌else◌}

-- The order of two texts.
unfoldable pub text_le : Text → Text → Bool
text_le [] t = true
text_le (c ∷ s) [] = false
text_le (c ∷ s) (d ∷ t) = ltb c d || c == d && text_le s t

unfoldable pub insert_key : Text × Text → List (Text × Text) → List (Text × Text)
insert_key (k, v) [] = (k, v) ∷ []
insert_key (k, v) ((j, w) ∷ keys) =
    if text_le k j then (k, v) ∷ (j, w) ∷ keys else (j, w) ∷ insert_key (k, v) keys

unfoldable pub sort_keys : List (Text × Text) → List (Text × Text)
unfolding insert_key
sort_keys [] = []
sort_keys (key ∷ keys) = insert_key key (sort_keys keys)
