-- ===== src/Network/Stanza/Split.antt =====
-- How the lines are cut into stanzas.
use burmilla_os.Base.{
  ◌≡◌, ◌⊎◌, inl, inr, refl, ap, ◌∙◌, true, false, some, List, [], ◌∷◌, ◌++◌, append_assoc, Text,
  All, All-append, Bool-cases,
}
use burmilla_os.Network.Stanza.{
  parsed, refused, missing_stanza_start, is_stanza_start, split_stanzas_from, split_stanzas,
  then_parse,
}

-- A first line that starts a stanza, and further lines that do not.
abbrev pub IsRawStanza : List Text → Type 0
IsRawStanza [] = ⊥
IsRawStanza (line ∷ lines) =
    (is_stanza_start line ≡ true) × All (λ l. is_stanza_start l ≡ false) lines

abbrev pub joined : List (List Text) → List Text
joined [] = []
joined (raw ∷ raws) = raw ++ joined raws

-- The stanzas put together are the lines.
abbrev pub IsSplit : List Text → List (List Text) → Type 0
IsSplit lines raws = (joined raws ≡ lines) × All IsRawStanza raws

IsRawStanza-append :
    (raw : List Text) (line : Text)
    → IsRawStanza raw
    → is_stanza_start line ≡ false
    → IsRawStanza (raw ++ line ∷ [])
IsRawStanza-append [] line h e = absurd h
IsRawStanza-append (l ∷ raw) line (h, k) e = (h, All-append _ raw (line ∷ []) k (e, tt))

from_start :
    (cur : List Text) (line : Text) (lines : List Text)
    → is_stanza_start line ≡ true
    → split_stanzas_from (some cur) (line ∷ lines)
      ≡ then_parse (split_stanzas_from (some (line ∷ [])) lines) (λ raws. parsed (cur ∷ raws))
unfolding split_stanzas_from
from_start cur line lines e = rw (e, split_stanzas_from)

from_other :
    (cur : List Text) (line : Text) (lines : List Text)
    → is_stanza_start line ≡ false
    → split_stanzas_from (some cur) (line ∷ lines)
      ≡ split_stanzas_from (some (cur ++ line ∷ [])) lines
unfolding split_stanzas_from
from_other cur line lines e = rw (e, split_stanzas_from)

first_start :
    (line : Text) (lines : List Text)
    → is_stanza_start line ≡ true
    → split_stanzas (line ∷ lines) ≡ split_stanzas_from (some (line ∷ [])) lines
unfolding split_stanzas split_stanzas_from
first_start line lines e = rw (e, split_stanzas_from)

first_other :
    (line : Text) (lines : List Text)
    → is_stanza_start line ≡ false
    → split_stanzas (line ∷ lines) ≡ refused (missing_stanza_start line)
unfolding split_stanzas split_stanzas_from
first_other line lines e = rw (e, split_stanzas_from)

split_stanzas_from-IsSplit :
    (cur : List Text) (lines : List Text)
    → IsRawStanza cur
    → (raws : List (List Text)) × (split_stanzas_from (some cur) lines ≡ parsed raws)
      × IsSplit (cur ++ lines) raws
unfolding split_stanzas_from
split_stanzas_from-IsSplit cur [] h = (cur ∷ [], refl, (refl, (h, tt)))
split_stanzas_from-IsSplit cur (line ∷ lines) h = elim (Bool-cases (is_stanza_start line)) [
  | inl e ↦
      let (raws, r, (j, all)) = split_stanzas_from-IsSplit (line ∷ []) lines (e, tt) in
      (
        cur ∷ raws,
        from_start cur line lines e ∙ ap (λ p. then_parse p (λ t. parsed (cur ∷ t))) r,
        (ap (λ t. cur ++ t) j, (h, all)),
      )
  | inr e ↦
      let (raws, r, (j, all)) =
        split_stanzas_from-IsSplit (cur ++ line ∷ []) lines (IsRawStanza-append cur line h e) in
      (raws, from_other cur line lines e ∙ r, (j ∙ append_assoc cur (line ∷ []) lines, all))
]

-- The lines are cut into stanzas that, put together, are the lines again; each begins with a line
-- that starts a stanza and has no other such line. The only lines that are refused are those whose
-- first one starts no stanza, and the error names that line.
pub split_stanzas_cases :
    (lines : List Text)
    → ((raws : List (List Text)) × (split_stanzas lines ≡ parsed raws) × IsSplit lines raws)
      ⊎ ((line : Text) × (rest : List Text) × (lines ≡ line ∷ rest)
          × (is_stanza_start line ≡ false)
          × (split_stanzas lines ≡ refused (missing_stanza_start line)))
unfolding split_stanzas split_stanzas_from
split_stanzas_cases [] = inl ([], refl, (refl, tt))
split_stanzas_cases (line ∷ lines) = elim (Bool-cases (is_stanza_start line)) [
  | inl e ↦
      let (raws, r, s) = split_stanzas_from-IsSplit (line ∷ []) lines (e, tt) in
      inl (raws, first_start line lines e ∙ r, s)
  | inr e ↦ inr (line, lines, refl, e, first_other line lines e)
]
