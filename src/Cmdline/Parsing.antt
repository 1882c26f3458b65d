-- ===== src/Cmdline/Parsing.antt =====
-- What `Parse` makes of the words of a command line.
use burmilla_os.Base.{
  Bool, true, false, ◌||◌, Option, none, some, List, [], ◌∷◌, Text, codes, ◌≡◌, inl, inr, refl,
  arith, if◌then◌else◌, Bool-cases,
}
use burmilla_os.Strings.{split, split_n, has_prefix}
use burmilla_os.Config.Value.{Value, Fields}
use burmilla_os.Cmdline.{key_value, parse_part, parse_parts, unprefixed}
use burmilla_os.Cmdline.Apart.{are_apart}

-- The words that are read without `parseAll`.
abbrev pub is_setting : Text → Bool
is_setting part = has_prefix part (codes "cc.") || has_prefix part (codes "rancher.")

abbrev pub settings : List Text → List Text
settings [] = []
settings (part ∷ parts) = if is_setting part then part ∷ settings parts else settings parts

module _ (unmarshal : Text → Option Value) where
  unprefixed_setting :
      (part : Text) (all : Bool)
      → is_setting part ≡ true
      → unprefixed unmarshal part all ≡ unprefixed unmarshal part true
  unfolding unprefixed
  unprefixed_setting part all h = ground arith

  unprefixed_other :
      (part : Text) → is_setting part ≡ false → unprefixed unmarshal part false ≡ none
  unfolding unprefixed
  unprefixed_other part h = ground arith

  parse_part_setting :
      (result : Fields) (part : Text)
      → is_setting part ≡ true
      → parse_part unmarshal false result part ≡ parse_part unmarshal true result part
  unfolding parse_part
  parse_part_setting result part h = rw (unprefixed_setting part false h, parse_part)

  parse_part_other :
      (result : Fields) (part : Text)
      → is_setting part ≡ false
      → parse_part unmarshal false result part ≡ result
  unfolding parse_part
  parse_part_other result part h = rw (unprefixed_other part h, parse_part)

  -- Without `parseAll` the tree is that of the words with the prefix "cc." or "rancher." alone.
  pub parse_parts-settings :
      (result : Fields) (parts : List Text)
      → parse_parts unmarshal false result parts
        ≡ parse_parts unmarshal true result (settings parts)
  unfolding parse_parts
  parse_parts-settings result [] = refl
  parse_parts-settings result (part ∷ parts) = elim (Bool-cases (is_setting part)) [
    | inl e ↦ rw e (
        rw (parse_part_setting result part e)
          (parse_parts-settings (parse_part unmarshal true result part) parts))
    | inr e ↦ rw e (rw (parse_part_other result part e) (parse_parts-settings result parts))
  ]

  abbrev pub keys_of_setting : Option Text → Option (List Text)
  keys_of_setting none = none
  keys_of_setting (some setting) =
      some (split b'.' (key_value unmarshal (split_n b'=' setting 2)).0)

  abbrev pub AreApart : List Text → Option (List Text) → Type 0
  AreApart keys none = Unit
  AreApart keys (some others) = are_apart keys others ≡ true

  -- The word is skipped, or its key is neither the given one nor above or below it.
  abbrev pub IsElsewhere : Bool → List Text → Text → Type 0
  IsElsewhere all keys part = AreApart keys (keys_of_setting (unprefixed unmarshal part all))
