-- ===== src/Strings.antt =====
-- What the program uses of Go's `strings` package, on texts. Separators are single characters, as
-- in every call that is modelled.
pub mod Laws
pub mod Blank
pub mod Sort
use burmilla_os.Base.{
  length, ℕ, zero, suc, ◌+◌, ◌-◌, ◌*◌, ◌≡◌, refl, Bool, true, false, ◌&&◌, ◌||◌, Option, none, some,
  List, [], ◌∷◌, ◌++◌, Text, text_eq, codes, ltb, leb, ◌==◌, if◌then◌else◌,
}

-- strings.HasPrefix
unfoldable pub has_prefix : Text → Text → Bool
has_prefix s [] = true
has_prefix [] (p ∷ ps) = false
has_prefix (c ∷ s) (p ∷ ps) = c == p && has_prefix s ps

-- s[n:]
unfoldable pub drop : ℕ → Text → Text
drop zero s = s
drop (suc n) [] = []
drop (suc n) (c ∷ s) = drop n s

-- The text behind a prefix, if it has that prefix.
strip : Text → Text → Option Text
strip s [] = some s
strip [] (p ∷ ps) = none
strip (c ∷ s) (p ∷ ps) = if c == p then strip s ps else none

-- strings.TrimPrefix
unfoldable pub trim_prefix : Text → Text → Text
unfolding strip
trim_prefix s p = elim (strip s p) [ none ↦ s | some r ↦ r ]

-- strings.TrimSuffix
unfoldable pub trim_suffix : Text → Text → Text
unfolding text_eq
trim_suffix [] suffix = []
trim_suffix (c ∷ s) suffix = if text_eq (c ∷ s) suffix then [] else c ∷ trim_suffix s suffix

-- The text before the first separator, and the text behind it, if there is one.
before : ℕ → Text → Text
before sep [] = []
before sep (c ∷ s) = if c == sep then [] else c ∷ before sep s

behind : ℕ → Text → Option Text
behind sep [] = none
behind sep (c ∷ s) = if c == sep then some s else behind sep s

-- strings.SplitN(s, sep, n), for a positive n.
unfoldable pub split_n : ℕ → Text → ℕ → List Text
unfolding before behind
split_n sep s zero = []
split_n sep s (suc zero) = s ∷ []
split_n sep s (suc (suc n)) = elim (behind sep s) [
  | none ↦ s ∷ []
  | some rest ↦ before sep s ∷ split_n sep rest (suc n)
]

-- One more character at the front of the first piece.
push : ℕ → List Text → List Text
push c [] = (c ∷ []) ∷ []
push c (p ∷ ps) = (c ∷ p) ∷ ps

-- strings.Split
unfoldable pub split : ℕ → Text → List Text
unfolding push
split sep [] = [] ∷ []
split sep (c ∷ s) = let rest = split sep s in if c == sep then [] ∷ rest else push c rest

-- unicode.IsSpace
is_space : ℕ → Bool
is_space c =
    leb 9 c && leb c 13
    || c == 0x20
    || c == 0x85
    || c == 0xa0
    || c == 0x1680
    || leb 0x2000 c && leb c 0x200a
    || c == 0x2028
    || c == 0x2029
    || c == 0x202f
    || c == 0x205f
    || c == 0x3000

word : Text → List Text → List Text
word [] ws = ws
word (c ∷ w) ws = (c ∷ w) ∷ ws

fields_from : Text → Text → List Text
fields_from w [] = word w []
fields_from w (c ∷ s) =
    let skip = word w (fields_from [] s) in
    let keep = fields_from (w ++ c ∷ []) s in if is_space c then skip else keep

-- strings.Fields
unfoldable pub fields : Text → List Text
unfolding fields_from word is_space
fields s = fields_from [] s

-- strings.Replace(s, a, b, -1) for a single character `a`
unfoldable pub replace_char : ℕ → Text → Text → Text
replace_char a b [] = []
replace_char a b (c ∷ s) = if c == a then b ++ replace_char a b s else c ∷ replace_char a b s

-- strings.Replace(s, old, new, -1), for an `old` that is not empty. The number is how many
-- characters of an occurrence of `old` are still to be passed over.
replace_from : Text → Text → ℕ → Text → Text
replace_from old new n [] = []
replace_from old new (suc n) (c ∷ s) = replace_from old new n s
replace_from old new zero (c ∷ s) = elim (has_prefix (c ∷ s) old) [
  | true ↦ new ++ replace_from old new (length old - 1) s
  | false ↦ c ∷ replace_from old new zero s
]

unfoldable pub replace : Text → Text → Text → Text
unfolding replace_from has_prefix
replace s old new = replace_from old new 0 s

trim_left : Text → Text
unfolding is_space
trim_left [] = []
trim_left (c ∷ s) = let rest = trim_left s in if is_space c then rest else c ∷ s

keep_right : ℕ → Text → Text
keep_right c [] = if is_space c then [] else c ∷ []
keep_right c (d ∷ s) = c ∷ d ∷ s

trim_right : Text → Text
unfolding is_space keep_right
trim_right [] = []
trim_right (c ∷ s) = keep_right c (trim_right s)

-- strings.TrimSpace
unfoldable pub trim_space : Text → Text
unfolding trim_left trim_right
trim_space s = trim_right (trim_left s)

-- strings.Contains
unfoldable pub contains : Text → Text → Bool
unfolding has_prefix
contains [] part = has_prefix [] part
contains (c ∷ s) part = has_prefix (c ∷ s) part || contains s part
