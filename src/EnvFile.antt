-- ===== src/EnvFile.antt =====
-- config/cloudinit/system/env_file.go: the update of a file of lines `KEY=value`. The two regular
-- expressions of the source are written out as functions on a line.
pub mod Entries
pub mod Merged
mod Examples
use mathlib.Core.Option
use burmilla_os.Base.{
  ℕ, Bool, true, false, ◌&&◌, ◌||◌, ◌==◌, leb, not, Option, none, some, List, [], ◌∷◌, ◌++◌, Text,
  text_eq, codes, if◌then◌else◌,
}
use burmilla_os.Base.Result.{Result, ok, failed, panicked, out_of_fuel, ◌>>=◌}
use burmilla_os.Strings.{split}
use burmilla_os.Strings.Sort.{sort_keys}
use burmilla_os.Config.Disk.{ReadResult, of_read}

-- A map from keys to values, as the list of its entries in the order of a loop over it.
abbrev pub Vars : Type 0
Vars = List (Text × Text)

unfoldable pub value_of : Text → Vars → Option Text
value_of key [] = none
value_of key ((k, v) ∷ vars) = if text_eq k key then some v else value_of key vars

-- delete(pending, key)
unfoldable pub without : Text → Vars → Vars
without key [] = []
without key ((k, v) ∷ vars) =
    let rest = without key vars in if text_eq k key then rest else (k, v) ∷ rest

-- The characters of [a-zA-Z0-9_].
unfoldable pub is_key_char : ℕ → Bool
is_key_char c =
    leb b'a' c && leb c b'z'
    || (leb b'A' c && leb c b'Z' || (leb b'0' c && leb c b'9' || c == b'_'))

abbrev pub all_key_chars : Text → Bool
all_key_chars [] = true
all_key_chars (c ∷ s) = is_key_char c && all_key_chars s

-- validKey.MatchString(key)
unfoldable pub is_valid_key : Text → Bool
is_valid_key [] = false
is_valid_key (c ∷ s) = all_key_chars (c ∷ s)

-- What is before the first `=`, if only characters of a key are.
unfoldable pub key_before : Text → Option Text
key_before [] = none
key_before (c ∷ s) =
    let rest = key_before s in
    if c == b'=' then some [] else if is_key_char c then Option.map (λ k. c ∷ k) rest else none

-- match[2]: the key of a line, or the empty text.
unfoldable pub line_key : Text → Text
unfolding key_before
line_key line = elim (key_before line) [ none ↦ [] | some key ↦ key ]

-- match[1]: the line without its line ending, which is `\n` with or without a `\r`.
unfoldable pub strip_cr : Text → Text
strip_cr [] = []
strip_cr (c ∷ []) = if c == b'\r' then [] else c ∷ []
strip_cr (c ∷ d ∷ s) = c ∷ strip_cr (d ∷ s)

-- All but the last element, and `strip_cr` in each.
unfoldable pub ended_lines : List Text → List Text
unfolding strip_cr
ended_lines [] = []
ended_lines (l ∷ []) = []
ended_lines (l ∷ m ∷ ls) = strip_cr l ∷ ended_lines (m ∷ ls)

-- A last line without its ending is given one.
unfoldable pub with_newline : Text → Text
with_newline [] = []
with_newline (c ∷ []) = if c == b'\n' then c ∷ [] else c ∷ b'\n' ∷ []
with_newline (c ∷ d ∷ s) = c ∷ with_newline (d ∷ s)

-- lineLexer.FindAllSubmatch(old, -1)
unfoldable pub env_lines : Text → List Text
unfolding ended_lines with_newline
env_lines old = ended_lines (split b'\n' (with_newline old))

-- "%s=%s"
abbrev pub env_line : Text × Text → Text
env_line (key, value) = key ++ b'=' ∷ value

-- The loop over the old lines; what is left of the map comes back.
unfoldable pub merge_lines : List Text → Vars → List Text × Vars
unfolding line_key value_of without
merge_lines [] pending = ([], pending)
merge_lines (line ∷ lines) pending = elim (value_of (line_key line) pending) [
  | some value ↦
      let rest = merge_lines lines (without (line_key line) pending) in
      (env_line (line_key line, value) ∷ rest.0, rest.1)
  | none ↦ let rest = merge_lines lines pending in (line ∷ rest.0, rest.1)
]

abbrev pub env_lines_of : Vars → List Text
env_lines_of [] = []
env_lines_of (entry ∷ vars) = env_line entry ∷ env_lines_of vars

unfoldable pub merged_lines : Text → Vars → List Text
unfolding env_lines merge_lines
merged_lines old pending =
    let merged = merge_lines (env_lines old) pending in
    merged.0 ++ env_lines_of (sort_keys merged.1)

unfoldable pub unlines : List Text → Text
unlines [] = []
unlines (line ∷ lines) = line ++ b'\n' ∷ unlines lines

unfoldable pub merge_env_contents : Text → Vars → Text
unfolding merged_lines unlines
merge_env_contents old pending = unlines (merged_lines old pending)

-- The first key that is no valid one.
unfoldable pub invalid_key : Vars → Option Text
unfolding is_valid_key
invalid_key [] = none
invalid_key ((key, value) ∷ vars) = if not (is_valid_key key) then some key else invalid_key vars

-- What is written to the file: `none` leaves it untouched.
unfoldable pub write_env_file : Text → Vars → ReadResult → Result (Option Text)
unfolding invalid_key merge_env_contents of_read
write_env_file path vars file = elim (invalid_key vars) [
  | some key ↦ failed (codes "Invalid name " ++ (key ++ (codes " for " ++ path)))
  | none ↦ elim vars [
    | [] ↦ ok none
    | entry ∷ others ↦ of_read file >>= λ old.
        let new = merge_env_contents old (entry ∷ others) in
        if text_eq old new then ok none else ok (some new)
  ]
]
