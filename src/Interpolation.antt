-- ===== src/Interpolation.antt =====
-- pkg/libcompose/config/interpolation.go: `$NAME` and `${NAME}` in the texts of a compose file.
-- A position in the line is the text from it on; `mapping` is the function that the source is
-- given. A read of `line[pos]` behind the end of the line is a panic of the program.
pub mod Segments
pub mod Total
pub mod Values
pub mod Replaced
mod Examples
use burmilla_os.Base.{
  ℕ, zero, suc, ◌+◌, ◌≡◌, Bool, true, false, ◌&&◌, ◌||◌, not, Option, none, some, List, [], ◌∷◌,
  ◌++◌, Text, length, refl, codes, leb, ◌==◌, if◌then◌else◌,
}

unfoldable pub is_num : ℕ → Bool
is_num c = leb b'0' c && leb c b'9'

unfoldable pub valid_variable_name_char : ℕ → Bool
unfolding is_num
valid_variable_name_char c =
    c == b'_' || leb b'A' c && leb c b'Z' || leb b'a' c && leb c b'z' || is_num c

-- The result `(replaced, pos, success)`: a success has the text from the next position on, which is
-- the one behind `pos`, since the caller's loop adds one to it.
pub data Expansion : Type 0 where
  expanded : Text → Text → Expansion
  failed : Expansion
  panicked : Expansion

module _ (mapping : Text → Text) where
  -- The first argument is the buffer.
  parse_variable : Text → Text → Expansion
  unfolding valid_variable_name_char
  parse_variable name [] = expanded (mapping name) []
  parse_variable name (c ∷ s) =
      let rest = parse_variable (name ++ c ∷ []) s in
      if valid_variable_name_char c then rest else expanded (mapping name) (c ∷ s)

  close_brace : Text → Text → Expansion
  close_brace [] s = failed
  close_brace (c ∷ name) s = expanded (mapping (c ∷ name)) s

  parse_variable_with_braces : Text → Text → Expansion
  unfolding valid_variable_name_char close_brace
  parse_variable_with_braces name [] = failed
  parse_variable_with_braces name (c ∷ s) =
      let rest = parse_variable_with_braces (name ++ c ∷ []) s in
      if c == b'}' then close_brace name s else if valid_variable_name_char c then rest else failed

  parse_interpolation_expression : Text → Expansion
  unfolding parse_variable parse_variable_with_braces valid_variable_name_char
  parse_interpolation_expression [] = panicked
  parse_interpolation_expression (c ∷ s) =
      if c == b'$'
      then expanded (codes "$") s
      else if c == b'{'
      then parse_variable_with_braces [] s
      else if not (is_num c) && valid_variable_name_char c
      then parse_variable [] (c ∷ s)
      else failed

-- The result `(text, success)` of `parseLine`.
pub data LineResult : Type 0 where
  done : Text → LineResult
  invalid : LineResult
  panic : LineResult
  out_of_fuel : LineResult

module _ (mapping : Text → Text) where
  -- The loop over the line, on fuel; the last argument is the buffer.
  parse_from : ℕ → Text → Text → LineResult
  parse_from zero s buffer = out_of_fuel
  parse_from (suc fuel) [] buffer = done buffer
  parse_from (suc fuel) (c ∷ s) buffer = elim (c == b'$') [
    | true ↦ elim (parse_interpolation_expression mapping s) [
      | expanded replaced rest ↦ parse_from fuel rest (buffer ++ replaced)
      | failed ↦ invalid
      | panicked ↦ panic
    ]
    | false ↦ parse_from fuel s (buffer ++ c ∷ [])
  ]

  -- One unit of fuel for each character and one for the end.
  unfoldable pub parse_line : Text → LineResult
  unfolding parse_from parse_interpolation_expression
  parse_line line = parse_from (suc (length line)) line []
