-- ===== src/Interpolation/Total.antt =====
-- The loop of `parseLine` ends: the fuel is enough.
use burmilla_os.Base.{ℕ, zero, suc, ◌≤◌, ◌<◌, ◌≢◌, [], ◌∷◌, ◌++◌, Text, length, arith}
use burmilla_os.Interpolation.{
  Expansion, expanded, out_of_fuel, parse_variable, close_brace, parse_variable_with_braces,
  parse_interpolation_expression, parse_from, parse_line,
}

-- What an expansion leaves to be read.
abbrev left : Expansion → Text
left (expanded r rest) = rest
left _ = []

abbrev replacement : Expansion → Text
replacement (expanded r rest) = r
replacement _ = []

module _ (mapping : Text → Text) where
  length-parse_variable : (name s : Text) → length (left (parse_variable mapping name s)) ≤ length s
  unfolding parse_variable
  length-parse_variable name [] = omega arith
  length-parse_variable name (c ∷ s) = ground (arith, length-parse_variable (name ++ c ∷ []) s)

  length-close_brace : (name s : Text) → length (left (close_brace mapping name s)) ≤ length s
  unfolding close_brace
  length-close_brace [] s = omega arith
  length-close_brace (c ∷ name) s = omega arith

  length-parse_variable_with_braces :
      (name s : Text) → length (left (parse_variable_with_braces mapping name s)) ≤ length s
  unfolding parse_variable_with_braces
  length-parse_variable_with_braces name [] = omega arith
  length-parse_variable_with_braces name (c ∷ s) =
      ground
        (arith, length-parse_variable_with_braces (name ++ c ∷ []) s, length-close_brace name s)

  length-parse_interpolation_expression :
      (s : Text) → length (left (parse_interpolation_expression mapping s)) ≤ length s
  unfolding parse_interpolation_expression
  length-parse_interpolation_expression [] = omega arith
  length-parse_interpolation_expression (c ∷ s) =
      ground (arith, length-parse_variable [] (c ∷ s), length-parse_variable_with_braces [] s)

  parse_from_total :
      (fuel : ℕ) (s buffer : Text)
      → length s < fuel
      → parse_from mapping fuel s buffer ≢ out_of_fuel
  unfolding parse_from
  parse_from_total zero s buffer h = absurd (omega arith)
  parse_from_total (suc fuel) [] buffer h = λ e. cc
  parse_from_total (suc fuel) (c ∷ s) buffer h =
      let e = parse_interpolation_expression mapping s in
      ground (
        arith,
        parse_from_total fuel s (buffer ++ c ∷ []),
        parse_from_total fuel (left e) (buffer ++ replacement e),
        length-parse_interpolation_expression s,
      )

-- `parseLine` returns a result or panics, for every line: its loop never runs for ever.
pub parse_line_total : (mapping : Text → Text) (line : Text) → parse_line mapping line ≢ out_of_fuel
unfolding parse_line
parse_line_total mapping line = parse_from_total mapping (suc (length line)) line [] (omega arith)
