-- ===== src/Interpolation/Examples.antt =====
-- Lines that are interpolated.
use burmilla_os.Base.{text_eq, ◌≡◌, Text, codes, refl, List, [], ◌∷◌, ◌++◌, arith}
use burmilla_os.Config.Value.{Value, text, items, cons, nil, object, field, end, lookup}
use burmilla_os.Interpolation.Values.{of_line, interpolated, parse_config}
use burmilla_os.Interpolation.Replaced.{reach-parse_config, key, index}
use burmilla_os.Interpolation.{parse_line, done, panic, invalid, valid_variable_name_char}
use burmilla_os.Interpolation.Segments.{
  Segment, plain, dollar, variable, braced, render, expand, IsWellFormed, parse_line-render,
  parse_line_trailing_dollar,
}

upper : Text → Text
upper name = codes "<" ++ name ++ codes ">"

parse_line_runs :
    (parse_line upper (codes "a $FOO-${BAR}$$x") ≡ done (codes "a <FOO>-<BAR>$x"))
    × (parse_line upper (codes "${}") ≡ invalid)
    × (parse_line upper (codes "$1") ≡ invalid)
    × (parse_line upper (codes "cost: 5$") ≡ panic)
unfolding parse_line upper
parse_line_runs = (refl, refl, refl, refl)

abbrev segments : List Segment
segments = variable (codes "A") ∷ plain b'-' ∷ braced (codes "B") ∷ dollar ∷ []

segments-IsWellFormed : (rest : Text) → IsWellFormed segments rest
unfolding valid_variable_name_char render
segments-IsWellFormed rest = ((refl, tt), refl, refl, (omega arith, ((refl, tt), (λ e. cc), tt)))

parse_line-render_example : parse_line upper (render segments []) ≡ done (expand upper segments)
parse_line-render_example = parse_line-render upper segments (segments-IsWellFormed [])

parse_line_trailing_dollar_example : parse_line upper (render segments (codes "$")) ≡ panic
parse_line_trailing_dollar_example =
    parse_line_trailing_dollar upper segments (segments-IsWellFormed (codes "$"))

abbrev service : Value
service = object (field (codes "image") (text (codes "${B}$$")) end)

service_runs :
    parse_config upper service
    ≡ interpolated (object (field (codes "image") (text (codes "<B>$")) end))
unfolding parse_config upper parse_line of_line
service_runs = refl

abbrev command : Value
command = object (
    field (codes "command") (items (cons (text (codes "run")) (cons (text (codes "${B}$$")) nil)))
      end)

command_runs :
    parse_config upper command
    ≡ interpolated (
        object (
          field
            (codes "command")
            (items (cons (text (codes "run")) (cons (text (codes "<B>$")) nil)))
            end))
unfolding parse_config upper parse_line of_line
command_runs = refl

reach-parse_config_example : parse_line upper (codes "${B}$$") ≡ done (codes "<B>$")
unfolding lookup text_eq
reach-parse_config_example =
    reach-parse_config upper (key (codes "command") ∷ index 1 ∷ []) command _ command_runs
