-- ===== src/Interpolation/Values.antt =====
-- `parseConfig` of pkg/libcompose/config/interpolation.go: the variables in all texts of a value. It
-- is done in place, and it stops at the first text that is no valid line.
use burmilla_os.Base.{Text}
use burmilla_os.Config.Value.{
  Value, text, scalar, items, object, Items, nil, cons, Fields, end, field,
}
use burmilla_os.Interpolation.{LineResult, done, invalid, panic, out_of_fuel, parse_line}

-- A value, the error about a text, or the panic of the line parser.
pub data Interpolated {ℓ} (A : Type ℓ) : Type ℓ where
  interpolated : A → Interpolated A
  invalid_format : Text → Interpolated A
  failed_line : Text → Interpolated A

-- `if err != nil { return err }` between two parts.
abbrev pub then_interpolate :
    {A B : Type 0} → Interpolated A → (A → Interpolated B) → Interpolated B
then_interpolate (interpolated a) rest = rest a
then_interpolate (invalid_format s) rest = invalid_format s
then_interpolate (failed_line s) rest = failed_line s

-- A text's case; the parser runs out of no fuel, so that the last clause stands for its panic.
unfoldable pub of_line : LineResult → Text → Interpolated Value
of_line (done t) s = interpolated (text t)
of_line invalid s = invalid_format s
of_line panic s = failed_line s
of_line out_of_fuel s = failed_line s

module _ (mapping : Text → Text) where
  unfoldable mutual
    pub parse_config : Value → Interpolated Value
    parse_config (text s) = of_line (parse_line mapping s) s
    parse_config (scalar s) = interpolated (scalar s)
    parse_config (items vs) = then_interpolate (parse_items vs) (λ ws. interpolated (items ws))
    parse_config (object m) = then_interpolate (parse_fields m) (λ n. interpolated (object n))

    pub parse_items : Items → Interpolated Items
    parse_items nil = interpolated nil
    parse_items (cons v vs) =
        then_interpolate (parse_config v)
          (λ w. then_interpolate (parse_items vs) (λ ws. interpolated (cons w ws)))

    pub parse_fields : Fields → Interpolated Fields
    parse_fields end = interpolated end
    parse_fields (field k v m) =
        then_interpolate (parse_config v)
          (λ w. then_interpolate (parse_fields m) (λ n. interpolated (field k w n)))
