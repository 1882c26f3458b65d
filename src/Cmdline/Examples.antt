-- ===== src/Cmdline/Examples.antt =====
-- A command line, its words and its settings. The YAML parser reads every text as itself.
use burmilla_os.Base.{All, arith, [], ◌∷◌, Text, codes, ◌≡◌, ◌⊎◌, refl, Option, some, none, text_eq}
use burmilla_os.Strings.{split, split_n, has_prefix, drop, replace, trim_space}
use burmilla_os.Config.Value.{Value, text, Fields, end, field, lookup, put, IsWellFormed, IsMap}
use burmilla_os.Cmdline.{
  is_quotation_mark, split_cmd_line, get_val, get_or_set_val, typed, parse_parts,
  unmarshal_or_return_string, parse, parse_part, unprefixed, key_value, assign, reverse_replacement,
  reverse_text, read, get_cmdline, unescape_kernel_params,
}
use burmilla_os.Cmdline.Words.{IsPlain}
use burmilla_os.Cmdline.Settings.{get_or_set_val_write, IsBlocked}

abbrev as_text : Text → Option Value
as_text s = some (text s)

abbrev data' : Fields
data' = field (codes "hostname") (text (codes "b")) end

data-IsMap : IsMap data'
unfolding IsWellFormed lookup
data-IsMap = (refl, tt, tt)

words :
    split_cmd_line (codes "cc.a=\"x y\" quiet b=[1 2]")
    ≡ codes "cc.a=\"x y\"" ∷ codes "quiet" ∷ codes "b=[1 2]" ∷ []
unfolding split_cmd_line
words = refl

console :
    get_cmdline as_text (codes "rancher.console") (some (codes "quiet rancher.console=debian\n"))
    ≡ text (codes "debian")
unfolding get_cmdline read parse parse_parts parse_part unprefixed key_value assign split_cmd_line
    unmarshal_or_return_string get_or_set_val get_val unescape_kernel_params trim_space has_prefix
    split split_n replace lookup put reverse_replacement reverse_text text_eq drop
console = refl

name-IsPlain : All IsPlain (codes "cc.a=")
unfolding is_quotation_mark
name-IsPlain = (
  (omega arith, refl, omega arith, omega arith),
  (
    (omega arith, refl, omega arith, omega arith),
    (
      (omega arith, refl, omega arith, omega arith),
      (
        (omega arith, refl, omega arith, omega arith),
        ((omega arith, refl, omega arith, omega arith), tt),
      ),
    ),
  ),
)

quiet-IsPlain : All IsPlain (codes "quiet")
unfolding is_quotation_mark
quiet-IsPlain = (
  (omega arith, refl, omega arith, omega arith),
  (
    (omega arith, refl, omega arith, omega arith),
    (
      (omega arith, refl, omega arith, omega arith),
      (
        (omega arith, refl, omega arith, omega arith),
        ((omega arith, refl, omega arith, omega arith), tt),
      ),
    ),
  ),
)

get_or_set_val_write_example :
    ((t : Fields) × (get_or_set_val as_text (codes "rancher.debug") data' (some (text (codes "on")))
        ≡ (typed as_text (text (codes "on")), t))
      × (get_or_set_val as_text (codes "rancher.debug") t none
          ≡ (typed as_text (text (codes "on")), t)))
    ⊎ ((get_or_set_val as_text (codes "rancher.debug") data' (some (text (codes "on")))
          ≡ (text [], data'))
        × IsBlocked (split b'.' (codes "rancher.debug")) data')
get_or_set_val_write_example =
    get_or_set_val_write as_text (codes "rancher.debug") data' (text (codes "on")) data-IsMap
