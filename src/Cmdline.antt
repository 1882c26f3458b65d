-- ===== src/Cmdline.antt =====
-- config/cmdline/cmdline.go: the kernel command line as a configuration tree, and reading and
-- writing a tree at a dotted key. `util.UnescapeKernelParams` of pkg/util/util.go is here too.
pub mod Words
pub mod Settings
pub mod Apart
pub mod Parsing
mod Examples
use mathlib.Core.Option
use burmilla_os.Base.{
  ℕ, Bool, true, false, ◌&&◌, ◌||◌, not, Option, none, some, List, [], ◌∷◌, ◌++◌, Text, codes, leb,
  ◌==◌, if◌then◌else◌, ◌≡◌, refl,
}
use burmilla_os.Strings.{has_prefix, drop, split, split_n, replace, trim_space}
use burmilla_os.Config.Value.{
  Value, text, scalar, items, object, Items, nil, cons, Fields, end, field, lookup, put,
}
use burmilla_os.Config.Merge.{map_copy}

pub unescape_kernel_params : Text → Text
unescape_kernel_params s = replace (replace s (codes "\\\"") (codes "\"")) (codes "\\'") (codes "'")

-- unicode.Quotation_Mark
pub is_quotation_mark : ℕ → Bool
is_quotation_mark c =
    c == 0x22
    || c == 0x27
    || c == 0xab
    || c == 0xbb
    || leb 0x2018 c && leb c 0x201f
    || leb 0x2039 c && leb c 0x203a
    || c == 0x2e42
    || leb 0x300c c && leb c 0x300f
    || leb 0x301d c && leb c 0x301f
    || leb 0xfe41 c && leb c 0xfe44
    || c == 0xff02
    || c == 0xff07
    || leb 0xff62 c && leb c 0xff63

-- The closure that `splitCmdLine` hands to strings.FieldsFunc: from `lastRune` and the next
-- character, the new `lastRune` and whether the character separates words.
pub separates : ℕ → ℕ → ℕ × Bool
unfolding is_quotation_mark
separates last_rune c =
    if c == last_rune
    then (0, false)
    else if not (last_rune == 0)
    then (last_rune, false)
    else if is_quotation_mark c
    then (c, false)
    else if c == b'['
    then (b']', false)
    else (0, c == b' ')

-- strings.FieldsFunc, which calls the closure on each character in order. The second argument is
-- the word so far.
pub word : Text → List Text → List Text
word [] ws = ws
word (c ∷ w) ws = (c ∷ w) ∷ ws

pub split_from : ℕ → Text → Text → List Text
unfolding word
split_from last_rune w [] = word w []
split_from last_rune w (c ∷ s) =
    let (last', separated) = separates last_rune c in
    elim separated [
      | true ↦ word w (split_from last' [] s)
      | false ↦ split_from last' (w ++ c ∷ []) s
    ]

pub split_cmd_line : Text → List Text
unfolding split_from separates
split_cmd_line cmd_line = split_from 0 [] cmd_line

abbrev newline_magic_string : Text
newline_magic_string = codes "9XsJcx6dR5EERYCC"

abbrev colon_magic_string : Text
colon_magic_string = codes "V0Rc21pIVknMm2rr"

abbrev question_mark_magic_string : Text
question_mark_magic_string = codes "FoPL6JLMAaJqKMJT"

pub reverse_text : Text → Text
reverse_text val =
    replace (replace (replace val newline_magic_string (codes "\n")) colon_magic_string (codes ":"))
      question_mark_magic_string (codes "?")

mutual
  pub reverse_replacement : Value → Value
  reverse_replacement (object val) = object (reverse_fields val)
  reverse_replacement (items val) = items (reverse_items val)
  reverse_replacement (text val) = text (reverse_text val)
  reverse_replacement (scalar s) = scalar s

  pub reverse_items : Items → Items
  reverse_items nil = nil
  reverse_items (cons item val) = cons (reverse_replacement item) (reverse_items val)

  pub reverse_fields : Fields → Fields
  reverse_fields end = end
  reverse_fields (field k v val) = field k (reverse_replacement v) (reverse_fields val)

-- The path of nested maps that `Parse` walks and makes for one word; a value that is no map on the
-- way ends the round with nothing changed.
pub assign : List Text → Value → Fields → Fields
assign [] v current = current
assign (key ∷ []) v current = put key v current
assign (key ∷ next ∷ keys) v current = elim (lookup key current) [
  | none ↦ put key (object (assign (next ∷ keys) v end)) current
  | some (object d) ↦ put key (object (assign (next ∷ keys) v d)) current
  | some other ↦ current
]

-- The loop of `GetOrSetVal` that reads.
pub get_val : List Text → Fields → Option Value
get_val [] t = none
get_val (part ∷ []) t = lookup part t
get_val (part ∷ next ∷ parts) t = elim (lookup part t) [
  | none ↦ none
  | some (object d) ↦ get_val (next ∷ parts) d
  | some other ↦ none
]

-- The loop of `GetOrSetVal` that writes; `none` is its `break`, before which it has written nothing.
pub set_val : List Text → Value → Fields → Option Fields
set_val [] value t = none
set_val (part ∷ []) value t = some (put part value t)
set_val (part ∷ next ∷ parts) value t = elim (lookup part t) [
  | none ↦ Option.map (λ d. put part (object d) t) (set_val (next ∷ parts) value end)
  | some (object d) ↦ Option.map (λ d'. put part (object d') t) (set_val (next ∷ parts) value d)
  | some other ↦ none
]

-- `none` is an error of the YAML parser.
module _ (unmarshal : Text → Option Value) where
  pub unmarshal_or_return_string : Text → Value
  unfolding reverse_replacement
  unmarshal_or_return_string value =
      let escaped =
        replace
          (replace (replace value (codes "\n") newline_magic_string) (codes ":") colon_magic_string)
          (codes "?") question_mark_magic_string in
      reverse_replacement (elim (unmarshal escaped) [ none ↦ text escaped | some result ↦ result ])

  -- The value that is written.
  pub typed : Value → Value
  typed (text s) = unmarshal_or_return_string s
  typed v = v

  -- GetOrSetVal; a `value` of `none` is nil.
  pub get_or_set_val : Text → Fields → Option Value → Value × Fields
  get_or_set_val args data' none =
      (elim (get_val (split b'.' args) data') [ none ↦ text [] | some val ↦ val ], data')
  get_or_set_val args data' (some value) =
      elim (set_val (split b'.' args) (typed value) (map_copy data')) [
        | none ↦ (text [], map_copy data')
        | some t_data ↦ (typed value, t_data)
      ]

  -- The key and the value of a word; `none` if the word is skipped.
  pub unprefixed : Text → Bool → Option Text
  unprefixed part parse_all =
      if has_prefix part (codes "cc.")
      then some (drop 3 part)
      else if has_prefix part (codes "rancher.") || parse_all
      then some part
      else none

  pub key_value : List Text → Text × Text
  key_value (key ∷ value ∷ kv) = (key, value)
  key_value (key ∷ []) = (key, codes "true")
  key_value [] = ([], codes "true")

  pub parse_part : Bool → Fields → Text → Fields
  parse_part parse_all result part = elim (unprefixed part parse_all) [
    | none ↦ result
    | some setting ↦
        let (key, value) = key_value (split_n b'=' setting 2) in
        assign (split b'.' key) (unmarshal_or_return_string value) result
  ]

  pub parse_parts : Bool → Fields → List Text → Fields
  parse_parts parse_all result [] = result
  parse_parts parse_all result (part ∷ parts) =
      parse_parts parse_all (parse_part parse_all result part) parts

  pub parse : Text → Bool → Fields
  parse cmd_line parse_all = parse_parts parse_all end (split_cmd_line cmd_line)

  -- Read, on the content of /proc/cmdline; `none` is an error of reading it.
  unfoldable pub read : Bool → Option Text → Fields
  read parse_all none = end
  read parse_all (some []) = end
  read parse_all (some (c ∷ cmd_line)) =
      parse (trim_space (unescape_kernel_params (c ∷ cmd_line))) parse_all

  pub get_cmdline : Text → Option Text → Value
  get_cmdline key file =
      let parse_all = not (has_prefix key (codes "cc.") || has_prefix key (codes "rancher.")) in
      (get_or_set_val key (read parse_all file) none).0
