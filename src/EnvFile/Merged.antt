-- ===== src/EnvFile/Merged.antt =====
-- What a merged file says: for every key, the given value, or else what the old file said.
use burmilla_os.Base.{◌==◌, Option, none, some, List, [], ◌∷◌, ◌++◌, Text, text_eq, if◌then◌else◌}
use burmilla_os.Strings.Sort.{sort_keys}
use burmilla_os.EnvFile.{Vars, line_key, env_lines_of}

-- The text behind the first `=`.
abbrev pub value_behind : Text → Text
value_behind [] = []
value_behind (c ∷ s) = if c == b'=' then s else value_behind s

-- The value that the first line for the key gives it.
abbrev pub value_in : Text → List Text → Option Text
value_in key [] = none
value_in key (line ∷ lines) =
    if text_eq (line_key line) key then some (value_behind line) else value_in key lines

abbrev pub or_else : Option Text → Option Text → Option Text
or_else (some v) old = some v
or_else none old = old

abbrev finished : List Text × Vars → List Text
finished merged = merged.0 ++ env_lines_of (sort_keys merged.1)
