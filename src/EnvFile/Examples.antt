-- ===== src/EnvFile/Examples.antt =====
-- The file of the source's own test.
use burmilla_os.Strings.Sort.{sort_keys}
use burmilla_os.Strings.{split}
use burmilla_os.Base.{some, [], ◌∷◌, ◌++◌, Text, codes, ◌≡◌, refl, text_eq}
use burmilla_os.Base.Result.{ok}
use burmilla_os.Config.Disk.{content}
use burmilla_os.EnvFile.{Vars, is_key_char, write_env_file}

abbrev line : Text → Text → Text
line s rest = s ++ b'\n' ∷ rest

abbrev base : Text
base = line (codes "# a file") (line (codes "FOO=base") (line [] (codes "BAR= hi there")))

abbrev updates : Vars
updates = (codes "FOO", codes "test") ∷ (codes "NEW", codes "a value") ∷ []

updated :
    write_env_file (codes "foo.conf") updates (content base)
    ≡ ok (
        some (
          line (codes "# a file") (
            line
              (codes "FOO=test")
              (line [] (line (codes "BAR= hi there") (line (codes "NEW=a value") []))))))
unfolding write_env_file is_key_char text_eq split sort_keys
updated = refl
