-- ===== src/Versions/Atoi.antt =====
-- strconv.Atoi on a 64-bit platform, with its error dropped, as the caller drops it: a syntax error
-- gives 0, and a number out of range the nearest integer in range.
use Prim.Native.Nat.{◌^◌}
use burmilla_os.Base.{
  ℕ, zero, suc, ◌+◌, ◌-◌, ◌*◌, ◌≡◌, refl, Bool, false, ◌&&◌, Option, none, some, [], ◌∷◌, Text,
  codes, ltb, leb, ◌==◌, if◌then◌else◌,
}
use burmilla_os.Base.Int.{ℤ, pos, negsuc}

is_digit : ℕ → Bool
is_digit c = leb b'0' c && leb c b'9'

-- strconv.ParseUint: `none` is a syntax error. A number above the largest uint64 ends the scan.
scan : Text → ℕ → Option ℕ
scan [] n = some n
scan (c ∷ s) n =
    let m = n * 10 + (c - b'0') in
    if is_digit c then (if ltb (2 ^ 64 - 1) m then some (2 ^ 64 - 1) else scan s m) else none

parse_uint : Text → Option ℕ
unfolding scan is_digit
parse_uint [] = none
parse_uint (c ∷ s) = scan (c ∷ s) 0

positive : Option ℕ → ℤ
positive none = pos 0
positive (some n) = pos (if leb (2 ^ 63) n then 2 ^ 63 - 1 else n)

minus : ℕ → ℤ
minus zero = pos 0
minus (suc n) = negsuc n

negative : Option ℕ → ℤ
unfolding minus
negative none = pos 0
negative (some n) = minus (if ltb (2 ^ 63) n then 2 ^ 63 else n)

unfoldable pub atoi : Text → ℤ
unfolding parse_uint positive negative
atoi [] = pos 0
atoi (c ∷ s) =
    if c == b'-'
    then negative (parse_uint s)
    else if c == b'+'
    then positive (parse_uint s)
    else positive (parse_uint (c ∷ s))

-- Whether strconv.Atoi succeeds: the digits of a 64-bit integer, behind a sign or not.
in_range : ℕ → Option ℕ → Bool
in_range limit none = false
in_range limit (some n) = ltb n limit

unfoldable pub is_integer : Text → Bool
unfolding parse_uint in_range
is_integer [] = false
is_integer (c ∷ s) =
    if c == b'-'
    then in_range (2 ^ 63 + 1) (parse_uint s)
    else if c == b'+'
    then in_range (2 ^ 63) (parse_uint s)
    else in_range (2 ^ 63) (parse_uint (c ∷ s))

atoi_runs :
    (atoi (codes "-12") ≡ negsuc 11)
    × (atoi (codes "007") ≡ pos 7)
    × (atoi (codes "3-rc1") ≡ pos 0)
    × (atoi (codes "99999999999999999999x") ≡ pos 9223372036854775807)
unfolding atoi
atoi_runs = (refl, refl, refl, refl)
