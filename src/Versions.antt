-- ===== src/Versions.antt =====
-- pkg/util/versions/compare.go: versions are compared part by part, as numbers.
pub mod Atoi
pub mod Order
mod Examples
use burmilla_os.Base.{Bool, true, false, List, [], ◌∷◌, Text, if◌then◌else◌}
use burmilla_os.Base.Int.{ℤ, pos, ltb_ℤ}
use burmilla_os.Strings.{split}
use burmilla_os.Versions.Atoi.{atoi}

-- The results -1, 0 and 1 of `compare`.
pub data Sign : Type 0 where
  less equal greater : Sign

-- One round of the loop; the last argument is what the further rounds give.
round : ℤ → ℤ → Sign → Sign
round curr_int other_int rest =
    if ltb_ℤ other_int curr_int then greater else if ltb_ℤ curr_int other_int then less else rest

-- The loop over both lists of parts. A part that one of them lacks is 0.
compare_parts : List Text → List Text → Sign
unfolding round
compare_parts [] [] = equal
compare_parts (p ∷ ps) [] = round (atoi p) (pos 0) (compare_parts ps [])
compare_parts [] (q ∷ qs) = round (pos 0) (atoi q) (compare_parts [] qs)
compare_parts (p ∷ ps) (q ∷ qs) = round (atoi p) (atoi q) (compare_parts ps qs)

unfoldable pub compare : Text → Text → Sign
unfolding compare_parts
compare v1 v2 = compare_parts (split b'.' v1) (split b'.' v2)

unfoldable pub less_than : Text → Text → Bool
less_than v other = elim (compare v other) [ less ↦ true | _ ↦ false ]

unfoldable pub less_than_or_equal_to : Text → Text → Bool
less_than_or_equal_to v other = elim (compare v other) [ greater ↦ false | _ ↦ true ]

unfoldable pub greater_than : Text → Text → Bool
greater_than v other = elim (compare v other) [ greater ↦ true | _ ↦ false ]

unfoldable pub greater_than_or_equal_to : Text → Text → Bool
greater_than_or_equal_to v other = elim (compare v other) [ less ↦ false | _ ↦ true ]

unfoldable pub equals : Text → Text → Bool
equals v other = elim (compare v other) [ equal ↦ true | _ ↦ false ]
