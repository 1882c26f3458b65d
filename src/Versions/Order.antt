-- ===== src/Versions/Order.antt =====
-- The comparison of versions is a linear order on the numbers that they spell.
use burmilla_os.Base.{
  ℕ, zero, suc, ◌<◌, ◌≡◌, ◌↔◌, Bool, true, false, List, [], ◌∷◌, Text, arith, refl, Bool-cases, inl,
  inr, sym, ◌∙◌,
}
use burmilla_os.Base.Int.{ℤ, pos, ltb_ℤ, ltb_ℤ_irrefl, ltb_ℤ_asymm, ltb_ℤ_trans, ltb_ℤ_antisymm}
use burmilla_os.Strings.{split}
use burmilla_os.Versions.Atoi.{atoi}
use burmilla_os.Versions.{
  Sign, less, equal, greater, round, compare_parts, compare, less_than_or_equal_to,
}

abbrev pub flip : Sign → Sign
flip less = greater
flip equal = equal
flip greater = less

-- Part i of a version, 0 where there is none.
abbrev pub part : List Text → ℕ → ℤ
part [] i = pos 0
part (p ∷ ps) zero = atoi p
part (p ∷ ps) (suc i) = part ps i

abbrev pub version_part : Text → ℕ → ℤ
version_part v = part (split b'.' v)

flip-round : (a b : ℤ) (r : Sign) → flip (round a b r) ≡ round b a (flip r)
unfolding round
flip-round a b r = ground (arith, ltb_ℤ_asymm a b, ltb_ℤ_asymm b a)

flip-compare_parts : (ps qs : List Text) → flip (compare_parts ps qs) ≡ compare_parts qs ps
unfolding compare_parts
flip-compare_parts [] [] = refl
flip-compare_parts (p ∷ ps) [] =
    ground (arith, flip-round (atoi p) (pos 0) (compare_parts ps []), flip-compare_parts ps [])
flip-compare_parts [] (q ∷ qs) =
    ground (arith, flip-round (pos 0) (atoi q) (compare_parts [] qs), flip-compare_parts [] qs)
flip-compare_parts (p ∷ ps) (q ∷ qs) =
    ground (arith, flip-round (atoi p) (atoi q) (compare_parts ps qs), flip-compare_parts ps qs)

-- Exchanging the two versions exchanges the results "less" and "greater" and keeps "equal".
pub compare_swap : (v w : Text) → compare w v ≡ flip (compare v w)
unfolding compare
compare_swap v w = sym (flip-compare_parts (split b'.' v) (split b'.' w))

-- The first place at which two sequences differ, the first one being the smaller there.
abbrev pub Below : (ℕ → ℤ) → (ℕ → ℤ) → Type 0
Below f g = (i : ℕ) × (ltb_ℤ (f i) (g i) ≡ true) × ((j : ℕ) → j < i → f j ≡ g j)

Below-later : (f g : ℕ → ℤ) → f 0 ≡ g 0 → Below (λ i. f (suc i)) (λ i. g (suc i)) → Below f g
Below-later f g e (i, h, k) = (suc i, h, agree)
  where
    agree : (j : ℕ) → j < suc i → f j ≡ g j
    agree zero lt = e
    agree (suc j) lt = k j (omega arith)

round-Below :
    (f g : ℕ → ℤ) (r : Sign)
    → (r ≡ less → Below (λ i. f (suc i)) (λ i. g (suc i)))
    → round (f 0) (g 0) r ≡ less
    → Below f g
unfolding round
round-Below f g r rest h = elim (Bool-cases (ltb_ℤ (f 0) (g 0))) [
  | inl lt ↦ (0, lt, λ j absurd_lt. absurd (omega arith))
  | inr ge ↦ Below-later f g (ltb_ℤ_antisymm (f 0) (g 0) ge (ground arith)) (rest (ground arith))
]

Below-round :
    (f g : ℕ → ℤ) (r : Sign)
    → (Below (λ i. f (suc i)) (λ i. g (suc i)) → r ≡ less)
    → Below f g
    → round (f 0) (g 0) r ≡ less
unfolding round
Below-round f g r rest (zero, h, k) = ground (arith, ltb_ℤ_asymm (f 0) (g 0))
Below-round f g r rest (suc i, h, k) =
    let e = rest (i, h, λ j lt. k (suc j) (omega arith)) in
    ground (arith, k 0 (omega arith), ltb_ℤ_irrefl (g 0))

compare_parts-Below : (ps qs : List Text) → compare_parts ps qs ≡ less → Below (part ps) (part qs)
unfolding compare_parts
compare_parts-Below [] [] h = cc
compare_parts-Below (p ∷ ps) [] h =
    round-Below (part (p ∷ ps)) (part []) _ (compare_parts-Below ps []) h
compare_parts-Below [] (q ∷ qs) h =
    round-Below (part []) (part (q ∷ qs)) _ (compare_parts-Below [] qs) h
compare_parts-Below (p ∷ ps) (q ∷ qs) h =
    round-Below (part (p ∷ ps)) (part (q ∷ qs)) _ (compare_parts-Below ps qs) h

Below-compare_parts : (ps qs : List Text) → Below (part ps) (part qs) → compare_parts ps qs ≡ less
unfolding compare_parts
Below-compare_parts [] [] (i, h, k) = cc (ltb_ℤ_irrefl (pos 0))
Below-compare_parts (p ∷ ps) [] h =
    Below-round (part (p ∷ ps)) (part []) _ (Below-compare_parts ps []) h
Below-compare_parts [] (q ∷ qs) h =
    Below-round (part []) (part (q ∷ qs)) _ (Below-compare_parts [] qs) h
Below-compare_parts (p ∷ ps) (q ∷ qs) h =
    Below-round (part (p ∷ ps)) (part (q ∷ qs)) _ (Below-compare_parts ps qs) h

-- A version is less than another exactly when its number is smaller at the first place where the
-- numbers of the two differ; a part that a version lacks counts as 0.
pub compare_less_iff : (v w : Text) → (compare v w ≡ less) ↔ Below (version_part v) (version_part w)
unfolding compare
compare_less_iff v w = (
  compare_parts-Below (split b'.' v) (split b'.' w),
  Below-compare_parts (split b'.' v) (split b'.' w),
)

round-equal :
    (f g : ℕ → ℤ) (r : Sign)
    → (r ≡ equal → (i : ℕ) → f (suc i) ≡ g (suc i))
    → round (f 0) (g 0) r ≡ equal
    → (i : ℕ) → f i ≡ g i
unfolding round
round-equal f g r rest h zero = ground (arith, ltb_ℤ_antisymm (f 0) (g 0))
round-equal f g r rest h (suc i) = rest (ground arith) i

compare_parts-equal :
    (ps qs : List Text) → compare_parts ps qs ≡ equal → (i : ℕ) → part ps i ≡ part qs i
unfolding compare_parts
compare_parts-equal [] [] h = λ i. refl
compare_parts-equal (p ∷ ps) [] h =
    round-equal (part (p ∷ ps)) (part []) _ (compare_parts-equal ps []) h
compare_parts-equal [] (q ∷ qs) h =
    round-equal (part []) (part (q ∷ qs)) _ (compare_parts-equal [] qs) h
compare_parts-equal (p ∷ ps) (q ∷ qs) h =
    round-equal (part (p ∷ ps)) (part (q ∷ qs)) _ (compare_parts-equal ps qs) h

equal-round : (a b : ℤ) (r : Sign) → a ≡ b → r ≡ equal → round a b r ≡ equal
unfolding round
equal-round a b r e h = ground (arith, ltb_ℤ_irrefl b)

equal-compare_parts :
    (ps qs : List Text) → ((i : ℕ) → part ps i ≡ part qs i) → compare_parts ps qs ≡ equal
unfolding compare_parts
equal-compare_parts [] [] h = refl
equal-compare_parts (p ∷ ps) [] h =
    equal-round _ _ _ (h 0) (equal-compare_parts ps [] (λ i. h (suc i)))
equal-compare_parts [] (q ∷ qs) h =
    equal-round _ _ _ (h 0) (equal-compare_parts [] qs (λ i. h (suc i)))
equal-compare_parts (p ∷ ps) (q ∷ qs) h =
    equal-round _ _ _ (h 0) (equal-compare_parts ps qs (λ i. h (suc i)))

-- Two versions compare as equal exactly when all their numbers agree, so that trailing zeros and
-- missing parts make no difference.
pub compare_equal_iff :
    (v w : Text) → (compare v w ≡ equal) ↔ ((i : ℕ) → version_part v i ≡ version_part w i)
unfolding compare
compare_equal_iff v w = (
  compare_parts-equal (split b'.' v) (split b'.' w),
  equal-compare_parts (split b'.' v) (split b'.' w),
)

abbrev at_most : Sign → Bool
at_most greater = false
at_most _ = true

round_trans :
    (a b c : ℤ) (r s t : Sign)
    → (at_most r ≡ true → at_most s ≡ true → at_most t ≡ true)
    → at_most (round a b r) ≡ true
    → at_most (round b c s) ≡ true
    → at_most (round a c t) ≡ true
unfolding round
round_trans a b c r s t rest h k = ground (
  arith,
  rest,
  ltb_ℤ_trans a b c,
  ltb_ℤ_antisymm a b,
  ltb_ℤ_antisymm b c,
  ltb_ℤ_irrefl a,
  ltb_ℤ_asymm a b,
  ltb_ℤ_asymm b c,
  ltb_ℤ_asymm a c,
)

compare_parts_trans :
    (ps qs rs : List Text)
    → at_most (compare_parts ps qs) ≡ true
    → at_most (compare_parts qs rs) ≡ true
    → at_most (compare_parts ps rs) ≡ true
unfolding compare_parts
compare_parts_trans [] [] [] h k = refl
compare_parts_trans [] [] (r ∷ rs) h k = k
compare_parts_trans (p ∷ ps) [] [] h k = h
compare_parts_trans [] (q ∷ qs) [] h k = refl
compare_parts_trans (p ∷ ps) [] (r ∷ rs) h k =
    round_trans (atoi p) (pos 0) (atoi r) _ _ _ (compare_parts_trans ps [] rs) h k
compare_parts_trans [] (q ∷ qs) (r ∷ rs) h k =
    round_trans (pos 0) (atoi q) (atoi r) _ _ _ (compare_parts_trans [] qs rs) h k
compare_parts_trans (p ∷ ps) (q ∷ qs) [] h k =
    round_trans (atoi p) (atoi q) (pos 0) _ _ _ (compare_parts_trans ps qs []) h k
compare_parts_trans (p ∷ ps) (q ∷ qs) (r ∷ rs) h k =
    round_trans (atoi p) (atoi q) (atoi r) _ _ _ (compare_parts_trans ps qs rs) h k

at_most_lem : (v w : Text) → less_than_or_equal_to v w ≡ at_most (compare v w)
unfolding less_than_or_equal_to
at_most_lem v w = ground arith

-- LessThanOrEqualTo is transitive.
pub less_than_or_equal_to_trans :
    (u v w : Text)
    → less_than_or_equal_to u v ≡ true
    → less_than_or_equal_to v w ≡ true
    → less_than_or_equal_to u w ≡ true
less_than_or_equal_to_trans u v w h k =
    at_most_lem u w
    ∙ unfold compare in
      compare_parts_trans (split b'.' u) (split b'.' v) (split b'.' w) (sym (at_most_lem u v) ∙ h)
        (sym (at_most_lem v w) ∙ k)
