-- ===== src/Strings/Laws.antt =====
-- Facts about the string functions that the components need.
use burmilla_os.Base.{
  ℕ, ◌≡◌, ◌≢◌, refl, ap, List, arith, [], ◌∷◌, ◌++◌, Text, Lacks, some, suc, text_eq, text_eq_refl,
  ◌==◌, Bool-cases, inl, inr,
}
use burmilla_os.Strings.{split, push, before, behind, split_n, trim_suffix}

-- A text splits into at least one piece.
pub split-ne-nil : (sep : ℕ) (s : Text) → split sep s ≢ []
unfolding split push
split-ne-nil sep [] = λ e. cc
split-ne-nil sep (c ∷ s) = ground (arith, split-ne-nil sep s)

-- The pieces of a join are the pieces of its parts: strings.Join at a single separator.
unfoldable pub join : ℕ → List Text → Text
join sep [] = []
join sep (p ∷ []) = p
join sep (p ∷ q ∷ ps) = p ++ sep ∷ join sep (q ∷ ps)

join-push : (sep c : ℕ) (ps : List Text) → ps ≢ [] → join sep (push c ps) ≡ c ∷ join sep ps
unfolding join push
join-push sep c [] h = absurd (h refl)
join-push sep c (p ∷ []) h = refl
join-push sep c (p ∷ q ∷ ps) h = refl

join_skip : (sep : ℕ) (ps : List Text) → ps ≢ [] → join sep ([] ∷ ps) ≡ sep ∷ join sep ps
unfolding join
join_skip sep [] h = absurd (h refl)
join_skip sep (p ∷ ps) h = refl

-- Joining the pieces of a split gives the text back.
pub join-split : (sep : ℕ) (s : Text) → join sep (split sep s) ≡ s
unfolding split
join-split sep [] = unfold join in refl
join-split sep (c ∷ s) = elim (Bool-cases (c == sep)) [
  | inl h ↦
      rw h
        (rw (join_skip sep (split sep s) (split-ne-nil sep s)) (ground (arith, join-split sep s)))
  | inr h ↦
      rw h (
        rw (join-push sep c (split sep s) (split-ne-nil sep s))
          (ap (λ t. c ∷ t) (join-split sep s)))
]

-- A piece without the separator is split off whole.
pub split-append :
    (sep : ℕ) (p rest : Text) → Lacks sep p → split sep (p ++ sep ∷ rest) ≡ p ∷ split sep rest
unfolding split push
split-append sep [] rest h = ground arith
split-append sep (c ∷ p) rest (hc, h) = ground (arith, split-append sep p rest h)

pub split_whole : (sep : ℕ) (p : Text) → Lacks sep p → split sep p ≡ p ∷ []
unfolding split push
split_whole sep [] h = refl
split_whole sep (c ∷ p) (hc, h) = ground (arith, split_whole sep p h)

before-append : (sep : ℕ) (p rest : Text) → Lacks sep p → before sep (p ++ sep ∷ rest) ≡ p
unfolding before
before-append sep [] rest h = ground arith
before-append sep (c ∷ p) rest (hc, h) = ground (arith, before-append sep p rest h)

behind-append : (sep : ℕ) (p rest : Text) → Lacks sep p → behind sep (p ++ sep ∷ rest) ≡ some rest
unfolding behind
behind-append sep [] rest h = ground arith
behind-append sep (c ∷ p) rest (hc, h) = ground (arith, behind-append sep p rest h)

pub split_n-append :
    (sep : ℕ) (p rest : Text) (n : ℕ)
    → Lacks sep p
    → split_n sep (p ++ sep ∷ rest) (suc (suc n)) ≡ p ∷ split_n sep rest (suc n)
unfolding split_n
split_n-append sep p rest n h =
    ground (arith, behind-append sep p rest h, before-append sep p rest h)

pub trim_suffix_none : (s suffix : Text) (c : ℕ) → Lacks c s → trim_suffix s (c ∷ suffix) ≡ s
unfolding trim_suffix text_eq
trim_suffix_none [] suffix c h = refl
trim_suffix_none (d ∷ s) suffix c (hd, h) = ground (arith, trim_suffix_none s suffix c h)

-- A suffix is trimmed off a text that lacks the suffix's first character.
pub trim_suffix-append :
    (s suffix : Text) (c : ℕ) → Lacks c s → trim_suffix (s ++ c ∷ suffix) (c ∷ suffix) ≡ s
unfolding trim_suffix text_eq
trim_suffix-append [] suffix c h = ground (arith, text_eq_refl suffix)
trim_suffix-append (d ∷ s) suffix c (hd, h) = ground (arith, trim_suffix-append s suffix c h)
