-- ===== src/Cmdline/Words.antt =====
-- How the command line is cut into words.
use burmilla_os.Base.{
  ℕ, true, false, List, [], ◌∷◌, ◌++◌, Text, All, Lacks, ◌≡◌, ◌≢◌, ◌⊎◌, refl, sym, ap, ◌∙◌,
  append_assoc, append-nil, arith,
}
use burmilla_os.Cmdline.{is_quotation_mark, separates, word, split_from, split_cmd_line}

-- A quotation mark is closed by itself, and a square bracket by the other one.
abbrev pub Delimits : ℕ → ℕ → Type 0
Delimits open' close =
    ((is_quotation_mark open' ≡ true) × (close ≡ open')) ⊎ ((open' ≡ b'[') × (close ≡ b']'))

-- A character that neither separates words nor opens a quotation.
abbrev pub IsPlain : ℕ → Type 0
IsPlain c = (c ≢ 0) × (is_quotation_mark c ≡ false) × (c ≢ b'[') × (c ≢ b' ')

plain_lem : (c : ℕ) → IsPlain c → separates 0 c ≡ (0, false)
unfolding separates
plain_lem c h = ground arith

open_lem :
    (open' close : ℕ) → Delimits open' close → (separates 0 open' ≡ (close, false)) × (close ≢ 0)
unfolding separates
open_lem open' close d = ground arith

inside_lem : (close c : ℕ) → close ≢ 0 → c ≢ close → separates close c ≡ (close, false)
unfolding separates
inside_lem close c h k = ground arith

close_lem : (close : ℕ) → separates close close ≡ (0, false)
unfolding separates
close_lem close = ground arith

space_lem : separates 0 b' ' ≡ (0, true)
unfolding separates is_quotation_mark
space_lem = refl

step :
    (last_rune next c : ℕ) (w s : Text)
    → separates last_rune c ≡ (next, false)
    → split_from last_rune w (c ∷ s) ≡ split_from next (w ++ c ∷ []) s
unfolding split_from
step last_rune next c w s e = ground (arith, e)

-- Inside a quotation every character up to the closing one belongs to the word.
split_from_inside :
    (close : ℕ) (body w rest : Text)
    → close ≢ 0
    → Lacks close body
    → split_from close w (body ++ close ∷ rest) ≡ split_from 0 (w ++ (body ++ close ∷ [])) rest
split_from_inside close [] w rest h lacks = step close 0 close w rest (close_lem close)
split_from_inside close (c ∷ body) w rest h (hc, lacks) =
    step close close c w (body ++ close ∷ rest) (inside_lem close c h hc)
    ∙ split_from_inside close body (w ++ c ∷ []) rest h lacks
    ∙ ap (λ t. split_from 0 t rest) (append_assoc w (c ∷ []) (body ++ close ∷ []))

split_from_plain :
    (name w rest : Text)
    → All IsPlain name
    → split_from 0 w (name ++ rest) ≡ split_from 0 (w ++ name) rest
split_from_plain [] w rest h = ap (λ t. split_from 0 t rest) (sym (append-nil w))
split_from_plain (c ∷ name) w rest (hc, h) =
    step 0 0 c w (name ++ rest) (plain_lem c hc)
    ∙ split_from_plain name (w ++ c ∷ []) rest h
    ∙ ap (λ t. split_from 0 t rest) (append_assoc w (c ∷ []) name)

word-cons :
    (w : Text) (c : ℕ) (v : Text) (ws : List Text) → word (w ++ c ∷ v) ws ≡ (w ++ c ∷ v) ∷ ws
unfolding word
word-cons [] c v ws = refl
word-cons (d ∷ w) c v ws = refl

split_from_space :
    (w : Text) (rest : Text) → split_from 0 w (b' ' ∷ rest) ≡ word w (split_from 0 [] rest)
unfolding split_from
split_from_space w rest = ground (arith, space_lem)

-- A word whose value is quoted or in brackets stays one word, whatever it holds between the
-- delimiters but the closing one, and what follows the next space is split on its own.
pub split_cmd_line_quoted :
    (name : Text) (open' close : ℕ) (body rest : Text)
    → All IsPlain name
    → Delimits open' close
    → Lacks close body
    → split_cmd_line (name ++ open' ∷ (body ++ close ∷ b' ' ∷ rest))
      ≡ (name ++ open' ∷ (body ++ close ∷ [])) ∷ split_cmd_line rest
unfolding split_cmd_line
split_cmd_line_quoted name open' close body rest h d lacks =
    let (opens, ne) = open_lem open' close d in
    split_from_plain name [] (open' ∷ (body ++ close ∷ b' ' ∷ rest)) h
    ∙ step 0 close open' name (body ++ close ∷ b' ' ∷ rest) opens
    ∙ split_from_inside close body (name ++ open' ∷ []) (b' ' ∷ rest) ne lacks
    ∙ ap (λ t. split_from 0 t (b' ' ∷ rest)) (append_assoc name (open' ∷ []) (body ++ close ∷ []))
    ∙ split_from_space (name ++ open' ∷ (body ++ close ∷ [])) rest
    ∙ word-cons name open' (body ++ close ∷ []) (split_from 0 [] rest)

-- A word of plain characters ends at the next space.
pub split_cmd_line_plain :
    (c : ℕ) (name rest : Text)
    → All IsPlain (c ∷ name)
    → split_cmd_line ((c ∷ name) ++ b' ' ∷ rest) ≡ (c ∷ name) ∷ split_cmd_line rest
unfolding split_cmd_line
split_cmd_line_plain c name rest h =
    split_from_plain (c ∷ name) [] (b' ' ∷ rest) h
    ∙ split_from_space (c ∷ name) rest
    ∙ word-cons [] c name (split_from 0 [] rest)
