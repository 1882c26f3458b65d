-- ===== src/Interpolation/Segments.antt =====
-- The grammar of a line, independently of the loops, and what a line of the grammar is replaced by.
use burmilla_os.Base.{
  ℕ, zero, suc, ◌<◌, ◌≡◌, ◌≢◌, refl, true, false, List, [], ◌∷◌, ◌++◌, append-nil, append_assoc,
  Text, length, length-append, ◌∙◌, sym, codes, arith, All,
}
use burmilla_os.Interpolation.{
  expanded, LineResult, done, panic, parse_variable, close_brace, parse_variable_with_braces,
  parse_interpolation_expression, parse_from, parse_line, valid_variable_name_char, is_num,
}

-- A character that stands for itself, `$$`, `$NAME` and `${NAME}`.
pub data Segment : Type 0 where
  plain : ℕ → Segment
  dollar : Segment
  variable : Text → Segment
  braced : Text → Segment

-- The line of some segments, with a text behind them.
unfoldable pub render : List Segment → Text → Text
render [] end = end
render (plain c ∷ ss) end = c ∷ render ss end
render (dollar ∷ ss) end = b'$' ∷ b'$' ∷ render ss end
render (variable name ∷ ss) end = b'$' ∷ name ++ render ss end
render (braced name ∷ ss) end = b'$' ∷ b'{' ∷ name ++ b'}' ∷ render ss end

pub expand : (Text → Text) → List Segment → Text
expand mapping [] = []
expand mapping (plain c ∷ ss) = c ∷ expand mapping ss
expand mapping (dollar ∷ ss) = b'$' ∷ expand mapping ss
expand mapping (variable name ∷ ss) = mapping name ++ expand mapping ss
expand mapping (braced name ∷ ss) = mapping name ++ expand mapping ss

abbrev pub IsNameChar : ℕ → Type 0
IsNameChar c = valid_variable_name_char c ≡ true

-- No character of the text continues the name before it.
abbrev pub Stops : Text → Type 0
Stops [] = Unit
Stops (c ∷ s) = valid_variable_name_char c ≡ false

-- What an unbraced name starts with.
abbrev pub Starts : Text → Type 0
Starts [] = ⊥
Starts (c ∷ s) = is_num c ≡ false

-- A plain character is not `$`; a name is not empty and made of name characters; an unbraced one
-- does not start with a digit and is as long as it can be, up to the text behind all segments.
abbrev pub IsWellFormed : List Segment → Text → Type 0
IsWellFormed [] end = Unit
IsWellFormed (plain c ∷ ss) end = (c ≢ b'$') × IsWellFormed ss end
IsWellFormed (dollar ∷ ss) end = IsWellFormed ss end
IsWellFormed (variable name ∷ ss) end =
    All IsNameChar name × Starts name × Stops (render ss end) × IsWellFormed ss end
IsWellFormed (braced name ∷ ss) end = All IsNameChar name × (name ≢ []) × IsWellFormed ss end

module _ (mapping : Text → Text) where
  parse_variable_stop :
      (name rest : Text)
      → Stops rest
      → parse_variable mapping name rest ≡ expanded (mapping name) rest
  unfolding parse_variable
  parse_variable_stop name [] h = refl
  parse_variable_stop name (c ∷ s) h = ground arith

  parse_variable-append :
      (name more rest : Text)
      → All IsNameChar more
      → Stops rest
      → parse_variable mapping name (more ++ rest) ≡ expanded (mapping (name ++ more)) rest
  unfolding parse_variable
  parse_variable-append name [] rest h stop = rw append-nil (parse_variable_stop name rest stop)
  parse_variable-append name (c ∷ more) rest (hc, h) stop = ground (
    arith,
    parse_variable-append (name ++ c ∷ []) more rest h stop,
    append_assoc name (c ∷ []) more,
  )

  -- A name character is not the closing brace.
  name_char-ne-brace : (c : ℕ) → IsNameChar c → c ≢ b'}'
  unfolding valid_variable_name_char
  name_char-ne-brace c h = ground arith

  close_brace_lem :
      (name s : Text) → name ≢ [] → close_brace mapping name s ≡ expanded (mapping name) s
  unfolding close_brace
  close_brace_lem [] s h = absurd (h refl)
  close_brace_lem (c ∷ name) s h = refl

  braces-append :
      (name more rest : Text)
      → All IsNameChar more
      → name ++ more ≢ []
      → parse_variable_with_braces mapping name (more ++ b'}' ∷ rest)
        ≡ expanded (mapping (name ++ more)) rest
  unfolding parse_variable_with_braces
  braces-append name [] rest h ne =
      rw append-nil (close_brace_lem name rest (λ e. ne (append-nil name ∙ e)))
  braces-append name (c ∷ more) rest (hc, h) ne =
      let ih =
        braces-append (name ++ c ∷ []) more rest h
          (λ e. ne (sym (append_assoc name (c ∷ []) more) ∙ e)) in
      ground (arith, ih, name_char-ne-brace c hc, append_assoc name (c ∷ []) more)

  name_char-ne-open : (c : ℕ) → IsNameChar c → (c ≢ b'$') × (c ≢ b'{')
  unfolding valid_variable_name_char
  name_char-ne-open c h = ground arith

  expression_variable :
      (name rest : Text)
      → All IsNameChar name
      → Starts name
      → Stops rest
      → parse_interpolation_expression mapping (name ++ rest) ≡ expanded (mapping name) rest
  unfolding parse_interpolation_expression
  expression_variable [] rest h start stop = absurd start
  expression_variable (c ∷ name) rest (hc, h) start stop =
      ground (arith, name_char-ne-open c hc, parse_variable-append [] (c ∷ name) rest (hc, h) stop)

  expression_braced :
      (name rest : Text)
      → All IsNameChar name
      → name ≢ []
      → parse_interpolation_expression mapping (b'{' ∷ name ++ b'}' ∷ rest)
        ≡ expanded (mapping name) rest
  unfolding parse_interpolation_expression
  expression_braced name rest h ne = braces-append [] name rest h ne

  -- A successful expansion goes on behind itself.
  go_on :
      (s rest replaced buffer out : Text) (finish : Text → LineResult) (fuel : ℕ)
      → parse_interpolation_expression mapping s ≡ expanded replaced rest
      → parse_from mapping fuel rest (buffer ++ replaced) ≡ finish ((buffer ++ replaced) ++ out)
      → parse_from mapping (suc fuel) (b'$' ∷ s) buffer ≡ finish (buffer ++ (replaced ++ out))
  unfolding parse_from
  go_on s rest replaced buffer out finish fuel e ih =
      rw (e, parse_from) (rw (← append_assoc buffer replaced out) ih)

  pass :
      (c : ℕ) (s buffer out : Text) (finish : Text → LineResult) (fuel : ℕ)
      → c ≢ b'$'
      → parse_from mapping fuel s (buffer ++ c ∷ []) ≡ finish ((buffer ++ c ∷ []) ++ out)
      → parse_from mapping (suc fuel) (c ∷ s) buffer ≡ finish (buffer ++ c ∷ out)
  unfolding parse_from
  pass c s buffer out finish fuel h ih = ground (arith, append_assoc buffer (c ∷ []) out)

  module _ (end : Text) (finish : Text → LineResult)
      (at_end : (fuel : ℕ) (buffer : Text)
        → length end < fuel
        → parse_from mapping fuel end buffer ≡ finish buffer) where
    parse_from-render :
        (ss : List Segment) (fuel : ℕ) (buffer : Text)
        → IsWellFormed ss end
        → length (render ss end) < fuel
        → parse_from mapping fuel (render ss end) buffer ≡ finish (buffer ++ expand mapping ss)
    unfolding render expand
    parse_from-render ss zero buffer h lt = absurd (omega arith)
    parse_from-render [] (suc fuel) buffer h lt = rw append-nil (at_end (suc fuel) buffer lt)
    parse_from-render (plain c ∷ ss) (suc fuel) buffer (hc, h) lt =
        pass c (render ss end) buffer _ finish fuel hc
          (parse_from-render ss fuel (buffer ++ c ∷ []) h (omega arith))
    parse_from-render (dollar ∷ ss) (suc fuel) buffer h lt =
        go_on _ (render ss end) (codes "$") buffer _ finish fuel
          (unfold parse_interpolation_expression in refl)
          (parse_from-render ss fuel _ h (omega arith))
    parse_from-render (variable name ∷ ss) (suc fuel) buffer (hn, start, stop, h) lt =
        go_on _ (render ss end) (mapping name) buffer _ finish fuel
          (expression_variable name _ hn start stop)
          (parse_from-render ss fuel _ h (omega (arith, length-append name (render ss end))))
    parse_from-render (braced name ∷ ss) (suc fuel) buffer (hn, ne, h) lt =
        go_on _ (render ss end) (mapping name) buffer _ finish fuel (expression_braced name _ hn ne)
          (parse_from-render ss fuel _ h (omega (arith, length-append name (b'}' ∷ render ss end))))

-- A line of the grammar is accepted, and each of its variables is replaced by what the mapping
-- gives for its name, `$$` by `$`, and every other character by itself.
pub parse_line-render :
    (mapping : Text → Text) (ss : List Segment)
    → IsWellFormed ss []
    → parse_line mapping (render ss []) ≡ done (expand mapping ss)
unfolding parse_line parse_from
parse_line-render mapping ss h =
    parse_from-render mapping [] done at_end ss (suc (length (render ss []))) [] h (omega arith)
  where
    at_end : (fuel : ℕ) (buffer : Text) → 0 < fuel → parse_from mapping fuel [] buffer ≡ done buffer
    at_end zero buffer lt = absurd (omega arith)
    at_end (suc fuel) buffer lt = refl

-- A line of the grammar with a single `$` behind it makes the program panic, whatever the mapping:
-- the parser reads one character past the end of the line.
pub parse_line_trailing_dollar :
    (mapping : Text → Text) (ss : List Segment)
    → IsWellFormed ss (codes "$")
    → parse_line mapping (render ss (codes "$")) ≡ panic
unfolding parse_line parse_from parse_interpolation_expression
parse_line_trailing_dollar mapping ss h =
    parse_from-render mapping (codes "$") (λ _. panic) at_end ss
      (suc (length (render ss (codes "$")))) [] h (omega arith)
  where
    at_end :
        (fuel : ℕ) (buffer : Text) → 1 < fuel → parse_from mapping fuel (codes "$") buffer ≡ panic
    at_end zero buffer lt = absurd (omega arith)
    at_end (suc fuel) buffer lt = refl
