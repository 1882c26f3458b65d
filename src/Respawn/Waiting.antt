-- ===== src/Respawn/Waiting.antt =====
-- Whether `run` returns.
use native.Mathlib.Decide.{dec_le}
use burmilla_os.Base.{
  Bool-cases, inl, inr, ℕ, zero, suc, ◌≤◌, ◌<◌, ◌≡◌, ◌≢◌, ◌↔◌, false, none, List, [], ◌∷◌, Text,
  All, arith, length, refl, ap,
}
use burmilla_os.Strings.{split}
use burmilla_os.Respawn.{is_skipped, executed, receive, run}

receive_enough : (n : ℕ) (sent : List Text) → n ≤ length sent → receive n sent ≢ none
unfolding receive
receive_enough zero sent h = λ e. cc
receive_enough (suc n) [] h = absurd (omega arith)
receive_enough (suc n) (line ∷ sent) h = ground (arith, receive_enough n sent (omega arith))

receive_short : (n : ℕ) (sent : List Text) → length sent < n → receive n sent ≡ none
unfolding receive
receive_short zero sent h = absurd (omega arith)
receive_short (suc n) [] h = refl
receive_short (suc n) (line ∷ sent) h = rw (receive_short n sent (omega arith))

length-executed : (lines : List Text) → length (executed lines) ≤ length lines
unfolding executed
length-executed [] = omega arith
length-executed (line ∷ lines) = ground (arith, length-executed lines)

executed-All :
    (lines : List Text)
    → length lines ≤ length (executed lines)
    → All (λ l. is_skipped l ≡ false) lines
unfolding executed
executed-All [] h = tt
executed-All (line ∷ lines) h = elim (Bool-cases (is_skipped line)) [
  | inl e ↦ absurd (skipped (rw e at h))
  | inr e ↦ (e, executed-All lines (kept (rw e at h)))
]
  where
    skipped : suc (length lines) ≤ length (executed lines) → ⊥
    skipped lt = omega (arith, length-executed lines)

    kept :
        suc (length lines) ≤ suc (length (executed lines)) → length lines ≤ length (executed lines)
    kept le = omega arith

executed_whole :
    (lines : List Text) → All (λ l. is_skipped l ≡ false) lines → executed lines ≡ lines
unfolding executed
executed_whole [] h = refl
executed_whole (line ∷ lines) (hl, h) = ground (arith, executed_whole lines h)

-- When every process has ended, `run` returns exactly if no line of its input is blank or a comment:
-- it waits for one end for each line, and the lines that it skips send none.
pub run_returns_iff :
    (input : Text) (finished : List Text)
    → length finished ≡ length (executed (split b'\n' input))
    → (run input finished ≢ none) ↔ All (λ l. is_skipped l ≡ false) (split b'\n' input)
unfolding run
run_returns_iff input finished e =
    (λ h. executed-All lines (fits h), λ all. receive_enough (length lines) finished (whole all))
  where
    lines : List Text
    lines = split b'\n' input

    fits : receive (length lines) finished ≢ none → length lines ≤ length (executed lines)
    fits h = elim (dec_le (length lines) (length (executed lines))) [
      | yes le ↦ le
      | no gt ↦ absurd (h (receive_short (length lines) finished (omega arith)))
    ]

    whole : All (λ l. is_skipped l ≡ false) lines → length lines ≤ length finished
    whole all = omega (arith, ap length (executed_whole lines all))
