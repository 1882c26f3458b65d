-- ===== src/Respawn/Examples.antt =====
-- Processes that end, and inputs of the main loop.
use burmilla_os.Base.{
  text_eq, ℕ, ◌≡◌, ◌≢◌, ◌≤◌, ◌↔◌, ◌-◌, codes, refl, List, [], ◌∷◌, ◌++◌, true, false, none, All,
  length, leb, if◌then◌else◌,
}
use burmilla_os.Strings.{trim_space, has_prefix, split}
use burmilla_os.Respawn.{
  Exit, again, too_fast, execute, started_at, one_second, is_skipped, executed, run,
}
use burmilla_os.Respawn.Limit.{execute_limit}
use burmilla_os.Respawn.Waiting.{run_returns_iff}

abbrev crash : ℕ → Exit
crash now = record { running = true; now = now }

abbrev ten : List Exit
ten =
    crash 1
    ∷ crash 2
    ∷ crash 3
    ∷ crash 4
    ∷ crash 5
    ∷ crash 6
    ∷ crash 7
    ∷ crash 8
    ∷ crash 9
    ∷ crash 10
    ∷ []

execute_limit_example :
    (length ten ≤ 10
      → execute (started_at 0) ten ≡ again (record { count = length ten; start = 0 }))
    × (length ten ≡ 10
        → execute (started_at 0) (ten ++ crash 11 ∷ [])
          ≡ (if leb (11 - 0) one_second then too_fast else again (started_at 11)))
execute_limit_example =
    execute_limit 0 ten (crash 11)
      (refl, (refl, (refl, (refl, (refl, (refl, (refl, (refl, (refl, (refl, tt)))))))))) refl

run_returns_iff_example :
    (run (codes "getty\n# none\nsh") (codes "sh" ∷ codes "getty" ∷ []) ≢ none)
    ↔ All (λ l. is_skipped l ≡ false) (split b'\n' (codes "getty\n# none\nsh"))
unfolding split executed is_skipped text_eq trim_space has_prefix
run_returns_iff_example =
    run_returns_iff (codes "getty\n# none\nsh") (codes "sh" ∷ codes "getty" ∷ []) refl
