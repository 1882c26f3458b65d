-- ===== src/Respawn/Limit.antt =====
-- When a process is given up.
use burmilla_os.Base.{
  sym, append-nil, ℕ, suc, ◌+◌, ◌-◌, ◌≤◌, ◌<◌, ◌≡◌, ◌∙◌, true, List, [], ◌∷◌, ◌++◌, All, arith,
  length, refl, leb, ap, if◌then◌else◌,
}
use burmilla_os.Respawn.{Loop, Exit, again, too_fast, after_exit, execute, started_at, one_second}

-- The process ended while the flag `running` was set.
abbrev pub IsRunning : Exit → Type 0
IsRunning e = e.running ≡ true

counted :
    (l : Loop) (e : Exit)
    → IsRunning e
    → l.count < 10
    → after_exit l e ≡ again (record l { count = l.count + 1 })
unfolding after_exit
counted l e h lt = ground arith

after_count :
    (l : Loop) (n : ℕ)
    → again (record { count = l.count + 1 + n; start = l.start })
      ≡ again (record { count = l.count + suc n; start = l.start })
after_count l n = ground arith

-- Ten ends and fewer never stop the loop, whatever their times.
execute_patient :
    (l : Loop) (exits : List Exit) (rest : List Exit)
    → All IsRunning exits
    → l.count + length exits ≤ 10
    → execute l (exits ++ rest)
      ≡ execute (record { count = l.count + length exits; start = l.start }) rest
unfolding execute
execute_patient l [] rest h fits =
    ap (λ n. execute (record { count = n; start = l.start }) rest) (omega arith)
execute_patient l (e ∷ exits) rest (he, h) fits =
    rw (counted l e he (omega arith), execute)
      (execute_patient (record l { count = l.count + 1 }) exits rest h (omega arith)
        ∙ ap (λ n. execute (record { count = n; start = l.start }) rest) (omega arith))

eleventh :
    (l : Loop) (e : Exit)
    → IsRunning e
    → l.count ≡ 10
    → after_exit l e
      ≡ (if leb (e.now - l.start) one_second then too_fast else again (started_at e.now))
unfolding after_exit
eleventh l e h c = ground arith

execute_none : (l : Loop) → execute l [] ≡ again l
unfolding execute
execute_none l = refl

execute_one : (l : Loop) (e : Exit) → execute l (e ∷ []) ≡ after_exit l e
unfolding execute
execute_one l e = ground arith

-- While the flag `running` is set, up to ten ends of a process never stop its loop, whatever their
-- times; the eleventh gives the process up, if it comes within a second of the start of the count,
-- and else starts a new count.
pub execute_limit :
    (start : ℕ) (exits : List Exit) (last : Exit)
    → All IsRunning exits
    → IsRunning last
    → (length exits ≤ 10
        → execute (started_at start) exits ≡ again (record { count = length exits; start = start }))
      × (length exits ≡ 10
          → execute (started_at start) (exits ++ last ∷ [])
            ≡ (if leb (last.now - start) one_second then too_fast else again (started_at last.now)))
execute_limit start exits last h hl = (up_to_ten, at_eleven)
  where
    up_to_ten :
        length exits ≤ 10
        → execute (started_at start) exits ≡ again (record { count = length exits; start = start })
    up_to_ten fits =
        sym (ap (execute (started_at start)) (append-nil exits))
        ∙ execute_patient (started_at start) exits [] h (omega arith)
        ∙ execute_none (record { count = 0 + length exits; start = start })
        ∙ ap (λ n. again (record { count = n; start = start })) (omega arith)

    at_eleven :
        length exits ≡ 10
        → execute (started_at start) (exits ++ last ∷ [])
          ≡ (if leb (last.now - start) one_second then too_fast else again (started_at last.now))
    at_eleven e =
        execute_patient (started_at start) exits (last ∷ []) h (omega arith)
        ∙ execute_one _ last
        ∙ eleventh (record { count = 0 + length exits; start = start }) last hl (omega arith)
