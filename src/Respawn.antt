-- ===== src/Respawn.antt =====
-- cmd/respawn/respawn.go: the loop that restarts one process, and the main loop, which starts one
-- such loop for each line of its input and waits for their ends. Time is in nanoseconds.
pub mod Limit
pub mod Waiting
mod Examples
use mathlib.Core.Option
use burmilla_os.Base.{
  ℕ, zero, suc, ◌+◌, ◌-◌, ◌≡◌, refl, Bool, true, false, ◌&&◌, ◌||◌, not, Option, none, some, List,
  [], ◌∷◌, ◌++◌, Text, codes, length, ltb, leb, ◌==◌, text_eq, if◌then◌else◌,
}
use burmilla_os.Strings.{has_prefix, trim_space, split}

-- The variables of the loop in `execute`.
pub record Loop : Type 0 where
  pub count : ℕ
  pub start : ℕ

-- What the loop meets when its process has ended: the flag `running`, and the time.
pub record Exit : Type 0 where
  pub running : Bool
  pub now : ℕ

pub data Verdict : Type 0 where
  again : Loop → Verdict
  not_restarting : Verdict
  too_fast : Verdict

abbrev pub one_second : ℕ
one_second = 1_000_000_000

-- The part of a round behind the end of the process.
pub after_exit : Loop → Exit → Verdict
after_exit l e =
    if not e.running
    then not_restarting
    else if ltb 10 (l.count + 1)
    then (if leb (e.now - l.start) one_second
        then too_fast
        else again (record { count = 0; start = e.now }))
    else again (record l { count = l.count + 1 })

-- The loop over the ends of the process that it meets: how it ends, or that it still runs.
pub execute : Loop → List Exit → Verdict
execute l [] = again l
execute l (e ∷ exits) = elim (after_exit l e) [
  | again l' ↦ execute l' exits
  | not_restarting ↦ not_restarting
  | too_fast ↦ too_fast
]

abbrev pub started_at : ℕ → Loop
started_at now = record { count = 0; start = now }

-- strings.Index(s, "#") == 0
pub is_skipped : Text → Bool
is_skipped line = text_eq (trim_space line) [] || has_prefix (trim_space line) (codes "#")

-- The lines for which `run` starts a process.
pub executed : List Text → List Text
executed [] = []
executed (line ∷ lines) = let rest = executed lines in if is_skipped line then rest else line ∷ rest

-- The receives from the channel; `none` is a receive that waits for ever, since every sender has
-- ended.
pub receive : ℕ → List Text → Option (List Text)
receive zero sent = some []
receive (suc n) [] = none
receive (suc n) (line ∷ sent) = Option.map (λ lines. line ∷ lines) (receive n sent)

-- `run` on an input, when the processes end in the order of the second argument, which lists each
-- executed line once.
pub run : Text → List Text → Option (List Text)
unfolding receive
run input finished = receive (length (split b'\n' input)) finished
