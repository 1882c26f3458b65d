-- ===== src/Backoff.antt =====
-- pkg/util/backoff.go: the times for which the loop of `backoff` sleeps, and what it sends on its
-- channel. Times are in milliseconds; a sum of them stays far below the largest int.
pub mod Bounds
mod Examples
use burmilla_os.Base.{
  ℕ, zero, suc, ◌*◌, ◌≡◌, refl, Bool, true, false, ◌&&◌, List, [], ◌∷◌, ltb, ◌==◌, if◌then◌else◌,
}

pub record Backoff : Type 0 where
  pub start_millis : ℕ
  pub max_interval_millis : ℕ
  pub max_millis : ℕ

pub with_defaults : Backoff → Backoff
with_defaults b =
    if b.start_millis == 0 && b.max_interval_millis == 0
    then record { start_millis = 100; max_interval_millis = 2000; max_millis = 300000 }
    else b

-- The end of a round.
pub next_millis : Backoff → ℕ → ℕ
next_millis b current_millis =
    if ltb b.max_interval_millis (current_millis * 2)
    then b.max_interval_millis
    else current_millis * 2

-- `currentMillis` in round k, of a backoff that has its defaults.
pub current_millis : Backoff → ℕ → ℕ
unfolding next_millis
current_millis b zero = b.start_millis
current_millis b (suc k) = next_millis b (current_millis b k)

-- What a round sends, when the given time has passed since the start and `Close` is not called.
pub sends : Backoff → ℕ → List Bool
sends b elapsed = if ltb b.max_millis elapsed then false ∷ true ∷ [] else true ∷ []

-- The loop with the times that have passed at the start of each round: what it sends, in order.
pub backoff : Backoff → List ℕ → List (List Bool)
unfolding sends with_defaults
backoff b [] = []
backoff b (elapsed ∷ rest) = sends (with_defaults b) elapsed ∷ backoff b rest
