-- ===== src/Backoff/Examples.antt =====
-- The default backoff.
use burmilla_os.Base.{◌≡◌, refl, [], ◌∷◌, true, false}
use burmilla_os.Backoff.{Backoff, backoff}

abbrev unset : Backoff
unset = record { start_millis = 0; max_interval_millis = 0; max_millis = 0 }

backoff_runs : backoff unset (0 ∷ 300001 ∷ []) ≡ (true ∷ []) ∷ (false ∷ true ∷ []) ∷ []
unfolding backoff
backoff_runs = refl
