-- ===== src/Backoff/Bounds.antt =====
-- How the sleeping times grow.
use burmilla_os.Base.{ℕ, zero, suc, ◌≤◌, arith}
use burmilla_os.Backoff.{Backoff, with_defaults, current_millis}

-- No time is longer than the longest interval, if the first one is not.
current_millis-le :
    (b : Backoff) (k : ℕ)
    → b.start_millis ≤ b.max_interval_millis
    → current_millis b k ≤ b.max_interval_millis
unfolding current_millis
current_millis-le b zero h = h
current_millis-le b (suc k) h = ground arith

-- Whatever the fields are set to, after the defaults are filled in every time but the first one is at
-- most the longest interval.
pub current_millis_later :
    (b : Backoff) (k : ℕ)
    → current_millis (with_defaults b) (suc k) ≤ (with_defaults b).max_interval_millis
unfolding current_millis
current_millis_later b k = ground arith
