-- ===== src/SystemService/Ended.antt =====
-- What `Up` of a system service has done where it ends without an error.
use burmilla_os.Base.{
  Bool, true, false, ◌||◌, not, Option, none, some, List, [], ◌∷◌, Text, text_eq, codes,
  if◌then◌else◌, Bool-cases, inl, inr, ◌≡◌, refl,
}
use burmilla_os.Base.Result.{Result, ok, failed, panicked, out_of_fuel}
use burmilla_os.SystemService.{Labels, label}
use burmilla_os.SystemService.Up.{
  Action, create_container, recreate, rename, up_container, wait_container, Ending, done, restart,
  Docker, Trace, check_reload, attempt, recreate_all, proceed, with_value, rebuild, should_rebuild,
  up,
}

abbrev pub is_up : Action → Bool
is_up up_container = true
is_up _ = false

abbrev pub has_up : List Action → Bool
has_up [] = false
has_up (a ∷ actions) = is_up a || has_up actions

-- No error: nil or ErrRestart.
abbrev pub has_ended : Ending → Bool
has_ended done = true
has_ended restart = true
has_ended _ = false

abbrev pub is_create_only : Labels → Bool
is_create_only labels = text_eq (label (codes "io.rancher.os.createonly") labels) (codes "true")

module _ (docker : Docker) (name : Text) (labels : Labels) where
  abbrev pub IsRight : Trace → Type 0
  IsRight t =
      has_ended t.1 ≡ true
      → (t.1 ≡ check_reload docker name labels) × (has_up t.0 ≡ not (is_create_only labels))

  attempt-IsRight :
      (a : Action) (t : Trace)
      → is_up a ≡ false
      → IsRight t
      → IsRight (attempt docker name labels a t)
  unfolding attempt
  attempt-IsRight a t n h = go (docker.fails a) refl
    where
      go : (o : Option Text) → docker.fails a ≡ o → IsRight (attempt docker name labels a t)
      go none q = rw (q, attempt) (λ e. ((h e).0, rw n (h e).1))
      go (some f) q = rw (q, attempt) (λ e. cc)

  recreate_all-IsRight :
      (cs : List Text) (t : Trace) → IsRight t → IsRight (recreate_all docker name labels cs t)
  unfolding recreate_all
  recreate_all-IsRight [] t h = h
  recreate_all-IsRight (c ∷ cs) t h =
      go (docker.fails (recreate c)) refl (recreate_all-IsRight cs t h)
    where
      go :
          (o : Option Text)
          → docker.fails (recreate c) ≡ o
          → IsRight (recreate_all docker name labels cs t)
          → IsRight (recreate_all docker name labels (c ∷ cs) t)
      go none q ih = rw (q, recreate_all) ih
      go (some f) q ih = elim (Bool-cases (docker.is_mount_conflict f)) [
        | inl m ↦ rw (q, m, recreate_all) ih
        | inr m ↦ rw (q, m, recreate_all) (λ e. cc)
      ]

  up_first :
      (t : Trace)
      → (has_ended t.1 ≡ true → t.1 ≡ check_reload docker name labels)
      → has_ended (attempt docker name labels up_container t).1 ≡ true
      → ((attempt docker name labels up_container t).1 ≡ check_reload docker name labels)
        × (has_up (attempt docker name labels up_container t).0 ≡ true)
  unfolding attempt
  up_first t h = go (docker.fails up_container) refl
    where
      go :
          (o : Option Text)
          → docker.fails up_container ≡ o
          → has_ended (attempt docker name labels up_container t).1 ≡ true
          → ((attempt docker name labels up_container t).1 ≡ check_reload docker name labels)
            × (has_up (attempt docker name labels up_container t).0 ≡ true)
      go none q = rw (q, attempt) (λ e. (h e, refl))
      go (some f) q = rw (q, attempt) (λ e. cc)

  waits :
      (b : Bool)
      → has_ended
          (if b
            then attempt docker name labels wait_container ([], check_reload docker name labels)
            else ([], check_reload docker name labels)).1
        ≡ true
      → (if b
          then attempt docker name labels wait_container ([], check_reload docker name labels)
          else ([], check_reload docker name labels)).1
        ≡ check_reload docker name labels
  unfolding attempt
  waits false = λ e. refl
  waits true = go (docker.fails wait_container) refl
    where
      go :
          (o : Option Text)
          → docker.fails wait_container ≡ o
          → has_ended
              (attempt docker name labels wait_container ([], check_reload docker name labels)).1
            ≡ true
          → (attempt docker name labels wait_container ([], check_reload docker name labels)).1
            ≡ check_reload docker name labels
      go none q = rw (q, attempt) (λ e. refl)
      go (some f) q = rw (q, attempt) (λ e. cc)

  proceed-IsRight : IsRight (proceed docker name labels)
  unfolding proceed
  proceed-IsRight = elim (Bool-cases (is_create_only labels)) [
    | inl c ↦ rw (c, proceed) (λ e. (refl, refl))
    | inr c ↦
        rw (c, proceed)
          (up_first _
            (waits (text_eq (label (codes "io.rancher.os.detach") labels) (codes "false"))))
  ]

  with_value-IsRight :
      {A : Type 0}
      → (r : Result A) (k : A → Trace) → ((a : A) → IsRight (k a))
      → IsRight (with_value docker name labels r k)
  unfolding with_value
  with_value-IsRight (ok a) k h = h a
  with_value-IsRight (failed f) k h = λ e. cc
  with_value-IsRight panicked k h = λ e. cc
  with_value-IsRight out_of_fuel k h = λ e. cc

  rebuild-IsRight : IsRight (rebuild docker name labels)
  unfolding rebuild
  rebuild-IsRight =
      with_value-IsRight docker.containers _
        (λ cs. recreate_all-IsRight cs _ (attempt-IsRight rename _ refl proceed-IsRight))

-- Where bringing a system service up ends without an error, it ends with the request for a restart
-- exactly if the service's label asks to reload the configuration, and the container was started
-- exactly if the service is not one that is only created.
pub up_ended :
    (docker : Docker) (name : Text) (labels : Labels)
    → has_ended (up docker name labels).1 ≡ true
    → ((up docker name labels).1 ≡ check_reload docker name labels)
      × (has_up (up docker name labels).0 ≡ not (is_create_only labels))
unfolding up
up_ended docker name labels =
    let body : IsRight docker name labels (
        attempt docker name labels create_container (
          with_value docker name labels (should_rebuild docker name labels)
            (λ b. if b then rebuild docker name labels else proceed docker name labels))) =
      attempt-IsRight docker name labels create_container _ refl (
        with_value-IsRight docker name labels (should_rebuild docker name labels) _
          (λ b. choose b)) in
    elim (Bool-cases (text_eq (label (codes "io.rancher.os.after") labels) (codes "network"))) [
      | inl q ↦ rw (q, up) body
      | inr q ↦ rw (q, up) body
    ]
  where
    choose :
        (b : Bool)
        → IsRight docker name labels
            (if b then rebuild docker name labels else proceed docker name labels)
    choose true = rebuild-IsRight docker name labels
    choose false = proceed-IsRight docker name labels
