-- ===== src/SystemService/Up.antt =====
-- `shouldRebuild`, `Up` and `checkReload` of pkg/docker/service.go. The calls of Docker are the actions
-- of a trace, each with the error that it gives.
use burmilla_os.Base.{
  Bool, true, false, ◌&&◌, ◌||◌, not, Option, none, some, List, [], ◌∷◌, Text, text_eq, codes,
  if◌then◌else◌,
}
use burmilla_os.Base.Result.{Result, ok, failed, panicked, out_of_fuel, ◌>>=◌}
use burmilla_os.SystemService.{Labels, label}

pub data Action : Type 0 where
  wait_network : Action
  create_container : Action
  recreate : Text → Action
  rename : Action
  up_container : Action
  wait_container : Action

-- How `Up` ends: nil, ErrRestart, another error, or a panic.
pub data Ending : Type 0 where
  done : Ending
  restart : Ending
  error : Text → Ending
  panic : Ending

-- The answers of Docker: the containers of the service, whether one is out of sync with the image, the
-- name and the labels of the first one (`getContainer`), the error of an action, and what is an
-- ErrMountNameConflict. `force_console_rebuild` and `reset_force` are the setting and its reset.
pub record Docker : Type 0 where
  pub containers : Result (List Text)
  pub out_of_sync : Text → Result Bool
  pub first_container : Result (Text × Labels)
  pub fails : Action → Option Text
  pub is_mount_conflict : Text → Bool
  pub force_console_rebuild : Bool
  pub reset_force : Option Text

-- The actions before an ending.
abbrev pub Trace : Type 0
Trace = List Action × Ending

module _ (docker : Docker) (name : Text) (labels : Labels) where
  -- One round of the loop of `shouldRebuild`, from the labels of the container.
  unfoldable pub rebuilds : Bool → Labels → Result Bool
  unfolding label
  rebuilds out_of_sync old =
      let old_rebuild = label (codes "io.docker.compose.rebuild") old in
      let new_rebuild = label (codes "io.docker.compose.rebuild") labels in
      if text_eq new_rebuild (codes "always")
      then ok true
      else if text_eq name (codes "console") && docker.force_console_rebuild
      then (elim docker.reset_force [ some e ↦ failed e | none ↦ ok true ])
      else if not out_of_sync
      then ok false
      else if text_eq name (codes "console")
      then ok (
          not (
            text_eq (label (codes "io.rancher.os.console") labels)
              (label (codes "io.rancher.os.console") old)))
      else ok (not (text_eq new_rebuild old_rebuild) || not (text_eq old_rebuild (codes "false")))

  -- containerInfo.Name[1:] panics on an empty name.
  unfoldable pub inspect : Bool → Text × Labels → Result Bool
  unfolding rebuilds
  inspect out_of_sync ([], old) = panicked
  inspect out_of_sync (c ∷ container, old) = rebuilds out_of_sync old

  unfoldable pub rebuild_any : List Text → Result Bool
  unfolding inspect
  rebuild_any [] = ok false
  rebuild_any (c ∷ cs) =
      let rest = rebuild_any cs in
      docker.out_of_sync c >>= λ out_of_sync. docker.first_container >>= λ container.
      inspect out_of_sync container >>= λ b. if b then ok true else rest

  unfoldable pub should_rebuild : Result Bool
  unfolding rebuild_any
  should_rebuild = docker.containers >>= λ cs. rebuild_any cs

  unfoldable pub check_reload : Ending
  unfolding label
  check_reload =
      if text_eq (label (codes "io.rancher.os.reloadconfig") labels) (codes "true")
      then restart
      else done

  -- An action whose error ends `Up`.
  unfoldable pub attempt : Action → Trace → Trace
  attempt a rest = elim (docker.fails a) [
    | some e ↦ (a ∷ [], error e)
    | none ↦ (a ∷ rest.0, rest.1)
  ]

  unfoldable pub recreate_all : List Text → Trace → Trace
  recreate_all [] rest = rest
  recreate_all (c ∷ cs) rest =
      let others = recreate_all cs rest in
      elim (docker.fails (recreate c)) [
        | some e ↦
            if docker.is_mount_conflict e
            then (recreate c ∷ others.0, others.1)
            else (recreate c ∷ [], error e)
        | none ↦ (recreate c ∷ others.0, others.1)
      ]

  unfoldable pub proceed : Trace
  unfolding label attempt check_reload
  proceed =
      if text_eq (label (codes "io.rancher.os.createonly") labels) (codes "true")
      then ([], check_reload)
      else attempt up_container (
          if text_eq (label (codes "io.rancher.os.detach") labels) (codes "false")
          then attempt wait_container ([], check_reload)
          else ([], check_reload))

  -- Either goes on with the value or ends.
  unfoldable pub with_value : {A : Type 0} → Result A → (A → Trace) → Trace
  with_value (ok a) k = k a
  with_value (failed e) k = ([], error e)
  with_value panicked k = ([], panic)
  with_value out_of_fuel k = ([], panic)

  unfoldable pub rebuild : Trace
  unfolding with_value recreate_all attempt proceed
  rebuild = with_value docker.containers (λ cs. recreate_all cs (attempt rename proceed))

  -- The error of waiting for the network is only logged.
  unfoldable pub up : Trace
  unfolding attempt with_value should_rebuild rebuild proceed label
  up =
      let body =
        attempt create_container
          (with_value should_rebuild (λ b. if b then rebuild else proceed)) in
      if text_eq (label (codes "io.rancher.os.after") labels) (codes "network")
      then (wait_network ∷ body.0, body.1)
      else body
