-- ===== src/CoreServices/Undone.antt =====
-- What `LoadSpecialService` leaves of a service that cannot be loaded.
use burmilla_os.Base.{
  Bool, true, Option, none, some, ◌∷◌, Text, text_eq, text_eq_iff, ◌≡◌, refl, ap, ◌∙◌, sym,
  if◌then◌else◌, Bool-cases, inl, inr, ℕ,
}
use burmilla_os.Base.Result.{Result, ok, failed, panicked, out_of_fuel, ◌>>=◌}
use burmilla_os.CoreServices.Maps.{Map, get, add, get-add}
use burmilla_os.CoreServices.Cache.{Cache}
use burmilla_os.CoreServices.Resources.{Host}
use burmilla_os.CoreServices.Projects.{Project, Merger}
use burmilla_os.CoreServices.Loading.{
  Settings, Outcome, or_same, load_service, roll_back, load_special_service, service_bytes,
  load_bytes,
}

-- What the name has behind the failure: the configuration from before, or else the placeholder.
abbrev pub restored : {S : Type 0} → S → Text → Text → Option S → Option S → Option S
restored empty name n none now = if text_eq name n then some empty else now
restored empty name n (some previous) now = now

module _ {S V N : Type 0} (host : Host) (merge : Merger S V N) where
  or_same-failed :
      (p p' : Project S V N) (r : Result (Project S V N)) (e : Text)
      → or_same host merge p r ≡ (p', failed e)
      → p' ≡ p
  unfolding or_same
  or_same-failed p p' (ok q) e h = cc
  or_same-failed p p' (failed d) e h = cc
  or_same-failed p p' panicked e h = cc
  or_same-failed p p' out_of_fuel e h = cc

  load_service-failed :
      (cfg : Settings) (use_network : Bool) (service : Text) (p p' : Project S V N)
      (cache cache' : Cache) (e : Text)
      → load_service host merge cfg use_network service (p, cache) ≡ ((p', cache'), failed e)
      → p' ≡ p
  unfolding load_service
  load_service-failed cfg use_network service p p' cache cache' e h =
      or_same-failed p p'
        ((service_bytes host merge service use_network cfg.repositories cache).1 >>= λ bytes.
          load_bytes host merge bytes p)
        e (ap (λ r. (r.0.0, r.1)) h)

  put_back :
      (name n : Text) (empty previous : S) (m : Map S)
      → get name m ≡ some previous
      → get n (add name previous (add name empty m)) ≡ get n m
  put_back name n empty previous m g =
      get-add n name previous (add name empty m) ∙ elim (Bool-cases (text_eq name n)) [
        | inl q ↦ rw q (sym (ap (λ i. get i m) (sym ((text_eq_iff name n).0 q)) ∙ g))
        | inr q ↦ rw q (get-add n name empty m ∙ rw q refl)
      ]

  abbrev placed : Text → S → Project S V N → Project S V N
  placed name empty p = record p { service_configs = add name empty p.service_configs }

  roll_back-failed :
      (empty : S) (name n : Text) (previous : Option S) (p p' q : Project S V N)
      (cache cache' : Cache) (r : Outcome) (e : Text)
      → get name p.service_configs ≡ previous
      → ((d : Text) → r ≡ failed d → q ≡ placed name empty p)
      → roll_back host merge name previous ((q, cache), r) ≡ ((p', cache'), failed e)
      → (get n p'.service_configs ≡ restored empty name n previous (get n p.service_configs))
        × (p'.reload ≡ p.reload)
  unfolding roll_back
  roll_back-failed empty name n none p p' q cache cache' (failed d) e g h b =
      let same : p' ≡ placed name empty p = sym (ap (λ s. s.0.0) b) ∙ h d refl in
      (
        ap (λ r. get n r.service_configs) same ∙ get-add n name empty p.service_configs,
        ap (λ r. r.reload) same,
      )
  roll_back-failed empty name n (some previous) p p' q cache cache' (failed d) e g h b =
      let same : p' ≡ placed name previous (placed name empty p) =
        sym (ap (λ s. s.0.0) b) ∙ ap (placed name previous) (h d refl) in
      (
        ap (λ r. get n r.service_configs) same ∙ put_back name n empty previous p.service_configs g,
        ap (λ r. r.reload) same,
      )
  roll_back-failed empty name n none p p' q cache cache' (ok u) e g h b = absurd (cc b)
  roll_back-failed empty name n (some previous) p p' q cache cache' (ok u) e g h b = absurd (cc b)
  roll_back-failed empty name n none p p' q cache cache' panicked e g h b = absurd (cc b)
  roll_back-failed empty name n (some previous) p p' q cache cache' panicked e g h b = absurd (cc b)
  roll_back-failed empty name n none p p' q cache cache' out_of_fuel e g h b = absurd (cc b)
  roll_back-failed empty name n (some previous) p p' q cache cache' out_of_fuel e g h b =
      absurd (cc b)

-- If a console or an engine cannot be loaded, the project has under every name what it had before,
-- except that the name of the service keeps the empty configuration if it had none; and no further
-- service is to be reloaded.
pub load_special_service-failed :
    {S V N : Type 0} (host : Host) (merge : Merger S V N) (empty : S) (cfg : Settings) (name : Text)
    (c : ℕ) (value : Text) (p p' : Project S V N) (cache cache' : Cache) (e n : Text)
    → load_special_service host merge empty cfg name (c ∷ value) (p, cache)
      ≡ ((p', cache'), failed e)
    → (get n p'.service_configs
        ≡ restored empty name n (get name p.service_configs) (get n p.service_configs))
      × (p'.reload ≡ p.reload)
unfolding load_special_service
load_special_service-failed host merge empty cfg name c value p p' cache cache' e n h =
    let before = placed host merge name empty p in
    let r = load_service host merge cfg true (c ∷ value) (before, cache) in
    roll_back-failed host merge empty name n (get name p.service_configs) p p' r.0.0 r.0.1 cache'
      r.1 e refl
      (λ d q.
        load_service-failed host merge cfg true (c ∷ value) before r.0.0 cache r.0.1 d
          (ap (λ o. (r.0, o)) q))
      h
