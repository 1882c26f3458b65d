-- ===== src/CoreServices/Added.antt =====
-- What `addServices` adds to a project: the services that are new or have changed.
use burmilla_os.Base.{
  false, Option, none, some, [], ◌∷◌, Text, text_eq, text_eq_iff, ◌≡◌, refl, ◌∙◌, arith,
  if◌then◌else◌, Bool-cases, inl, inr, text_eq_refl, ap, true, sym,
}
use burmilla_os.CoreServices.Maps.{Map, get, has, add, get-add, IsDistinct}
use burmilla_os.CoreServices.Projects.{Project, add_config, add_configs}
use burmilla_os.CoreServices.Reload.{Enabled, is_current, add_services}

-- The services that are new or whose hash has changed.
abbrev pub changed : {S : Type 0} → (Text → S → Text) → Enabled → Map S → Map S
changed hash enabled [] = []
changed hash enabled ((name, config) ∷ configs) =
    if is_current hash name config enabled
    then changed hash enabled configs
    else (name, config) ∷ changed hash enabled configs

-- The first value, or else the second one.
abbrev pub or_old : {A : Type 0} → Option A → Option A → Option A
or_old (some a) old = some a
or_old none old = old

module _ {S : Type 0} (hash : Text → S → Text) where
  is_current-add :
      (name h j : Text) (config : S) (enabled : Enabled)
      → text_eq name j ≡ false
      → is_current hash j config (add name h enabled) ≡ is_current hash j config enabled
  unfolding is_current
  is_current-add name h j config enabled f = rw (is_current, get-add j name h enabled, f) refl

  pub has-other :
      (name j : Text) (config : S) (configs : Map S)
      → has name ((j, config) ∷ configs) ≡ false
      → (text_eq name j ≡ false) × (has name configs ≡ false)
  unfolding has get
  has-other name j config configs f =
      (ground (arith, text_eq_iff name j, text_eq_iff j name), ground (arith, f))

  -- Adding another name leaves what is known of the rest.
  pub changed-add :
      (name h : Text) (enabled : Enabled) (configs : Map S)
      → has name configs ≡ false
      → changed hash (add name h enabled) configs ≡ changed hash enabled configs
  changed-add name h enabled [] f = refl
  changed-add name h enabled ((j, config) ∷ configs) f =
      let (other, rest) = has-other name j config configs f in
      rw (is_current-add name h j config enabled other, changed-add name h enabled configs rest)
        refl

  -- Hashes of all the services.
  abbrev pub with_hashes : Map S → Enabled → Enabled
  with_hashes [] enabled = enabled
  with_hashes ((name, config) ∷ configs) enabled =
      with_hashes configs (add name (hash name config) enabled)

  module _ {V N : Type 0} where
    pub add_services-changed :
        (configs : Map S) (enabled : Enabled) (p : Project S V N)
        → IsDistinct configs
        → add_services hash configs (enabled, p) ≡ (
          with_hashes (changed hash enabled configs) enabled,
          add_configs (changed hash enabled configs) p,
        )
    unfolding add_services add_configs
    add_services-changed [] enabled p h = refl
    add_services-changed ((name, config) ∷ configs) enabled p (f, h) =
        elim (Bool-cases (is_current hash name config enabled)) [
          | inl q ↦ rw (q, add_services, changed) (add_services-changed configs enabled p h)
          | inr q ↦
              rw (q, add_services, changed)
                (add_services-changed configs (add name (hash name config) enabled)
                    (add_config name config p) h
                  ∙ rw (changed-add name (hash name config) enabled configs f) refl)
        ]

  pub has-changed :
      (name : Text) (enabled : Enabled) (configs : Map S)
      → has name configs ≡ false
      → has name (changed hash enabled configs) ≡ false
  unfolding has get
  has-changed name enabled [] f = f
  has-changed name enabled ((j, config) ∷ configs) f =
      let (other, rest) = has-other name j config configs f in
      let back : text_eq j name ≡ false = ground (arith, text_eq_iff name j, text_eq_iff j name) in
      elim (Bool-cases (is_current hash j config enabled)) [
        | inl q ↦ rw q (has-changed name enabled configs rest)
        | inr q ↦ rw (q, has, get, back) (has-changed name enabled configs rest)
      ]

  pub get-with_hashes :
      (name : Text) (configs : Map S) (enabled : Enabled)
      → has name configs ≡ false
      → get name (with_hashes configs enabled) ≡ get name enabled
  get-with_hashes name [] enabled f = refl
  get-with_hashes name ((j, config) ∷ configs) enabled f =
      let (other, rest) = has-other name j config configs f in
      let back : text_eq j name ≡ false = ground (arith, text_eq_iff name j, text_eq_iff j name) in
      get-with_hashes name configs (add j (hash j config) enabled) rest
      ∙ rw (get-add name j (hash j config) enabled, back) refl

  is_current-known :
      (name : Text) (config : S) (enabled : Enabled)
      → get name enabled ≡ some (hash name config)
      → is_current hash name config enabled ≡ true
  unfolding is_current
  is_current-known name config enabled e = rw (e, is_current) (text_eq_refl (hash name config))

  pub is_current-same :
      (name : Text) (config : S) (a b : Enabled)
      → get name a ≡ get name b
      → is_current hash name config a ≡ is_current hash name config b
  unfolding is_current
  is_current-same name config a b e = rw (e, is_current) refl

  pub changed_current :
      (name : Text) (config : S) (configs : Map S) (enabled : Enabled)
      → is_current hash name config enabled ≡ true
      → changed hash enabled ((name, config) ∷ configs) ≡ changed hash enabled configs
  changed_current name config configs enabled q = rw q refl

  pub changed_stale :
      (name : Text) (config : S) (configs : Map S) (enabled : Enabled)
      → is_current hash name config enabled ≡ false
      → changed hash enabled ((name, config) ∷ configs)
        ≡ (name, config) ∷ changed hash enabled configs
  changed_stale name config configs enabled q = rw q refl

  pub changed_none :
      (configs : Map S) (enabled : Enabled)
      → IsDistinct configs
      → changed hash (with_hashes (changed hash enabled configs) enabled) configs ≡ []
  changed_none [] enabled h = refl
  changed_none ((name, config) ∷ configs) enabled (f, h) =
      elim (Bool-cases (is_current hash name config enabled)) [
        | inl q ↦
            let still = with_hashes (changed hash enabled configs) enabled in
            ap (λ c. changed hash (with_hashes c enabled) ((name, config) ∷ configs))
              (changed_current name config configs enabled q)
            ∙ changed_current name config configs still (
                is_current-same name config still enabled (
                  get-with_hashes name (changed hash enabled configs) enabled
                    (has-changed name enabled configs f))
                ∙ q)
            ∙ changed_none configs enabled h
        | inr q ↦
            let next = add name (hash name config) enabled in
            let rest = changed hash enabled configs in
            ap (λ c. changed hash (with_hashes c enabled) ((name, config) ∷ configs))
              (changed_stale name config configs enabled q)
            ∙ changed_current name config configs (with_hashes rest next) (
                is_current-known name config (with_hashes rest next) (
                  get-with_hashes name rest next (has-changed name enabled configs f)
                  ∙ rw (get-add name name (hash name config) enabled, text_eq_refl name) refl))
            ∙ ap (λ c. changed hash (with_hashes c next) configs)
                (sym (changed-add name (hash name config) enabled configs f))
            ∙ changed_none configs next h
      ]
