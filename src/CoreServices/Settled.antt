-- ===== src/CoreServices/Settled.antt =====
-- Which configurations and hashes there are behind `addServices`.
use burmilla_os.Base.{
  true, false, Option, none, some, [], ◌∷◌, Text, text_eq, text_eq_iff, ◌≡◌, refl, ap, ◌∙◌, sym,
  arith, if◌then◌else◌, Bool-cases, inl, inr,
}
use burmilla_os.CoreServices.Maps.{Map, get, has, add, get-add, IsDistinct}
use burmilla_os.CoreServices.Projects.{Project, add_config, add_configs}
use burmilla_os.CoreServices.Reload.{Enabled, is_current, add_services}
use burmilla_os.CoreServices.Added.{
  changed, changed_current, changed_stale, with_hashes, is_current-same, add_services-changed,
  changed-add,
}

-- The configuration of a name: the new one if there is one with another hash, and else the old one.
abbrev pub newer :
    {S : Type 0} → (Text → S → Text) → Text → Enabled → Option S → Option S → Option S
newer hash name enabled none old = old
newer hash name enabled (some config) old =
    if is_current hash name config enabled then old else some config

abbrev pub hash_of : {S : Type 0} → (Text → S → Text) → Text → Option S → Option Text → Option Text
hash_of hash name none old = old
hash_of hash name (some config) old = some (hash name config)

module _ {S : Type 0} (hash : Text → S → Text) where
  get-none : (name : Text) (m : Map S) → has name m ≡ false → get name m ≡ none
  unfolding has
  get-none name m f = ground (arith, f)

  newer-current :
      (name : Text) (config : S) (enabled : Enabled) (old : Option S)
      → is_current hash name config enabled ≡ true
      → newer hash name enabled (some config) old ≡ old
  newer-current name config enabled old q = rw q refl

  newer-stale :
      (name : Text) (config : S) (enabled : Enabled) (old : Option S)
      → is_current hash name config enabled ≡ false
      → newer hash name enabled (some config) old ≡ some config
  newer-stale name config enabled old q = rw q refl

  -- The first entry is that of its name, and leaves the other names alone.
  newer-first :
      (name j : Text) (config : S) (configs : Map S) (enabled : Enabled) (old now : Option S)
      → has j configs ≡ false
      → (text_eq j name ≡ true → newer hash j enabled (some config) old ≡ now)
      → (text_eq j name ≡ false → old ≡ now)
      → newer hash name enabled (get name configs) now
        ≡ newer hash name enabled (get name ((j, config) ∷ configs)) old
  unfolding get
  newer-first name j config configs enabled old now f same other =
      elim (Bool-cases (text_eq j name)) [
        | inl q ↦
            let e = (text_eq_iff j name).0 q in
            rw (q, get, get-none name configs (rw (sym e) f))
              (sym (same q) ∙ ap (λ i. newer hash i enabled (some config) old) e)
        | inr q ↦ rw (q, get, other q) refl
      ]

  module _ {V N : Type 0} where
    get-add_configs :
        (name : Text) (configs : Map S) (enabled : Enabled) (p : Project S V N)
        → IsDistinct configs
        → get name (add_configs (changed hash enabled configs) p).service_configs
          ≡ newer hash name enabled (get name configs) (get name p.service_configs)
    unfolding add_configs add_config get
    get-add_configs name [] enabled p h = refl
    get-add_configs name ((j, config) ∷ configs) enabled p (f, h) =
        elim (Bool-cases (is_current hash j config enabled)) [
          | inl q ↦
              ap (λ c. get name (add_configs c p).service_configs)
                (changed_current hash j config configs enabled q)
              ∙ get-add_configs name configs enabled p h
              ∙ newer-first name j config configs enabled (get name p.service_configs)
                  (get name p.service_configs) f
                  (λ e. newer-current j config enabled (get name p.service_configs) q) (λ e. refl)
          | inr q ↦
              ap (λ c. get name (add_configs c p).service_configs)
                (changed_stale hash j config configs enabled q)
              ∙ get-add_configs name configs enabled (add_config j config p) h
              ∙ newer-first name j config configs enabled (get name p.service_configs)
                  (get name (add j config p.service_configs)) f
                  (λ e.
                    newer-stale j config enabled (get name p.service_configs) q
                    ∙ sym (get-add name j config p.service_configs ∙ rw e refl))
                  (λ e. sym (get-add name j config p.service_configs ∙ rw e refl))
        ]

  hash-first :
      (name j : Text) (config : S) (configs : Map S) (old now : Option Text)
      → has j configs ≡ false
      → (text_eq j name ≡ true → some (hash j config) ≡ now)
      → (text_eq j name ≡ false → old ≡ now)
      → hash_of hash name (get name configs) now
        ≡ hash_of hash name (get name ((j, config) ∷ configs)) old
  unfolding get
  hash-first name j config configs old now f same other = elim (Bool-cases (text_eq j name)) [
    | inl q ↦
        let e = (text_eq_iff j name).0 q in
        rw (q, get, get-none name configs (rw (sym e) f))
          (sym (same q) ∙ ap (λ i. some (hash i config)) e)
    | inr q ↦ rw (q, get, other q) refl
  ]

  current-hash :
      (j : Text) (config : S) (enabled : Enabled)
      → is_current hash j config enabled ≡ true
      → some (hash j config) ≡ get j enabled
  unfolding is_current
  current-hash j config enabled q = go (get j enabled) refl
    where
      go : (known : Option Text) → get j enabled ≡ known → some (hash j config) ≡ known
      go none e = absurd (cc (is_current-same hash j config enabled [] e, q))
      go (some h) e =
          ap some (sym ((text_eq_iff h (hash j config)).0 (sym (rw (e, is_current) refl) ∙ q)))

  get-hashes :
      (name : Text) (configs : Map S) (enabled : Enabled)
      → IsDistinct configs
      → get name (with_hashes hash (changed hash enabled configs) enabled)
        ≡ hash_of hash name (get name configs) (get name enabled)
  unfolding get
  get-hashes name [] enabled h = refl
  get-hashes name ((j, config) ∷ configs) enabled (f, h) =
      elim (Bool-cases (is_current hash j config enabled)) [
        | inl q ↦
            ap (λ c. get name (with_hashes hash c enabled))
              (changed_current hash j config configs enabled q)
            ∙ get-hashes name configs enabled h
            ∙ hash-first name j config configs (get name enabled) (get name enabled) f
                (λ e.
                  current-hash j config enabled q
                  ∙ ap (λ i. get i enabled) ((text_eq_iff j name).0 e))
                (λ e. refl)
        | inr q ↦
            let next = add j (hash j config) enabled in
            ap (λ c. get name (with_hashes hash c enabled))
              (changed_stale hash j config configs enabled q)
            ∙ ap (λ c. get name (with_hashes hash c next))
                (sym (changed-add hash j (hash j config) enabled configs f))
            ∙ get-hashes name configs next h
            ∙ hash-first name j config configs (get name enabled) (get name next) f
                (λ e. sym (get-add name j (hash j config) enabled ∙ rw e refl))
                (λ e. sym (get-add name j (hash j config) enabled ∙ rw e refl))
      ]

-- If the names of the services are distinct, then behind adding them the project has under every name
-- the new service, unless that is the one which was there with the same hash, and every name of the
-- services has the hash of its service; the other names keep what they had.
pub get-add_services :
    {S V N : Type 0} (hash : Text → S → Text) (configs : Map S) (enabled : Enabled)
    (p : Project S V N) (name : Text)
    → IsDistinct configs
    → (get name (add_services hash configs (enabled, p)).1.service_configs
        ≡ newer hash name enabled (get name configs) (get name p.service_configs))
      × (get name (add_services hash configs (enabled, p)).0
          ≡ hash_of hash name (get name configs) (get name enabled))
get-add_services hash configs enabled p name h =
    let added = add_services-changed hash configs enabled p h in
    (
      ap (λ s. get name s.1.service_configs) added ∙ get-add_configs hash name configs enabled p h,
      ap (λ s. get name s.0) added ∙ get-hashes hash name configs enabled h,
    )
