-- ===== src/CoreServices/Known.antt =====
-- Services whose hashes `addServices` has recorded, in a map that has kept them.
use burmilla_os.Base.{
  true, false, Option, none, some, [], ◌∷◌, Text, text_eq, text_eq_iff, ◌≡◌, refl, ap, ◌∙◌, sym,
  Bool-cases, inl, inr,
}
use burmilla_os.CoreServices.Maps.{Map, get, has, add, get-add, IsDistinct}
use burmilla_os.CoreServices.Projects.{Project, add_configs}
use burmilla_os.CoreServices.Reload.{Enabled, is_current, add_services}
use burmilla_os.CoreServices.Added.{
  changed, changed_current, changed_stale, with_hashes, is_current-same, add_services-changed,
  changed_none,
}

-- What is known of the names stays.
abbrev pub Kept : Enabled → Enabled → Type 0
Kept old now = (name : Text) → has name old ≡ true → get name now ≡ get name old

pub add-Kept :
    (service h : Text) (enabled : Enabled)
    → has service enabled ≡ false
    → Kept enabled (add service h enabled)
add-Kept service h enabled f name known = elim (Bool-cases (text_eq service name)) [
  | inl q ↦ absurd (cc (ap (λ i. has i enabled) ((text_eq_iff service name).0 q), f, known))
  | inr q ↦ get-add name service h enabled ∙ rw q refl
]

has-same : (name : Text) (a b : Enabled) → get name a ≡ get name b → has name a ≡ has name b
unfolding has
has-same name a b e = rw (e, has) refl

pub Kept-trans : (a b c : Enabled) → Kept a b → Kept b c → Kept a c
Kept-trans a b c ab bc name known =
    bc name (has-same name b a (ab name known) ∙ known) ∙ ab name known

module _ {S : Type 0} (hash : Text → S → Text) where
  current-has :
      (name : Text) (config : S) (enabled : Enabled)
      → is_current hash name config enabled ≡ true
      → has name enabled ≡ true
  unfolding is_current has
  current-has name config enabled q = go (get name enabled) refl
    where
      go : (o : Option Text) → get name enabled ≡ o → has name enabled ≡ true
      go none e = let t : false ≡ true = rw (e, is_current) at q in absurd (cc t)
      go (some h) e = rw (e, has) refl

  -- Services that are all current are so with more names.
  changed-Kept :
      (configs : Map S) (old now : Enabled)
      → Kept old now
      → changed hash old configs ≡ []
      → changed hash now configs ≡ []
  changed-Kept [] old now kept e = refl
  changed-Kept ((name, config) ∷ configs) old now kept e =
      elim (Bool-cases (is_current hash name config old)) [
        | inl q ↦
            changed_current hash name config configs now (
              is_current-same hash name config now old (kept name (current-has name config old q))
              ∙ q)
            ∙ changed-Kept configs old now kept
                (sym (changed_current hash name config configs old q) ∙ e)
        | inr q ↦ absurd (cc (changed_stale hash name config configs old q, e))
      ]

module _ {S V N : Type 0} (hash : Text → S → Text) where
  -- Services whose hashes are all known are not added again.
  pub add_services-known :
      (configs : Map S) (old now : Enabled) (p q : Project S V N)
      → IsDistinct configs
      → Kept (add_services hash configs (old, p)).0 now
      → add_services hash configs (now, q) ≡ (now, q)
  unfolding add_configs
  add_services-known configs old now p q distinct kept =
      let hashes = ap (λ s. s.0) (add_services-changed hash configs old p distinct) in
      let known : changed hash now configs ≡ [] =
        changed-Kept hash configs (with_hashes hash (changed hash old configs) old) now
          (λ name h. rw hashes at kept name h) (changed_none hash configs old distinct) in
      add_services-changed hash configs now q distinct
      ∙ ap (λ c. (with_hashes hash c now, add_configs c q)) known
