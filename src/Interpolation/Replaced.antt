-- ===== src/Interpolation/Replaced.antt =====
-- What an interpolated configuration has at each path.
use mathlib.Core.Path.{subst}
use burmilla_os.Base.{
  ℕ, zero, suc, ◌≡◌, refl, Option, none, some, List, [], ◌∷◌, Text, text_eq, Bool-cases, inl, inr,
}
use burmilla_os.Config.Value.{
  Value, text, scalar, items, object, Items, nil, cons, Fields, end, field, lookup,
}
use burmilla_os.Interpolation.{LineResult, done, invalid, panic, out_of_fuel, parse_line}
use burmilla_os.Interpolation.Values.{
  Interpolated, interpolated, invalid_format, failed_line, then_interpolate, of_line, parse_config,
  parse_fields, parse_items,
}

-- A chain that has a result has one at each part.
then_done :
    {A B : Type 0} (r : Interpolated A) (f : A → Interpolated B) {b : B}
    → then_interpolate r f ≡ interpolated b
    → (a : A) × (r ≡ interpolated a) × (f a ≡ interpolated b)
then_done (interpolated a) f h = (a, refl, h)
then_done (invalid_format s) f h = cc
then_done (failed_line s) f h = cc

of_line_done :
    (r : LineResult) (s : Text) {w : Value}
    → of_line r s ≡ interpolated w
    → (t : Text) × (r ≡ done t) × (text t ≡ w)
unfolding of_line
of_line_done (done t) s h = (t, refl, cc h)
of_line_done invalid s h = cc
of_line_done panic s h = cc
of_line_done out_of_fuel s h = cc

-- The element of a list at a position.
abbrev pub item : ℕ → Items → Option Value
item i nil = none
item zero (cons v vs) = some v
item (suc i) (cons v vs) = item i vs

-- A step into a map or into a list.
pub data Place : Type 0 where
  key : Text → Place
  index : ℕ → Place

abbrev pub enter : Place → Value → Option Value
enter (key k) (object m) = lookup k m
enter (index i) (items vs) = item i vs
enter place _ = none

abbrev pub follow : Option Value → (Value → Option Value) → Option Value
follow none f = none
follow (some v) f = f v

-- The value at a path of keys and positions.
abbrev pub reach : List Place → Value → Option Value
reach [] v = some v
reach (place ∷ p) v = follow (enter place v) (reach p)

module _ (mapping : Text → Text) where
  -- A text has become what its line is replaced by; other leaves, and what is a list or a map, are so
  -- in both configurations.
  abbrev pub Corresponds : Option Value → Option Value → Type 0
  Corresponds none none = Unit
  Corresponds (some (text s)) (some (text t)) = parse_line mapping s ≡ done t
  Corresponds (some (scalar a)) (some (scalar b)) = a ≡ b
  Corresponds (some (items vs)) (some (items ws)) = Unit
  Corresponds (some (object m)) (some (object n)) = Unit
  Corresponds _ _ = ⊥

  -- Both have a value, and the second one is what the first one is interpolated to.
  abbrev Becomes : Option Value → Option Value → Type 0
  Becomes none none = Unit
  Becomes (some v) (some w) = parse_config mapping v ≡ interpolated w
  Becomes _ _ = ⊥

  lookup-parse_fields :
      (k : Text) (m n : Fields)
      → parse_fields mapping m ≡ interpolated n
      → Becomes (lookup k m) (lookup k n)
  unfolding parse_fields lookup
  lookup-parse_fields k end n h =
      let eq : end ≡ n = cc h in subst (λ l. Becomes none (lookup k l)) eq tt
  lookup-parse_fields k (field j u m) n h =
      let (w, e, h') = then_done (parse_config mapping u) _ h in
      let (n', e', q) = then_done (parse_fields mapping m) _ h' in
      let eq : field j w n' ≡ n = cc q in
      subst (λ l. Becomes (lookup k (field j u m)) (lookup k l)) eq
        (elim (Bool-cases (text_eq j k)) [
          | inl b ↦ rw b e
          | inr b ↦ rw b (lookup-parse_fields k m n' e')
        ])

  item-parse_items :
      (i : ℕ) (vs ws : Items)
      → parse_items mapping vs ≡ interpolated ws
      → Becomes (item i vs) (item i ws)
  unfolding parse_items
  item-parse_items i nil ws h =
      let eq : nil ≡ ws = cc h in subst (λ l. Becomes none (item i l)) eq tt
  item-parse_items i (cons v vs) ws h =
      let (w, e, h') = then_done (parse_config mapping v) _ h in
      let (ws', e', q) = then_done (parse_items mapping vs) _ h' in
      let eq : cons w ws' ≡ ws = cc q in
      subst (λ l. Becomes (item i (cons v vs)) (item i l)) eq
        (go w ws' i e (λ j. item-parse_items j vs ws' e'))
    where
      go :
          (w : Value) (ws' : Items) (i : ℕ)
          → parse_config mapping v ≡ interpolated w
          → ((j : ℕ) → Becomes (item j vs) (item j ws'))
          → Becomes (item i (cons v vs)) (item i (cons w ws'))
      go w ws' zero e rest = e
      go w ws' (suc j) e rest = rest j

  enter-parse_config :
      (place : Place) (v w : Value)
      → parse_config mapping v ≡ interpolated w
      → Becomes (enter place v) (enter place w)
  unfolding parse_config
  enter-parse_config place (text s) w h =
      let (t, e, q) = of_line_done (parse_line mapping s) s h in
      subst (λ u. Becomes (enter place (text s)) (enter place u)) q (none_in place s t)
    where
      none_in : (place : Place) (s t : Text) → Becomes (enter place (text s)) (enter place (text t))
      none_in (key k) s t = tt
      none_in (index i) s t = tt
  enter-parse_config place (scalar s) w h =
      let q : scalar s ≡ w = cc h in
      subst (λ u. Becomes (enter place (scalar s)) (enter place u)) q (none_in place)
    where
      none_in : (place : Place) → Becomes (enter place (scalar s)) (enter place (scalar s))
      none_in (key k) = tt
      none_in (index i) = tt
  enter-parse_config (key k) (items vs) w h =
      let (ws, e, q) = then_done (parse_items mapping vs) _ h in
      let eq : items ws ≡ w = cc q in subst (λ u. Becomes none (enter (key k) u)) eq tt
  enter-parse_config (index i) (items vs) w h =
      let (ws, e, q) = then_done (parse_items mapping vs) _ h in
      let eq : items ws ≡ w = cc q in
      subst (λ u. Becomes (item i vs) (enter (index i) u)) eq (item-parse_items i vs ws e)
  enter-parse_config (key k) (object m) w h =
      let (n, e, q) = then_done (parse_fields mapping m) _ h in
      let eq : object n ≡ w = cc q in
      subst (λ u. Becomes (lookup k m) (enter (key k) u)) eq (lookup-parse_fields k m n e)
  enter-parse_config (index i) (object m) w h =
      let (n, e, q) = then_done (parse_fields mapping m) _ h in
      let eq : object n ≡ w = cc q in subst (λ u. Becomes none (enter (index i) u)) eq tt

  same_kind :
      (v w : Value) → parse_config mapping v ≡ interpolated w → Corresponds (some v) (some w)
  unfolding parse_config
  same_kind (text s) w h =
      let (t, e, q) = of_line_done (parse_line mapping s) s h in
      subst (λ u. Corresponds (some (text s)) (some u)) q e
  same_kind (scalar s) w h =
      let q : scalar s ≡ w = cc h in subst (λ u. Corresponds (some (scalar s)) (some u)) q refl
  same_kind (items vs) w h =
      let (ws, e, q) = then_done (parse_items mapping vs) _ h in
      let eq : items ws ≡ w = cc q in subst (λ u. Corresponds (some (items vs)) (some u)) eq tt
  same_kind (object m) w h =
      let (n, e, q) = then_done (parse_fields mapping m) _ h in
      let eq : object n ≡ w = cc q in subst (λ u. Corresponds (some (object m)) (some u)) eq tt

  -- If interpolating a configuration succeeds, then at every path of keys and positions in lists the
  -- result has a value exactly where the configuration has one: for a text, which was a valid line, the
  -- text that the line is replaced by, for another leaf the same leaf, and for a list or a map a list or
  -- a map.
  pub reach-parse_config :
      (p : List Place) (v w : Value)
      → parse_config mapping v ≡ interpolated w
      → Corresponds (reach p v) (reach p w)
  reach-parse_config [] v w h = same_kind v w h
  reach-parse_config (place ∷ p) v w h =
      further (enter place v) (enter place w) (reach-parse_config p)
        (enter-parse_config place v w h)
    where
      further :
          (a b : Option Value)
          → ((v w : Value)
              → parse_config mapping v ≡ interpolated w
              → Corresponds (reach p v) (reach p w))
          → Becomes a b
          → Corresponds (follow a (reach p)) (follow b (reach p))
      further none none rest e = tt
      further (some v) (some w) rest e = rest v w e
      further none (some w) rest e = absurd e
      further (some v) none rest e = absurd e
