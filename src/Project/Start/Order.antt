-- ===== src/Project/Start/Order.antt =====
-- The order in which services are started respects their dependencies.
use burmilla_os.Base.{
  Bool, true, false, not, ◌||◌, ◌&&◌, Option, List, [], ◌∷◌, ◌++◌, Text, member, ◌≡◌, refl, arith,
  text_eq_refl, text_eq_iff,
}
use burmilla_os.Project.Start.{Relationship, State, Ignored, finish}
use burmilla_os.Project.Start.Names.{Grows, is_ignored, member-append, member_one}

-- No name is in the list twice.
abbrev pub is_distinct : List Text → Bool
is_distinct [] = true
is_distinct (x ∷ xs) = not (member x xs) && is_distinct xs

module _ (services : List Text) (dependent_services : Text → List Relationship) where
  -- The dependency of a service is not a service of the project, or started earlier, or ignored.
  abbrev pub is_settled : Text → List Text → List Ignored → Relationship → Bool
  is_settled name earlier ignored dep =
      not (member dep.target services)
      || (member dep.target earlier || is_ignored name dep.target ignored)

  abbrev pub all_settled : Text → List Text → List Ignored → List Relationship → Bool
  all_settled name earlier ignored [] = true
  all_settled name earlier ignored (dep ∷ deps) =
      is_settled name earlier ignored dep && all_settled name earlier ignored deps

  -- All dependencies of every service of the list, the latest first, are settled by those before it.
  abbrev pub is_ordered : List Ignored → List Text → Bool
  is_ordered ignored [] = true
  is_ordered ignored (x ∷ earlier) =
      all_settled x earlier ignored (dependent_services x) && is_ordered ignored earlier

  pub settled_mono :
      (name : Text) (a b : State) (dep : Relationship)
      → Grows a b
      → is_settled name a.order a.ignored dep ≡ true
      → is_settled name b.order b.ignored dep ≡ true
  settled_mono name a b dep g h = ground (arith, g.order dep.target, g.ignored name dep.target)

  pub all_settled_mono :
      (name : Text) (a b : State) (deps : List Relationship)
      → Grows a b
      → all_settled name a.order a.ignored deps ≡ true
      → all_settled name b.order b.ignored deps ≡ true
  all_settled_mono name a b [] g h = refl
  all_settled_mono name a b (dep ∷ deps) g h =
      ground (arith, settled_mono name a b dep g, all_settled_mono name a b deps g)

  all_settled_ignore :
      (name : Text) (earlier : List Text) (i : Ignored) (ignored : List Ignored)
      (deps : List Relationship)
      → all_settled name earlier ignored deps ≡ true
      → all_settled name earlier (i ∷ ignored) deps ≡ true
  all_settled_ignore name earlier i ignored [] h = refl
  all_settled_ignore name earlier i ignored (dep ∷ deps) h =
      ground (arith, all_settled_ignore name earlier i ignored deps)

  ordered_ignore :
      (i : Ignored) (ignored : List Ignored) (order : List Text)
      → is_ordered ignored order ≡ true
      → is_ordered (i ∷ ignored) order ≡ true
  ordered_ignore i ignored [] h = refl
  ordered_ignore i ignored (x ∷ order) h = ground (
    arith,
    all_settled_ignore x order i ignored (dependent_services x),
    ordered_ignore i ignored order,
  )

  -- Between two steps of the calls whose names are in the history: what is launched is finished or
  -- in the history, never both, and what is finished is in order.
  pub record IsValid (history : List Text) (st : State) : Type 0 where
    pub covered :
        (x : Text) → member x st.launched ≡ true → (member x st.order || member x history) ≡ true
    pub marked :
        (x : Text) → (member x st.order || member x history) ≡ true → member x st.launched ≡ true
    pub apart : (x : Text) → member x st.order ≡ true → member x history ≡ false
    pub ordered : is_ordered st.ignored st.order ≡ true
    pub distinct : is_distinct st.order ≡ true

  pub ignore-IsValid :
      (history : List Text) (st : State) (i : Ignored)
      → IsValid history st
      → IsValid history (record st { ignored = i ∷ st.ignored })
  ignore-IsValid history st i v = record {
    covered = v.covered;
    marked = v.marked;
    apart = v.apart;
    ordered = ordered_ignore i st.ignored st.order v.ordered;
    distinct = v.distinct;
  }

  pub launch-IsValid :
      (history : List Text) (name : Text) (st : State)
      → IsValid history st
      → member name st.launched ≡ false
      → IsValid (history ++ name ∷ []) (record st { launched = name ∷ st.launched })
  launch-IsValid history name st v new = record {
    covered = λ x h.
        unfold member in
        ground (arith, h, v.covered x, member-append x history (name ∷ []), member_one x name);
    marked = λ x h.
        unfold member in
        ground (arith, h, v.marked x, member-append x history (name ∷ []), member_one x name);
    apart = λ x h. ground (
      arith,
      h,
      v.apart x,
      v.marked x,
      member-append x history (name ∷ []),
      member_one x name,
      text_eq_iff name x,
    );
    ordered = v.ordered;
    distinct = v.distinct;
  }

  module _ (selected : List Text) (cycle_action : Text → Option Text) where
    pub finish-IsValid :
        (history : List Text) (name : Text) (st : State)
        → member name history ≡ false
        → IsValid (history ++ name ∷ []) st
        → all_settled name st.order st.ignored (dependent_services name) ≡ true
        → IsValid history (finish services dependent_services selected cycle_action name st)
    unfolding finish
    finish-IsValid history name st new v settled = record {
      covered = λ x h.
          unfold member in
          ground (arith, h, v.covered x, member-append x history (name ∷ []), member_one x name);
      marked = λ x h.
          unfold member in
          ground (arith, h, v.marked x, member-append x history (name ∷ []), member_one x name);
      apart = λ x h.
          unfold member in
          ground (
            arith,
            h,
            v.apart x,
            member-append x history (name ∷ []),
            member_one x name,
            text_eq_iff name x,
          );
      ordered = ground (arith, v.ordered, settled);
      distinct = ground (
        arith,
        v.distinct,
        v.apart name,
        member-append name history (name ∷ []),
        member_one name name,
        text_eq_refl name,
      );
    }
