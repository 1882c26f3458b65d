-- ===== src/Project/Start/Names.antt =====
-- Facts about lists of names, and how the state grows.
use burmilla_os.Base.{
  ℕ, suc, ◌≤◌, ◌<◌, Bool, true, false, ◌||◌, ◌&&◌, List, [], ◌∷◌, ◌++◌, Text, text_eq, text_eq_iff,
  member, length, ◌≡◌, refl, arith, if◌then◌else◌, ◌≢◌,
}
use burmilla_os.Project.Start.{
  State, Ignored, Outcome, fine, and_then, cycle_detected, cycle_action_failed, out_of_fuel,
}

pub member-append : (x : Text) (l m : List Text) → member x (l ++ m) ≡ (member x l || member x m)
unfolding member
member-append x [] m = refl
member-append x (y ∷ l) m = ground (arith, member-append x l m)

pub member_one : (x y : Text) → member x (y ∷ []) ≡ text_eq y x
unfolding member
member_one x y = ground arith

abbrev pub is_ignored : Text → Text → List Ignored → Bool
is_ignored name target [] = false
is_ignored name target (i ∷ ignored) =
    text_eq i.by name && text_eq i.dependency target || is_ignored name target ignored

-- Nothing that was launched, finished or ignored is forgotten.
pub record Grows (a b : State) : Type 0 where
  pub launched : (x : Text) → member x a.launched ≡ true → member x b.launched ≡ true
  pub order : (x : Text) → member x a.order ≡ true → member x b.order ≡ true
  pub ignored : (x y : Text) → is_ignored x y a.ignored ≡ true → is_ignored x y b.ignored ≡ true

pub Grows-refl : (a : State) → Grows a a
Grows-refl a = record { launched = λ x h. h; order = λ x h. h; ignored = λ x y h. h }

pub Grows-trans : {a b c : State} → Grows a b → Grows b c → Grows a c
Grows-trans g h = record {
  launched = λ x k. h.launched x (g.launched x k);
  order = λ x k. h.order x (g.order x k);
  ignored = λ x y k. h.ignored x y (g.ignored x y k);
}

-- How many of the names are not launched.
abbrev pub pending : List Text → List Text → ℕ
pending [] launched = 0
pending (x ∷ xs) launched =
    if member x launched then pending xs launched else suc (pending xs launched)

pub pending-le :
    (xs a b : List Text)
    → ((x : Text) → member x a ≡ true → member x b ≡ true)
    → pending xs b ≤ pending xs a
pending-le [] a b h = omega arith
pending-le (x ∷ xs) a b h = ground (arith, pending-le xs a b h, h x)

-- A launch makes fewer names pending or as many.
launch-le : (xs l : List Text) (name : Text) → pending xs (name ∷ l) ≤ pending xs l
launch-le xs l name = pending-le xs l (name ∷ l) (λ x h. unfold member in ground (arith, h))

-- A name that is launched anew is pending no more.
pub pending-lt :
    (xs l : List Text) (name : Text)
    → member name xs ≡ true
    → member name l ≡ false
    → pending xs (name ∷ l) < pending xs l
unfolding member
pending-lt [] l name h k = cc
pending-lt (x ∷ xs) l name h k =
    ground
      (arith, text_eq_iff x name, text_eq_iff name x, launch-le xs l name, pending-lt xs l name)

pub pending-le-length : (xs l : List Text) → pending xs l ≤ length xs
pending-le-length [] l = omega arith
pending-le-length (x ∷ xs) l = ground (arith, pending-le-length xs l)

-- What holds of the result of two parts.
pub and_then_lem :
    (P : Outcome × State → Type 0) (r : Outcome × State) (rest : State → Outcome × State)
    → (r.0 ≡ fine → P (rest r.1))
    → (r.0 ≢ fine → P r)
    → P (and_then r rest)
and_then_lem P (fine, st) rest h k = h refl
and_then_lem P (cycle_detected path, st) rest h k = k (λ e. cc)
and_then_lem P (cycle_action_failed e, st) rest h k = k (λ e. cc)
and_then_lem P (out_of_fuel, st) rest h k = k (λ e. cc)
