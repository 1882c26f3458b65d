-- ===== src/Base/Result.antt =====
-- What a fallible function of the source returns, and the operator that its early returns are.
use mathlib.Core.Path.{◌≡◌, refl}
use burmilla_os.Base.Lists.{Text}

-- A value, an error with its message, a panic of the program, or a recursion that used up its fuel.
pub data Result {ℓ} (A : Type ℓ) : Type ℓ where
  ok : A → Result A
  failed : Text → Result A
  panicked : Result A
  out_of_fuel : Result A

module _ {ℓ κ} {A : Type ℓ} {B : Type κ} where
  infixl 1 ◌>>=◌
  -- `if err != nil { return err }` between two parts.
  abbrev pub ◌>>=◌ : Result A → (A → Result B) → Result B
  ok a >>= f = f a
  failed e >>= f = failed e
  panicked >>= f = panicked
  out_of_fuel >>= f = out_of_fuel

  pub bind-ok :
      (r : Result A) (f : A → Result B) {b : B}
      → (r >>= f) ≡ ok b
      → (a : A) × (r ≡ ok a) × (f a ≡ ok b)
  bind-ok (ok a) f h = (a, refl, h)
  bind-ok (failed e) f h = cc
  bind-ok panicked f h = cc
  bind-ok out_of_fuel f h = cc
