-- ===== src/NetConf/LinkLocal.antt =====
-- `AssignLinkLocalIP` of pkg/netconf/ipv4ll_linux.go: the search for a free address. The random
-- numbers are a list, since the generator keeps its state from one round to the next.
use mathlib.Core.Path.{subst}
use Prim.Native.Nat.{◌/◌, ◌%◌, ◌^◌}
use burmilla_os.Base.{
  ℕ, zero, suc, ◌≤◌, ◌<◌, Bool, false, ◌||◌, ◌==◌, List, [], ◌∷◌, if◌then◌else◌, ◌≡◌, inl, inr, All,
  Bool-cases, arith,
}

-- The address 169.254.third.fourth.
pub record Address : Type 0 where
  pub third : ℕ
  pub fourth : ℕ

-- getNewIPV4LLAddr, on a number of 32 bits.
unfoldable pub new_address : ℕ → Address
new_address n = record { third = n % 256; fourth = n / 2 ^ 24 }

-- How the search ends: with a free address, after the tries, or without a further random number.
pub data Search : Type 0 where
  found : Address → Search
  exhausted : Search
  starved : Search

-- `answers` tells whether another machine answers for an address; `tries` are the rounds that are left.
-- A reserved address costs no try.
unfoldable pub search : (Address → Bool) → ℕ → List ℕ → Search
unfolding new_address
search answers zero randoms = exhausted
search answers (suc tries) [] = starved
search answers (suc tries) (n ∷ randoms) =
    let again = search answers (suc tries) randoms in
    let next = search answers tries randoms in
    let a = new_address n in
    if a.third == 0 || a.third == 255 then again else if answers a then next else found a

-- The loop of `AssignLinkLocalIP`.
unfoldable pub try_addresses : (Address → Bool) → List ℕ → Search
unfolding search
try_addresses answers randoms = search answers 10 randoms

-- The addresses that RFC 3927 leaves to hosts.
abbrev pub IsHost : Address → Type 0
IsHost a = (1 ≤ a.third) × (a.third ≤ 254) × (a.fourth ≤ 255)

new_address-IsHost :
    (n : ℕ)
    → n < 2 ^ 32
    → ((new_address n).third == 0 || (new_address n).third == 255) ≡ false
    → IsHost (new_address n)
unfolding new_address
new_address-IsHost n h e = ground arith

-- An address that the search finds is one that RFC 3927 leaves to hosts, and no machine answers for it.
pub search-IsHost :
    (answers : Address → Bool) (tries : ℕ) (randoms : List ℕ) (a : Address)
    → All (λ n. n < 2 ^ 32) randoms
    → search answers tries randoms ≡ found a
    → IsHost a × (answers a ≡ false)
unfolding search
search-IsHost answers zero randoms a h e = cc
search-IsHost answers (suc tries) [] a h e = cc
search-IsHost answers (suc tries) (n ∷ randoms) a (hn, h) e =
    elim (Bool-cases ((new_address n).third == 0 || (new_address n).third == 255)) [
      | inl q ↦ search-IsHost answers (suc tries) randoms a h (rw (q, search) at e)
      | inr q ↦ elim (Bool-cases (answers (new_address n))) [
        | inl f ↦ search-IsHost answers tries randoms a h (rw (q, f, search) at e)
        | inr f ↦
            let d : found (new_address n) ≡ found a = rw (q, f, search) at e in
            let p : new_address n ≡ a = ground arith in
            subst (λ b. IsHost b × (answers b ≡ false)) p (new_address-IsHost n hn q, f)
      ]
    ]
