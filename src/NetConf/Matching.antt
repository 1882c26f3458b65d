-- ===== src/NetConf/Matching.antt =====
-- `findMatch` of pkg/netconf/netconf_linux.go: which entry a link gets.
use burmilla_os.Base.{
  Bool, true, false, ℕ, Option, none, some, List, [], ◌∷◌, Text, ◌≡◌, ◌≢◌, refl, ap, ◌∙◌, All,
  arith, if◌then◌else◌, ap,
}
use burmilla_os.Base.Result.{ok}
use burmilla_os.NetConf.{
  InterfaceConfig, Interfaces, NetworkConfig, Link, Verdict, by_address, by_name, unrelated, stops,
  Best, nothing, by_pattern, exactly, with_selector, judge, improve, result, find_from, find_match,
}

abbrev pub first_of : Option InterfaceConfig → Option InterfaceConfig → Option InterfaceConfig
first_of (some a) b = some a
first_of none b = b

module _ (glob : Text → Text → Bool) (parse_mac : Text → Option (List ℕ)) (link : Link) where
  abbrev pub is_addressed : Verdict → Bool
  is_addressed by_address = true
  is_addressed _ = false

  abbrev pub is_exact : Verdict → Bool
  is_exact (by_name exact pattern) = exact
  is_exact _ = false

  abbrev pub is_pattern : Verdict → Bool
  is_pattern (by_name exact pattern) = pattern
  is_pattern _ = false

  -- The first and the last entry of a kind, with its selector.
  abbrev pub first_that : (Verdict → Bool) → Interfaces → Option InterfaceConfig
  first_that p [] = none
  first_that p ((key, conf) ∷ interfaces) =
      if p (judge glob parse_mac link (with_selector key conf))
      then some (with_selector key conf)
      else first_that p interfaces

  abbrev pub last_that : (Verdict → Bool) → Interfaces → Option InterfaceConfig
  last_that p [] = none
  last_that p ((key, conf) ∷ interfaces) = first_of (last_that p interfaces) (
      if p (judge glob parse_mac link (with_selector key conf))
      then some (with_selector key conf)
      else none)

  -- No selector is the text "mac" alone.
  abbrev pub NeverStops : Interfaces → Type 0
  NeverStops = All (λ e. judge glob parse_mac link (with_selector e.0 e.1) ≢ stops)

  -- What the entries add to the best one before them.
  abbrev chosen : Best → Option InterfaceConfig → Option InterfaceConfig → Option InterfaceConfig
  chosen nothing exact pattern = first_of exact pattern
  chosen (by_pattern m) exact pattern = first_of exact (first_of pattern (some m))
  chosen (exactly m) exact pattern = first_of exact (some m)

  chosen_end : (best : Best) → result glob parse_mac best ≡ chosen best none none
  unfolding result
  chosen_end nothing = refl
  chosen_end (by_pattern m) = refl
  chosen_end (exactly m) = refl

  improved :
      (exact pattern : Bool) (conf : InterfaceConfig) (best : Best) (e p : Option InterfaceConfig)
      → chosen (improve glob parse_mac exact pattern conf best) e p
        ≡ chosen best
            (first_of e (if exact then some conf else none))
            (first_of p (if pattern then some conf else none))
  unfolding improve
  improved exact pattern conf best e p = ground arith

  skipped :
      (best : Best) (e p : Option InterfaceConfig)
      → chosen best e p ≡ chosen best (first_of e none) (first_of p none)
  skipped best e p = ground arith

  find_from_lem :
      (interfaces : Interfaces) (best : Best)
      → NeverStops interfaces
      → find_from glob parse_mac link best interfaces
        ≡ ok (
            first_of
              (first_that is_addressed interfaces)
              (chosen best (last_that is_exact interfaces) (last_that is_pattern interfaces)))
  unfolding find_from
  find_from_lem [] best h = ap ok (chosen_end best)
  find_from_lem ((key, conf) ∷ interfaces) best (h, hs) =
      go (judge glob parse_mac link (with_selector key conf)) refl h
        (λ b. find_from_lem interfaces b hs)
    where
      go :
          (v : Verdict)
          → judge glob parse_mac link (with_selector key conf) ≡ v
          → v ≢ stops
          → ((b : Best)
              → find_from glob parse_mac link b interfaces
                ≡ ok (
                    first_of
                      (first_that is_addressed interfaces)
                      (chosen b (last_that is_exact interfaces) (last_that is_pattern interfaces))))
          → find_from glob parse_mac link best ((key, conf) ∷ interfaces)
            ≡ ok (
                first_of (first_that is_addressed ((key, conf) ∷ interfaces)) (
                  chosen best
                    (last_that is_exact ((key, conf) ∷ interfaces))
                    (last_that is_pattern ((key, conf) ∷ interfaces))))
      go by_address q n ih = rw (q, find_from, first_that, last_that) refl
      go (by_name exact pattern) q n ih =
          rw (q, find_from, first_that, last_that)
            (ih _
              ∙ ap (λ c. ok (first_of (first_that is_addressed interfaces) c))
                  (improved exact pattern (with_selector key conf) best
                    (last_that is_exact interfaces) (last_that is_pattern interfaces)))
      go unrelated q n ih =
          rw (q, find_from, first_that, last_that)
            (ih best
              ∙ ap (λ c. ok (first_of (first_that is_addressed interfaces) c))
                  (skipped best (last_that is_exact interfaces) (last_that is_pattern interfaces)))
      go stops q n ih = absurd (n refl)

-- If no selector is the text "mac" alone, a link gets the first entry that selects it by its hardware
-- address, in the order of the loop; without one, the last entry that selects it by its own name; and
-- without one, the last entry whose pattern matches its name.
pub find_match_lem :
    (glob : Text → Text → Bool) (parse_mac : Text → Option (List ℕ)) (link : Link)
    (net : NetworkConfig)
    → NeverStops glob parse_mac link net.interfaces
    → find_match glob parse_mac link net
      ≡ ok (
          first_of
            (first_that glob parse_mac link (is_addressed glob parse_mac link) net.interfaces)
            (first_of
              (last_that glob parse_mac link (is_exact glob parse_mac link) net.interfaces)
              (last_that glob parse_mac link (is_pattern glob parse_mac link) net.interfaces)))
unfolding find_match
find_match_lem glob parse_mac link net h =
    find_from_lem glob parse_mac link net.interfaces nothing h
