-- ===== src/CoreServices/Kept.antt =====
-- What the cache of the resources keeps.
use burmilla_os.Base.{
  ℕ, true, false, Option, none, some, [], ◌∷◌, ◌++◌, Text, text_eq, text_eq_refl, ◌≡◌, refl, ◌∙◌,
  arith, All, codes, Bool-cases, inl, sym, ap, text_eq_iff, inr,
}
use burmilla_os.Base.Result.{Result, ok, failed, panicked, out_of_fuel}
use burmilla_os.CoreServices.Maps.{get, add, get-add, delete, get-delete}
use burmilla_os.CoreServices.Cache.{
  Cache, trim_set, in_set, cache_lookup, cache_add, cache_move_back, cache_move,
}
use burmilla_os.CoreServices.Resources.{
  Host, is_remote, load_from_network, load_from_network_with_cache, load_resource, update_cache,
  settle,
}

trim_set-append :
    (cutset s t : Text)
    → All (λ c. in_set cutset c ≡ true) t
    → trim_set cutset (s ++ t) ≡ trim_set cutset s
unfolding trim_set
trim_set-append cutset [] [] h = refl
trim_set-append cutset [] (c ∷ t) (hc, h) = rw (trim_set-append cutset [] t h, hc, trim_set) refl
trim_set-append cutset (c ∷ s) t h = rw (trim_set-append cutset s t h, trim_set) refl

longer : (s t : Text) (c : ℕ) → text_eq (s ++ (c ∷ t)) s ≡ false
unfolding text_eq
longer [] t c = refl
longer (d ∷ s) t c = ground (arith, longer s t c)

-- The cache behind a load that succeeds from the network has the bytes under the location.
cached :
    (host : Host) (location : Text) (cache cache' : Cache) (bytes : Text)
    → host.writable ≡ true
    → load_from_network_with_cache host location cache ≡ (cache', ok bytes)
    → get (host.location_hash location) cache' ≡ some bytes
unfolding load_from_network_with_cache load_from_network cache_lookup cache_add
cached host location cache cache' bytes w h =
    go (get (host.location_hash location) cache) refl (host.download location) refl
  where
    go :
        (known : Option Text)
        → get (host.location_hash location) cache ≡ known
        → (answer : Result Text) → host.download location ≡ answer
        → get (host.location_hash location) cache' ≡ some bytes
    go (some b) e answer f =
        let same : (cache, ok b) ≡ (cache', ok bytes) =
          rw (e, load_from_network_with_cache, cache_lookup) at h in
        cc (same, e)
    go none e (ok b) f =
        let same : (add (host.location_hash location) b cache, ok b) ≡ (cache', ok bytes) =
          rw (e, load_from_network_with_cache, cache_lookup, load_from_network, f, cache_add, w) at
            h in
        let there = get-add (host.location_hash location) (host.location_hash location) b cache in
        let found : get (host.location_hash location) (add (host.location_hash location) b cache)
            ≡ some b =
          there ∙ rw (text_eq_refl (host.location_hash location)) refl in
        cc (same, found)
    go none e (failed d) f =
        let same : (cache, failed d) ≡ (cache', ok bytes) =
          rw (e, load_from_network_with_cache, cache_lookup, load_from_network, f) at h in
        absurd (cc same)
    go none e panicked f =
        let same : (cache, panicked) ≡ (cache', ok bytes) =
          rw (e, load_from_network_with_cache, cache_lookup, load_from_network, f) at h in
        absurd (cc same)
    go none e out_of_fuel f =
        let same : (cache, out_of_fuel) ≡ (cache', ok bytes) =
          rw (e, load_from_network_with_cache, cache_lookup, load_from_network, f) at h in
        absurd (cc same)

-- If the cache can be written, a resource that was loaded from the network is loaded again with the same
-- bytes, whatever the network answers then.
pub load_resource_again :
    (host : Host) (location : Text) (cache cache' : Cache) (bytes : Text)
    (download : Text → Result Text)
    → is_remote host location ≡ true
    → host.writable ≡ true
    → load_resource host location true cache ≡ (cache', ok bytes)
    → load_resource (record host { download = download }) location true cache' ≡ (cache', ok bytes)
unfolding load_resource
load_resource_again host location cache cache' bytes download r w h =
    let loaded : load_from_network_with_cache host location cache ≡ (cache', ok bytes) =
      rw (r, load_resource) at h in
    let there = cached host location cache cache' bytes w loaded in
    rw (r, load_resource, load_from_network_with_cache, cache_lookup, there) refl

-- The cache behind moving a file away and back again.
moved_back :
    (file f bytes : Text) (cache : Cache)
    → trim_set (codes "_temp") file ≡ file
    → get file cache ≡ some bytes
    → text_eq (file ++ codes "_temp") f ≡ false
    → (restored : Cache) × (cache_move_back
          (file ++ codes "_temp")
          (add (file ++ codes "_temp") bytes (delete file cache))
        ≡ ok restored)
      × (get f restored ≡ get f cache)
unfolding cache_move_back
moved_back file f bytes cache kept e other =
    let temp = file ++ codes "_temp" in
    let moved = add temp bytes (delete file cache) in
    let there : get temp moved ≡ some bytes =
      get-add temp temp bytes (delete file cache) ∙ rw (text_eq_refl temp) refl in
    let name : trim_set (codes "_temp") temp ≡ file =
      trim_set-append (codes "_temp") file (codes "_temp")
        (refl, (refl, (refl, (refl, (refl, tt)))))
      ∙ kept in
    (
      add file bytes (delete temp moved),
      rw (there, cache_move_back, name) refl,
      get-add f file bytes (delete temp moved) ∙ elim (Bool-cases (text_eq file f)) [
        | inl q ↦ rw q (sym (ap (λ i. get i cache) (sym ((text_eq_iff file f).0 q)) ∙ e))
        | inr q ↦ rw q (
            get-delete f temp moved
            ∙ rw other (
                get-add f temp bytes (delete file cache)
                ∙ rw other (get-delete f file cache ∙ rw q refl)))
      ],
    )

-- If a resource of the network cannot be loaded, and the name of its file ends in none of the letters
-- of "_temp", updating the cache leaves every file as it was, but the temporary one.
pub update_cache-failed :
    (host : Host) (location : Text) (cache : Cache) (e f : Text)
    → is_remote host location ≡ true
    → host.download location ≡ failed e
    → trim_set (codes "_temp") (host.location_hash location) ≡ host.location_hash location
    → text_eq (host.location_hash location ++ codes "_temp") f ≡ false
    → get f (update_cache host location cache).0 ≡ get f cache
unfolding update_cache cache_move
update_cache-failed host location cache e f r d kept other =
    go (get (host.location_hash location) cache) refl
  where
    go :
        (known : Option Text)
        → get (host.location_hash location) cache ≡ known
        → get f (update_cache host location cache).0 ≡ get f cache
    go none q = rw (update_cache, cache_move, q) refl
    go (some bytes) q =
        let temp = host.location_hash location ++ codes "_temp" in
        let moved = add temp bytes (delete (host.location_hash location) cache) in
        let gone : get (host.location_hash location) moved ≡ none =
          get-add (host.location_hash location) temp bytes
            (delete (host.location_hash location) cache)
          ∙ rw (longer (host.location_hash location) (codes "temp") b'_') (
              get-delete (host.location_hash location) (host.location_hash location) cache
              ∙ rw (text_eq_refl (host.location_hash location)) refl) in
        let failing : load_resource host location true moved ≡ (moved, failed e) =
          rw
            (
              r, load_resource, load_from_network_with_cache, cache_lookup, gone, load_from_network,
              d,
            )
            refl in
        let (restored, back, same) =
          moved_back (host.location_hash location) f bytes cache kept q other in
        let settled : settle host location temp (moved, failed e)
            ≡ (restored, host.read_file location) =
          rw (back, settle) refl in
        rw (q, update_cache, cache_move)
          (ap (λ l. get f (settle host location temp l).0) failing
            ∙ ap (λ s. get f s.0) settled
            ∙ same)
