-- ===== src/CoreServices/Found.antt =====
-- Where `LoadServiceResource` finds a service.
use burmilla_os.Base.{
  true, none, some, List, [], ◌∷◌, Text, ◌≡◌, arith, ℕ, ◌≢◌, ap, sym, ◌∙◌, refl, Bool-cases, inl,
  inr, text_eq_iff, if◌then◌else◌, text_eq,
}
use burmilla_os.Base.Result.{Result, failed, panicked, ok, out_of_fuel}
use burmilla_os.CoreServices.Cache.{Cache, cache_lookup}
use burmilla_os.CoreServices.Resources.{
  Host, load_from_network, load_from_network_with_cache, load_resource, service_url,
  load_service_resource, or_else, load_from_urls, no_network,
}

-- The first result that is no error, or else the last error.
abbrev pub first_loaded : Result Text → List (Result Text) → Result Text
first_loaded (failed e) (r ∷ rs) = first_loaded r rs
first_loaded r rs = r

module _ (host : Host) where
  -- The result of one location.
  abbrev pub fetch : Cache → Text → Result Text
  fetch cache location = (load_resource host location true cache).1

  -- The results of the repositories.
  abbrev pub fetch_all : Cache → Text → List Text → List (Result Text)
  fetch_all cache name [] = []
  fetch_all cache name (url ∷ urls) = elim (service_url host url name) [
    | none ↦ panicked ∷ fetch_all cache name urls
    | some location ↦ fetch cache location ∷ fetch_all cache name urls
  ]

  failed_same :
      (location : Text) (cache : Cache) (e : Text)
      → fetch cache location ≡ failed e
      → load_resource host location true cache ≡ (cache, failed e)
  unfolding load_resource load_from_network_with_cache load_from_network cache_lookup
  failed_same location cache e h = ground (arith, h)

  -- The rest is tried with the same cache.
  or_else-fetched :
      (location : Text) (cache : Cache) (next : Result Text → Cache → Cache × Result Text)
      (rest : List (Result Text))
      → ((e : Text)
          → fetch cache location ≡ failed e
          → (next (failed e) cache).1 ≡ first_loaded (failed e) rest)
      → (or_else host
          (load_resource host location true cache)
          (next (fetch cache location) (load_resource host location true cache).0)).1
        ≡ first_loaded (fetch cache location) rest
  unfolding or_else
  or_else-fetched location cache next rest h = go (load_resource host location true cache) refl
    where
      go :
          (l : Cache × Result Text)
          → load_resource host location true cache ≡ l
          → (or_else host l (next l.1 l.0)).1 ≡ first_loaded l.1 rest
      go (cache', ok b) q = refl
      go (cache', panicked) q = refl
      go (cache', out_of_fuel) q = refl
      go (cache', failed e) q =
          let same : cache' ≡ cache =
            ap (λ l. l.0) (sym q ∙ failed_same location cache e (ap (λ l. l.1) q)) in
          ap (λ c. (next (failed e) c).1) same ∙ h e (ap (λ l. l.1) q)

  load_from_urls_lem :
      (c : ℕ) (name e : Text) (urls : List Text) (cache : Cache)
      → (load_from_urls host (c ∷ name) (failed e) urls cache).1
        ≡ first_loaded (failed e) (fetch_all cache (c ∷ name) urls)
  unfolding load_from_urls service_url
  load_from_urls_lem c name e [] cache = refl
  load_from_urls_lem c name e (url ∷ urls) cache =
      or_else-fetched _ cache (λ last cache'. load_from_urls host (c ∷ name) last urls cache')
        (fetch_all cache (c ∷ name) urls) (λ e' q. load_from_urls_lem c name e' urls cache)

-- With the network, a service with a name is what the first location gives that can be loaded: the name
-- itself, and then its file in each repository, in their order; without one it is the last error. The
-- name's own error is not that of a missing network.
pub load_service_resource_lem :
    (host : Host) (c : ℕ) (name : Text) (urls : List Text) (cache : Cache)
    → fetch host cache (c ∷ name) ≢ failed no_network
    → (load_service_resource host (c ∷ name) true urls cache).1
      ≡ first_loaded (fetch host cache (c ∷ name)) (fetch_all host cache (c ∷ name) urls)
unfolding load_service_resource
load_service_resource_lem host c name urls cache n =
    or_else-fetched host (c ∷ name) cache
      (λ r cache'. elim r [
        | failed e ↦
            if text_eq e no_network
            then (cache', failed no_network)
            else load_from_urls host (c ∷ name) (failed e) urls cache'
        | other ↦ load_resource host (c ∷ name) true cache
      ])
      (fetch_all host cache (c ∷ name) urls)
      (λ e q. elim (Bool-cases (text_eq e no_network)) [
        | inl s ↦ absurd (n (q ∙ ap failed ((text_eq_iff e no_network).0 s)))
        | inr s ↦ rw s (load_from_urls_lem host c name e urls cache)
      ])
