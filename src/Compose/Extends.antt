-- ===== src/Compose/Extends.antt =====
-- Two ways in which `extends` goes wrong: a base service of another file that cannot be parsed, and a
-- service that extends itself.
use burmilla_os.Base.{
  ℕ, zero, suc, ◌≡◌, ◌≢◌, ◌∙◌, ap, refl, false, some, [], ◌∷◌, Text, codes, text_eq, text_eq_refl,
  text_eq_iff, Bool-cases, inl, inr, arith,
}
use burmilla_os.Base.Result.{Result, ok, failed, out_of_fuel}
use burmilla_os.Config.Value.{object, Fields, end, lookup}
use burmilla_os.Compose.Service.{Loader, as_string, clone, merge_config, read_env_file}
use burmilla_os.Compose.Parse.{
  RawServices, service_of, set_service, has_no_merge, extend_base, drop_error, same_file,
  parse_base, other_file, extend, parse_resolved, parse_service,
}

text_eq_not : (a b : Text) → a ≢ b → text_eq a b ≡ false
text_eq_not a b h = elim (Bool-cases (text_eq a b)) [
  | inl e ↦ absurd (h ((text_eq_iff a b).0 e))
  | inr e ↦ e
]

module _ (loader : Loader) (resolve_context : Text → Fields → Result Fields)
    (load_services : Text → Result RawServices) where
  abbrev parse : ℕ → Text → Text → Fields → RawServices → Result (Fields × RawServices)
  parse = parse_service loader resolve_context load_services

  -- The service has no env_file and no build that would be resolved, so that it stays as it is.
  abbrev pub IsPlain : Text → Fields → Type 0
  IsPlain in_file d = (read_env_file loader in_file d ≡ ok d) × (resolve_context in_file d ≡ ok d)

  parse_step :
      (fuel : ℕ) (in_file name : Text) (d : Fields) (datas : RawServices)
      → IsPlain in_file d
      → parse (suc fuel) in_file name d datas
        ≡ parse_resolved loader resolve_context load_services
            (parse fuel)
            in_file
            d
            (set_service name d datas)
  unfolding parse_service
  parse_step fuel in_file name d datas (e, f) = rw (e, f) refl

  -- The service extends the service of the given name, in the given file.
  abbrev pub Extends : Fields → Text → Text → Type 0
  Extends d service file =
      (extends : Fields) × (lookup (codes "extends") d ≡ some (object extends))
      × (as_string (lookup (codes "service") extends) ≡ service)
      × (as_string (lookup (codes "file") extends) ≡ file)

  resolved_extends :
      (call : Text → Text → Fields → RawServices → Result (Fields × RawServices)) (in_file : Text)
      (d : Fields) (datas : RawServices) {extends : Fields}
      → lookup (codes "extends") d ≡ some (object extends)
      → parse_resolved loader resolve_context load_services call in_file d datas
        ≡ extend loader resolve_context load_services call loader.lookup_file in_file extends d
            datas
  unfolding parse_resolved
  resolved_extends call in_file d datas e = rw (e, parse_resolved) refl

  extend_other :
      (call : Text → Text → Fields → RawServices → Result (Fields × RawServices))
      (find_file : Text → Text → Result (Text × Text)) (in_file : Text) (extends d : Fields)
      (datas : RawServices) (service file : Text)
      → as_string (lookup (codes "service") extends) ≡ service
      → as_string (lookup (codes "file") extends) ≡ file
      → service ≢ []
      → file ≢ []
      → extend loader resolve_context load_services call (some find_file) in_file extends d datas
        ≡ other_file loader resolve_context load_services call find_file in_file file service d
            datas
  unfolding extend
  extend_other call find_file in_file extends d datas service file e f hs hf =
      rw (e, f, text_eq_not service [] hs, text_eq_not file [] hf) refl

  extend_same :
      (call : Text → Text → Fields → RawServices → Result (Fields × RawServices))
      (find_file : Text → Text → Result (Text × Text)) (in_file : Text) (extends d : Fields)
      (datas : RawServices) (service : Text)
      → as_string (lookup (codes "service") extends) ≡ service
      → as_string (lookup (codes "file") extends) ≡ []
      → service ≢ []
      → extend loader resolve_context load_services call (some find_file) in_file extends d datas
        ≡ same_file loader resolve_context load_services call in_file service d datas
  unfolding extend
  extend_same call find_file in_file extends d datas service e f hs =
      rw (e, f, text_eq_not service [] hs, text_eq_refl []) refl

  extend_base_end :
      (service : Text) (d : Fields) → extend_base service end d ≡ ok (merge_config end d)
  unfolding extend_base has_no_merge clone lookup
  extend_base_end service d = refl

  base_dropped :
      (call : Text → Text → Fields → RawServices → Result (Fields × RawServices))
      (file resolved service e : Text) (base : Fields) (services : RawServices)
      → service_of service services ≡ some base
      → call resolved service base services ≡ failed e
      → parse_base loader resolve_context load_services call file resolved service services ≡ ok end
  unfolding parse_base drop_error
  base_dropped call file resolved service e base services so er = rw (so, parse_base, er) refl

  other_dropped :
      (fuel : ℕ) (find_file : Text → Text → Result (Text × Text))
      (in_file service file bytes resolved e : Text) (d base : Fields)
      (datas services : RawServices)
      → find_file file in_file ≡ ok (bytes, resolved)
      → load_services bytes ≡ ok services
      → service_of service services ≡ some base
      → parse fuel resolved service base services ≡ failed e
      → other_file loader resolve_context load_services
          (parse fuel)
          find_file
          in_file
          file
          service
          d
          datas
        ≡ ok (merge_config end d, datas)
  unfolding other_file
  other_dropped fuel find_file in_file service file bytes resolved e d base datas services ff ls so
        er =
      rw
        (
          ff,
          ls,
          base_dropped (parse fuel) file resolved service e base services so er,
          extend_base_end service d,
        )
        refl

  -- An error in parsing the base service of another file is lost: the service is parsed as if it had
  -- extended an empty service, and no error is returned.
  pub parse_service_drops_error :
      (find_file : Text → Text → Result (Text × Text)) (fuel : ℕ)
      (in_file name service file bytes resolved e : Text) (d base : Fields)
      (datas services : RawServices)
      → loader.lookup_file ≡ some find_file
      → IsPlain in_file d
      → Extends d service file
      → service ≢ []
      → file ≢ []
      → find_file file in_file ≡ ok (bytes, resolved)
      → load_services bytes ≡ ok services
      → service_of service services ≡ some base
      → parse fuel resolved service base services ≡ failed e
      → parse (suc fuel) in_file name d datas ≡ ok (merge_config end d, set_service name d datas)
  parse_service_drops_error find_file fuel in_file name service file bytes resolved e d base datas
        services lf plain (extends, x, sv, fl) hs hf ff ls so er =
      parse_step fuel in_file name d datas plain
      ∙ resolved_extends (parse fuel) in_file d (set_service name d datas) x
      ∙ ap
          (λ l.
            extend loader resolve_context load_services (parse fuel) l in_file extends d
              (set_service name d datas))
          lf
      ∙ extend_other (parse fuel) find_file in_file extends d (set_service name d datas) service
          file sv fl hs hf
      ∙ other_dropped fuel find_file in_file service file bytes resolved e d base
          (set_service name d datas) services ff ls so er

  service_of-set_service :
      (name : Text) (d : Fields) (datas : RawServices)
      → service_of name (set_service name d datas) ≡ some d
  unfolding service_of set_service
  service_of-set_service name d [] = ground (arith, text_eq_refl name)
  service_of-set_service name d ((j, e) ∷ datas) =
      ground (arith, text_eq_refl name, service_of-set_service name d datas)

  same_endless :
      (call : Text → Text → Fields → RawServices → Result (Fields × RawServices))
      (in_file name : Text) (d : Fields) (datas : RawServices)
      → service_of name datas ≡ some d
      → call in_file name d datas ≡ out_of_fuel
      → same_file loader resolve_context load_services call in_file name d datas ≡ out_of_fuel
  unfolding same_file
  same_endless call in_file name d datas so e = rw (so, same_file, e) refl

  -- A service that extends itself, in its own file, is parsed without end: no fuel is enough.
  pub parse_service_endless :
      (find_file : Text → Text → Result (Text × Text)) (fuel : ℕ) (in_file name : Text) (d : Fields)
      (datas : RawServices)
      → loader.lookup_file ≡ some find_file
      → IsPlain in_file d
      → Extends d name []
      → name ≢ []
      → parse fuel in_file name d datas ≡ out_of_fuel
  parse_service_endless find_file zero in_file name d datas lf plain x hn =
      unfold parse_service in refl
  parse_service_endless find_file (suc fuel) in_file name d datas lf plain (extends, x, sv, fl) hn =
      parse_step fuel in_file name d datas plain
      ∙ resolved_extends (parse fuel) in_file d (set_service name d datas) x
      ∙ ap
          (λ l.
            extend loader resolve_context load_services (parse fuel) l in_file extends d
              (set_service name d datas))
          lf
      ∙ extend_same (parse fuel) find_file in_file extends d (set_service name d datas) name sv fl
          hn
      ∙ same_endless (parse fuel) in_file name d (set_service name d datas)
          (service_of-set_service name d datas)
          (parse_service_endless find_file fuel in_file name d (set_service name d datas) lf plain
            (extends, x, sv, fl) hn)
