-- ===== src/NetConf/Addresses.antt =====
-- Which addresses a link has behind `applyInterfaceConfig`.
use burmilla_os.NetConf.{InterfaceConfig, Link}
use burmilla_os.Base.{
  true, false, ◌||◌, List, [], ◌∷◌, ◌++◌, Text, member, if◌then◌else◌, ◌≡◌, refl, ◌∙◌, arith, All,
  ap, ℕ, none, zero, suc, Bool, codes, text_eq,
}
use burmilla_os.NetConf.Actions.{
  Action, done, Machine, and_then, attempt, Trace, remove_link_local, nothing_to_do, set_mtu,
  set_up, assign_link_local,
}
use burmilla_os.NetConf.Applying.{
  remove_others, add_all, apply_addresses, set_gateway, addresses_in, apply_interface_config,
}
use burmilla_os.NetConf.Effects.{
  effect, effect-append, effect-remove_others, effect-add_all, removed_done, added_done,
  and_then_done, and_then-IsQuiet, attempt-IsQuiet, set_gateway-IsQuiet, IsQuiet,
}

module _ (machine : Machine) (link : Text) where
  abbrev settings : InterfaceConfig → Trace
  settings conf =
      and_then
        (elim conf.mtu [ zero ↦ nothing_to_do | suc n ↦ attempt machine (set_mtu link (suc n)) ])
        (and_then (attempt machine (set_up link))
          (and_then (set_gateway machine conf.gateway) (set_gateway machine conf.gateway_ipv6)))

  settings-IsQuiet : (conf : InterfaceConfig) → IsQuiet machine link (settings conf)
  settings-IsQuiet conf = and_then-IsQuiet machine link _ _ (mtu conf.mtu) (
      and_then-IsQuiet machine link _ _ (attempt-IsQuiet machine link (set_up link) (λ have. refl))
        (and_then-IsQuiet machine link _ _ (set_gateway-IsQuiet machine link conf.gateway)
          (set_gateway-IsQuiet machine link conf.gateway_ipv6)))
    where
      mtu :
          (n : ℕ)
          → IsQuiet machine link
              (elim n [ zero ↦ nothing_to_do | suc k ↦ attempt machine (set_mtu link (suc k)) ])
      mtu zero = λ have. refl
      mtu (suc k) = attempt-IsQuiet machine link (set_mtu link (suc k)) (λ have. refl)

  applied :
      (conf : InterfaceConfig) (existing : List Text) (a : Text)
      → All (λ b. machine.is_address b ≡ true) (addresses_in conf)
      → member a (
          effect link
            (and_then
              (remove_others machine link false (addresses_in conf) existing)
              (and_then (add_all machine link (addresses_in conf)) (settings conf))).0
            existing)
        ≡ member a (addresses_in conf)
  applied conf existing a h =
      let removed = remove_others machine link false (addresses_in conf) existing in
      let added = add_all machine link (addresses_in conf) in
      let rest = and_then added (settings conf) in
      rw
        (
          and_then_done machine link removed rest
              (removed_done machine link (addresses_in conf) existing),
          and_then_done machine link added (settings conf)
              (added_done machine link (addresses_in conf)),
          effect-append link removed.0 (added.0 ++ (settings conf).0) existing,
          effect-append link added.0 (settings conf).0 (effect link removed.0 existing),
          settings-IsQuiet conf (effect link added.0 (effect link removed.0 existing)),
        )
        (effect-add_all machine link (addresses_in conf) (effect link removed.0 existing) a h
          ∙ ground
              (arith, effect-remove_others machine link (addresses_in conf) existing existing a))

  abbrev begun : Bool → Bool → InterfaceConfig → Trace
  begun link_local keeps conf =
      and_then
        (attempt machine (if link_local then assign_link_local link else remove_link_local link))
        (and_then (remove_others machine link keeps (addresses_in conf) (machine.addresses_of link))
          (and_then (add_all machine link (addresses_in conf)) (settings conf)))

  attempt_fine :
      (action : Action) → machine.fails action ≡ none → attempt machine action ≡ (action ∷ [], done)
  unfolding attempt
  attempt_fine action f = rw (f, attempt) refl

  begun_plain :
      (conf : InterfaceConfig) (a : Text)
      → machine.fails (remove_link_local link) ≡ none
      → All (λ b. machine.is_address b ≡ true) (addresses_in conf)
      → member a (effect link (begun false false conf).0 (machine.addresses_of link))
        ≡ member a (addresses_in conf)
  unfolding and_then
  begun_plain conf a f h =
      let rest =
        and_then (remove_others machine link false (addresses_in conf) (machine.addresses_of link))
          (and_then (add_all machine link (addresses_in conf)) (settings conf)) in
      ap (λ t. member a (effect link (and_then t rest).0 (machine.addresses_of link)))
        (attempt_fine (remove_link_local link) f)
      ∙ applied conf (machine.addresses_of link) a h

member-apply_addresses :
    (machine : Machine) (link : Link) (conf : InterfaceConfig) (a : Text)
    → (conf.dhcp || conf.ipv4ll) ≡ false
    → machine.fails (remove_link_local link.name) ≡ none
    → All (λ b. machine.is_address b ≡ true) (addresses_in conf)
    → member a
        (effect link.name (apply_addresses machine link conf).0 (machine.addresses_of link.name))
      ≡ member a (addresses_in conf)
unfolding apply_addresses
member-apply_addresses machine link conf a d f h =
    let l : conf.ipv4ll ≡ false = ground (arith, d) in
    ap (λ t. member a (effect link.name t.0 (machine.addresses_of link.name)))
      (ap (λ b. begun machine link.name b (conf.dhcp || conf.ipv4ll) conf) l
        ∙ ap (λ b. begun machine link.name false b conf) d)
    ∙ begun_plain machine link.name conf a f h

-- If the configuration names no bond and no bridge to join, no address is left to DHCP or to the
-- link-local protocol, removing the link-local address does not fail, and the configured addresses can be
-- parsed, then behind applying the configuration the link has exactly the configured addresses, where the
-- actions that add and remove addresses do so.
pub member-apply_interface_config :
    (machine : Machine) (link : Link) (conf : InterfaceConfig) (a : Text)
    → text_eq conf.bond [] ≡ true
    → (text_eq conf.bridge [] || text_eq conf.bridge (codes "true")) ≡ true
    → (conf.dhcp || conf.ipv4ll) ≡ false
    → machine.fails (remove_link_local link.name) ≡ none
    → All (λ b. machine.is_address b ≡ true) (addresses_in conf)
    → member a (
        effect link.name
          (apply_interface_config machine link conf).0
          (machine.addresses_of link.name))
      ≡ member a (addresses_in conf)
member-apply_interface_config machine link conf a bond bridge d f h =
    let same : apply_interface_config machine link conf ≡ apply_addresses machine link conf =
      unfold apply_interface_config in ground (arith, bond, bridge) in
    ap (λ t. member a (effect link.name t.0 (machine.addresses_of link.name))) same
    ∙ member-apply_addresses machine link conf a d f h
