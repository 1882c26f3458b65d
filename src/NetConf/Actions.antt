-- ===== src/NetConf/Actions.antt =====
-- What pkg/netconf does to the machine, as a trace: the calls of netlink, the bonding files and the
-- commands, each with the error that it gives. Most errors are logged only.
use burmilla_os.Base.{ℕ, Bool, Option, none, some, List, [], ◌∷◌, ◌++◌, Text, codes, true, false}
use burmilla_os.Base.Int.{ℤ}
use burmilla_os.Strings.{trim_space, replace}

pub data Action : Type 0 where
  run_command : List Text → Action
  new_bridge : Text → Action
  open_bond : Text → Action
  bond_option : Text → Text → Text → Action
  new_vlan : Text → Text → ℤ → Action
  set_down : Text → Action
  set_up : Text → Action
  add_slave : Text → Text → Action
  add_to_bridge : Text → Text → Action
  assign_link_local : Text → Action
  remove_link_local : Text → Action
  remove_address : Text → Text → Action
  add_address : Text → Text → Action
  set_mtu : Text → ℕ → Action
  add_gateway : Text → Action
  run_dhcp : List Text → Action

-- How a part ends; a panic is the index out of range of a command without words.
pub data Ending : Type 0 where
  done : Ending
  error : Text → Ending
  panic : Ending

abbrev pub Trace : Type 0
Trace = List Action × Ending

-- The answers of the machine and of the libraries: the error of an action, the words of a command
-- and whether they end at an error (shlex), the addresses of a link, whether
-- an address and a gateway can be parsed, and what dhcpcd prints as the lease of a link, before the
-- settings are applied to it and at the end.
pub record Machine : Type 0 where
  pub fails : Action → Option Text
  pub words : Text → List Text × Bool
  pub glob : Text → Text → Bool
  pub parse_mac : Text → Option (List ℕ)
  pub addresses_of : Text → List Text
  pub is_address : Text → Bool
  pub is_ip : Text → Bool
  pub lease_before : Text → Text
  pub lease_after : Text → Text

-- One part and then another one, if the first ends well.
unfoldable pub and_then : Trace → Trace → Trace
and_then (actions, done) next = (actions ++ next.0, next.1)
and_then (actions, ending) next = (actions, ending)

-- An error that is logged.
unfoldable pub logged : Trace → Trace
logged (actions, error e) = (actions, done)
logged (actions, ending) = (actions, ending)

-- A deferred part runs behind the other one however that ends, and its panic is the later one.
unfoldable pub deferred : Trace → Trace → Trace
deferred (actions, ending) (last, panic) = (actions ++ last, panic)
deferred (actions, ending) (last, other) = (actions ++ last, ending)

abbrev pub nothing_to_do : Trace
nothing_to_do = ([], done)

-- An action whose error is returned.
unfoldable pub attempt : Machine → Action → Trace
attempt machine a = (a ∷ [], elim (machine.fails a) [ none ↦ done | some e ↦ error e ])

-- An action whose error is logged.
abbrev pub act : Action → Trace
act a = (a ∷ [], done)

-- The words of a command are run, unless they end at an error.
unfoldable pub run_words : List Text × Bool → Trace
run_words (words, true) = nothing_to_do
run_words ([], false) = ([], panic)
run_words (word ∷ args, false) = act (run_command (word ∷ args))

-- One round of the loop of `runCmds`.
unfoldable pub run_cmd : Machine → Text → Text → Trace
unfolding run_words
run_cmd machine iface cmd = elim (trim_space cmd) [
  | [] ↦ nothing_to_do
  | c ∷ s ↦ run_words (machine.words (replace (c ∷ s) (codes "$iface") iface))
]

unfoldable pub run_cmds : Machine → List Text → Text → Trace
unfolding run_cmd and_then
run_cmds machine [] iface = nothing_to_do
run_cmds machine (cmd ∷ cmds) iface =
    and_then (run_cmd machine iface cmd) (run_cmds machine cmds iface)
