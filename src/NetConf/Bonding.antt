-- ===== src/NetConf/Bonding.antt =====
-- pkg/netconf/bonding.go, on the files under /sys/class/net. `fails` is the error of writing a file.
use burmilla_os.Base.{
  Bool, true, false, Option, none, some, List, [], ◌∷◌, ◌++◌, Text, codes, text_eq, member,
  if◌then◌else◌,
}
use burmilla_os.Strings.{split, trim_space}

-- The writes, each a path with its bytes, and the links that are set down.
pub data BondAction : Type 0 where
  write_file : Text → Text → BondAction
  link_down : Text → BondAction

-- The files as they are read, and the error of an action. The kernel's answer to a write is not
-- followed, so a file is read as it was before.
pub record Sysfs : Type 0 where
  pub read_file : Text → Option Text
  pub fails : BondAction → Option Text

abbrev pub BondTrace : Type 0
BondTrace = List BondAction × Option Text

abbrev pub sys_class_net : Text
sys_class_net = codes "/sys/class/net/"

abbrev pub bonding_masters : Text
bonding_masters = codes "/sys/class/net/bonding_masters"

module _ (sysfs : Sysfs) where
  abbrev pub perform : BondAction → BondTrace
  perform action = (action ∷ [], sysfs.fails action)

  -- contains
  unfoldable pub file_contains : Text → Text → Option Bool
  unfolding split trim_space member
  file_contains file word = elim (sysfs.read_file file) [
    | none ↦ none
    | some words ↦ some (member (trim_space word) (split b' ' (trim_space words)))
  ]

  unfoldable pub non_empty : List Text → List Text
  non_empty [] = []
  non_empty ([] ∷ words) = non_empty words
  non_empty ((c ∷ word) ∷ words) = (c ∷ word) ∷ non_empty words

  abbrev pub slaves_file : Text → Text
  slaves_file bond = sys_class_net ++ (bond ++ codes "/bonding/slaves")

  unfoldable pub list_slaves : Text → Option (List Text)
  unfolding non_empty split trim_space
  list_slaves bond = elim (sysfs.read_file (slaves_file bond)) [
    | none ↦ none
    | some words ↦ some (non_empty (split b' ' (trim_space words)))
  ]

  -- RemoveSlave
  unfoldable pub remove_slave : Text → Text → BondTrace
  unfolding file_contains
  remove_slave bond slave = elim (file_contains (slaves_file bond) slave) [
    | none ↦ ([], some (codes "read"))
    | some false ↦ ([], none)
    | some true ↦ perform (write_file (slaves_file bond) (codes "-" ++ slave))
  ]

  -- AddSlave
  unfoldable pub add_to_bond : Text → Text → BondTrace
  unfolding file_contains
  add_to_bond bond slave = elim (file_contains (slaves_file bond) slave) [
    | none ↦ ([], some (codes "read"))
    | some true ↦ ([], none)
    | some false ↦ perform (write_file (slaves_file bond) (codes "+" ++ slave))
  ]

  -- The slaves go before the mode is set; the errors are not looked at.
  unfoldable pub remove_slaves : Text → List Text → List BondAction
  unfolding remove_slave
  remove_slaves bond [] = []
  remove_slaves bond (slave ∷ slaves) = (remove_slave bond slave).0 ++ remove_slaves bond slaves

  unfoldable pub opt : Text → Text → Text → BondTrace
  unfolding remove_slaves list_slaves
  opt bond key value =
      let write =
        perform (write_file (sys_class_net ++ (bond ++ (codes "/bonding/" ++ key))) value) in
      if text_eq key (codes "mode")
      then (
        link_down bond
            ∷ ((elim (list_slaves bond) [ none ↦ [] | some slaves ↦ remove_slaves bond slaves ])
                ++ write.0),
        write.1,
      )
      else write

  -- Bond behind `init`: the bond is there or is created.
  unfoldable pub bond_of : Text → BondTrace
  unfolding file_contains
  bond_of name = elim (file_contains bonding_masters name) [
    | none ↦ ([], some (codes "read"))
    | some true ↦ ([], none)
    | some false ↦ perform (write_file bonding_masters (codes "+" ++ name))
  ]
