-- ===== src/Corosync/Links/State.antt =====
-- The part of the configuration that `LinkManager` of crmsh/corosync.py works on, and the links that
-- it reads from it.
use crmsh.Prelude.{ℕ, Option, none, some, List, [], ◌∷◌, if◌then◌else◌, ◌==◌, Text, same}

-- An item of `nodelist.node`. `addr i` is what the key `ring{i}_addr` has, where it is there.
pub record Node : Type 0 where
  pub nodeid : ℕ
  pub name : Text
  pub addr : ℕ → Option Text

-- An item of `totem.interface`: its `linknumber`, where it is there, and its other keys.
pub record Interface : Type 0 where
  pub linknumber : Option ℕ
  pub entries : List (Text × Text)

pub record Totem : Type 0 where
  pub transport : Option Text
  pub interfaces : Option (List Interface)

pub record Config : Type 0 where
  pub totem : Option Totem
  pub nodelist : Option (List Node)

pub record LinkNode : Type 0 where
  pub id : ℕ
  pub node_name : Text
  pub address : Text

-- What an option of a link may hold: the types of the fields of `Link`; `Number` is `int`.
pub data Setting (Number : Type 0) : Type 0 where
  number : Number → Setting Number
  word : Text → Setting Number

-- The fields of `Link` that hold options, by their names.
abbrev pub Options : Type 0 → Type 0
Options Number = Text → Option (Setting Number)

pub record Link (Number : Type 0) : Type 0 where
  pub index : ℕ
  pub nodes : List LinkNode
  pub options : Options Number

-- The exceptions: those of `LinkManager`, and those of what it calls.
pub data LinkError : Type 0 where
  assertion key_error index_error stop_iteration bad_number bad_address : LinkError
  no_link last_link too_many bad_option : LinkError
  unknown_node : ℕ → LinkError
  missing_nodes : List ℕ → LinkError
  duplicate : Text → ℕ → ℕ → LinkError

-- `d.get(key)` of a mapping.
unfoldable pub find : {A : Type 0} → Text → List (Text × A) → Option A
find key [] = none
find key ((k, v) ∷ d) = if same k key then some v else find key d

unfoldable pub find_id : {A : Type 0} → ℕ → List (ℕ × A) → Option A
find_id n [] = none
find_id n ((k, v) ∷ d) = if k == n then some v else find_id n d
