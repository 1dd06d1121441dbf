-- ===== src/Cli/Sets/Element.antt =====
-- The element `resource_set`, and the words that stand for its parts on the command line.
use crmsh.Prelude.{
  ℕ, Bool, true, false, ◌&&◌, ◌||◌, Option, none, some, List, [], ◌∷◌, ◌==◌, if◌then◌else◌, Text,
  same, codes,
}
use crmsh.Units.Time.{lower}

-- `<resource_set require-all= sequential= role= action=>`, with the ids of its `resource_ref`s.
pub record RscSet : Type 0 where
  pub require_all : Option Text
  pub sequential : Option Text
  pub role : Option Text
  pub action : Option Text
  pub refs : List Text

-- The type of the constraint.
pub data ObjType : Type 0 where
  location colocation order rsc_ticket : ObjType

-- `q_attr`: what follows the colon behind a resource.
pub data Qualifier : Type 0 where
  role_attr action_attr : Qualifier

-- What the schema and the options say. `roles` and `actions` are the values that the schema allows;
-- `ocf_1_1` is `is_ocf_1_1_cib_schema_detected()`.
pub record Schema : Type 0 where
  pub roles : List Text
  pub actions : List Text
  pub ocf_1_1 : Bool
  pub auto_convert_role : Bool

-- `Validation.canonize`
unfoldable pub canonize : Text → List Text → Option Text
canonize value [] = none
canonize value (x ∷ lst) = if same (lower value) (lower x) then some x else canonize value lst

-- `handle_role_for_ocf_1_1` of crmsh/utils.py, for a value named `role`.
unfoldable pub handle_role : Schema → Text → Text
handle_role schema value =
    if (same value (codes "Promoted") || same value (codes "Unpromoted"))
      && (if schema.ocf_1_1 then false else true)
    then (if same value (codes "Promoted") then codes "Master" else codes "Slave")
    else if (same value (codes "Master") || same value (codes "Slave"))
        && (schema.ocf_1_1 && schema.auto_convert_role)
    then (if same value (codes "Master") then codes "Promoted" else codes "Unpromoted")
    else value

unfoldable pub add_to_first : ℕ → List Text → List Text
add_to_first c [] = (c ∷ []) ∷ []
add_to_first c (x ∷ xs) = (c ∷ x) ∷ xs

-- `p.split(sep)` for a single character.
unfoldable pub split : ℕ → Text → List Text
unfolding add_to_first
split sep [] = [] ∷ []
split sep (c ∷ p) = let rest = split sep p in if c == sep then [] ∷ rest else add_to_first c rest

-- `c in p`
unfoldable pub contains : ℕ → Text → Bool
contains c [] = false
contains c (x ∷ p) = x == c || contains c p

abbrev pub is_open : ℕ → Bool
is_open c = c == b'(' || c == b'['

abbrev pub is_close : ℕ → Bool
is_close c = c == b')' || c == b']'

-- `p[len(p)-1] in close_set`
unfoldable pub ends_closed : Text → Bool
ends_closed [] = false
ends_closed (c ∷ []) = is_close c
ends_closed (c ∷ d ∷ p) = ends_closed (d ∷ p)
