-- ===== src/ConfFormat/Query/Leaves.antt =====
-- `enumerate_all_paths` of crmsh/corosync_config_format.py beside a recursion over the tree.
use crmsh.Prelude.{
  ℕ, ◌+◌, ◌≡◌, Bool, false, ◌||◌, Option, some, List, [], ◌∷◌, ◌++◌, if◌then◌else◌, Text,
  starts_with,
}
use crmsh.ConfFormat.Parser.{comment_prefix}
use crmsh.ConfFormat.Dom.{Value, scalar, dict, list, Items, nil, cons, Fields, end, field}
use crmsh.ConfFormat.Query.Paths.{Entry, has_path, size}

-- The paths of the scalars below a node, without those below a comment.
mutual
  pub leaves : List Text → Value → List (List Text)
  leaves path (scalar s) = path ∷ []
  leaves path (dict d) = leaves_fields path d
  leaves path (list vs) = leaves_items path vs

  pub leaves_fields : List Text → Fields → List (List Text)
  leaves_fields path end = []
  leaves_fields path (field key v fs) =
      (if starts_with comment_prefix key then [] else leaves (path ++ key ∷ []) v)
      ++ leaves_fields path fs

  pub leaves_items : List Text → Items → List (List Text)
  leaves_items path nil = []
  leaves_items path (cons x xs) = leaves path x ++ leaves_items path xs

-- No path is there twice.
abbrev pub Distinct : List (List Text) → Type 0
Distinct [] = Unit
Distinct (q ∷ qs) = (has_path q qs ≡ false) × Distinct qs

module _ (p : List Text) where
  -- Whether the path is below some entry of the queue.
  ahead : List Entry → Bool
  ahead [] = false
  ahead ((v, path) ∷ queue) = has_path p (leaves path v) || ahead queue

-- The nodes that the queue has yet to bring.
total : List Entry → ℕ
total [] = 0
total ((v, path) ∷ queue) = size v + total queue

-- What the loop returns: a list of distinct paths in which `p` stands exactly if the test says so.
abbrev Lists : List Text → Bool → Option (List (List Text)) → Type 0
Lists p b r = (ps : List (List Text)) × (r ≡ some ps) × Distinct ps × (has_path p ps ≡ b)
