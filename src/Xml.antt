-- ===== src/Xml.antt =====
-- The part of an lxml element that the program's id management reads and writes: the tag, the
-- attributes and the children. Texts, comments and namespaces are left out.
use crmsh.Prelude.{
  Bool, Option, none, some, List, [], ◌∷◌, if◌then◌else◌, Text, codes, same, ◌||◌, ◌≡◌, refl, arith,
  same_iff,
}

abbrev pub Attributes : Type 0
Attributes = List (Text × Text)

-- `node.get(key)`
unfoldable pub get_attribute : Text → Attributes → Option Text
get_attribute key [] = none
get_attribute key ((k, v) ∷ as') = if same k key then some v else get_attribute key as'

-- `node.set(key, value)`
unfoldable pub set_attribute : Text → Text → Attributes → Attributes
set_attribute key value [] = (key, value) ∷ []
set_attribute key value ((k, v) ∷ as') =
    if same k key then (k, value) ∷ as' else (k, v) ∷ set_attribute key value as'

pub get_attribute-set_attribute :
    (k j v : Text) (a : Attributes)
    → get_attribute j (set_attribute k v a) ≡ (if same k j then some v else get_attribute j a)
unfolding get_attribute set_attribute
get_attribute-set_attribute k j v [] = refl
get_attribute-set_attribute k j v ((i, w) ∷ a) =
    ground (arith, same_iff k j, same_iff i k, same_iff i j, get_attribute-set_attribute k j v a)

mutual
  pub data Node : Type 0 where
    node : Text → Attributes → Nodes → Node

  pub data Nodes : Type 0 where
    nil : Nodes
    cons : Node → Nodes → Nodes

abbrev pub tag : Node → Text
tag (node t a cs) = t

abbrev pub attributes : Node → Attributes
attributes (node t a cs) = a

abbrev pub get : Node → Text → Option Text
get n key = get_attribute key (attributes n)

abbrev pub set : Node → Text → Text → Node
set (node t a cs) key value = node t (set_attribute key value a) cs

-- `c.tag in ('primitive', 'group')`
unfoldable pub is_resource : Node → Bool
is_resource c = same (tag c) (codes "primitive") || same (tag c) (codes "group")

module _ {ℓ} {S : Type ℓ} (fun : Node → S → S) where
  unfoldable mutual
    -- `xmltraverse` of crmsh/xmlutil.py, over the state that `fun` changes.
    pub xmltraverse : Node → S → S
    xmltraverse (node t a cs) s = xmltraverse_children cs s

    pub xmltraverse_children : Nodes → S → S
    xmltraverse_children nil s = s
    xmltraverse_children (cons c cs) s = xmltraverse_children cs (xmltraverse c (fun c s))

  unfoldable mutual
    -- `xmltraverse_thin`: the children that are no resources first, then the node.
    pub xmltraverse_thin : Node → S → S
    xmltraverse_thin (node t a cs) s = fun (node t a cs) (xmltraverse_thin_children cs s)

    pub xmltraverse_thin_children : Nodes → S → S
    xmltraverse_thin_children nil s = s
    xmltraverse_thin_children (cons c cs) s =
        xmltraverse_thin_children cs (if is_resource c then s else xmltraverse_thin c s)
