-- ===== src/Corosync/Links/Settings.antt =====
-- `LinkManager.update_link` of crmsh/corosync.py; `str` writes a number.
use crmsh.Prelude.{
  ℕ, Bool, false, Option, none, some, List, [], ◌∷◌, ◌==◌, if◌then◌else◌, Text, same,
}
use crmsh.Prelude.Results.{Result, ok, ◌>>=◌, ◌>>◌}
use crmsh.Corosync.Links.State.{
  Interface, Config, Setting, number, word, Options, LinkError, assertion, bad_option,
}
use crmsh.Corosync.Links.Reading.{
  or_raise, raise_unless, interfaces_of, option_names, load_options, links,
}
use crmsh.Corosync.Links.Addresses.{contains_name, link_at}

abbrev pub with_interfaces : Option (List Interface) → Config → Config
with_interfaces x config = record config {
  totem = elim config.totem [ none ↦ none | some t ↦ some (record t { interfaces = x }) ];
}

-- `interface.pop(k, None)` and `interface[k] = str(v)`
unfoldable pub pop_entry : Text → List (Text × Text) → List (Text × Text)
pop_entry key [] = []
pop_entry key ((k, v) ∷ d) = let rest = pop_entry key d in if same k key then d else (k, v) ∷ rest

unfoldable pub put_entry : Text → Text → List (Text × Text) → List (Text × Text)
put_entry key a [] = (key, a) ∷ []
put_entry key a ((k, v) ∷ d) =
    let rest = put_entry key a d in if same k key then (k, a) ∷ d else (k, v) ∷ rest

unfoldable pub has_number : ℕ → Interface → Bool
has_number i x = elim x.linknumber [ none ↦ false | some n ↦ n == i ]

-- The key `interface` goes with its last item.
unfoldable pub put_interfaces : List Interface → Config → Config
put_interfaces [] config =
    with_interfaces (elim (interfaces_of config) [ none ↦ some [] | some old ↦ none ]) config
put_interfaces (x ∷ xs) config = with_interfaces (some (x ∷ xs)) config

abbrev pub or_empty : Option (List Interface) → List Interface
or_empty none = []
or_empty (some xs) = xs

unfoldable pub check_options : List (Text × Option Text) → Result LinkError (Unit {0})
unfolding contains_name option_names
check_options [] = ok tt
check_options ((name, v) ∷ options) = do
  raise_unless bad_option (contains_name name option_names)
  check_options options

module _ {Number : Type 0} (str : Number → Text) where
  unfoldable pub write_setting : Setting Number → Text
  write_setting (number n) = str n
  write_setting (word w) = w

  unfoldable pub write_options :
      List Text → Options Number → List (Text × Text) → List (Text × Text)
  unfolding write_setting pop_entry put_entry
  write_options [] o d = d
  write_options (name ∷ names) o d = elim (o name) [
    | none ↦ write_options names o (pop_entry name d)
    | some x ↦ write_options names o (put_entry name (write_setting x) d)
  ]

  -- The interface of the link is written over, added, or deleted where it says nothing.
  unfoldable pub write_interface : ℕ → Options Number → List Interface → List Interface
  unfolding write_options has_number option_names
  write_interface i o [] =
      let d = write_options option_names o [] in
      (elim d [ [] ↦ [] | e ∷ d' ↦ record { linknumber = some i; entries = e ∷ d' } ∷ [] ])
  write_interface i o (x ∷ xs) =
      let rest = write_interface i o xs in
      let d = write_options option_names o x.entries in
      if has_number i x
      then (elim d [ [] ↦ xs | e ∷ d' ↦ record x { entries = e ∷ d' } ∷ xs ])
      else x ∷ rest

module _ {Number : Type 0} (int : Text → Option Number) (str : Number → Text) where
  -- `update_link`
  unfoldable pub update_link : ℕ → List (Text × Option Text) → Config → Result LinkError Config
  unfolding links link_at check_options load_options option_names write_interface put_interfaces
  update_link i options config = do
    ls ← links int config
    l ← link_at i ls
    check_options options
    o ← load_options int options option_names l.options
    t ← or_raise assertion config.totem
    ok (put_interfaces (write_interface str i o (or_empty (interfaces_of config))) config)
