-- ===== src/Examples/Cli.antt =====
-- Resource sets of an order: `( vip:start web:start ) db:start [ a b sequential=true ]`.
use crmsh.Prelude.{◌≡◌, refl, true, none, some, [], ◌∷◌, codes, arith, same, truthy}
use crmsh.Prelude.Results.{ok, err}
use crmsh.Units.Time.{lower}
use crmsh.Units.Booleans.{is_boolean_true, one_of}
use crmsh.Cli.Sets.Element.{RscSet, order, action_attr, Schema, canonize}
use crmsh.Cli.Sets.Format.{
  rsc_set_constraint, set_tokens, count_refs, boolean_maybe, references, reference, qualifier,
  open_tokens, close_tokens,
}
use crmsh.Cli.Sets.Parser.{canonical_qualifier, parse_sets, unmatched_open}
use crmsh.Cli.Sets.Choice.{match_resource_set, resource_sets}
use crmsh.Cli.Sets.Words.{unqualified, by_schema}
use crmsh.Cli.Sets.Written.{match_resource_set-written}

abbrev schema : Schema
schema = record {
  roles = codes "Promoted" ∷ codes "Unpromoted" ∷ [];
  actions = codes "start" ∷ codes "stop" ∷ [];
  ocf_1_1 = true;
  auto_convert_role = true;
}

abbrev both_start : RscSet
both_start = record {
  require_all = none;
  sequential = some (codes "no");
  role = none;
  action = some (codes "start");
  refs = codes "vip" ∷ codes "web" ∷ [];
}

abbrev database : RscSet
database = record {
  require_all = some (codes "true");
  sequential = none;
  role = none;
  action = some (codes "start");
  refs = codes "db" ∷ [];
}

abbrev any : RscSet
any = record {
  require_all = some (codes "false");
  sequential = none;
  role = none;
  action = none;
  refs = codes "a" ∷ codes "b" ∷ [];
}

any-tokens :
    set_tokens order any
    ≡ codes "[" ∷ codes "a" ∷ codes "b" ∷ codes "sequential=true" ∷ codes "]" ∷ []
unfolding set_tokens boolean_maybe is_boolean_true references reference qualifier open_tokens
    close_tokens one_of lower same truthy
any-tokens = refl

-- Brackets that touch a single resource on both sides are not both taken off.
parse_sets-touching : parse_sets schema action_attr (codes "(a)" ∷ []) ≡ err unmatched_open
unfolding parse_sets same
parse_sets-touching = refl

match_resource_set-written_example :
    match_resource_set schema order action_attr
      (rsc_set_constraint order (both_start ∷ database ∷ any ∷ []))
    ≡ ok (
        resource_sets (
          record both_start { sequential = some (codes "false") }
          ∷ record database { require_all = none }
          ∷ any
          ∷ []))
unfolding count_refs boolean_maybe is_boolean_true one_of lower same canonical_qualifier canonize
    truthy
match_resource_set-written_example =
    match_resource_set-written schema order (both_start ∷ database ∷ any ∷ []) refl (omega arith)
      (
        record {
          is_qualified = by_schema (refl, (refl, (refl, (refl, (refl, (refl, tt)))))) refl;
          no_other = refl;
          nonempty = refl;
          resources = (
            ((refl, (refl, (refl, (refl, tt)))), refl),
            (((refl, (refl, (refl, (refl, tt)))), refl), tt),
          );
        },
        (
          record {
            is_qualified = by_schema (refl, (refl, (refl, (refl, (refl, (refl, tt)))))) refl;
            no_other = refl;
            nonempty = refl;
            resources = (((refl, (refl, (refl, tt))), refl), tt);
          },
          (
            record {
              is_qualified = unqualified;
              no_other = refl;
              nonempty = refl;
              resources = (((refl, (refl, tt)), refl), (((refl, (refl, tt)), refl), tt));
            },
            tt,
          ),
        ),
      )
      (refl, (refl, tt))
