-- ===== src/Examples/Handles.antt =====
-- Concrete runs of the templates.
use crmsh.Prelude.{true, [], codes}
use crmsh.Handles.Values.{text, boolean, Dict, end, entry}
use crmsh.Handles.Template.{parse}
use crmsh.Handles.Rounds.{Ends, parse-Ends}

abbrev values : Dict
values = entry (codes "user") (text (codes "bob")) (entry (codes "loud") (boolean true) end)

parse-Ends_example :
    Ends (parse (λ o. []) true (codes "{{#loud}}{{user}}{{/loud}}{{^loud}}") values)
parse-Ends_example = parse-Ends (λ o. []) true (codes "{{#loud}}{{user}}{{/loud}}{{^loud}}") values
