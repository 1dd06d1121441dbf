-- ===== src/Examples/Units.antt =====
-- `crm_msec` on "2Min", and the option "Yes".
use crmsh.Prelude.{true, false, ◌&&◌, ◌||◌, ◌≡◌, refl, ◌++◌, codes, str}
use crmsh.Units.Time.{is_letter, lower, unit, convtab, convert, crm_msec}
use crmsh.Units.Booleans.{
  Opt, word, verify_boolean, is_boolean_true, is_boolean_false, canonical_boolean,
  canonical_boolean_lem,
}
use crmsh.Units.RoundTrip.{crm_msec-str}

crm_msec-str_example :
    crm_msec (str 2 ++ codes "Min") ≡ convert 2 (unit (lower (codes "Min")) convtab)
unfolding is_letter
crm_msec-str_example = crm_msec-str 2 (codes "Min") (refl, (refl, (refl, tt)))

abbrev yes : Opt
yes = word (codes "Yes")

canonical_boolean_lem_example :
    ((is_boolean_true yes && is_boolean_false yes) ≡ false)
    × (verify_boolean (codes "OFF")
        ≡ (is_boolean_true (word (codes "OFF")) || is_boolean_false (word (codes "OFF"))))
    × (verify_boolean (canonical_boolean yes) ≡ true)
    × (is_boolean_true (word (canonical_boolean yes)) ≡ is_boolean_true yes)
canonical_boolean_lem_example = canonical_boolean_lem yes (codes "OFF")
