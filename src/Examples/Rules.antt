-- ===== src/Examples/Rules.antt =====
-- Examples of internal/services/custom_rules.go: a rule that renames a project and one that deletes.
use stint.Prelude.{◌≡◌, refl, true, false, Option, none, some, List, [], ◌∷◌, map, arith}
use stint.Prelude.Text.{Str, codes, str_eq}
use stint.Prelude.Sort.{Ascending, insertion_sort, insertion_sort-IsSort}
use stint.Services.Heartbeat.{Heartbeat}
use stint.Services.Rules.{
  CustomRule, Prepared, Regexp, validate_custom_rules, check_rule, check_destinations,
  prepare_custom_rules, apply_custom_rules, apply_prepared_custom_rules, takes_regex,
  normalize_custom_rule_operation,
}
use stint.Services.Rules.Fields.{
  normalize_field, valid_custom_rule_field, heartbeat_field, set_heartbeat_field, underscores,
}
use stint.Services.Rules.Laws.{
  heartbeat_field-set, untouched, apply_prepared_custom_rules-untouched,
}
use stint.Services.Rules.Prepare.{
  HasRegex, validate-prepare_custom_rules, apply_custom_rules-broken,
}
use stint.Examples.Pricing.{ascii}
use stint.Examples.Services.{blank}

-- "(" is no regular expression; another text matches itself.
abbrev compile : Str → Option Regexp
compile s = elim (str_eq s (codes "(")) [ true ↦ none | false ↦ some (str_eq s) ]

abbrev rename : CustomRule
rename = record {
  id = [];
  action = codes "change";
  source = codes "project";
  operation = codes "regex";
  source_value = codes "stint";
  priority = 2;
  destinations = record { destination = codes "branch"; destination_value = codes "main" } ∷ [];
  created_at = [];
  modified_at = [];
}

abbrev drop_vim : CustomRule
drop_vim = record rename {
  action = codes "delete";
  source = codes "editor";
  operation = codes "equals";
  source_value = codes "vim";
  priority = 1;
  destinations = [];
}

abbrev rules : List CustomRule
rules = rename ∷ drop_vim ∷ []

abbrev sort : List CustomRule → List CustomRule
sort = insertion_sort (λ r. r.priority)

validate-prepare_custom_rules_example :
    (ps : List Prepared) × (prepare_custom_rules ascii compile sort rules ≡ some ps)
    × (map (λ p. p.rule) ps ≡ sort rules)
    × Ascending (λ p. p.rule.priority) 0 ps
    × HasRegex ascii compile ps
unfolding validate_custom_rules check_rule check_destinations valid_custom_rule_field
    normalize_field str_eq
validate-prepare_custom_rules_example =
    validate-prepare_custom_rules ascii compile sort (insertion_sort-IsSort (λ r. r.priority)) rules
      refl

abbrev bad : List CustomRule
bad = drop_vim ∷ record rename { source_value = codes "(" } ∷ []

apply_custom_rules-broken_example : apply_custom_rules ascii compile sort blank bad ≡ (blank, false)
unfolding normalize_custom_rule_operation underscores takes_regex str_eq
apply_custom_rules-broken_example =
    apply_custom_rules-broken ascii compile sort (insertion_sort-IsSort (λ r. r.priority)) bad blank
      (omega arith)

abbrev on_linux : Heartbeat
on_linux = set_heartbeat_field ascii blank (codes "operating system") (codes "linux")

heartbeat_field-set_example :
    heartbeat_field ascii on_linux (codes "operating_system") ≡ codes "linux"
unfolding valid_custom_rule_field normalize_field str_eq
heartbeat_field-set_example =
    heartbeat_field-set ascii blank (codes "linux") (codes "operating system")
      (codes "operating_system")

abbrev prepared : List Prepared
prepared = record { rule = rename; operation = codes "equals"; regex = none } ∷ []

apply_prepared_custom_rules-untouched_example :
    untouched (apply_prepared_custom_rules ascii blank prepared).0 ≡ untouched blank
apply_prepared_custom_rules-untouched_example =
    apply_prepared_custom_rules-untouched ascii blank prepared
