-- ===== src/Services/Rules.antt =====
-- internal/services/custom_rules.go: the checks on custom rules, and their application to a heartbeat.
-- `regexp.Compile` is a parameter: the predicate that a text compiles to, or `none`. The priority, an
-- int, is a natural number here, 2^63 more than the int.
pub mod Fields
pub mod Laws
pub mod Prepare
use stint.Prelude.{
  ℕ, Bool, true, false, not, ◌&&◌, ◌||◌, Option, none, some, List, [], ◌∷◌, ◌^◌, ltb, leb,
  if◌then◌else◌, length, take,
}
use stint.Prelude.Text.{Str, codes, str_eq}
use stint.Pricing.Normalize.{Strings, has_prefix}
use stint.Services.Heartbeat.{Heartbeat, is_empty}
use Fields.{
  is_in, underscores, normalize_field, heartbeat_field, set_heartbeat_field,
  valid_custom_rule_field,
}

pub record Destination : Type 0 where
  pub destination : Str
  pub destination_value : Str

pub record CustomRule : Type 0 where
  pub id : Str
  pub action : Str
  pub source : Str
  pub operation : Str
  pub source_value : Str
  pub priority : ℕ
  pub destinations : List Destination
  pub created_at : Str
  pub modified_at : Str

abbrev pub max_custom_rules : ℕ
max_custom_rules = 100

abbrev pub max_custom_rule_regex_bytes : ℕ
max_custom_rule_regex_bytes = 512

abbrev pub max_custom_rule_match_bytes : ℕ
max_custom_rule_match_bytes = 4096

-- The errors of `ValidateCustomRules`.
pub data RuleError : Type 0 where
  too_many : RuleError
  bad_action : RuleError
  missing_parts : RuleError
  unsupported_source : RuleError
  bad_operation : RuleError
  regex_too_long : RuleError
  regex_invalid : RuleError
  no_destinations : RuleError
  incomplete_destination : RuleError
  unsupported_destination : RuleError

abbrev pub valid_custom_rule_operations : List Str
valid_custom_rule_operations =
    codes "contains"
    ∷ codes "ends_with"
    ∷ codes "equals"
    ∷ codes "matches"
    ∷ codes "regex"
    ∷ codes "starts_with"
    ∷ []

abbrev pub Regexp : Type 0
Regexp = Str → Bool

-- `operation == "regex" || operation == "matches"`
unfoldable pub takes_regex : Str → Bool
takes_regex operation = str_eq operation (codes "regex") || str_eq operation (codes "matches")

-- The first error of a list of checks: the first check's, if it has one.
infixr 20 ◌or_error◌
abbrev pub ◌or_error◌ : Option RuleError → Option RuleError → Option RuleError
none or_error e = e
some e or_error _ = some e

abbrev pub error_if : Bool → RuleError → Option RuleError
error_if true e = some e
error_if false e = none

-- `strings.Contains`, `strings.HasSuffix`
unfoldable pub contains : Str → Str → Bool
contains [] t = has_prefix [] t
contains (c ∷ s) t = has_prefix (c ∷ s) t || contains s t

unfoldable pub has_suffix : Str → Str → Bool
has_suffix [] t = str_eq [] t
has_suffix (c ∷ s) t = str_eq (c ∷ s) t || has_suffix s t

pub record Prepared : Type 0 where
  pub rule : CustomRule
  pub operation : Str
  pub regex : Option Regexp

-- `rule.regex != nil && rule.regex.MatchString(value)`
unfoldable pub regex_matches : Option Regexp → Str → Bool
regex_matches none value = false
regex_matches (some r) value = r value

-- `prepared = append(prepared, item)`, before the rest of the loop.
unfoldable pub with_first : Prepared → Option (List Prepared) → Option (List Prepared)
with_first p none = none
with_first p (some ps) = some (p ∷ ps)

module _ (st : Strings) where
  open st use {to_lower, trim_space}

  -- `NormalizeCustomRuleOperation`
  unfoldable pub normalize_custom_rule_operation : Str → Str
  normalize_custom_rule_operation value = underscores (to_lower (trim_space value))

  unfoldable pub is_blank : Str → Bool
  is_blank s = is_empty (trim_space s)

  -- The loop over the destinations of a rule.
  unfoldable pub check_destinations : List Destination → Option RuleError
  unfolding is_blank
  check_destinations [] = none
  check_destinations (d ∷ ds) =
      error_if (is_blank d.destination || is_blank d.destination_value) incomplete_destination
      or_error error_if (not (valid_custom_rule_field st d.destination)) unsupported_destination
      or_error check_destinations ds

  unfoldable pub check_change : List Destination → Option RuleError
  check_change [] = some no_destinations
  check_change (d ∷ ds) = check_destinations (d ∷ ds)

module _ (compile : Str → Option Regexp) where
  unfoldable pub check_regex : Str → Option RuleError
  check_regex source_value =
      error_if (ltb max_custom_rule_regex_bytes (length source_value)) regex_too_long
      or_error (elim (compile source_value) [ none ↦ some regex_invalid | some _ ↦ none ])

module _ (st : Strings) (compile : Str → Option Regexp) where
  -- The body of the loop of `ValidateCustomRules`.
  unfoldable pub check_rule : CustomRule → Option RuleError
  unfolding takes_regex check_regex check_change is_blank normalize_custom_rule_operation
  check_rule r =
      let operation = normalize_custom_rule_operation st r.operation in
      error_if (not (str_eq r.action (codes "change") || str_eq r.action (codes "delete")))
        bad_action
      or_error error_if
          (is_blank st r.source || is_blank st r.operation || is_blank st r.source_value)
          missing_parts
      or_error error_if (not (valid_custom_rule_field st r.source)) unsupported_source
      or_error error_if (not (is_in valid_custom_rule_operations operation)) bad_operation
      or_error (if takes_regex operation then check_regex compile r.source_value else none)
      or_error (if str_eq r.action (codes "change") then check_change st r.destinations else none)

  unfoldable pub check_rules : List CustomRule → Option RuleError
  check_rules [] = none
  check_rules (r ∷ rs) = check_rule r or_error check_rules rs

  -- `ValidateCustomRules`
  unfoldable pub validate_custom_rules : List CustomRule → Option RuleError
  unfolding check_rules
  validate_custom_rules rules =
      error_if (ltb max_custom_rules (length rules)) too_many or_error check_rules rules

  -- The loop of `PrepareCustomRules`; `none` is the error of `regexp.Compile`.
  unfoldable pub prepare_loop : List CustomRule → Option (List Prepared)
  unfolding takes_regex with_first
  prepare_loop [] = some []
  prepare_loop (r ∷ rs) =
      let operation = normalize_custom_rule_operation st r.operation in
      let rest = prepare_loop rs in
      if takes_regex operation
      then (elim (compile r.source_value) [
        | none ↦ none
        | some regex ↦
            with_first (record { rule = r; operation = operation; regex = some regex }) rest
      ])
      else with_first (record { rule = r; operation = operation; regex = none }) rest

  -- `PrepareCustomRules`, for a `sort.Slice` by priority.
  unfoldable pub prepare_custom_rules :
      (List CustomRule → List CustomRule) → List CustomRule → Option (List Prepared)
  unfolding prepare_loop
  prepare_custom_rules sort rules = prepare_loop (sort rules)

-- `preparedRuleMatches`
unfoldable pub prepared_rule_matches : Strings → Heartbeat → Prepared → Bool
unfolding contains has_suffix takes_regex regex_matches
prepared_rule_matches st h p =
    let needle = p.rule.source_value in
    let value = heartbeat_field st h p.rule.source in
    if str_eq p.operation (codes "equals")
    then str_eq value needle
    else if str_eq p.operation (codes "contains")
    then contains value needle
    else if str_eq p.operation (codes "starts_with")
    then has_prefix value needle
    else if str_eq p.operation (codes "ends_with")
    then has_suffix value needle
    else if takes_regex p.operation
    then regex_matches p.regex (take max_custom_rule_match_bytes value)
    else false

-- The loop over the destinations of a matching rule.
unfoldable pub set_all : Strings → Heartbeat → List Destination → Heartbeat
set_all st h [] = h
set_all st h (d ∷ ds) = set_all st (set_heartbeat_field st h d.destination d.destination_value) ds

-- One matching rule, without its deletion.
unfoldable pub change_by : Strings → Heartbeat → CustomRule → Heartbeat
unfolding set_all
change_by st h r = if str_eq r.action (codes "change") then set_all st h r.destinations else h

-- `ApplyPreparedCustomRules`
unfoldable pub apply_prepared_custom_rules : Strings → Heartbeat → List Prepared → Heartbeat × Bool
unfolding change_by
apply_prepared_custom_rules st h [] = (h, false)
apply_prepared_custom_rules st h (p ∷ ps) =
    let skip = apply_prepared_custom_rules st h ps in
    let changed = apply_prepared_custom_rules st (change_by st h p.rule) ps in
    if prepared_rule_matches st h p
    then (if str_eq p.rule.action (codes "delete") then (h, true) else changed)
    else skip

-- `ApplyCustomRules`
unfoldable pub apply_custom_rules :
    (st : Strings)
    → (Str → Option Regexp)
    → (List CustomRule → List CustomRule)
    → Heartbeat
    → List CustomRule
    → Heartbeat × Bool
unfolding prepare_custom_rules apply_prepared_custom_rules
apply_custom_rules st compile sort h rules = elim (prepare_custom_rules st compile sort rules) [
  | none ↦ (h, false)
  | some prepared ↦ apply_prepared_custom_rules st h prepared
]
