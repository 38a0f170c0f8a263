-- ===== src/Services/Rules/Fields.antt =====
-- internal/services/custom_rules.go: the fields of a heartbeat that a rule reads and writes.
use stint.Prelude.{Bool, false, ◌||◌, Option, none, some, List, [], ◌∷◌, map, ◌==◌, if◌then◌else◌}
use stint.Prelude.Text.{Str, codes, str_eq}
use stint.Pricing.Normalize.{Strings}
use stint.Services.Heartbeat.{Heartbeat}

-- The cases of the switches of `heartbeatField` and `setHeartbeatField`.
pub data Field : Type 0 where
  entity : Field
  entity_type : Field
  category : Field
  project : Field
  branch : Field
  language : Field
  editor : Field
  operating_system : Field

abbrev pub name_of : Field → Str
name_of entity = codes "entity"
name_of entity_type = codes "type"
name_of category = codes "category"
name_of project = codes "project"
name_of branch = codes "branch"
name_of language = codes "language"
name_of editor = codes "editor"
name_of operating_system = codes "operating_system"

-- The first field of a list with that name.
unfoldable pub field_among : List Field → Str → Option Field
field_among [] s = none
field_among (f ∷ fs) s = if str_eq s (name_of f) then some f else field_among fs s

abbrev pub all_fields : List Field
all_fields =
    entity ∷ entity_type ∷ category ∷ project ∷ branch ∷ language ∷ editor ∷ operating_system ∷ []

-- The case that a switch takes, with `none` for `default`.
unfoldable pub field_of : Str → Option Field
unfolding field_among
field_of s = field_among all_fields s

unfoldable pub read : Option Field → Heartbeat → Str
read none h = []
read (some entity) h = h.entity
read (some entity_type) h = h.entity_type
read (some category) h = h.category
read (some project) h = h.project
read (some branch) h = h.branch
read (some language) h = h.language
read (some editor) h = h.editor
read (some operating_system) h = h.operating_system

unfoldable pub write : Option Field → Str → Heartbeat → Heartbeat
write none v h = h
write (some entity) v h = record h { entity = v }
write (some entity_type) v h = record h { entity_type = v }
write (some category) v h = record h { category = v }
write (some project) v h = record h { project = v }
write (some branch) v h = record h { branch = v }
write (some language) v h = record h { language = v }
write (some editor) v h = record h { editor = v }
write (some operating_system) v h = record h { operating_system = v }

-- `strings.ReplaceAll(value, " ", "_")`
unfoldable pub underscores : Str → Str
underscores s = map (λ c. if c == b' ' then b'_' else c) s

-- `validCustomRuleFields`
abbrev pub valid_custom_rule_fields : List Str
valid_custom_rule_fields =
    codes "branch"
    ∷ codes "category"
    ∷ codes "editor"
    ∷ codes "entity"
    ∷ codes "language"
    ∷ codes "operating_system"
    ∷ codes "project"
    ∷ codes "type"
    ∷ []

-- Whether a key is in a map of type `map[string]bool` that holds only `true`.
unfoldable pub is_in : List Str → Str → Bool
is_in [] s = false
is_in (t ∷ ts) s = str_eq s t || is_in ts s

module _ (st : Strings) where
  open st use {to_lower, trim_space}

  -- `normalizeField`
  unfoldable pub normalize_field : Str → Str
  unfolding underscores
  normalize_field value = underscores (to_lower (trim_space value))

  -- `heartbeatField`
  unfoldable pub heartbeat_field : Heartbeat → Str → Str
  unfolding read
  heartbeat_field h field = read (field_of (normalize_field field)) h

  -- `setHeartbeatField`
  unfoldable pub set_heartbeat_field : Heartbeat → Str → Str → Heartbeat
  unfolding write
  set_heartbeat_field h field value = write (field_of (normalize_field field)) value h

  -- `validCustomRuleField`
  unfoldable pub valid_custom_rule_field : Str → Bool
  unfolding is_in
  valid_custom_rule_field value = is_in valid_custom_rule_fields (normalize_field value)
