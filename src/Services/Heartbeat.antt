-- ===== src/Services/Heartbeat.antt =====
-- internal/services/types.go, filters.go, commits.go: the server's heartbeat and small readings of it.
-- A time is a natural number of ticks of 2^-22 seconds, as in Cli.Heartbeat; `metadata` and
-- `raw_payload`, maps that only travel along, are texts here.
use stint.Prelude.{ℕ, Bool, true, false, ◌||◌, Option, none, some, List, [], ◌∷◌, if◌then◌else◌}
use stint.Prelude.Text.{Str, str_eq}
use stint.Prelude.Int.{ℤ}

pub record Heartbeat : Type 0 where
  pub id : Str
  pub entity : Str
  pub entity_type : Str
  pub category : Str
  pub time : ℕ
  pub project : Str
  pub branch : Str
  pub commit_hash : Str
  pub revision : Str
  pub language : Str
  pub machine_name : Str
  pub plugin : Str
  pub plugin_version : Str
  pub editor : Str
  pub editor_version : Str
  pub operating_system : Str
  pub architecture : Str
  pub dependencies : Str
  pub lines : Option ℤ
  pub line_number : Option ℤ
  pub cursor_position : Option ℤ
  pub is_write : Bool
  pub ai_line_changes : Option ℤ
  pub human_line_changes : Option ℤ
  pub ai_session : Str
  pub ai_input_tokens : Option ℤ
  pub ai_output_tokens : Option ℤ
  pub ai_prompt_length : Option ℤ
  pub ai_subscription_plan : Str
  pub ai_model : Str
  pub ai_provider : Str
  pub ai_agent : Str
  pub ai_agent_version : Str
  pub ai_agent_complexity : Str
  pub metadata : Str
  pub raw_payload : Str

-- `s == ""`
abbrev pub is_empty : Str → Bool
is_empty s = str_eq s []

-- `FilterWritesOnly`
unfoldable pub filter_writes_only : List Heartbeat → Bool → List Heartbeat
filter_writes_only [] writes_only = []
filter_writes_only (h ∷ hs) writes_only =
    let rest = filter_writes_only hs writes_only in
    if writes_only then (if h.is_write then h ∷ rest else rest) else h ∷ rest

-- `normalizeCommitHash`
unfoldable pub normalize_commit_hash : Heartbeat → Str
normalize_commit_hash h = if is_empty h.commit_hash then h.revision else h.commit_hash

is_some : Option ℤ → Bool
is_some none = false
is_some (some n) = true

-- The pointers that are not nil, and the session: the last line of `hasAIFields`, and
-- `heartbeatHasAIFields`.
unfoldable pub heartbeat_has_ai_fields : Heartbeat → Bool
unfolding is_some
heartbeat_has_ai_fields h =
    is_some h.ai_line_changes
    || is_some h.human_line_changes
    || is_some h.ai_input_tokens
    || is_some h.ai_output_tokens
    || is_some h.ai_prompt_length
    || (if is_empty h.ai_session then false else true)
