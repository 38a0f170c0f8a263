-- ===== src/Services/Prepare.antt =====
-- internal/services/heartbeat.go: what a heartbeat is completed with when it comes in, and what is checked.
pub mod Project
pub mod Language
pub mod Order
use stint.Prelude.{
  ℕ, ◌+◌, ◌/◌, Bool, true, false, not, ◌&&◌, ◌||◌, Option, none, some, List, [], ◌∷◌, ◌++◌, ltb,
  ◌==◌, if◌then◌else◌,
}
use stint.Prelude.Text.{Str, codes, str_eq}
use stint.Pricing.Normalize.{Strings}
use stint.Cli.Heartbeat.{ticks_per_second}
use stint.Services.Heartbeat.{Heartbeat, is_empty, heartbeat_has_ai_fields}
use stint.Services.Durations.Rows.{Fold}
use stint.Services.Rules.{contains}
use Project.{Files, apply_project_detection}
use Language.{infer_language_from_entity}

pub record HeartbeatDefaults : Type 0 where
  pub plugin : Str
  pub plugin_version : Str
  pub editor : Str
  pub editor_version : Str
  pub operating_system : Str
  pub architecture : Str
  pub ai_agent : Str
  pub ai_agent_version : Str

-- `if s == "" { s = fallback }`
abbrev pub or_else : Str → Str → Str
or_else s fallback = if is_empty s then fallback else s

-- `derivedMachineName`
unfoldable pub derived_machine_name : Strings → Heartbeat → Str
derived_machine_name st h =
    let editor = st.trim_space h.editor in
    let os_name = st.trim_space h.operating_system in
    if is_empty editor
      || str_eq editor (codes "Unknown")
      || is_empty os_name
      || str_eq os_name (codes "Unknown")
    then []
    else st.to_lower (editor ++ codes "-" ++ os_name)

-- `inferAIProvider`
unfoldable pub infer_ai_provider : Strings → Heartbeat → Str
infer_ai_provider st h =
    let space = codes " " in
    let text =
      st.to_lower (h.ai_agent ++ space ++ h.ai_model ++ space ++ h.editor ++ space ++ h.plugin) in
    if contains text (codes "claude") || contains text (codes "anthropic")
    then codes "anthropic"
    else if contains text (codes "gpt")
        || contains text (codes "openai")
        || contains text (codes "codex")
    then codes "openai"
    else if contains text (codes "gemini") || contains text (codes "google")
    then codes "google"
    else if contains text (codes "copilot")
    then codes "github"
    else []

-- The assignments of defaults, in the order of the source.
unfoldable pub with_defaults : HeartbeatDefaults → Heartbeat → Heartbeat
with_defaults d h =
    let commit_hash = or_else h.commit_hash h.revision in
    record h {
      entity_type = or_else h.entity_type (codes "file");
      category = or_else h.category (codes "coding");
      commit_hash = commit_hash;
      revision = or_else h.revision commit_hash;
      editor = or_else h.editor d.editor;
      editor_version = or_else h.editor_version d.editor_version;
      operating_system = or_else h.operating_system d.operating_system;
      plugin = or_else h.plugin d.plugin;
      plugin_version = or_else h.plugin_version d.plugin_version;
      architecture = or_else h.architecture d.architecture;
      ai_agent = or_else h.ai_agent d.ai_agent;
      ai_agent_version = or_else h.ai_agent_version d.ai_agent_version;
    }

-- The agent of a heartbeat from Codex.
unfoldable pub with_codex_agent : Fold → Heartbeat → Heartbeat
with_codex_agent fold h =
    if is_empty h.ai_agent && fold.equal_fold h.editor (codes "codex") && heartbeat_has_ai_fields h
    then record h { ai_agent = codes "gpt" }
    else h

unfoldable pub with_provider : Strings → Heartbeat → Heartbeat
with_provider st h = record h { ai_provider = or_else h.ai_provider (infer_ai_provider st h) }

unfoldable pub with_machine : Strings → Heartbeat → Heartbeat
with_machine st h = record h { machine_name = or_else h.machine_name (derived_machine_name st h) }

unfoldable pub with_language : Strings → Files → List (Str × Str) → Heartbeat → Heartbeat
with_language st fs order h = record h {
  language = or_else h.language (infer_language_from_entity st fs.base order h.entity);
}

-- `PrepareHeartbeat`; `order` is the table of extensions as a `range` over it goes.
unfoldable pub prepare_heartbeat :
    Strings → Fold → Files → List (Str × Str) → HeartbeatDefaults → Heartbeat → Heartbeat
prepare_heartbeat st fold fs order d h =
    let agent = with_codex_agent fold (with_defaults d h) in
    let machine = with_machine st (with_provider st agent) in
    with_language st fs order (apply_project_detection st fs machine)

-- The errors of `ValidateHeartbeatAt`.
pub data HeartbeatError : Type 0 where
  no_entity : HeartbeatError
  no_time : HeartbeatError
  out_of_range : HeartbeatError

-- `ValidateHeartbeatAt`, on a time that is a number; `year_ago` is `now.AddDate(-1, 0, 0)`, and both it
-- and `now` are whole seconds.
unfoldable pub validate_heartbeat_at : Strings → Heartbeat → ℕ → ℕ → Option HeartbeatError
validate_heartbeat_at st h year_ago now =
    let t = h.time / ticks_per_second in
    if is_empty (st.trim_space h.entity)
    then some no_entity
    else if h.time == 0
    then some no_time
    else if ltb t year_ago || ltb (now + 86400) t
    then some out_of_range
    else none
