-- ===== src/Cli/Heartbeat.antt =====
-- internal/stintcli/heartbeat.go: the fields of a heartbeat that the queue and its synchronisation look
-- at, and its `ID`. The other fields only travel along: `payload` stands for them.
use stint.Prelude.{ℕ, ◌^◌, Bool, true, false, Option, none, some, [], ◌++◌, if◌then◌else◌}
use stint.Prelude.Text.{Str, codes, str_eq}

-- A time is a number of ticks of 2^-22 seconds. The times of heartbeats, doubles between 2^30 and 2^31
-- seconds (the years 2004 to 2038), are whole numbers of ticks, and their differences are exact.
abbrev pub ticks_per_second : ℕ
ticks_per_second = 2 ^ 22

pub record Heartbeat : Type 0 where
  pub entity : Str
  pub entity_type : Str
  pub time : ℕ
  pub branch : Str
  pub category : Str
  pub cursor_position : Option ℕ
  pub is_write : Bool
  pub project : Str
  pub payload : Str

-- `fmt.Sprint` of an integer and `fmt.Sprintf("%f", …)` of a time.
pub record Formats : Type 0 where
  pub sprint : ℕ → Str
  pub fixed : ℕ → Str

abbrev or_text : Str → Str → Str
or_text s fallback = if str_eq s [] then fallback else s

cursor_text : Formats → Option ℕ → Str
cursor_text f none = codes "nil"
cursor_text f (some n) = f.sprint n

-- `%t`
bool_text : Bool → Str
bool_text true = codes "true"
bool_text false = codes "false"

-- `Heartbeat.ID`
unfoldable pub id_of : Formats → Heartbeat → Str
unfolding cursor_text bool_text
id_of f h =
    let dash = codes "-" in
    f.fixed h.time
    ++ dash
    ++ cursor_text f h.cursor_position
    ++ dash
    ++ h.entity_type
    ++ dash
    ++ or_text h.category (codes "undefined")
    ++ dash
    ++ or_text h.project (codes "unset")
    ++ dash
    ++ or_text h.branch (codes "unset")
    ++ dash
    ++ h.entity
    ++ dash
    ++ bool_text h.is_write
