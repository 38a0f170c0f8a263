-- ===== src/UsageStats/Groups.antt =====
-- internal/usagestats/summary.go: groups of usage events that were summed up before they are priced. A
-- billing type is a text here, as a group and an override hold it.
use stint.Prelude.{ℕ, ◌+◌, Bool, Option, none, some, [], if◌then◌else◌}
use stint.Prelude.Text.{Str, codes, str_eq}
use stint.Prelude.Dict.{Dict, text_eq, lookup}
use stint.Usage.{Event, BillingType, unknown, api, subscription, other}

pub record Group (F : Type 0) : Type 0 where
  pub agent : Str
  pub model : Str
  pub project : Str
  pub day : Str
  pub billing_type : Str
  pub has_provided : Bool
  pub input : ℕ
  pub output : ℕ
  pub cache_create_5m : ℕ
  pub cache_create_1h : ℕ
  pub cache_read : ℕ
  pub reasoning : ℕ
  pub provided_cost_usd : F
  pub event_count : ℕ

-- `usage.BillingType(…)`
unfoldable pub billing_of : Str → BillingType
billing_of s =
    if str_eq s []
    then unknown
    else (if str_eq s (codes "api")
        then api
        else (if str_eq s (codes "subscription") then subscription else other))

-- `billingOverride[g.Agent]`, or else the text that is there.
unfoldable pub effective : Str → Option Str → Str
effective stored none = stored
effective stored (some override) = override

module _ {F : Type 0} where
  unfoldable pub tokens_of : Group F → ℕ
  tokens_of g =
      g.input + g.output + g.cache_create_5m + g.cache_create_1h + g.cache_read + g.reasoning

  -- `syntheticEvent`; the fields that it leaves out are empty.
  unfoldable pub synthetic_event : Dict Str Str → Group F → Event F
  unfolding billing_of effective
  synthetic_event overrides g = record {
    event_id = [];
    message_id = [];
    request_id = [];
    agent = g.agent;
    session_id = [];
    project = g.project;
    model = g.model;
    input_tokens = g.input;
    output_tokens = g.output;
    cache_create_5m_tokens = g.cache_create_5m;
    cache_create_1h_tokens = g.cache_create_1h;
    cache_read_tokens = g.cache_read;
    reasoning_tokens = g.reasoning;
    cost_usd_provided = if g.has_provided then some g.provided_cost_usd else none;
    timestamp = [];
    billing_type = billing_of (effective g.billing_type (lookup g.agent overrides));
  }
