-- ===== src/Usage.antt =====
-- internal/usage/event.go: the canonical usage event, its id and `Dedup`.
pub mod Id
pub mod Dedup
pub mod Laws
use stint.Prelude.{ℕ, ◌+◌, Bool, true, false, ◌||◌, Option, none, some, ltb}
use stint.Prelude.Text.{Str}

pub data BillingType : Type 0 where
  unknown api subscription other : BillingType

-- Token counts are naturals: the agents report no negative ones. `USD` is the type of dollar amounts,
-- which this component only carries. `TZOffsetMinutes`, which no code of it reads, is left out.
pub record Event (USD : Type 0) : Type 0 where
  pub event_id : Str
  pub message_id : Str
  pub request_id : Str
  pub agent : Str
  pub session_id : Str
  pub project : Str
  pub model : Str
  pub input_tokens : ℕ
  pub output_tokens : ℕ
  pub cache_create_5m_tokens : ℕ
  pub cache_create_1h_tokens : ℕ
  pub cache_read_tokens : ℕ
  pub reasoning_tokens : ℕ
  pub cost_usd_provided : Option USD
  pub timestamp : Str
  pub billing_type : BillingType

abbrev is_some {ℓ} : {A : Type ℓ} → Option A → Bool
is_some none = false
is_some (some a) = true

module _ {USD : Type 0} where
  unfoldable pub total_tokens : Event USD → ℕ
  total_tokens e =
      e.input_tokens + e.output_tokens + e.cache_create_5m_tokens + e.cache_create_1h_tokens
      + e.cache_read_tokens + e.reasoning_tokens

  unfoldable pub has_usage : Event USD → Bool
  unfolding total_tokens
  has_usage e = ltb 0 (total_tokens e) || is_some e.cost_usd_provided
