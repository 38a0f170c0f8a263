-- ===== src/Examples/Usage.antt =====
-- Examples of internal/usage: two reports of one message, and an event without provider ids.
use stint.Prelude.{ℕ, zero, suc, ◌≡◌, ◌↔◌, none, some, List, [], ◌∷◌, ◌<◌, All, arith}
use stint.Prelude.Text.{Str, codes}
use stint.Usage.{Event, unknown}
use stint.Usage.Id.{Hash, compute_event_id, ensure_id}
use stint.Usage.Laws.{Clean, IsClean, IsIdeal, kind_of, parts_of, compute_event_id-eq_iff}
use stint.Usage.Dedup.{dedup}
use stint.Usage.Dedup.Reference.{absorb_all, dedup-absorb_all}
use stint.Usage.Dedup.Laws.{Distinct, Covers, dedup_sound}

-- A print in unary, and a digest without collisions.
unary : ℕ → Str
unary zero = []
unary (suc n) = b'1' ∷ unary n

unary-Clean : (n : ℕ) → Clean (unary n)
unfolding unary
unary-Clean zero = tt
unary-Clean (suc n) = (ground arith, unary-Clean n)

abbrev plain : Hash
plain = record { digest = λ s. s; sprint = unary }

plain-IsIdeal : IsIdeal plain
plain-IsIdeal = record { digest-injective = λ a b e. e; sprint-Clean = unary-Clean }

abbrev pub bare : Event ℕ
bare = record {
  event_id = [];
  message_id = [];
  request_id = [];
  agent = codes "claude";
  session_id = codes "s1";
  project = [];
  model = codes "anthropic/opus";
  input_tokens = 3;
  output_tokens = 2;
  cache_create_5m_tokens = 0;
  cache_create_1h_tokens = 0;
  cache_read_tokens = 0;
  reasoning_tokens = 0;
  cost_usd_provided = none;
  timestamp = codes "t1";
  billing_type = unknown;
}

abbrev pub early : Event ℕ
early = record bare { message_id = codes "m"; request_id = codes "r" }

abbrev pub late : Event ℕ
late = record early { output_tokens = 9 }

abbrev pub stream : List (Event ℕ)
stream = early ∷ bare ∷ late ∷ []

bare-IsClean : IsClean bare
bare-IsClean = record {
  message = tt;
  request = tt;
  agent = ground arith;
  session = ground arith;
  timestamp = ground arith;
  model = ground arith;
}

early-IsClean : IsClean early
early-IsClean = record {
  message = ground arith;
  request = ground arith;
  agent = ground arith;
  session = ground arith;
  timestamp = ground arith;
  model = ground arith;
}

compute_event_id-eq_iff_example : (compute_event_id plain bare ≡ compute_event_id plain early) ↔ (
    (kind_of plain bare ≡ kind_of plain early)
    × (parts_of plain (kind_of plain bare) bare ≡ parts_of plain (kind_of plain early) early))
compute_event_id-eq_iff_example =
    compute_event_id-eq_iff plain plain-IsIdeal bare early bare-IsClean early-IsClean

dedup-absorb_all_example : dedup plain stream ≡ some (absorb_all plain [] stream)
dedup-absorb_all_example = dedup-absorb_all plain stream

dedup_sound_example :
    (out : List (Event ℕ)) × (dedup plain stream ≡ some out)
    × Distinct out
    × All (λ e. Covers out (ensure_id plain e)) stream
dedup_sound_example = dedup_sound plain stream

-- What holds of the events of the stream.
abbrev HasOutput : Event ℕ → Type 0
HasOutput e = 0 < e.output_tokens

stream-HasOutput : All (λ e. HasOutput (ensure_id plain e)) stream
unfolding ensure_id
stream-HasOutput = ground arith
