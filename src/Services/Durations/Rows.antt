-- ===== src/Services/Durations/Rows.antt =====
-- internal/services/durations.go: a duration of one heartbeat with its AI fields, and the fusion of two.
use stint.Prelude.{
  ℕ, ◌+◌, ◌-◌, ◌/◌, ◌%◌, Bool, true, false, ◌||◌, Option, none, some, List, [], ◌∷◌, map, ltb, ◌==◌,
  if◌then◌else◌, length, get_elem?, sum_by,
}
use stint.Prelude.Text.{Str, codes, str_eq}
use stint.Prelude.Int.{ℤ, ℤ.pos, ◌+ℤ◌, pos_part}
use stint.Prelude.Dict.{Dict, text_eq, lookup, insert}
use stint.Prelude.Sort.{insertion_sort}
use stint.Pricing.Double.{Double}
use stint.Pricing.Normalize.{Strings}
use stint.Services.Heartbeat.{Heartbeat, is_empty, heartbeat_has_ai_fields}

-- `strings.EqualFold`
pub record Fold : Type 0 where
  pub equal_fold : Str → Str → Bool

pub record Duration (F : Type 0) : Type 0 where
  pub name : Str
  pub project : Str
  pub language : Str
  pub time : ℕ
  pub duration_seconds : ℕ
  pub ai_additions : ℤ
  pub ai_deletions : ℤ
  pub human_additions : ℤ
  pub human_deletions : ℤ
  pub ai_agent_costs : Dict Str F
  pub ai_input_tokens : ℤ
  pub ai_output_tokens : ℤ
  pub ai_prompt_length_sum : ℕ
  pub ai_prompt_length_avg : ℕ
  pub ai_prompt_length_avg_per_session : ℕ
  pub ai_prompt_length_median_per_session : ℕ
  pub ai_prompt_events_total : ℕ
  pub ai_prompt_events_avg_per_session : ℕ
  pub ai_prompt_events_median_per_session : ℕ
  pub ai_sessions : ℕ
  pub is_ai : Bool
  pub ai_prompt_events_by_session : Dict Str ℕ
  pub ai_prompt_length_totals_by_session : Dict Str ℕ

-- `valueOrZero`
unfoldable pub value_or_zero : Option ℤ → ℤ
value_or_zero none = pos 0
value_or_zero (some n) = n

or_nought : Option ℕ → ℕ
or_nought none = 0
or_nought (some n) = n

-- `medianInt`; `sort.Ints` leaves no choice of the order.
unfoldable pub median_int : List ℕ → ℕ
unfolding or_nought
median_int [] = 0
median_int (v ∷ vs) =
    let sorted = insertion_sort (λ (n : ℕ). n) (v ∷ vs) in
    let middle = length sorted / 2 in
    let upper = or_nought (get_elem? sorted middle) in
    if length sorted % 2 == 1
    then upper
    else (or_nought (get_elem? sorted (middle - 1)) + upper) / 2

-- `sumInts`
abbrev pub sum_ints : List ℕ → ℕ
sum_ints = sum_by (λ n. n)

-- The loop `for key, value := range src { dst[key] += value }`.
unfoldable pub add_all : {V : Type 0} → (V → V → V) → V → Dict Str V → Dict Str V → Dict Str V
add_all plus nought dst [] = dst
add_all plus nought dst ((k, v) ∷ src) =
    add_all plus nought (insert k (plus (elim (lookup k dst) [ none ↦ nought | some w ↦ w ]) v) dst)
      src

module _ {F : Type 0} where
  -- `recomputeDurationPromptStats`: the fields of the whole prompts, then those per session.
  unfoldable pub recompute_sessions : List ℕ → List ℕ → Duration F → Duration F
  unfolding median_int
  recompute_sessions [] lengths row = record row {
    ai_sessions = 0;
    ai_prompt_length_avg_per_session = 0;
    ai_prompt_length_median_per_session = 0;
    ai_prompt_events_avg_per_session = 0;
    ai_prompt_events_median_per_session = 0;
  }
  recompute_sessions (e ∷ events) lengths row =
      let sessions = length (e ∷ events) in
      record row {
        ai_sessions = sessions;
        ai_prompt_length_avg_per_session = sum_ints lengths / sessions;
        ai_prompt_length_median_per_session = median_int lengths;
        ai_prompt_events_avg_per_session = sum_ints (e ∷ events) / sessions;
        ai_prompt_events_median_per_session = median_int (e ∷ events);
      }

  unfoldable pub recompute_duration_prompt_stats : Duration F → Duration F
  unfolding recompute_sessions
  recompute_duration_prompt_stats row =
      let avg =
        if ltb 0 row.ai_prompt_events_total
        then row.ai_prompt_length_sum / row.ai_prompt_events_total
        else 0 in
      recompute_sessions (map (λ p. p.1) row.ai_prompt_events_by_session)
        (map (λ p. p.1) row.ai_prompt_length_totals_by_session)
        (record row { ai_prompt_length_avg = avg })

  -- `durationRow`
  unfoldable pub duration_row : Str → Str → ℕ → ℕ → Duration F
  duration_row name slice_by start seconds =
      let by_language = str_eq slice_by (codes "language") in
      record {
        name = name;
        project = if by_language then [] else name;
        language = if by_language then name else [];
        time = start;
        duration_seconds = seconds;
        ai_additions = pos 0;
        ai_deletions = pos 0;
        human_additions = pos 0;
        human_deletions = pos 0;
        ai_agent_costs = [];
        ai_input_tokens = pos 0;
        ai_output_tokens = pos 0;
        ai_prompt_length_sum = 0;
        ai_prompt_length_avg = 0;
        ai_prompt_length_avg_per_session = 0;
        ai_prompt_length_median_per_session = 0;
        ai_prompt_events_total = 0;
        ai_prompt_events_avg_per_session = 0;
        ai_prompt_events_median_per_session = 0;
        ai_sessions = 0;
        is_ai = false;
        ai_prompt_events_by_session = [];
        ai_prompt_length_totals_by_session = [];
      }

  -- The prompt of a heartbeat: its length, if it is positive, in the session that it names.
  unfoldable pub with_prompt : ℕ → Str → Duration F → Duration F
  with_prompt length session row =
      let counted : Duration F = record row {
        ai_prompt_length_sum = length;
        ai_prompt_events_total = 1;
      } in
      if length == 0 then row else if is_empty session then counted else record counted {
        ai_sessions = 1;
        ai_prompt_events_by_session = (session, 1) ∷ [];
        ai_prompt_length_totals_by_session = (session, length) ∷ [];
      }

-- The first of some texts that is not blank, trimmed, or "Unknown".
unfoldable pub first_named : Strings → List Str → Str
first_named st [] = codes "Unknown"
first_named st (s ∷ ss) =
    let rest = first_named st ss in if is_empty (st.trim_space s) then rest else st.trim_space s

-- `aiAttributionName`
unfoldable pub ai_attribution_name : Strings → Heartbeat → Str
unfolding first_named
ai_attribution_name st h =
    first_named st (h.ai_model ∷ h.ai_provider ∷ h.ai_agent ∷ h.ai_subscription_plan ∷ [])

-- `hasAIFields`
unfoldable pub has_ai_fields : Strings → Fold → Heartbeat → Bool
has_ai_fields st fold h =
    fold.equal_fold (st.trim_space h.category) (codes "ai coding") || heartbeat_has_ai_fields h

module _ {F : Type 0} ⦃fl : Double F⦄ where
  -- `applyHeartbeatAIToDuration`
  unfoldable pub apply_heartbeat_ai_to_duration :
      Strings → Fold → Duration F → Heartbeat → Duration F
  unfolding value_or_zero ai_attribution_name
  apply_heartbeat_ai_to_duration st fold row h =
      let agent = ai_attribution_name st h in
      let costs = add_all fl.add fl.nought row.ai_agent_costs ((agent, fl.nought) ∷ []) in
      let filled : Duration F = record row {
        is_ai = true;
        ai_additions = value_or_zero h.ai_line_changes;
        human_additions = value_or_zero h.human_line_changes;
        ai_input_tokens = value_or_zero h.ai_input_tokens;
        ai_output_tokens = value_or_zero h.ai_output_tokens;
        ai_agent_costs = costs;
      } in
      let prompt_length = pos_part (value_or_zero h.ai_prompt_length) in
      if has_ai_fields st fold h
      then recompute_duration_prompt_stats (with_prompt prompt_length h.ai_session filled)
      else row

  -- `durationRowForHeartbeat`
  unfoldable pub duration_row_for_heartbeat :
      Strings → Fold → Str → Str → Heartbeat → ℕ → Duration F
  unfolding apply_heartbeat_ai_to_duration duration_row
  duration_row_for_heartbeat st fold name slice_by h seconds =
      apply_heartbeat_ai_to_duration st fold (duration_row name slice_by h.time seconds) h

  -- `mergeDurationAI`
  unfoldable pub merge_duration_ai : Duration F → Duration F → Duration F
  unfolding add_all
  merge_duration_ai dst src =
      let plus = λ (a b : ℕ). a + b in
      recompute_duration_prompt_stats (record dst {
        is_ai = dst.is_ai || src.is_ai;
        ai_additions = dst.ai_additions +ℤ src.ai_additions;
        ai_deletions = dst.ai_deletions +ℤ src.ai_deletions;
        human_additions = dst.human_additions +ℤ src.human_additions;
        human_deletions = dst.human_deletions +ℤ src.human_deletions;
        ai_input_tokens = dst.ai_input_tokens +ℤ src.ai_input_tokens;
        ai_output_tokens = dst.ai_output_tokens +ℤ src.ai_output_tokens;
        ai_prompt_length_sum = dst.ai_prompt_length_sum + src.ai_prompt_length_sum;
        ai_prompt_events_total = dst.ai_prompt_events_total + src.ai_prompt_events_total;
        ai_agent_costs = add_all fl.add fl.nought dst.ai_agent_costs src.ai_agent_costs;
        ai_prompt_events_by_session =
            add_all plus 0 dst.ai_prompt_events_by_session src.ai_prompt_events_by_session;
        ai_prompt_length_totals_by_session =
            add_all plus 0 dst.ai_prompt_length_totals_by_session
              src.ai_prompt_length_totals_by_session;
      })
