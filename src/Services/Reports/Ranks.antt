-- ===== src/Services/Reports/Ranks.antt =====
-- internal/services/external.go and leaderboards.go: the ranking of a leaderboard and its input.
use stint.Prelude.{ℕ, ◌+◌, List, [], ◌∷◌, if◌then◌else◌}
use stint.Prelude.Text.{Str, codes}
use stint.Pricing.Normalize.{Strings}
use stint.Services.Heartbeat.{is_empty}
use stint.Services.Totals.{human_duration}

pub record LeaderboardEntry : Type 0 where
  pub user_id : Str
  pub username : Str
  pub display_name : Str
  pub avatar_url : Str
  pub country : Str
  pub total_seconds : ℕ
  pub text : Str
  pub rank : ℕ

-- The last loop of `RankLeaderboardEntries`, from index `i` on.
unfoldable pub rank_loop : (ℕ → Str) → ℕ → List LeaderboardEntry → List LeaderboardEntry
rank_loop sprint i [] = []
rank_loop sprint i (e ∷ es) =
    record e { rank = i + 1; text = human_duration sprint e.total_seconds }
    ∷ rank_loop sprint (i + 1) es

-- `RankLeaderboardEntries`; `sort` sorts by descending seconds, then by name.
unfoldable pub rank_leaderboard_entries :
    (ℕ → Str)
    → (List LeaderboardEntry → List LeaderboardEntry)
    → List LeaderboardEntry
    → List LeaderboardEntry
unfolding rank_loop
rank_leaderboard_entries sprint sort entries = rank_loop sprint 0 (sort entries)

-- `NormalizeLeaderboardInput`
unfoldable pub normalize_leaderboard_input : Strings → Str → Str → Str × Str
normalize_leaderboard_input st name range =
    let range' = st.trim_space range in
    (st.trim_space name, if is_empty range' then codes "last_7_days" else range')
