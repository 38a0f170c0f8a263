-- ===== src/Examples/Blocks.antt =====
-- Examples of internal/usagestats/blocks.go: three events on two days, out of order.
use stint.Prelude.{ℕ, ◌*◌, ◌≡◌, Option, none, some, List, [], ◌∷◌, sum_by}
use stint.Prelude.Text.{Str, codes}
use stint.Prelude.Dict.{Dict}
use stint.Prelude.Sort.{insertion_sort, insertion_sort-IsSort}
use stint.Usage.{Event, BillingType, subscription, total_tokens}
use stint.Pricing.Double.{Double, whole}
use stint.Pricing.Cost.{auto}
use stint.UsageStats.Blocks.{hour, Block, Timed, timed, build_usage_blocks}
use stint.UsageStats.Blocks.Active.{IsMarked, last_active, build_usage_blocks_windows}
use stint.UsageStats.Blocks.Totals.{build_usage_blocks_totals, build_usage_blocks-override}
use stint.Examples.Usage.{bare}
use stint.Examples.Pricing.{ascii, shared, engine}

instance abbrev money : Double ℕ
money = whole

abbrev at_hour : ℕ → Event ℕ
at_hour n = record bare { timestamp = n ∷ [] }

-- A timestamp is a number of hours here.
abbrev parse_hours : Str → Option ℕ
parse_hours [] = none
parse_hours (n ∷ _) = some (n * hour)

abbrev events : List (Event ℕ)
events = at_hour 30 ∷ at_hour 1 ∷ record bare { timestamp = [] } ∷ at_hour 3 ∷ []

abbrev by_time : List (Timed ℕ) → List (Timed ℕ)
by_time = insertion_sort (λ t. t.0)

abbrev plans : Dict Str BillingType
plans = (codes "claude", subscription) ∷ []

abbrev blocks_of : Dict Str BillingType → List (Block ℕ) × Option (Block ℕ)
blocks_of overrides =
    build_usage_blocks ascii shared auto (some engine) parse_hours by_time overrides events
      (31 * hour)

build_usage_blocks_windows_example :
    ((high : ℕ) × IsMarked (31 * hour) 0 high (blocks_of plans).0)
    × ((blocks_of plans).1 ≡ last_active (blocks_of plans).0 none)
build_usage_blocks_windows_example =
    build_usage_blocks_windows ascii shared auto (some engine) parse_hours by_time plans events
      (31 * hour) (insertion_sort-IsSort (λ t. t.0))

build_usage_blocks_totals_example :
    (sum_by (λ b. b.tokens) (blocks_of plans).0
      ≡ sum_by (λ t. total_tokens t.1) (timed parse_hours events))
    × (sum_by (λ b. b.event_count) (blocks_of plans).0 ≡ sum_by (λ t. 1) (timed parse_hours events))
build_usage_blocks_totals_example =
    build_usage_blocks_totals ascii shared auto (some engine) parse_hours by_time plans events
      (31 * hour) (insertion_sort-IsSort (λ t. t.0))

build_usage_blocks-override_example : blocks_of plans ≡ blocks_of []
build_usage_blocks-override_example =
    build_usage_blocks-override ascii shared auto (some engine) parse_hours by_time plans events
      (31 * hour)
