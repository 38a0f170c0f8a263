-- ===== src/Examples/Server.antt =====
-- Examples of the rate limiter and of the caches.
use stint.Prelude.{ℕ, ◌+◌, ◌≡◌, ◌≤◌, refl, false, [], ◌∷◌, arith, leb, ◌==◌, if◌then◌else◌, length}
use stint.Prelude.Text.{Str, codes, str_eq}
use stint.Prelude.Dict.{Dict, text_eq, lookup}
use stint.Cache.{Entry, set}
use stint.Cache.Evict.{IsNamed, set-IsNamed}
use stint.RateLimit.{Limiter, Verdict.allowed, Verdict.denied, retry_after, active_after, allow}
use stint.RateLimit.Calls.{recent, allow-recent, allow-retry}
use stint.RateLimit.Room.{IsRoomy, allow-IsRoomy}

abbrev user : Str
user = codes "u"

-- Two entries of which one has expired at 10.
abbrev cached : Dict Str (Entry ℕ)
cached =
    (codes "a", record { value = 1; expires_at = 9 })
    ∷ (codes "b", record { value = 2; expires_at = 50 })
    ∷ []

set-IsNamed_example : IsNamed (set 2 user 7 15 10 cached) × (length (set 2 user 7 15 10 cached) ≤ 2)
set-IsNamed_example = set-IsNamed 2 user 7 15 10 cached named (omega arith) unnamed (omega arith)
  where
    named : str_eq user [] ≡ false
    named = unfold str_eq in refl

    unnamed : IsNamed cached
    unnamed = unfold lookup str_eq in refl

-- A user with two calls.
abbrev limiter : Limiter
limiter = record { entries = (user, 100 ∷ 105 ∷ []) ∷ []; last_sweep = 100 }

allow-recent_example : (allow user 2 50 120 limiter).0 ≡ (
    if 2 == 0
    then allowed
    else (if leb 2 (length (recent user 50 120 limiter))
        then denied (retry_after 50 120 (recent user 50 120 limiter))
        else allowed))
allow-recent_example = allow-recent user 2 50 120 limiter (unfold lookup in (refl, tt))

allow-retry_example :
    (wait : ℕ) × ((allow user 2 50 120 limiter).0 ≡ denied wait)
    × ((allow user 2 50 (120 + wait) (allow user 2 50 120 limiter).1).0 ≡ allowed)
allow-retry_example =
    allow-retry user 2 50 120 limiter (unfold lookup in (refl, tt)) (omega arith)
      (unfold lookup str_eq active_after in refl)

allow-IsRoomy_example : IsRoomy (allow user 2 50 120 limiter).1.entries
allow-IsRoomy_example =
    allow-IsRoomy user 2 50 120 limiter (unfold str_eq in refl)
      (omega arith, (unfold lookup str_eq in refl))
