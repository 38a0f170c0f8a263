-- ===== src/Cache.antt =====
-- internal/cache: the in-memory caches of the status bar and of the leaderboard, which are the same code
-- at two entry types and two capacities. A time is a number of nanoseconds; the `time.Now()` that an
-- operation reads is its argument `now`. The order of the list is the one in which `range` meets the
-- entries, and nothing below depends on it.
pub mod Evict
pub mod Laws
use stint.Prelude.{
  ℕ, ◌+◌, Bool, true, false, ◌||◌, Option, none, some, List, [], ◌∷◌, ltb, if◌then◌else◌, length,
}
use stint.Prelude.Text.{Str, str_eq}
use stint.Prelude.Dict.{Dict, text_eq, lookup, insert, delete}

-- `memoryStatusEntry`, `memoryLeaderboardEntry`
pub record Entry {ℓ} (V : Type ℓ) : Type ℓ where
  pub value : V
  pub expires_at : ℕ

module _ {ℓ} {V : Type ℓ} where
  pub is_expired : ℕ → Entry V → Bool
  is_expired now e = ltb e.expires_at now

  -- `Get`: what is found, and the entries afterwards.
  unfoldable pub get : Str → ℕ → Dict Str (Entry V) → Option V × Dict Str (Entry V)
  unfolding is_expired
  get k now m = elim (lookup k m) [
    | none ↦ (none, m)
    | some e ↦ if is_expired now e then (none, delete k m) else (some e.value, m)
  ]

  -- `sweepExpired`
  unfoldable pub sweep_expired : ℕ → Dict Str (Entry V) → Dict Str (Entry V)
  unfolding is_expired
  sweep_expired now [] = []
  sweep_expired now ((k, e) ∷ m) =
      let rest = sweep_expired now m in if is_expired now e then rest else (k, e) ∷ rest

  -- The loop of `evictOldestIfFull`, from an `oldestKey` and an `oldest`.
  unfoldable pub oldest_key : Str → ℕ → Dict Str (Entry V) → Str
  oldest_key found oldest [] = found
  oldest_key found oldest ((k, e) ∷ m) = elim (str_eq found [] || ltb e.expires_at oldest) [
    | true ↦ oldest_key k e.expires_at m
    | false ↦ oldest_key found oldest m
  ]

  -- `evictOldestIfFull`
  unfoldable pub evict_oldest_if_full : ℕ → Dict Str (Entry V) → Dict Str (Entry V)
  unfolding oldest_key
  evict_oldest_if_full capacity m =
      if ltb (length m) capacity
      then m
      else (let k = oldest_key [] 0 m in if str_eq k [] then m else delete k m)

  -- `Set`
  unfoldable pub set : ℕ → Str → V → ℕ → ℕ → Dict Str (Entry V) → Dict Str (Entry V)
  unfolding sweep_expired evict_oldest_if_full
  set capacity k v ttl now m =
      insert k (record { value = v; expires_at = now + ttl })
        (evict_oldest_if_full capacity (sweep_expired now m))

-- `maxMemoryStatusEntries` and `maxMemoryLeaderboardEntries`
abbrev pub max_status_entries : ℕ
max_status_entries = 4096

abbrev pub max_leaderboard_entries : ℕ
max_leaderboard_entries = 128

-- `MemoryLeaderboardCache.Get` and `.Set`: a list is copied on its way in and out.
abbrev pub leaderboard_get {ℓ} :
    {E : Type ℓ} → Str → ℕ → Dict Str (Entry (List E)) → Option (List E) × Dict Str (Entry (List E))
leaderboard_get k now m = get k now m

abbrev pub leaderboard_set {ℓ} :
    {E : Type ℓ} → Str → List E → ℕ → ℕ → Dict Str (Entry (List E)) → Dict Str (Entry (List E))
leaderboard_set k v ttl now m = set max_leaderboard_entries k v ttl now m
