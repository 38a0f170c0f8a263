-- ===== src/RateLimit/Calls.antt =====
-- What decides a call of the rate limiter, and when a call that was turned down passes.
use stint.Prelude.{
  ℕ, ◌+◌, ◌-◌, ◌≤◌, ◌<◌, ◌≡◌, refl, Option, none, some, List, [], ◌∷◌, ◌++◌, leb, ◌==◌,
  if◌then◌else◌, length, arith, Bool-cases, Option-cases, inl, inr,
}
use stint.Prelude.Text.{Str, str_eq→eq}
use stint.Prelude.Dict.{Dict, text_eq, lookup, lookup-insert_self}
use stint.Prelude.Unique.{IsMap, delete-IsMap, insert-IsMap}
use stint.RateLimit.{
  oldest_entry, max_memory_rate_limiter_keys, memory_rate_limit_sweep_interval, Limiter, stamps,
  active_after, sweep_entries, sweep_expired, Verdict.allowed, Verdict.denied, retry_after, swept,
  with_room, evict_oldest_entry, decide, allow,
}

active_after_twice :
    (cutoff : ℕ) (ts : List ℕ)
    → active_after cutoff (active_after cutoff ts) ≡ active_after cutoff ts
unfolding active_after
active_after_twice cutoff [] = refl
active_after_twice cutoff (t ∷ ts) = ground (arith, active_after_twice cutoff ts)

sweep_absent :
    (cutoff : ℕ) (k : Str) (m : Dict Str (List ℕ))
    → lookup k m ≡ none
    → lookup k (sweep_entries cutoff m) ≡ none
unfolding lookup sweep_entries
sweep_absent cutoff k [] h = refl
sweep_absent cutoff k ((j, ts) ∷ m) h = ground (arith, sweep_absent cutoff k m)

-- A list without elements.
empty_nil : (ts : List ℕ) → length ts ≡ 0 → ts ≡ []
empty_nil [] h = refl
empty_nil (t ∷ ts) h = absurd (omega arith)

-- A sweep leaves the active values of every key as they are.
active-sweep_entries :
    (cutoff : ℕ) (k : Str) (m : Dict Str (List ℕ))
    → IsMap m
    → active_after cutoff (stamps (lookup k (sweep_entries cutoff m)))
      ≡ active_after cutoff (stamps (lookup k m))
unfolding lookup sweep_entries active_after
active-sweep_entries cutoff k [] u = refl
active-sweep_entries cutoff k ((j, ts) ∷ m) (alone, u) = ground (
  arith,
  str_eq→eq j k,
  empty_nil (active_after cutoff ts),
  active_after_twice cutoff ts,
  sweep_absent cutoff k m,
  active-sweep_entries cutoff k m u,
)

active-swept :
    (window now : ℕ) (k : Str) (l : Limiter)
    → IsMap l.entries
    → active_after (now - window) (stamps (lookup k (swept (now - window) now l).entries))
      ≡ active_after (now - window) (stamps (lookup k l.entries))
unfolding swept sweep_expired
active-swept window now k l u = ground (arith, active-sweep_entries (now - window) k l.entries u)

-- The values of the key that are still in the window of a call at `now`.
abbrev pub recent : Str → ℕ → ℕ → Limiter → List ℕ
recent key window now l = active_after (now - window) (stamps (lookup key l.entries))

-- Let every key have one entry at most. A call passes where its limit is 0 or its key has fewer calls than
-- the limit in the window that ends at the call, and is turned down otherwise, whatever the call sweeps and
-- evicts.
pub allow-recent :
    (key : Str) (limit window now : ℕ) (l : Limiter)
    → IsMap l.entries
    → (allow key limit window now l).0 ≡ (
        if limit == 0
        then allowed
        else (if leb limit (length (recent key window now l))
            then denied (retry_after window now (recent key window now l))
            else allowed))
unfolding allow decide
allow-recent key limit window now l u = ground (arith, active-swept window now key l u)

sweep-IsMap : (cutoff : ℕ) (m : Dict Str (List ℕ)) → IsMap m → IsMap (sweep_entries cutoff m)
unfolding sweep_entries
sweep-IsMap cutoff [] u = tt
sweep-IsMap cutoff ((k, ts) ∷ m) (alone, u) =
    elim (Bool-cases (length (active_after cutoff ts) == 0)) [
      | inl gone ↦ rw gone (sweep-IsMap cutoff m u)
      | inr stays ↦ rw stays (sweep_absent cutoff k m alone, sweep-IsMap cutoff m u)
    ]

evict-IsMap : (m : Dict Str (List ℕ)) → IsMap m → IsMap (evict_oldest_entry m)
unfolding evict_oldest_entry
evict-IsMap m u = elim (Option-cases (oldest_entry [] 0 m)) [
  | inl e ↦ rw (evict_oldest_entry, e) u
  | inr (k, e) ↦ rw (evict_oldest_entry, e) (delete-IsMap k m u)
]

with_room-IsMap : (o : Option (List ℕ)) (m : Dict Str (List ℕ)) → IsMap m → IsMap (with_room o m)
unfolding with_room
with_room-IsMap (some ts) m u = u
with_room-IsMap none m u = elim (Bool-cases (leb max_memory_rate_limiter_keys (length m))) [
  | inl full ↦ rw full (evict-IsMap m u)
  | inr room ↦ rw room u
]

swept-IsMap : (cutoff now : ℕ) (l : Limiter) → IsMap l.entries → IsMap (swept cutoff now l).entries
unfolding swept sweep_expired
swept-IsMap cutoff now l u =
    elim (Bool-cases (leb memory_rate_limit_sweep_interval (now - l.last_sweep))) [
      | inl due ↦ rw due (sweep-IsMap cutoff l.entries u)
      | inr early ↦ rw early u
    ]

decide-IsMap :
    (key : Str) (limit window now : ℕ) (l : Limiter)
    → IsMap l.entries
    → IsMap (decide key limit window now l).1.entries
unfolding decide
decide-IsMap key limit window now l u =
    let active = recent key window now l in
    let m = with_room (lookup key l.entries) l.entries in
    let roomy = with_room-IsMap (lookup key l.entries) l.entries u in
    elim (Bool-cases (leb limit (length active))) [
      | inl full ↦ rw full (insert-IsMap key active m roomy)
      | inr free ↦ rw free (insert-IsMap key (active ++ now ∷ []) m roomy)
    ]

-- A call leaves one entry at most for every key.
allow-IsMap :
    (key : Str) (limit window now : ℕ) (l : Limiter)
    → IsMap l.entries
    → IsMap (allow key limit window now l).1.entries
unfolding allow
allow-IsMap key limit window now l u = elim (Bool-cases (limit == 0)) [
  | inl off ↦ rw off u
  | inr on ↦ rw on (
      decide-IsMap key limit window now (swept (now - window) now l)
        (swept-IsMap (now - window) now l u))
]

-- What a call that is turned down leaves under its key.
denied-recent :
    (key : Str) (limit window now : ℕ) (l : Limiter)
    → IsMap l.entries
    → 0 < limit
    → limit ≤ length (recent key window now l)
    → lookup key (allow key limit window now l).1.entries ≡ some (recent key window now l)
unfolding allow decide
denied-recent key limit window now l u p h = ground (
  arith,
  active-swept window now key l u,
  lookup-insert_self key (recent key window now (swept (now - window) now l)) (
      with_room (lookup key (swept (now - window) now l).entries)
        (swept (now - window) now l).entries),
)

length-active_after : (cutoff : ℕ) (ts : List ℕ) → length (active_after cutoff ts) ≤ length ts
unfolding active_after
length-active_after cutoff [] = omega arith
length-active_after cutoff (t ∷ ts) = ground (arith, length-active_after cutoff ts)

-- By the time that a denial names, the first of the values has left the window.
active-retry_after :
    (window now limit : ℕ) (ts : List ℕ)
    → 0 < limit
    → length ts ≡ limit
    → length (active_after ((now + retry_after window now ts) - window) ts) < limit
unfolding active_after retry_after
active-retry_after window now limit [] p h = absurd (omega arith)
active-retry_after window now limit (t ∷ ts) p h =
    ground (arith, length-active_after ((now + retry_after window now (t ∷ ts)) - window) ts)

-- Let every key have one entry at most. Where a key has as many calls in the window as a positive limit
-- allows, a further call is turned down, and the same call passes at the moment when the time that the
-- denial names has gone by, if the limiter is not called in between.
pub allow-retry :
    (key : Str) (limit window now : ℕ) (l : Limiter)
    → IsMap l.entries
    → 0 < limit
    → length (recent key window now l) ≡ limit
    → (wait : ℕ) × ((allow key limit window now l).0 ≡ denied wait)
      × ((allow key limit window (now + wait) (allow key limit window now l).1).0 ≡ allowed)
allow-retry key limit window now l u p h =
    let ts = recent key window now l in
    let wait = retry_after window now ts in
    let after = (allow key limit window now l).1 in
    let left = denied-recent key limit window now l u p (omega arith) in
    let gone = active-retry_after window now limit ts p h in
    let again =
      allow-recent key limit window (now + wait) after (allow-IsMap key limit window now l u) in
    (wait, ground (arith, allow-recent key limit window now l u), ground (arith, again, left, gone))
