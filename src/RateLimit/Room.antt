-- ===== src/RateLimit/Room.antt =====
-- How many keys the rate limiter remembers.
use stint.Prelude.{
  ℕ, ◌-◌, ◌≤◌, ◌<◌, ◌≡◌, ◌≢◌, ◌⊎◌, refl, false, Option, none, some, List, [], ◌∷◌, ◌++◌, leb, ◌==◌,
  length, arith, inl, inr, Option-cases, Bool-cases,
}
use stint.Prelude.Text.{Str, str_eq, str_eq_refl}
use stint.Prelude.Dict.{
  Dict, text_eq, lookup, insert, lookup-insert, lookup-delete, length-insert, length-delete_present,
}
use stint.RateLimit.{
  Limiter, stamps, max_memory_rate_limiter_keys, active_after, last_of, sweep_entries,
  sweep_expired, oldest_entry, evict_oldest_entry, swept, with_room, decide, allow,
}

-- No more keys than the limiter may have, and none of them empty.
abbrev pub IsRoomy : Dict Str (List ℕ) → Type 0
IsRoomy m = (length m ≤ max_memory_rate_limiter_keys) × (lookup [] m ≡ none)

sweep-IsRoomy :
    (cutoff : ℕ) (m : Dict Str (List ℕ))
    → (length (sweep_entries cutoff m) ≤ length m)
      × (lookup [] m ≡ none → lookup [] (sweep_entries cutoff m) ≡ none)
unfolding sweep_entries lookup
sweep-IsRoomy cutoff [] = (omega arith, λ n. n)
sweep-IsRoomy cutoff ((k, ts) ∷ m) = ground (arith, sweep-IsRoomy cutoff m)

-- From a named key, the loop names a key.
oldest_entry-ne-none :
    (found : Str) (oldest : ℕ) (m : Dict Str (List ℕ))
    → str_eq found [] ≡ false
    → lookup [] m ≡ none
    → oldest_entry found oldest m ≢ none
unfolding oldest_entry lookup
oldest_entry-ne-none found oldest [] q n = ground arith
oldest_entry-ne-none found oldest ((k, ts) ∷ m) q n = elim (Option-cases (last_of ts)) [
  | inl e ↦ ground arith
  | inr (seen, e) ↦
      ground (arith, oldest_entry-ne-none k seen m, oldest_entry-ne-none found oldest m)
]

-- The key that the loop names is the one it started with, or one of the list.
oldest_entry-lookup :
    (found : Str) (oldest : ℕ) (m : Dict Str (List ℕ)) (k : Str)
    → oldest_entry found oldest m ≡ some k
    → (k ≡ found) ⊎ (lookup k m ≢ none)
unfolding oldest_entry lookup
oldest_entry-lookup found oldest [] k h = ground arith
oldest_entry-lookup found oldest ((j, ts) ∷ m) k h = elim (Option-cases (last_of ts)) [
  | inl e ↦ ground (arith, str_eq_refl k)
  | inr (seen, e) ↦
      ground
        (arith, str_eq_refl j, oldest_entry-lookup j seen m k, oldest_entry-lookup found oldest m k)
]

-- A map with an entry has one to give up.
evicts-ne-none :
    (m : Dict Str (List ℕ)) → lookup [] m ≡ none → 0 < length m → oldest_entry [] 0 m ≢ none
unfolding oldest_entry lookup
evicts-ne-none [] n h = absurd (omega arith)
evicts-ne-none ((k, ts) ∷ m) n h = elim (Option-cases (last_of ts)) [
  | inl f ↦ ground arith
  | inr (seen, f) ↦ ground (arith, oldest_entry-ne-none k seen m, str_eq_refl [])
]

evicts-lookup : (m : Dict Str (List ℕ)) (j : Str) → oldest_entry [] 0 m ≡ some j → lookup j m ≢ none
unfolding oldest_entry lookup
evicts-lookup [] j e = ground (arith, str_eq_refl [])
evicts-lookup ((k, ts) ∷ m) j e = elim (Option-cases (last_of ts)) [
  | inl f ↦ ground (arith, str_eq_refl k)
  | inr (seen, f) ↦ ground (arith, oldest_entry-lookup k seen m j, str_eq_refl [], str_eq_refl k)
]

-- Eviction makes room, and adds no key.
length-evict :
    (m : Dict Str (List ℕ))
    → lookup [] m ≡ none
    → 0 < length m
    → (length (evict_oldest_entry m) < length m) × (lookup [] (evict_oldest_entry m) ≡ none)
unfolding evict_oldest_entry
length-evict m n h = elim (Option-cases (oldest_entry [] 0 m)) [
  | inl e ↦ absurd (evicts-ne-none m n h e)
  | inr (j, e) ↦
      rw (evict_oldest_entry, e)
        (length-delete_present j m (evicts-lookup m j e), ground (arith, lookup-delete j [] m))
]

insert-with_room :
    (k : Str) (ts : List ℕ) (m : Dict Str (List ℕ)) (values : Option (List ℕ))
    → str_eq k [] ≡ false
    → lookup k m ≡ values
    → IsRoomy m
    → IsRoomy (insert k ts (with_room values m))
unfolding with_room
insert-with_room k ts m (some us) q e (fits, named) =
    (ground (arith, length-insert k ts m), ground (arith, lookup-insert k [] ts m))
insert-with_room k ts m none q e (fits, named) =
    elim (Bool-cases (leb max_memory_rate_limiter_keys (length m))) [
      | inl full ↦
          let evicted = evict_oldest_entry m in
          let room = length-evict m named (ground arith) in
          rw full (
            ground (arith, room, length-insert k ts evicted),
            ground (arith, room, lookup-insert k [] ts evicted),
          )
      | inr free ↦
          rw free
            (ground (arith, free, length-insert k ts m), ground (arith, lookup-insert k [] ts m))
    ]

decide-IsRoomy :
    (key : Str) (limit window now : ℕ) (l : Limiter)
    → str_eq key [] ≡ false
    → IsRoomy l.entries
    → IsRoomy (decide key limit window now l).1.entries
unfolding decide
decide-IsRoomy key limit window now l q h =
    let values = lookup key l.entries in
    let active = active_after (now - window) (stamps values) in
    elim (Bool-cases (leb limit (length active))) [
      | inl full ↦ rw full (insert-with_room key active l.entries values q refl h)
      | inr free ↦ rw free (insert-with_room key (active ++ now ∷ []) l.entries values q refl h)
    ]

swept-IsRoomy :
    (cutoff now : ℕ) (l : Limiter) → IsRoomy l.entries → IsRoomy (swept cutoff now l).entries
unfolding swept sweep_expired
swept-IsRoomy cutoff now l h = ground (arith, sweep-IsRoomy cutoff l.entries)

-- A call under a key that is not empty keeps the limiter at 8192 keys at most, none of them empty.
pub allow-IsRoomy :
    (key : Str) (limit window now : ℕ) (l : Limiter)
    → str_eq key [] ≡ false
    → IsRoomy l.entries
    → IsRoomy (allow key limit window now l).1.entries
unfolding allow
allow-IsRoomy key limit window now l q h = elim (Bool-cases (limit == 0)) [
  | inl off ↦ rw off h
  | inr on ↦ rw on (
      decide-IsRoomy key limit window now (swept (now - window) now l) q
        (swept-IsRoomy (now - window) now l h))
]
