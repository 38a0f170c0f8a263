-- ===== src/Cache/Laws.antt =====
-- What a read of a cache finds after a write.
use stint.Prelude.{
  ℕ, ◌+◌, ◌≤◌, ◌≡◌, ◌⊎◌, refl, false, Option, none, some, [], ◌∷◌, ltb, if◌then◌else◌, arith,
}
use stint.Prelude.Text.{Str, str_eq, str_eq→eq, str_eq_refl}
use stint.Prelude.Dict.{Dict, text_eq, lookup, lookup-insert, lookup-delete}
use stint.Prelude.Unique.{IsMap}
use stint.Cache.{Entry, get, sweep_expired, oldest_key, evict_oldest_if_full, set}

module _ {ℓ} {V : Type ℓ} where
  -- What a read at `now` finds, given the entry of its key.
  fresh : ℕ → Option (Entry V) → Option V
  fresh now none = none
  fresh now (some e) = if ltb e.expires_at now then none else some e.value

  get-fresh :
      (k : Str) (now : ℕ) (m : Dict Str (Entry V)) → (get k now m).0 ≡ fresh now (lookup k m)
  unfolding get fresh
  get-fresh k now m = ground arith

  evict-lookup :
      (capacity : ℕ) (k : Str) (m : Dict Str (Entry V))
      → (lookup k (evict_oldest_if_full capacity m) ≡ none)
        ⊎ (lookup k (evict_oldest_if_full capacity m) ≡ lookup k m)
  unfolding evict_oldest_if_full
  evict-lookup capacity k m = ground (arith, lookup-delete (oldest_key [] 0 m) k m)

  -- A read finds the value that was set last under its key until the entry has lived its time, and none
  -- after it.
  pub get-set_same :
      (capacity : ℕ) (k : Str) (v : V) (ttl now later : ℕ) (m : Dict Str (Entry V))
      → (get k later (set capacity k v ttl now m)).0
        ≡ (if ltb (now + ttl) later then none else some v)
  unfolding set fresh
  get-set_same capacity k v ttl now later m = rw (get-fresh k later (set capacity k v ttl now m)) (
      rw
        (
          set,
          lookup-insert k k (record { value = v; expires_at = now + ttl })
              (evict_oldest_if_full capacity (sweep_expired now m)),
          str_eq_refl k,
        )
        refl)

  sweep-absent :
      (now : ℕ) (j : Str) (m : Dict Str (Entry V))
      → lookup j m ≡ none
      → lookup j (sweep_expired now m) ≡ none
  unfolding lookup sweep_expired
  sweep-absent now j [] h = refl
  sweep-absent now j ((k, e) ∷ m) h = ground (arith, sweep-absent now j m)

  sweep-fresh :
      (now later : ℕ) (j : Str) (m : Dict Str (Entry V))
      → now ≤ later
      → IsMap m
      → fresh later (lookup j (sweep_expired now m)) ≡ fresh later (lookup j m)
  unfolding lookup sweep_expired fresh
  sweep-fresh now later j [] h u = refl
  sweep-fresh now later j ((k, e) ∷ m) h (alone, u) =
      ground (arith, str_eq→eq k j, sweep-absent now j m, sweep-fresh now later j m h u)

  -- A write under another key leaves what a later read of a map finds, or leaves nothing to find.
  pub get-set_other :
      (capacity : ℕ) (k j : Str) (v : V) (ttl now later : ℕ) (m : Dict Str (Entry V))
      → str_eq k j ≡ false
      → now ≤ later
      → IsMap m
      → ((get j later (set capacity k v ttl now m)).0 ≡ (get j later m).0)
        ⊎ ((get j later (set capacity k v ttl now m)).0 ≡ none)
  unfolding set fresh
  get-set_other capacity k j v ttl now later m other h u = ground (
    arith,
    get-fresh j later m,
    get-fresh j later (set capacity k v ttl now m),
    lookup-insert k j (record { value = v; expires_at = now + ttl })
        (evict_oldest_if_full capacity (sweep_expired now m)),
    evict-lookup capacity j (sweep_expired now m),
    sweep-fresh now later j m h u,
  )
