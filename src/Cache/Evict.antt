-- ===== src/Cache/Evict.antt =====
-- The entry that a full cache gives up, and the number of entries.
use stint.Prelude.{ℕ, ◌+◌, ◌≤◌, ◌<◌, ◌≡◌, ◌≢◌, ◌⊎◌, refl, false, none, [], ◌∷◌, length, arith, inl}
use stint.Prelude.Text.{Str, str_eq, str_eq_refl}
use stint.Prelude.Dict.{
  Dict, text_eq, lookup, insert, lookup-insert, lookup-delete, length-insert, length-delete_present,
}
use stint.Cache.{Entry, sweep_expired, oldest_key, evict_oldest_if_full, set}

module _ {ℓ} {V : Type ℓ} where
  -- No entry has the empty key.
  abbrev pub IsNamed : Dict Str (Entry V) → Type ℓ
  IsNamed m = lookup [] m ≡ none

  sweep_expired-IsNamed :
      (now : ℕ) (m : Dict Str (Entry V)) → IsNamed m → IsNamed (sweep_expired now m)
  unfolding sweep_expired lookup
  sweep_expired-IsNamed now [] n = refl
  sweep_expired-IsNamed now ((k, e) ∷ m) n = ground (arith, sweep_expired-IsNamed now m)

  length-sweep_expired :
      (now : ℕ) (m : Dict Str (Entry V)) → length (sweep_expired now m) ≤ length m
  unfolding sweep_expired
  length-sweep_expired now [] = omega arith
  length-sweep_expired now ((k, e) ∷ m) = ground (arith, length-sweep_expired now m)

  evict-IsNamed :
      (capacity : ℕ) (m : Dict Str (Entry V))
      → IsNamed m
      → IsNamed (evict_oldest_if_full capacity m)
  unfolding evict_oldest_if_full
  evict-IsNamed capacity m n = ground (arith, lookup-delete (oldest_key [] 0 m) [] m)

  -- From a named key, the loop ends with that key or one of the list, and with a name.
  oldest_key-cons :
      (found : Str) (oldest : ℕ) (m : Dict Str (Entry V))
      → str_eq found [] ≡ false
      → IsNamed m
      → (str_eq (oldest_key found oldest m) [] ≡ false)
        × ((oldest_key found oldest m ≡ found) ⊎ (lookup (oldest_key found oldest m) m ≢ none))
  unfolding oldest_key lookup
  oldest_key-cons found oldest [] q n = (q, inl refl)
  oldest_key-cons found oldest ((k, e) ∷ m) q n =
      ground
        (arith, str_eq_refl k, oldest_key-cons k e.expires_at m, oldest_key-cons found oldest m)

  -- The key that a cache with an entry gives up is there.
  oldest_key-lookup :
      (m : Dict Str (Entry V))
      → IsNamed m
      → 0 < length m
      → (str_eq (oldest_key [] 0 m) [] ≡ false) × (lookup (oldest_key [] 0 m) m ≢ none)
  unfolding oldest_key lookup
  oldest_key-lookup [] n h = absurd (omega arith)
  oldest_key-lookup ((k, e) ∷ m) n h =
      ground (arith, str_eq_refl k, str_eq_refl [], oldest_key-cons k e.expires_at m)

  -- Eviction makes room for one more entry.
  length-evict :
      (capacity : ℕ) (m : Dict Str (Entry V))
      → IsNamed m
      → 0 < capacity
      → length m ≤ capacity
      → length (evict_oldest_if_full capacity m) < capacity
  unfolding evict_oldest_if_full
  length-evict capacity m n c h =
      ground (arith, oldest_key-lookup m n, length-delete_present (oldest_key [] 0 m) m)

  length-insert_le :
      (k : Str) (e : Entry V) (m : Dict Str (Entry V)) → length (insert k e m) ≤ length m + 1
  length-insert_le k e m = ground (arith, length-insert k e m)

  -- Let the capacity be positive. Setting an entry under a key that is not empty, in a cache of at most
  -- `capacity` entries, none of them under the empty key, leaves at most `capacity` entries, none under
  -- the empty key.
  pub set-IsNamed :
      (capacity : ℕ) (k : Str) (v : V) (ttl now : ℕ) (m : Dict Str (Entry V))
      → str_eq k [] ≡ false
      → 0 < capacity
      → IsNamed m
      → length m ≤ capacity
      → IsNamed (set capacity k v ttl now m) × (length (set capacity k v ttl now m) ≤ capacity)
  unfolding set
  set-IsNamed capacity k v ttl now m q c n h =
      let swept = sweep_expired now m in
      let named = sweep_expired-IsNamed now m n in
      let room = length-sweep_expired now m in
      let evicted = evict_oldest_if_full capacity swept in
      let fits = length-evict capacity swept named c (omega arith) in
      let e : Entry V = record { value = v; expires_at = now + ttl } in
      let added = length-insert_le k e evicted in
      (rw (lookup-insert k [] e evicted, q) (evict-IsNamed capacity swept named), omega arith)
