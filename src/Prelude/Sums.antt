-- ===== src/Prelude/Sums.antt =====
-- Sums over the entries of an association list.
use Prim.Native.Nat.{ℕ, ◌+◌}
use mathlib.Core.Path.{◌≡◌, refl}
use mathlib.Core.Option.{Option, none, some}
use mathlib.Core.List.{[], ◌∷◌, map}
use native.Mathlib.Omega.{arith}
use stint.Prelude.Lists.{sum_by}
use stint.Prelude.Dict.{Eq, Dict, lookup, insert}
use stint.Prelude.Unique.{IsMap}

-- What an entry that may be missing contributes.
abbrev pub value_of : {V : Type 0} → (V → ℕ) → Option V → ℕ
value_of f none = 0
value_of f (some v) = f v

module _ {K V : Type 0} ⦃e : Eq K⦄ (f : V → ℕ) where
  pub sum_by-insert :
      (k : K) (v : V) (m : Dict K V)
      → sum_by (λ p. f p.1) (insert k v m) + value_of f (lookup k m) ≡ sum_by (λ p. f p.1) m + f v
  unfolding insert lookup
  sum_by-insert k v [] = omega arith
  sum_by-insert k v ((j, w) ∷ m) = ground (arith, sum_by-insert k v m)

  -- Every entry of `m` is what `big` holds at its key.
  abbrev Held : Dict K V → Dict K V → Type 0
  Held big [] = Unit
  Held big ((k, v) ∷ m) = (lookup k big ≡ some v) × Held big m

  Held-cons :
      (k : K) (v : V) (big m : Dict K V) → lookup k big ≡ none → Held big m → Held ((k, v) ∷ big) m
  unfolding lookup
  Held-cons k v big [] h _ = tt
  Held-cons k v big ((j, w) ∷ m) h (here, rest) =
      (ground (arith, e.beq→eq k j), Held-cons k v big m h rest)

  Held-self : (m : Dict K V) → IsMap m → Held m m
  unfolding lookup
  Held-self [] u = tt
  Held-self ((k, v) ∷ m) (alone, u) =
      (ground (arith, e.beq_refl k), Held-cons k v m m alone (Held-self m u))

  sum_by-keys-Held :
      (big m : Dict K V)
      → Held big m
      → sum_by (λ k. value_of f (lookup k big)) (map (λ p. p.0) m) ≡ sum_by (λ p. f p.1) m
  sum_by-keys-Held big [] h = refl
  sum_by-keys-Held big ((k, v) ∷ m) (here, rest) =
      rw here (omega (arith, sum_by-keys-Held big m rest))

  -- Summing over the keys what is looked up there is summing over the entries.
  pub sum_by-keys :
      (m : Dict K V)
      → IsMap m
      → sum_by (λ k. value_of f (lookup k m)) (map (λ p. p.0) m) ≡ sum_by (λ p. f p.1) m
  sum_by-keys m u = sum_by-keys-Held m m (Held-self m u)
