-- ===== src/Prelude/Unique.antt =====
-- Association lists with one entry at most for every key, as Go's maps have.
use mathlib.Core.Path.{◌≡◌, refl}
use mathlib.Core.Logic.{inl, inr}
use mathlib.Core.Option.{none}
use mathlib.Core.List.{[], ◌∷◌}
use native.Mathlib.Omega.{arith}
use stint.Prelude.Tests.{Bool-cases}
use stint.Prelude.Dict.{Eq, Dict, lookup, insert, delete, lookup-insert, lookup-delete}

module _ {ℓ κ} {K : Type ℓ} {V : Type κ} ⦃e : Eq K⦄ where
  abbrev pub IsMap : Dict K V → Type κ
  IsMap [] = Unit
  IsMap ((k, v) ∷ m) = (lookup k m ≡ none) × IsMap m

  delete-absent : (k j : K) (m : Dict K V) → lookup j m ≡ none → lookup j (delete k m) ≡ none
  delete-absent k j m h = ground (arith, lookup-delete k j m)

  pub delete-IsMap : (k : K) (m : Dict K V) → IsMap m → IsMap (delete k m)
  unfolding delete
  delete-IsMap k [] u = tt
  delete-IsMap k ((j, v) ∷ m) (alone, u) = elim (Bool-cases (e.beq j k)) [
    | inl same ↦ rw same (delete-IsMap k m u)
    | inr other ↦ rw other (delete-absent k j m alone, delete-IsMap k m u)
  ]

  pub insert-IsMap : (k : K) (v : V) (m : Dict K V) → IsMap m → IsMap (insert k v m)
  unfolding insert lookup
  insert-IsMap k v [] u = (refl, tt)
  insert-IsMap k v ((j, w) ∷ m) (alone, u) = elim (Bool-cases (e.beq j k)) [
    | inl same ↦ rw same (ground (arith, e.beq→eq j k), u)
    | inr other ↦
        rw other
          (ground (arith, lookup-insert k j v m, e.beq→eq k j, e.beq_refl j), insert-IsMap k v m u)
  ]
