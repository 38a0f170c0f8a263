-- ===== src/Prelude/Dict.antt =====
-- A Go map as an association list, in the order in which a `range` over it would go: that order is
-- not specified in Go, so what holds of every list holds of every iteration order.
use Prim.Native.Nat.{ℕ, ◌≤◌, ◌+◌, ◌<◌}
use mathlib.Core.Path.{◌≡◌, refl}
use mathlib.Core.Bool.{Bool, true}
use mathlib.Core.Logic.{◌≢◌}
use mathlib.Core.Option.{Option, none, some}
use mathlib.Core.List.{List, [], ◌∷◌}
use native.Mathlib.Omega.{arith}
use stint.Prelude.Tests.{◌==◌, if◌then◌else◌}
use stint.Prelude.Lists.{length}
use stint.Prelude.Text.{Str, str_eq, str_eq→eq, str_eq_refl}

pub record Eq {ℓ} (K : Type ℓ) : Type ℓ where
  pub beq : K → K → Bool
  pub beq→eq : (a b : K) → beq a b ≡ true → a ≡ b
  pub beq_refl : (a : K) → beq a a ≡ true

pub nat_beq→eq : (a b : ℕ) → (a == b) ≡ true → a ≡ b
nat_beq→eq a b h = ground arith

pub nat_beq_refl : (a : ℕ) → (a == a) ≡ true
nat_beq_refl a = ground arith

instance abbrev pub nat_eq : Eq ℕ
nat_eq = record { beq = λ a b. a == b; beq→eq = nat_beq→eq; beq_refl = nat_beq_refl }

instance abbrev pub text_eq : Eq Str
text_eq = record { beq = str_eq; beq→eq = str_eq→eq; beq_refl = str_eq_refl }

abbrev pub Dict {ℓ κ} : Type ℓ → Type κ → Type (ℓ ⊔ κ)
Dict K V = List (K × V)

module _ {ℓ κ} {K : Type ℓ} {V : Type κ} ⦃e : Eq K⦄ where
  unfoldable pub lookup : K → Dict K V → Option V
  lookup k [] = none
  lookup k ((j, v) ∷ m) = if e.beq j k then some v else lookup k m

  unfoldable pub insert : K → V → Dict K V → Dict K V
  insert k v [] = (k, v) ∷ []
  insert k v ((j, w) ∷ m) = if e.beq j k then (k, v) ∷ m else (j, w) ∷ insert k v m

  unfoldable pub delete : K → Dict K V → Dict K V
  delete k [] = []
  delete k ((j, w) ∷ m) = let rest = delete k m in if e.beq j k then rest else (j, w) ∷ rest

  pub lookup-insert :
      (k j : K) (v : V) (m : Dict K V)
      → lookup j (insert k v m) ≡ (if e.beq k j then some v else lookup j m)
  unfolding lookup insert
  lookup-insert k j v [] = refl
  lookup-insert k j v ((i, w) ∷ m) = ground (
    arith,
    e.beq→eq i k,
    e.beq→eq i j,
    e.beq→eq k j,
    e.beq_refl j,
    e.beq_refl k,
    lookup-insert k j v m,
  )

  pub lookup-delete :
      (k j : K) (m : Dict K V) → lookup j (delete k m) ≡ (if e.beq k j then none else lookup j m)
  unfolding lookup delete
  lookup-delete k j [] = ground arith
  lookup-delete k j ((i, w) ∷ m) = ground (
    arith,
    e.beq→eq i k,
    e.beq→eq i j,
    e.beq→eq k j,
    e.beq_refl j,
    e.beq_refl k,
    lookup-delete k j m,
  )

  pub lookup-insert_self : (k : K) (v : V) (m : Dict K V) → lookup k (insert k v m) ≡ some v
  lookup-insert_self k v m = rw (lookup-insert k k v m, e.beq_refl k)

  pub insert-insert : (k : K) (v w : V) (m : Dict K V) → insert k v (insert k w m) ≡ insert k v m
  unfolding insert
  insert-insert k v w [] = ground (arith, e.beq_refl k)
  insert-insert k v w ((j, x) ∷ m) = ground (arith, e.beq_refl k, insert-insert k v w m)

  -- An insertion adds at most one entry, and none where the key is there.
  pub length-insert :
      (k : K) (v : V) (m : Dict K V)
      → length (insert k v m) ≡ (elim (lookup k m) [ none ↦ length m + 1 | some _ ↦ length m ])
  unfolding lookup insert
  length-insert k v [] = refl
  length-insert k v ((j, w) ∷ m) = ground (arith, length-insert k v m)

  pub length-delete : (k : K) (m : Dict K V) → length (delete k m) ≤ length m
  unfolding delete
  length-delete k [] = omega arith
  length-delete k ((j, w) ∷ m) = ground (arith, length-delete k m)

  -- Deleting a key that is there removes an entry.
  pub length-delete_present :
      (k : K) (m : Dict K V) → lookup k m ≢ none → length (delete k m) < length m
  unfolding lookup delete
  length-delete_present k [] h = absurd (h refl)
  length-delete_present k ((j, w) ∷ m) h =
      ground (arith, length-delete_present k m, length-delete k m)
