-- ===== src/Prelude/Sort.antt =====
-- What `sort.Slice` is documented to do: it permutes the elements into ascending order of a key (where
-- keys are equal, in an order that is not specified).
use Prim.Native.Nat.{ℕ, ◌+◌, ◌≤◌}
use mathlib.Core.Path.{◌≡◌, refl, ap, ap₂, ◌∙◌}
use mathlib.Core.Logic.{∥∥₁_elim, inl, inr}
use mathlib.Core.Bool.{Bool, true}
use mathlib.Core.List.{List, [], ◌∷◌, Perm, Permᴰ}
use mathlib.Core.List.Perm
use native.Mathlib.Nat.{ℕ_set}
use native.Mathlib.Omega.{arith}
use stint.Prelude.Tests.{leb, leb→le, if◌then◌else◌, Bool-cases}
use stint.Prelude.Lists.{All, sum_by}

module _ {ℓ} {A : Type ℓ} (key : A → ℕ) where
  -- The keys ascend from `low` on.
  abbrev pub Ascending : ℕ → List A → Type 0
  Ascending low [] = Unit
  Ascending low (x ∷ xs) = (low ≤ key x) × Ascending (key x) xs

  pub record IsSort (sort : List A → List A) : Type ℓ where
    pub permutes : (xs : List A) → Perm (sort xs) xs
    pub sorted : (xs : List A) → Ascending 0 (sort xs)

  -- Insertion sort, an instance.
  pub insert : A → List A → List A
  insert x [] = x ∷ []
  insert x (y ∷ ys) = if leb (key x) (key y) then x ∷ y ∷ ys else y ∷ insert x ys

  unfoldable pub insertion_sort : List A → List A
  unfolding insert
  insertion_sort [] = []
  insertion_sort (x ∷ xs) = insert x (insertion_sort xs)

  insert-perm : (x : A) (ys : List A) → Perm (insert x ys) (x ∷ ys)
  unfolding insert
  insert-perm x [] = Perm.refl _
  insert-perm x (y ∷ ys) = elim (Bool-cases (leb (key x) (key y))) [
    | inl e ↦ rw e (Perm.refl _)
    | inr e ↦ rw e (Perm.trans (Perm.cons y (insert-perm x ys)) (Perm.swap x y ys))
  ]

  insertion_sort-perm : (xs : List A) → Perm (insertion_sort xs) xs
  unfolding insertion_sort
  insertion_sort-perm [] = Perm.refl _
  insertion_sort-perm (x ∷ xs) =
      Perm.trans (insert-perm x (insertion_sort xs)) (Perm.cons x (insertion_sort-perm xs))

  insert-Ascending :
      (x : A) (ys : List A) (low : ℕ) → low ≤ key x → Ascending low ys → Ascending low (insert x ys)
  unfolding insert
  insert-Ascending x [] low h _ = (h, tt)
  insert-Ascending x (y ∷ ys) low h (l, a) = elim (Bool-cases (leb (key x) (key y))) [
    | inl e ↦ rw e (h, (leb→le (key x) (key y) e, a))
    | inr e ↦ rw e (l, insert-Ascending x ys (key y) (ground arith) a)
  ]

  insertion_sort-Ascending : (xs : List A) → Ascending 0 (insertion_sort xs)
  unfolding insertion_sort
  insertion_sort-Ascending [] = tt
  insertion_sort-Ascending (x ∷ xs) =
      insert-Ascending x (insertion_sort xs) 0 (omega arith) (insertion_sort-Ascending xs)

  pub insertion_sort-IsSort : IsSort insertion_sort
  insertion_sort-IsSort = record {
    permutes = insertion_sort-perm;
    sorted = insertion_sort-Ascending;
  }

sum_by-permᴰ : {A : Type 0} (f : A → ℕ) {xs ys : List A} → Permᴰ xs ys → sum_by f xs ≡ sum_by f ys
sum_by-permᴰ f Permᴰ.nil = refl
sum_by-permᴰ f (Permᴰ.cons {a} {b} {l₁} {l₂} e p) = ap₂ (λ u v. u + v) (ap f e) (sum_by-permᴰ f p)
sum_by-permᴰ f (Permᴰ.swap {l} e e') = omega (arith, ap f e, ap f e')
sum_by-permᴰ f (Permᴰ.trans p q) = sum_by-permᴰ f p ∙ sum_by-permᴰ f q

pub sum_by-perm : {A : Type 0} (f : A → ℕ) {xs ys : List A} → Perm xs ys → sum_by f xs ≡ sum_by f ys
sum_by-perm f {xs} {ys} p = ∥∥₁_elim p (ℕ_set (sum_by f xs) (sum_by f ys)) (sum_by-permᴰ f)

-- A test that all elements of a list pass is passed by all of a permutation of it: none fails.
module _ {A : Type 0} (test : A → Bool) where
  failing : List A → ℕ
  failing = sum_by (λ x. if test x then 0 else 1)

  failing-zero : (xs : List A) → All (λ x. test x ≡ true) xs → failing xs ≡ 0
  unfolding failing
  failing-zero [] h = refl
  failing-zero (x ∷ xs) (h, hs) = ground (arith, failing-zero xs hs)

  All-failing : (xs : List A) → failing xs ≡ 0 → All (λ x. test x ≡ true) xs
  unfolding failing
  All-failing [] h = tt
  All-failing (x ∷ xs) h = (ground arith, All-failing xs (ground arith))

  pub All-perm :
      {xs ys : List A} → Perm xs ys → All (λ x. test x ≡ true) ys → All (λ x. test x ≡ true) xs
  unfolding failing
  All-perm {xs} {ys} p h =
      All-failing xs (sum_by-perm (λ x. if test x then 0 else 1) p ∙ failing-zero ys h)
