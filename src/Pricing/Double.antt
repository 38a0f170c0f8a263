-- ===== src/Pricing/Double.antt =====
-- What the pricing code does with a `float64`: it is never looked into otherwise.
use stint.Prelude.{ℕ, ◌+◌, ◌*◌, ◌==◌, ltb, Bool}

pub record Double (F : Type 0) : Type 0 where
  pub nought : F
  pub two : F
  pub of_int : ℕ → F
  pub add : F → F → F
  pub mul : F → F → F
  pub is_nought : F → Bool
  pub is_positive : F → Bool

infixl 65 ◌⊞◌
abbrev pub ◌⊞◌ : {F : Type 0} ⦃d : Double F⦄ → F → F → F
◌⊞◌ ⦃d⦄ = d.add

infixl 70 ◌⊠◌
abbrev pub ◌⊠◌ : {F : Type 0} ⦃d : Double F⦄ → F → F → F
◌⊠◌ ⦃d⦄ = d.mul

-- Whole numbers of some unit of money: a value with which the model can be run.
abbrev pub whole : Double ℕ
whole = record {
  nought = 0;
  two = 2;
  of_int = λ n. n;
  add = λ a b. a + b;
  mul = λ a b. a * b;
  is_nought = λ a. a == 0;
  is_positive = λ a. ltb 0 a;
}
