-- ===== src/Submissions/Processor/Score.antt =====
-- The score of src/submissions/processors/submission.processor.ts,
-- `Math.round((passedCount / testCases.length) * 100)`. Floating-point numbers are a parameter, with
-- what IEEE 754 says of the operations that the source uses.
use codeweaknesses.Common.{
  inr, ltb→lt, inl, Bool-cases, ℕ, ◌≤◌, ◌<◌, ◌≡◌, arith, ltb, if◌then◌else◌,
}

-- `Number.MAX_SAFE_INTEGER`: integers up to it are floating-point numbers.
abbrev pub max_safe_integer : ℕ
max_safe_integer = 9007199254740991

pub record Float : Type 1 where
  pub Number : Type 0
  pub of_ℕ : ℕ → Number
  pub div : Number → Number → Number
  pub mul : Number → Number → Number
  pub round : Number → ℕ
  pub Le : Number → Number → Type 0
  -- A quotient of equal numbers is exactly 1, and a product with it is exact.
  pub div_self : (n : ℕ) → 0 < n → n ≤ max_safe_integer → div (of_ℕ n) (of_ℕ n) ≡ of_ℕ 1
  pub mul_one : (n : ℕ) → mul (of_ℕ 1) (of_ℕ n) ≡ of_ℕ n
  -- Rounding to nearest is monotone, in a quotient, in a product and to an integer.
  pub div_mono :
      (m n k : ℕ)
      → m ≤ n
      → 0 < k
      → n ≤ max_safe_integer
      → k ≤ max_safe_integer
      → Le (div (of_ℕ m) (of_ℕ k)) (div (of_ℕ n) (of_ℕ k))
  pub mul_mono :
      (x y : Number) (n : ℕ)
      → 0 < n
      → n ≤ max_safe_integer
      → Le x y
      → Le (mul x (of_ℕ n)) (mul y (of_ℕ n))
  pub round_mono : (x y : Number) → Le x y → round x ≤ round y
  pub round_of_ℕ : (n : ℕ) → n ≤ max_safe_integer → round (of_ℕ n) ≡ n

module _ (float : Float) where
  open float use {of_ℕ, div, mul, round}

  unfoldable pub percent : ℕ → ℕ → ℕ
  percent passed_count total =
      if ltb 0 total then round (mul (div (of_ℕ passed_count) (of_ℕ total)) (of_ℕ 100)) else 100

  pub percent_all : (total : ℕ) → total ≤ max_safe_integer → percent total total ≡ 100
  unfolding percent
  percent_all total small = elim (Bool-cases (ltb 0 total)) [
    | inl h ↦ rw (
      h,
      float.div_self total (ltb→lt 0 total h) small,
      float.mul_one 100,
      float.round_of_ℕ 100 (omega arith),
    )
    | inr h ↦ rw h
  ]

  pub percent_mono :
      (m n total : ℕ)
      → m ≤ n
      → n ≤ max_safe_integer
      → total ≤ max_safe_integer
      → percent m total ≤ percent n total
  unfolding percent
  percent_mono m n total le small_n small = elim (Bool-cases (ltb 0 total)) [
    | inl h ↦ rw h (
        float.round_mono _ _ (
          float.mul_mono _ _ 100 (omega arith) (omega arith)
            (float.div_mono m n total le (ltb→lt 0 total h) small_n small)))
    | inr h ↦ rw h (omega arith)
  ]

  pub percent-le :
      (passed_count total : ℕ)
      → passed_count ≤ total
      → total ≤ max_safe_integer
      → percent passed_count total ≤ 100
  percent-le passed_count total h small =
      omega (arith, percent_mono passed_count total total h small small, percent_all total small)
