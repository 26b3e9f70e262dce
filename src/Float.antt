-- ===== src/Float.antt =====
-- The `f32` operations that the address book computes with (observer/src/addresses/policy.rs and
-- book.rs). Floats are the platform's, so they are a parameter: a value is its bit pattern, and the
-- laws are those of IEEE 754 that the code relies on.
use p2p_observer.Common.{
  ℕ, ◌+◌, ◌-◌, ◌*◌, ◌/◌, ◌^◌, ◌≤◌, ◌<◌, max, min, ◌≡◌, Bool, true, arith, ltb, leb,
}

pub record F32 : Type 0 where
  -- `n as f32`.
  pub of_nat : ℕ → ℕ
  -- The literal that is nearest to a fraction.
  pub ratio : ℕ → ℕ → ℕ
  pub fadd : ℕ → ℕ → ℕ
  pub fsub : ℕ → ℕ → ℕ
  pub fmul : ℕ → ℕ → ℕ
  pub fdiv : ℕ → ℕ → ℕ
  pub fneg : ℕ → ℕ
  pub fmin : ℕ → ℕ → ℕ
  pub fmax : ℕ → ℕ → ℕ
  pub round : ℕ → ℕ
  pub flt : ℕ → ℕ → Bool
  pub fle : ℕ → ℕ → Bool
  -- `x as u32`, which saturates.
  pub to_u32 : ℕ → ℕ

-- `f32::max` is at least an argument that is a number, and the cast to `u32` is monotone, in range,
-- and exact on the integers that a float holds exactly.
pub record F32Laws (f : F32) : Type 0 where
  pub fle-fmax : (x n : ℕ) → f.fle (f.of_nat n) (f.fmax x (f.of_nat n)) ≡ true
  pub to_u32_mono : (x y : ℕ) → f.fle x y ≡ true → f.to_u32 x ≤ f.to_u32 y
  pub to_u32-of_nat : (n : ℕ) → n ≤ 2 ^ 24 → f.to_u32 (f.of_nat n) ≡ n
  pub to_u32-lt : (x : ℕ) → f.to_u32 x < 2 ^ 32

-- Whole numbers with saturation meet the laws.
abbrev pub whole : F32
whole = record {
  of_nat = λ n. n;
  ratio = λ n d. n / d;
  fadd = λ x y. x + y;
  fsub = λ x y. x - y;
  fmul = λ x y. x * y;
  fdiv = λ x y. x / y;
  fneg = λ x. 0;
  fmin = λ x y. min x y;
  fmax = λ x y. max x y;
  round = λ x. x;
  flt = λ x y. ltb x y;
  fle = λ x y. leb x y;
  to_u32 = λ x. min x 4294967295;
}

pub whole_laws : F32Laws whole
whole_laws = record {
  fle-fmax = λ x n. ground arith;
  to_u32_mono = λ x y h. ground arith;
  to_u32-of_nat = λ n h. ground arith;
  to_u32-lt = λ x. ground arith;
}
