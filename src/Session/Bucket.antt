-- ===== src/Session/Bucket.antt =====
-- The token buckets of `Connection` in observer/src/protocol.rs: over the GETHEADERS that are
-- answered and over the addresses that are learnt. Times are milliseconds of a clock that does not
-- go back. The buckets hold `f64`s, which are the platform's: a parameter, with the laws of IEEE
-- 754 that the code relies on. A float is its bit pattern.
pub mod Spent
use p2p_observer.Common.{
  ℕ, zero, suc, ◌+◌, ◌-◌, ◌*◌, ◌/◌, ◌^◌, min, ◌≤◌, ◌≡◌, refl, Bool, true, false, List, [], ◌∷◌,
  arith, ltb, if◌then◌else◌,
}

pub record F64 : Type 0 where
  -- The literal that is nearest to a fraction, and `n as f64`.
  pub literal : ℕ → ℕ → ℕ
  pub of_nat : ℕ → ℕ
  -- `as_secs_f64` of some milliseconds.
  pub secs : ℕ → ℕ
  pub fadd : ℕ → ℕ → ℕ
  pub fsub : ℕ → ℕ → ℕ
  pub fmul : ℕ → ℕ → ℕ
  pub fmin : ℕ → ℕ → ℕ
  pub flt : ℕ → ℕ → Bool
  -- `floor().max(0.0) as usize`.
  pub floor : ℕ → ℕ

-- `value` is the number in units of the least subnormal, of which `one` make 1. It is 0 for a
-- number below 0, and for an infinity and what is no number it is 2^1024. Whole numbers are exact
-- up to 2^53, and so is taking one from a float in that range that is as large. A sum, a number of
-- seconds and a product with a literal are rounded: by a factor of 1 + 2^-53 for each rounding, and
-- by a unit more in a product, which may be subnormal.
pub record F64Laws (f : F64) : Type 0 where
  pub value : ℕ → ℕ
  pub one : ℕ
  pub one_large : 2 ^ 53 ≤ one
  pub value-of_nat : (n : ℕ) → n ≤ 2 ^ 53 → value (f.of_nat n) ≡ n * one
  pub value-fmin : (x y : ℕ) → value (f.fmin x y) ≡ min (value x) (value y)
  pub value-flt : (x n : ℕ) → 1 ≤ n → n ≤ 2 ^ 53 → f.flt x (f.of_nat n) ≡ ltb (value x) (n * one)
  pub value-fsub :
      (x n : ℕ)
      → n * one ≤ value x
      → value x ≤ 2 ^ 53 * one
      → value (f.fsub x (f.of_nat n)) + n * one ≡ value x
  pub floor-le : (x : ℕ) → f.floor x * one ≤ value x
  pub fadd_rounded : (x y : ℕ) → 2 ^ 53 * value (f.fadd x y) ≤ (2 ^ 53 + 1) * (value x + value y)
  pub secs_rounded : (ms : ℕ) → 2 ^ 51 * (1000 * value (f.secs ms)) ≤ (2 ^ 51 + 1) * (ms * one)
  pub fmul_rounded :
      (x n d : ℕ)
      → value x ≤ 2 ^ 53 * one
      → 1 ≤ n
      → n ≤ d
      → d ≤ 2 ^ 53
      → 2 ^ 51 * (d * value (f.fmul x (f.literal n d))) ≤ (2 ^ 51 + 1) * (n * value x) + 2 ^ 51 * d

-- Fractions of a fixed unit, with whole numbers up to 2^53, meet the laws.
abbrev pub fixed_one : ℕ
fixed_one = 30000 * 2 ^ 53

abbrev pub fixed : F64
fixed = record {
  literal = λ n d. n * fixed_one / d;
  of_nat = λ n. min n 9007199254740992 * fixed_one;
  secs = λ ms. ms * fixed_one / 1000;
  fadd = λ x y. x + y;
  fsub = λ x y. x - y;
  fmul = λ x y. x * y / fixed_one;
  fmin = λ x y. min x y;
  flt = λ x y. ltb x y;
  floor = λ x. x / fixed_one;
}

div_le : (n d : ℕ) → 1 ≤ d → d * (n / d) ≤ n
div_le n d h = grind arith

mul_up : (c a b : ℕ) → a ≤ b → c * a ≤ c * b
mul_up c a b h = grind arith

swap : (d x q : ℕ) → d * (x * q) ≡ x * (d * q)
swap d x q = grind arith

pub product_le : (x n d : ℕ) → 1 ≤ d → d * (x * (n * fixed_one / d) / fixed_one) ≤ n * x
product_le x n d h =
    let q = n * fixed_one / d in
    let w = x * q / fixed_one in
    let bound = mul_up x (d * q) (n * fixed_one) (div_le (n * fixed_one) d h) in
    let part = mul_up d (fixed_one * w) (x * q) (omega arith) in
    omega (
      arith,
      bound,
      part,
      swap d x q,
      swap d fixed_one w,
      swap x n fixed_one,
      swap n x 1,
      swap n x fixed_one,
    )

unfoldable pub fixed_laws : F64Laws fixed
fixed_laws = record {
  value = λ x. x;
  one = fixed_one;
  one_large = omega arith;
  value-of_nat = λ n h. omega arith;
  value-fmin = λ x y. refl;
  value-flt = λ x n h k. ground arith;
  value-fsub = λ x n h k. omega arith;
  floor-le = λ x. omega arith;
  fadd_rounded = λ x y. omega arith;
  secs_rounded = λ ms. omega arith;
  fmul_rounded = λ x n d h i j k. omega (arith, product_le x n d (omega arith));
}

pub record Bucket : Type 0 where
  pub tokens : ℕ
  pub updated : ℕ

module _ (f : F64) where
  unfoldable pub getheaders_burst : ℕ
  getheaders_burst = f.of_nat 4

  unfoldable pub getheaders_rate : ℕ
  getheaders_rate = f.literal 1 30

  unfoldable pub addr_burst : ℕ
  addr_burst = f.of_nat 1000

  unfoldable pub addr_rate : ℕ
  addr_rate = f.literal 1 10

  -- The elapsed time is added at a rate, up to the burst.
  unfoldable pub refill : ℕ → ℕ → ℕ → Bucket → Bucket
  refill rate burst now b = record {
    tokens = f.fmin (f.fadd b.tokens (f.fmul (f.secs (now - b.updated)) rate)) burst;
    updated = now;
  }

  unfoldable pub may_answer_getheaders : ℕ → Bucket → Bucket × Bool
  unfolding refill
  may_answer_getheaders now b =
      let full = refill getheaders_rate getheaders_burst now b in
      if f.flt full.tokens (f.of_nat 1)
      then (full, false)
      else (record full { tokens = f.fsub full.tokens (f.of_nat 1) }, true)

  -- How many of so many addresses the limit discards, and the bucket without the rest.
  unfoldable pub charge : ℕ → Bucket → Bucket × ℕ
  charge n full =
      let allowed = f.floor full.tokens in
      let rate_limited = if ltb allowed n then n - allowed else 0 in
      (record full { tokens = f.fsub full.tokens (f.of_nat (n - rate_limited)) }, rate_limited)
