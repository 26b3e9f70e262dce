-- ===== src/Session/Bucket/Spent.antt =====
-- The bounds that the buckets of observer/src/protocol.rs keep.
use p2p_observer.Common.{
  ℕ, suc, ◌+◌, ◌-◌, ◌*◌, ◌^◌, ◌≤◌, length, All, ◌≡◌, Bool, true, false, List, [], ◌∷◌, arith, ltb,
  if◌then◌else◌,
}
use p2p_observer.Session.Bucket.{
  F64, F64Laws, Bucket, getheaders_burst, getheaders_rate, addr_rate, addr_burst, refill,
  may_answer_getheaders, charge,
}

module _ (f : F64) where
  -- GETHEADERS that come at these times.
  unfoldable pub answer_all : List ℕ → Bucket → Bucket × List Bool
  answer_all [] b = (b, [])
  answer_all (now ∷ nows) b =
      let (b', answered) = may_answer_getheaders f now b in
      let (b'', answers) = answer_all nows b' in (b'', answered ∷ answers)

pub mul_le : (a b c : ℕ) → a ≤ b → a * c ≤ b * c
mul_le a b c h = grind arith

abbrev pub answered : List Bool → ℕ
answered [] = 0
answered (true ∷ bs) = suc (answered bs)
answered (false ∷ bs) = answered bs

-- The milliseconds between the refills at these times.
abbrev pub elapsed : ℕ → List ℕ → ℕ
elapsed updated [] = 0
elapsed updated (now ∷ nows) = (now - updated) + elapsed now nows

-- A clock that has run for less than 2^53 milliseconds.
abbrev pub IsTime : ℕ → Type 0
IsTime now = now ≤ 2 ^ 53

pub cancel_le : (a b c : ℕ) → 1 ≤ c → a * c ≤ b * c → a ≤ b
cancel_le a b c h k = grind arith

pub plus_times : (a b c : ℕ) → (a + b) * c ≡ a * c + b * c
plus_times a b c = grind arith

module _ (f : F64) (l : F64Laws f) where
  pub refill-le :
      (rate burst now : ℕ) (b : Bucket) → l.value (refill f rate burst now b).tokens ≤ l.value burst
  unfolding refill
  refill-le rate burst now b =
      omega (arith, l.value-fmin (f.fadd b.tokens (f.fmul (f.secs (now - b.updated)) rate)) burst)

  secs_small : (ms : ℕ) → ms ≤ 2 ^ 53 → l.value (f.secs ms) ≤ 2 ^ 53 * l.one
  secs_small ms h = omega (arith, l.secs_rounded ms, mul_le ms (2 ^ 53) l.one h)

  -- A refill of the bucket of GETHEADERS adds a token for thirty seconds at most, and a billionth
  -- for the rounding.
  pub value-refill-getheaders :
      (now : ℕ) (b : Bucket)
      → IsTime now
      → 30000000000000 * l.value (refill f (getheaders_rate f) (getheaders_burst f) now b).tokens
        ≤ 30000000000000 * l.value b.tokens
          + 1000000000 * ((now - b.updated) * l.one)
          + 30000 * l.one
  unfolding refill getheaders_rate getheaders_burst
  value-refill-getheaders now b h =
      let ms = now - b.updated in
      let product = f.fmul (f.secs ms) (f.literal 1 30) in
      omega (
        arith,
        l.one_large,
        l.value-fmin (f.fadd b.tokens product) (f.of_nat 4),
        l.value-of_nat 4 (omega arith),
        l.fadd_rounded b.tokens product,
        l.secs_rounded ms,
        l.fmul_rounded (f.secs ms) 1 30 (secs_small ms (omega (arith, h))) (omega arith)
            (omega arith) (omega arith),
      )

  -- A refill of the bucket of addresses adds a token for ten seconds at most, and a billionth for
  -- the rounding.
  pub value-refill-addr :
      (now : ℕ) (b : Bucket)
      → IsTime now
      → 10000000000000 * l.value (refill f (addr_rate f) (addr_burst f) now b).tokens
        ≤ 10000000000000 * l.value b.tokens
          + 1000000000 * ((now - b.updated) * l.one)
          + 10000 * l.one
  unfolding refill addr_rate addr_burst
  value-refill-addr now b h =
      let ms = now - b.updated in
      let product = f.fmul (f.secs ms) (f.literal 1 10) in
      omega (
        arith,
        l.one_large,
        l.value-fmin (f.fadd b.tokens product) (f.of_nat 1000),
        l.value-of_nat 1000 (omega arith),
        l.fadd_rounded b.tokens product,
        l.secs_rounded ms,
        l.fmul_rounded (f.secs ms) 1 10 (secs_small ms (omega (arith, h))) (omega arith)
            (omega arith) (omega arith),
      )

  -- What the addresses that are kept cost is taken from the bucket.
  pub value-charge :
      (n : ℕ) (b : Bucket)
      → l.value b.tokens ≤ 2 ^ 53 * l.one
      → l.value (charge f n b).0.tokens + (n - (charge f n b).1) * l.one ≤ l.value b.tokens
  unfolding charge
  value-charge n b h =
      let kept = n - (if ltb (f.floor b.tokens) n then n - f.floor b.tokens else 0) in
      let within : kept * l.one ≤ l.value b.tokens =
        grind (arith, mul_le kept (f.floor b.tokens) l.one (ground arith), l.floor-le b.tokens) in
      omega (arith, l.value-fsub b.tokens kept within h)

  pub getheaders-le :
      (now : ℕ) (b : Bucket)
      → l.value (refill f (getheaders_rate f) (getheaders_burst f) now b).tokens ≤ 2 ^ 53 * l.one
  unfolding getheaders_burst
  getheaders-le now b =
      omega
        (arith, refill-le (getheaders_rate f) (f.of_nat 4) now b, l.value-of_nat 4 (omega arith))

  pub addr_burst-le : l.value (addr_burst f) ≤ 2 ^ 53 * l.one
  unfolding addr_burst
  addr_burst-le = omega (arith, l.value-of_nat 1000 (omega arith))

  pub addr-le :
      (now : ℕ) (b : Bucket)
      → l.value (refill f (addr_rate f) (addr_burst f) now b).tokens ≤ 2 ^ 53 * l.one
  addr-le now b = omega (arith, refill-le (addr_rate f) (addr_burst f) now b, addr_burst-le)

  value-answer :
      (now : ℕ) (b : Bucket)
      → IsTime now
      → 30000000000000 * l.value (may_answer_getheaders f now b).0.tokens
          + 30000000000000 * (answered ((may_answer_getheaders f now b).1 ∷ []) * l.one)
        ≤ 30000000000000 * l.value b.tokens
          + 1000000000 * ((now - b.updated) * l.one)
          + 30000 * l.one
  unfolding may_answer_getheaders
  value-answer now b h =
      let full = refill f (getheaders_rate f) (getheaders_burst f) now b in
      let filled = value-refill-getheaders now b h in
      let small = getheaders-le now b in
      ground (
        arith,
        filled,
        l.value-flt full.tokens 1 (omega arith) (omega arith),
        l.value-fsub full.tokens 1,
        small,
      )

  updated-answer : (now : ℕ) (b : Bucket) → (may_answer_getheaders f now b).0.updated ≡ now
  unfolding may_answer_getheaders
  updated-answer now b = ground arith

  answered_∷ :
      (a : Bool) (bs : List Bool)
      → answered (a ∷ bs) * l.one ≡ answered (a ∷ []) * l.one + answered bs * l.one
  answered_∷ true bs = omega arith
  answered_∷ false bs = omega arith

  answer_all-paid :
      (nows : List ℕ) (b : Bucket)
      → All IsTime nows
      → 30000000000000 * (answered (answer_all f nows b).1 * l.one)
        ≤ 30000000000000 * l.value b.tokens
          + (1000000000 * elapsed b.updated nows + 30000 * length nows) * l.one
  unfolding answer_all
  answer_all-paid [] b h = omega arith
  answer_all-paid (now ∷ nows) b h =
      let b' = (may_answer_getheaders f now b).0 in
      omega (
        arith,
        value-answer now b h.0,
        answered_∷ (may_answer_getheaders f now b).1 (answer_all f nows b').1,
        rw (updated-answer now b) at (answer_all-paid nows b' h.1),
        plus_times (1000000000 * (now - b.updated) + 30000)
            (1000000000 * elapsed now nows + 30000 * length nows) l.one,
        plus_times (1000000000 * (now - b.updated)) 30000 l.one,
      )

  -- What a peer draws out of us is bounded: from a bucket of at most m tokens, at whatever times
  -- its requests come in the first 2^53 milliseconds of the clock, the answers are at most m, one
  -- for every thirty seconds since the bucket was filled last, and a billionth for each request.
  pub answered-answer_all :
      (nows : List ℕ) (b : Bucket) (m : ℕ)
      → All IsTime nows
      → l.value b.tokens ≤ m * l.one
      → 30000000000000 * answered (answer_all f nows b).1
        ≤ 30000000000000 * m + 1000000000 * elapsed b.updated nows + 30000 * length nows
  answered-answer_all nows b m h small =
      cancel_le (30000000000000 * answered (answer_all f nows b).1)
        (30000000000000 * m + 1000000000 * elapsed b.updated nows + 30000 * length nows) l.one
        (omega (arith, l.one_large))
        (omega (
          arith,
          answer_all-paid nows b h,
          small,
          plus_times (30000000000000 * m)
              (1000000000 * elapsed b.updated nows + 30000 * length nows) l.one,
        ))
