-- ===== src/Book/Rng.antt =====
-- `Rng` of observer/src/addresses/book.rs: xorshift64* on a 64-bit state, and what it is drawn for.
use Prim.Native.Nat.{bit_xor, bit_or}
use p2p_observer.Common.{ℕ, ◌*◌, ◌/◌, ◌%◌, ◌^◌, ◌<◌, arith, ◌==◌, if◌then◌else◌}
use p2p_observer.Float.{F32}

-- A zero state is a fixed point for xorshift.
unfoldable pub seeded : ℕ → ℕ
seeded seed = bit_or seed 1

unfoldable pub shifted : ℕ → ℕ
shifted state =
    let x = bit_xor state (state / 2 ^ 12) in
    let y = bit_xor x (x * 2 ^ 25 % 2 ^ 64) in bit_xor y (y / 2 ^ 27)

-- The new state, and the number drawn.
unfoldable pub next_u64 : ℕ → ℕ × ℕ
unfolding shifted
next_u64 state = (shifted state, shifted state * 0x2545F4914F6CDD1D % 2 ^ 64)

unfoldable pub next_f32 : F32 → ℕ → ℕ × ℕ
unfolding next_u64
next_f32 f state =
    ((next_u64 state).0, f.fdiv (f.of_nat ((next_u64 state).1 / 2 ^ 40)) (f.of_nat (2 ^ 24)))

unfoldable pub below : ℕ → ℕ → ℕ × ℕ
unfolding next_u64
below state n = if n == 0 then (state, 0) else ((next_u64 state).0, (next_u64 state).1 % n)

pub below-lt : (state n : ℕ) → 0 < n → (below state n).1 < n
unfolding below
below-lt state n h = grind arith
