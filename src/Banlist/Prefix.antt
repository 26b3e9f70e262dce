-- ===== src/Banlist/Prefix.antt =====
-- What it means for a network to contain an address: the first `prefix_len` bits agree.
use Prim.Native.Nat.{digits, bit_and, bit_and-bitwise}
use native.Mathlib.Nat.{pow-suc, pow-zero, mul-add-mod_self_right, mod-eq_of_lt, div-add-mod'}
use p2p_observer.Common.{
  ℕ, zero, suc, ◌+◌, ◌-◌, ◌*◌, ◌/◌, ◌%◌, ◌^◌, ◌≤◌, ◌<◌, min, ◌≡◌, refl, sym, ap, ◌∙◌, ◌↔◌, true,
  false, arith, leb, ◌==◌, ==_iff,
}
use p2p_observer.Banlist.{mask}

-- The recursion that `bit_and` stands for: the lowest bits of both words, and the rest on fuel.
abbrev common_bits : ℕ → ℕ → ℕ → ℕ
common_bits fuel x y = digits (λ _. zero) min fuel x y

-- Fuel that covers the first word may grow by one,
one_more : (fuel x y : ℕ) → x ≤ fuel → common_bits (suc fuel) x y ≡ common_bits fuel x y
one_more (suc fuel) (suc x) y h =
    ap (λ t. t * 2 + min (suc x % 2) (y % 2)) (one_more fuel (suc x / 2) (y / 2) (omega arith))
one_more zero (suc x) y h = absurd (omega arith)
one_more zero zero y h = refl
one_more (suc fuel) zero y h = refl

-- and so to any number above.
any_more :
    (extra small large x y : ℕ)
    → large ≡ small + extra
    → x ≤ small
    → common_bits large x y ≡ common_bits small x y
any_more zero small large x y e h =
    let same : large ≡ small = omega arith in ap (λ t. common_bits t x y) same
any_more (suc extra) small zero x y e h = absurd (omega arith)
any_more (suc extra) small (suc large) x y e h =
    one_more large x y (omega arith) ∙ any_more extra small large x y (omega arith) h

nothing_in_common : (y : ℕ) → bit_and 0 y ≡ 0
nothing_in_common y = bit_and-bitwise 0 y

-- Two words share what their halves share, and their lowest bit if both have it.
halve :
    (x y half_x half_y : ℕ)
    → x / 2 ≡ half_x
    → y / 2 ≡ half_y
    → bit_and x y ≡ bit_and half_x half_y * 2 + min (x % 2) (y % 2)
halve zero y half_x half_y p q =
    let none_left : half_x ≡ 0 = omega arith in
    rw none_left (omega (arith, nothing_in_common y, nothing_in_common half_y))
halve (suc x) y half_x half_y p q =
    rw (← p, ← q)
      (let half = suc x / 2 in
        bit_and-bitwise (suc x) y
        ∙ ap (λ t. t * 2 + min (suc x % 2) (y % 2))
            (any_more (x - half) half x half (y / 2) (omega arith) (omega arith)
              ∙ sym (bit_and-bitwise half (y / 2))))

pow_pos : (n : ℕ) → 1 ≤ 2 ^ n
pow_pos zero = omega arith
pow_pos (suc n) = omega (arith, pow-suc 2 n, pow_pos n)

quotient_lt : (x p s : ℕ) → x < p * s → x / s < p
quotient_lt x p s h = grind arith

cancel : (a b s : ℕ) → 1 ≤ s → a * s ≡ b * s → a ≡ b
cancel a b s h e = grind arith

-- A mask of ones keeps a number that is below it.
bit_and_ones : (w a : ℕ) → a < 2 ^ w → bit_and a (2 ^ w - 1) ≡ a
bit_and_ones zero a h = let e : 0 ≡ a = omega arith in rw (← e) (nothing_in_common 0)
bit_and_ones (suc w) a h =
    let p = pow-suc 2 w in
    let q = pow_pos w in
    omega (
      arith,
      halve a (2 ^ suc w - 1) (a / 2) (2 ^ w - 1) refl (omega arith),
      bit_and_ones w (a / 2) (omega arith),
    )

-- A mask of ones above k zeros clears the low k bits.
bit_and_high :
    (k w q r : ℕ)
    → q < 2 ^ w
    → r < 2 ^ k
    → bit_and (q * 2 ^ k + r) ((2 ^ w - 1) * 2 ^ k) ≡ q * 2 ^ k
bit_and_high zero w q r h l =
    let e : q * 2 ^ 0 + r ≡ q = omega (arith, pow-zero 2) in
    let e' : (2 ^ w - 1) * 2 ^ 0 ≡ 2 ^ w - 1 = omega (arith, pow-zero 2) in
    rw (e, e') (omega (arith, bit_and_ones w q h, pow-zero 2))
bit_and_high (suc k) w q r h l =
    let p = pow-suc 2 k in
    let m = ap (λ (t : ℕ). q * t) p in
    let n = ap (λ (t : ℕ). (2 ^ w - 1) * t) p in
    omega (
      arith,
      halve (q * 2 ^ suc k + r) ((2 ^ w - 1) * 2 ^ suc k) (q * 2 ^ k + r / 2) ((2 ^ w - 1) * 2 ^ k)
          (omega arith) (omega arith),
      bit_and_high k w q (r / 2) h (omega arith),
    )

pow_add : (p s : ℕ) → 2 ^ (p + s) ≡ 2 ^ p * 2 ^ s
pow_add zero s = let e : zero + s ≡ s = omega arith in rw e (omega (arith, pow-zero 2))
pow_add (suc p) s =
    let e : suc p + s ≡ suc (p + s) = omega arith in
    rw e (
      omega (
        arith,
        pow-suc 2 (p + s),
        pow_add p s,
        pow-suc 2 p,
        ap (λ (t : ℕ). t * 2 ^ s) (pow-suc 2 p),
      ))

wrap_high : (m s p : ℕ) → suc m ≡ suc p * suc s → (m * suc s) % suc m ≡ p * suc s
wrap_high m s p e =
    let split : m * suc s ≡ s * suc m + p * suc s = omega (arith, ap (λ (t : ℕ). s * t) e) in
    rw split (mul-add-mod_self_right s (suc m) (p * suc s) ∙ mod-eq_of_lt (omega arith))

wrap_mask : (m s p : ℕ) → 1 ≤ s → 1 ≤ p → m ≡ p * s → ((m - 1) * s) % m ≡ (p - 1) * s
wrap_mask zero s p hs hp e = absurd (grind arith)
wrap_mask m zero p hs hp e = absurd (omega arith)
wrap_mask m s zero hs hp e = absurd (omega arith)
wrap_mask (suc m) (suc s) (suc p) hs hp e =
    let d : suc m - 1 ≡ m = omega arith in
    let d' : suc p - 1 ≡ p = omega arith in rw (d, d') (wrap_high m s p e)

-- The mask of a prefix of `p` bits with `s` bits below it.
mask_lem : (p s : ℕ) → mask (p + s) p ≡ (2 ^ p - 1) * 2 ^ s
unfolding mask
mask_lem zero s =
    let e : leb (zero + s) (zero + s - zero) ≡ true = ground arith in
    rw e (omega (arith, pow-zero 2))
mask_lem (suc p) s =
    let e : leb (suc p + s) (suc p + s - suc p) ≡ false = ground arith in
    let d : suc p + s - suc p ≡ s = omega arith in
    rw (e, d) (wrap_mask _ _ _ (pow_pos s) (pow_pos (suc p)) (pow_add (suc p) s))

masked : (p s x : ℕ) → x < 2 ^ (p + s) → bit_and x (mask (p + s) p) ≡ x / 2 ^ s * 2 ^ s
masked p s x h =
    let e : x ≡ x / 2 ^ s * 2 ^ s + x % 2 ^ s = sym (div-add-mod' x (2 ^ s)) in
    let b = pow_pos s in
    let r : x % 2 ^ s < 2 ^ s = grind arith in
    rw (mask_lem p s) (
      ap (λ (t : ℕ). bit_and t ((2 ^ p - 1) * 2 ^ s)) e
      ∙ bit_and_high s p (x / 2 ^ s) (x % 2 ^ s)
          (quotient_lt x (2 ^ p) (2 ^ s) (rw (pow_add p s) at h)) r)

-- Two words have the same bits above the lowest `s` exactly when the masked words are equal.
pub masked_iff :
    (p s x y : ℕ)
    → x < 2 ^ (p + s)
    → y < 2 ^ (p + s)
    → ((bit_and x (mask (p + s) p) == bit_and y (mask (p + s) p)) ≡ true) ↔ (x / 2 ^ s ≡ y / 2 ^ s)
masked_iff p s x y h k =
    rw (masked p s x h, masked p s y k)
      (
        (λ e. cancel (x / 2 ^ s) (y / 2 ^ s) (2 ^ s) (pow_pos s) ((==_iff _ _).0 e)),
        (λ e. (==_iff _ _).1 (ap (λ (t : ℕ). t * 2 ^ s) e)),
      )
