-- ===== src/Banlist/Contains.antt =====
-- `IpNet::contains` and `Banlist::contains`: the networks as prefixes, the hosts as exact texts.
use Prim.Native.Nat.{bit_and}
use native.Mathlib.Nat.{pow-suc}
use p2p_observer.Common.{
  ℕ, ◌+◌, ◌-◌, ◌*◌, ◌/◌, ◌^◌, ◌≤◌, ◌<◌, ◌≡◌, refl, subst, ◌↔◌, true, List, [], ◌∷◌, arith, All,
  length, sym, ◌==◌,
}
use p2p_observer.PeerAddr.{IpAddr, v4, v6}
use p2p_observer.Banlist.{IpNet, big_endian, mask, same_prefix, net_contains_octets, net_contains}
use p2p_observer.Banlist.Prefix.{masked_iff}

le-mul_right : (a b c : ℕ) → a ≤ b → a * c ≤ b * c
le-mul_right a b c h = grind arith

big_endian-lt :
    (acc : ℕ) (bs : List ℕ)
    → All (λ x. x < 256) bs
    → big_endian acc bs + 1 ≤ (acc + 1) * 256 ^ length bs
unfolding big_endian
big_endian-lt acc [] h = omega arith
big_endian-lt acc (b ∷ bs) h = omega (
  arith,
  big_endian-lt (acc * 256 + b) bs h.1,
  pow-suc 256 (length bs),
  le-mul_right (acc * 256 + b + 1) ((acc + 1) * 256) (256 ^ length bs) (omega arith),
  ap_mul (pow-suc 256 (length bs)),
)
  where
    ap_mul : {x y : ℕ} → x ≡ y → (acc + 1) * x ≡ (acc + 1) * y
    ap_mul e = rw e

-- The octets of an address of each family.
abbrev pub IsIp : IpAddr → Type 0
IsIp (v4 b) = (length b ≡ 4) × All (λ x. x < 256) b
IsIp (v6 b) = (length b ≡ 16) × All (λ x. x < 256) b

abbrev pub family_bits : IpAddr → ℕ
family_bits (v4 _) = 32
family_bits (v6 _) = 128

-- Two addresses are of one family and their first `prefix_len` bits agree.
abbrev pub SamePrefix : IpAddr → ℕ → IpAddr → Type 0
SamePrefix (v4 n) prefix_len (v4 i) =
    big_endian 0 n / 2 ^ (32 - prefix_len) ≡ big_endian 0 i / 2 ^ (32 - prefix_len)
SamePrefix (v6 n) prefix_len (v6 i) =
    big_endian 0 n / 2 ^ (128 - prefix_len) ≡ big_endian 0 i / 2 ^ (128 - prefix_len)
SamePrefix _ prefix_len _ = ⊥

word_lt :
    (k width : ℕ) (bs : List ℕ)
    → 256 ^ k ≡ 2 ^ width
    → length bs ≡ k
    → All (λ x. x < 256) bs
    → big_endian 0 bs < 2 ^ width
word_lt k width bs e l h =
    subst (λ t. big_endian 0 bs < t) (subst (λ t. 256 ^ t ≡ 2 ^ width) (sym l) e)
      (omega (arith, big_endian-lt 0 bs h))

same_prefix_iff :
    (width prefix_len : ℕ) (n i : List ℕ)
    → prefix_len ≤ width
    → big_endian 0 n < 2 ^ width
    → big_endian 0 i < 2 ^ width
    → (same_prefix width prefix_len n i ≡ true)
      ↔ (big_endian 0 n / 2 ^ (width - prefix_len) ≡ big_endian 0 i / 2 ^ (width - prefix_len))
unfolding same_prefix
same_prefix_iff width p n i h hn hi =
    let e : p + (width - p) ≡ width = omega arith in
    subst
      (λ w.
        ((bit_and (big_endian 0 n) (mask w p) == bit_and (big_endian 0 i) (mask w p)) ≡ true)
        ↔ (big_endian 0 n / 2 ^ (width - p) ≡ big_endian 0 i / 2 ^ (width - p)))
      e (masked_iff p (width - p) (big_endian 0 n) (big_endian 0 i) (rw e hn) (rw e hi))

-- A network whose prefix is no longer than an address of its family contains exactly the addresses
-- of its family that share its prefix.
pub net_contains_iff :
    (n : IpNet) (i : IpAddr)
    → IsIp n.addr
    → n.prefix_len ≤ family_bits n.addr
    → IsIp i
    → (net_contains n i ≡ true) ↔ SamePrefix n.addr n.prefix_len i
unfolding net_contains net_contains_octets
net_contains_iff n i hn hp hi = octets n.addr i hn hp hi
  where
    octets :
        (a b : IpAddr)
        → IsIp a
        → n.prefix_len ≤ family_bits a
        → IsIp b
        → (net_contains_octets a n.prefix_len b ≡ true) ↔ SamePrefix a n.prefix_len b
    octets (v4 x) (v4 y) hx hp hy =
        same_prefix_iff 32 n.prefix_len x y hp (word_lt 4 32 x refl hx.0 hx.1)
          (word_lt 4 32 y refl hy.0 hy.1)
    octets (v6 x) (v6 y) hx hp hy =
        same_prefix_iff 128 n.prefix_len x y hp (word_lt 16 128 x refl hx.0 hx.1)
          (word_lt 16 128 y refl hy.0 hy.1)
    octets (v4 x) (v6 y) hx hp hy = ((λ e. cc), (λ e. absurd e))
    octets (v6 x) (v4 y) hx hp hy = ((λ e. cc), (λ e. absurd e))
