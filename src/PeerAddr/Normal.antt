-- ===== src/PeerAddr/Normal.antt =====
-- The one spelling of an address: which variant holds which octets.
use p2p_observer.Common.{
  ℕ, zero, suc, ◌≡◌, ap, subst, refl, ◌≢◌, ◌⊎◌, inl, inr, List, [], ◌∷◌, ◌++◌, Option, none, some,
  arith, ◌==◌, if◌then◌else◌, Bool-cases,
}
use mathlib.Core.Option.{some-injective}
use p2p_observer.PeerAddr.{
  PeerAddr, ipv4, ipv6, tor_v3, i2p, cjdns, IpAddr, v4, v6, AddrV2, addr_ipv4, addr_ipv6,
  addr_tor_v3, addr_i2p, addr_cjdns, addr_unknown, socket_addr, octet, to_ipv4_mapped, mapped_tail,
  from_socket_addr, try_from, ip, port,
}

-- An IPv6 key holds no IPv4-mapped address and none of fc00::/8.
abbrev pub IsNormal : PeerAddr → Type 0
IsNormal (ipv6 b _) = (to_ipv4_mapped b ≡ none) × (octet b 0 ≢ 0xfc)
IsNormal _ = Unit

from_v4 : (b : List ℕ) (p : ℕ) → from_socket_addr (v4 b) p ≡ ipv4 b p
unfolding from_socket_addr
from_v4 b p = refl

-- What `from_socket_addr` makes of an IPv6 address, with `to_ipv4_mapped` left shut.
from_v6 : Option (List ℕ) → List ℕ → ℕ → PeerAddr
from_v6 (some m) b p = ipv4 m p
from_v6 none b p = if octet b 0 == 0xfc then cjdns b p else ipv6 b p

from_socket_addr-v6 :
    (b : List ℕ) (p : ℕ) → from_socket_addr (v6 b) p ≡ from_v6 (to_ipv4_mapped b) b p
unfolding from_socket_addr from_v6
from_socket_addr-v6 b p = ground arith

from_v6-IsNormal :
    (o : Option (List ℕ)) (b : List ℕ) (p : ℕ) → to_ipv4_mapped b ≡ o → IsNormal (from_v6 o b p)
unfolding from_v6
from_v6-IsNormal (some m) b p e = tt
from_v6-IsNormal none b p e = ground arith

-- A socket address never becomes a second spelling of an IPv4 or a CJDNS peer as an IPv6 one.
from_socket_addr-IsNormal : (i : IpAddr) (p : ℕ) → IsNormal (from_socket_addr i p)
unfolding from_socket_addr
from_socket_addr-IsNormal (v4 b) p = tt
from_socket_addr-IsNormal (v6 b) p =
    rw (from_socket_addr-v6 b p) (from_v6-IsNormal (to_ipv4_mapped b) b p refl)

-- An address out of an `addrv2` message never becomes a second spelling of an IPv4 or a CJDNS peer
-- as an IPv6 one.
try_from-IsNormal : (m : AddrV2) (p : ℕ) (a : PeerAddr) → try_from m p ≡ some a → IsNormal a
unfolding try_from
try_from-IsNormal (addr_ipv6 b) p a e =
    subst IsNormal (some-injective _ _ e) (from_socket_addr-IsNormal (v6 b) p)
try_from-IsNormal (addr_ipv4 b) p a e = subst IsNormal (some-injective _ _ e) tt
try_from-IsNormal (addr_tor_v3 b) p a e = subst IsNormal (some-injective _ _ e) tt
try_from-IsNormal (addr_i2p b) p a e = subst IsNormal (some-injective _ _ e) tt
try_from-IsNormal (addr_cjdns b) p a e = subst IsNormal (some-injective _ _ e) tt
try_from-IsNormal (addr_unknown b) p a e = cc

-- The CJDNS range, which tells the variants apart.
abbrev pub InRange : PeerAddr → Type 0
InRange (cjdns b _) = (to_ipv4_mapped b ≡ none) × (octet b 0 ≡ 0xfc)
InRange a = IsNormal a

-- Taking a normal address apart into its socket address and back gives the same address.
from_socket_addr-socket_addr :
    (a : PeerAddr) (i : IpAddr) (p : ℕ)
    → InRange a
    → socket_addr a ≡ some (i, p)
    → from_socket_addr i p ≡ a
unfolding socket_addr from_v6
from_socket_addr-socket_addr (ipv4 b q) i p n e = ground (arith, from_v4 b q)
from_socket_addr-socket_addr (ipv6 b q) i p n e = ground (arith, from_socket_addr-v6 b q)
from_socket_addr-socket_addr (cjdns b q) i p n e = ground (arith, from_socket_addr-v6 b q)
from_socket_addr-socket_addr (tor_v3 b q) i p n e = cc
from_socket_addr-socket_addr (i2p b q) i p n e = cc

-- ::ffff:0:0/96, in which RFC 4291 maps the IPv4 addresses.
abbrev pub mapped_prefix : List ℕ
mapped_prefix = 0 ∷ 0 ∷ 0 ∷ 0 ∷ 0 ∷ 0 ∷ 0 ∷ 0 ∷ 0 ∷ 0 ∷ 255 ∷ 255 ∷ []

abbrev zeros : ℕ → List ℕ → List ℕ
zeros zero bs = bs
zeros (suc n) bs = 0 ∷ zeros n bs

mapped_tail-some : (n : ℕ) (b m : List ℕ) → mapped_tail n b ≡ some m → b ≡ zeros n (255 ∷ 255 ∷ m)
unfolding mapped_tail
mapped_tail-some zero [] m e = absurd (cc e)
mapped_tail-some zero (x ∷ []) m e = absurd (cc e)
mapped_tail-some zero (x ∷ y ∷ bs) m e = ground (arith, e)
mapped_tail-some (suc n) [] m e = absurd (cc e)
mapped_tail-some (suc n) (x ∷ bs) m e = elim (Bool-cases (x == 0)) [
  | inl h ↦ ground (arith, mapped_tail-some n bs m, e, h)
  | inr h ↦ absurd (ground (arith, e, h))
]

-- Not one of the mapped addresses.
abbrev pub Unmapped : IpAddr → Type 0
Unmapped i = (m : List ℕ) → i ≢ v6 (mapped_prefix ++ m)

mapped_back : (m : List ℕ) → to_ipv4_mapped (mapped_prefix ++ m) ≡ some m
unfolding to_ipv4_mapped mapped_tail
mapped_back m = refl

none-Unmapped : (b : List ℕ) → to_ipv4_mapped b ≡ none → Unmapped (v6 b)
none-Unmapped b e m h =
    absurd (cc (e, mapped_back m, ap to_ipv4_mapped (octets b (mapped_prefix ++ m) h)))
  where
    octets : (bs cs : List ℕ) → v6 bs ≡ v6 cs → bs ≡ cs
    octets bs cs h = cc h

abbrev pub Shown : IpAddr → ℕ → PeerAddr → Type 0
Shown i p a =
    InRange a
    × ((Unmapped i × (socket_addr a ≡ some (i, p)))
        ⊎ ((m : List ℕ) × (i ≡ v6 (mapped_prefix ++ m)) × (socket_addr a ≡ some (v4 m, p))))

from_v6-Shown :
    (o : Option (List ℕ)) (b : List ℕ) (p : ℕ)
    → to_ipv4_mapped b ≡ o
    → Shown (v6 b) p (from_v6 o b p)
unfolding from_v6 socket_addr to_ipv4_mapped ip port
from_v6-Shown (some m) b p e = (tt, inr (m, ap v6 (mapped_tail-some 10 b m e), refl))
from_v6-Shown none b p e = elim (Bool-cases (octet b 0 == 0xfc)) [
  | inl h ↦ rw h ((e, ground (arith, h)), inl (none-Unmapped b e, refl))
  | inr h ↦ rw h ((e, ground (arith, h)), inl (none-Unmapped b e, refl))
]

-- A socket address becomes a key with a single spelling, from which it is read back; an address in
-- ::ffff:0:0/96, and no other, becomes the IPv4 address in it. The key is a CJDNS address exactly
-- if the first octet of what is left an IPv6 address is 0xfc.
pub socket_addr-from_socket_addr : (i : IpAddr) (p : ℕ) → Shown i p (from_socket_addr i p)
unfolding from_socket_addr socket_addr ip port
socket_addr-from_socket_addr (v4 b) p = (tt, inl (λ m e. cc e, refl))
socket_addr-from_socket_addr (v6 b) p =
    rw (from_socket_addr-v6 b p) (from_v6-Shown (to_ipv4_mapped b) b p refl)
