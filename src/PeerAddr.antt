-- ===== src/PeerAddr.antt =====
-- observer/src/addresses/peer_addr.rs: a network's tag with the raw bytes and the port. Byte arrays
-- are lists of octets; their lengths are `WellFormed`.
pub mod Base32
pub mod Display
pub mod Normal
use Prim.Native.Nat.{bit_and}
use p2p_observer.Common.{
  ℕ, zero, suc, ◌+◌, ◌*◌, ◌<◌, ◌≡◌, Bool, true, false, not, ◌&&◌, ◌||◌, List, [], ◌∷◌, Option, none,
  some, ltb, leb, ◌==◌, if◌then◌else◌, All, length, ℕ_discrete,
}

pub data PeerAddr : Type 0 where
  ipv4 ipv6 tor_v3 i2p cjdns : List ℕ → ℕ → PeerAddr

pub data Net : Type 0 where
  net_ipv4 net_ipv6 net_tor_v3 net_i2p net_cjdns : Net

-- `std::net::IpAddr`, by its octets.
pub data IpAddr : Type 0 where
  v4 v6 : List ℕ → IpAddr

unfoldable pub PeerAddr-discrete : Discrete PeerAddr
PeerAddr-discrete = hlevel ℕ_discrete

-- The addresses of the `addrv2` message (BIP155).
pub data AddrV2 : Type 0 where
  addr_ipv4 addr_ipv6 addr_tor_v3 addr_i2p addr_cjdns addr_unknown : List ℕ → AddrV2

unfoldable pub net : PeerAddr → Net
net (ipv4 _ _) = net_ipv4
net (ipv6 _ _) = net_ipv6
net (tor_v3 _ _) = net_tor_v3
net (i2p _ _) = net_i2p
net (cjdns _ _) = net_cjdns

unfoldable pub port : PeerAddr → ℕ
port (ipv4 _ p) = p
port (ipv6 _ p) = p
port (tor_v3 _ p) = p
port (i2p _ p) = p
port (cjdns _ p) = p

unfoldable pub ip : PeerAddr → Option IpAddr
ip (ipv4 b _) = some (v4 b)
ip (ipv6 b _) = some (v6 b)
ip (cjdns b _) = some (v6 b)
ip (tor_v3 _ _) = none
ip (i2p _ _) = none

unfoldable pub socket_addr : PeerAddr → Option (IpAddr × ℕ)
unfolding ip port
socket_addr a = elim (ip a) [ none ↦ none | some i ↦ some (i, port a) ]

abbrev pub octet : List ℕ → ℕ → ℕ
octet [] i = 0
octet (b ∷ bs) zero = b
octet (b ∷ bs) (suc i) = octet bs i

abbrev pub all_zero : List ℕ → Bool
all_zero [] = true
all_zero (b ∷ bs) = b == 0 && all_zero bs

-- The tests of `std::net::Ipv4Addr` and `Ipv6Addr`.
abbrev pub is_private : List ℕ → Bool
is_private b =
    octet b 0 == 10
    || (octet b 0 == 172 && leb 16 (octet b 1) && leb (octet b 1) 31)
    || (octet b 0 == 192 && octet b 1 == 168)

abbrev pub is_broadcast : List ℕ → Bool
is_broadcast b = octet b 0 == 255 && octet b 1 == 255 && octet b 2 == 255 && octet b 3 == 255

abbrev pub is_loopback_v6 : List ℕ → Bool
is_loopback_v6 [] = false
is_loopback_v6 (b ∷ []) = b == 1
is_loopback_v6 (b ∷ c ∷ bs) = b == 0 && is_loopback_v6 (c ∷ bs)

is_routable_v4 : List ℕ → Bool
is_routable_v4 b =
    not (all_zero b)
    && not (octet b 0 == 127)
    && not (is_private b)
    && not (octet b 0 == 169 && octet b 1 == 254)
    && not (leb 224 (octet b 0) && leb (octet b 0) 239)
    && not (is_broadcast b)

is_routable_v6 : List ℕ → Bool
is_routable_v6 b =
    not (all_zero b)
    && not (is_loopback_v6 b)
    && not (octet b 0 == 255)
    && not (bit_and (octet b 0 * 256 + octet b 1) 0xffc0 == 0xfe80)
    && not (octet b 0 == 0xfd)

unfoldable pub is_routable : PeerAddr → Bool
unfolding is_routable_v4 is_routable_v6 port
is_routable (ipv4 b p) = not (p == 0) && is_routable_v4 b
is_routable (ipv6 b p) = not (p == 0) && is_routable_v6 b
is_routable (tor_v3 key p) = not (p == 0) && not (all_zero key)
is_routable (i2p hash p) = not (p == 0) && not (all_zero hash)
is_routable (cjdns b p) = not (p == 0) && not (all_zero b)

-- `Ipv6Addr::to_ipv4_mapped`: ten zero octets, two of 255, then the IPv4 address.
unfoldable pub mapped_tail : ℕ → List ℕ → Option (List ℕ)
mapped_tail zero (x ∷ y ∷ v4_octets) = if x == 255 && y == 255 then some v4_octets else none
mapped_tail (suc n) (x ∷ bs) = if x == 0 then mapped_tail n bs else none
mapped_tail _ _ = none

unfoldable pub to_ipv4_mapped : List ℕ → Option (List ℕ)
unfolding mapped_tail
to_ipv4_mapped b = mapped_tail 10 b

unfoldable pub from_socket_addr : IpAddr → ℕ → PeerAddr
unfolding to_ipv4_mapped
from_socket_addr (v4 b) p = ipv4 b p
from_socket_addr (v6 b) p = elim (to_ipv4_mapped b) [
  | some m ↦ ipv4 m p
  | none ↦ if octet b 0 == 0xfc then cjdns b p else ipv6 b p
]

-- `TryFrom<&AddrV2Message>`.
unfoldable pub try_from : AddrV2 → ℕ → Option PeerAddr
unfolding from_socket_addr
try_from (addr_ipv4 b) p = some (ipv4 b p)
try_from (addr_ipv6 b) p = some (from_socket_addr (v6 b) p)
try_from (addr_tor_v3 key) p = some (tor_v3 key p)
try_from (addr_i2p hash) p = some (i2p hash p)
try_from (addr_cjdns b) p = some (cjdns b p)
try_from (addr_unknown _) p = none

-- The lengths of the arrays, and the ranges of octets and port.
abbrev pub WellFormed : PeerAddr → Type 0
WellFormed (ipv4 b p) = (length b ≡ 4) × All (λ x. x < 256) b × (p < 65536)
WellFormed (ipv6 b p) = (length b ≡ 16) × All (λ x. x < 256) b × (p < 65536)
WellFormed (tor_v3 b p) = (length b ≡ 32) × All (λ x. x < 256) b × (p < 65536)
WellFormed (i2p b p) = (length b ≡ 32) × All (λ x. x < 256) b × (p < 65536)
WellFormed (cjdns b p) = (length b ≡ 16) × All (λ x. x < 256) b × (p < 65536)
