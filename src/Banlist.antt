-- ===== src/Banlist.antt =====
-- observer/src/addresses/banlist.rs: networks and hosts that the operator never wants dialled.
-- Reading, parsing and writing the file is not modelled.
pub mod Prefix
pub mod Add
pub mod Contains
use Prim.Native.Nat.{bit_and}
use p2p_observer.Common.{
  ℕ, ◌+◌, ◌-◌, ◌*◌, ◌%◌, ◌^◌, Bool, true, false, not, ◌||◌, List, [], ◌∷◌, ◌++◌, Option, none, some,
  leb, ltb, ◌==◌, if◌then◌else◌, any, filter, length, ℕ_discrete, ite,
}
use p2p_observer.PeerAddr.{PeerAddr, IpAddr, v4, v6, ip}
use p2p_observer.PeerAddr.Display.{Renderer, display}

pub record IpNet : Type 0 where
  pub addr : IpAddr
  pub prefix_len : ℕ

pub record BanEntry : Type 0 where
  pub comment : Option (List ℕ)
  pub nets : List IpNet
  pub hosts : List (List ℕ)

unfoldable pub IpNet-discrete : Discrete IpNet
IpNet-discrete = hlevel ℕ_discrete

unfoldable pub Host-discrete : Discrete (List ℕ)
Host-discrete = hlevel ℕ_discrete

-- `Vec::contains`.
unfoldable pub has_net : IpNet → List IpNet → Bool
has_net n [] = false
has_net n (m ∷ ms) = ite (IpNet-discrete m n) true (has_net n ms)

unfoldable pub has_host : List ℕ → List (List ℕ) → Bool
has_host h [] = false
has_host h (g ∷ gs) = ite (Host-discrete g h) true (has_host h gs)

-- `u32::from` and `u128::from`: the octets, the most significant first.
unfoldable pub big_endian : ℕ → List ℕ → ℕ
big_endian acc [] = acc
big_endian acc (b ∷ bs) = big_endian (acc * 256 + b) bs

-- The mask of a prefix in a word of `width` bits.
unfoldable pub mask : ℕ → ℕ → ℕ
mask width prefix_len =
    let shift = width - prefix_len in
    if leb width shift then 0 else ((2 ^ width - 1) * 2 ^ shift) % 2 ^ width

unfoldable pub same_prefix : ℕ → ℕ → List ℕ → List ℕ → Bool
same_prefix width prefix_len net_octets ip_octets =
    bit_and (big_endian 0 net_octets) (mask width prefix_len)
    == bit_and (big_endian 0 ip_octets) (mask width prefix_len)

unfoldable pub net_contains_octets : IpAddr → ℕ → IpAddr → Bool
net_contains_octets (v4 n) prefix_len (v4 i) = same_prefix 32 prefix_len n i
net_contains_octets (v6 n) prefix_len (v6 i) = same_prefix 128 prefix_len n i
net_contains_octets _ prefix_len _ = false

unfoldable pub net_contains : IpNet → IpAddr → Bool
net_contains n i = net_contains_octets n.addr n.prefix_len i

unfoldable pub contains_ip : List BanEntry → IpAddr → Bool
contains_ip entries i = any (λ e. any (λ n. net_contains n i) e.nets) entries

unfoldable pub contains_host : List BanEntry → List ℕ → Bool
unfolding has_host
contains_host entries host = any (λ e. has_host host e.hosts) entries

unfoldable pub contains : Renderer → List BanEntry → PeerAddr → Bool
contains r entries addr = elim (ip addr) [
  | some i ↦ contains_ip entries i
  | none ↦ contains_host entries (display r addr)
]

unfoldable pub banlist_len : List BanEntry → ℕ
banlist_len [] = 0
banlist_len (e ∷ es) = length e.nets + length e.hosts + banlist_len es

unfoldable pub new_nets : List BanEntry → List IpNet → List IpNet
unfolding has_net
new_nets entries nets = filter (λ n. not (any (λ e. has_net n e.nets) entries)) nets

unfoldable pub new_hosts : List BanEntry → List (List ℕ) → List (List ℕ)
unfolding has_host
new_hosts entries hosts = filter (λ h. not (any (λ e. has_host h e.hosts) entries)) hosts

-- The list after the call, and how many networks and hosts are new.
unfoldable pub add : List BanEntry → BanEntry → List BanEntry × ℕ
add entries entry =
    let nets = new_nets entries entry.nets in
    let hosts = new_hosts entries entry.hosts in
    let added = length nets + length hosts in
    if ltb 0 added
    then (entries ++ record { comment = entry.comment; nets = nets; hosts = hosts } ∷ [], added)
    else (entries, added)
