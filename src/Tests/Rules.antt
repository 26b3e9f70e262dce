-- ===== src/Tests/Rules.antt =====
-- The rules of the policy, the spellings of an address, and the ban list.
use p2p_observer.Common.{ℕ, ◌≡◌, refl, ◌↔◌, ◌||◌, true, false, List, [], ◌∷◌, some, any, arith}
use p2p_observer.Banlist.{IpNet, net_contains, contains_ip, add}
use p2p_observer.Banlist.Add.{contains_ip-add}
use p2p_observer.Banlist.Contains.{SamePrefix, net_contains_iff}
use p2p_observer.PeerAddr.{v4, v6, addr_ipv6, from_socket_addr, to_ipv4_mapped, try_from}
use p2p_observer.PeerAddr.Normal.{Shown, socket_addr-from_socket_addr}
use p2p_observer.Policy.{failed, other, gossip, retry_delay_secs, exp_backoff, should_forget}
use p2p_observer.Policy.Forget.{Forgettable, should_forget_iff}
use p2p_observer.Tests.{alice, ban_of_alice}

-- The retry of an address that never connected, after its first failures.
bad_delays :
    (retry_delay_secs (failed other) gossip false 1 0 ≡ 3600)
    × (retry_delay_secs (failed other) gossip false 2 0 ≡ 14400)
    × (retry_delay_secs (failed other) gossip false 9 0 ≡ 604800)
unfolding retry_delay_secs exp_backoff
bad_delays = (refl, refl, refl)

should_forget_iff_example :
    (should_forget 5000000 gossip 0 100 3 ≡ true) ↔ Forgettable 5000000 gossip 0 100 3
should_forget_iff_example = should_forget_iff 5000000 gossip 0 100 3

-- ::ffff:11.22.33.44.
abbrev mapped : List ℕ
mapped = 0 ∷ 0 ∷ 0 ∷ 0 ∷ 0 ∷ 0 ∷ 0 ∷ 0 ∷ 0 ∷ 0 ∷ 255 ∷ 255 ∷ 11 ∷ 22 ∷ 33 ∷ 44 ∷ []

mapped_is_alice : try_from (addr_ipv6 mapped) 8333 ≡ some alice
unfolding try_from from_socket_addr to_ipv4_mapped
mapped_is_alice = refl

socket_addr-from_socket_addr_example : Shown (v6 mapped) 8333 (from_socket_addr (v6 mapped) 8333)
socket_addr-from_socket_addr_example = socket_addr-from_socket_addr (v6 mapped) 8333

abbrev net_16 : IpNet
net_16 = record { addr = v4 (11 ∷ 22 ∷ 0 ∷ 0 ∷ []); prefix_len = 16 }

net_contains_iff_example :
    (net_contains net_16 (v4 (11 ∷ 22 ∷ 33 ∷ 44 ∷ [])) ≡ true)
    ↔ SamePrefix (v4 (11 ∷ 22 ∷ 0 ∷ 0 ∷ [])) 16 (v4 (11 ∷ 22 ∷ 33 ∷ 44 ∷ []))
net_contains_iff_example =
    net_contains_iff net_16 (v4 (11 ∷ 22 ∷ 33 ∷ 44 ∷ [])) (omega arith) (omega arith) (omega arith)

contains_ip-add_example : contains_ip (add [] ban_of_alice).0 (v4 (11 ∷ 22 ∷ 33 ∷ 44 ∷ [])) ≡ (
    contains_ip [] (v4 (11 ∷ 22 ∷ 33 ∷ 44 ∷ []))
    || any (λ n. net_contains n (v4 (11 ∷ 22 ∷ 33 ∷ 44 ∷ []))) ban_of_alice.nets)
contains_ip-add_example = contains_ip-add (v4 (11 ∷ 22 ∷ 33 ∷ 44 ∷ [])) [] ban_of_alice
