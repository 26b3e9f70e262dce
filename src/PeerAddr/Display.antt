-- ===== src/PeerAddr/Display.antt =====
-- `Display` of observer/src/addresses/peer_addr.rs, as ASCII codes. SHA3-256 and the standard
-- library's text of an IPv6 address are parameters.
use Prim.Native.Char.{code}
use Prim.Native.String.{String}
use p2p_observer.Common.{ℕ, zero, suc, ◌+◌, ◌/◌, ◌%◌, ltb, if◌then◌else◌, List, [], ◌∷◌, ◌++◌, take}
use p2p_observer.PeerAddr.{PeerAddr, ipv4, ipv6, tor_v3, i2p, cjdns, octet}
use p2p_observer.PeerAddr.Base32.{base32_encode}

-- What the renderer calls outside this repository.
pub record Renderer : Type 0 where
  pub sha3_256 : List ℕ → List ℕ
  pub ipv6_text : List ℕ → List ℕ

abbrev pub codes : String → List ℕ
codes String.[] = []
codes (String.◌∷◌ c s) = code c ∷ codes s

-- The decimal digits of a number below 10^fuel.
unfoldable pub decimal : ℕ → ℕ → List ℕ
decimal zero n = []
decimal (suc fuel) n =
    let rest = decimal fuel (n / 10) in
    if ltb n 10 then (b'0' + n) ∷ [] else rest ++ (b'0' + n % 10) ∷ []

abbrev pub onion_version : ℕ
onion_version = 3

unfoldable pub onion_host : Renderer → List ℕ → List ℕ
unfolding base32_encode
onion_host r key =
    let hash = r.sha3_256 (codes ".onion checksum" ++ (key ++ onion_version ∷ [])) in
    base32_encode (key ++ (take 2 hash ++ onion_version ∷ [])) ++ codes ".onion"

dotted : List ℕ → List ℕ
unfolding decimal
dotted b =
    decimal 3 (octet b 0)
    ++ (b'.'
        ∷ (decimal 3 (octet b 1)
            ++ (b'.' ∷ (decimal 3 (octet b 2) ++ (b'.' ∷ decimal 3 (octet b 3))))))

unfoldable pub display : Renderer → PeerAddr → List ℕ
unfolding dotted decimal onion_host base32_encode
display r (ipv4 b p) = dotted b ++ (b':' ∷ decimal 5 p)
display r (ipv6 b p) = b'[' ∷ (r.ipv6_text b ++ (codes "]:" ++ decimal 5 p))
display r (tor_v3 key p) = onion_host r key ++ (b':' ∷ decimal 5 p)
display r (i2p hash p) = base32_encode hash ++ (codes ".b32.i2p:" ++ decimal 5 p)
display r (cjdns b p) = codes "cjdns:[" ++ (r.ipv6_text b ++ (codes "]:" ++ decimal 5 p))
