-- ===== src/PeerAddr/Base32.antt =====
-- `base32_encode` and `base32_decode` of observer/src/addresses/peer_addr.rs. Texts are lists of
-- ASCII codes; `|` of a value shifted left by k bits with one below 2^k is their sum.
use p2p_observer.Common.{
  ℕ, zero, suc, ◌+◌, ◌-◌, ◌*◌, ◌/◌, ◌%◌, ◌^◌, ◌&&◌, List, [], ◌∷◌, ◌++◌, Option, none, some, ltb,
  leb, if◌then◌else◌,
}

-- The alphabet: `a` to `z`, then `2` to `7`.
abbrev pub symbol : ℕ → ℕ
symbol v = if ltb v 26 then b'a' + v else b'2' + (v - 26)

-- `while n >= 5`: at most 12 bits are pending when it starts, so three rounds are enough.
unfoldable pub flush : ℕ → ℕ → ℕ → List ℕ × ℕ
flush zero bits n = ([], n)
flush (suc fuel) bits n =
    if leb 5 n
    then (let (out, m) = flush fuel bits (n - 5) in (symbol (bits / 2 ^ (n - 5) % 32) ∷ out, m))
    else ([], n)

unfoldable pub encode_from : ℕ → ℕ → List ℕ → List ℕ
unfolding flush
encode_from bits n [] = if ltb 0 n then symbol (bits * 2 ^ (5 - n) % 2 ^ 64 % 32) ∷ [] else []
encode_from bits n (byte ∷ bytes) =
    let bits' = bits * 256 % 2 ^ 64 + byte in
    let (out, m) = flush 3 bits' (n + 8) in out ++ encode_from bits' m bytes

unfoldable pub base32_encode : List ℕ → List ℕ
unfolding encode_from
base32_encode bytes = encode_from 0 0 bytes

abbrev pub value_of : ℕ → Option ℕ
value_of c =
    if leb b'a' c && leb c b'z'
    then some (c - b'a')
    else if leb b'2' c && leb c b'7'
    then some (c - b'2' + 26)
    else none

unfoldable pub decode_from : ℕ → ℕ → List ℕ → Option (List ℕ)
decode_from bits n [] = if ltb 0 n && ltb 0 (bits % 2 ^ n) then none else some []
decode_from bits n (c ∷ s) = elim (value_of c) [
  | none ↦ none
  | some v ↦
      let bits' = bits * 32 % 2 ^ 32 + v in
      if leb 8 (n + 5)
      then (elim (decode_from bits' (n + 5 - 8) s) [
        | none ↦ none
        | some out ↦ some ((bits' / 2 ^ (n + 5 - 8) % 256) ∷ out)
      ])
      else decode_from bits' (n + 5) s
]

unfoldable pub base32_decode : List ℕ → Option (List ℕ)
unfolding decode_from
base32_decode s = decode_from 0 0 s
