-- ===== src/Session/Lenient.antt =====
-- `parse_addrv2_leniently` of observer/src/protocol.rs. A payload is a list of octets; the cursor
-- is what is left of it. The bitcoin library's compact sizes and its decoder of one address are a
-- parameter.
pub mod Frames
use p2p_observer.Common.{
  ℕ, zero, suc, ◌+◌, ◌*◌, ◌/◌, ◌%◌, min, List, [], ◌∷◌, ◌++◌, Option, none, some, length,
}
use p2p_observer.PeerAddr.{AddrV2}
use p2p_observer.Session.Messages.{AddrV2Message}

pub record Wire : Type 0 where
  pub read_compact_size : List ℕ → Option (ℕ × List ℕ)
  pub emit_compact_size : ℕ → List ℕ
  -- `deserialize::<AddrV2>`: the network's number, a compact size, and the address.
  pub deserialize : List ℕ → Option AddrV2

-- `u32::consensus_decode`, `read_u8` and `u16::consensus_decode`.
unfoldable pub read_u32 : List ℕ → Option (ℕ × List ℕ)
read_u32 (a ∷ b ∷ c ∷ d ∷ r) = some (a + 256 * b + 65536 * c + 16777216 * d, r)
read_u32 _ = none

unfoldable pub read_u8 : List ℕ → Option (ℕ × List ℕ)
read_u8 [] = none
read_u8 (a ∷ r) = some (a, r)

unfoldable pub read_u16 : List ℕ → Option (ℕ × List ℕ)
read_u16 (a ∷ b ∷ r) = some (a + 256 * b, r)
read_u16 _ = none

abbrev pub swap_bytes : ℕ → ℕ
swap_bytes p = p % 256 * 256 + p / 256

-- `payload.get(start..start + len)` and what follows it.
unfoldable pub split : ℕ → List ℕ → Option (List ℕ × List ℕ)
split zero r = some ([], r)
split (suc n) [] = none
split (suc n) (a ∷ r) = elim (split n r) [ none ↦ none | some (xs, rest) ↦ some (a ∷ xs, rest) ]

-- The framing of one entry.
pub record Frame : Type 0 where
  pub time : ℕ
  pub services : ℕ
  pub network : ℕ
  pub addr : List ℕ
  pub port : ℕ

abbrev pub and_then {ℓ} : {A B : Type ℓ} → Option A → (A → Option B) → Option B
and_then none f = none
and_then (some a) f = f a

module _ (w : Wire) where
  -- `none` where the loop breaks.
  unfoldable pub read_frame : List ℕ → Option (Frame × List ℕ)
  unfolding read_u32 read_u8 read_u16 split
  read_frame r = and_then (read_u32 r) λ (time, r1).
      and_then (w.read_compact_size r1) λ (services, r2). and_then (read_u8 r2) λ (network, r3).
        and_then (w.read_compact_size r3) λ (len, r4). and_then (split len r4) λ (octets, r5).
          and_then (read_u16 r5) λ (p, r6). some (
            record {
              time = time;
              services = services;
              network = network;
              addr = octets;
              port = swap_bytes p;
            },
            r6,
          )

  -- The entry, if the library's decoder takes its address.
  unfoldable pub entry_of : Frame → List AddrV2Message
  entry_of x = elim (w.deserialize (x.network ∷ w.emit_compact_size (length x.addr) ++ x.addr)) [
    | none ↦ []
    | some a ↦ record { time = x.time; services = x.services; addr = a; port = x.port } ∷ []
  ]

  unfoldable pub read_entries : ℕ → List ℕ → List AddrV2Message
  unfolding read_frame entry_of
  read_entries zero r = []
  read_entries (suc n) r = elim (read_frame r) [
    | none ↦ []
    | some (x, rest) ↦ entry_of x ++ read_entries n rest
  ]

  unfoldable pub parse_addrv2_leniently : List ℕ → ℕ × List AddrV2Message
  unfolding read_entries
  parse_addrv2_leniently payload = elim (w.read_compact_size payload) [
    | none ↦ (0, [])
    | some (declared, r) ↦
        let count = min declared (length payload / 9) in (count, read_entries count r)
  ]
