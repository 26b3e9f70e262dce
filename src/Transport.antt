-- ===== src/Transport.antt =====
-- The v1 reader of observer/src/transport.rs. What the socket gives is a list of segments, none of
-- them empty, and what comes after them: the end of the stream, an error, or nothing yet, where the
-- read is cancelled. A read takes of the first segment what its buffer has room for. Octets are
-- numbers; the library's decoder and its hash are a parameter.
pub mod Resumed
pub mod Pieces
pub mod Framed
use p2p_observer.Common.{
  ℕ, zero, suc, ◌+◌, ◌-◌, ◌*◌, min, Bool, true, false, not, List, [], ◌∷◌, ◌++◌, Option, none, some,
  ◌==◌, leb, ltb, if◌then◌else◌, length, take, ℕ_discrete,
}
use p2p_observer.Attempt.{Fault, peer_closed, truncated, decode, oversized, wrong_magic}
use p2p_observer.PeerAddr.{octet}
use p2p_observer.Session.Stats.{Command}

pub record Codec (Message : Type 0) : Type 0 where
  -- The network's magic, four octets.
  pub magic : List ℕ
  -- The library's limit on a message.
  pub max_msg_size : ℕ
  -- The first four octets of the double SHA-256.
  pub checksum : List ℕ → List ℕ
  -- `deserialize` of a header and a payload.
  pub deserialize : List ℕ → Option Message
  -- The command that some octets spell, if it is one, and the message of it with raw octets.
  pub command : List ℕ → Option Command
  pub unknown : Command → List ℕ → Message

pub data Phase : Type 0 where
  -- What has arrived of the header.
  header : List ℕ → Phase
  -- The header, and what has arrived of the payload.
  payload : List ℕ → List ℕ → Phase

pub record Reader : Type 0 where
  pub state : Phase
  pub undecodable : ℕ

unfoldable pub new_reader : Reader
new_reader = record { state = header []; undecodable = 0 }

pub data After : Type 0 where
  closed broken nothing_yet : After

pub data Filled : Type 0 where
  -- The buffer is full; what is left of the segments.
  full : List ℕ → List (List ℕ) → Filled
  dry : List ℕ → Filled

abbrev pub prepend : List ℕ → Filled → Filled
prepend bs (full cs rest) = full (bs ++ cs) rest
prepend bs (dry cs) = dry (bs ++ cs)

abbrev pub drop : ℕ → List ℕ → List ℕ
drop zero bs = bs
drop (suc n) [] = []
drop (suc n) (b ∷ bs) = drop n bs

-- The loop of reads into a buffer with room for `n` octets.
unfoldable pub fill : ℕ → List (List ℕ) → Filled
fill zero segments = full [] segments
fill (suc n) [] = dry []
fill (suc n) (seg ∷ segments) =
    let rest = fill (suc n - length seg) segments in
    if leb (length seg) (suc n)
    then prepend seg rest
    else full (take (suc n) seg) (drop (suc n) seg ∷ segments)

pub data Received (Message : Type 0) : Type 0 where
  message : Message → Reader → List (List ℕ) → Received Message
  failed : Fault → Reader → Received Message
  io_error cancelled : Reader → Received Message

-- `u32::from_le_bytes` of the octets 16 to 20.
unfoldable pub payload_len : List ℕ → ℕ
payload_len h = octet h 16 + 256 * octet h 17 + 65536 * octet h 18 + 16777216 * octet h 19

abbrev pub same_octets : List ℕ → List ℕ → Bool
same_octets [] [] = true
same_octets (a ∷ as') (b ∷ bs) = if a == b then same_octets as' bs else false
same_octets _ _ = false

-- The octets before the first zero.
abbrev pub until_nul : List ℕ → List ℕ
until_nul [] = []
until_nul (b ∷ bs) = if b == 0 then [] else b ∷ until_nul bs

module _ {Message : Type 0} (c : Codec Message) where
  abbrev pub max_v1_payload : ℕ
  max_v1_payload = c.max_msg_size - 24

  unfoldable pub undecodable : List ℕ → List ℕ → Option Message
  undecodable name body = elim (c.command (until_nul name)) [
    | none ↦ none
    | some command ↦ some (c.unknown command body)
  ]

  -- The octets that came before the socket ran dry are kept in the state.
  unfoldable pub ran_dry : After → Fault → Reader → Received Message
  ran_dry closed fault r = failed fault r
  ran_dry broken fault r = io_error r
  ran_dry nothing_yet fault r = cancelled r

  -- A whole frame.
  unfoldable pub decode_frame : List ℕ → List ℕ → ℕ → List (List ℕ) → Received Message
  unfolding undecodable
  decode_frame h body n rest =
      if not (same_octets (take 4 (c.checksum body)) (take 4 (drop 20 h)))
      then failed decode (record { state = payload h body; undecodable = n })
      else elim (c.deserialize (h ++ body)) [
        | some m ↦ message m (record { state = header []; undecodable = n }) rest
        | none ↦ elim (undecodable (take 12 (drop 4 h)) body) [
          | some m ↦
              message m (record { state = header []; undecodable = min (n + 1) 4294967295 }) rest
          | none ↦ failed decode (record { state = header []; undecodable = n })
        ]
      ]

  abbrev pub on_payload : List ℕ → List ℕ → ℕ → After → Filled → Received Message
  on_payload h have n after (full bs rest) = decode_frame h (have ++ bs) n rest
  on_payload h have n after (dry bs) =
      ran_dry after truncated (record { state = payload h (have ++ bs); undecodable = n })

  unfoldable pub read_payload : List ℕ → List ℕ → ℕ → List (List ℕ) → After → Received Message
  unfolding fill payload_len decode_frame ran_dry
  read_payload h have n segments after =
      on_payload h have n after (fill (payload_len h - length have) segments)

  -- A whole header: the checks, and the payload.
  unfoldable pub check_header : List ℕ → ℕ → List (List ℕ) → After → Received Message
  unfolding payload_len read_payload
  check_header h n segments after =
      if not (same_octets (take 4 h) c.magic)
      then failed wrong_magic (record { state = header h; undecodable = n })
      else if ltb max_v1_payload (payload_len h)
      then failed oversized (record { state = header h; undecodable = n })
      else read_payload h [] n segments after

  abbrev pub is_empty : List ℕ → Bool
  is_empty [] = true
  is_empty (b ∷ bs) = false

  abbrev pub on_header : List ℕ → ℕ → After → Filled → Received Message
  on_header have n after (full bs rest) = check_header (have ++ bs) n rest after
  on_header have n after (dry bs) =
      ran_dry after (if is_empty (have ++ bs) then peer_closed else truncated)
        (record { state = header (have ++ bs); undecodable = n })

  unfoldable pub recv_from : Phase → ℕ → List (List ℕ) → After → Received Message
  unfolding fill check_header read_payload ran_dry
  recv_from (header have) n segments after =
      on_header have n after (fill (24 - length have) segments)
  recv_from (payload h have) n segments after = read_payload h have n segments after

  unfoldable pub recv : Reader → List (List ℕ) → After → Received Message
  unfolding recv_from
  recv r segments after = recv_from r.state r.undecodable segments after
