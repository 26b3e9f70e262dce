-- ===== src/Session/Handshake.antt =====
-- `version_handshake` of observer/src/protocol.rs. The messages that come are a list: where it
-- ends, the read fails. The socket takes `room` messages more; the write after them fails. The time
-- limit on the handshake is the runtime's, and left out.
pub mod Finished
pub mod Told
use p2p_observer.Common.{
  ℕ, zero, suc, ◌+◌, Bool, true, false, not, ◌&&◌, List, [], ◌∷◌, ◌++◌, Option, none, some, ◌==◌,
  leb, if◌then◌else◌, is_some, take, ℕ_discrete,
}
use p2p_observer.Session.Messages.{
  NetworkMessage, VersionMessage, version, verack, send_addr_v2, wtxid_relay, Sent, sent_version,
  sent_send_addr_v2, sent_wtxid_relay, sent_verack,
}
use p2p_observer.Session.Stats.{Command, Command-discrete}

abbrev pub max_user_agent_chars : ℕ
max_user_agent_chars = 256

-- The library's `ProtocolVersion::WTXID_RELAY_VERSION`, of BIP339.
abbrev pub wtxid_relay_version : ℕ
wtxid_relay_version = 70016

-- The characters of "/btcwire:0.5.0/utreexod:0.5.0/".
abbrev pub utreexod : List ℕ
utreexod =
    47 ∷ 98 ∷ 116 ∷ 99 ∷ 119 ∷ 105 ∷ 114 ∷ 101 ∷ 58 ∷ 48 ∷ 46 ∷ 53 ∷ 46 ∷ 48 ∷ 47 ∷ 117 ∷ 116 ∷ 114
    ∷ 101 ∷ 101 ∷ 120 ∷ 111 ∷ 100 ∷ 58 ∷ 48 ∷ 46 ∷ 53 ∷ 46 ∷ 48 ∷ 47 ∷ []

unfoldable pub cap_user_agent : List ℕ → List ℕ
cap_user_agent ua = take max_user_agent_chars ua

abbrev pub capped : VersionMessage → VersionMessage
capped v = record v { user_agent = cap_user_agent v.user_agent }

-- What is remembered of the peer's messages, with what was sent.
pub record Progress (Header : Type 0) : Type 0 where
  pub peer_version : Option VersionMessage
  pub got_verack : Bool
  pub peer_send_addr_v2 : Bool
  pub peer_wtxid_relay : Bool
  pub room : ℕ
  pub sent : List (Sent Header)

pub record HandshakeInfo : Type 0 where
  pub version : VersionMessage
  pub send_addr_v2 : Bool
  pub wtxid_relay : Bool

pub data Outcome (Header : Type 0) : Type 0 where
  -- The messages that were not read are left to the session.
  completed : HandshakeInfo → List (NetworkMessage Header) → Progress Header → Outcome Header
  read_failed write_failed : Progress Header → Outcome Header

unfoldable pub is_utreexod : VersionMessage → Bool
unfolding Command-discrete
is_utreexod v =
    v.version == 70013
    && elim (Command-discrete v.user_agent utreexod) [ yes _ ↦ true | no _ ↦ false ]

abbrev pub or_else {ℓ} : {A : Type ℓ} → Option A → A → A
or_else none a = a
or_else (some b) a = b

-- The arms of the loop's `match`.
pub data Arm : Type 0 where
  on_version : VersionMessage → Arm
  on_verack on_send_addr_v2 on_wtxid_relay ignored : Arm

unfoldable pub arm : {Header : Type 0} → NetworkMessage Header → Arm
arm (version v) = on_version v
arm verack = on_verack
arm send_addr_v2 = on_send_addr_v2
arm wtxid_relay = on_wtxid_relay
arm _ = ignored

module _ {Header : Type 0} where
  -- The replies to a version message.
  unfoldable pub replies : VersionMessage → List (Sent Header)
  unfolding is_utreexod
  replies v =
      (if is_utreexod v then [] else sent_send_addr_v2 ∷ [])
      ++ (if leb wtxid_relay_version v.version then sent_wtxid_relay ∷ [] else [])
      ++ (sent_verack ∷ [])

  -- The state after the writes, and whether all of them succeeded.
  unfoldable pub write_all : List (Sent Header) → ℕ → Progress Header → Progress Header × Bool
  write_all [] room p = (record p { room = room }, true)
  write_all (m ∷ ms) zero p = (record p { room = zero }, false)
  write_all (m ∷ ms) (suc room) p = write_all ms room (record p { sent = p.sent ++ m ∷ [] })

  -- The state after an arm, and whether its writes succeeded.
  unfoldable pub step : Arm → Progress Header → Progress Header × Bool
  unfolding replies write_all cap_user_agent
  step (on_version v) p =
      let (q, written) = write_all (replies (capped v)) p.room p in
      if written then (record q { peer_version = some (capped v) }, true) else (q, false)
  step on_verack p = (record p { got_verack = true }, true)
  step on_send_addr_v2 p = (record p { peer_send_addr_v2 = true }, true)
  step on_wtxid_relay p = (record p { peer_wtxid_relay = true }, true)
  step ignored p = (p, true)

  abbrev pub info : VersionMessage → Progress Header → HandshakeInfo
  info v p = record {
    version = v;
    send_addr_v2 = p.peer_send_addr_v2;
    wtxid_relay = p.peer_wtxid_relay;
  }

  -- What the loop returns, if its condition fails.
  abbrev pub complete : List (NetworkMessage Header) → Progress Header → Option (Outcome Header)
  complete ms p = elim p.peer_version [
    | none ↦ none
    | some v ↦ (if p.got_verack then some (completed (info v p) ms p) else none)
  ]

  unfoldable pub handshake_loop : List (NetworkMessage Header) → Progress Header → Outcome Header
  unfolding arm step
  handshake_loop [] p = or_else (complete [] p) (read_failed p)
  handshake_loop (m ∷ ms) p =
      let (q, written) = step (arm m) p in
      let next = handshake_loop ms q in
      or_else (complete (m ∷ ms) p) (if written then next else write_failed q)

  -- Our version message says what height we are at.
  unfoldable pub version_handshake : ℕ → ℕ → List (NetworkMessage Header) → Outcome Header
  unfolding write_all handshake_loop
  version_handshake tip_height room ms =
      let (p, written) = write_all (sent_version tip_height ∷ []) room (record {
        peer_version = none;
        got_verack = false;
        peer_send_addr_v2 = false;
        peer_wtxid_relay = false;
        room = room;
        sent = [];
      }) in
      if written then handshake_loop ms p else write_failed p
