-- ===== src/Tests/Messages.antt =====
-- What a session counts of its messages, handshakes, payloads that are read leniently, and
-- what the registry shows.
use p2p_observer.Common.{
  ◌==◌, if◌then◌else◌, ℕ_discrete, ℕ, ◌+◌, ◌*◌, ◌≤◌, ◌≡◌, refl, All, true, false, List, [], ◌∷◌,
  ◌++◌, none, some, arith, length,
}
use p2p_observer.Common.Map.{get}
use p2p_observer.PeerAddr.{addr_ipv4}
use p2p_observer.Registry.{Live, snapshot}
use p2p_observer.Registry.Shown.{Ascending, Change, after_all, change_all, snapshot-change_all}
use p2p_observer.Tests.{alice}
use p2p_observer.Session.Handshake.{HandshakeInfo, Progress, arm, completed, version_handshake}
use p2p_observer.Session.Handshake.Told.{
  all_replies, has_addrv2, has_wtxid, last_version, version_handshake-told,
}
use p2p_observer.Session.Handshake.Finished.{Completed, version_handshake-Completed}
use p2p_observer.Session.Lenient.{Frame, Wire, parse_addrv2_leniently}
use p2p_observer.Session.Lenient.Frames.{
  Fits, WireLaws, entries, frames, parse_addrv2_leniently-frames, parse_addrv2_leniently_bounds,
}
use p2p_observer.Session.Messages.{
  NetworkMessage, VersionMessage, version, verack, wtxid_relay, fee_filter, sent_version,
  sent_send_addr_v2, sent_wtxid_relay, sent_verack,
}
use p2p_observer.Session.Stats.{Command, Counters, claim_pong, counters, new_stats, record_ping}
use p2p_observer.Session.Stats.Claims.{answers, answers-play, count, ping, pings, play, pong}
use p2p_observer.Session.Stats.Claims
use p2p_observer.Session.Stats.Counted.{counters-record_all, record_all}

-- Compact sizes as a number each; network 9 is refused, and every other address is an IPv4 one.
abbrev pub one_octet : Wire
one_octet = record {
  read_compact_size = λ r. elim r [ [] ↦ none | n ∷ rest ↦ some (n, rest) ];
  emit_compact_size = λ n. n ∷ [];
  deserialize =
      λ r. elim r [ [] ↦ none | n ∷ rest ↦ (if n == 9 then none else some (addr_ipv4 rest)) ];
}

one_octet_laws : WireLaws one_octet
one_octet_laws = record { read-emit = λ n r h. refl; length-emit = λ n. omega arith }

-- The decoder of the second entry's network is one that refuses.
abbrev two_frames : List Frame
two_frames =
    record { time = 100000; services = 9; network = 1; addr = 1 ∷ 2 ∷ 3 ∷ 4 ∷ []; port = 8333 }
    ∷ record { time = 7; services = 1; network = 9; addr = 5 ∷ []; port = 80 }
    ∷ []

two_frames-Fits : All Fits two_frames
two_frames-Fits = (
  (omega arith, omega arith, omega arith, omega arith),
  ((omega arith, omega arith, omega arith, omega arith), tt),
)

parse_addrv2_leniently-frames_example :
    parse_addrv2_leniently one_octet
      (one_octet.emit_compact_size 2 ++ frames one_octet two_frames [])
    ≡ (2, entries one_octet two_frames)
parse_addrv2_leniently-frames_example =
    parse_addrv2_leniently-frames one_octet one_octet_laws two_frames [] two_frames-Fits
      (omega arith)

-- A count of ninety in a payload of three octets.
abbrev lie : List ℕ
lie = 90 ∷ 1 ∷ 2 ∷ []

parse_addrv2_leniently_bounds_example :
    (9 * (parse_addrv2_leniently one_octet lie).0 ≤ 3)
    × (length (parse_addrv2_leniently one_octet lie).1 ≤ (parse_addrv2_leniently one_octet lie).0)
parse_addrv2_leniently_bounds_example = parse_addrv2_leniently_bounds one_octet lie

-- One ping, and its answer three times.
abbrev echoes : List Claims.Event
echoes = ping 5 ∷ pong 70 5 ∷ pong 80 5 ∷ pong 90 5 ∷ []

echoes_answered : (play echoes (new_stats 0)).1 ≡ true ∷ false ∷ false ∷ []
unfolding play claim_pong record_ping new_stats
echoes_answered = refl

answers-play_example :
    answers 5 echoes (play echoes (new_stats 0)).1
    ≤ pings 5 echoes + count 5 (new_stats 0).outstanding_pings
answers-play_example = answers-play 5 echoes (new_stats 0)

abbrev commands : List Command
commands = (112 ∷ []) ∷ (105 ∷ []) ∷ (112 ∷ []) ∷ []

counters-record_all_example :
    (counters (record_all commands (new_stats 0))).messages
    ≡ (counters (new_stats 0)).messages + length commands
unfolding counters new_stats
counters-record_all_example = counters-record_all commands (new_stats 0) (omega arith)

abbrev a_version : VersionMessage
a_version = record {
  version = 70016;
  services = 9;
  timestamp = 0;
  user_agent = 47 ∷ [];
  start_height = 0;
  relay = true;
  nonce = 1;
}

abbrev greeting : List (NetworkMessage ℕ)
greeting = verack ∷ fee_filter 3 ∷ wtxid_relay ∷ version a_version ∷ fee_filter 4 ∷ []

version_handshake-Completed_example : Completed (version_handshake 0 4 greeting)
unfolding arm
version_handshake-Completed_example =
    version_handshake-Completed 0 4 greeting (omega arith) (omega arith) (omega arith)

abbrev greeted : Progress ℕ
greeted = record {
  peer_version = some a_version;
  got_verack = true;
  peer_send_addr_v2 = false;
  peer_wtxid_relay = true;
  room = 0;
  sent = sent_version 0 ∷ sent_send_addr_v2 ∷ sent_wtxid_relay ∷ sent_verack ∷ [];
}

abbrev greeting_info : HandshakeInfo
greeting_info = record { version = a_version; send_addr_v2 = false; wtxid_relay = true }

greeting_completed :
    version_handshake 0 4 greeting ≡ completed greeting_info (fee_filter 4 ∷ []) greeted
unfolding version_handshake
greeting_completed = refl

version_handshake-told_example :
    (taken : List (NetworkMessage ℕ)) × (greeting ≡ taken ++ fee_filter 4 ∷ [])
    × (last_version taken none ≡ some a_version)
    × (false ≡ has_addrv2 taken)
    × (true ≡ has_wtxid taken)
    × (greeted.sent ≡ sent_version 0 ∷ all_replies taken)
version_handshake-told_example =
    version_handshake-told 0 4 greeting greeting_info (fee_filter 4 ∷ []) greeted greeting_completed

abbrev no_counters : Counters
no_counters = record { messages = 0; unsolicited_pongs = 0; rtt_ms = none; min_rtt_ms = none }

abbrev live_alice : Live
live_alice = record {
  addr = alice;
  transport_version = 2;
  connected_ms = 5;
  user_agent = [];
  protocol_version = 70016;
  services = 9;
  start_height = 0;
  relay = true;
  sendaddrv2 = true;
  wtxid_relay = true;
  addr_recv = [];
  peer_timestamp = 0;
  counters = no_counters;
  updated_ms = 0;
}

-- The second session registers first, and the third is gone when it is refreshed.
abbrev changes : List Change
changes =
    Change.registered 2 live_alice
    ∷ Change.registered 1 live_alice
    ∷ Change.registered 3 live_alice
    ∷ Change.released 3
    ∷ Change.refreshed 3 no_counters 9
    ∷ Change.refreshed 1 no_counters 8
    ∷ []

snapshot-change_all_example :
    Ascending (snapshot (change_all changes []))
    × ((id : ℕ) → get ℕ_discrete id (snapshot (change_all changes [])) ≡ after_all id changes none)
snapshot-change_all_example = snapshot-change_all changes
