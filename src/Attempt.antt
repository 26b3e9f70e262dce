-- ===== src/Attempt.antt =====
-- observer/src/connection.rs: one attempt on an address, from the dial to the outcome that the
-- address manager records. What `connect_v1` and `connect_v2` return is an argument: they open
-- sockets. An `anyhow::Error` is what the code asks of it: its tags, which it finds by downcasting,
-- and the kinds of the I/O errors in its chain. Times are milliseconds.
pub mod Report
pub mod Agrees
pub mod Blame
pub mod Fallback
pub mod Verdict
use p2p_observer.Common.{
  ℕ, ◌-◌, ◌/◌, ◌%◌, ◌^◌, Bool, true, false, not, ◌&&◌, ◌||◌, List, [], ◌∷◌, Option, none, some,
  if◌then◌else◌, any, is_some,
}
use p2p_observer.Book.Entry.{Dial, TransportHint, hint_unknown, hint_v2, hint_v1_only}
use p2p_observer.HeaderTree.Rejected.{HeaderError}
use p2p_observer.Manager.{Lifecycle, end_guard, v1_only}
use p2p_observer.PeerAddr.{Net, net, net_tor_v3}
use p2p_observer.Policy.{Outcome, Reason, OurFault}
use p2p_observer.Session.Stats.{Command, ConnectionStats, silent}

pub data Stage : Type 0 where
  tcp_connect_timeout tor_proxy_timeout v2_transport_timeout version_handshake_timeout : Stage
  v2_transport_handshake version_handshake proxy_unreachable network_disabled : Stage

-- `Fault` of transport.rs.
pub data Fault : Type 0 where
  peer_closed truncated decode oversized wrong_magic v2_decrypt write : Fault

-- `std::io::ErrorKind`: those that are asked for.
pub data ErrorKind : Type 0 where
  connection_refused network_unreachable host_unreachable timed_out unexpected_eof : ErrorKind
  connection_reset broken_pipe connection_aborted other_kind : ErrorKind

pub record AnyError : Type 0 where
  pub stage_of : Option Stage
  pub fault_of : Option Fault
  pub other_chain_of : Option HeaderError
  pub is_ping_timeout : Bool
  pub is_protocol_violation : Bool
  -- Whether the chain has a timeout of the runtime's.
  pub has_elapsed : Bool
  pub kinds : List ErrorKind

unfoldable pub same_kind : ErrorKind → ErrorKind → Bool
same_kind connection_refused connection_refused = true
same_kind network_unreachable network_unreachable = true
same_kind host_unreachable host_unreachable = true
same_kind timed_out timed_out = true
same_kind unexpected_eof unexpected_eof = true
same_kind connection_reset connection_reset = true
same_kind broken_pipe broken_pipe = true
same_kind connection_aborted connection_aborted = true
same_kind other_kind other_kind = true
same_kind _ _ = false

unfoldable pub has_kind : AnyError → ErrorKind → Bool
unfolding same_kind
has_kind e kind = any (same_kind kind) e.kinds

unfoldable pub is_timeout_stage : Option Stage → Bool
is_timeout_stage (some tcp_connect_timeout) = true
is_timeout_stage (some tor_proxy_timeout) = true
is_timeout_stage (some v2_transport_timeout) = true
is_timeout_stage (some version_handshake_timeout) = true
is_timeout_stage _ = false

unfoldable pub is_timed_out : AnyError → Bool
unfolding is_timeout_stage has_kind
is_timed_out e = if is_timeout_stage e.stage_of then true else e.has_elapsed || has_kind e timed_out

unfoldable pub is_tcp_level : AnyError → Bool
unfolding has_kind is_timed_out
is_tcp_level e =
    has_kind e connection_refused
    || has_kind e network_unreachable
    || has_kind e host_unreachable
    || is_timed_out e

unfoldable pub is_tor : Net → Bool
is_tor net_tor_v3 = true
is_tor _ = false

-- An error without a stage.
unfoldable pub classify_kind : AnyError → Net → Outcome
unfolding has_kind is_tor
classify_kind e n =
    if is_tor n && has_kind e connection_refused
    then Outcome.our_fault OurFault.proxy_unreachable
    else if has_kind e connection_refused
    then Outcome.failed Reason.connection_refused
    else if has_kind e host_unreachable
    then Outcome.failed Reason.host_unreachable
    else if has_kind e unexpected_eof
    then Outcome.failed Reason.unexpected_eof
    else Outcome.failed Reason.other

unfoldable pub classify_stage : Option Stage → AnyError → Net → Outcome
unfolding classify_kind
classify_stage (some network_disabled) e n = Outcome.our_fault OurFault.network_disabled
classify_stage (some proxy_unreachable) e n = Outcome.our_fault OurFault.proxy_unreachable
classify_stage (some tor_proxy_timeout) e n = Outcome.our_fault OurFault.proxy_unreachable
classify_stage (some tcp_connect_timeout) e n = Outcome.failed Reason.tcp_connect_timeout
classify_stage (some v2_transport_timeout) e n = Outcome.failed Reason.v2_transport_timeout
classify_stage (some version_handshake_timeout) e n =
    Outcome.failed Reason.version_handshake_timeout
classify_stage (some v2_transport_handshake) e n = Outcome.failed Reason.v2_transport_handshake
classify_stage (some version_handshake) e n = Outcome.failed Reason.version_handshake
classify_stage none e n = classify_kind e n

unfoldable pub classify : AnyError → Net → Outcome
unfolding has_kind classify_stage
classify e n =
    if has_kind e network_unreachable
    then Outcome.our_fault OurFault.network_unreachable
    else classify_stage e.stage_of e n

unfoldable pub is_oversized : Option Fault → Bool
is_oversized (some oversized) = true
is_oversized _ = false

unfoldable pub is_violation : AnyError → Bool
unfolding is_oversized
is_violation e = is_oversized e.fault_of || e.is_protocol_violation

-- `SessionEnd` of protocol.rs, with the statistics that it copies.
pub record SessionEnd : Type 0 where
  pub connected_at : ℕ
  pub error : Option AnyError
  pub user_agent : List ℕ
  pub stats : ConnectionStats
  pub undecodable : ℕ

unfoldable pub judge_error : AnyError → Outcome → Outcome
unfolding is_violation
judge_error e otherwise =
    if is_some e.other_chain_of
    then Outcome.other_chain
    else if is_violation e
    then Outcome.violated
    else otherwise

unfoldable pub session_outcome : SessionEnd → ℕ → Outcome
unfolding judge_error silent
session_outcome end uptime_secs =
    let disconnected = Outcome.disconnected uptime_secs (silent end.stats) in
    elim end.error [ none ↦ disconnected | some e ↦ judge_error e disconnected ]
