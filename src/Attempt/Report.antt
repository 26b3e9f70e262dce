-- ===== src/Attempt/Report.antt =====
-- What an attempt of observer/src/connection.rs runs and reports: `connect_and_run`, `attempt` and
-- `bootstrap_attempt`, with the result event.
use p2p_observer.PeerAddr.{PeerAddr}
use p2p_observer.Common.{
  ◌≡◌, refl, inl, inr, ◌⊎◌, ℕ, ◌-◌, ◌/◌, ◌%◌, ◌^◌, Bool, true, false, ◌||◌, List, [], ◌∷◌, Option,
  none, some, if◌then◌else◌, is_some,
}
use p2p_observer.Attempt.{
  AnyError, Fault, ErrorKind, SessionEnd, classify, has_kind, is_tcp_level, session_outcome,
}
use p2p_observer.Book.Entry.{Dial, TransportHint, hint_unknown, hint_v2, hint_v1_only}
use p2p_observer.Manager.{Lifecycle, end_guard}
use p2p_observer.PeerAddr.{net}
use p2p_observer.Policy.{Outcome, Reason, OurFault}

pub data DisconnectReason : Type 0 where
  unknown other_chain peer_closed truncated decode_error oversized_message : DisconnectReason
  wrong_magic v2_decrypt_error write_error ping_timeout protocol_violation : DisconnectReason
  connection_reset other : DisconnectReason

unfoldable pub reason_of_fault : Fault → DisconnectReason
reason_of_fault Fault.peer_closed = DisconnectReason.peer_closed
reason_of_fault Fault.truncated = DisconnectReason.truncated
reason_of_fault Fault.decode = DisconnectReason.decode_error
reason_of_fault Fault.oversized = DisconnectReason.oversized_message
reason_of_fault Fault.wrong_magic = DisconnectReason.wrong_magic
reason_of_fault Fault.v2_decrypt = DisconnectReason.v2_decrypt_error
reason_of_fault Fault.write = DisconnectReason.write_error

unfoldable pub reason_untagged : AnyError → DisconnectReason
unfolding has_kind
reason_untagged e =
    if e.is_ping_timeout
    then DisconnectReason.ping_timeout
    else if e.is_protocol_violation
    then DisconnectReason.protocol_violation
    else if has_kind e ErrorKind.connection_reset
        || has_kind e ErrorKind.broken_pipe
        || has_kind e ErrorKind.connection_aborted
    then DisconnectReason.connection_reset
    else if has_kind e ErrorKind.unexpected_eof
    then DisconnectReason.peer_closed
    else DisconnectReason.other

unfoldable pub reason_of_error : AnyError → DisconnectReason
unfolding reason_of_fault reason_untagged
reason_of_error e =
    if is_some e.other_chain_of
    then DisconnectReason.other_chain
    else elim e.fault_of [ none ↦ reason_untagged e | some fault ↦ reason_of_fault fault ]

unfoldable pub classify_session_end : Option AnyError → DisconnectReason
unfolding reason_of_error
classify_session_end none = DisconnectReason.unknown
classify_session_end (some e) = reason_of_error e

-- The result of an attempt, as its event says it; a reason is as in the outcome, and `none` is the
-- event's `UNKNOWN`.
pub data AttemptResult : Type 0 where
  -- The setup and the uptime, in milliseconds.
  result_disconnected : ℕ → ℕ → DisconnectReason → SessionEnd → AttemptResult
  result_our_fault : OurFault → ℕ → AttemptResult
  result_failed : Option Reason → ℕ → AttemptResult

unfoldable pub failed_result : Outcome → ℕ → AttemptResult
failed_result (Outcome.our_fault reason) elapsed = result_our_fault reason elapsed
failed_result (Outcome.failed reason) elapsed = result_failed (some reason) elapsed
failed_result Outcome.other_chain elapsed = result_failed none elapsed
failed_result Outcome.violated elapsed = result_failed none elapsed
failed_result (Outcome.disconnected uptime_secs silent) elapsed = result_failed none elapsed

unfoldable pub disconnected_result : ℕ → ℕ → DisconnectReason → SessionEnd → AttemptResult
disconnected_result setup uptime reason end = result_disconnected setup uptime reason end

-- A session that ran, with the transport's version; or an error.
pub data Run : Type 0 where
  ran : ℕ → SessionEnd → Run
  not_run : AnyError → Run

-- What `connect_v1` and `connect_v2` return.
pub data Connected : Type 0 where
  session : SessionEnd → Connected
  no_session : AnyError → Connected

abbrev pub carried_by : ℕ → Connected → Run
carried_by v (session end) = ran v end
carried_by v (no_session e) = not_run e

unfoldable pub detect : Connected → Connected → Run × Bool
unfolding is_tcp_level
detect (session end) v1 = (ran 2 end, false)
detect (no_session e) v1 = if is_tcp_level e then (not_run e, false) else (carried_by 1 v1, true)

-- The session, and whether the address is reported as one that speaks only v1. What `connect_v2`
-- and `connect_v1` return, where they are called, are arguments.
unfoldable pub connect_and_run : TransportHint → Connected → Connected → Run × Bool
unfolding detect
connect_and_run hint_v2 v2 v1 = (carried_by 2 v2, false)
connect_and_run hint_v1_only v2 v1 = (carried_by 1 v1, false)
connect_and_run hint_unknown v2 v1 = detect v2 v1

-- What an attempt leaves: the outcome that the guard sends, the result event with the transport and
-- the user agent, and the report of the transport before them.
pub record Attempted : Type 0 where
  pub messages : List Lifecycle
  pub transport_version : Option ℕ
  pub user_agent : List ℕ
  pub result : AttemptResult

abbrev pub attempted_transport : TransportHint → Option ℕ
attempted_transport hint_v2 = some 2
attempted_transport hint_v1_only = some 1
attempted_transport hint_unknown = none

abbrev pub uptime_secs : ℕ → ℕ
uptime_secs uptime = uptime / 1000 % 2 ^ 32

module _ (d : Dial) where
  abbrev pub messages_of : Bool → Outcome → List Lifecycle
  messages_of reported outcome =
      let ending = end_guard d.addr (some outcome) ∷ [] in
      if reported then Lifecycle.v1_only d.addr ∷ ending else ending

  abbrev pub report : ℕ → ℕ → Bool → Run → Attempted
  report started now reported (ran v end) =
      let uptime = now - end.connected_at in
      record {
        messages = messages_of reported (session_outcome end (uptime_secs uptime));
        transport_version = some v;
        user_agent = end.user_agent;
        result =
            disconnected_result (now - started - uptime) uptime (classify_session_end end.error)
              end;
      }
  report started now reported (not_run e) =
      let outcome = classify e (net d.addr) in
      record {
        messages = messages_of reported outcome;
        transport_version = attempted_transport d.transport;
        user_agent = [];
        result = failed_result outcome (now - started);
      }

  -- An attempt that starts and ends at these times.
  unfoldable pub attempt : ℕ → ℕ → Connected → Connected → Attempted
  unfolding connect_and_run classify session_outcome classify_session_end disconnected_result
      failed_result net end_guard
  attempt started now v2 v1 =
      let (run, reported) = connect_and_run d.transport v2 v1 in report started now reported run

-- What an attempt of the bootstrap leaves, and gives its caller: when the handshake completed, or
-- the error.
pub data Bootstrapped : Type 0 where
  connected : List Lifecycle → ℕ → Bootstrapped
  not_connected : List Lifecycle → AnyError → Bootstrapped

abbrev seed_dial : PeerAddr → Dial
seed_dial addr = record { addr = addr; transport = hint_unknown }

unfoldable pub bootstrap_attempt : PeerAddr → ℕ → Connected → Connected → Bootstrapped
unfolding connect_and_run classify session_outcome net end_guard
bootstrap_attempt addr now v2 v1 =
    let (run, reported) = connect_and_run hint_unknown v2 v1 in
    elim run [
      | ran v end ↦
          connected
            (messages_of (seed_dial addr) reported
              (session_outcome end (uptime_secs (now - end.connected_at))))
            end.connected_at
      | not_run e ↦ not_connected (messages_of (seed_dial addr) reported (classify e (net addr))) e
    ]

run_cases :
    (r : Run)
    → ((v : ℕ) × (end : SessionEnd) × (r ≡ ran v end)) ⊎ ((e : AnyError) × (r ≡ not_run e))
run_cases (ran v end) = inl (v, end, refl)
run_cases (not_run e) = inr (e, refl)

abbrev bootstrap_messages : Bootstrapped → List Lifecycle
bootstrap_messages (connected messages at) = messages
bootstrap_messages (not_connected messages e) = messages

-- The manager hears of an attempt of the bootstrap what it hears of any other attempt on an address
-- whose transport is not known.
bootstrap_messages-bootstrap_attempt :
    (addr : PeerAddr) (started now : ℕ) (v2 v1 : Connected)
    → bootstrap_messages (bootstrap_attempt addr now v2 v1)
      ≡ (attempt (seed_dial addr) started now v2 v1).messages
unfolding bootstrap_attempt attempt connect_and_run
bootstrap_messages-bootstrap_attempt addr started now v2 v1 =
    elim (run_cases (connect_and_run hint_unknown v2 v1).0) [
      | inl (v, end, e) ↦ rw (e, bootstrap_attempt, attempt) refl
      | inr (d, e) ↦ rw (e, bootstrap_attempt, attempt) refl
    ]
