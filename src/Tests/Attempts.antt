-- ===== src/Tests/Attempts.antt =====
-- Attempts that fail, fall back, and end.
use p2p_observer.Common.{ℕ, ◌≡◌, refl, true, false, List, [], ◌∷◌, none, some}
use p2p_observer.Attempt.{
  AnyError, ErrorKind, Fault, SessionEnd, Stage, classify, judge_error, session_outcome,
}
use p2p_observer.Attempt.Agrees.{outcome_of, outcome_of-classify_session_end}
use p2p_observer.Attempt.Blame.{is_our_fault}
use p2p_observer.Attempt.Report.{classify_session_end}
use p2p_observer.Attempt.Verdict.{OverLimit, error_of, handle_message-violated}
use p2p_observer.PeerAddr.{net_tor_v3}
use p2p_observer.Policy.{Outcome}
use p2p_observer.Session.Bucket.{fixed_laws}
use p2p_observer.Session.Dispatch.{handle_message}
use p2p_observer.Session.Messages.{Inventory, inv, inv_other}
use p2p_observer.Session.State.{Clock, Connection, ended, protocol_violation}
use p2p_observer.Session.Stats.{new_stats, record_message, silent}
use p2p_observer.Tests.Sessions.{lib, start, start-IsConnection}

abbrev refused : AnyError
refused = record {
  stage_of = none;
  fault_of = none;
  other_chain_of = none;
  is_ping_timeout = false;
  is_protocol_violation = false;
  has_elapsed = false;
  kinds = ErrorKind.connection_refused ∷ [];
}

abbrev cut_off : AnyError
cut_off = record refused { fault_of = some Fault.truncated; kinds = ErrorKind.unexpected_eof ∷ [] }

abbrev garbled : AnyError
garbled = record refused { stage_of = some Stage.v2_transport_handshake; kinds = [] }

abbrev three_hours : SessionEnd
three_hours = record {
  connected_at = 500;
  error = some cut_off;
  user_agent = [];
  stats = new_stats 500;
  undecodable = 0;
}

outcome_of-classify_session_end_example :
    session_outcome three_hours 10800
    ≡ outcome_of (classify_session_end (some cut_off)) 10800 (silent (new_stats 500))
outcome_of-classify_session_end_example =
    outcome_of-classify_session_end three_hours 10800 (λ h. absurd (cc h))

-- The proxy refused us, which is no fault of the address.
refused_by_proxy : is_our_fault (classify refused net_tor_v3) ≡ true
unfolding classify
refused_by_proxy = refl

-- Ten items, where nine are the limit.
abbrev ten_items : List Inventory
ten_items =
    inv_other ∷ inv_other ∷ inv_other ∷ inv_other ∷ inv_other ∷ inv_other ∷ inv_other ∷ inv_other
    ∷ inv_other ∷ inv_other ∷ []

abbrev noon : Clock
noon = record { instant = 2000; unix_ms = 3000 }

abbrev counted : Connection ℕ
counted = record start { stats = record_message [] start.stats }

ten_items_ended :
    handle_message lib noon (inv ten_items) start ≡ ended (protocol_violation 10) counted
unfolding handle_message
ten_items_ended = refl

ended_violated :
    judge_error (error_of (protocol_violation 10)) (Outcome.disconnected 5 true) ≡ Outcome.violated
unfolding judge_error error_of
ended_violated = refl

handle_message-violated_example : OverLimit lib fixed_laws (inv ten_items)
handle_message-violated_example =
    handle_message-violated lib fixed_laws noon (inv ten_items) start counted
      (protocol_violation 10) 5 true start-IsConnection ten_items_ended ended_violated
