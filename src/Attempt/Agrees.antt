-- ===== src/Attempt/Agrees.antt =====
-- That what an attempt of observer/src/connection.rs tells the archive agrees with what it tells
-- the address manager.
use p2p_observer.Common.{
  ℕ, ◌≡◌, inl, inr, refl, subst, Bool, true, false, ◌||◌, Option, none, some, arith, if◌then◌else◌,
  is_some, Option-cases, Bool-cases,
}
use p2p_observer.Attempt.{
  AnyError, ErrorKind, Fault, SessionEnd, classify, classify_kind, classify_stage, has_kind,
  is_oversized, is_violation, judge_error, session_outcome, Stage,
}
use p2p_observer.Attempt.Report.{
  AttemptResult, DisconnectReason, classify_session_end, failed_result, reason_of_error,
  reason_of_fault, reason_untagged, result_failed,
}
use p2p_observer.HeaderTree.Rejected.{HeaderError}
use p2p_observer.PeerAddr.{Net}
use p2p_observer.Session.Stats.{silent}
use p2p_observer.Policy.{Outcome}

-- The outcome that a reason for a disconnect goes with.
abbrev pub outcome_of : DisconnectReason → ℕ → Bool → Outcome
outcome_of DisconnectReason.other_chain uptime quiet = Outcome.other_chain
outcome_of DisconnectReason.oversized_message uptime quiet = Outcome.violated
outcome_of DisconnectReason.protocol_violation uptime quiet = Outcome.violated
outcome_of _ uptime quiet = Outcome.disconnected uptime quiet

-- The error was not tagged as a violation of the protocol and also as a fault or a lost ping.
abbrev pub Single : AnyError → Type 0
Single e = e.is_protocol_violation ≡ true → (e.fault_of ≡ none) × (e.is_ping_timeout ≡ false)

abbrev pub SingleEnd : Option AnyError → Type 0
SingleEnd none = Unit
SingleEnd (some e) = Single e

-- The reasons that are read from a fault, or from what an error without one is tagged with.
reasons :
    (chain : Option HeaderError) (fault : Option Fault) (ping violation reset eof : Bool)
    → DisconnectReason
reasons chain fault ping violation reset eof =
    if is_some chain then DisconnectReason.other_chain else elim fault [
      | some x ↦ reason_of_fault x
      | none ↦
          (if ping
            then DisconnectReason.ping_timeout
            else if violation
            then DisconnectReason.protocol_violation
            else if reset
            then DisconnectReason.connection_reset
            else if eof
            then DisconnectReason.peer_closed
            else DisconnectReason.other)
    ]

reasons_agree :
    (chain : Option HeaderError) (fault : Option Fault) (ping violation reset eof : Bool)
    (uptime : ℕ) (quiet : Bool)
    → (violation ≡ true → (fault ≡ none) × (ping ≡ false))
    → (if is_some chain
        then Outcome.other_chain
        else if is_oversized fault || violation
        then Outcome.violated
        else Outcome.disconnected uptime quiet)
      ≡ outcome_of (reasons chain fault ping violation reset eof) uptime quiet
unfolding reasons reason_of_fault is_oversized
reasons_agree (some h) fault ping violation reset eof uptime quiet s = refl
reasons_agree none (some x) ping true reset eof uptime quiet s = absurd (cc ((s refl).0))
reasons_agree none (some Fault.peer_closed) ping false reset eof uptime quiet s = refl
reasons_agree none (some Fault.truncated) ping false reset eof uptime quiet s = refl
reasons_agree none (some Fault.decode) ping false reset eof uptime quiet s = refl
reasons_agree none (some Fault.oversized) ping false reset eof uptime quiet s = refl
reasons_agree none (some Fault.wrong_magic) ping false reset eof uptime quiet s = refl
reasons_agree none (some Fault.v2_decrypt) ping false reset eof uptime quiet s = refl
reasons_agree none (some Fault.write) ping false reset eof uptime quiet s = refl
reasons_agree none none true true reset eof uptime quiet s = absurd (cc ((s refl).1))
reasons_agree none none true false reset eof uptime quiet s = refl
reasons_agree none none false true reset eof uptime quiet s = refl
reasons_agree none none false false true eof uptime quiet s = refl
reasons_agree none none false false false true uptime quiet s = refl
reasons_agree none none false false false false uptime quiet s = refl

reason_agrees :
    (e : AnyError) (uptime : ℕ) (quiet : Bool)
    → Single e
    → judge_error e (Outcome.disconnected uptime quiet)
      ≡ outcome_of (reason_of_error e) uptime quiet
unfolding judge_error is_violation reason_of_error reason_untagged reasons
reason_agrees e uptime quiet single =
    reasons_agree e.other_chain_of e.fault_of e.is_ping_timeout e.is_protocol_violation
      (has_kind e ErrorKind.connection_reset
        || has_kind e ErrorKind.broken_pipe
        || has_kind e ErrorKind.connection_aborted)
      (has_kind e ErrorKind.unexpected_eof) uptime quiet single

-- What the archive is told of the end of a session agrees with what the address manager records: on
-- another chain as such, oversized messages and protocol violations as a violation, and every other
-- reason as a disconnect with the uptime and the silence of the session. That is where no error is
-- tagged as a violation and also as a fault or a lost ping.
pub outcome_of-classify_session_end :
    (end : SessionEnd) (uptime : ℕ)
    → SingleEnd end.error
    → session_outcome end uptime
      ≡ outcome_of (classify_session_end end.error) uptime (silent end.stats)
unfolding session_outcome classify_session_end
outcome_of-classify_session_end end uptime single = elim (Option-cases end.error) [
  | inl p ↦ rw (p, session_outcome, classify_session_end) refl
  | inr (e, p) ↦
      rw (p, session_outcome, classify_session_end)
        (reason_agrees e uptime (silent end.stats) (subst SingleEnd p single))
]

abbrev pub is_unknown : AttemptResult → Bool
is_unknown (result_failed none elapsed) = true
is_unknown _ = false

kind_known :
    (e : AnyError) (n : Net) (elapsed : ℕ)
    → is_unknown (failed_result (classify_kind e n) elapsed) ≡ false
unfolding classify_kind failed_result
kind_known e n elapsed = ground arith

stage_known :
    (stage : Option Stage) (e : AnyError) (n : Net) (elapsed : ℕ)
    → is_unknown (failed_result (classify_stage stage e n) elapsed) ≡ false
unfolding classify_stage failed_result
stage_known none e n elapsed = kind_known e n elapsed
stage_known (some Stage.tcp_connect_timeout) e n elapsed = refl
stage_known (some Stage.tor_proxy_timeout) e n elapsed = refl
stage_known (some Stage.v2_transport_timeout) e n elapsed = refl
stage_known (some Stage.version_handshake_timeout) e n elapsed = refl
stage_known (some Stage.v2_transport_handshake) e n elapsed = refl
stage_known (some Stage.version_handshake) e n elapsed = refl
stage_known (some Stage.proxy_unreachable) e n elapsed = refl
stage_known (some Stage.network_disabled) e n elapsed = refl

-- No attempt that fails before a session is reported as an unknown failure, whatever the error.
failed_result-classify :
    (e : AnyError) (n : Net) (elapsed : ℕ)
    → is_unknown (failed_result (classify e n) elapsed) ≡ false
unfolding classify failed_result
failed_result-classify e n elapsed = elim (Bool-cases (has_kind e ErrorKind.network_unreachable)) [
  | inl far ↦ rw (far, classify, failed_result) refl
  | inr near ↦ rw (near, classify) (stage_known e.stage_of e n elapsed)
]
