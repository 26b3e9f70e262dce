-- ===== src/Attempt/Verdict.antt =====
-- How the error that ends a session of observer/src/protocol.rs is judged in connection.rs.
use p2p_observer.Common.{ℕ, ◌≡◌, ◌<◌, subst, Bool, true, false, List, [], none, some, length}
use p2p_observer.Attempt.{AnyError, Fault, is_oversized, is_violation, judge_error}
use p2p_observer.Policy.{Outcome}
use p2p_observer.Session.Bucket.{F64Laws}
use p2p_observer.Session.Dispatch.{Library, handle_message}
use p2p_observer.Session.Invariant.{Holds, on_ended, IsConnection}
use p2p_observer.Session.Invariant.Always.{handle_message-IsConnection}
use p2p_observer.Session.Invariant.Dispatched.{CanEnd}
use p2p_observer.Session.Messages.{Inventory, NetworkMessage, inv}
use p2p_observer.Session.State.{
  Clock, Connection, Error, ended, sync_complete, write_failed, other_chain, timed_out,
  protocol_violation,
}

abbrev untagged : AnyError
untagged = record {
  stage_of = none;
  fault_of = none;
  other_chain_of = none;
  is_ping_timeout = false;
  is_protocol_violation = false;
  has_elapsed = false;
  kinds = [];
}

-- The `anyhow::Error` of each: a failed write has its fault for a tag, the others are sentinels.
unfoldable pub error_of : Error → AnyError
error_of sync_complete = untagged
error_of write_failed = record untagged { fault_of = some Fault.write }
error_of (other_chain e) = record untagged { other_chain_of = some e }
error_of (timed_out waited) = record untagged { is_ping_timeout = true }
error_of (protocol_violation n) = record untagged { is_protocol_violation = true }

module _ {Header : Type 0} (lib : Library Header) (l : F64Laws lib.f64) where
  -- An INV over the protocol's limit.
  abbrev pub OverLimit : NetworkMessage Header → Type 0
  OverLimit msg = (items : List Inventory) × (msg ≡ inv items) × (lib.max_inv_size < length items)

  violated_by :
      (msg : NetworkMessage Header) (s : Connection Header) (e : Error) (uptime : ℕ) (quiet : Bool)
      → CanEnd lib l msg s e
      → judge_error (error_of e) (Outcome.disconnected uptime quiet) ≡ Outcome.violated
      → OverLimit msg
  unfolding error_of judge_error is_violation is_oversized
  violated_by msg s sync_complete uptime quiet c h = absurd (cc h)
  violated_by msg s write_failed uptime quiet c h = absurd (cc h)
  violated_by msg s (other_chain e) uptime quiet c h = absurd (cc h)
  violated_by msg s (timed_out waited) uptime quiet c h = absurd c
  violated_by msg s (protocol_violation n) uptime quiet (items, same, size, over) h =
      (items, same, over)

  how_ended :
      {Q : Connection Header → Type 0} {F : Error → Connection Header → Type 0} {e : Error}
      {s : Connection Header}
      → Holds {A = Unit} (λ _ s'. Q s') F (ended e s)
      → F e s
  how_ended (on_ended f) = f

  -- In a connection that is as it should be and whose tree has no checkpoints, a message after
  -- which the address manager records a violation is an INV over the protocol's limit: no other
  -- message that the session reads can make it do so.
  pub handle_message-violated :
      (now : Clock) (msg : NetworkMessage Header) (s s' : Connection Header) (e : Error)
      (uptime : ℕ) (quiet : Bool)
      → IsConnection lib.bitcoin lib.f64 l s
      → handle_message lib now msg s ≡ ended e s'
      → judge_error (error_of e) (Outcome.disconnected uptime quiet) ≡ Outcome.violated
      → OverLimit msg
  handle_message-violated now msg s s' e uptime quiet v p h =
      violated_by msg s e uptime quiet
        (how_ended (
          subst
            (Holds (λ _ t. IsConnection lib.bitcoin lib.f64 l t)
              (λ d t. CanEnd lib l msg s d × IsConnection lib.bitcoin lib.f64 l t))
            p (handle_message-IsConnection lib l now msg s v))).0
        h
