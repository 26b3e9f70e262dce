-- ===== src/Attempt/Blame.antt =====
-- Which failures of observer/src/connection.rs count against the address.
use p2p_observer.Common.{
  ◌≡◌, refl, Bool, true, false, not, ◌||◌, ◌&&◌, Option, none, some, arith, is_some, Bool-cases,
  inl, inr,
}
use p2p_observer.Attempt.{
  AnyError, ErrorKind, Stage, classify, classify_kind, classify_stage, has_kind, is_tor,
}
use p2p_observer.PeerAddr.{Net}
use p2p_observer.Policy.{Outcome}

abbrev pub is_our_fault : Outcome → Bool
is_our_fault (Outcome.our_fault reason) = true
is_our_fault _ = false

-- The stages that fail on our side: the network is off, or the proxy does not answer.
abbrev pub is_our_stage : Option Stage → Bool
is_our_stage (some Stage.network_disabled) = true
is_our_stage (some Stage.proxy_unreachable) = true
is_our_stage (some Stage.tor_proxy_timeout) = true
is_our_stage _ = false

kind_blame :
    (e : AnyError) (n : Net)
    → is_our_fault (classify_kind e n) ≡ (is_tor n && has_kind e ErrorKind.connection_refused)
unfolding classify_kind
kind_blame e n = ground arith

stage_blame :
    (stage : Option Stage) (e : AnyError) (n : Net)
    → is_our_fault (classify_stage stage e n) ≡ (
        is_our_stage stage
        || (not (is_some stage) && is_tor n && has_kind e ErrorKind.connection_refused))
unfolding classify_stage classify_kind
stage_blame none e n = kind_blame e n
stage_blame (some Stage.tcp_connect_timeout) e n = refl
stage_blame (some Stage.tor_proxy_timeout) e n = refl
stage_blame (some Stage.v2_transport_timeout) e n = refl
stage_blame (some Stage.version_handshake_timeout) e n = refl
stage_blame (some Stage.v2_transport_handshake) e n = refl
stage_blame (some Stage.version_handshake) e n = refl
stage_blame (some Stage.proxy_unreachable) e n = refl
stage_blame (some Stage.network_disabled) e n = refl

-- A failure is ours, and does not count against the address, exactly if there is no route to the
-- network, if the network is off or the proxy does not answer, or if an untagged error refuses a
-- connection to an onion address, which goes through our proxy.
is_our_fault-classify :
    (e : AnyError) (n : Net)
    → is_our_fault (classify e n) ≡ (
        has_kind e ErrorKind.network_unreachable
        || is_our_stage e.stage_of
        || (not (is_some e.stage_of) && is_tor n && has_kind e ErrorKind.connection_refused))
unfolding classify
is_our_fault-classify e n = elim (Bool-cases (has_kind e ErrorKind.network_unreachable)) [
  | inl far ↦ rw (far, classify) refl
  | inr near ↦ rw (near, classify) (stage_blame e.stage_of e n)
]
