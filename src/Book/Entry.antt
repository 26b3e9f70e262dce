-- ===== src/Book/Entry.antt =====
-- `Entry` of observer/src/addresses/book.rs: what is known about one address, and how an event
-- changes it. Times are Unix seconds as `u32`, counters `u8`.
use Prim.Native.Nat.{bit_and}
use p2p_observer.Common.{ℕ, Bool, true, false, not, ◌&&◌, ltb, ◌==◌, if◌then◌else◌}
use p2p_observer.Float.{F32}
use p2p_observer.PeerAddr.{PeerAddr, Net, net_ipv4, net_ipv6, net_tor_v3, net_i2p, net_cjdns}
use p2p_observer.Policy.{
  Origin, Outcome, failed, disconnected, other_chain, violated, our_fault, Class, classify,
  is_short_session, jitter, retry_delay_secs, saturating_add, saturating_inc, should_forget,
}

pub data TransportHint : Type 0 where
  hint_unknown hint_v2 hint_v1_only : TransportHint

pub data Phase : Type 0 where
  dialing connected : Phase

unfoldable pub advertises_v2 : ℕ → Bool
advertises_v2 services = not (bit_and services (2048) == 0)

pub record Entry : Type 0 where
  pub services : ℕ
  pub last_announced : ℕ
  pub last_attempt : ℕ
  pub last_success : ℕ
  pub next_attempt : ℕ
  pub failures : ℕ
  pub short_sessions : ℕ
  pub last_attempt_failed : Bool
  pub origin : Origin
  pub transport : TransportHint

unfoldable pub new_entry : ℕ → ℕ → Origin → Entry
new_entry now services origin = record {
  services = services;
  last_announced = now;
  last_attempt = 0;
  last_success = 0;
  next_attempt = 0;
  failures = 0;
  short_sessions = 0;
  last_attempt_failed = false;
  origin = origin;
  transport = hint_unknown;
}

unfoldable pub class_of : Entry → Class
unfolding classify
class_of e = classify (ltb 0 e.failures) e.last_success e.last_attempt_failed

unfoldable pub connected_before : Entry → Bool
connected_before e = ltb 0 e.last_success

abbrev pub forget_due : ℕ → Entry → Bool
forget_due now e = should_forget now e.origin e.last_success e.last_announced e.failures

pub record Gossiped : Type 0 where
  pub addr : PeerAddr
  pub services : ℕ
  pub ntime : ℕ

pub record Dial : Type 0 where
  pub addr : PeerAddr
  pub transport : TransportHint

pub record EnabledNets : Type 0 where
  pub ipv4 : Bool
  pub ipv6 : Bool
  pub tor : Bool
  pub cjdns : Bool
  pub i2p : Bool

unfoldable pub allows : EnabledNets → Net → Bool
allows n net_ipv4 = n.ipv4
allows n net_ipv6 = n.ipv6
allows n net_tor_v3 = n.tor
allows n net_cjdns = n.cjdns
allows n net_i2p = n.i2p

-- A known address heard of again, in `ingest`.
abbrev refreshed_transport : ℕ → TransportHint → TransportHint
refreshed_transport services hint_v1_only =
    if advertises_v2 services then hint_unknown else hint_v1_only
refreshed_transport services hint = hint

unfoldable pub refreshed : ℕ → ℕ → Entry → Entry
refreshed now services e =
    if services == e.services then record e { last_announced = now } else record e {
      last_announced = now;
      services = services;
      transport = refreshed_transport services e.transport;
    }

-- The transport after a completed handshake: by the version, the hint held, and whether the peer
-- has begun to advertise v2.
unfoldable pub hint_after : ℕ → TransportHint → Bool → TransportHint
hint_after transport_version hint upgraded = if transport_version == 2 then hint_v2 else elim hint [
  | hint_unknown ↦ hint_v1_only
  | hint_v1_only ↦ (if upgraded then hint_unknown else hint_v1_only)
  | hint_v2 ↦ hint_v2
]

-- `record_connected`.
unfoldable pub after_handshake : ℕ → ℕ → ℕ → Entry → Entry
unfolding hint_after
after_handshake now services transport_version e = record e {
  last_success = now;
  last_attempt_failed = false;
  failures = 0;
  services = services;
  transport =
      hint_after transport_version e.transport
        (advertises_v2 services && not (advertises_v2 e.services));
}

-- The counters in `record_ended`.
unfoldable pub counted : Outcome → Entry → Entry
unfolding is_short_session
counted (our_fault _) e = e
counted other_chain e = record e { last_attempt_failed = false; failures = 0 }
counted violated e = record e { last_attempt_failed = false; failures = 0 }
counted (disconnected uptime_secs silent) e = record e {
  last_attempt_failed = false;
  failures = 0;
  short_sessions =
      (if is_short_session (disconnected uptime_secs silent)
        then saturating_inc e.short_sessions
        else 0);
}
counted (failed _) e = record e { last_attempt_failed = true; failures = saturating_inc e.failures }

abbrev pub delay_of : Outcome → Entry → ℕ
delay_of outcome e =
    retry_delay_secs outcome e.origin (connected_before e) e.failures e.short_sessions

-- `record_ended`: the counters, then the retry, scheduled with the random float `r`.
unfoldable pub after_end : F32 → ℕ → ℕ → Outcome → Entry → Entry
after_end f now r outcome e =
    let c = counted outcome e in
    record c { next_attempt = saturating_add now (jitter f (delay_of outcome c) r) }
