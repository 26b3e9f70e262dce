-- ===== src/Policy.antt =====
-- observer/src/addresses/policy.rs: retry delays, classes and forget rules, all of them functions
-- of their arguments and an explicit `now`. Seconds are `u32`, counters `u8`; both saturate.
pub mod Delay
pub mod Forget
use p2p_observer.Common.{ℕ, ◌+◌, ◌-◌, ◌*◌, ◌^◌, min, Bool, true, false, ltb, leb, if◌then◌else◌}
use p2p_observer.Float.{F32}

abbrev pub u32_max : ℕ
u32_max = 4294967295

abbrev pub u8_max : ℕ
u8_max = 255

abbrev pub short_session_secs : ℕ
short_session_secs = 31

abbrev pub max_reconnects_per_tick : ℕ
max_reconnects_per_tick = 25

abbrev pub manual_retry_secs : ℕ
manual_retry_secs = 60

abbrev pub other_chain_secs : ℕ
other_chain_secs = 24 * 60 * 60

abbrev pub violation_secs : ℕ
violation_secs = 60 * 60

abbrev pub stable_reconnect_secs : ℕ
stable_reconnect_secs = 5

abbrev pub proxy_unreachable_secs : ℕ
proxy_unreachable_secs = 30

abbrev pub network_unreachable_secs : ℕ
network_unreachable_secs = 60 * 60

abbrev pub network_disabled_secs : ℕ
network_disabled_secs = 24 * 60 * 60

abbrev pub eviction_base_secs : ℕ
eviction_base_secs = 60

abbrev pub eviction_cap_secs : ℕ
eviction_cap_secs = 60 * 60

abbrev pub was_good_base_secs : ℕ
was_good_base_secs = 60

abbrev pub was_good_cap_secs : ℕ
was_good_cap_secs = 6 * 60 * 60

abbrev pub bad_base_secs : ℕ
bad_base_secs = 60 * 60

abbrev pub bad_cap_secs : ℕ
bad_cap_secs = 7 * 24 * 60 * 60

abbrev pub was_good_forget_after_secs : ℕ
was_good_forget_after_secs = 30 * 24 * 60 * 60

abbrev pub bad_forget_failures_if_stale : ℕ
bad_forget_failures_if_stale = 3

abbrev pub bad_forget_failures_always : ℕ
bad_forget_failures_always = 5

abbrev pub bad_announce_grace_secs : ℕ
bad_announce_grace_secs = 30 * 24 * 60 * 60

pub data Origin : Type 0 where
  manual gossip : Origin

pub data Reason : Type 0 where
  connection_refused host_unreachable tcp_connect_timeout v2_transport_timeout : Reason
  version_handshake_timeout v2_transport_handshake version_handshake unexpected_eof other : Reason

pub data OurFault : Type 0 where
  network_unreachable proxy_unreachable network_disabled : OurFault

pub data Outcome : Type 0 where
  failed : Reason → Outcome
  -- How long the session ran, and whether the peer sent no message at all.
  disconnected : ℕ → Bool → Outcome
  other_chain violated : Outcome
  our_fault : OurFault → Outcome

unfoldable pub counts_as_failure : Outcome → Bool
counts_as_failure (failed _) = true
counts_as_failure _ = false

unfoldable pub is_short_session : Outcome → Bool
is_short_session (disconnected uptime_secs silent) =
    if silent then true else ltb uptime_secs short_session_secs
is_short_session _ = false

pub data Class : Type 0 where
  unknown good was_good bad : Class

unfoldable pub classify : Bool → ℕ → Bool → Class
classify tried last_success last_attempt_failed =
    if ltb 0 last_success
    then (if last_attempt_failed then was_good else good)
    else (if tried then bad else unknown)

-- `u32::saturating_mul`, `u32::saturating_pow`, `u32::saturating_add` and `u8::saturating_add(1)`.
abbrev pub saturating_mul : ℕ → ℕ → ℕ
saturating_mul a b = min (a * b) u32_max

abbrev pub saturating_pow : ℕ → ℕ → ℕ
saturating_pow a e = min (a ^ e) u32_max

abbrev pub saturating_add : ℕ → ℕ → ℕ
saturating_add a b = min (a + b) u32_max

abbrev pub saturating_inc : ℕ → ℕ
saturating_inc n = min (n + 1) u8_max

unfoldable pub exp_backoff : ℕ → ℕ → ℕ → ℕ → ℕ
exp_backoff base factor n cap = min (saturating_mul base (saturating_pow factor (n - 1))) cap

our_fault_delay : OurFault → ℕ
our_fault_delay proxy_unreachable = proxy_unreachable_secs
our_fault_delay network_unreachable = network_unreachable_secs
our_fault_delay network_disabled = network_disabled_secs

-- The `match` at the end of `retry_delay_secs`.
gossip_delay : Outcome → Bool → ℕ → ℕ → ℕ
unfolding is_short_session our_fault_delay
gossip_delay other_chain connected_before failures short_sessions = other_chain_secs
gossip_delay violated connected_before failures short_sessions = violation_secs
gossip_delay (our_fault reason) connected_before failures short_sessions = our_fault_delay reason
gossip_delay (disconnected uptime_secs silent) connected_before failures short_sessions =
    if is_short_session (disconnected uptime_secs silent)
    then exp_backoff eviction_base_secs 2 short_sessions eviction_cap_secs
    else stable_reconnect_secs
gossip_delay (failed _) connected_before failures short_sessions =
    if connected_before
    then exp_backoff was_good_base_secs 2 failures was_good_cap_secs
    else exp_backoff bad_base_secs 4 failures bad_cap_secs

unfoldable pub retry_delay_secs : Outcome → Origin → Bool → ℕ → ℕ → ℕ
unfolding gossip_delay
retry_delay_secs other_chain _ connected_before failures short_sessions = other_chain_secs
retry_delay_secs _ manual connected_before failures short_sessions = manual_retry_secs
retry_delay_secs outcome gossip connected_before failures short_sessions =
    gossip_delay outcome connected_before failures short_sessions

-- Spread a delay by a tenth either way; `r` is a float in [0, 1).
unfoldable pub jitter : F32 → ℕ → ℕ → ℕ
jitter f delay_secs r =
    let spread = f.fmul (f.of_nat delay_secs) (f.ratio 1 10) in
    let offset = f.fmul spread (f.fsub (f.fmul r (f.of_nat 2)) (f.of_nat 1)) in
    f.to_u32 (f.fmax (f.round (f.fadd (f.of_nat delay_secs) offset)) (f.of_nat 1))

unfoldable pub should_forget : ℕ → Origin → ℕ → ℕ → ℕ → Bool
should_forget now manual last_success last_announced failures = false
should_forget now gossip last_success last_announced failures =
    if ltb 0 last_success
    then ltb was_good_forget_after_secs (now - last_success)
    else if leb bad_forget_failures_always failures
    then true
    else if leb bad_forget_failures_if_stale failures
    then ltb bad_announce_grace_secs (now - last_announced)
    else false
