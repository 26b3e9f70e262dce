-- ===== src/Policy/Delay.antt =====
-- How long an address waits: bounds, monotony and the absence of overflow.
use native.Mathlib.Nat.{pow-suc, pow-zero}
use p2p_observer.Common.{ℕ, zero, suc, ◌-◌, ◌*◌, ◌^◌, ◌≤◌, min, ◌≡◌, Bool, true, false, arith}
use p2p_observer.Float.{F32, F32Laws}
use p2p_observer.Policy.{
  Origin, manual, gossip, Reason, Outcome, failed, disconnected, other_chain, violated, our_fault,
  proxy_unreachable, network_unreachable, network_disabled, exp_backoff, retry_delay_secs,
  gossip_delay, jitter, u32_max, bad_cap_secs, stable_reconnect_secs,
}

pow_pos : (b n : ℕ) → 1 ≤ b → 1 ≤ b ^ n
pow_pos b zero h = rw pow-zero (omega arith)
pow_pos b (suc n) h = rw pow-suc (grind (arith, pow_pos b n h))

pow_mono : (b n m : ℕ) → 1 ≤ b → n ≤ m → b ^ n ≤ b ^ m
pow_mono b zero m h k = rw pow-zero (pow_pos b m h)
pow_mono b (suc n) zero h k = absurd (omega arith)
pow_mono b (suc n) (suc m) h k = simp pow-suc (grind (arith, pow_mono b n m h (omega arith)))

le-mul : (b x y : ℕ) → x ≤ y → b * x ≤ b * y
le-mul b x y h = grind arith

-- For a base of at least one and a cap that is a `u32`, the saturating product is the exact one,
-- clamped: no product or power overflows into the result.
exp_backoff_exact :
    (base factor n cap : ℕ)
    → 1 ≤ base
    → cap ≤ u32_max
    → exp_backoff base factor n cap ≡ min (base * factor ^ (n - 1)) cap
unfolding exp_backoff
exp_backoff_exact base factor n cap h k = grind (arith, le-mul base u32_max (factor ^ (n - 1)))

exp_backoff_mono :
    (base factor n m cap : ℕ)
    → 1 ≤ factor
    → n ≤ m
    → exp_backoff base factor n cap ≤ exp_backoff base factor m cap
unfolding exp_backoff
exp_backoff_mono base factor n m cap h k =
    let p = pow_mono factor (n - 1) (m - 1) h (omega arith) in
    omega (
      arith,
      le-mul base (min (factor ^ (n - 1)) u32_max) (min (factor ^ (m - 1)) u32_max) (omega arith),
    )

exp_backoff_bounds :
    (base factor n cap : ℕ)
    → 1 ≤ factor
    → base ≤ cap
    → cap ≤ u32_max
    → (base ≤ exp_backoff base factor n cap) × (exp_backoff base factor n cap ≤ cap)
unfolding exp_backoff
exp_backoff_bounds base factor n cap h k l =
    let p = pow_pos factor (n - 1) h in
    let q = le-mul base 1 (min (factor ^ (n - 1)) u32_max) (omega arith) in
    (omega arith, omega arith)

eviction_bounds : (n : ℕ) → (60 ≤ exp_backoff 60 2 n 3600) × (exp_backoff 60 2 n 3600 ≤ 3600)
eviction_bounds n = exp_backoff_bounds 60 2 n 3600 (omega arith) (omega arith) (omega arith)

was_good_bounds : (n : ℕ) → (60 ≤ exp_backoff 60 2 n 21600) × (exp_backoff 60 2 n 21600 ≤ 21600)
was_good_bounds n = exp_backoff_bounds 60 2 n 21600 (omega arith) (omega arith) (omega arith)

bad_bounds : (n : ℕ) → (3600 ≤ exp_backoff 3600 4 n 604800) × (exp_backoff 3600 4 n 604800 ≤ 604800)
bad_bounds n = exp_backoff_bounds 3600 4 n 604800 (omega arith) (omega arith) (omega arith)

abbrev Within : ℕ → Type 0
Within d = (stable_reconnect_secs ≤ d) × (d ≤ bad_cap_secs)

gossip_delay-Within :
    (outcome : Outcome) (before : Bool) (failures shorts : ℕ)
    → Within (gossip_delay outcome before failures shorts)
unfolding gossip_delay
gossip_delay-Within other_chain before failures shorts = omega arith
gossip_delay-Within violated before failures shorts = omega arith
gossip_delay-Within (our_fault proxy_unreachable) before failures shorts = omega arith
gossip_delay-Within (our_fault network_unreachable) before failures shorts = omega arith
gossip_delay-Within (our_fault network_disabled) before failures shorts = omega arith
gossip_delay-Within (disconnected uptime silent) before failures shorts =
    ground (arith, eviction_bounds shorts)
gossip_delay-Within (failed _) before failures shorts =
    ground (arith, was_good_bounds failures, bad_bounds failures)

-- Every delay, before the jitter, lies between five seconds and a week, whatever the outcome and
-- the counters.
retry_delay_secs_bounds :
    (outcome : Outcome) (origin : Origin) (connected_before : Bool) (failures short_sessions : ℕ)
    → (stable_reconnect_secs
        ≤ retry_delay_secs outcome origin connected_before failures short_sessions)
      × (retry_delay_secs outcome origin connected_before failures short_sessions ≤ bad_cap_secs)
unfolding retry_delay_secs
retry_delay_secs_bounds other_chain origin before failures shorts = omega arith
retry_delay_secs_bounds outcome manual before failures shorts = omega arith
retry_delay_secs_bounds outcome gossip before failures shorts =
    gossip_delay-Within outcome before failures shorts

-- For one outcome, origin and history, more failures and more short sessions never shorten the
-- wait.
retry_delay_secs_mono :
    (outcome : Outcome) (origin : Origin) (connected_before : Bool) (f f' s s' : ℕ)
    → f ≤ f'
    → s ≤ s'
    → retry_delay_secs outcome origin connected_before f s
      ≤ retry_delay_secs outcome origin connected_before f' s'
unfolding retry_delay_secs
retry_delay_secs_mono other_chain origin before f f' s s' h k = omega arith
retry_delay_secs_mono outcome manual before f f' s s' h k = omega arith
retry_delay_secs_mono violated gossip before f f' s s' h k = omega arith
retry_delay_secs_mono (our_fault reason) gossip before f f' s s' h k = omega arith
retry_delay_secs_mono (disconnected uptime silent) gossip before f f' s s' h k =
    ground (arith, exp_backoff_mono 60 2 s s' 3600)
retry_delay_secs_mono (failed _) gossip before f f' s s' h k =
    ground (arith, exp_backoff_mono 60 2 f f' 21600, exp_backoff_mono 3600 4 f f' 604800)

square-pow : (n : ℕ) → 2 ^ n ≤ 4 ^ n
square-pow zero = omega arith
square-pow (suc n) = simp pow-suc (omega (arith, square-pow n))

-- After the same failure an address that never connected waits at least as long as one that has.
never_connected_waits :
    (reason : Reason) (origin : Origin) (failures short_sessions : ℕ)
    → retry_delay_secs (failed reason) origin true failures short_sessions
      ≤ retry_delay_secs (failed reason) origin false failures short_sessions
unfolding retry_delay_secs
never_connected_waits reason manual failures shorts = omega arith
never_connected_waits reason gossip failures shorts = omega (
  arith,
  exp_backoff_exact 60 2 failures 21600 (omega arith) (omega arith),
  exp_backoff_exact 3600 4 failures 604800 (omega arith) (omega arith),
  square-pow (failures - 1),
)

-- If the float operations obey their laws, jitter never shortens a wait to nothing, and stays a
-- `u32`.
pub jitter_bounds :
    (f : F32) (laws : F32Laws f) (delay_secs r : ℕ)
    → (1 ≤ jitter f delay_secs r) × (jitter f delay_secs r ≤ u32_max)
unfolding jitter
jitter_bounds f laws delay_secs r =
    let x = f.round (
      f.fadd (f.of_nat delay_secs) (
        f.fmul (f.fmul (f.of_nat delay_secs) (f.ratio 1 10))
          (f.fsub (f.fmul r (f.of_nat 2)) (f.of_nat 1)))) in
    let low = laws.to_u32_mono (f.of_nat 1) (f.fmax x (f.of_nat 1)) (laws.fle-fmax x 1) in
    let one = laws.to_u32-of_nat 1 (omega arith) in
    let high = laws.to_u32-lt (f.fmax x (f.of_nat 1)) in (omega arith, omega arith)
