-- ===== src/Policy/Forget.antt =====
-- When an address is dropped from the book, and which class its history puts it in.
use p2p_observer.Common.{ℕ, ◌+◌, ◌≤◌, ◌<◌, ◌≡◌, ◌↔◌, ◌⊎◌, Bool, true, false, arith}
use p2p_observer.Policy.{
  Origin, manual, gossip, unknown, good, classify, should_forget, bad_announce_grace_secs,
  was_good_forget_after_secs,
}

-- Exactly what an address has to be to be forgotten.
abbrev pub Forgettable : ℕ → Origin → ℕ → ℕ → ℕ → Type 0
Forgettable now origin last_success last_announced failures =
    (origin ≡ gossip)
    × (((0 < last_success) × (last_success + was_good_forget_after_secs < now))
        ⊎ ((last_success ≡ 0) × (5 ≤ failures))
        ⊎ ((last_success ≡ 0) × (3 ≤ failures) × (last_announced + bad_announce_grace_secs < now)))

forget_sound :
    (now : ℕ) (origin : Origin) (last_success last_announced failures : ℕ)
    → should_forget now origin last_success last_announced failures ≡ true
    → Forgettable now origin last_success last_announced failures
unfolding should_forget
forget_sound now manual s a f h = cc
forget_sound now gossip s a f h = ground arith

forget_complete :
    (now : ℕ) (origin : Origin) (last_success last_announced failures : ℕ)
    → Forgettable now origin last_success last_announced failures
    → should_forget now origin last_success last_announced failures ≡ true
unfolding should_forget
forget_complete now manual s a f h = absurd (cc)
forget_complete now gossip s a f h = ground arith

-- The forget rule holds of a gossiped address alone: one that connected, but not within the last
-- thirty days, or one that never connected and failed five times, or three times with no
-- announcement within the last thirty days.
pub should_forget_iff :
    (now : ℕ) (origin : Origin) (last_success last_announced failures : ℕ)
    → (should_forget now origin last_success last_announced failures ≡ true)
      ↔ Forgettable now origin last_success last_announced failures
should_forget_iff now origin s a f =
    (forget_sound now origin s a f, forget_complete now origin s a f)

-- Once an address may be forgotten it may be forgotten later too, and after more failures.
should_forget_mono :
    (now now' : ℕ) (origin : Origin) (last_success last_announced f f' : ℕ)
    → now ≤ now'
    → f ≤ f'
    → should_forget now origin last_success last_announced f ≡ true
    → should_forget now' origin last_success last_announced f' ≡ true
unfolding should_forget
should_forget_mono now now' manual s a f f' h k e = e
should_forget_mono now now' gossip s a f f' h k e = ground arith

-- The class says whether the address ever connected, and good addresses alone have no failure last.
classify-connected :
    (tried : Bool) (last_success : ℕ) (failed_last : Bool)
    → ((classify tried last_success failed_last ≡ good)
        ↔ ((0 < last_success) × (failed_last ≡ false)))
      × ((classify tried last_success failed_last ≡ unknown)
          ↔ ((last_success ≡ 0) × (tried ≡ false)))
unfolding classify
classify-connected tried last_success failed_last =
    ((λ h. ground arith, λ h. ground arith), (λ h. ground arith, λ h. ground arith))
