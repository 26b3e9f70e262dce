-- ===== src/Session/Silence.antt =====
-- That a session of observer/src/protocol.rs ends whose peer answers no ping.
use p2p_observer.Common.{
  ℕ, ◌+◌, ◌<◌, ◌≡◌, ◌≢◌, refl, false, List, [], ◌∷◌, none, arith, length, ltb, Option-cases, inl,
  inr, Bool-cases, All,
}
use p2p_observer.Common.Map.{has}
use p2p_observer.Session.Bucket.{F64Laws}
use p2p_observer.Session.Dispatch.{
  Library, Pass, tick, received, handle_message, pass, ping_tick, run_loop,
}
use p2p_observer.Session.Invariant.{
  Holds, on_ok, on_ended, Keeping, and_then-Holds, imp-Holds, loosen-Holds,
}
use p2p_observer.Session.Invariant.Dispatched.{dispatch-Handled}
use p2p_observer.Session.Invariant.Kept.{ping_tick-Keeps}
use p2p_observer.Session.Messages.{pong}
use p2p_observer.Session.State.{Connection, Error, Result, ended}
use p2p_observer.Session.Stats.{
  ConnectionStats, Command-discrete, is_empty, ping_timed_out, push_back, record_message,
  record_ping,
}

-- A ping is out, and the last answer came at some time.
abbrev pub Owes : ℕ → ConnectionStats → Type 0
Owes since st = (st.last_pong ≡ since) × (is_empty st.outstanding_pings ≡ false)

-- No message of the passes is a pong.
abbrev pub Unanswered : {Header : Type 0} → Pass Header → Type 0
Unanswered (tick now) = Unit
Unanswered (received now msg) = (nonce : ℕ) → msg ≢ pong nonce

-- A tick comes before the deadline.
abbrev pub Early : {Header : Type 0} → ℕ → Pass Header → Type 0
Early since (tick now) = now.instant < since + 1200000
Early since (received now msg) = Unit

push_back-nonempty : (n x : ℕ) (xs : List ℕ) → is_empty (push_back (1 + n) x xs) ≡ false
unfolding push_back
push_back-nonempty n x [] = ground arith
push_back-nonempty n x (y ∷ []) = ground arith
push_back-nonempty n x (y ∷ z ∷ ys) = ground arith

record_ping-Owes :
    (since nonce : ℕ) (st : ConnectionStats) → Owes since st → Owes since (record_ping nonce st)
unfolding record_ping
record_ping-Owes since nonce st h = (h.0, push_back-nonempty 9 nonce st.outstanding_pings)

record_message-Owes :
    (since : ℕ) (c : List ℕ) (st : ConnectionStats)
    → Owes since st
    → Owes since (record_message c st)
unfolding record_message
record_message-Owes since c st h =
    elim (Bool-cases (has Command-discrete c st.messages_by_command)) [
      | inl known ↦ rw (known, record_message) h
      | inr new ↦ elim (Bool-cases (ltb (length st.messages_by_command) 64)) [
        | inl room ↦ rw (new, room, record_message) h
        | inr full ↦ rw (new, full, record_message) h
      ]
    ]

on_time :
    (since now : ℕ) (st : ConnectionStats)
    → Owes since st
    → ping_timed_out now st ≡ none
    → now < since + 1200000
unfolding ping_timed_out
on_time since now st h e = ground (arith, h.0, h.1)

module _ {Header : Type 0} (lib : Library Header) (l : F64Laws lib.f64) where
  abbrev P : ℕ → Connection Header → Type 0
  P since = Keeping lib.bitcoin lib.f64 l (Owes since)

  abbrev Any : Error → Connection Header → Type 0
  Any e s = Unit

  pass-Early :
      (since : ℕ) (p : Pass Header) (s : Connection Header)
      → Unanswered p
      → P since s
      → Holds (λ _ s'. Early since p × P since s') Any (pass lib p s)
  unfolding pass handle_message
  pass-Early since (tick now) s quiet h = elim (Option-cases (ping_timed_out now.instant s.stats)) [
    | inl e ↦
        loosen-Holds
          (ping_tick-Keeps lib l (Owes since) (λ _. Unit) tt now s
            (record_ping-Owes since now.unix_ms) h λ waited late. tt)
          (λ _ s' h'. (on_time since now.instant s.stats h.0 e, h')) λ _ _ _. tt
    | inr (waited, e) ↦ rw (e, ping_tick) (on_ended tt)
  ]
  pass-Early since (received now msg) s quiet h =
      let owes = record_message-Owes since (lib.command msg) s.stats h.0 in
      loosen-Holds
        (dispatch-Handled lib l (Owes since) now msg
          (record s { stats = record_message (lib.command msg) s.stats }) (λ st o. o)
          (λ nonce e. absurd (quiet nonce e)) (owes, h.1, h.2, h.3))
        (λ _ s' h'. (tt, h')) λ _ _ _. tt

  run_loop-Early :
      (since : ℕ) (ps : List (Pass Header)) (s : Connection Header)
      → All Unanswered ps
      → P since s
      → Holds (λ _ s'. All (Early since) ps × P since s') Any (run_loop lib ps s)
  unfolding run_loop
  run_loop-Early since [] s quiet h = on_ok (tt, h)
  run_loop-Early since (p ∷ ps) s quiet h =
      and_then-Holds (pass-Early since p s quiet.0 h) λ _ s1 (early, h1).
        imp-Holds (run_loop-Early since ps s1 quiet.1 h1)
          λ _ s' (all_early, h'). ((early, all_early), h')

  ended_late :
      (since : ℕ) (ps : List (Pass Header)) (r : Result (Connection Header) Unit)
      → ¬ All (Early since) ps
      → Holds (λ _ s'. All (Early since) ps × P since s') Any r
      → (e : Error) × (s' : Connection Header) × (r ≡ ended e s')
  ended_late since ps _ late (on_ok h) = absurd (late h.0)
  ended_late since ps _ late (on_ended h) = (_, _, refl)

  -- A session with a ping out, over a sound tree without checkpoints, ends, if no message is a pong
  -- and the ping timer fires once twenty minutes or more after the last answer, whatever else the
  -- peer sends in the meantime: a peer that answers nothing does not hold its place for ever.
  pub run_loop-ends :
      (since : ℕ) (ps : List (Pass Header)) (s : Connection Header)
      → All Unanswered ps
      → ¬ All (Early since) ps
      → Keeping lib.bitcoin lib.f64 l (Owes since) s
      → (e : Error) × (s' : Connection Header) × (run_loop lib ps s ≡ ended e s')
  run_loop-ends since ps s quiet late h =
      ended_late since ps (run_loop lib ps s) late (run_loop-Early since ps s quiet h)
