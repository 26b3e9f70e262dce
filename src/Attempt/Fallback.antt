-- ===== src/Attempt/Fallback.antt =====
-- When observer/src/connection.rs falls back to the v1 transport, and what is reported of it.
use p2p_observer.Common.{◌≡◌, ◌↔◌, refl, true, false, arith, Bool-cases, inl, inr}
use p2p_observer.Attempt.{AnyError, is_tcp_level}
use p2p_observer.Attempt.Report.{Connected, connect_and_run, detect, no_session, session}
use p2p_observer.Book.Entry.{TransportHint, hint_unknown, hint_v1_only, hint_v2}

same_error : (e d : AnyError) → no_session e ≡ no_session d → e ≡ d
same_error e d h = cc h

-- An address is reported as one that speaks only v1 exactly if its transport was not known, and v2
-- failed in another way than TCP did.
connect_and_run_v1_only_iff :
    (hint : TransportHint) (v2 v1 : Connected)
    → ((connect_and_run hint v2 v1).1 ≡ true)
      ↔ ((hint ≡ hint_unknown) × (e : AnyError) × (v2 ≡ no_session e) × (is_tcp_level e ≡ false))
unfolding connect_and_run detect
connect_and_run_v1_only_iff hint_v2 v2 v1 = (λ h. absurd (cc h), λ h. absurd (cc h.0))
connect_and_run_v1_only_iff hint_v1_only v2 v1 = (λ h. absurd (cc h), λ h. absurd (cc h.0))
connect_and_run_v1_only_iff hint_unknown (session end) v1 =
    (λ h. absurd (cc h), λ h. absurd (cc h.2))
connect_and_run_v1_only_iff hint_unknown (no_session e) v1 = elim (Bool-cases (is_tcp_level e)) [
  | inl tcp ↦ (λ h. absurd (ground arith), λ h. absurd (ground (arith, same_error e h.1 h.2)))
  | inr other ↦ (λ h. (refl, e, refl, other), λ h. rw (other, connect_and_run, detect) refl)
]
